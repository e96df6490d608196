-- ===== src/CBra/SoknadExamples.antt =====
-- The theorems about CBra/uke10/bits.c at concrete inputs, and what the program prints.
use in2140_introduksjon_til.CBra.Soknad.Fields.{set_flag-unset_flag, print_soknad_lem}
use in2140_introduksjon_til.Common.Words.{Bytes, from_le}
use in2140_introduksjon_til.Common.{length, All, ◌+◌, ◌*◌, ◌^◌, ◌<◌, ◌≡◌, refl, ◌⊎◌, [], ◌∷◌, arith}
use in2140_introduksjon_til.CBra.Soknad.{
  print_soknad, flag, is_set, set_flag, unset_flag, print_bytes, printbits,
}
use in2140_introduksjon_til.CBra.Soknad.Printed.{spelled_bytes, printbits_lem}

print_soknad_lem_example : print_soknad (244 * 2 ^ 8 + 1 * 2 ^ 5 + 18) ≡ (18, 1, 244, 244)
print_soknad_lem_example = print_soknad_lem 244 1 18 (omega arith) (omega arith) (omega arith)

set_flag-unset_flag_example :
    (is_set (set_flag 77) ≡ flag)
    × (is_set (unset_flag 77) ≡ 0)
    × (unset_flag (set_flag 77) ≡ unset_flag 77)
    × (set_flag (unset_flag 77) ≡ set_flag 77)
    × (((is_set 77 ≡ flag) × (set_flag 77 ≡ 77)) ⊎ ((is_set 77 ≡ 0) × (unset_flag 77 ≡ 77)))
    × (set_flag 77 ≡ unset_flag 77 + flag)
    × (set_flag 77 < 2 ^ 8)
set_flag-unset_flag_example = set_flag-unset_flag 77 (omega arith)

-- The second application, as it lies in memory.
abbrev soknad2 : Bytes
soknad2 = 50 ∷ 244 ∷ []

printbits_lem_example :
    (spelled_bytes 0 (printbits soknad2 2) ≡ 62514)
    × All (λ g. length g ≡ 8) (printbits soknad2 2)
    × (length (printbits soknad2 2) ≡ 2)
unfolding from_le
printbits_lem_example = printbits_lem soknad2 2 (omega arith, (omega arith, tt))

-- The program prints one byte of the two.
printed_half : length (printbits soknad2 1) ≡ 1
unfolding printbits print_bytes
printed_half = refl
