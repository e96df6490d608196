-- ===== src/CBra/Soknad.antt =====
-- CBra/uke10/bits.c: the fields of an application (soknad) in 16 bits, a flag in a byte, and the bits of
-- a number as they are printed.
pub mod Fields
pub mod Printed
use in2140_introduksjon_til.Common.Words.{Bytes}
use in2140_introduksjon_til.Common.Bits.{complement}
use in2140_introduksjon_til.Common.{
  ◌==◌, take, ℕ, zero, suc, ◌*◌, ◌/◌, ◌%◌, ◌^◌, bit_and, bit_or, Bool, not, List, [], ◌∷◌, ◌++◌,
}

abbrev pub id_mask : ℕ
id_mask = 31

abbrev pub grade_mask : ℕ
grade_mask = 7 * 2 ^ 5

-- The parameter is an unsigned char.
unfoldable pub hent_karakter : ℕ → ℕ
hent_karakter s = bit_and (s % 2 ^ 8) grade_mask / 2 ^ 5

unfoldable pub hent_donasjon : ℕ → ℕ
hent_donasjon s = s / 2 ^ 8 % 2 ^ 8

unfoldable pub hent_id : ℕ → ℕ
hent_id s = bit_and s id_mask % 2 ^ 8

-- What `print_soknad` prints: id, grade, donation and score.
unfoldable pub print_soknad : ℕ → ℕ × ℕ × ℕ × ℕ
print_soknad s = (hent_id s, hent_karakter s, hent_donasjon s, hent_karakter s * hent_donasjon s)

abbrev pub flag : ℕ
flag = 2 ^ 5

unfoldable pub is_set : ℕ → ℕ
is_set flags = bit_and flags flag

unfoldable pub set_flag : ℕ → ℕ
set_flag flags = bit_or flags flag

-- Of `~(1 << 5)` only the 8 lowest bits matter.
unfoldable pub unset_flag : ℕ → ℕ
unset_flag flags = bit_and flags (complement 8 flag)

-- The inner loop of `printbits`, with `n` bits left: `true` is a 1.
unfoldable pub print_byte : (n : ℕ) → ℕ → List Bool
print_byte zero byte = []
print_byte (suc j) byte = not (bit_and byte (2 ^ j) == 0) ∷ print_byte j byte

-- The outer loop goes from the last byte in memory down to the first one.
unfoldable pub print_bytes : Bytes → List (List Bool)
print_bytes [] = []
print_bytes (b ∷ bs) = print_bytes bs ++ (print_byte 8 b ∷ [])

unfoldable pub printbits : Bytes → (size : ℕ) → List (List Bool)
printbits n size = print_bytes (take size n)
