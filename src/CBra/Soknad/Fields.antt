-- ===== src/CBra/Soknad/Fields.antt =====
-- CBra/uke10/bits.c: reading the fields of an application, and the flag.
use in2140_introduksjon_til.Common.Bits.{
  bit_and_digit, bit_or_digit, bit_and_nothing, bit_or_nothing, digit_cases,
}
use in2140_introduksjon_til.Common.{
  ℕ, ◌+◌, ◌-◌, ◌*◌, ◌/◌, ◌%◌, ◌^◌, ◌<◌, bit_and, bit_or, ◌≡◌, refl, ◌⊎◌, inl, inr, arith,
}
use in2140_introduksjon_til.CBra.Soknad.{
  hent_karakter, hent_donasjon, hent_id, print_soknad, flag, is_set, set_flag, unset_flag,
}

bit_and_1 : (f : ℕ) → bit_and f 1 ≡ f % 2
bit_and_1 f = omega (arith, bit_and_digit f 1, bit_and_nothing (f / 2))

bit_and_3 : (f : ℕ) → bit_and f 3 ≡ f % 4
bit_and_3 f = omega (arith, bit_and_digit f 3, bit_and_1 (f / 2))

bit_and_7 : (f : ℕ) → bit_and f 7 ≡ f % 8
bit_and_7 f = omega (arith, bit_and_digit f 7, bit_and_3 (f / 2))

bit_and_15 : (f : ℕ) → bit_and f 15 ≡ f % 16
bit_and_15 f = omega (arith, bit_and_digit f 15, bit_and_7 (f / 2))

bit_and_31 : (f : ℕ) → bit_and f 31 ≡ f % 32
bit_and_31 f = omega (arith, bit_and_digit f 31, bit_and_15 (f / 2))

bit_and_14 : (f : ℕ) → bit_and f 14 ≡ f / 2 % 8 * 2
bit_and_14 f = omega (arith, bit_and_digit f 14, bit_and_7 (f / 2))

bit_and_28 : (f : ℕ) → bit_and f 28 ≡ f / 4 % 8 * 4
bit_and_28 f = omega (arith, bit_and_digit f 28, bit_and_14 (f / 2))

bit_and_56 : (f : ℕ) → bit_and f 56 ≡ f / 8 % 8 * 8
bit_and_56 f = omega (arith, bit_and_digit f 56, bit_and_28 (f / 2))

bit_and_112 : (f : ℕ) → bit_and f 112 ≡ f / 16 % 8 * 16
bit_and_112 f = omega (arith, bit_and_digit f 112, bit_and_56 (f / 2))

bit_and_224 : (f : ℕ) → bit_and f 224 ≡ f / 32 % 8 * 32
bit_and_224 f = omega (arith, bit_and_digit f 224, bit_and_112 (f / 2))

-- An application with a donation, a grade and an id that fit their 8, 3 and 5 bits: printing it
-- gives them back, and as the score the grade times the donation.
pub print_soknad_lem :
    (donation grade i : ℕ)
    → donation < 2 ^ 8
    → grade < 2 ^ 3
    → i < 2 ^ 5
    → print_soknad (donation * 2 ^ 8 + grade * 2 ^ 5 + i) ≡ (i, grade, donation, grade * donation)
unfolding print_soknad hent_id hent_karakter hent_donasjon
print_soknad_lem donation grade i hd hg hi =
    let s = donation * 2 ^ 8 + grade * 2 ^ 5 + i in
    let same_id : bit_and s 31 % 2 ^ 8 ≡ i = omega (arith, bit_and_31 s) in
    let same_grade : bit_and (s % 2 ^ 8) 224 / 2 ^ 5 ≡ grade =
      omega (arith, bit_and_224 (s % 2 ^ 8)) in
    let same_donation : s / 2 ^ 8 % 2 ^ 8 ≡ donation = omega arith in
    rw (same_id, same_grade, same_donation) refl

bit_and_2 : (f : ℕ) → bit_and f 2 ≡ f / 2 % 2 * 2
bit_and_2 f = omega (arith, bit_and_digit f 2, bit_and_1 (f / 2))

bit_and_4 : (f : ℕ) → bit_and f 4 ≡ f / 4 % 2 * 4
bit_and_4 f = omega (arith, bit_and_digit f 4, bit_and_2 (f / 2))

bit_and_8 : (f : ℕ) → bit_and f 8 ≡ f / 8 % 2 * 8
bit_and_8 f = omega (arith, bit_and_digit f 8, bit_and_4 (f / 2))

bit_and_16 : (f : ℕ) → bit_and f 16 ≡ f / 16 % 2 * 16
bit_and_16 f = omega (arith, bit_and_digit f 16, bit_and_8 (f / 2))

bit_and_32 : (f : ℕ) → bit_and f 32 ≡ f / 32 % 2 * 32
bit_and_32 f = omega (arith, bit_and_digit f 32, bit_and_16 (f / 2))

bit_or_1 : (f : ℕ) → bit_or f 1 ≡ f + (1 - f % 2)
bit_or_1 f = omega (arith, bit_or_digit f 1, bit_or_nothing (f / 2))

bit_or_2 : (f : ℕ) → bit_or f 2 ≡ f + (1 - f / 2 % 2) * 2
bit_or_2 f = omega (arith, bit_or_digit f 2, bit_or_1 (f / 2))

bit_or_4 : (f : ℕ) → bit_or f 4 ≡ f + (1 - f / 4 % 2) * 4
bit_or_4 f = omega (arith, bit_or_digit f 4, bit_or_2 (f / 2))

bit_or_8 : (f : ℕ) → bit_or f 8 ≡ f + (1 - f / 8 % 2) * 8
bit_or_8 f = omega (arith, bit_or_digit f 8, bit_or_4 (f / 2))

bit_or_16 : (f : ℕ) → bit_or f 16 ≡ f + (1 - f / 16 % 2) * 16
bit_or_16 f = omega (arith, bit_or_digit f 16, bit_or_8 (f / 2))

bit_or_32 : (f : ℕ) → bit_or f 32 ≡ f + (1 - f / 32 % 2) * 32
bit_or_32 f = omega (arith, bit_or_digit f 32, bit_or_16 (f / 2))

bit_and_6 : (f : ℕ) → f < 8 → bit_and f 6 ≡ f - f % 2
bit_and_6 f h = omega (arith, bit_and_digit f 6, bit_and_3 (f / 2))

bit_and_13 : (f : ℕ) → f < 16 → bit_and f 13 ≡ f - f / 2 % 2 * 2
bit_and_13 f h = omega (arith, bit_and_digit f 13, bit_and_6 (f / 2) (omega arith))

bit_and_27 : (f : ℕ) → f < 32 → bit_and f 27 ≡ f - f / 4 % 2 * 4
bit_and_27 f h = omega (arith, bit_and_digit f 27, bit_and_13 (f / 2) (omega arith))

bit_and_55 : (f : ℕ) → f < 64 → bit_and f 55 ≡ f - f / 8 % 2 * 8
bit_and_55 f h = omega (arith, bit_and_digit f 55, bit_and_27 (f / 2) (omega arith))

bit_and_111 : (f : ℕ) → f < 128 → bit_and f 111 ≡ f - f / 16 % 2 * 16
bit_and_111 f h = omega (arith, bit_and_digit f 111, bit_and_55 (f / 2) (omega arith))

bit_and_223 : (f : ℕ) → f < 256 → bit_and f 223 ≡ f - f / 32 % 2 * 32
bit_and_223 f h = omega (arith, bit_and_digit f 223, bit_and_111 (f / 2) (omega arith))

-- The flag of a byte: after `set_flag` it is set, after `unset_flag` it is not, and a byte of which the
-- flag was set stays the same when it is set again; setting it and then unsetting it gives the byte
-- without the flag, and the other way round with it. Both keep the other bits, and a byte a byte.
pub set_flag-unset_flag :
    (f : ℕ)
    → f < 2 ^ 8
    → (is_set (set_flag f) ≡ flag)
      × (is_set (unset_flag f) ≡ 0)
      × (unset_flag (set_flag f) ≡ unset_flag f)
      × (set_flag (unset_flag f) ≡ set_flag f)
      × (((is_set f ≡ flag) × (set_flag f ≡ f)) ⊎ ((is_set f ≡ 0) × (unset_flag f ≡ f)))
      × (set_flag f ≡ unset_flag f + flag)
      × (set_flag f < 2 ^ 8)
unfolding is_set set_flag unset_flag
set_flag-unset_flag f h =
    let with_flag = bit_or_32 f in
    let without = bit_and_223 f h in
    let byte : bit_or f 32 < 2 ^ 8 = omega arith in
    (
      omega (arith, bit_and_32 (bit_or f 32)),
      omega (arith, bit_and_32 (bit_and f 223)),
      omega (arith, bit_and_223 (bit_or f 32) byte),
      omega (arith, bit_or_32 (bit_and f 223)),
      elim (digit_cases (f / 32 % 2) (omega arith)) [
        | inl e ↦ inr (omega (arith, bit_and_32 f), omega arith)
        | inr e ↦ inl (omega (arith, bit_and_32 f), omega arith)
      ],
      omega arith,
      byte,
    )
