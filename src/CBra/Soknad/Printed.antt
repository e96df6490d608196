-- ===== src/CBra/Soknad/Printed.antt =====
-- CBra/uke10/bits.c: what `printbits` prints is the number in binary.
use in2140_introduksjon_til.Eksam.D1.Header.{AreBytes}
use in2140_introduksjon_til.Common.Words.{Bytes, from_le}
use in2140_introduksjon_til.CBra.Soknad.{print_byte, print_bytes, printbits}
use in2140_introduksjon_til.Common.Bits.{bit_and_digit, bit_and_nothing, digit_cases}
use native.Mathlib.Nat.{pow-suc}
use in2140_introduksjon_til.Common.{
  ◌==◌, if◌then◌else◌, ==_ne, length, take, All, length-append, length-take, ℕ, zero, suc, ◌+◌, ◌*◌,
  ◌/◌, ◌%◌, ◌^◌, ◌<◌, min, bit_and, ◌≡◌, refl, ap, ◌∙◌, ◌⊎◌, inl, inr, Bool, not, List, [], ◌∷◌,
  ◌++◌, arith,
}

-- A printed 1 or 0, and the number that such digits spell, the highest one first.
abbrev pub digit : Bool → ℕ
digit b = if b then 1 else 0

unfoldable pub spelled : (before : ℕ) → List Bool → ℕ
spelled before [] = before
spelled before (b ∷ bs) = spelled (before * 2 + digit b) bs

-- The number that groups of 8 digits spell.
unfoldable pub spelled_bytes : (before : ℕ) → List (List Bool) → ℕ
spelled_bytes before [] = before
spelled_bytes before (g ∷ gs) = spelled_bytes (spelled before g) gs

-- The `j`-th digit of a number.
unfoldable bit_at : ℕ → ℕ → ℕ
bit_at zero n = n % 2
bit_at (suc j) n = bit_at j (n / 2)

bit_and-pow :
    (j n : ℕ)
    → ((bit_at j n ≡ 0) × (bit_and n (2 ^ j) ≡ 0))
      ⊎ ((bit_at j n ≡ 1) × (bit_and n (2 ^ j) ≡ 2 ^ j) × (0 < 2 ^ j))
unfolding bit_at
bit_and-pow zero n = elim (digit_cases (n % 2) (omega arith)) [
  | inl e ↦ inl (e, omega (arith, bit_and_digit n 1, bit_and_nothing (n / 2)))
  | inr e ↦ inr (e, omega (arith, bit_and_digit n 1, bit_and_nothing (n / 2)), omega arith)
]
bit_and-pow (suc j) n = elim (bit_and-pow j (n / 2)) [
  | inl (e, none_set) ↦
      let half : 2 ^ suc j / 2 ≡ 2 ^ j = omega (arith, pow-suc 2 j) in
      let upper = ap (bit_and (n / 2)) half in
      inl (e, omega (arith, bit_and_digit n (2 ^ suc j), pow-suc 2 j))
  | inr (e, all_set, some_bit) ↦
      let half : 2 ^ suc j / 2 ≡ 2 ^ j = omega (arith, pow-suc 2 j) in
      let upper = ap (bit_and (n / 2)) half in
      inr (e, omega (arith, bit_and_digit n (2 ^ suc j), pow-suc 2 j), omega (arith, pow-suc 2 j))
]

printed_digit : (j n : ℕ) → digit (not (bit_and n (2 ^ j) == 0)) ≡ bit_at j n
printed_digit j n = elim (bit_and-pow j n) [
  | inl (e, none_set) ↦ rw (none_set, e) refl
  | inr (e, all_set, some_bit) ↦ rw (all_set, ==_ne (2 ^ j) 0 (λ z. omega arith), e) refl
]

spelled-print_byte :
    (before b : ℕ) → b < 2 ^ 8 → spelled before (print_byte 8 b) ≡ before * 2 ^ 8 + b
unfolding spelled print_byte bit_at
spelled-print_byte before b h = omega (
  arith,
  printed_digit 7 b,
  printed_digit 6 b,
  printed_digit 5 b,
  printed_digit 4 b,
  printed_digit 3 b,
  printed_digit 2 b,
  printed_digit 1 b,
  printed_digit 0 b,
)

spelled_bytes-append_one :
    (before : ℕ) (gs : List (List Bool)) (g : List Bool)
    → spelled_bytes before (gs ++ (g ∷ [])) ≡ spelled (spelled_bytes before gs) g
unfolding spelled_bytes
spelled_bytes-append_one before [] g = refl
spelled_bytes-append_one before (f ∷ gs) g = spelled_bytes-append_one (spelled before f) gs g

spelled_bytes-print_bytes :
    (bs : Bytes) → AreBytes bs → spelled_bytes 0 (print_bytes bs) ≡ from_le bs
unfolding print_bytes spelled_bytes from_le
spelled_bytes-print_bytes [] h = refl
spelled_bytes-print_bytes (b ∷ bs) (byte, h) =
    spelled_bytes-append_one 0 (print_bytes bs) (print_byte 8 b)
    ∙ ap (λ k. spelled k (print_byte 8 b)) (spelled_bytes-print_bytes bs h)
    ∙ spelled-print_byte (from_le bs) b (omega arith)
    ∙ omega arith

abbrev IsGroup : List Bool → Type 0
IsGroup g = length g ≡ 8

All-append_one :
    (gs : List (List Bool)) (g : List Bool)
    → All IsGroup gs
    → IsGroup g
    → All IsGroup (gs ++ (g ∷ []))
All-append_one [] g h k = (k, tt)
All-append_one (f ∷ gs) g (e, h) k = (e, All-append_one gs g h k)

print_bytes-All :
    (bs : Bytes) → All IsGroup (print_bytes bs) × (length (print_bytes bs) ≡ length bs)
unfolding print_bytes print_byte
print_bytes-All [] = (tt, refl)
print_bytes-All (b ∷ bs) =
    let (groups, count) = print_bytes-All bs in
    (
      All-append_one (print_bytes bs) (print_byte 8 b) groups refl,
      omega (arith, length-append (print_bytes bs) (print_byte 8 b ∷ [])),
    )

-- `printbits` of the `size` first bytes of memory: it prints a group of 8 digits for each, and the groups
-- spell in binary the number that these bytes hold on a little-endian host.
pub printbits_lem :
    (n : Bytes) (size : ℕ)
    → AreBytes (take size n)
    → (spelled_bytes 0 (printbits n size) ≡ from_le (take size n))
      × All (λ g. length g ≡ 8) (printbits n size)
      × (length (printbits n size) ≡ min size (length n))
unfolding printbits
printbits_lem n size bytes =
    let (groups, count) = print_bytes-All (take size n) in
    (spelled_bytes-print_bytes (take size n) bytes, groups, count ∙ length-take size n)
