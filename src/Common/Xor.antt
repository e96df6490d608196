-- ===== src/Common/Xor.antt =====
-- Exclusive or of numbers: its lowest digit, its bound, and that it is its own inverse.
use Prim.Native.Nat.{digits, differ, bit_xor-bitwise}
use native.Mathlib.Nat.{pow-suc}
use in2140_introduksjon_til.Common.Bits.{enough_digits}
use in2140_introduksjon_til.Common.{
  ℕ, zero, suc, ◌+◌, ◌*◌, ◌/◌, ◌%◌, ◌^◌, ◌≤◌, ◌<◌, bit_xor, ◌≡◌, refl, sym, ap, ap₂, ◌∙◌, arith,
}

abbrev xor_digits : ℕ → ℕ → ℕ → ℕ
xor_digits n a b = digits (λ y. y) differ n a b

zero-bit_xor : (b : ℕ) → bit_xor 0 b ≡ b
zero-bit_xor b = bit_xor-bitwise 0 b

-- The lowest digit of the result, and the digits above it.
pub bit_xor_step : (a b : ℕ) → bit_xor a b ≡ bit_xor (a / 2) (b / 2) * 2 + differ (a % 2) (b % 2)
bit_xor_step zero b = omega (arith, zero-bit_xor b, zero-bit_xor (b / 2))
bit_xor_step (suc a) b =
    let above =
      enough_digits (λ y. y) differ a (suc a / 2) (suc a / 2) (b / 2) (omega arith) (omega arith) in
    let halves : bit_xor (suc a / 2) (b / 2) ≡ xor_digits (suc a / 2) (suc a / 2) (b / 2) =
      bit_xor-bitwise (suc a / 2) (b / 2) in
    bit_xor-bitwise (suc a) b ∙ ap (λ q. q * 2 + differ (suc a % 2) (b % 2)) (above ∙ sym halves)

differ_cases :
    (x y : ℕ)
    → x < 2
    → y < 2
    → (differ x y < 2) × (differ x (differ x y) ≡ y) × (differ x y ≡ differ y x)
differ_cases zero zero h k = (omega arith, refl, refl)
differ_cases zero (suc zero) h k = (omega arith, refl, refl)
differ_cases (suc zero) zero h k = (omega arith, refl, refl)
differ_cases (suc zero) (suc zero) h k = (omega arith, refl, refl)
differ_cases zero (suc (suc y)) h k = absurd (omega arith)
differ_cases (suc zero) (suc (suc y)) h k = absurd (omega arith)
differ_cases (suc (suc x)) y h k = absurd (omega arith)

pub bit_xor-lt : (k a b : ℕ) → a < 2 ^ k → b < 2 ^ k → bit_xor a b < 2 ^ k
bit_xor-lt zero zero zero h g = omega arith
bit_xor-lt zero zero (suc b) h g = absurd (omega arith)
bit_xor-lt zero (suc a) b h g = absurd (omega arith)
bit_xor-lt (suc k) a b h g = omega (
  arith,
  pow-suc 2 k,
  bit_xor_step a b,
  bit_xor-lt k (a / 2) (b / 2) (omega (arith, pow-suc 2 k)) (omega (arith, pow-suc 2 k)),
  (differ_cases (a % 2) (b % 2) (omega arith) (omega arith)).0,
)

undo_fuel : (n a b : ℕ) → a ≤ n → bit_xor a (bit_xor a b) ≡ b
undo_fuel n zero b h = zero-bit_xor (bit_xor 0 b) ∙ zero-bit_xor b
undo_fuel zero (suc a) b h = absurd (omega arith)
undo_fuel (suc n) (suc a) b h =
    let (small, undone, symm) = differ_cases (suc a % 2) (b % 2) (omega arith) (omega arith) in
    let high : bit_xor (suc a) b / 2 ≡ bit_xor (suc a / 2) (b / 2) =
      omega (arith, bit_xor_step (suc a) b) in
    let low : bit_xor (suc a) b % 2 ≡ differ (suc a % 2) (b % 2) =
      omega (arith, bit_xor_step (suc a) b) in
    bit_xor_step (suc a) (bit_xor (suc a) b)
    ∙ (ap₂ (λ x y. bit_xor (suc a / 2) x * 2 + differ (suc a % 2) y) high low
        ∙ omega (arith, undone, undo_fuel n (suc a / 2) (b / 2) (omega arith)))

-- A second exclusive or with the same number undoes the first.
pub bit_xor_undo : (a b : ℕ) → bit_xor a (bit_xor a b) ≡ b
bit_xor_undo a b = undo_fuel a a b (omega arith)

comm_fuel : (n a b : ℕ) → a ≤ n → b ≤ n → bit_xor a b ≡ bit_xor b a
comm_fuel zero zero zero h k = refl
comm_fuel zero (suc a) b h k = absurd (omega arith)
comm_fuel zero zero (suc b) h k = absurd (omega arith)
comm_fuel (suc n) a b h k = omega (
  arith,
  bit_xor_step a b,
  bit_xor_step b a,
  comm_fuel n (a / 2) (b / 2) (omega arith) (omega arith),
  (differ_cases (a % 2) (b % 2) (omega arith) (omega arith)).2,
)

pub bit_xor_comm : (a b : ℕ) → bit_xor a b ≡ bit_xor b a
bit_xor_comm a b = comm_fuel (a + b) a b (omega arith) (omega arith)

pub bit_xor_cancel : (a b c : ℕ) → bit_xor a b ≡ bit_xor a c → b ≡ c
bit_xor_cancel a b c e = sym (bit_xor_undo a b) ∙ (ap (bit_xor a) e ∙ bit_xor_undo a c)

pub bit_xor_cancel_right : (a b c : ℕ) → bit_xor b a ≡ bit_xor c a → b ≡ c
bit_xor_cancel_right a b c e = bit_xor_cancel a b c (bit_xor_comm a b ∙ (e ∙ bit_xor_comm c a))
