-- ===== src/Common/Bits.antt =====
-- The bits of numbers: the lowest digit of a conjunction and of a disjunction, and the complement
-- of a word.
use Prim.Native.Nat.{digits, bit_and-bitwise, bit_or-bitwise}
use native.Mathlib.Nat.{pow-suc}
use in2140_introduksjon_til.Common.{
  ℕ, zero, suc, ◌+◌, ◌-◌, ◌*◌, ◌/◌, ◌%◌, ◌^◌, ◌≤◌, ◌<◌, min, max, bit_and, bit_or, ◌≡◌, refl, ◌⊎◌,
  sym, ap, ap₂, ◌∙◌, arith,
}

-- Any two amounts of digits that cover `a` give the same number.
pub enough_digits :
    (z : ℕ → ℕ) (f : ℕ → ℕ → ℕ) (n m a b : ℕ) → a ≤ n → a ≤ m → digits z f n a b ≡ digits z f m a b
enough_digits z f zero zero a b h k = refl
enough_digits z f zero (suc m) zero b h k = refl
enough_digits z f (suc n) zero zero b h k = refl
enough_digits z f (suc n) (suc m) zero b h k = refl
enough_digits z f zero (suc m) (suc a) b h k = absurd (omega arith)
enough_digits z f (suc n) zero (suc a) b h k = absurd (omega arith)
enough_digits z f (suc n) (suc m) (suc a) b h k =
    ap (λ q. q * 2 + f (suc a % 2) (b % 2))
      (enough_digits z f n m (suc a / 2) (b / 2) (omega arith) (omega arith))

bit_and_zero : (b : ℕ) → bit_and 0 b ≡ 0
bit_and_zero b = bit_and-bitwise 0 b

bit_or_zero : (b : ℕ) → bit_or 0 b ≡ b
bit_or_zero b = bit_or-bitwise 0 b

pub bit_and_digit : (a b : ℕ) → bit_and a b ≡ bit_and (a / 2) (b / 2) * 2 + min (a % 2) (b % 2)
bit_and_digit zero b = omega (arith, bit_and_zero b, bit_and_zero (b / 2))
bit_and_digit (suc a) b = omega (
  arith,
  bit_and-bitwise (suc a) b,
  bit_and-bitwise (suc a / 2) (b / 2),
  enough_digits (λ y. 0) min a (suc a / 2) (suc a / 2) (b / 2) (omega arith) (omega arith),
)

pub bit_or_digit : (a b : ℕ) → bit_or a b ≡ bit_or (a / 2) (b / 2) * 2 + max (a % 2) (b % 2)
bit_or_digit zero b = omega (arith, bit_or_zero b, bit_or_zero (b / 2))
bit_or_digit (suc a) b = omega (
  arith,
  bit_or-bitwise (suc a) b,
  bit_or-bitwise (suc a / 2) (b / 2),
  enough_digits (λ y. y) max a (suc a / 2) (suc a / 2) (b / 2) (omega arith) (omega arith),
)

nothing_fuel : (n a : ℕ) → a ≤ n → bit_and a 0 ≡ 0
nothing_fuel n zero h = refl
nothing_fuel zero (suc a) h = absurd (omega arith)
nothing_fuel (suc n) (suc a) h =
    omega (arith, bit_and_digit (suc a) 0, nothing_fuel n (suc a / 2) (omega arith))

pub bit_and_nothing : (a : ℕ) → bit_and a 0 ≡ 0
bit_and_nothing a = nothing_fuel a a (omega arith)

whole_fuel : (n a : ℕ) → a ≤ n → bit_or a 0 ≡ a
whole_fuel n zero h = bit_or_zero 0
whole_fuel zero (suc a) h = absurd (omega arith)
whole_fuel (suc n) (suc a) h =
    omega (arith, bit_or_digit (suc a) 0, whole_fuel n (suc a / 2) (omega arith))

pub bit_or_nothing : (a : ℕ) → bit_or a 0 ≡ a
bit_or_nothing a = whole_fuel a a (omega arith)

pub digit_cases : (d : ℕ) → d < 2 → (d ≡ 0) ⊎ (d ≡ 1)
digit_cases d h = ground arith

-- `~m` of a word of `k` bits
abbrev pub complement : ℕ → ℕ → ℕ
complement k m = 2 ^ k - 1 - m

-- Bits taken from two numbers by a mask: under the mask, those of the second one.
pub bit_and-select :
    (k a b m : ℕ)
    → m < 2 ^ k
    → bit_and (bit_or (bit_and a (complement k m)) (bit_and b m)) m ≡ bit_and b m
bit_and-select zero a b m h =
    let none : m ≡ 0 = omega arith in rw none (bit_and_nothing _ ∙ sym (bit_and_nothing b))
bit_and-select (suc k) a b m h =
    let u = complement (suc k) m in
    let x = bit_and a u in
    let y = bit_and b m in
    let upper : u / 2 ≡ complement k (m / 2) = omega (arith, pow-suc 2 k) in
    let lower : u % 2 ≡ 1 - m % 2 = omega (arith, pow-suc 2 k) in
    let x_upper : x / 2 ≡ bit_and (a / 2) (complement k (m / 2)) =
      omega (arith, bit_and_digit a u) ∙ ap (bit_and (a / 2)) upper in
    let y_upper : y / 2 ≡ bit_and (b / 2) (m / 2) = omega (arith, bit_and_digit b m) in
    let o_upper : bit_or x y / 2 ≡ bit_or (x / 2) (y / 2) = omega (arith, bit_or_digit x y) in
    let rest =
      ap (λ t. bit_and t (m / 2)) (o_upper ∙ ap₂ bit_or x_upper y_upper)
      ∙ bit_and-select k (a / 2) (b / 2) (m / 2) (omega (arith, pow-suc 2 k)) in
    omega (
      arith,
      rest,
      lower,
      bit_and_digit (bit_or x y) m,
      bit_or_digit x y,
      bit_and_digit a u,
      bit_and_digit b m,
    )
