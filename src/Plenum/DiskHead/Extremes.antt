-- ===== src/Plenum/DiskHead/Extremes.antt =====
-- plenum/uke9/uke9.c: the highest and the lowest of the tracks, which do not depend on their order.
use in2140_introduksjon_til.Oblig.Tree.{times}
use in2140_introduksjon_til.Common.{
  ◌==◌, ==_self, ==_eq, Bool-cases, ℕ, ◌≤◌, min, max, ◌≡◌, inl, inr, List, [], ◌∷◌, arith,
}

-- What the C library says of `qsort` with the comparison `lt`: the result is in order, and holds
-- the same numbers equally often.
unfoldable pub Sorted : List ℕ → Type 0
Sorted [] = Unit
Sorted (x ∷ []) = Unit
Sorted (x ∷ y ∷ ys) = (x ≤ y) × Sorted (y ∷ ys)

pub record IsSort (sort : List ℕ → List ℕ) : Type 0 where
  pub in_order : (xs : List ℕ) → Sorted (sort xs)
  pub same : (x : ℕ) (xs : List ℕ) → times x (sort xs) ≡ times x xs

-- The highest of a number and the tracks.
unfoldable pub highest : ℕ → List ℕ → ℕ
highest position [] = position
highest position (r ∷ rs) = max r (highest position rs)

unfoldable pub lowest : ℕ → List ℕ → ℕ
lowest position [] = position
lowest position (r ∷ rs) = min r (lowest position rs)

pub highest-ge : (position : ℕ) (rs : List ℕ) → position ≤ highest position rs
unfolding highest
highest-ge position [] = omega arith
highest-ge position (r ∷ rs) = omega (arith, highest-ge position rs)

pub lowest-le : (position : ℕ) (rs : List ℕ) → lowest position rs ≤ position
unfolding lowest
lowest-le position [] = omega arith
lowest-le position (r ∷ rs) = omega (arith, lowest-le position rs)

highest_elem : (position : ℕ) (rs : List ℕ) (x : ℕ) → 1 ≤ times x rs → x ≤ highest position rs
unfolding highest times
highest_elem position [] x h = omega arith
highest_elem position (r ∷ rs) x h = elim (Bool-cases (x == r)) [
  | inl e ↦ let same = ==_eq x r e in omega arith
  | inr e ↦ let below = highest_elem position rs x (ground (arith, e)) in omega arith
]

lowest_elem : (position : ℕ) (rs : List ℕ) (x : ℕ) → 1 ≤ times x rs → lowest position rs ≤ x
unfolding lowest times
lowest_elem position [] x h = omega arith
lowest_elem position (r ∷ rs) x h = elim (Bool-cases (x == r)) [
  | inl e ↦ let same = ==_eq x r e in omega arith
  | inr e ↦ let above = lowest_elem position rs x (ground (arith, e)) in omega arith
]

highest_bound :
    (position m : ℕ) (rs : List ℕ)
    → position ≤ m
    → ((x : ℕ) → 1 ≤ times x rs → x ≤ m)
    → highest position rs ≤ m
unfolding highest times
highest_bound position m [] h f = h
highest_bound position m (r ∷ rs) h f =
    let rest = highest_bound position m rs h (λ x g. f x (ground arith)) in
    let this = f r (ground (arith, ==_self r)) in omega arith

lowest_bound :
    (position m : ℕ) (rs : List ℕ)
    → m ≤ position
    → ((x : ℕ) → 1 ≤ times x rs → m ≤ x)
    → m ≤ lowest position rs
unfolding lowest times
lowest_bound position m [] h f = h
lowest_bound position m (r ∷ rs) h f =
    let rest = lowest_bound position m rs h (λ x g. f x (ground arith)) in
    let this = f r (ground (arith, ==_self r)) in omega arith

module _ {sort : List ℕ → List ℕ} (s : IsSort sort) where
  pub highest-sort : (position : ℕ) (rs : List ℕ) → highest position (sort rs) ≡ highest position rs
  highest-sort position rs =
      let up =
        highest_bound position (highest position rs) (sort rs) (highest-ge position rs)
          (λ x h. highest_elem position rs x (omega (arith, s.same x rs))) in
      let down =
        highest_bound position (highest position (sort rs)) rs (highest-ge position (sort rs))
          (λ x h. highest_elem position (sort rs) x (omega (arith, s.same x rs))) in
      omega arith

  pub lowest-sort : (position : ℕ) (rs : List ℕ) → lowest position (sort rs) ≡ lowest position rs
  lowest-sort position rs =
      let up =
        lowest_bound position (lowest position rs) (sort rs) (lowest-le position rs)
          (λ x h. lowest_elem position rs x (omega (arith, s.same x rs))) in
      let down =
        lowest_bound position (lowest position (sort rs)) rs (lowest-le position (sort rs))
          (λ x h. lowest_elem position (sort rs) x (omega (arith, s.same x rs))) in
      omega arith
