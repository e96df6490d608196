-- ===== src/Plenum/FirstFit/Merge.antt =====
-- plenum/uke8/sl_list.c: what `list_insert_and_merge` does with the memory that a list
-- of free ranges covers.
use in2140_introduksjon_til.Common.Run.{pos}
use in2140_introduksjon_til.Common.{
  ltb, leb, ◌==◌, ==_eq, Bool-cases, All, ℕ, suc, ◌+◌, ◌≤◌, ◌<◌, ◌≡◌, refl, ap, ◌∙◌, ◌⊎◌, inl, inr,
  Bool, true, false, ◌&&◌, ◌||◌, List, [], ◌∷◌, arith,
}
use in2140_introduksjon_til.Plenum.FirstFit.{
  element_new_init, list_compress, merge_after, list_insert_and_merge, first_fit_free, Element,
}

-- A range: its start and size.
abbrev pub Range : Type 0
Range = ℕ × ℕ

abbrev pub range : ℕ → ℕ → Element
range s n = element_new_init (pos s) (pos n)

unfoldable pub ranges : List Range → List Element
ranges [] = []
ranges ((s, n) ∷ rs) = range s n ∷ ranges rs

abbrev pub inside : ℕ → ℕ → ℕ → Bool
inside s n x = leb s x && ltb x (s + n)

-- Whether the list has the place `x` in one of its ranges.
unfoldable pub covers : List Range → ℕ → Bool
covers [] x = false
covers ((s, n) ∷ rs) x = inside s n x || covers rs x

-- Sorted from `lo` on, no range empty, and a place that is not free between any two.
unfoldable pub Separated : ℕ → List Range → Type 0
Separated lo [] = Unit
Separated lo ((s, n) ∷ rs) = (lo ≤ s) × (0 < n) × Separated (suc (s + n)) rs

-- The range from `s` of size `n` overlaps none of the list.
abbrev pub Apart : ℕ → ℕ → List Range → Type 0
Apart s n = All (λ r. (s + n ≤ r.0) ⊎ (r.0 + r.1 ≤ s))

pub Separated-below : (lo hi : ℕ) (rs : List Range) → lo ≤ hi → Separated hi rs → Separated lo rs
unfolding Separated
Separated-below lo hi [] h s = tt
Separated-below lo hi ((s, n) ∷ rs) h (l, p, more) = (omega arith, p, more)

inside_joined : (s n k x : ℕ) → inside s (n + k) x ≡ (inside s n x || inside (s + n) k x)
inside_joined s n k x = ground arith

or_assoc : (a b c : Bool) → ((a || b) || c) ≡ (a || (b || c))
or_assoc true b c = refl
or_assoc false b c = refl

or_swap : (a b c : Bool) → (a || (b || c)) ≡ (b || (a || c))
or_swap true true c = refl
or_swap true false c = refl
or_swap false b c = refl

-- A list of separated ranges from `lo` on that covers the same places as `f` says.
abbrev Covered : ℕ → (ℕ → Bool) → List Element → Type 0
Covered lo f es =
    (rs : List Range) × (es ≡ ranges rs) × Separated lo rs × ((x : ℕ) → covers rs x ≡ f x)

list_compress-covers :
    (s n : ℕ) (rs : List Range)
    → 0 < n
    → Separated (s + n) rs
    → Covered s (λ x. inside s n x || covers rs x) (list_compress (range s n) (ranges rs))
unfolding list_compress ranges covers Separated
list_compress-covers s n [] p sep = ((s, n) ∷ [], refl, (omega arith, p, tt), λ x. refl)
list_compress-covers s n ((t, k) ∷ rs) p (l, q, more) = elim (Bool-cases (s + n == t)) [
  | inl e ↦
      let same : s + n ≡ t = ==_eq (s + n) t e in
      (
        (s, n + k) ∷ rs,
        rw e,
        (omega arith, omega arith, Separated-below _ _ rs (omega arith) more),
        λ x.
            ap (λ b. b || covers rs x)
              (inside_joined s n k x ∙ ap (λ v. inside s n x || inside v k x) same)
            ∙ or_assoc (inside s n x) (inside t k x) (covers rs x),
      )
  | inr ne ↦ ((s, n) ∷ (t, k) ∷ rs, rw ne, (omega arith, p, (ground arith, q, more)), λ x. refl)
]

merge_after-covers :
    (a m : ℕ) (rs : List Range) (s n : ℕ)
    → 0 < m
    → 0 < n
    → a + m ≤ s
    → Separated (suc (a + m)) rs
    → Apart s n rs
    → Covered a
        (λ x. inside s n x || (inside a m x || covers rs x))
        (merge_after (range a m) (ranges rs) (range s n))
unfolding merge_after ranges covers Separated
merge_after-covers a m [] s n p q h sep apart =
    let (rs, e, sep', cov) = list_compress-covers a m ((s, n) ∷ []) p (h, q, tt) in
    (rs, e, sep', λ x. cov x ∙ or_swap (inside a m x) (inside s n x) false)
merge_after-covers a m ((b, k) ∷ rs) s n p q h (l, r, more) (apart, others) =
    elim (Bool-cases (ltb b s)) [
      | inl below ↦
          let (rs', e, sep, cov) = merge_after-covers b k rs s n r q (ground arith) more others in
          (
            (a, m) ∷ rs',
            rw (below, e),
            (omega arith, p, Separated-below _ _ rs' l sep),
            λ x.
                ap (λ c. inside a m x || c) (cov x)
                ∙ or_swap (inside a m x) (inside s n x) (inside b k x || covers rs x),
          )
      | inr above ↦
          let (rs₁, e₁, sep₁, cov₁) =
            list_compress-covers s n ((b, k) ∷ rs) q (ground arith, r, more) in
          let (rs₂, e₂, sep₂, cov₂) =
            list_compress-covers a m rs₁ p (Separated-below _ _ rs₁ h sep₁) in
          (
            rs₂,
            rw (above, e₁, e₂),
            sep₂,
            λ x.
                cov₂ x
                ∙ ap (λ c. inside a m x || c) (cov₁ x)
                ∙ or_swap (inside a m x) (inside s n x) (inside b k x || covers rs x),
          )
    ]

-- `first_fit_free` on a sorted list of free ranges, none empty and no two adjacent, with a range that
-- is not empty and overlaps none of them: the list stays sorted with no two adjacent ranges and
-- none empty, and the places that it covers are those of the list and those of the freed range.
pub first_fit_free-covers :
    (rs : List Range) (s n : ℕ)
    → Separated 0 rs
    → 0 < n
    → Apart s n rs
    → (rs' : List Range) × (first_fit_free (ranges rs) (range s n) ≡ ranges rs')
      × Separated 0 rs'
      × ((x : ℕ) → covers rs' x ≡ (inside s n x || covers rs x))
unfolding first_fit_free list_insert_and_merge ranges covers Separated
first_fit_free-covers [] s n sep p apart = ((s, n) ∷ [], refl, (omega arith, p, tt), λ x. refl)
first_fit_free-covers ((a, m) ∷ rs) s n (l, q, more) p (apart, others) =
    elim (Bool-cases (ltb s a)) [
      | inl before ↦
          let (rs', e, sep, cov) =
            list_compress-covers s n ((a, m) ∷ rs) p (ground arith, q, more) in
          (rs', rw (before, e), Separated-below _ _ rs' (omega arith) sep, cov)
      | inr behind ↦
          let (rs', e, sep, cov) = merge_after-covers a m rs s n q p (ground arith) more others in
          (rs', rw (behind, e), Separated-below _ _ rs' (omega arith) sep, cov)
    ]
