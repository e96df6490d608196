-- ===== src/Plenum/FirstFit/Find.antt =====
-- plenum/uke8/sl_list.c: what `find_first` takes off a list of free ranges, and what `list_insert`
-- does with the largest element.
use in2140_introduksjon_til.Common.Run.{pos, negsuc}
use in2140_introduksjon_til.Common.{
  ltb, lt→ltb, le→ltb, ==_self, ==_ne, Bool-cases, All, ℕ, suc, ◌+◌, ◌-◌, ◌≤◌, ◌<◌, ◌≡◌, refl, sym,
  ap, ◌∙◌, subst, inl, inr, true, false, none, some, List, [], ◌∷◌, arith,
}
use in2140_introduksjon_til.Common.Ints.{lt}
use in2140_introduksjon_til.Plenum.FirstFit.{
  element_new_init, insert_after, list_insert, list_compress, list_insert_and_merge, find_after,
  find_first, first_fit_alloc, first_fit_free, Element,
}
use in2140_introduksjon_til.Plenum.FirstFit.Merge.{Range, range, ranges, Separated}

insert_front :
    (s n : ℕ) (rs : List Range)
    → Separated (suc (s + n)) rs
    → list_insert_and_merge (ranges rs) (range s n) ≡ range s n ∷ ranges rs
unfolding list_insert_and_merge list_compress ranges Separated
insert_front s n [] h = refl
insert_front s n ((b, k) ∷ rs) (l, k_pos, more) =
    rw (lt→ltb s b (omega arith), ==_ne (s + n) b (λ e. omega arith))

-- A request that the first free range can hold: `first_fit_alloc` returns the front of that range,
-- and `first_fit_free` of what was returned gives back the list as it was. The list is sorted with
-- no two ranges adjacent and none empty, and the request is not empty.
pub first_fit_free-first_fit_alloc :
    (s m : ℕ) (rs : List Range) (n : ℕ)
    → Separated 0 ((s, m) ∷ rs)
    → 0 < n
    → n ≤ m
    → (free_mem : List Element) × (first_fit_alloc (ranges ((s, m) ∷ rs)) (pos n)
        ≡ (some (range s n), free_mem))
      × (first_fit_free free_mem (range s n) ≡ ranges ((s, m) ∷ rs))
unfolding first_fit_alloc first_fit_free find_first list_insert_and_merge list_compress Separated
    ranges
first_fit_free-first_fit_alloc s m rs n (l, p, more) q h = elim (Bool-cases (ltb n m)) [
  | inl less ↦ (
    range (s + n) (m - n) ∷ ranges rs,
    rw (le→ltb m n h, ==_ne (m - n) 0 (λ e. ground arith)),
    rw (lt→ltb s (s + n) (omega arith), ==_self (s + n))
        (ap (λ k. range s k ∷ ranges rs) (ground arith)),
  )
  | inr all ↦
      let same : n ≡ m = ground arith in
      let nothing : m - n ≡ 0 = omega arith in
      (
        ranges rs,
        rw (le→ltb m n h, nothing),
        insert_front s n rs (subst (λ k. Separated (suc (s + k)) rs) (sym same) more)
            ∙ ap (λ k. range s k ∷ ranges rs) same,
      )
]

none_after :
    (it : Element) (rs : List Range) (n : ℕ)
    → All (λ r. r.1 < n) rs
    → find_after it (ranges rs) (pos n) ≡ (none, it ∷ ranges rs)
unfolding find_after ranges
none_after it [] n h = refl
none_after it ((s, m) ∷ rs) n (h, hs) = rw (lt→ltb m n h, none_after (range s m) rs n hs)

-- A request that every free range is too small for: `first_fit_alloc` returns no element and the
-- list is unchanged.
pub first_fit_alloc_too_large :
    (rs : List Range) (n : ℕ)
    → All (λ r. r.1 < n) rs
    → first_fit_alloc (ranges rs) (pos n) ≡ (none, ranges rs)
unfolding first_fit_alloc find_first ranges
first_fit_alloc_too_large [] n h = refl
first_fit_alloc_too_large ((s, m) ∷ rs) n (h, hs) =
    rw (lt→ltb m n h) (none_after (range s m) rs n hs)

-- A request that is too large for the first free range and that the second one can hold: the element
-- that `first_fit_alloc` returns starts where the second range does, but the second range of the
-- list is afterwards one that starts `n` places behind the first one's start and has a negative size,
-- so what was left of the second range is lost.
pub first_fit_alloc_second :
    (s m t k : ℕ) (rs : List Range) (n : ℕ)
    → m < n
    → n ≤ k
    → first_fit_alloc (ranges ((s, m) ∷ (t, k) ∷ rs)) (pos n) ≡ (
      some (range t n),
      range s m ∷ element_new_init (pos (s + n)) (negsuc (n - m - 1)) ∷ ranges rs,
    )
unfolding first_fit_alloc find_first find_after ranges
first_fit_alloc_second s m t k rs n small fits = rw (lt→ltb m n small, le→ltb k n fits)

nothing_after :
    (it : Element) (list : List Element) (elem : Element)
    → All (λ e. lt e.start elem.start ≡ true) list
    → insert_after it list elem ≡ it ∷ list
unfolding insert_after
nothing_after it [] elem h = refl
nothing_after it (n ∷ rest) elem (h, hs) = rw (h, nothing_after n rest elem hs)

-- `list_insert` of an element that starts behind every element of a list which is not empty: the
-- list is unchanged, and the element is in no list.
pub list_insert_largest :
    (f : Element) (list : List Element) (elem : Element)
    → lt elem.start f.start ≡ false
    → All (λ e. lt e.start elem.start ≡ true) list
    → list_insert (f ∷ list) elem ≡ f ∷ list
unfolding list_insert
list_insert_largest f list elem h hs = rw h (nothing_after f list elem hs)
