-- ===== src/Plenum/DiskHead/Distance.antt =====
-- plenum/uke9/uke9.c: how far the head moves.
use in2140_introduksjon_til.Common.Run.{ok}
use in2140_introduksjon_til.Common.Words.{Bytes}
use in2140_introduksjon_til.Plenum.DiskHead.{
  disksize, fcfs, first_not_below, move_down, look, lookdown, scan, moved, algorithm, seek_main,
  DsAlgos,
}
use in2140_introduksjon_til.Plenum.DiskHead.Extremes.{
  Sorted, highest, lowest, highest-ge, lowest-le, highest-sort, lowest-sort, IsSort,
}
use in2140_introduksjon_til.Common.{
  ltb, Bool-cases, length, get_elem?, take, drop, length-append, ℕ, zero, suc, ◌+◌, ◌-◌, ◌^◌, ◌≤◌,
  ◌<◌, min, max, ◌≡◌, refl, ap, ◌⊎◌, inl, inr, Bool, true, false, some, List, [], ◌∷◌, ◌++◌, map,
  arith,
}

Sorted-tail : (x : ℕ) (xs : List ℕ) → Sorted (x ∷ xs) → Sorted xs
unfolding Sorted
Sorted-tail x [] s = tt
Sorted-tail x (y ∷ ys) (h, s) = s

max-highest : (p x : ℕ) (xs : List ℕ) → p ≤ x → max x (highest p xs) ≡ highest x xs
unfolding highest
max-highest p x [] h = omega arith
max-highest p x (y ∷ ys) h = omega (arith, max-highest p x ys h)

lowest_head : (p y : ℕ) (ys : List ℕ) → Sorted (y ∷ ys) → lowest p (y ∷ ys) ≡ min p y
unfolding Sorted lowest
lowest_head p y [] s = omega arith
lowest_head p y (z ∷ zs) (h, s) = omega (arith, lowest_head p z zs s)

-- The head moves up all the way.
fcfs-Sorted :
    (position : ℕ) (rs : List ℕ)
    → Sorted (position ∷ rs)
    → fcfs position rs + position ≡ highest position rs
unfolding fcfs Sorted highest
fcfs-Sorted position [] s = omega arith
fcfs-Sorted position (r ∷ rs) (h, s) =
    omega (arith, fcfs-Sorted r rs s, max-highest position r rs h)

drop_below :
    (position : ℕ) (ys : List ℕ)
    → Sorted ys
    → Sorted (position ∷ drop (first_not_below position ys) ys)
      × (highest position (drop (first_not_below position ys) ys) ≡ highest position ys)
unfolding first_not_below Sorted highest
drop_below position [] s = (tt, refl)
drop_below position (y ∷ ys) s = elim (Bool-cases (ltb y position)) [
  | inl e ↦
      let (s', h) = drop_below position ys (Sorted-tail y ys s) in
      rw e (s', ground (arith, h, e, highest-ge position ys))
  | inr e ↦ rw e ((ground (arith, e), s), refl)
]

Sorted-step :
    (ys : List ℕ) (i r : ℕ)
    → Sorted ys
    → get_elem? ys (suc i) ≡ some r
    → (r' : ℕ) × (get_elem? ys i ≡ some r') × (r' ≤ r)
unfolding Sorted
Sorted-step [] i r s e = ground arith
Sorted-step (y ∷ []) i r s e = ground arith
Sorted-step (y ∷ z ∷ zs) zero r (h, s) e = (y, refl, ground (arith, e))
Sorted-step (y ∷ z ∷ zs) (suc i) r (h, s) e = Sorted-step (z ∷ zs) i r s e

-- From the request at index `i` down the head moves to the lowest one.
move_down-Sorted :
    (position y : ℕ) (ys : List ℕ) (i r : ℕ)
    → Sorted (y ∷ ys)
    → get_elem? (y ∷ ys) i ≡ some r
    → r ≤ position
    → move_down position (y ∷ ys) (suc i) + y ≡ position
unfolding move_down
move_down-Sorted position y ys zero r s e h = ground (arith, e)
move_down-Sorted position y ys (suc i) r s e h =
    let (r', e', below) = Sorted-step (y ∷ ys) i r s e in
    let rest = move_down-Sorted r y ys i r' s e' below in rw (e, move_down) (omega (arith, rest))

first_below :
    (position : ℕ) (ys : List ℕ)
    → (first_not_below position ys ≡ 0)
      ⊎ ((i r : ℕ) × (first_not_below position ys ≡ suc i)
          × (get_elem? ys i ≡ some r)
          × (r ≤ position))
unfolding first_not_below
first_below position [] = inl refl
first_below position (y ∷ ys) = elim (Bool-cases (ltb y position)) [
  | inr e ↦ rw e (inl refl)
  | inl e ↦ rw e (elim (first_below position ys) [
    | inl none_below ↦ inr (0, y, ap suc none_below, refl, ground (arith, e))
    | inr (i, r, f, g, h) ↦ inr (suc i, r, ap suc f, g, h)
  ])
]

move_down_lem :
    (position : ℕ) (ys : List ℕ)
    → Sorted ys
    → move_down position ys (first_not_below position ys) + lowest position ys ≡ position
unfolding move_down lowest first_not_below
move_down_lem position [] s = omega arith
move_down_lem position (y ∷ ys) s = elim (Bool-cases (ltb y position)) [
  | inr e ↦ rw e (ground (arith, e, lowest_head position y ys s))
  | inl e ↦ elim (first_below position (y ∷ ys)) [
    | inl f ↦ absurd (ground (arith, e, f))
    | inr (i, r, f, g, h) ↦
        rw f
          (ground (arith, e, lowest_head position y ys s, move_down-Sorted position y ys i r s g h))
  ]
]

-- `look` with a sort that the C library may have.
module _ {sort : List ℕ → List ℕ} (q : IsSort sort) where
  look_lem :
      (position : ℕ) (requests : List ℕ)
      → look sort position requests + position ≡ highest position requests
  unfolding look
  look_lem position requests =
      let (s, h) = drop_below position (sort requests) (q.in_order requests) in
      omega (arith, fcfs-Sorted position _ s, h, highest-sort q position requests)

  lookdown_lem :
      (position : ℕ) (requests : List ℕ)
      → lookdown sort position requests + lowest position requests ≡ position
  unfolding lookdown
  lookdown_lem position requests = omega (
    arith,
    move_down_lem position (sort requests) (q.in_order requests),
    lowest-sort q position requests,
  )

highest_change : (p r : ℕ) (rs : List ℕ) → highest p rs ≤ max p (highest r rs)
unfolding highest
highest_change p r [] = omega arith
highest_change p r (x ∷ rs) = omega (arith, highest_change p r rs)

lowest_change : (p r : ℕ) (rs : List ℕ) → min p (lowest r rs) ≤ lowest p rs
unfolding lowest
lowest_change p r [] = omega arith
lowest_change p r (x ∷ rs) = omega (arith, lowest_change p r rs)

fcfs-ge-up : (position : ℕ) (rs : List ℕ) → highest position rs ≤ fcfs position rs + position
unfolding highest fcfs
fcfs-ge-up position [] = omega arith
fcfs-ge-up position (r ∷ rs) =
    omega (arith, fcfs-ge-up r rs, highest_change position r rs, highest-ge r rs)

fcfs-ge-down : (position : ℕ) (rs : List ℕ) → position ≤ fcfs position rs + lowest position rs
unfolding lowest fcfs
fcfs-ge-down position [] = omega arith
fcfs-ge-down position (r ∷ rs) =
    omega (arith, fcfs-ge-down r rs, lowest_change position r rs, lowest-le r rs)

module _ {sort : List ℕ → List ℕ} (q : IsSort sort) where
  -- With a `qsort` that sorts: LOOK moves from the start up to the highest request and no further,
  -- LOOKDOWN from the start down to the lowest one, SCAN up to the highest request or the last
  -- track, and SCAN without memory for its array is LOOK.
  pub moved_lem :
      (position : ℕ) (requests : List ℕ)
      → (look sort position requests + position ≡ highest position requests)
        × (lookdown sort position requests + lowest position requests ≡ position)
        × (scan sort true position requests + position
            ≡ max (disksize - 1) (highest position requests))
        × (scan sort false position requests ≡ look sort position requests)
  unfolding scan highest
  moved_lem position requests = (
    look_lem q position requests,
    lookdown_lem q position requests,
    omega (arith, look_lem q position (0 ∷ (disksize - 1) ∷ requests)),
    refl,
  )

  -- With a `qsort` that sorts, and where the distance of FCFS is an `int`, LOOK and LOOKDOWN do not
  -- move the head further than FCFS does, so that their distances are `int`s too.
  pub look-le-fcfs :
      (position : ℕ) (requests : List ℕ)
      → fcfs position requests < 2 ^ 31
      → (look sort position requests ≤ fcfs position requests)
        × (lookdown sort position requests ≤ fcfs position requests)
        × (look sort position requests < 2 ^ 31)
        × (lookdown sort position requests < 2 ^ 31)
  look-le-fcfs position requests fits =
      let up : look sort position requests ≤ fcfs position requests =
        omega (arith, look_lem q position requests, fcfs-ge-up position requests) in
      let down : lookdown sort position requests ≤ fcfs position requests =
        omega (arith, lookdown_lem q position requests, fcfs-ge-down position requests) in
      (up, down, omega arith, omega arith)

take_all_but : {A : Type 0} (xs : List A) (x : A) → take (length xs) (xs ++ (x ∷ [])) ≡ xs
take_all_but [] x = refl
take_all_but (y ∷ xs) x = ap (λ ys. y ∷ ys) (take_all_but xs x)

-- With a supported algorithm and at least one track, `main` takes the name of the algorithm as the
-- start, and all tracks but the last one as requests.
pub seek_main_lem :
    (sort : List ℕ → List ℕ) (atoi : Bytes → ℕ) (memory : Bool) (word last : Bytes)
    (tracks : List Bytes) (algo : DsAlgos)
    → algorithm word ≡ some algo
    → seek_main sort atoi memory (word ∷ (tracks ++ (last ∷ [])))
      ≡ ok (moved sort algo memory (atoi word) (map atoi tracks))
unfolding seek_main
seek_main_lem sort atoi memory word last [] algo e = rw (e, seek_main) refl
seek_main_lem sort atoi memory word last (t ∷ tracks) algo e =
    let shorter : length (tracks ++ (last ∷ [])) + 1 ≡ suc (suc (length tracks)) =
      omega (arith, length-append tracks (last ∷ [])) in
    rw (e, seek_main, shorter, take_all_but tracks last) refl
