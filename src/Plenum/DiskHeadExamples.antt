-- ===== src/Plenum/DiskHeadExamples.antt =====
-- The theorems about plenum/uke9/ at concrete inputs, with insertion sort for `qsort`.
use in2140_introduksjon_til.Plenum.DiskHead.Distance.{moved_lem, look-le-fcfs, seek_main_lem}
use in2140_introduksjon_til.Oblig.Tree.{times}
use in2140_introduksjon_til.Plenum.DiskHead.{
  disksize, fcfs, first_not_below, move_down, look, lookdown, scan, moved, algorithm, seek_main,
  look_algo,
}
use in2140_introduksjon_til.Plenum.DiskHead.Extremes.{Sorted, highest, lowest, IsSort}
use in2140_introduksjon_til.Oblig.Inode.{strcmp_eq}
use in2140_introduksjon_til.Common.Words.{Bytes, codes}
use in2140_introduksjon_til.Common.Run.{ok}
use in2140_introduksjon_til.Common.{
  leb, ◌==◌, if◌then◌else◌, Bool-cases, ℕ, ◌+◌, ◌-◌, ◌*◌, ◌^◌, ◌≤◌, ◌<◌, max, ◌≡◌, refl, inl, inr,
  true, false, ◌&&◌, List, [], ◌∷◌, ◌++◌, map, arith,
}

insert : ℕ → List ℕ → List ℕ
insert x [] = x ∷ []
insert x (y ∷ ys) = let rest = insert x ys in if leb x y then x ∷ y ∷ ys else y ∷ rest

insertion_sort : List ℕ → List ℕ
insertion_sort [] = []
insertion_sort (x ∷ xs) = insert x (insertion_sort xs)

times-insert :
    (x y : ℕ) (ys : List ℕ) → times x (insert y ys) ≡ (if x == y then 1 else 0) + times x ys
unfolding insert times
times-insert x y [] = refl
times-insert x y (z ∷ ys) = elim (Bool-cases (leb y z)) [
  | inl e ↦ rw e refl
  | inr e ↦ rw e (omega (arith, times-insert x y ys))
]

times-insertion_sort : (x : ℕ) (xs : List ℕ) → times x (insertion_sort xs) ≡ times x xs
unfolding insertion_sort times
times-insertion_sort x [] = refl
times-insertion_sort x (y ∷ ys) =
    omega (arith, times-insert x y (insertion_sort ys), times-insertion_sort x ys)

insert-Sorted : (x : ℕ) (ys : List ℕ) → Sorted ys → Sorted (insert x ys)
unfolding insert Sorted
insert-Sorted x [] s = tt
insert-Sorted x (y ∷ []) s = elim (Bool-cases (leb x y)) [
  | inl e ↦ rw e (ground (arith, e), tt)
  | inr e ↦ rw e (ground (arith, e), tt)
]
insert-Sorted x (y ∷ z ∷ zs) (h, s) = elim (Bool-cases (leb x y)) [
  | inl e ↦ rw e (ground (arith, e), (h, s))
  | inr e ↦ elim (Bool-cases (leb x z)) [
    | inl e' ↦ rw (e, e') (ground (arith, e), (ground (arith, e'), s))
    | inr e' ↦ rw (e, e') (h, (rw e' at (insert-Sorted x (z ∷ zs) s)))
  ]
]

insertion_sort-Sorted : (xs : List ℕ) → Sorted (insertion_sort xs)
unfolding insertion_sort Sorted
insertion_sort-Sorted [] = tt
insertion_sort-Sorted (x ∷ xs) = insert-Sorted x (insertion_sort xs) (insertion_sort-Sorted xs)

insertion_sort-IsSort : IsSort insertion_sort
insertion_sort-IsSort = record { in_order = insertion_sort-Sorted; same = times-insertion_sort }

abbrev requests : List ℕ
requests = 7 ∷ 2 ∷ 9 ∷ 4 ∷ 3 ∷ 2 ∷ []

moved_lem_example :
    (look insertion_sort 5 requests + 5 ≡ highest 5 requests)
    × (lookdown insertion_sort 5 requests + lowest 5 requests ≡ 5)
    × (scan insertion_sort true 5 requests + 5 ≡ max (disksize - 1) (highest 5 requests))
    × (scan insertion_sort false 5 requests ≡ look insertion_sort 5 requests)
moved_lem_example = moved_lem insertion_sort-IsSort 5 requests

look-le-fcfs_example :
    (look insertion_sort 5 requests ≤ fcfs 5 requests)
    × (lookdown insertion_sort 5 requests ≤ fcfs 5 requests)
    × (look insertion_sort 5 requests < 2 ^ 31)
    × (lookdown insertion_sort 5 requests < 2 ^ 31)
unfolding fcfs
look-le-fcfs_example = look-le-fcfs insertion_sort-IsSort 5 requests (omega arith)

test_distances :
    look insertion_sort 5 requests
      ∷ lookdown insertion_sort 5 requests
      ∷ scan insertion_sort true 5 requests
      ∷ fcfs 5 requests
      ∷ []
    ≡ 4 ∷ 3 ∷ 34 ∷ 21 ∷ []
unfolding look lookdown scan fcfs insertion_sort insert first_not_below move_down
test_distances = refl

-- The value of a decimal number, and 0 for a text that does not start with a digit.
decimal : ℕ → Bytes → ℕ
decimal n [] = n
decimal n (c ∷ cs) =
    let rest = decimal (n * 10 + (c - b'0')) cs in if leb b'0' c && leb c b'9' then rest else n

-- `LOOK 5 7 9`: the head starts at 0, and the request for track 9 is dropped.
test_seek_main_lem :
    seek_main insertion_sort
      (decimal 0)
      true
      (codes "LOOK" ∷ (codes "5" ∷ codes "7" ∷ []) ++ (codes "9" ∷ []))
    ≡ ok (
        moved insertion_sort look_algo true
          (decimal 0 (codes "LOOK"))
          (map (decimal 0) (codes "5" ∷ codes "7" ∷ [])))
unfolding algorithm strcmp_eq
test_seek_main_lem =
    seek_main_lem insertion_sort (decimal 0) true (codes "LOOK") (codes "9")
      (codes "5" ∷ codes "7" ∷ []) look_algo refl
