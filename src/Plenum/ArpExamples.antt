-- ===== src/Plenum/ArpExamples.antt =====
-- The theorems about plenum/uke11/arpjob.c at concrete inputs, with insertion sort for `qsort`.
use in2140_introduksjon_til.Plenum.Arp.Correct.{replace1_lem, arp_job_lem}
use in2140_introduksjon_til.Plenum.Arp.Order.{lt_word_cycle}
use in2140_introduksjon_til.Plenum.Arp.Returns.{Valid}
use in2140_introduksjon_til.Plenum.Arp.Replace.{Replaced, Windows}
use mathlib.Core.Bool.{Bool-set}
use mathlib.Core.List.{Mem, Perm, Pairwise, forall_mem-cons, not-mem-nil}
use mathlib.Core.List.Perm
use in2140_introduksjon_til.Common.Ints.{lt}
use in2140_introduksjon_til.Common.Run.{pos}
use in2140_introduksjon_til.Common.{
  leb, if◌then◌else◌, Bool-cases, length, replicate, ℕ, zero, suc, ◌+◌, ◌^◌, ◌≤◌, ◌≡◌, refl, inl,
  inr, true, false, Option, none, some, List, [], ◌∷◌, arith,
}
use in2140_introduksjon_til.Plenum.Arp.{
  valid_byte, oldest, lt_word, replace1, arp_job, ArpEntry, ArpTable,
}
use in2140_introduksjon_til.Plenum.Arp.Ages.{upto, Ages, IsAgeSort}

insert : ArpEntry → List ArpEntry → List ArpEntry
insert e [] = e ∷ []
insert e (x ∷ xs) = let rest = insert e xs in if leb e.age x.age then e ∷ x ∷ xs else x ∷ rest

sort : List ArpEntry → List ArpEntry
sort [] = []
sort (x ∷ xs) = insert x (sort xs)

insert-perm : (e : ArpEntry) (t : List ArpEntry) → Perm (insert e t) (e ∷ t)
unfolding insert
insert-perm e [] = Perm.refl (e ∷ [])
insert-perm e (x ∷ xs) = elim (Bool-cases (leb e.age x.age)) [
  | inl h ↦ rw h (Perm.refl (e ∷ x ∷ xs))
  | inr h ↦ rw h (Perm.trans (Perm.cons x (insert-perm e xs)) (Perm.swap e x xs))
]

sort-perm : (t : List ArpEntry) → Perm (sort t) t
unfolding sort
sort-perm [] = Perm.refl []
sort-perm (x ∷ xs) = Perm.trans (insert-perm x (sort xs)) (Perm.cons x (sort-perm xs))

abbrev NotOlder : ArpEntry → ArpEntry → Type 0
NotOlder a b = lt (oldest b a) (pos 0) ≡ false

NotOlder-of_le : (a b : ArpEntry) → a.age ≤ b.age → NotOlder a b
unfolding oldest
NotOlder-of_le a b h = ground arith

NotOlder-trans : (a b c : ArpEntry) → NotOlder a b → NotOlder b c → NotOlder a c
unfolding oldest
NotOlder-trans a b c h k = ground arith

below-cons :
    (a b : ArpEntry) (t : List ArpEntry)
    → NotOlder a b
    → ((x : ArpEntry) → Mem x t → NotOlder a x)
    → (x : ArpEntry) → Mem x (b ∷ t)
    → NotOlder a x
below-cons a b t h k = (forall_mem-cons (λ x. Bool-set _ _)).1 (h, k)

insert-Pairwise :
    (e : ArpEntry) (t : List ArpEntry) → Pairwise NotOlder t → Pairwise NotOlder (insert e t)
unfolding insert
insert-Pairwise e [] s = Pairwise.cons (λ x m. absurd (not-mem-nil m)) Pairwise.nil
insert-Pairwise e (x ∷ xs) (Pairwise.cons below s) = elim (Bool-cases (leb e.age x.age)) [
  | inl h ↦
      let first = NotOlder-of_le e x (ground arith) in
      rw h (
        Pairwise.cons (below-cons e x xs first (λ y m. NotOlder-trans e x y first (below y m)))
          (Pairwise.cons below s))
  | inr h ↦ rw h (
      Pairwise.cons
        (λ y m.
          below-cons x e xs (NotOlder-of_le x e (ground arith)) below y
            ((Perm.mem_iff (insert-perm e xs)).0 m))
        (insert-Pairwise e xs s))
]

sort-Pairwise : (t : List ArpEntry) → Pairwise NotOlder (sort t)
unfolding sort
sort-Pairwise [] = Pairwise.nil
sort-Pairwise (x ∷ xs) = insert-Pairwise x (sort xs) (sort-Pairwise xs)

sort-IsAgeSort : IsAgeSort sort
sort-IsAgeSort = record { rearranges = sort-perm; ascends = sort-Pairwise }

-- A search that finds nothing.
abbrev found_nothing : ℕ → List ArpEntry → Option ArpEntry
found_nothing i t = none

-- Random numbers that all make a valid byte.
abbrev fives : List ℕ
fives = replicate 40 5

fives-Valid : Valid fives
unfolding valid_byte
fives-Valid = tt_all 40
  where
    tt_all : (n : ℕ) → Valid (replicate n 5)
    tt_all zero = tt
    tt_all (suc n) = (refl, tt_all n)

test_arp_job_lem :
    (tables : List ArpTable) × (found : Option ArpEntry) × (rs' : List ℕ) × (arp_job sort sort
        found_nothing 2 2 fives
      ≡ some ((tables, found), rs'))
    × (40 + length rs' ≡ 40)
    × (length tables ≡ 3)
    × Windows 0 2 tables
test_arp_job_lem =
    arp_job_lem sort sort sort-IsAgeSort sort-perm found_nothing 2 2 fives (omega arith) fives-Valid
      (omega arith)

abbrev entry : ℕ → ArpEntry
entry n = record { ip = 5; mac = []; age = n }

abbrev two_entries : ArpTable
two_entries = record { entries = entry 4 ∷ entry 3 ∷ []; latest = 5 }

two_entries-Ages : Ages 3 2 two_entries.entries
unfolding upto
two_entries-Ages = Perm.swap 3 4 []

test_replace1_lem :
    (t' : ArpTable) × (rs' : List ℕ) × (replace1 sort sort two_entries fives ≡ some (t', rs'))
    × (10 + length rs' ≡ 40)
    × Replaced 3 1 two_entries t'
test_replace1_lem =
    replace1_lem sort sort sort-IsAgeSort sort-perm 3 1 two_entries fives two_entries-Ages refl
      fives-Valid (omega arith)

lt_word_cycle_example :
    (lt (lt_word 1 (2 ^ 31)) (pos 0) ≡ true)
    × (lt (lt_word (2 ^ 31) (2 ^ 31 + 5)) (pos 0) ≡ true)
    × (lt (lt_word (2 ^ 31 + 5) 1) (pos 0) ≡ true)
lt_word_cycle_example =
    lt_word_cycle 1 (2 ^ 31) (2 ^ 31 + 5) (omega arith) (omega arith) (omega arith) (omega arith)
      (omega arith) (omega arith)
