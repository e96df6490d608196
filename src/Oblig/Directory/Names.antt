-- ===== src/Oblig/Directory/Names.antt =====
-- oblig/inode.c: looking a child up by name, appending one, and taking one out.
use in2140_introduksjon_til.Common.{
  ◌==◌, if◌then◌else◌, ==_self, ==_eq, Bool-cases, ◌≡◌, refl, ap₂, inl, inr, true, none, some, [],
  ◌∷◌,
}
use in2140_introduksjon_til.Common.Words.{Bytes}
use in2140_introduksjon_til.Oblig.Inode.{
  name, snoc, strcmp_eq, find_child, Inode, Inodes, nil, cons,
}
use in2140_introduksjon_til.Oblig.Directory.{take_child}

pub strcmp_eq_self : (n : Bytes) → strcmp_eq n n ≡ true
unfolding strcmp_eq
strcmp_eq_self [] = refl
strcmp_eq_self (b ∷ n) = rw (==_self b, strcmp_eq_self n)

pub strcmp_eq→eq : (m n : Bytes) → strcmp_eq m n ≡ true → m ≡ n
unfolding strcmp_eq
strcmp_eq→eq [] [] h = refl
strcmp_eq→eq [] (b ∷ n) h = cc
strcmp_eq→eq (a ∷ m) [] h = cc
strcmp_eq→eq (a ∷ m) (b ∷ n) h = elim (Bool-cases (a == b)) [
  | inl e ↦ ap₂ (λ x xs. x ∷ xs) (==_eq a b e) (strcmp_eq→eq m n (rw e at h))
  | inr e ↦ cc (rw e at h)
]

-- A child that is appended is found under its name, if no other child has it.
pub find_child-snoc :
    (cs : Inodes) (c : Inode) (n : Bytes)
    → find_child cs n ≡ none
    → find_child (snoc cs c) n ≡ (if strcmp_eq (name c) n then some c else none)
unfolding find_child
find_child-snoc nil c n h = refl
find_child-snoc (cons d cs) c n h = elim (Bool-cases (strcmp_eq (name d) n)) [
  | inl e ↦ cc (rw e at h)
  | inr e ↦ rw e (find_child-snoc cs c n (rw e at h))
]

-- Taking that child out again leaves the others in their order.
pub take_child-snoc :
    (cs : Inodes) (c : Inode) (n : Bytes)
    → find_child cs n ≡ none
    → strcmp_eq (name c) n ≡ true
    → take_child (snoc cs c) n ≡ some (c, cs)
unfolding find_child take_child
take_child-snoc nil c n h e = rw e
take_child-snoc (cons d cs) c n h e = elim (Bool-cases (strcmp_eq (name d) n)) [
  | inl p ↦ cc (rw p at h)
  | inr p ↦ rw (p, take_child-snoc cs c n (rw p at h) e)
]
