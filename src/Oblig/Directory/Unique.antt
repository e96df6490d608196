-- ===== src/Oblig/Directory/Unique.antt =====
-- oblig/inode.c: within a directory a name finds one inode. The invariant and the operations that
-- keep it.
use in2140_introduksjon_til.Common.{
  ==_ne, Bool-cases, ◌≡◌, refl, ◌∙◌, ◌≢◌, inl, inr, false, Option, none, some, arith,
}
use in2140_introduksjon_til.Common.Words.{Bytes}
use in2140_introduksjon_til.Oblig.Inode.{
  name, is_directory, children, with_children, snoc, strcmp_eq, find_child, find_inode_by_name,
  Inode, inode, Inodes, nil, cons,
}
use in2140_introduksjon_til.Oblig.Directory.{take_child}
use in2140_introduksjon_til.Oblig.Directory.Names.{strcmp_eq→eq, find_child-snoc}

abbrev Unique : Inodes → Type 0
Unique nil = Unit
Unique (cons c cs) = (find_child cs (name c) ≡ none) × Unique cs

-- No two children share a name, and none has the name of the directory.
pub record IsUnique (d : Inode) : Type 0 where
  pub apart : Unique (children d)
  pub other : find_child (children d) (name d) ≡ none

strcmp_eq_symm : (m n : Bytes) → strcmp_eq m n ≡ false → strcmp_eq n m ≡ false
strcmp_eq_symm m n h = elim (Bool-cases (strcmp_eq n m)) [
  | inl e ↦ cc (strcmp_eq→eq n m e)
  | inr e ↦ e
]

Unique-snoc :
    (cs : Inodes) (c : Inode) → Unique cs → find_child cs (name c) ≡ none → Unique (snoc cs c)
unfolding find_child
Unique-snoc nil c u h = (refl, tt)
Unique-snoc (cons d cs) c u h = elim (Bool-cases (strcmp_eq (name d) (name c))) [
  | inl e ↦ cc (rw e at h)
  | inr e ↦ (
    find_child-snoc cs c (name d) u.0 ∙ rw (strcmp_eq_symm (name d) (name c) e),
    Unique-snoc cs c u.1 (rw e at h),
  )
]

find_child_tail :
    (d : Inode) (cs : Inodes) (m : Bytes) → find_child (cons d cs) m ≡ none → find_child cs m ≡ none
unfolding find_child
find_child_tail d cs m h = ground arith

abbrev Kept : Inodes → Inodes → Type 0
Kept cs ds = Unique ds × ((m : Bytes) → find_child cs m ≡ none → find_child ds m ≡ none)

Kept-cons :
    (d : Inode) (cs ds : Inodes)
    → find_child cs (name d) ≡ none
    → Kept cs ds
    → Kept (cons d cs) (cons d ds)
unfolding find_child
Kept-cons d cs ds new k = ((k.1 (name d) new, k.0), λ m h. ground (arith, k.1 m))

-- A name that finds nothing finds nothing after a removal, and the names stay apart.
Taken-Unique :
    (cs ds : Inodes) (c : Inode) (n : Bytes)
    → take_child cs n ≡ some (c, ds)
    → Unique cs
    → Kept cs ds
unfolding take_child find_child
Taken-Unique nil ds c n e u = cc
Taken-Unique (cons d cs) ds c n e u = elim (Bool-cases (strcmp_eq (name d) n)) [
  | inl p ↦
      let same : cs ≡ ds = cc (rw p at e) in rw (← same) (u.1, λ m h. find_child_tail d cs m h)
  | inr p ↦ behind (λ ds' c' found. Taken-Unique cs ds' c' n found u.1) p (take_child cs n) refl
]
  where
    behind :
        ((ds' : Inodes) (c' : Inode) → take_child cs n ≡ some (c', ds') → Kept cs ds')
        → strcmp_eq (name d) n ≡ false
        → (r : Option (Inode × Inodes)) → take_child cs n ≡ r
        → Kept (cons d cs) ds
    behind ih p none missing = cc (rw (p, missing) at e)
    behind ih p (some (c', ds')) found =
        let same : cons d ds' ≡ ds = cc (rw (p, found) at e) in
        rw (← same) (Kept-cons d cs ds' u.0 (ih ds' c' found))

pub snoc-IsUnique :
    (parent child : Inode)
    → IsUnique parent
    → find_inode_by_name (some parent) (name child) ≡ none
    → is_directory parent ≢ 0
    → IsUnique (with_children parent (snoc (children parent) child))
unfolding find_inode_by_name
snoc-IsUnique (inode pi pn pd cs ps pb) child u new dir =
    elim (Bool-cases (strcmp_eq pn (name child))) [
      | inl e ↦ cc (rw e at new)
      | inr e ↦
          let free : find_child cs (name child) ≡ none = rw (e, ==_ne pd 0 dir) at new in
          record {
            apart = Unique-snoc cs child u.apart free;
            other = find_child-snoc cs child pn u.other ∙ rw (strcmp_eq_symm pn (name child) e);
          }
    ]

pub take_child-IsUnique :
    (parent c : Inode) (ds : Inodes) (n : Bytes)
    → IsUnique parent
    → take_child (children parent) n ≡ some (c, ds)
    → IsUnique (with_children parent ds)
take_child-IsUnique (inode pi pn pd cs ps pb) c ds n u e =
    let (apart, keeps) = Taken-Unique cs ds c n e u.apart in
    record { apart = apart; other = keeps pn u.other }
