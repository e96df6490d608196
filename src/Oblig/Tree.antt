-- ===== src/Oblig/Tree.antt =====
-- oblig/inode.h: pointers into a tree of inodes, as paths of child indices from its root, and the
-- blocks that its inodes hold.
pub mod Paths
use in2140_introduksjon_til.Oblig.Directory.{take_child}
use in2140_introduksjon_til.Common.Words.{Bytes}
use in2140_introduksjon_til.Common.{
  ◌==◌, if◌then◌else◌, Bool-cases, Option-cases, ℕ, zero, suc, ◌+◌, ◌≡◌, ap, inl, inr, Option, none,
  some, List, [], ◌∷◌, arith,
}
use in2140_introduksjon_til.Oblig.Inode.{
  name, children, with_children, snoc, strcmp_eq, Inode, inode, Inodes, nil, cons,
}

-- `children[i]`
unfoldable pub child_at : Inodes → ℕ → Option Inode
child_at nil i = none
child_at (cons c cs) zero = some c
child_at (cons c cs) (suc i) = child_at cs i

unfoldable pub set_child : Inodes → ℕ → Inode → Inodes
set_child nil i x = nil
set_child (cons c cs) zero x = cons x cs
set_child (cons c cs) (suc i) x = cons c (set_child cs i x)

-- The inode that the path leads to.
unfoldable pub inode_at : Inode → List ℕ → Option Inode
inode_at root [] = some root
inode_at root (i ∷ p) = elim (child_at (children root) i) [ none ↦ none | some c ↦ inode_at c p ]

-- The tree in which this inode is replaced by `x`.
unfoldable pub put_inode : Inode → List ℕ → Inode → Inode
put_inode root [] x = x
put_inode root (i ∷ p) x = elim (child_at (children root) i) [
  | none ↦ root
  | some c ↦ with_children root (set_child (children root) i (put_inode c p x))
]

-- How often the list has the block.
unfoldable pub times : ℕ → List ℕ → ℕ
times b [] = 0
times b (c ∷ cs) = (if b == c then 1 else 0) + times b cs

unfoldable mutual
  -- How often the block stands in the block arrays of the tree.
  pub held : ℕ → Inode → ℕ
  held b (inode i n d c s bs) = times b bs + held_in b c

  pub held_in : ℕ → Inodes → ℕ
  held_in b nil = 0
  held_in b (cons c cs) = held b c + held_in b cs

pub held-with_children :
    (b : ℕ) (x : Inode) (cs : Inodes)
    → held b (with_children x cs) + held_in b (children x) ≡ held b x + held_in b cs
unfolding held held_in
held-with_children b (inode i n d c s bs) cs = omega arith

held_in-set_child :
    (b : ℕ) (cs : Inodes) (i : ℕ) (c x : Inode)
    → child_at cs i ≡ some c
    → held_in b (set_child cs i x) + held b c ≡ held_in b cs + held b x
unfolding held_in child_at set_child
held_in-set_child b nil i c x h = cc
held_in-set_child b (cons d cs) zero c x h =
    let same : d ≡ c = cc in omega (arith, ap (held b) same)
held_in-set_child b (cons d cs) (suc i) c x h = omega (arith, held_in-set_child b cs i c x h)

-- Replacing an inode changes what the tree holds by what the inode holds.
pub held-put_inode :
    (b : ℕ) (root : Inode) (p : List ℕ) (x y : Inode)
    → inode_at root p ≡ some x
    → held b (put_inode root p y) + held b x ≡ held b root + held b y
unfolding inode_at put_inode
held-put_inode b root [] x y h = let same : root ≡ x = cc in omega (arith, ap (held b) same)
held-put_inode b root (i ∷ p) x y h = elim (Option-cases (child_at (children root) i)) [
  | inl e ↦ cc (rw (e, inode_at) at h)
  | inr (c, e) ↦
      let h' : inode_at c p ≡ some x = rw (e, inode_at) at h in
      let x' = put_inode c p y in
      rw (e, put_inode)
        (omega (
          arith,
          held-put_inode b c p x y h',
          held_in-set_child b (children root) i c x' e,
          held-with_children b root (set_child (children root) i x'),
        ))
]

pub held_in-snoc :
    (b : ℕ) (cs : Inodes) (c : Inode) → held_in b (snoc cs c) ≡ held_in b cs + held b c
unfolding held_in
held_in-snoc b nil c = omega arith
held_in-snoc b (cons d cs) c = omega (arith, held_in-snoc b cs c)

-- Taking a child out of the array takes out what it holds.
pub held_in-take_child :
    (b : ℕ) (cs ds : Inodes) (n : Bytes) (c : Inode)
    → take_child cs n ≡ some (c, ds)
    → held_in b ds + held b c ≡ held_in b cs
unfolding held_in take_child
held_in-take_child b nil ds n c h = cc
held_in-take_child b (cons d cs) ds n c h = elim (Bool-cases (strcmp_eq (name d) n)) [
  | inl e ↦
      let same : d ≡ c = cc (rw e at h) in
      let rest : cs ≡ ds = cc (rw e at h) in omega (arith, ap (held b) same, ap (held_in b) rest)
  | inr e ↦ elim (Option-cases (take_child cs n)) [
    | inl e' ↦ cc (rw (e, e') at h)
    | inr ((c', ds'), e') ↦
        let same : c' ≡ c = cc (rw (e, e') at h) in
        let rest : cons d ds' ≡ ds = cc (rw (e, e') at h) in
        omega (arith, ap (held b) same, ap (held_in b) rest, held_in-take_child b cs ds' n c' e')
  ]
]
