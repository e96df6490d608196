-- ===== src/Oblig/Tree/Paths.antt =====
-- oblig/inode.h: pointers stay good while directories only grow.
use in2140_introduksjon_til.Common.{
  ◌==◌, ==_eq, Bool-cases, Option-cases, ℕ, zero, suc, ◌≡◌, refl, ap, ◌∙◌, ◌≢◌, inl, inr, some,
  List, [], ◌∷◌, ◌++◌, arith,
}
use in2140_introduksjon_til.Oblig.Inode.{
  children, with_children, count, snoc, Inode, inode, Inodes, nil, cons,
}
use in2140_introduksjon_til.Oblig.Tree.{child_at, set_child, inode_at, put_inode}

pub children_with : (x : Inode) (cs : Inodes) → children (with_children x cs) ≡ cs
children_with (inode i n d c s bs) cs = refl

child_at-set_child :
    (cs : Inodes) (i : ℕ) (c x : Inode)
    → child_at cs i ≡ some c
    → child_at (set_child cs i x) i ≡ some x
unfolding child_at set_child
child_at-set_child nil i c x h = cc
child_at-set_child (cons d cs) zero c x h = refl
child_at-set_child (cons d cs) (suc i) c x h = child_at-set_child cs i c x h

child_at-set_ne :
    (cs : Inodes) (i j : ℕ) (x : Inode) → i ≢ j → child_at (set_child cs i x) j ≡ child_at cs j
unfolding child_at set_child
child_at-set_ne nil i j x h = refl
child_at-set_ne (cons d cs) zero zero x h = absurd (h refl)
child_at-set_ne (cons d cs) zero (suc j) x h = refl
child_at-set_ne (cons d cs) (suc i) zero x h = refl
child_at-set_ne (cons d cs) (suc i) (suc j) x h = child_at-set_ne cs i j x (λ e. h (ap suc e))

pub child_at-snoc :
    (cs : Inodes) (c : Inode) (i : ℕ) (d : Inode)
    → child_at cs i ≡ some d
    → child_at (snoc cs c) i ≡ some d
unfolding child_at
child_at-snoc nil c i d h = cc
child_at-snoc (cons e cs) c zero d h = h
child_at-snoc (cons e cs) c (suc i) d h = child_at-snoc cs c i d h

pub child_at-snoc_last : (cs : Inodes) (c : Inode) → child_at (snoc cs c) (count cs) ≡ some c
unfolding child_at
child_at-snoc_last nil c = refl
child_at-snoc_last (cons e cs) c = child_at-snoc_last cs c

pub inode_at_child :
    (root c : Inode) (i : ℕ) (p : List ℕ)
    → child_at (children root) i ≡ some c
    → inode_at root (i ∷ p) ≡ inode_at c p
unfolding inode_at
inode_at_child root c i p h = rw (h, inode_at)

put_inode_child :
    (root c y : Inode) (i : ℕ) (p : List ℕ)
    → child_at (children root) i ≡ some c
    → put_inode root (i ∷ p) y ≡ with_children root (set_child (children root) i (put_inode c p y))
unfolding put_inode
put_inode_child root c y i p h = rw (h, put_inode)

-- Below the place where `y` is put, paths go on from `y`.
pub inode_at-put_inode :
    (root : Inode) (p q : List ℕ) (x y : Inode)
    → inode_at root p ≡ some x
    → inode_at (put_inode root p y) (p ++ q) ≡ inode_at y q
unfolding inode_at put_inode
inode_at-put_inode root [] q x y h = refl
inode_at-put_inode root (i ∷ p) q x y h = elim (Option-cases (child_at (children root) i)) [
  | inl e ↦ cc (rw (e, inode_at) at h)
  | inr (c, e) ↦
      let h' : inode_at c p ≡ some x = rw (e, inode_at) at h in
      let new = set_child (children root) i (put_inode c p y) in
      let below : child_at (children (with_children root new)) i ≡ some (put_inode c p y) =
        rw (children_with root new) (child_at-set_child (children root) i c (put_inode c p y) e) in
      rw (e, put_inode)
        (inode_at_child (with_children root new) (put_inode c p y) i (p ++ q) below
          ∙ inode_at-put_inode c p q x y h')
]

-- Every child stands in `y` where it stands in `x`.
abbrev pub Extends : Inode → Inode → Type 0
Extends x y =
    (i : ℕ) (c : Inode) → child_at (children x) i ≡ some c → child_at (children y) i ≡ some c

-- What a path leads to is still there after `x` was replaced by an inode that extends it.
pub inode_at_kept :
    (root : Inode) (p q : List ℕ) (x y z : Inode)
    → Extends x y
    → inode_at root p ≡ some x
    → inode_at root q ≡ some z
    → (z' : Inode) × (inode_at (put_inode root p y) q ≡ some z')
unfolding inode_at put_inode
inode_at_kept root [] [] x y z ext h k = (y, refl)
inode_at_kept root [] (j ∷ q) x y z ext h k = elim (Option-cases (child_at (children root) j)) [
  | inl e ↦ cc (rw (e, inode_at) at k)
  | inr (c, e) ↦
      let same : root ≡ x = cc in
      (z, inode_at_child y c j q (ext j c (rw (← same) e)) ∙ (rw (e, inode_at) at k))
]
inode_at_kept root (i ∷ p) [] x y z ext h k = (_, refl)
inode_at_kept root (i ∷ p) (j ∷ q) x y z ext h k =
    elim (Option-cases (child_at (children root) i)) [
      | inl e ↦ cc (rw (e, inode_at) at h)
      | inr (c, e) ↦ elim (Option-cases (child_at (children root) j)) [
        | inl e' ↦ cc (rw (e', inode_at) at k)
        | inr (d, e') ↦
            let new = set_child (children root) i (put_inode c p y) in
            let placed = ap (λ r. inode_at r (j ∷ q)) (put_inode_child root c y i p e) in
            let below : child_at (children (with_children root new)) j ≡ child_at new j =
              ap (λ cs. child_at cs j) (children_with root new) in
            let k' : inode_at d q ≡ some z = rw (e', inode_at) at k in
            elim (Bool-cases (i == j)) [
              | inl ij ↦
                  let same : i ≡ j = ==_eq i j ij in
                  let here : child_at new j ≡ some (put_inode c p y) =
                    rw (← same) (child_at-set_child (children root) i c (put_inode c p y) e) in
                  let d_is_c : d ≡ c = cc (e, e', same) in
                  let (z', r) =
                    inode_at_kept c p q x y z ext (rw (e, inode_at) at h) (rw (← d_is_c) k') in
                  (
                    z',
                    placed
                        ∙ inode_at_child (with_children root new) (put_inode c p y) j q
                            (below ∙ here)
                        ∙ r,
                  )
              | inr ij ↦
                  let there : child_at new j ≡ some d =
                    child_at-set_ne (children root) i j (put_inode c p y) (λ s. ground arith)
                    ∙ e' in
                  (z, placed ∙ inode_at_child (with_children root new) d j q (below ∙ there) ∙ k')
            ]
      ]
    ]
