-- ===== src/Oblig/System/Live.antt =====
-- oblig/inode.c as the programs use it: the calls that make inodes return, keep the trees
-- consistent with the table, and keep every pointer good.
use in2140_introduksjon_til.Oblig.System.Consistent.{target-inode_at}
use in2140_introduksjon_til.Oblig.Blocks.{BlockStore}
use in2140_introduksjon_til.Oblig.Tree.{child_at, inode_at, put_inode}
use in2140_introduksjon_til.Oblig.Tree.Paths.{
  children_with, child_at-snoc_last, inode_at_child, inode_at-put_inode, Extends, inode_at_kept,
}
use in2140_introduksjon_til.Oblig.System.{placed, target, stored, to, Fs, Pointer, null, dangling}
use in2140_introduksjon_til.Oblig.Inode.{children, with_children, count, snoc, Inode}
use in2140_introduksjon_til.Oblig.Directory.{State}
use in2140_introduksjon_til.Common.{
  ◌==◌, ==_eq, Bool-cases, length, get_elem?, get_elem?-set_self, get_elem?-set_ne, get_elem?_lt, ℕ,
  zero, suc, ◌≡◌, refl, ap, ◌∙◌, ◌≢◌, inl, inr, some, List, [], ◌∷◌, ◌++◌, arith,
}

pub get_elem?-snoc :
    {A : Type 0} (xs : List A) (k : ℕ) (x y : A)
    → get_elem? xs k ≡ some y
    → get_elem? (xs ++ (x ∷ [])) k ≡ some y
get_elem?-snoc [] k x y h = ground arith
get_elem?-snoc (z ∷ xs) zero x y h = h
get_elem?-snoc (z ∷ xs) (suc k) x y h = get_elem?-snoc xs k x y h

pub get_elem?-snoc_last :
    {A : Type 0} (xs : List A) (x : A) → get_elem? (xs ++ (x ∷ [])) (length xs) ≡ some x
get_elem?-snoc_last [] x = refl
get_elem?-snoc_last (z ∷ xs) x = get_elem?-snoc_last xs x

module _ {B : BlockStore} where
  open B use {Store, IsSound, used}

  -- The pointer may be followed, or it is NULL.
  abbrev pub Live : Fs B → Pointer → Type 0
  Live fs null = Unit
  Live fs dangling = ⊥
  Live fs (to k p) = (x : Inode) × (target fs k p ≡ some x)

  abbrev pub Kept : Fs B → Fs B → Type 0
  Kept fs fs' = (q : Pointer) → Live fs q → Live fs' q

  pub target_of :
      (fs : Fs B) (k : ℕ) (p : List ℕ) (root : Inode)
      → get_elem? fs.trees k ≡ some root
      → target fs k p ≡ inode_at root p
  unfolding target
  target_of fs k p root e = rw (e, target)

  pub target-stored :
      (fs : Fs B) (k : ℕ) (p q : List ℕ) (root y : Inode) (st : State B)
      → get_elem? fs.trees k ≡ some root
      → target (stored fs k p (some y) st) k q ≡ inode_at (put_inode root p y) q
  unfolding stored placed
  target-stored fs k p q root y st e =
      target_of (stored fs k p (some y) st) k q (put_inode root p y) (
        rw (e, placed)
          (get_elem?-set_self fs.trees k (put_inode root p y) (get_elem?_lt fs.trees k e)))

  target-stored_ne :
      (fs : Fs B) (k j : ℕ) (p q : List ℕ) (root y z : Inode) (st : State B)
      → get_elem? fs.trees k ≡ some root
      → k ≢ j
      → target fs j q ≡ some z
      → target (stored fs k p (some y) st) j q ≡ some z
  unfolding stored placed
  target-stored_ne fs k j p q root y z st e ne h =
      let (other, e', e'') = target-inode_at fs j q z h in
      target_of (stored fs k p (some y) st) j q other
        (rw (e, placed) (get_elem?-set_ne fs.trees k j (put_inode root p y) ne ∙ e'))
      ∙ e''

  -- A call that only adds children keeps every pointer.
  pub stored-Kept :
      (fs : Fs B) (k : ℕ) (p : List ℕ) (x y : Inode) (st : State B)
      → target fs k p ≡ some x
      → Extends x y
      → Kept fs (stored fs k p (some y) st)
  stored-Kept fs k p x y st h ext null l = tt
  stored-Kept fs k p x y st h ext dangling l = absurd l
  stored-Kept fs k p x y st h ext (to j q) (z, l) =
      let (root, e, e') = target-inode_at fs k p x h in
      elim (Bool-cases (k == j)) [
        | inr ne ↦ (z, target-stored_ne fs k j p q root y z st e (λ s. ground arith) l)
        | inl same ↦
            let kj : k ≡ j = ==_eq k j same in
            let at_k : target fs k q ≡ some z = rw kj l in
            let (root', f, f') = target-inode_at fs k q z at_k in
            let one : root' ≡ root = cc in
            let (z', g) = inode_at_kept root p q x y z ext e' (rw (← one) f') in
            (z', rw (← kj) (target-stored fs k p q root y st e ∙ g))
      ]

  pub stored-child :
      (fs : Fs B) (k : ℕ) (p : List ℕ) (x c : Inode) (st : State B)
      → target fs k p ≡ some x
      → target
          (stored fs k p (some (with_children x (snoc (children x) c))) st)
          k
          (p ++ (count (children x) ∷ []))
        ≡ some c
  unfolding inode_at
  stored-child fs k p x c st h =
      let (root, e, e') = target-inode_at fs k p x h in
      let y = with_children x (snoc (children x) c) in
      let last : child_at (children y) (count (children x)) ≡ some c =
        ap (λ cs. child_at cs (count (children x))) (children_with x (snoc (children x) c))
        ∙ child_at-snoc_last (children x) c in
      target-stored fs k p (p ++ (count (children x) ∷ [])) root y st e
      ∙ inode_at-put_inode root p (count (children x) ∷ []) x y e'
      ∙ inode_at_child y c (count (children x)) [] last
