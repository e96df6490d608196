-- ===== src/Oblig/Programs/Delete/Rules.antt =====
-- oblig/del_fs.c: what one search or one deletion does to the pointers above it.
use in2140_introduksjon_til.Oblig.Directory.Held.Deleted.{delete_file-Fair, delete_dir-Fair}
use in2140_introduksjon_til.Oblig.Programs.Delete.{follow, try_delete_dir, try_delete_file}
use in2140_introduksjon_til.Oblig.Blocks.{BlockStore}
use in2140_introduksjon_til.Oblig.Directory.Held.{FairAfter, FairDelete}
use in2140_introduksjon_til.Oblig.System.Consistent.{
  target-inode_at, target-Owned, stored-Consistent, Consistent,
}
use in2140_introduksjon_til.Oblig.System.Live.{Live, target_of, target-stored, stored-Kept}
use in2140_introduksjon_til.Oblig.Tree.Paths.{inode_at_child, inode_at-put_inode}
use in2140_introduksjon_til.Oblig.Directory.{
  take_child, may_delete, delete_file_shrunk, unlink_child, delete_dir_shrunk, State,
}
use in2140_introduksjon_til.Oblig.Programs.Load.{find_returns}
use in2140_introduksjon_til.Oblig.Tree.{child_at, inode_at, put_inode}
use in2140_introduksjon_til.Common.Run.{failure, ℤ, pos, Run, exited, unchecked_null, ok}
use in2140_introduksjon_til.Common.Words.{Bytes}
use in2140_introduksjon_til.Oblig.System.{
  succeeded, ◌>>=◌, ◌>>◌, target, seen, stored, find, file_deleted, remove_file, remove_dir, Fs,
  null, to, returned,
}
use in2140_introduksjon_til.Oblig.Inode.{name, is_directory, children, with_children, Inode}
use in2140_introduksjon_til.Common.{
  ◌==◌, Bool-cases, Option-cases, ℕ, ◌≡◌, refl, sym, ap, ◌∙◌, ◌⊎◌, inl, inr, Bool, true, false,
  Option, none, some, List, [], ◌∷◌, ◌++◌, append-nil,
}

inode_at_prefix :
    (root : Inode) (p q : List ℕ) (x : Inode)
    → inode_at root (p ++ q) ≡ some x
    → (y : Inode) × (inode_at root p ≡ some y)
unfolding inode_at
inode_at_prefix root [] q x h = (root, refl)
inode_at_prefix root (i ∷ p) q x h = elim (Option-cases (child_at (children root) i)) [
  | inl e ↦ cc (rw (e, inode_at) at h)
  | inr (c, e) ↦
      let (y, f) = inode_at_prefix c p q x (rw (e, inode_at) at h) in
      (y, inode_at_child root c i p e ∙ f)
]

-- A deletion fails and leaves the parent, or gives 0 and another parent.
delete_dir_cases :
    (x node : Inode)
    → (delete_dir_shrunk (some x) (some node) ≡ (failure, some x))
      ⊎ ((y : Inode) × (delete_dir_shrunk (some x) (some node) ≡ (pos 0, some y)))
unfolding delete_dir_shrunk unlink_child
delete_dir_cases x node = elim (Bool-cases (may_delete x node (is_directory node == 0))) [
  | inr e ↦ rw e (inl refl)
  | inl e ↦ elim (Option-cases (take_child (children x) (name node))) [
    | inl e' ↦ rw (e, e') (inl refl)
    | inr ((c, ds), e') ↦ rw (e, e') (inr (with_children x ds, refl))
  ]
]

module _ {B : BlockStore} where
  open B use {Store, IsSound, used}

  pub Live-prefix : (fs : Fs B) (k : ℕ) (p q : List ℕ) → Live fs (to k (p ++ q)) → Live fs (to k p)
  Live-prefix fs k p q (x, h) =
      let (root, e, e') = target-inode_at fs k (p ++ q) x h in
      let (y, f) = inode_at_prefix root p q x e' in (y, target_of fs k p root e ∙ f)

  -- The inode at which a call stored the parent is there.
  stored-Live :
      (fs : Fs B) (k : ℕ) (p : List ℕ) (x : Inode) (y : Option Inode) (st : State B)
      → target fs k p ≡ some x
      → FairAfter B x fs.state.store y st.store
      → Live (stored fs k p y st) (to k p)
  unfolding inode_at
  stored-Live fs k p x none st h f = absurd f
  stored-Live fs k p x (some y) st h f =
      let (root, e, e') = target-inode_at fs k p x h in
      (
        y,
        target-stored fs k p p root y st e
            ∙ ap (inode_at (put_inode root p y)) (sym (append-nil p))
            ∙ inode_at-put_inode root p [] x y e',
      )

  pub find_cases :
      (fs : Fs B) (k : ℕ) (p : List ℕ) (n : Bytes)
      → Live fs (to k p)
      → (find (to k p) n fs ≡ returned (null, fs))
        ⊎ ((q : List ℕ) × (find (to k p) n fs ≡ returned (to k (p ++ q), fs))
            × Live fs (to k (p ++ q)))
  find_cases fs k p n (x, h) = elim (find_returns fs k p x n h) [
    | inl (e, e') ↦ inl e
    | inr (q, y, e, e', e3) ↦ inr (q, e, (y, e'))
  ]

  follow_live :
      (fs : Fs B) (k : ℕ) (p : List ℕ) (x : Inode)
      → target fs k p ≡ some x
      → follow (to k p) fs ≡ returned (tt, fs)
  unfolding follow
  follow_live fs k p x h = rw (h, follow) refl

  -- `delete_dir` of an inode below the parent returns; if it fails, that inode is still there.
  pub try_delete_dir_cases :
      (fs : Fs B) (k : ℕ) (p q : List ℕ)
      → Consistent fs
      → Live fs (to k (p ++ q))
      → (fs' : Fs B) × Consistent fs'
        × (((try_delete_dir (to k p) (to k (p ++ q)) fs ≡ returned (false, fs'))
              × Live fs' (to k (p ++ q)))
            ⊎ ((try_delete_dir (to k p) (to k (p ++ q)) fs ≡ returned (true, fs'))
                × Live fs' (to k p)))
  unfolding try_delete_dir remove_dir seen ◌>>=◌ ◌>>◌
  try_delete_dir_cases fs k p q c (node, h) =
      let (x, e) = Live-prefix fs k p q (node, h) in
      let st = fs.state in
      let fair = delete_dir-Fair B x (some node) st.store c.sound in
      let followed = follow_live fs k (p ++ q) node h in
      elim (delete_dir_cases x node) [
        | inl r ↦
            let f : FairAfter B x st.store (some x) st.store = rw r at fair in
            (
              stored fs k p (some x) st,
              stored-Consistent fs k p x (some x) st c e f,
              inl (
                rw (followed, ◌>>=◌, e, remove_dir, h, r) refl,
                stored-Kept fs k p x x st e (λ i d g. g) (to k (p ++ q)) (node, h),
              ),
            )
        | inr (y, r) ↦
            let f : FairAfter B x st.store (some y) st.store = rw r at fair in
            (
              stored fs k p (some y) st,
              stored-Consistent fs k p x (some y) st c e f,
              inr (
                rw (followed, ◌>>=◌, e, remove_dir, h, r) refl,
                stored-Live fs k p x (some y) st e f,
              ),
            )
      ]

  deleted_file :
      (fs : Fs B) (k : ℕ) (p : List ℕ) (x : Inode) (o : Run (ℤ × Option Inode × Store))
      → Consistent fs
      → target fs k p ≡ some x
      → FairDelete B x fs.state.store o
      → (b : Bool) × (fs' : Fs B) × (file_deleted fs k p o ≡ returned (b, fs'))
        × Consistent fs'
        × Live fs' (to k p)
  deleted_file fs k p x exited c e f = absurd f
  deleted_file fs k p x unchecked_null c e f = absurd f
  deleted_file fs k p x (ok (r, y, s)) c e f =
      let st = record fs.state { store = s } in
      (
        succeeded r,
        stored fs k p y st,
        refl,
        stored-Consistent fs k p x y st c e f,
        stored-Live fs k p x y st e f,
      )

  pub try_delete_file_cases :
      (fs : Fs B) (k : ℕ) (p q : List ℕ)
      → Consistent fs
      → Live fs (to k (p ++ q))
      → (b : Bool) × (fs' : Fs B) × (try_delete_file (to k p) (to k (p ++ q)) fs
          ≡ returned (b, fs'))
        × Consistent fs'
        × Live fs' (to k p)
  unfolding try_delete_file remove_file seen ◌>>=◌ ◌>>◌
  try_delete_file_cases fs k p q c (node, h) =
      let (x, e) = Live-prefix fs k p q (node, h) in
      let (b, fs', done, con, l) =
        deleted_file fs k p x (delete_file_shrunk B (some x) (some node) fs.state.store) c e
          (delete_file-Fair B x (some node) fs.state.store c.sound (target-Owned fs k p x c e)) in
      (b, fs', rw (follow_live fs k (p ++ q) node h, ◌>>=◌, e, remove_file, h) done, con, l)
