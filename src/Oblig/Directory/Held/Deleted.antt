-- ===== src/Oblig/Directory/Held/Deleted.antt =====
-- oblig/inode.c: what `delete_file` and `delete_dir` do to the blocks held.
use in2140_introduksjon_til.Oblig.Directory.Held.{
  times_of_has, Distinct-of_times, Fair, Owned, Fair-refl, FairAfter, FairDelete,
}
use in2140_introduksjon_til.Oblig.Directory.{
  take_child, may_delete, delete_file_shrunk, unlink_child, delete_dir_shrunk, delete_child,
}
use in2140_introduksjon_til.Common.Words.{Bytes}
use in2140_introduksjon_til.Common.{
  ◌==◌, Bool-cases, ℕ, ◌+◌, ◌≤◌, ◌≡◌, refl, inl, inr, Option, none, some, arith,
}
use in2140_introduksjon_til.Oblig.Inode.{
  name, is_directory, children, blocks, with_children, Inode, inode, Inodes,
}
use in2140_introduksjon_til.Oblig.Blocks.{BlockStore}
use in2140_introduksjon_til.Oblig.Tree.{times, held, held-with_children, held_in-take_child}
use in2140_introduksjon_til.Oblig.Directory.Reserve.{has, Freed, free_blocks-Freed}

module _ (B : BlockStore) where
  open B use {Store, IsSound, used}

  -- Taking a child out takes out what it holds.
  held-taken :
      (b : ℕ) (parent c : Inode) (ds : Inodes) (n : Bytes)
      → take_child (children parent) n ≡ some (c, ds)
      → held b (with_children parent ds) + held b c ≡ held b parent
  held-taken b parent c ds n e =
      omega (arith, held-with_children b parent ds, held_in-take_child b (children parent) ds n c e)

  times-le-held : (b : ℕ) (c : Inode) → times b (blocks c) ≤ held b c
  unfolding held
  times-le-held b (inode i n d cs z bs) = omega arith

  Freed-Fair :
      (parent c : Inode) (ds : Inodes) (n : Bytes) (s s' : Store)
      → take_child (children parent) n ≡ some (c, ds)
      → Owned B parent s
      → Freed B (blocks c) s s'
      → Fair B parent s (with_children parent ds) s'
  Freed-Fair parent c ds n s s' e own freed b = elim (Bool-cases (has b (blocks c))) [
    | inl h ↦ ground (
      arith,
      h,
      freed b,
      own b,
      held-taken b parent c ds n e,
      times-le-held b c,
      times_of_has b (blocks c) h,
    )
    | inr h ↦ ground (arith, h, freed b, held-taken b parent c ds n e)
  ]

  delete_child-Fair :
      (parent : Inode) (n : Bytes) (s : Store) (r : Option (Inode × Inodes))
      → take_child (children parent) n ≡ r
      → IsSound s
      → Owned B parent s
      → FairDelete B parent s (delete_child B parent s r)
  unfolding delete_child
  delete_child-Fair parent n s none e sound own = (sound, Fair-refl B parent s s (λ b. refl))
  delete_child-Fair parent n s (some (c, ds)) e sound own =
      let below = λ (b : ℕ). held-taken b parent c ds n e in
      let (s', done, sound', freed) =
        free_blocks-Freed B (blocks c) s sound
          (Distinct-of_times (blocks c) (λ b. ground (arith, own b, below b, times-le-held b c)))
          (λ b h. ground (arith, own b, below b, times-le-held b c, times_of_has b (blocks c) h)) in
      rw done (sound', Freed-Fair parent c ds n s s' e own freed)

  pub delete_file-Fair :
      (parent : Inode) (node : Option Inode) (s : Store)
      → IsSound s
      → Owned B parent s
      → FairDelete B parent s (delete_file_shrunk B (some parent) node s)
  unfolding delete_file_shrunk
  delete_file-Fair parent none s sound own = (sound, Fair-refl B parent s s (λ b. refl))
  delete_file-Fair parent (some node) s sound own =
      elim (Bool-cases (may_delete parent node (is_directory node == 1))) [
        | inr refused ↦ rw refused (sound, Fair-refl B parent s s (λ b. refl))
        | inl allowed ↦ rw allowed (delete_child-Fair parent (name node) s _ refl sound own)
      ]

  -- `delete_dir` does not touch the table.
  pub delete_dir-Fair :
      (parent : Inode) (node : Option Inode) (s : Store)
      → IsSound s
      → FairAfter B parent s (delete_dir_shrunk (some parent) node).1 s
  unfolding delete_dir_shrunk
  delete_dir-Fair parent none s sound = (sound, Fair-refl B parent s s (λ b. refl))
  delete_dir-Fair parent (some node) s sound =
      elim (Bool-cases (may_delete parent node (is_directory node == 0))) [
        | inr refused ↦ rw refused (sound, Fair-refl B parent s s (λ b. refl))
        | inl allowed ↦ rw allowed (unlinked (take_child (children parent) (name node)) refl)
      ]
    where
      unlinked :
          (r : Option (Inode × Inodes))
          → take_child (children parent) (name node) ≡ r
          → FairAfter B parent s (unlink_child parent r).1 s
      unlinked none e = unfold unlink_child in (sound, Fair-refl B parent s s (λ b. refl))
      unlinked (some (c, ds)) e =
          unfold unlink_child in (sound, λ b. omega (arith, held-taken b parent c ds (name node) e))
