-- ===== src/Oblig/Directory/Operations.antt =====
-- oblig/inode.c: all four operations keep the names of a directory apart; the name that none of
-- them can give to a child.
use in2140_introduksjon_til.Common.{
  ◌==◌, Bool-cases, Option-cases, ℕ, ◌≡◌, refl, ◌≢◌, inl, inr, Bool, true, false, ◌&&◌, Option,
  none, some, List, [],
}
use in2140_introduksjon_til.Common.Run.{◌>>=◌, ℤ, pos, negsuc, Run, exited, unchecked_null, ok}
use in2140_introduksjon_til.Common.Words.{Bytes}
use in2140_introduksjon_til.Oblig.Blocks.{BlockStore}
use in2140_introduksjon_til.Oblig.Inode.{
  name, is_directory, children, blocks, with_children, count, blocks_needed, find_inode_by_name,
  Inode, Inodes,
}
use in2140_introduksjon_til.Oblig.Directory.{
  add_inode_to_parent, take_child, may_delete, free_blocks, reserve, Created, with_name,
  create_file_copied, create_dir_copied, create_file, create_dir, delete_file_shrunk, unlink_child,
  delete_dir_shrunk, with_array, delete_file, delete_dir, link_child, finish_file, delete_child,
  Memory, State,
}
use in2140_introduksjon_til.Oblig.Directory.Names.{strcmp_eq_self}
use in2140_introduksjon_til.Oblig.Directory.Unique.{snoc-IsUnique, take_child-IsUnique, IsUnique}

-- What holds of the parent after a call, if there is one.
abbrev pub After : Option Inode → Type 0
After none = Unit
After (some d) = IsUnique d

-- The same for a call in which the process can end, or that stores a NULL which it does not look at.
abbrev pub AfterRun {ℓ κ} : {A : Type ℓ} {C : Type κ} → Run (A × Option Inode × C) → Type 0
AfterRun exited = Unit
AfterRun unchecked_null = Unit
AfterRun (ok (a, d, c)) = After d

unlink_child-After :
    (parent : Inode) (n : Bytes) (r : Option (Inode × Inodes))
    → IsUnique parent
    → take_child (children parent) n ≡ r
    → After (unlink_child parent r).1
unfolding unlink_child
unlink_child-After parent n none u e = u
unlink_child-After parent n (some (c, ds)) u e = take_child-IsUnique parent c ds n u e

delete_dir_shrunk-After :
    (parent node : Inode) → IsUnique parent → After (delete_dir_shrunk (some parent) (some node)).1
unfolding delete_dir_shrunk
delete_dir_shrunk-After parent node u =
    elim (Bool-cases (may_delete parent node (is_directory node == 0))) [
      | inr refused ↦ rw refused u
      | inl allowed ↦ rw allowed (unlink_child-After parent (name node) _ u refl)
    ]

with_array-After :
    {C : Type 0} (b : Bool) (r : Run (ℤ × Option Inode × C))
    → AfterRun r
    → AfterRun (with_array b r)
with_array-After true r h = h
with_array-After false exited h = tt
with_array-After false unchecked_null h = tt
with_array-After false (ok (negsuc n, parent, s)) h = h
with_array-After false (ok (pos n, none, s)) h = h
with_array-After false (ok (pos n, some parent, s)) h =
    elim (Bool-cases (count (children parent) == 0)) [ inl e ↦ rw e h | inr e ↦ rw e tt ]

module _ (B : BlockStore) where
  open B use {Store}

  delete_child-After :
      (parent : Inode) (s : Store) (n : Bytes) (r : Option (Inode × Inodes))
      → IsUnique parent
      → take_child (children parent) n ≡ r
      → AfterRun (delete_child B parent s r)
  unfolding delete_child
  delete_child-After parent s n none u e = u
  delete_child-After parent s n (some (c, ds)) u e = freed (free_blocks B (blocks c) s)
    where
      freed :
          (run : Run Store)
          → AfterRun (run >>= λ s'. ok (pos 0, some (with_children parent ds), s'))
      freed exited = tt
      freed unchecked_null = tt
      freed (ok s') = take_child-IsUnique parent c ds n u e

  delete_file_shrunk-After :
      (parent node : Inode) (s : Store)
      → IsUnique parent
      → AfterRun (delete_file_shrunk B (some parent) (some node) s)
  unfolding delete_file_shrunk
  delete_file_shrunk-After parent node s u =
      elim (Bool-cases (may_delete parent node (is_directory node == 1))) [
        | inr refused ↦ rw refused u
        | inl allowed ↦ rw allowed (delete_child-After parent s (name node) _ u refl)
      ]

  link_child-After :
      (m : Memory) (parent child : Inode) (i : ℕ) (s : Store)
      → IsUnique parent
      → find_inode_by_name (some parent) (name child) ≡ none
      → is_directory parent ≢ 0
      → After (link_child B m parent child i s).1
  unfolding link_child add_inode_to_parent
  link_child-After m parent child i s u new dir = elim (Bool-cases m.child_array) [
    | inl room ↦ rw room (snoc-IsUnique parent child u new dir)
    | inr full ↦ rw full u
  ]

  create_dir_copied-After :
      (m : Memory) (parent : Inode) (n : Bytes) (st : State B)
      → IsUnique parent
      → is_directory parent ≢ 0
      → After (create_dir_copied B m (some parent) n st).1
  unfolding create_dir_copied
  create_dir_copied-After m parent n st u dir =
      elim (Option-cases (find_inode_by_name (some parent) n)) [
        | inr (other, e) ↦ rw (e, create_dir_copied) u
        | inl new ↦ elim (Bool-cases m.node) [
          | inr e ↦ rw (new, create_dir_copied, e) u
          | inl e ↦ rw (new, create_dir_copied, e) (link_child-After m parent _ _ _ u new dir)
        ]
      ]

  create_file_copied-After :
      (m : Memory) (parent : Inode) (n : Bytes) (size : ℕ) (st : State B)
      → IsUnique parent
      → is_directory parent ≢ 0
      → AfterRun (create_file_copied B m (some parent) n size st)
  unfolding create_file_copied
  create_file_copied-After m parent n size st u dir =
      elim (Option-cases (find_inode_by_name (some parent) n)) [
        | inr (other, e) ↦ rw (e, create_file_copied) u
        | inl new ↦ elim (Bool-cases (m.node && m.block_array)) [
          | inr e ↦ rw (new, create_file_copied, e) u
          | inl e ↦
              rw (new, create_file_copied, e)
                (finished new (reserve B (blocks_needed size) [] st.store))
        ]
      ]
    where
      finished :
          find_inode_by_name (some parent) n ≡ none
          → (run : Run (Option (List ℕ) × Store))
          → AfterRun (run >>= λ r. ok (finish_file B m parent n size st.num_inode_ids r))
      finished new exited = tt
      finished new unchecked_null = tt
      finished new (ok (none, s)) = unfold finish_file in u
      finished new (ok (some bs, s)) =
          unfold finish_file in link_child-After m parent _ _ _ u new dir

  with_name-After : (b : Bool) (r : Run (Created B)) → AfterRun r → AfterRun (with_name B b r)
  with_name-After true r h = h
  with_name-After false exited h = tt
  with_name-After false unchecked_null h = tt
  with_name-After false (ok (some child, parent, st)) h = tt
  with_name-After false (ok (none, parent, st)) h = h

  -- In a directory whose children differ in name from one another and from the directory, every one
  -- of `create_dir`, `create_file`, `delete_dir` and `delete_file` leaves such a directory behind,
  -- whether it succeeds, is refused or fails, as long as no NULL of `strdup`, or of the `realloc` for
  -- one child less while children are left, is stored unseen.
  pub operations-IsUnique :
      (m : Memory) (shrinks : Bool) (parent node : Inode) (n : Bytes) (size : ℕ) (st : State B)
      → IsUnique parent
      → is_directory parent ≢ 0
      → AfterRun (create_dir B m (some parent) n st)
        × AfterRun (create_file B m (some parent) n size st)
        × AfterRun (delete_dir shrinks (some parent) (some node) st.store)
        × AfterRun (delete_file B shrinks (some parent) (some node) st.store)
  operations-IsUnique m shrinks parent node n size st u dir = (
    with_name-After m.name_copy _ (create_dir_copied-After m parent n st u dir),
    with_name-After m.name_copy _ (create_file_copied-After m parent n size st u dir),
    with_array-After shrinks (ok (_, _, st.store)) (delete_dir_shrunk-After parent node u),
    with_array-After shrinks _ (delete_file_shrunk-After parent node st.store u),
  )

  -- A name that the directory itself has cannot be given to a child: with memory for the copy of a name,
  -- both calls return NULL and change nothing, also if no child has it.
  pub create-own_name :
      (m : Memory) (parent : Inode) (size : ℕ) (st : State B)
      → (create_file_copied B m (some parent) (name parent) size st ≡ ok (none, some parent, st))
        × (create_dir_copied B m (some parent) (name parent) st ≡ (none, some parent, st))
  unfolding create_file_copied create_dir_copied
  create-own_name m parent size st =
      let found : find_inode_by_name (some parent) (name parent) ≡ some parent =
        unfold find_inode_by_name in rw (strcmp_eq_self (name parent)) in
      (rw (found, create_file_copied), rw (found, create_dir_copied))
