-- ===== src/Oblig/Directory.antt =====
-- oblig/inode.c: `create_file`, `create_dir`, `delete_file` and `delete_dir`, over any block store
-- with the calls of oblig/allocation.h. `none` is a NULL pointer.
pub mod Create
pub mod Delete
pub mod Held
pub mod Names
pub mod Operations
pub mod Unique
pub mod Reserve
use in2140_introduksjon_til.Common.{
  ltb, ◌==◌, if◌then◌else◌, ℕ, zero, suc, ◌+◌, Bool, true, false, not, ◌&&◌, ◌||◌, Option, none,
  some, List, [], ◌∷◌, ◌++◌,
}
use in2140_introduksjon_til.Common.Run.{
  failure, ◌>>=◌, ℤ, pos, negsuc, Run, exited, unchecked_null, ok,
}
use in2140_introduksjon_til.Common.Words.{Bytes}
use in2140_introduksjon_til.Oblig.Blocks.{BlockStore}
use in2140_introduksjon_til.Oblig.Inode.{
  name, is_directory, children, blocks, with_children, count, snoc, strcmp_eq, blocks_needed,
  find_inode_by_name, Inode, inode, Inodes, nil, cons,
}

-- Which of the allocations of a call return memory: the inode, the copy of its name (`strdup`), its
-- array of blocks, and the parent's larger array of children.
pub record Memory : Type 0 where
  pub node : Bool
  pub name_copy : Bool
  pub block_array : Bool
  pub child_array : Bool

-- `add_inode_to_parent`; on failure the child is released.
unfoldable pub add_inode_to_parent : Memory → Inode → Inode → Option Inode
add_inode_to_parent m parent child =
    if m.child_array then some (with_children parent (snoc (children parent) child)) else none

-- The loops of `delete_file` and `delete_dir`: the first child with the name, and the others with
-- those behind it moved up by one place.
unfoldable pub take_child : Inodes → Bytes → Option (Inode × Inodes)
take_child nil n = none
take_child (cons c cs) n =
    if strcmp_eq (name c) n
    then some (c, cs)
    else elim (take_child cs n) [ none ↦ none | some (d, ds) ↦ some (d, cons c ds) ]

-- The guards in front of both loops, for pointers that are not NULL.
abbrev pub may_delete : Inode → Inode → Bool → Bool
may_delete parent node wrong_kind = not (
    is_directory parent == 0
    || wrong_kind
    || count (children parent) == 0
    || ltb 0 (count (children node)))

module _ (B : BlockStore) where
  open B use {Store}

  -- `num_inode_ids` and the block allocation table.
  pub record State : Type 0 where
    pub num_inode_ids : ℕ
    pub store : Store

module _ (B : BlockStore) where
  open B use {Store, allocate, free}

  -- `for (…) free_block((int) blocks[j]);`, for block numbers that fit an int
  unfoldable pub free_blocks : List ℕ → Store → Run Store
  free_blocks [] s = ok s
  free_blocks (b ∷ bs) s = do (_, s') ← free (pos b) s; free_blocks bs s'

  -- The allocation loop of `create_file` with the rounds left and the blocks taken so far; a
  -- failure gives these back.
  unfoldable pub reserve : ℕ → List ℕ → Store → Run (Option (List ℕ) × Store)
  reserve zero taken s = ok (some taken, s)
  reserve (suc k) taken s = do
    (result, s') ← allocate s
    elim result [
      | pos b ↦ reserve k (taken ++ (b ∷ [])) s'
      | negsuc _ ↦ do s'' ← free_blocks taken s'; ok (none, s'')
    ]

  -- The result of a `create_…`: the new inode, the parent after the call, and the state.
  abbrev pub Created : Type 0
  Created = Option Inode × Option Inode × State B

  -- The code does not look at what `strdup` returns: without the copy, an inode that is handed out has
  -- NULL for its name.
  abbrev pub with_name : Bool → Run Created → Run Created
  with_name true r = r
  with_name false (ok (some child, parent, st)) = unchecked_null
  with_name false (ok (none, parent, st)) = ok (none, parent, st)
  with_name false exited = exited
  with_name false unchecked_null = unchecked_null

  -- The end of both functions: with no room in the parent the new id is given back.
  link_child : Memory → Inode → Inode → ℕ → Store → Created
  unfolding add_inode_to_parent
  link_child m parent child ids s = elim (add_inode_to_parent m parent child) [
    | none ↦ (none, some parent, record { num_inode_ids = ids; store = s })
    | some parent' ↦ (some child, some parent', record { num_inode_ids = ids + 1; store = s })
  ]

  finish_file : Memory → Inode → Bytes → ℕ → ℕ → Option (List ℕ) × Store → Created
  unfolding link_child
  finish_file m parent n size ids (none, s) =
      (none, some parent, record { num_inode_ids = ids; store = s })
  finish_file m parent n size ids (some bs, s) =
      link_child m parent (inode ids n 0 nil size bs) ids s

  -- `create_file` and `create_dir` when `strdup` returns a copy.
  unfoldable pub create_file_copied : Memory → Option Inode → Bytes → ℕ → State B → Run Created
  unfolding finish_file
  create_file_copied m none n size st = ok (none, none, st)
  create_file_copied m (some parent) n size st =
      let nothing : Run Created = ok (none, some parent, st) in
      let made : Run Created = (do
        reserved ← reserve (blocks_needed size) [] st.store
        ok (finish_file m parent n size st.num_inode_ids reserved)) in
      elim (find_inode_by_name (some parent) n) [
        | some _ ↦ nothing
        | none ↦ if m.node && m.block_array then made else nothing
      ]

  -- With no parent the new directory is a root.
  unfoldable pub create_dir_copied : Memory → Option Inode → Bytes → State B → Created
  unfolding link_child
  create_dir_copied m none n st =
      if m.node
      then (
        some (inode st.num_inode_ids n 1 nil 0 []),
        none,
        record st { num_inode_ids = st.num_inode_ids + 1 },
      )
      else (none, none, st)
  create_dir_copied m (some parent) n st = elim (find_inode_by_name (some parent) n) [
    | some _ ↦ (none, some parent, st)
    | none ↦
        if m.node
        then link_child m parent (inode st.num_inode_ids n 1 nil 0 []) st.num_inode_ids st.store
        else (none, some parent, st)
  ]

  -- `create_file( parent, n, size )`, for a size that is not negative
  abbrev pub create_file : Memory → Option Inode → Bytes → ℕ → State B → Run Created
  create_file m parent n size st = with_name m.name_copy (create_file_copied m parent n size st)

  -- `create_dir( parent, n )`
  abbrev pub create_dir : Memory → Option Inode → Bytes → State B → Run Created
  create_dir m parent n st = with_name m.name_copy (ok (create_dir_copied m parent n st))

  delete_child : Inode → Store → Option (Inode × Inodes) → Run (ℤ × Option Inode × Store)
  delete_child parent s none = ok (failure, some parent, s)
  delete_child parent s (some (child, others)) = do
    s' ← free_blocks (blocks child) s
    ok (pos 0, some (with_children parent others), s')

  -- `delete_file` when the `realloc` for one child less returns memory.
  unfoldable pub delete_file_shrunk :
      Option Inode → Option Inode → Store → Run (ℤ × Option Inode × Store)
  unfolding delete_child
  delete_file_shrunk none _ s = ok (failure, none, s)
  delete_file_shrunk (some parent) none s = ok (failure, some parent, s)
  delete_file_shrunk (some parent) (some node) s =
      if may_delete parent node (is_directory node == 1)
      then delete_child parent s (take_child (children parent) (name node))
      else ok (failure, some parent, s)

unfoldable pub unlink_child : Inode → Option (Inode × Inodes) → ℤ × Option Inode
unlink_child parent none = (failure, some parent)
unlink_child parent (some (child, others)) = (pos 0, some (with_children parent others))

-- `delete_dir` when the `realloc` for one child less returns memory. The blocks of a directory are not
-- looked at: it has none.
unfoldable pub delete_dir_shrunk : Option Inode → Option Inode → ℤ × Option Inode
unfolding unlink_child
delete_dir_shrunk none _ = (failure, none)
delete_dir_shrunk (some parent) none = (failure, some parent)
delete_dir_shrunk (some parent) (some node) =
    if may_delete parent node (is_directory node == 0)
    then unlink_child parent (take_child (children parent) (name node))
    else (failure, some parent)

-- The code does not look at what that `realloc` returns either: without memory `children` is NULL, which
-- is no matter only when no child is left.
abbrev pub with_array :
    {A : Type 0} → Bool → Run (ℤ × Option Inode × A) → Run (ℤ × Option Inode × A)
with_array true r = r
with_array false (ok (pos n, some parent, a)) =
    if count (children parent) == 0 then ok (pos n, some parent, a) else unchecked_null
with_array false (ok (pos n, none, a)) = ok (pos n, none, a)
with_array false (ok (negsuc n, parent, a)) = ok (negsuc n, parent, a)
with_array false exited = exited
with_array false unchecked_null = unchecked_null

-- `delete_file( parent, node )`; `shrinks`: whether the `realloc` returns memory
abbrev pub delete_file :
    (B : BlockStore)
    → (shrinks : Bool) → Option Inode
    → Option Inode
    → B.Store
    → Run (ℤ × Option Inode × B.Store)
delete_file B shrinks parent node s = with_array shrinks (delete_file_shrunk B parent node s)

-- `delete_dir( parent, node )`
abbrev pub delete_dir :
    {S : Type 0} → (shrinks : Bool) → Option Inode → Option Inode → S → Run (ℤ × Option Inode × S)
delete_dir shrinks parent node s =
    let (r, parent') = delete_dir_shrunk parent node in with_array shrinks (ok (r, parent', s))
