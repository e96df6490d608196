-- ===== src/Oblig/System.antt =====
-- oblig/inode.c as the programs of oblig/ use it: the operations on pointers to inodes, over one
-- heap of trees, the block store and the master file table.
pub mod Consistent
pub mod Live
pub mod Build
pub mod Builds
use in2140_introduksjon_til.Oblig.Table.{
  save_inodes, load_inodes, Load, incomplete, out_of_fuel, null_child, no_inode, loaded,
}
use in2140_introduksjon_til.Common.Words.{Bytes}
use in2140_introduksjon_til.Common.{
  ◌==◌, if◌then◌else◌, length, get_elem?, set, ℕ, ◌+◌, Bool, true, false, Option, none, some, List,
  [], ◌∷◌, ◌++◌,
}
use in2140_introduksjon_til.Common.Run.{ℤ, pos, negsuc, Run, exited, unchecked_null, ok}
use in2140_introduksjon_til.Oblig.Inode.{
  name, is_directory, children, count, strcmp_eq, Inode, Inodes, nil, cons,
}
use in2140_introduksjon_til.Oblig.Blocks.{BlockStore}
use in2140_introduksjon_til.Oblig.Tree.{inode_at, put_inode}
use in2140_introduksjon_til.Oblig.Directory.{
  Created, create_file, create_dir, delete_file_shrunk, delete_dir_shrunk, Memory, State,
}

-- A `struct inode*`: NULL, the address of an inode that was released, or the inode that a path leads
-- to from the root of a tree. The first tree is made by `create_dir( NULL, … )` or `load_inodes`; if
-- `create_dir` fails and its NULL is used as a parent, the next directory is the root of another
-- tree. A deletion moves the children behind the deleted one up by a place: the programs go on with
-- no pointer to these, only with pointers to the inodes above.
pub data Pointer : Type 0 where
  null dangling : Pointer
  to : (tree : ℕ) → (path : List ℕ) → Pointer

-- `ended`: `exit`. `broken`: a pointer was followed to an inode that is not there any more, a NULL was
-- stored where a name or an array should be, or a field is used that was never read from a file.
pub data Outcome {ℓ} (A : Type ℓ) : Type ℓ where
  ended broken : Outcome A
  returned : A → Outcome A

-- Whether `fopen` of the master file table works for writing, and which allocations of memory
-- work in the `n`-th call that makes an inode.
pub record Machine : Type 0 where
  pub opens : Bool
  pub memory : ℕ → Memory

-- The position that `find_inode_by_name` returns, as a path from the parent.
unfoldable pub child_place : ℕ → Inodes → Bytes → Option (List ℕ)
child_place i nil n = none
child_place i (cons c cs) n =
    if strcmp_eq (name c) n then some (i ∷ []) else child_place (i + 1) cs n

unfoldable pub find_place : Inode → Bytes → Option (List ℕ)
find_place parent n =
    if strcmp_eq (name parent) n
    then some []
    else if is_directory parent == 0
    then none
    else child_place 0 (children parent) n

-- The trees with `x` in its place.
unfoldable pub placed : List Inode → ℕ → List ℕ → Inode → List Inode
placed trees k p x = elim (get_elem? trees k) [
  | none ↦ trees
  | some root ↦ set trees k (put_inode root p x)
]

-- The new child is the last one.
abbrev pub new_pointer : ℕ → List ℕ → Inode → Option Inode → Pointer
new_pointer k p parent none = null
new_pointer k p parent (some c) = to k (p ++ (count (children parent) ∷ []))

abbrev place_of : ℕ → List ℕ → Option (List ℕ) → Pointer
place_of k p none = null
place_of k p (some q) = to k (p ++ q)

-- `delete_… ( … ) >= 0`
abbrev pub succeeded : ℤ → Bool
succeeded (pos n) = true
succeeded (negsuc n) = false

module _ (B : BlockStore) where
  -- The trees, `num_inode_ids` with the block store, the bytes of the master file table, and how
  -- many calls have made an inode.
  pub record Fs : Type 0 where
    pub trees : List Inode
    pub state : State B
    pub mft : Option Bytes
    pub calls : ℕ

  abbrev pub Action : Type 0 → Type 0
  Action A = Fs → Outcome (A × Fs)

module _ {B : BlockStore} where
  open B use {Store}

  infixl 5 ◌>>=◌ ◌>>◌
  unfoldable pub ◌>>=◌ : {A C : Type 0} → Action B A → (A → Action B C) → Action B C
  ◌>>=◌ m k fs = elim (m fs) [ ended ↦ ended | broken ↦ broken | returned (a, fs') ↦ k a fs' ]

  unfoldable pub ◌>>◌ : {A C : Type 0} → Action B A → Action B C → Action B C
  unfolding ◌>>=◌
  m >> k = m >>= λ _. k

  unfoldable pub pure : {A : Type 0} → A → Action B A
  pure a fs = returned (a, fs)

  -- The inode behind a pointer that is not NULL.
  unfoldable pub target : Fs B → ℕ → List ℕ → Option Inode
  target fs k p = elim (get_elem? fs.trees k) [ none ↦ none | some root ↦ inode_at root p ]

  -- The inode as `delete_file` and `delete_dir` read it; `broken` is in the middle of the pair.
  unfoldable pub seen : Fs B → Pointer → Option (Option Inode)
  seen fs null = some none
  seen fs dangling = none
  seen fs (to k p) = elim (target fs k p) [ none ↦ none | some x ↦ some (some x) ]

  -- The parent after a call, in its place, and the new state.
  unfoldable pub stored : Fs B → ℕ → List ℕ → Option Inode → State B → Fs B
  stored fs k p none st = record fs { state = st }
  stored fs k p (some x) st = record fs { trees = placed fs.trees k p x; state = st }

  abbrev pub called : Fs B → Fs B
  called fs = record fs { calls = fs.calls + 1 }

  -- The results of `create_dir( NULL, … )`.
  abbrev pub rooted : Fs B → Created B → Pointer × Fs B
  rooted fs (none, parent, st) = (null, record fs { state = st })
  rooted fs (some root, parent, st) =
      (to (length fs.trees) [], record fs { trees = fs.trees ++ (root ∷ []); state = st })

  abbrev pub linked : Fs B → ℕ → List ℕ → Inode → Created B → Pointer × Fs B
  linked fs k p parent (c, parent', st) = (new_pointer k p parent c, stored fs k p parent' st)

  abbrev made : {A : Type 0} → (Created B → A) → Run (Created B) → Outcome A
  made f exited = ended
  made f unchecked_null = broken
  made f (ok c) = returned (f c)

  unfoldable pub make_dir : Machine → Pointer → Bytes → Action B Pointer
  unfolding target stored placed
  make_dir w null n fs =
      made (rooted (called fs)) (create_dir B (w.memory fs.calls) none n fs.state)
  make_dir w dangling n fs = broken
  make_dir w (to k p) n fs = elim (target fs k p) [
    | none ↦ broken
    | some parent ↦
        made (linked (called fs) k p parent)
          (create_dir B (w.memory fs.calls) (some parent) n fs.state)
  ]

  unfoldable pub make_file : Machine → Pointer → Bytes → ℕ → Action B Pointer
  unfolding target stored placed
  make_file w null n size fs =
      made (λ c. (null, record (called fs) { state = c.2 }))
        (create_file B (w.memory fs.calls) none n size fs.state)
  make_file w dangling n size fs = broken
  make_file w (to k p) n size fs = elim (target fs k p) [
    | none ↦ broken
    | some parent ↦
        made (linked (called fs) k p parent)
          (create_file B (w.memory fs.calls) (some parent) n size fs.state)
  ]

  -- `find_inode_by_name`
  unfoldable pub find : Pointer → Bytes → Action B Pointer
  unfolding target
  find null n fs = returned (null, fs)
  find dangling n fs = broken
  find (to k p) n fs = elim (target fs k p) [
    | none ↦ broken
    | some parent ↦ returned (place_of k p (find_place parent n), fs)
  ]

  abbrev pub file_deleted :
      Fs B → ℕ → List ℕ → Run (ℤ × Option Inode × Store) → Outcome (Bool × Fs B)
  file_deleted fs k p exited = ended
  file_deleted fs k p unchecked_null = broken
  file_deleted fs k p (ok (r, parent, s)) =
      returned (succeeded r, stored fs k p parent (record fs.state { store = s }))

  -- `delete_file( parent, node )`. In the programs the `realloc` for one child less returns memory.
  unfoldable pub remove_file : Pointer → Pointer → Action B Bool
  unfolding target stored placed seen
  remove_file null node fs = returned (false, fs)
  remove_file dangling node fs = broken
  remove_file (to k p) node fs = elim (target fs k p) [
    | none ↦ broken
    | some parent ↦ elim (seen fs node) [
      | none ↦ broken
      | some x ↦ file_deleted fs k p (delete_file_shrunk B (some parent) x fs.state.store)
    ]
  ]

  abbrev dir_deleted : Fs B → ℕ → List ℕ → ℤ × Option Inode → Bool × Fs B
  dir_deleted fs k p (r, parent) = (succeeded r, stored fs k p parent fs.state)

  -- `delete_dir( parent, node )`, with the same `realloc`.
  unfoldable pub remove_dir : Pointer → Pointer → Action B Bool
  unfolding target stored placed seen
  remove_dir null node fs = returned (false, fs)
  remove_dir dangling node fs = broken
  remove_dir (to k p) node fs = elim (target fs k p) [
    | none ↦ broken
    | some parent ↦ elim (seen fs node) [
      | none ↦ broken
      | some x ↦ returned (dir_deleted fs k p (delete_dir_shrunk (some parent) x))
    ]
  ]

  -- `save_inodes`
  unfoldable pub save : Machine → Pointer → Action B (Unit {0})
  unfolding target seen
  save w root fs = elim (seen fs root) [
    | none ↦ broken
    | some x ↦ returned (tt, record fs { mft = save_inodes w.opens x fs.mft })
  ]

  -- `load_inodes`
  abbrev read_back : Fs B → Option (Load Inode) → Outcome (Pointer × Fs B)
  read_back fs none = returned (null, fs)
  read_back fs (some incomplete) = broken
  read_back fs (some out_of_fuel) = broken
  read_back fs (some null_child) = broken
  read_back fs (some (no_inode rest)) =
      returned (null, record fs { state = record fs.state { num_inode_ids = rest.num_inode_ids } })
  read_back fs (some (loaded root rest)) = returned (
    to (length fs.trees) [],
    record fs {
      trees = fs.trees ++ (root ∷ []);
      state = record fs.state { num_inode_ids = rest.num_inode_ids };
    },
  )

  unfoldable pub load : (memory : ℕ → Bool) → Action B Pointer
  load memory fs = read_back fs (load_inodes memory fs.mft fs.state.num_inode_ids)
