-- ===== src/Oblig/Directory/Create.antt =====
-- oblig/inode.c: what `create_file` and `create_dir` do on every branch.
use in2140_introduksjon_til.Common.{
  if◌then◌else◌, Bool-cases, length, ℕ, ◌+◌, ◌*◌, ◌≤◌, ◌<◌, ◌≡◌, ap, ◌⊎◌, inl, inr, true, false,
  none, some, List, [], arith,
}
use in2140_introduksjon_til.Common.Run.{Run, ok}
use in2140_introduksjon_til.Common.Words.{Bytes}
use in2140_introduksjon_til.Oblig.Blocks.{BlockStore}
use in2140_introduksjon_til.Oblig.Inode.{
  children, with_children, snoc, blocksize, blocks_needed, find_inode_by_name, Inode, inode, nil,
}
use in2140_introduksjon_til.Oblig.Directory.{
  add_inode_to_parent, Created, with_name, create_file_copied, create_file, finish_file, Memory,
  State,
}
use in2140_introduksjon_til.Oblig.Directory.Reserve.{TooFew, reserve_cases, Taken}

-- The blocks of a file hold its bytes, and the last of them is not empty.
pub blocks_needed_bounds :
    (bytes : ℕ)
    → (bytes ≤ blocks_needed bytes * blocksize)
      × (blocks_needed bytes * blocksize < bytes + blocksize)
unfolding blocks_needed
blocks_needed_bounds bytes = ground arith

module _ (B : BlockStore) where
  open B use {Store, IsSound, used}

  abbrev pub file_inode : Bytes → ℕ → List ℕ → ℕ → Inode
  file_inode n size bs i = inode i n 0 nil size bs

  abbrev pub state : ℕ → Store → State B
  state i s = record { num_inode_ids = i; store = s }

  -- The results with the child appended to the parent, if there is memory for that.
  abbrev pub handed_out : Memory → Inode → Inode → ℕ → Store → Created B
  handed_out m parent child i s =
      if m.child_array
      then (some child, some (with_children parent (snoc (children parent) child)), state (i + 1) s)
      else (none, some parent, state i s)

module _ (B : BlockStore) where
  open B use {Store, IsSound, used}

  -- With a copy of the name the call ends as its body does.
  pub with_name_lem :
      (m : Memory) (r : Run (Created B)) → m.name_copy ≡ true → with_name B m.name_copy r ≡ r
  with_name_lem m r e = ap (λ c. with_name B c r) e

  -- No name that is taken is created again, and no state changes.
  pub create_file_copied_taken :
      (m : Memory) (parent other : Inode) (n : Bytes) (size : ℕ) (st : State B)
      → find_inode_by_name (some parent) n ≡ some other
      → create_file_copied B m (some parent) n size st ≡ ok (none, some parent, st)
  unfolding create_file_copied
  create_file_copied_taken m parent other n size st h = rw (h, create_file_copied)

  -- The outcomes with a copy of the name.
  pub create_file_copied_cases :
      (m : Memory) (parent : Inode) (n : Bytes) (size i : ℕ) (s : Store)
      → IsSound s
      → m.node ≡ true
      → m.block_array ≡ true
      → find_inode_by_name (some parent) n ≡ none
      → ((bs : List ℕ) × (s' : Store) × (create_file_copied B m (some parent) n size (state B i s)
            ≡ ok (handed_out B m parent (file_inode B n size bs i) i s'))
          × IsSound s'
          × (length bs ≡ blocks_needed size)
          × Taken B bs s s')
        ⊎ ((s' : Store) × (create_file_copied B m (some parent) n size (state B i s)
              ≡ ok (none, some parent, state B i s'))
            × IsSound s'
            × ((c : ℕ) → used s' c ≡ used s c)
            × TooFew B (blocks_needed size) s)
  unfolding create_file_copied add_inode_to_parent
  create_file_copied_cases m parent n size i s sound node array new =
      elim (reserve_cases B (blocks_needed size) [] s sound tt (λ c h. cc)) [
        | inl (bs, s', done, sound', long, taken) ↦ inl (
          bs,
          s',
          rw (new, create_file_copied, node, array, done) (split bs s' (Bool-cases m.child_array)),
          sound',
          long,
          taken,
        )
        | inr (s', failed, sound', same, few) ↦
            inr (s', rw (new, create_file_copied, node, array, failed), sound', same, few)
      ]
    where
      split :
          (bs : List ℕ) (s' : Store)
          → (m.child_array ≡ true) ⊎ (m.child_array ≡ false)
          → ok (finish_file B m parent n size i (some bs, s'))
            ≡ ok (handed_out B m parent (file_inode B n size bs i) i s')
      split bs s' (inl e) = rw e
      split bs s' (inr e) = rw e

  -- With memory for the inode, the copy of its name and its block array, and no inode of that name,
  -- `create_file` either takes `blocks_needed size` unused blocks, no others, and then hands out the
  -- inode if the parent can be enlarged and else returns NULL with the blocks still taken; or fewer
  -- blocks than that are unused, and it returns NULL with every block as before. The id counter moves
  -- only when an inode is handed out.
  pub create_file_cases :
      (m : Memory) (parent : Inode) (n : Bytes) (size i : ℕ) (s : Store)
      → IsSound s
      → m.node ≡ true
      → m.name_copy ≡ true
      → m.block_array ≡ true
      → find_inode_by_name (some parent) n ≡ none
      → ((bs : List ℕ) × (s' : Store) × (create_file B m (some parent) n size (state B i s)
            ≡ ok (handed_out B m parent (file_inode B n size bs i) i s'))
          × IsSound s'
          × (length bs ≡ blocks_needed size)
          × Taken B bs s s')
        ⊎ ((s' : Store) × (create_file B m (some parent) n size (state B i s)
              ≡ ok (none, some parent, state B i s'))
            × IsSound s'
            × ((c : ℕ) → used s' c ≡ used s c)
            × TooFew B (blocks_needed size) s)
  create_file_cases m parent n size i s sound node copied array new =
      rw (with_name_lem m (create_file_copied B m (some parent) n size (state B i s)) copied)
        (create_file_copied_cases m parent n size i s sound node array new)
