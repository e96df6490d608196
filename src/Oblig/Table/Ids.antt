-- ===== src/Oblig/Table/Ids.antt =====
-- oblig/inode.c: the id that the first inode gets after a master file table was loaded.
use in2140_introduksjon_til.Oblig.Directory.Create.{with_name_lem}
use in2140_introduksjon_til.Common.Run.{ok}
use in2140_introduksjon_til.Common.{
  ◌==◌, ℕ, ◌+◌, ◌≡◌, refl, ap, ◌∙◌, Bool, true, false, ◌||◌, Option, none, some, [], arith,
}
use in2140_introduksjon_til.Common.Words.{Bytes}
use in2140_introduksjon_til.Oblig.Blocks.{BlockStore}
use in2140_introduksjon_til.Oblig.Inode.{
  id, children, with_children, snoc, find_inode_by_name, Inode, inode, Inodes, nil, cons,
}
use in2140_introduksjon_til.Oblig.Directory.{create_dir_copied, create_dir, Memory, State}
use in2140_introduksjon_til.Oblig.Table.{save_inodes, always, input, load_inodes, loaded, Input}
use in2140_introduksjon_til.Oblig.Table.Format.{size, IsSaved}
use in2140_introduksjon_til.Oblig.Table.RoundTrip.{load_inodes-save_inodes}

-- Whether an inode of the tree has the id.
unfoldable mutual
  pub occurs : ℕ → Inode → Bool
  occurs k (inode i n d cs s bs) = k == i || occurs_in k cs

  pub occurs_in : ℕ → Inodes → Bool
  occurs_in k nil = false
  occurs_in k (cons c cs) = occurs k c || occurs_in k cs

module _ (B : BlockStore) where
  open B use {Store}

  -- A tree is saved and loaded by a new process, and a directory is then created in its root. If
  -- some inode of the tree has as its id the number of inodes of the tree, as can happen after a
  -- deletion, the new directory gets that id a second time.
  pub load-create_dir-occurs :
      (t : Inode) (n : Bytes) (m : Memory) (s : Store) (before : Option Bytes)
      → IsSaved t
      → occurs (size t) t ≡ true
      → m.node ≡ true
      → m.name_copy ≡ true
      → m.child_array ≡ true
      → find_inode_by_name (some t) n ≡ none
      → (end : Input) × (child parent : Inode) × (st : State B) × (load_inodes always
            (save_inodes true (some t) before)
            0
          ≡ some (loaded t end))
        × (create_dir B m (some t) n (record { num_inode_ids = end.num_inode_ids; store = s })
            ≡ ok (some child, some parent, st))
        × (occurs (id child) t ≡ true)
  unfolding create_dir_copied
  load-create_dir-occurs t n m s before saved clash node copied room new =
      let child : Inode = inode (0 + size t) n 1 nil 0 [] in
      let zero_first : 0 + size t ≡ size t = omega arith in
      (
        input [] (0 + size t),
        child,
        with_children t (snoc (children t) child),
        record { num_inode_ids = 0 + size t + 1; store = s },
        load_inodes-save_inodes t before 0 saved,
        rw
            (
              with_name_lem B m
                  (ok (
                    create_dir_copied B m (some t) n
                      (record { num_inode_ids = 0 + size t; store = s })))
                  copied,
              new,
              create_dir_copied,
              node,
              room,
            )
            refl,
        ap (λ k. occurs k t) zero_first ∙ clash,
      )
