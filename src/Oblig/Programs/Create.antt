-- ===== src/Oblig/Programs/Create.antt =====
-- The programs oblig/create_fs.c, create_fs_1.c, create_fs_2.c and create_fs_3.c, as far as they
-- change the trees, the table and the master file table.
use in2140_introduksjon_til.Oblig.System.Build.{Copies}
use in2140_introduksjon_til.Oblig.System.Consistent.{held_all}
use in2140_introduksjon_til.Oblig.Allocation.Format.{format_disk_lem}
use in2140_introduksjon_til.Oblig.Allocation.Store.{is_used, IsTable, table_store}
use in2140_introduksjon_til.Oblig.Allocation.{
  num_blocks, set_block_allocation_table_name, format_disk, Outcomes,
}
use in2140_introduksjon_til.Common.Run.{exited, unchecked_null, ok}
use in2140_introduksjon_til.Oblig.Blocks.{BlockStore}
use in2140_introduksjon_til.Common.Words.{Bytes, codes}
use in2140_introduksjon_til.Oblig.Allocation.Laws.{disk, Healthy}
use in2140_introduksjon_til.Oblig.System.{
  Action, ◌>>=◌, ◌>>◌, make_dir, make_file, save, Machine, Fs, null, Outcome, ended, broken,
}
use in2140_introduksjon_til.Oblig.System.Builds.{Finishes, Builds, builds_rules}
use in2140_introduksjon_til.Common.{
  get_elem?, replicate, ℕ, zero, suc, ◌≤◌, ◌≡◌, refl, Option, none, some, [], ◌∷◌, arith,
}

module _ {B : BlockStore} where
  -- `main` of create_fs.c
  unfoldable pub create_fs : Machine → Action B (Unit {0})
  create_fs w = do
    root ← make_dir w null (codes "/")
    make_file w root (codes "kernel") 20000
    dir_etc ← make_dir w root (codes "etc")
    make_file w dir_etc (codes "hosts") 200
    dir_usr ← make_dir w root (codes "usr")
    dir_bin ← make_dir w dir_usr (codes "bin")
    dir_local ← make_dir w dir_usr (codes "local")
    dir_lbin ← make_dir w dir_local (codes "bin")
    make_file w dir_bin (codes "ls") 14322
    make_file w dir_bin (codes "ps") 13800
    make_file w dir_lbin (codes "nvcc") 28000
    make_file w dir_lbin (codes "gcc") 12623
    save w root

  -- `main` of create_fs_1.c
  unfoldable pub create_fs_1 : Machine → Action B (Unit {0})
  create_fs_1 w = do
    root ← make_dir w null (codes "/")
    make_file w root (codes "kernel") 20000
    dir_etc ← make_dir w root (codes "etc")
    make_file w dir_etc (codes "hosts") 200
    dir_usr ← make_dir w root (codes "usr")
    dir_bin ← make_dir w dir_usr (codes "bin")
    dir_local ← make_dir w dir_usr (codes "local")
    dir_lbin ← make_dir w dir_local (codes "bin")
    make_file w dir_bin (codes "ls") 14322
    make_file w dir_bin (codes "ps") 13800
    make_file w dir_lbin (codes "nvcc") 28000
    make_file w dir_lbin (codes "gcc") 12623
    save w root

  -- `main` of create_fs_2.c
  unfoldable pub create_fs_2 : Machine → Action B (Unit {0})
  create_fs_2 w = do
    root ← make_dir w null (codes "/")
    dir_etc ← make_dir w root (codes "etc")
    dir_share ← make_dir w root (codes "share")
    dir_man ← make_dir w dir_share (codes "man")
    dir_var ← make_dir w root (codes "var")
    dir_log ← make_dir w dir_var (codes "log")
    make_file w root (codes "kernel") 20000
    make_file w dir_log (codes "message") 50000
    make_file w dir_log (codes "warn") 50000
    make_file w dir_log (codes "fail") 50000
    make_file w dir_etc (codes "hosts") 200
    make_file w dir_man (codes "read.2") 300
    make_file w dir_man (codes "write.2") 400
    save w root

  -- `main` of create_fs_3.c
  unfoldable pub create_fs_3 : Machine → Action B (Unit {0})
  create_fs_3 w = do
    root ← make_dir w null (codes "/")
    dir_root ← make_dir w root (codes "root")
    dir_home ← make_dir w root (codes "home")
    dir_guest ← make_dir w dir_home (codes "guest")
    dir_user ← make_dir w dir_home (codes "user")
    dir_down ← make_dir w dir_user (codes "Download")
    _ ← make_dir w dir_home (codes "print")
    make_file w dir_root (codes "bashrc") 100
    make_file w dir_root (codes "profile") 100
    make_file w dir_guest (codes "bashrc") 100
    make_file w dir_guest (codes "profile") 100
    make_file w dir_user (codes "bashrc") 100
    make_file w dir_user (codes "profile") 100
    make_file w dir_down (codes "oblig2") 163033
    save w root

  create_fs-Builds : (w : Machine) → Copies w → Builds {B = B} (null ∷ []) (create_fs w)
  unfolding create_fs
  create_fs-Builds w cp = search builds_rules depth 30

  create_fs_1-Builds : (w : Machine) → Copies w → Builds {B = B} (null ∷ []) (create_fs_1 w)
  unfolding create_fs_1
  create_fs_1-Builds w cp = search builds_rules depth 30

  create_fs_2-Builds : (w : Machine) → Copies w → Builds {B = B} (null ∷ []) (create_fs_2 w)
  unfolding create_fs_2
  create_fs_2-Builds w cp = search builds_rules depth 30

  create_fs_3-Builds : (w : Machine) → Copies w → Builds {B = B} (null ∷ []) (create_fs_3 w)
  unfolding create_fs_3
  create_fs_3-Builds w cp = search builds_rules depth 30

zeros_are_bits : (n b v : ℕ) → get_elem? (replicate n 0) b ≡ some v → v ≤ 1
zeros_are_bits zero b v e = ground arith
zeros_are_bits (suc n) zero v e = ground arith
zeros_are_bits (suc n) (suc b) v e = zeros_are_bits n b v e

module _ {o : Outcomes} (h : Healthy o) where
  -- The calls of these programs in front of `body`, which is what they differ in: the name of the
  -- table is set, and the disk is formatted.
  unfoldable pub created_with :
      Action (table_store h) (Unit {0})
      → Bytes
      → Option Bytes
      → Option Bytes
      → Outcome (Unit {0} × Fs (table_store h))
  created_with body bat_name table mft =
      elim (set_block_allocation_table_name bat_name (record { file_name = none; file = table })) [
        | exited ↦ ended
        | unchecked_null ↦ broken
        | ok named ↦ elim (format_disk o named) [
          | exited ↦ ended
          | unchecked_null ↦ broken
          | ok (r, d) ↦ body (record {
            trees = [];
            state = record { num_inode_ids = 0; store = d };
            mft = mft;
            calls = 0;
          })
        ]
      ]

  formatted-IsTable : (f : Bytes) → IsTable (disk f (replicate num_blocks 0))
  formatted-IsTable f = (f, replicate num_blocks 0, refl, refl, zeros_are_bits num_blocks)

  created_with-Builds :
      (body : Action (table_store h) (Unit {0})) (bat_name : Bytes) (table mft : Option Bytes)
      → Builds (null ∷ []) body
      → Finishes (created_with body bat_name table mft)
  unfolding created_with set_block_allocation_table_name held_all is_used
  created_with-Builds body bat_name table mft b =
      rw (format_disk_lem bat_name table h, created_with)
        (b.finishes _ (record { sound = formatted-IsTable bat_name; owned = λ b. omega arith })
          (tt, tt))

  -- While nothing fails outside oblig/allocation.c and every `strdup` returns a copy, each of the four
  -- programs returns, whichever of the allocations that the code looks at fail and whatever the two
  -- files held before, and leaves a table in which every block that a file of the tree holds is in
  -- use, and no block is held twice.
  pub create_fs-Finishes :
      (w : Machine) (bat_name : Bytes) (table mft : Option Bytes)
      → Copies w
      → Finishes (created_with (create_fs w) bat_name table mft)
        × Finishes (created_with (create_fs_1 w) bat_name table mft)
        × Finishes (created_with (create_fs_2 w) bat_name table mft)
        × Finishes (created_with (create_fs_3 w) bat_name table mft)
  create_fs-Finishes w f table mft cp = (
    created_with-Builds (create_fs w) f table mft (create_fs-Builds w cp),
    created_with-Builds (create_fs_1 w) f table mft (create_fs_1-Builds w cp),
    created_with-Builds (create_fs_2 w) f table mft (create_fs_2-Builds w cp),
    created_with-Builds (create_fs_3 w) f table mft (create_fs_3-Builds w cp),
  )
