-- ===== src/Oblig/TreeExamples.antt =====
-- The theorems about oblig/inode.c at concrete inputs, over a table with two blocks in use.
use in2140_introduksjon_til.Oblig.Table.Fuel.{load_inodes_ends}
use in2140_introduksjon_til.Oblig.Directory.Delete.{delete_file-create_file}
use in2140_introduksjon_til.Common.{
  ◌==◌, length, ℕ, ◌+◌, ◌*◌, ◌≤◌, ◌<◌, ◌≡◌, refl, ◌≢◌, ◌⊎◌, true, false, not, none, some, List, [],
  ◌∷◌, arith,
}
use in2140_introduksjon_til.Common.Run.{pos, unchecked_null, ok}
use in2140_introduksjon_til.Common.Words.{Bytes, le_bytes, from_le, read_le}
use in2140_introduksjon_til.Oblig.Blocks.{BlockStore}
use in2140_introduksjon_til.Oblig.Allocation.{
  find_unused, read_table, write_table, allocate_block, Disk,
}
use in2140_introduksjon_til.Oblig.Allocation.Laws.{disk}
use in2140_introduksjon_til.Oblig.Allocation.Format.{used_then_free}
use in2140_introduksjon_til.Oblig.Allocation.Store.{is_used, IsTable, table_store}
use in2140_introduksjon_til.Oblig.Examples.{working-Healthy, bat, two_used, two_used-IsTable}
use in2140_introduksjon_til.Oblig.Inode.{
  id, children, with_children, snoc, strcmp_eq, blocksize, blocks_needed, find_child,
  find_inode_by_name, Inode, inode, nil, cons,
}
use in2140_introduksjon_til.Oblig.Directory.{
  add_inode_to_parent, reserve, create_file_copied, create_dir_copied, create_file, create_dir,
  delete_file, delete_dir, Memory, State,
}
use in2140_introduksjon_til.Oblig.Directory.Reserve.{TooFew, Taken}
use in2140_introduksjon_til.Oblig.Directory.Create.{
  blocks_needed_bounds, file_inode, state, handed_out, create_file_cases,
}
use in2140_introduksjon_til.Oblig.Directory.Unique.{IsUnique}
use in2140_introduksjon_til.Oblig.Directory.Operations.{
  AfterRun, operations-IsUnique, create-own_name,
}
use in2140_introduksjon_til.Oblig.Table.{
  save_ids, save_blocks, save_inode, save_inodes, always, input, read_int, read_bytes, read_blocks,
  read_children, read_directory, create_inode, load_inodes, Input, out_of_fuel, null_child, loaded,
}
use in2140_introduksjon_til.Oblig.Table.Format.{size, IsSaved, is_file, is_dir, no_more, more}
use in2140_introduksjon_til.Oblig.Table.RoundTrip.{load_inodes-save_inodes}
use in2140_introduksjon_til.Oblig.Table.Ids.{occurs, load-create_dir-occurs}

abbrev table : BlockStore
table = table_store working-Healthy

abbrev enough : Memory
enough = record { node = true; name_copy = true; block_array = true; child_array = true }

abbrev etc : Bytes
etc = b'e' ∷ b't' ∷ b'c' ∷ []

abbrev hosts : Bytes
hosts = b'h' ∷ b'o' ∷ b's' ∷ b't' ∷ b's' ∷ []

abbrev kernel : Bytes
kernel = b'k' ∷ []

-- /etc with one file of 5000 bytes in the blocks 0 and 1
abbrev etc_dir : Inode
etc_dir = inode 1 etc 1 (cons (inode 2 hosts 0 nil 5000 (0 ∷ 1 ∷ [])) nil) 0 []

abbrev bat_disk : Disk
bat_disk = disk bat two_used

test_blocks_needed_bounds :
    (5000 ≤ blocks_needed 5000 * blocksize) × (blocks_needed 5000 * blocksize < 5000 + blocksize)
test_blocks_needed_bounds = blocks_needed_bounds 5000

create_file_cases_example :
    ((bs : List ℕ) × (s' : Disk) × (create_file table enough
          (some etc_dir)
          kernel
          9000
          (state table 3 bat_disk)
        ≡ ok (handed_out table enough etc_dir (file_inode table kernel 9000 bs 3) 3 s'))
      × IsTable s'
      × (length bs ≡ blocks_needed 9000)
      × Taken table bs bat_disk s')
    ⊎ ((s' : Disk) × (create_file table enough (some etc_dir) kernel 9000 (state table 3 bat_disk)
          ≡ ok (none, some etc_dir, state table 3 s'))
        × IsTable s'
        × ((c : ℕ) → is_used s' c ≡ is_used bat_disk c)
        × TooFew table (blocks_needed 9000) bat_disk)
unfolding find_inode_by_name find_child strcmp_eq
create_file_cases_example =
    create_file_cases table enough etc_dir kernel 9000 3 bat_disk two_used-IsTable refl refl refl
      refl

etc_dir-IsUnique : IsUnique etc_dir
unfolding find_inode_by_name find_child strcmp_eq
etc_dir-IsUnique = record { apart = (refl, tt); other = refl }

operations-IsUnique_example :
    AfterRun (create_dir table enough (some etc_dir) kernel (state table 3 bat_disk))
    × AfterRun (create_file table enough (some etc_dir) kernel 9000 (state table 3 bat_disk))
    × AfterRun (delete_dir false (some etc_dir) (some etc_dir) bat_disk)
    × AfterRun (delete_file table false (some etc_dir) (some etc_dir) bat_disk)
operations-IsUnique_example =
    operations-IsUnique table enough false etc_dir etc_dir kernel 9000 (state table 3 bat_disk)
      etc_dir-IsUnique (λ e. cc e)

test_create-own_name :
    (create_file_copied table enough (some etc_dir) etc 9000 (state table 3 bat_disk)
      ≡ ok (none, some etc_dir, state table 3 bat_disk))
    × (create_dir_copied table enough (some etc_dir) etc (state table 3 bat_disk)
        ≡ (none, some etc_dir, state table 3 bat_disk))
test_create-own_name = create-own_name table enough etc_dir 9000 (state table 3 bat_disk)

etc_dir-IsSaved : IsSaved etc_dir
etc_dir-IsSaved =
    is_dir (omega arith) (omega arith) (omega arith) (omega arith) (omega arith) refl (omega arith)
      (more
        (is_file (omega arith) (omega arith) (omega arith) refl (omega arith) (omega arith)
          (omega arith))
        no_more)

load_inodes-save_inodes_example :
    load_inodes always (save_inodes true (some etc_dir) none) 0
    ≡ some (loaded etc_dir (input [] (0 + size etc_dir)))
load_inodes-save_inodes_example = load_inodes-save_inodes etc_dir none 0 etc_dir-IsSaved

-- The tree has two inodes, and one of them has the id 2.
test_load-create_dir-occurs :
    (end : Input) × (child : Inode) × (parent : Inode) × (st : State table) × (load_inodes always
        (save_inodes true (some etc_dir) none)
        0
      ≡ some (loaded etc_dir end))
    × (create_dir table enough
          (some etc_dir)
          kernel
          (record { num_inode_ids = end.num_inode_ids; store = bat_disk })
        ≡ ok (some child, some parent, st))
    × (occurs (id child) etc_dir ≡ true)
unfolding occurs size find_inode_by_name find_child strcmp_eq
test_load-create_dir-occurs =
    load-create_dir-occurs table etc_dir kernel enough bat_disk none etc_dir-IsSaved refl refl refl
      refl refl

-- The file takes the blocks 2, 3 and 4.
delete_file-create_file_example :
    (s'' : Disk) × (delete_file table true
        (some (
          with_children etc_dir
            (snoc (children etc_dir) (file_inode table kernel 9000 (2 ∷ 3 ∷ 4 ∷ []) 3))))
        (some (file_inode table kernel 9000 (2 ∷ 3 ∷ 4 ∷ []) 3))
        (disk bat (used_then_free 5 45))
      ≡ ok (pos 0, some etc_dir, s''))
    × ((c : ℕ) → is_used s'' c ≡ is_used bat_disk c)
unfolding create_file_copied reserve allocate_block read_table write_table find_unused blocks_needed
    find_inode_by_name find_child strcmp_eq
delete_file-create_file_example =
    delete_file-create_file table enough etc_dir (file_inode table kernel 9000 (2 ∷ 3 ∷ 4 ∷ []) 3)
      (with_children etc_dir
        (snoc (children etc_dir) (file_inode table kernel 9000 (2 ∷ 3 ∷ 4 ∷ []) 3)))
      kernel 9000 3 bat_disk (state table 4 (disk bat (used_then_free 5 45))) two_used-IsTable
      (λ e. cc e) refl refl

-- A file that breaks off behind the length of a name.
test_load_inodes_ends :
    load_inodes always (some (1 ∷ 0 ∷ 0 ∷ 0 ∷ 4 ∷ 0 ∷ 0 ∷ 0 ∷ [])) 0 ≢ some out_of_fuel
test_load_inodes_ends = load_inodes_ends always (1 ∷ 0 ∷ 0 ∷ 0 ∷ 4 ∷ 0 ∷ 0 ∷ 0 ∷ []) 0

-- The inode, its name and the two arrays of the directory are there, the inode of the child is not.
test_child_without_memory :
    load_inodes (λ k. not (k == 4)) (save_inodes true (some etc_dir) none) 0 ≡ some null_child
unfolding load_inodes save_inodes create_inode read_directory read_children read_blocks read_int
    read_bytes save_inode save_ids save_blocks le_bytes read_le from_le
test_child_without_memory = refl

-- Without `strdup` an inode without a name is handed out.
test_no_copy :
    create_file table
      (record { node = true; name_copy = false; block_array = true; child_array = true })
      (some etc_dir)
      kernel
      0
      (state table 3 bat_disk)
    ≡ unchecked_null
unfolding create_file_copied reserve blocks_needed find_inode_by_name find_child strcmp_eq
    add_inode_to_parent
test_no_copy = refl
