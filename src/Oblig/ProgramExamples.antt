-- ===== src/Oblig/ProgramExamples.antt =====
-- The theorems about the programs of oblig/ at concrete inputs, and runs of them.
use in2140_introduksjon_til.Oblig.System.{
  child_place, find_place, placed, ◌>>=◌, ◌>>◌, pure, target, seen, stored, make_dir, make_file,
  find, remove_file, remove_dir, save, Machine, Fs, to, Outcome, ended, broken, returned,
}
use in2140_introduksjon_til.Oblig.Directory.{
  add_inode_to_parent, take_child, free_blocks, reserve, create_file_copied, create_dir_copied,
  delete_file_shrunk, delete_dir_shrunk,
}
use in2140_introduksjon_til.Oblig.Allocation.{
  set_block_allocation_table_name, find_unused, read_table, write_table, format_disk,
  allocate_block, free_block,
}
use in2140_introduksjon_til.Oblig.Inode.{
  children, strcmp_eq, blocks_needed, find_child, find_inode_by_name, Inode, inode, Inodes, nil,
  cons,
}
use in2140_introduksjon_til.Common.Words.{codes, le_bytes}
use in2140_introduksjon_til.Oblig.Tree.{
  child_at, set_child, inode_at, put_inode, times, held, held_in,
}
use in2140_introduksjon_til.Oblig.Programs.Delete.{
  follow, try_delete_dir, try_delete_file, delete_found, delete_log_dir, delete_log, clean, del_fs,
}
use in2140_introduksjon_til.Oblig.Directory.Held.{use_count}
use in2140_introduksjon_til.Oblig.Programs.Delete.Ends.{Ended}
use in2140_introduksjon_til.Oblig.System.Consistent.{held_all, Consistent}
use in2140_introduksjon_til.Oblig.Programs.Delete.Sections.{clean_log, with_loaded, del_fs-Ended}
use in2140_introduksjon_til.Oblig.System.Builds.{Finishes}
use in2140_introduksjon_til.Oblig.Blocks.{BlockStore}
use in2140_introduksjon_til.Oblig.Allocation.Store.{is_used, table_store}
use in2140_introduksjon_til.Oblig.Examples.{working-Healthy, bat, two_used, two_used-IsTable}
use in2140_introduksjon_til.Oblig.Allocation.Laws.{disk}
use in2140_introduksjon_til.Oblig.Table.{save_inodes, always}
use in2140_introduksjon_til.Oblig.Table.Format.{IsSaved, is_file, is_dir, no_more, more}
use in2140_introduksjon_til.Oblig.Programs.Load.{wanted, reaches}
use in2140_introduksjon_til.Oblig.Programs.Create.{
  create_fs, create_fs_1, create_fs_2, create_fs_3, created_with, create_fs-Finishes,
}
use in2140_introduksjon_til.Common.{
  ◌==◌, if◌then◌else◌, get_elem?, ℕ, zero, suc, ◌≤◌, ◌≡◌, refl, ◌≢◌, Bool, true, false, none, some,
  List, [], ◌∷◌, map, arith,
}

abbrev table : BlockStore
table = table_store working-Healthy

-- No allocation of memory fails.
abbrev machine : Machine
machine = record {
  opens = true;
  memory = λ n. record { node = true; name_copy = true; block_array = true; child_array = true };
}

-- The third call has no memory for the inode.
abbrev short_machine : Machine
short_machine = record {
  opens = true;
  memory = λ n. record {
    node = if n == 2 then false else true;
    name_copy = true;
    block_array = true;
    child_array = true;
  };
}

create_fs-Finishes_example :
    Finishes (created_with working-Healthy (create_fs short_machine) bat none none)
    × Finishes (created_with working-Healthy (create_fs_1 short_machine) bat none none)
    × Finishes (created_with working-Healthy (create_fs_2 short_machine) bat none none)
    × Finishes (created_with working-Healthy (create_fs_3 short_machine) bat none none)
create_fs-Finishes_example =
    create_fs-Finishes working-Healthy short_machine bat none none (λ k. refl)

abbrev message : Inode
message = inode 3 (codes "message") 0 nil 5000 (0 ∷ 1 ∷ [])

-- A disk with a directory `/var/log` that has these children.
abbrev var_log : Inodes → Inode
var_log children =
    inode 0 (codes "/") 1
      (cons (inode 1 (codes "var") 1 (cons (inode 2 (codes "log") 1 children 0 []) nil) 0 []) nil) 0
      []

abbrev full : Inode
full = var_log (cons message nil)

full-IsSaved : IsSaved full
full-IsSaved =
    is_dir (omega arith) (omega arith) (omega arith) (omega arith) (omega arith) refl (omega arith)
      (more
        (is_dir (omega arith) (omega arith) (omega arith) (omega arith) (omega arith) refl
          (omega arith)
          (more
            (is_dir (omega arith) (omega arith) (omega arith) (omega arith) (omega arith) refl
              (omega arith)
              (more
                (is_file (omega arith) (omega arith) (omega arith) refl (omega arith) (omega arith)
                  (omega arith))
                no_more))
            no_more))
        no_more)

abbrev with_file : Inode → Fs table
with_file t = record {
  trees = [];
  state = record { num_inode_ids = 0; store = disk bat two_used };
  mft = save_inodes true (some t) none;
  calls = 0;
}

-- Of the paths that load_fs.c looks for, the disk has the second.
test_wanted :
    map (reaches full) wanted
    ≡ false ∷ true ∷ false ∷ false ∷ false ∷ false ∷ false ∷ false ∷ false ∷ []
unfolding reaches find_inode_by_name find_child strcmp_eq
test_wanted = refl

two_used-all : (b : ℕ) → held_all b (full ∷ []) ≤ use_count table (disk bat two_used) b
unfolding held_all held held_in times is_used
two_used-all zero = omega arith
two_used-all (suc zero) = omega arith
two_used-all (suc (suc b)) = ground arith

full-Consistent : Consistent (with_loaded (with_file full) full)
full-Consistent = record { sound = two_used-IsTable; owned = two_used-all }

returns_not_broken : {A : Type 0} (o : Outcome A) (a : A) → o ≡ returned a → o ≢ broken
returns_not_broken o a e f = cc

test_del_fs-Ended : Ended {B = table} ⊥ 0 (del_fs always machine (with_file full))
unfolding clean_log delete_found delete_log delete_log_dir try_delete_file try_delete_dir follow
    remove_file remove_dir delete_file_shrunk delete_dir_shrunk find ◌>>◌ inode_at find_place
    strcmp_eq child_place pure child_at put_inode set_child take_child free_blocks free_block
    read_table write_table
test_del_fs-Ended =
    del_fs-Ended machine (with_file full) full none full-IsSaved refl full-Consistent
      (returns_not_broken _ _ refl)

-- If `/var/log` is empty, the first call releases it, and the program goes on with it.
test_empty_log :
    clean machine (to 0 []) (with_loaded (with_file (var_log nil)) (var_log nil)) ≡ broken
unfolding clean delete_found delete_log delete_log_dir try_delete_file try_delete_dir follow
    remove_file remove_dir delete_file_shrunk delete_dir_shrunk find ◌>>◌ inode_at find_place
    strcmp_eq child_place pure child_at take_child
test_empty_log = refl

-- Which of the paths that load_fs.c looks for are on a disk that a program made.
abbrev made_paths : Outcome (Unit {0} × Fs table) → List Bool
made_paths ended = []
made_paths broken = []
made_paths (returned (_, fs)) = elim (get_elem? fs.trees 0) [
  | none ↦ []
  | some t ↦ map (reaches t) wanted
]

test_create_fs_2 :
    made_paths (created_with working-Healthy (create_fs_2 machine) bat none none)
    ≡ true ∷ true ∷ true ∷ true ∷ false ∷ false ∷ false ∷ false ∷ false ∷ []
unfolding created_with create_fs_2 set_block_allocation_table_name format_disk write_table ◌>>=◌
    make_dir create_dir_copied inode_at find_inode_by_name strcmp_eq find_child put_inode child_at
    set_child ◌>>◌ make_file create_file_copied reserve le_bytes is_used allocate_block find_unused
    free_block read_table add_inode_to_parent free_blocks blocks_needed placed save seen stored
    target save_inodes reaches
test_create_fs_2 = refl
