-- ===== src/Oblig/Allocation.antt =====
-- oblig/allocation.c: the block allocation table, a file of one byte for each block. What the C
-- library and the operating system decide in a call (`malloc`, `fopen`, `fwrite`, `unlink`) is an
-- argument of type `Outcomes`.
pub mod Format
pub mod Laws
pub mod Store
use in2140_introduksjon_til.Common.{
  ltb, ◌==◌, if◌then◌else◌, length, get_elem?, set, take, replicate, ℕ, ◌+◌, min, Bool, false, not,
  Option, none, some, [], ◌∷◌,
}
use in2140_introduksjon_til.Common.Run.{failure, ◌>>=◌, ℤ, pos, negsuc, Run, exited, ok}
use in2140_introduksjon_til.Common.Words.{Bytes}

abbrev pub num_blocks : ℕ
num_blocks = 50

-- The static `file_name`, and the contents of that file (`none`: there is no such file).
pub record Disk : Type 0 where
  pub file_name : Option Bytes
  pub file : Option Bytes

pub record Outcomes : Type 0 where
  -- `malloc` and `calloc` return memory
  pub memory : Bool
  -- `fopen( …, "r" )` opens a file that exists
  pub readable : Bool
  -- `fopen( …, "w" )` opens the file
  pub writable : Bool
  -- the bytes that `fwrite` can transfer
  pub room : ℕ
  -- `unlink` removes a file that exists
  pub removable : Bool

-- `set_block_allocation_table_name`
unfoldable pub set_block_allocation_table_name : Bytes → Disk → Run Disk
set_block_allocation_table_name str d = elim d.file_name [
  | some _ ↦ exited
  | none ↦ ok (record d { file_name = some str })
]

-- The `for` loop of `allocate_block`: the first `i` from `n` on with `table[i] == 0`.
unfoldable pub find_unused : ℕ → Bytes → Option ℕ
find_unused n [] = none
find_unused n (b ∷ bs) = if b == 0 then some n else find_unused (n + 1) bs

module _ (o : Outcomes) where
  -- `fread` returns NUM_BLOCKS only if the file holds as many bytes.
  load_blocks : Option Bytes → Option Bytes
  load_blocks none = none
  load_blocks (some bytes) =
      if o.readable
      then (if ltb (length bytes) num_blocks then none else some (take num_blocks bytes))
      else none

  -- `read_table`; `none` is NULL
  unfoldable pub read_table : Disk → Run (Option Bytes)
  unfolding load_blocks
  read_table d = elim d.file_name [
    | none ↦ exited
    | some _ ↦ ok (if o.memory then load_blocks d.file else none)
  ]

  -- `write_table`: opening the file for writing empties it.
  unfoldable pub write_table : Bytes → Disk → Run (ℤ × Disk)
  write_table table d = elim d.file_name [
    | none ↦ exited
    | some _ ↦
        if o.writable
        then ok (
          (if min o.room num_blocks == num_blocks then pos 0 else failure),
          record d { file = some (take (min o.room num_blocks) table) },
        )
        else ok (failure, d)
  ]

  -- `unlink` fails with ENOENT if there is no file; that counts as success.
  unlink_fails : Option Bytes → Bool
  unlink_fails none = false
  unlink_fails (some _) = not o.removable

  unfoldable pub format_disk : Disk → Run (ℤ × Disk)
  unfolding unlink_fails
  format_disk d = elim d.file_name [
    | none ↦ exited
    | some _ ↦
        let rewritten = write_table (replicate num_blocks 0) (record d { file = none }) in
        if unlink_fails d.file
        then ok (failure, d)
        else if o.memory
        then rewritten
        else ok (failure, record d { file = none })
  ]

  -- The result of `write_table` is not looked at.
  claim_block : Bytes → Disk → Option ℕ → Run (ℤ × Disk)
  claim_block table d none = ok (failure, d)
  claim_block table d (some i) = do (_, d') ← write_table (set table i 1) d; ok (pos i, d')

  allocate_in : Disk → Option Bytes → Run (ℤ × Disk)
  unfolding claim_block
  allocate_in d none = ok (failure, d)
  allocate_in d (some table) = claim_block table d (find_unused 0 table)

  unfoldable pub allocate_block : Disk → Run (ℤ × Disk)
  unfolding allocate_in
  allocate_block d = do table ← read_table d; allocate_in d table

  free_in : ℕ → Disk → Option Bytes → Run (ℤ × Disk)
  free_in block d none = ok (failure, d)
  free_in block d (some table) = elim (get_elem? table block) [
    | none ↦ ok (failure, d)
    | some b ↦
        let written = (do (_, d') ← write_table (set table block 0) d; ok (pos 0, d')) in
        if b == 1 then written else ok (failure, d)
  ]

  -- A block number out of range is refused before the table is read.
  unfoldable pub free_block : ℤ → Disk → Run (ℤ × Disk)
  unfolding free_in
  free_block (negsuc n) d = ok (failure, d)
  free_block (pos block) d =
      let freed = (do table ← read_table d; free_in block d table) in
      if ltb block num_blocks then freed else ok (failure, d)
