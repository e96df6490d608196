-- ===== src/Oblig/Examples.antt =====
-- The theorems about oblig/ at concrete inputs, and runs of the code.
use in2140_introduksjon_til.Common.{
  ◌==◌, if◌then◌else◌, get_elem?, set, replicate, ℕ, zero, suc, ◌≤◌, ◌<◌, ◌≡◌, refl, subst, ◌≢◌,
  ◌⊎◌, true, false, none, some, [], ◌∷◌, arith,
}
use in2140_introduksjon_til.Common.Run.{failure, ◌>>=◌, pos, ok}
use in2140_introduksjon_til.Common.Words.{Bytes}
use in2140_introduksjon_til.Oblig.Allocation.{
  num_blocks, find_unused, format_disk, allocate_block, free_block, Disk, Outcomes,
}
use in2140_introduksjon_til.Oblig.Allocation.Laws.{
  disk, allocate_block_first, allocate_block_lem, free_block-allocate_block, free_block_unused,
  Healthy,
}
use in2140_introduksjon_til.Oblig.Allocation.Format.{
  used_then_free, allocate_times, blocks_from, allocate_times-format_disk,
  allocate_block_unrecorded,
}
use in2140_introduksjon_til.Oblig.Allocation.Store.{
  is_used, IsTable, allocate_block_cases, free_block_cases,
}

abbrev pub working : Outcomes
working = record { memory = true; readable = true; writable = true; room = 50; removable = true }

pub working-Healthy : Healthy working
working-Healthy = record {
  memory = refl;
  readable = refl;
  writable = refl;
  room = omega arith;
  removable = refl;
}

abbrev pub bat : Bytes
bat = b'b' ∷ b'a' ∷ b't' ∷ []

abbrev zeros : Bytes
zeros = replicate num_blocks 0

-- Blocks 0 and 1 in use.
abbrev pub two_used : Bytes
two_used = used_then_free 2 48

abbrev read_only : Outcomes
read_only = record working { writable = false }

used_then_free-bits : (n m b v : ℕ) → get_elem? (used_then_free n m) b ≡ some v → v ≤ 1
used_then_free-bits zero zero b v e = ground arith
used_then_free-bits zero (suc m) zero v e = ground arith
used_then_free-bits zero (suc m) (suc b) v e = used_then_free-bits zero m b v e
used_then_free-bits (suc n) m zero v e = ground arith
used_then_free-bits (suc n) m (suc b) v e = used_then_free-bits n m b v e

pub two_used-IsTable : IsTable (disk bat two_used)
two_used-IsTable = (bat, two_used, refl, refl, used_then_free-bits 2 48)

allocate_block_cases_example :
    ((b : ℕ) × (d' : Disk) × (allocate_block working (disk bat two_used) ≡ ok (pos b, d'))
      × IsTable d'
      × (is_used (disk bat two_used) b ≡ false)
      × ((c : ℕ) → is_used d' c ≡ (if c == b then true else is_used (disk bat two_used) c)))
    ⊎ ((allocate_block working (disk bat two_used) ≡ ok (failure, disk bat two_used))
        × ((b : ℕ) → b < num_blocks → is_used (disk bat two_used) b ≡ true))
allocate_block_cases_example =
    allocate_block_cases working-Healthy (disk bat two_used) two_used-IsTable

test_allocate_block_lem :
    ((i : ℕ) × (allocate_block working (disk bat two_used)
        ≡ ok (pos i, disk bat (set two_used i 1)))
      × (get_elem? two_used i ≡ some 0)
      × ((j : ℕ) → j < i → get_elem? two_used j ≢ some 0))
    ⊎ ((allocate_block working (disk bat two_used) ≡ ok (failure, disk bat two_used))
        × ((j : ℕ) → get_elem? two_used j ≢ some 0))
test_allocate_block_lem = allocate_block_lem bat two_used working-Healthy refl

free_block_cases_example :
    (d' : Disk) × (free_block working (pos 1) (disk bat two_used) ≡ ok (pos 0, d'))
    × IsTable d'
    × ((c : ℕ) → is_used d' c ≡ (if c == 1 then false else is_used (disk bat two_used) c))
free_block_cases_example =
    free_block_cases working-Healthy (disk bat two_used) 1 two_used-IsTable (unfold is_used in refl)

test_free_block-allocate_block :
    free_block working (pos 0) (disk bat (used_then_free 1 49)) ≡ ok (pos 0, disk bat zeros)
unfolding find_unused
test_free_block-allocate_block =
    free_block-allocate_block bat zeros 0 (disk bat (used_then_free 1 49)) working-Healthy refl
      (allocate_block_first working-Healthy bat zeros refl 0 refl)

test_free_block_unused :
    free_block working (pos 7) (disk bat two_used) ≡ ok (failure, disk bat two_used)
test_free_block_unused =
    free_block_unused bat two_used (pos 7) working-Healthy refl (λ i e. seven_unused i e)
  where
    seven_unused : (i : ℕ) → pos 7 ≡ pos i → get_elem? two_used i ≢ some 1
    seven_unused i e =
        let same : 7 ≡ i = cc e in
        subst (λ k. get_elem? two_used k ≢ some 1) same (λ p. ground arith)

allocate_times-format_disk_example :
    (format_disk working (record { file_name = some bat; file = none }) >>= λ (_, d).
    allocate_times working 3 d)
    ≡ ok (blocks_from 0 3, disk bat (used_then_free 3 47))
allocate_times-format_disk_example = allocate_times-format_disk bat 3 47 none working-Healthy refl

test_allocate_block_unrecorded :
    (i : ℕ) × (get_elem? two_used i ≡ some 0)
    × (allocate_times read_only 2 (disk bat two_used) ≡ ok (pos i ∷ pos i ∷ [], disk bat two_used))
test_allocate_block_unrecorded =
    allocate_block_unrecorded read_only bat two_used 9 refl refl refl refl refl
