-- ===== src/Oblig/Allocation/Format.antt =====
-- oblig/allocation.c: `format_disk`, the capacity of a formatted disk, and a disk that cannot be
-- written.
use in2140_introduksjon_til.Common.{
  le→ltb, length, get_elem?, set, replicate, length-replicate, take_all, ℕ, zero, suc, ◌+◌, ◌≡◌,
  refl, ap, ap₂, ◌∙◌, inl, inr, true, false, Option, none, some, List, [], ◌∷◌, ◌++◌, arith,
}
use in2140_introduksjon_til.Common.Run.{failure, ◌>>=◌, ℤ, pos, Run, ok}
use in2140_introduksjon_til.Common.Words.{Bytes}
use in2140_introduksjon_til.Oblig.Allocation.{
  num_blocks, find_unused, read_table, write_table, format_disk, allocate_block, Disk, Outcomes,
}
use in2140_introduksjon_til.Oblig.Allocation.Laws.{
  disk, find_unused_cases, write_table-disk, allocate_block_first, allocate_block_full, Healthy,
}

-- After `format_disk` on a healthy system the file is there and all its bytes are 0, whatever it
-- held before, also if there was none.
pub format_disk_lem :
    {o : Outcomes} (f : Bytes) (before : Option Bytes)
    → Healthy o
    → format_disk o (record { file_name = some f; file = before })
      ≡ ok (pos 0, disk f (replicate num_blocks 0))
unfolding format_disk
format_disk_lem f none h = rw (write_table-disk h f (replicate num_blocks 0) refl none, h.memory)
format_disk_lem f (some old) h =
    rw (write_table-disk h f (replicate num_blocks 0) refl none, h.removable, h.memory)

-- The table of `n` used blocks in front of `m` unused ones.
abbrev pub used_then_free : ℕ → ℕ → Bytes
used_then_free n m = replicate n 1 ++ replicate m 0

find_unused-used_then_free : (s n m : ℕ) → find_unused s (used_then_free n (suc m)) ≡ some (s + n)
unfolding find_unused
find_unused-used_then_free s zero m = ap some (omega arith)
find_unused-used_then_free s (suc n) m =
    find_unused-used_then_free (s + 1) n m ∙ ap some (omega arith)

find_unused_full : (s n : ℕ) → find_unused s (used_then_free n 0) ≡ none
unfolding find_unused
find_unused_full s zero = refl
find_unused_full s (suc n) = find_unused_full (s + 1) n

set-used_then_free : (n m : ℕ) → set (used_then_free n (suc m)) n 1 ≡ used_then_free (suc n) m
set-used_then_free zero m = refl
set-used_then_free (suc n) m = ap (λ t. 1 ∷ t) (set-used_then_free n m)

length-used_then_free : (n m : ℕ) → length (used_then_free n m) ≡ n + m
length-used_then_free zero m = omega (arith, length-replicate {A = ℕ} m 0)
length-used_then_free (suc n) m = omega (arith, length-used_then_free n m)

-- The results of `n` calls of `allocate_block`, and the disk after them.
unfoldable pub allocate_times : Outcomes → ℕ → Disk → Run (List ℤ × Disk)
allocate_times o zero d = ok ([], d)
allocate_times o (suc n) d = do
  (r, d') ← allocate_block o d
  (rs, d'') ← allocate_times o n d'
  ok (r ∷ rs, d'')

abbrev pub blocks_from : ℕ → ℕ → List ℤ
blocks_from s zero = []
blocks_from s (suc n) = pos s ∷ blocks_from (s + 1) n

allocate_times_from :
    {o : Outcomes} (f : Bytes) (s n m k : ℕ)
    → Healthy o
    → k ≡ n + m
    → s + k ≡ num_blocks
    → allocate_times o n (disk f (used_then_free s k))
      ≡ ok (blocks_from s n, disk f (used_then_free (s + n) m))
unfolding allocate_times
allocate_times_from f s zero m k h e size =
    ap₂ (λ a b. ok ([], disk f (used_then_free a b))) (omega arith) (omega arith)
allocate_times_from f s (suc n) m zero h e size = absurd (omega arith)
allocate_times_from {o} f s (suc n) m (suc k) h e size =
    let found : find_unused 0 (used_then_free s (suc k)) ≡ some s =
      find_unused-used_then_free 0 s k ∙ ap some (omega arith) in
    let whole = length-used_then_free s (suc k) ∙ size in
    rw
      (
        allocate_block_first h f (used_then_free s (suc k)) whole s found,
        set-used_then_free s k,
        moved,
        allocate_times_from f (s + 1) n m k h (omega arith) (omega arith),
      )
      (ap (λ a. ok (pos s ∷ blocks_from (s + 1) n, disk f (used_then_free a m))) (omega arith))
  where
    moved : used_then_free (suc s) k ≡ used_then_free (s + 1) k
    moved = let e : suc s ≡ s + 1 = omega arith in ap (λ a. used_then_free a k) e

-- On a healthy, freshly formatted disk `n` allocations, `n` at most 50, return the blocks 0, 1, …,
-- n - 1 in this order, and these are then exactly the blocks in use.
pub allocate_times-format_disk :
    {o : Outcomes} (f : Bytes) (n m : ℕ) (before : Option Bytes)
    → Healthy o
    → n + m ≡ num_blocks
    → (format_disk o (record { file_name = some f; file = before }) >>= λ (_, d).
        allocate_times o n d)
      ≡ ok (blocks_from 0 n, disk f (used_then_free n m))
allocate_times-format_disk f n m before h e =
    rw (format_disk_lem f before h, allocate_times_from f 0 n m 50 h (omega arith) (omega arith))
      (ap (λ a. ok (blocks_from 0 n, disk f (used_then_free a m))) (omega arith))

-- The 51st allocation on such a disk fails and changes nothing.
pub allocate_block-used_all :
    {o : Outcomes} (f : Bytes)
    → Healthy o
    → allocate_block o (disk f (used_then_free num_blocks 0))
      ≡ ok (failure, disk f (used_then_free num_blocks 0))
allocate_block-used_all f h =
    allocate_block_full h f (used_then_free num_blocks 0) refl (find_unused_full 0 num_blocks)

-- If the table can be read but not written, `allocate_block` still returns a block of a table with
-- an unused one, although no byte of the table changes: the block stays unused, and the next call
-- returns it again.
pub allocate_block_unrecorded :
    (o : Outcomes) (f t : Bytes) (j : ℕ)
    → o.memory ≡ true
    → o.readable ≡ true
    → o.writable ≡ false
    → length t ≡ num_blocks
    → get_elem? t j ≡ some 0
    → (i : ℕ) × (get_elem? t i ≡ some 0)
      × (allocate_times o 2 (disk f t) ≡ ok (pos i ∷ pos i ∷ [], disk f t))
unfolding allocate_times
allocate_block_unrecorded o f t j memory readable writable size unused =
    elim (find_unused_cases 0 t) [
      | inr (missing, full) ↦ absurd (full j unused)
      | inl (i, found, (free, first)) ↦
          let again = once i (found ∙ ap some (omega arith)) in (i, free, rw (again, again))
    ]
  where
    once : (i : ℕ) → find_unused 0 t ≡ some i → allocate_block o (disk f t) ≡ ok (pos i, disk f t)
    once i found =
        unfold allocate_block read_table write_table in
        rw (
          memory,
          readable,
          le→ltb (length t) num_blocks (omega arith),
          take_all num_blocks t (omega arith),
          found,
          writable,
        )
