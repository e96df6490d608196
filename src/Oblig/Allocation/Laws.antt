-- ===== src/Oblig/Allocation/Laws.antt =====
-- oblig/allocation.c with a disk that works: what each function does to the table.
use in2140_introduksjon_til.Common.Run.{failure, ℤ, pos, negsuc, ok}
use in2140_introduksjon_til.Common.{
  ltb, ◌==◌, lt→ltb, le→ltb, ==_ne, Bool-cases, Option-cases, length, get_elem?, set, length-set,
  get_elem?-set_self, set_restore, get_elem?_lt, take_all, ℕ, zero, suc, ◌+◌, ◌≤◌, ◌<◌, min, ◌≡◌,
  refl, sym, ap, ◌∙◌, ◌≢◌, ◌⊎◌, inl, inr, true, false, Option, none, some, [], ◌∷◌, arith,
}
use in2140_introduksjon_til.Common.Words.{Bytes}
use in2140_introduksjon_til.Oblig.Allocation.{
  num_blocks, find_unused, read_table, write_table, allocate_block, free_block, free_in, Disk,
  Outcomes,
}

-- Nothing that the library or the system does in a call fails.
pub record Healthy (o : Outcomes) : Type 0 where
  pub memory : o.memory ≡ true
  pub readable : o.readable ≡ true
  pub writable : o.writable ≡ true
  pub room : num_blocks ≤ o.room
  pub removable : o.removable ≡ true

-- The disk named `f` whose file holds the table `t`.
abbrev pub disk : Bytes → Bytes → Disk
disk f t = record { file_name = some f; file = some t }

abbrev pub IsFirstUnused : Bytes → ℕ → Type 0
IsFirstUnused t i = (get_elem? t i ≡ some 0) × ((j : ℕ) → j < i → get_elem? t j ≢ some 0)

pub find_unused_cases :
    (n : ℕ) (t : Bytes)
    → ((k : ℕ) × (find_unused n t ≡ some (n + k)) × IsFirstUnused t k)
      ⊎ ((find_unused n t ≡ none) × ((j : ℕ) → get_elem? t j ≢ some 0))
unfolding find_unused
find_unused_cases n [] = inr (refl, λ j e. cc)
find_unused_cases n (b ∷ t) = elim (Bool-cases (b == 0)) [
  | inl e ↦ inl (0, rw e (ground arith), (ground arith, λ j h. absurd (omega arith)))
  | inr e ↦ elim (find_unused_cases (n + 1) t) [
    | inl (k, found, (unused, first)) ↦
        inl (suc k, rw e (found ∙ ap some (omega arith)), (unused, below e first))
    | inr (missing, full) ↦ inr (rw e missing, all e full)
  ]
]
  where
    below :
        (b == 0) ≡ false
        → {k : ℕ} → ((j : ℕ) → j < k → get_elem? t j ≢ some 0)
        → (j : ℕ) → j < suc k
        → get_elem? (b ∷ t) j ≢ some 0
    below e first zero h p = ground arith
    below e first (suc j) h p = first j (omega arith) p

    all :
        (b == 0) ≡ false
        → ((j : ℕ) → get_elem? t j ≢ some 0)
        → (j : ℕ) → get_elem? (b ∷ t) j ≢ some 0
    all e full zero p = ground arith
    all e full (suc j) p = full j p

module _ {o : Outcomes} (h : Healthy o) (f t : Bytes) (size : length t ≡ num_blocks) where
  pub read_table-disk : read_table o (disk f t) ≡ ok (some t)
  unfolding read_table
  read_table-disk = rw (
    h.memory,
    h.readable,
    le→ltb (length t) num_blocks (omega arith),
    take_all num_blocks t (omega arith),
  )

  -- Whatever the file held, it holds `t` afterwards.
  pub write_table-disk :
      (d : Option Bytes)
      → write_table o t (record { file_name = some f; file = d }) ≡ ok (pos 0, disk f t)
  unfolding write_table
  write_table-disk d =
      let whole : min o.room num_blocks ≡ num_blocks = omega (arith, h.room) in
      rw (h.writable, whole, take_all num_blocks t (omega arith))

module _ {o : Outcomes} (h : Healthy o) (f t : Bytes) (size : length t ≡ num_blocks) where
  write_table-set :
      (i v : ℕ) → write_table o (set t i v) (disk f t) ≡ ok (pos 0, disk f (set t i v))
  write_table-set i v = write_table-disk h f (set t i v) (length-set t i v ∙ size) (some t)

  pub allocate_block_first :
      (i : ℕ)
      → find_unused 0 t ≡ some i
      → allocate_block o (disk f t) ≡ ok (pos i, disk f (set t i 1))
  unfolding allocate_block
  allocate_block_first i found = rw (read_table-disk h f t size, found, write_table-set i 1)

  pub allocate_block_full :
      find_unused 0 t ≡ none → allocate_block o (disk f t) ≡ ok (failure, disk f t)
  unfolding allocate_block
  allocate_block_full full = rw (read_table-disk h f t size, full)

  pub free_block_used :
      (i : ℕ)
      → get_elem? t i ≡ some 1
      → free_block o (pos i) (disk f t) ≡ ok (pos 0, disk f (set t i 0))
  unfolding free_block
  free_block_used i used = rw (
    lt→ltb i num_blocks (omega (arith, get_elem?_lt t i used)),
    read_table-disk h f t size,
    free_in,
    used,
    write_table-set i 0,
  )

-- On a healthy disk `allocate_block` takes the lowest block whose byte is 0, sets that byte to 1
-- and changes no other; if every byte is taken it returns -1 and the disk stays as it is.
pub allocate_block_lem :
    {o : Outcomes} (f t : Bytes)
    → Healthy o
    → length t ≡ num_blocks
    → ((i : ℕ) × (allocate_block o (disk f t) ≡ ok (pos i, disk f (set t i 1)))
        × (get_elem? t i ≡ some 0)
        × ((j : ℕ) → j < i → get_elem? t j ≢ some 0))
      ⊎ ((allocate_block o (disk f t) ≡ ok (failure, disk f t))
          × ((j : ℕ) → get_elem? t j ≢ some 0))
allocate_block_lem f t h size = elim (find_unused_cases 0 t) [
  | inl (i, found, (unused, first)) ↦
      inl (i, allocate_block_first h f t size i (found ∙ ap some (omega arith)), unused, first)
  | inr (missing, full) ↦ inr (allocate_block_full h f t size missing, full)
]

-- Freeing the block that `allocate_block` returned puts the table back as it was, byte for byte.
pub free_block-allocate_block :
    {o : Outcomes} (f t : Bytes) (i : ℕ) (d : Disk)
    → Healthy o
    → length t ≡ num_blocks
    → allocate_block o (disk f t) ≡ ok (pos i, d)
    → free_block o (pos i) d ≡ ok (pos 0, disk f t)
free_block-allocate_block {o} f t i d h size e = elim (allocate_block_lem f t h size) [
  | inl (k, done, unused, first) ↦
      let same = sym done ∙ e in
      let block : k ≡ i = cc same in
      let table : disk f (set t k 1) ≡ d = cc same in
      let used : get_elem? (set t k 1) k ≡ some 1 =
        get_elem?-set_self t k 1 (get_elem?_lt t k unused) in
      let freed : free_block o (pos k) (disk f (set t k 1)) ≡ ok (pos 0, disk f t) =
        free_block_used h f (set t k 1) (length-set t k 1 ∙ size) k used
        ∙ ap (λ u. ok (pos 0, disk f u)) (set_restore t k 1 0 unused) in
      rw (← block, ← table) freed
  | inr (done, full) ↦ cc
]

free_in_unused :
    (o : Outcomes) (f t : Bytes) (i : ℕ)
    → get_elem? t i ≢ some 1
    → free_in o i (disk f t) (some t) ≡ ok (failure, disk f t)
unfolding free_in
free_in_unused o f t i un = elim (Option-cases (get_elem? t i)) [
  | inl e ↦ rw (e, free_in)
  | inr (b, e) ↦ rw (e, free_in, ==_ne b 1 (λ q. un (e ∙ ap some q)))
]

-- `free_block` returns -1 and leaves the disk alone for every number that is not a block in use:
-- negative, past the table, or with a byte other than 1.
pub free_block_unused :
    {o : Outcomes} (f t : Bytes) (block : ℤ)
    → Healthy o
    → length t ≡ num_blocks
    → ((i : ℕ) → block ≡ pos i → get_elem? t i ≢ some 1)
    → free_block o block (disk f t) ≡ ok (failure, disk f t)
unfolding free_block
free_block_unused f t (negsuc n) h size un = refl
free_block_unused f t (pos i) h size un = elim (Bool-cases (ltb i num_blocks)) [
  | inr out ↦ rw out
  | inl within ↦ rw (within, read_table-disk h f t size) (free_in_unused _ f t i (un i refl))
]
