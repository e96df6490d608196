-- ===== src/Oblig/Blocks.antt =====
-- The part of oblig/allocation.h that oblig/inode.c relies on: a store of blocks, the calls
-- `allocate_block` and `free_block`, and what they promise while the disk works.
use in2140_introduksjon_til.Common.Run.{failure, ℤ, pos, Run, ok}
use in2140_introduksjon_til.Common.{◌==◌, if◌then◌else◌, ℕ, ◌<◌, ◌≡◌, ◌⊎◌, Bool, true, false}

pub record BlockStore : Type 1 where
  pub Store : Type 0
  pub IsSound : Store → Type 0
  -- how many blocks there are, and whether one is in use
  pub capacity : ℕ
  pub used : Store → ℕ → Bool
  pub allocate : Store → Run (ℤ × Store)
  pub free : ℤ → Store → Run (ℤ × Store)
  -- An allocation takes an unused block and no other, or all blocks are in use and it fails and
  -- changes nothing.
  pub allocate_cases :
      (s : Store)
      → IsSound s
      → ((b : ℕ) × (s' : Store) × (allocate s ≡ ok (pos b, s'))
          × IsSound s'
          × (used s b ≡ false)
          × ((c : ℕ) → used s' c ≡ (if c == b then true else used s c)))
        ⊎ ((allocate s ≡ ok (failure, s)) × ((b : ℕ) → b < capacity → used s b ≡ true))
  -- Freeing a block in use frees it and no other.
  pub free_used :
      (s : Store) (b : ℕ)
      → IsSound s
      → used s b ≡ true
      → (s' : Store) × (free (pos b) s ≡ ok (pos 0, s'))
        × IsSound s'
        × ((c : ℕ) → used s' c ≡ (if c == b then false else used s c))
