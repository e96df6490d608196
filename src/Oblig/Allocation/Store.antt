-- ===== src/Oblig/Allocation/Store.antt =====
-- The block allocation table of a working disk is a `BlockStore`: the implementation behind the
-- interface that oblig/inode.c is verified against.
use in2140_introduksjon_til.Oblig.Blocks.{BlockStore}
use in2140_introduksjon_til.Common.Run.{failure, pos, ok}
use in2140_introduksjon_til.Common.{
  ◌==◌, if◌then◌else◌, ==_eq, ==_ne, Bool-cases, Option-cases, length, get_elem?, set, length-set,
  get_elem?-set_self, get_elem?-set_ne, get_elem?_lt, ℕ, zero, suc, ◌≤◌, ◌<◌, ◌≡◌, refl, ap, ◌∙◌,
  ◌≢◌, ◌⊎◌, inl, inr, Bool, true, false, Option, none, some, [], ◌∷◌, arith,
}
use in2140_introduksjon_til.Common.Words.{Bytes}
use in2140_introduksjon_til.Oblig.Allocation.{
  num_blocks, allocate_block, free_block, Disk, Outcomes,
}
use in2140_introduksjon_til.Oblig.Allocation.Laws.{
  disk, free_block_used, allocate_block_lem, Healthy,
}

abbrev in_use : Option ℕ → Bool
in_use none = false
in_use (some b) = if b == 0 then false else true

-- Whether the table on the disk marks a block as used.
unfoldable pub is_used : Disk → ℕ → Bool
is_used d b = elim d.file [ none ↦ false | some t ↦ in_use (get_elem? t b) ]

abbrev IsBit : ℕ → Type 0
IsBit b = b ≤ 1

-- The name is set, and the file is a table of 50 bytes, each 0 or 1.
abbrev pub IsTable : Disk → Type 0
IsTable d =
    (f : Bytes) × (t : Bytes) × (d ≡ disk f t)
    × (length t ≡ num_blocks)
    × ((b v : ℕ) → get_elem? t b ≡ some v → v ≤ 1)

elem_below : (t : Bytes) (b : ℕ) → b < length t → (v : ℕ) × (get_elem? t b ≡ some v)
elem_below [] b h = absurd (omega arith)
elem_below (x ∷ t) zero h = (x, refl)
elem_below (x ∷ t) (suc b) h = elem_below t b (omega arith)

set-bits :
    (t : Bytes) (i w : ℕ)
    → w ≤ 1
    → ((b v : ℕ) → get_elem? t b ≡ some v → v ≤ 1)
    → (b v : ℕ) → get_elem? (set t i w) b ≡ some v
    → v ≤ 1
set-bits [] i w h bits b v e = ground arith
set-bits (x ∷ t) zero w h bits zero v e = ground arith
set-bits (x ∷ t) zero w h bits (suc b) v e = bits (suc b) v e
set-bits (x ∷ t) (suc i) w h bits zero v e = bits zero v e
set-bits (x ∷ t) (suc i) w h bits (suc b) v e = set-bits t i w h (λ c u p. bits (suc c) u p) b v e

is_used-set :
    (f t : Bytes) (i v c : ℕ)
    → i < length t
    → is_used (disk f (set t i v)) c ≡ (if c == i then in_use (some v) else is_used (disk f t) c)
unfolding is_used
is_used-set f t i v c h = elim (Bool-cases (c == i)) [
  | inl e ↦ rw (e, ==_eq c i e, get_elem?-set_self t i v h)
  | inr e ↦ rw (e, get_elem?-set_ne t i c v (λ p. ground arith))
]

used-is_one :
    (f t : Bytes) (b : ℕ)
    → ((b v : ℕ) → get_elem? t b ≡ some v → v ≤ 1)
    → is_used (disk f t) b ≡ true
    → get_elem? t b ≡ some 1
unfolding is_used
used-is_one f t b bits u = elim (Option-cases (get_elem? t b)) [
  | inl e ↦ cc (rw e at u)
  | inr (v, e) ↦ e ∙ ap some (ground (arith, bits b v e, rw e at u))
]

all_used :
    (f t : Bytes) (b : ℕ)
    → ((j : ℕ) → get_elem? t j ≢ some 0)
    → b < length t
    → is_used (disk f t) b ≡ true
unfolding is_used
all_used f t b all k =
    let (v, there) = elem_below t b k in rw (there, ==_ne v 0 (λ e. all b (there ∙ ap some e)))

module _ {o : Outcomes} (h : Healthy o) where
  -- On a working disk with a table of bits, `allocate_block` returns a block that was unused and
  -- marks it and no other, or returns -1 with every block in use and changes nothing.
  pub allocate_block_cases :
      (d : Disk)
      → IsTable d
      → ((b : ℕ) × (d' : Disk) × (allocate_block o d ≡ ok (pos b, d'))
          × IsTable d'
          × (is_used d b ≡ false)
          × ((c : ℕ) → is_used d' c ≡ (if c == b then true else is_used d c)))
        ⊎ ((allocate_block o d ≡ ok (failure, d)) × ((b : ℕ) → b < num_blocks → is_used d b ≡ true))
  allocate_block_cases d (f, t, e, size, bits) = rw e (elim (allocate_block_lem f t h size) [
    | inl (i, done, unused, first) ↦ inl (
      i,
      disk f (set t i 1),
      done,
      (f, set t i 1, refl, length-set t i 1 ∙ size, set-bits t i 1 (omega arith) bits),
      unfold is_used in rw unused,
      λ c. is_used-set f t i 1 c (get_elem?_lt t i unused),
    )
    | inr (full, all) ↦ inr (full, λ b k. all_used f t b all (omega arith))
  ])

  -- On such a disk `free_block` of a block in use returns 0 and unmarks it and no other.
  pub free_block_cases :
      (d : Disk) (b : ℕ)
      → IsTable d
      → is_used d b ≡ true
      → (d' : Disk) × (free_block o (pos b) d ≡ ok (pos 0, d'))
        × IsTable d'
        × ((c : ℕ) → is_used d' c ≡ (if c == b then false else is_used d c))
  free_block_cases d b (f, t, e, size, bits) u =
      let one = used-is_one f t b bits (rw e at u) in
      rw e (
        disk f (set t b 0),
        free_block_used h f t size b one,
        (f, set t b 0, refl, length-set t b 0 ∙ size, set-bits t b 0 (omega arith) bits),
        λ c. is_used-set f t b 0 c (get_elem?_lt t b one),
      )

-- oblig/allocation.c implements the interface while nothing fails outside it.
abbrev pub table_store : {o : Outcomes} → Healthy o → BlockStore
table_store {o} h = record {
  Store = Disk;
  IsSound = IsTable;
  capacity = num_blocks;
  used = is_used;
  allocate = allocate_block o;
  free = free_block o;
  allocate_cases = allocate_block_cases h;
  free_used = free_block_cases h;
}
