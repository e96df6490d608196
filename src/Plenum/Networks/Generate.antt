-- ===== src/Plenum/Networks/Generate.antt =====
-- plenum/uke11/cidr.c: the table that `generate` makes, and the address that `createSearch` picks in it.
use in2140_introduksjon_til.Common.Run.{pos}
use in2140_introduksjon_til.Plenum.Networks.{
  make_mask, masked_compare, print_entry, create_search, made, NetEntry, Made, starved, outside,
  divided, out_of_fuel,
}
use in2140_introduksjon_til.Common.{
  ltb, length, get_elem?, ℕ, zero, suc, ◌^◌, ◌<◌, ◌≡◌, Bool, true, ◌&&◌, some, List, ◌∷◌, map,
}

-- Masks are words of 32 bits.
abbrev pub AreWords : List NetEntry → Type 0
AreWords table = (i : ℕ) (e : NetEntry) → get_elem? table i ≡ some e → e.mask < 2 ^ 32

words_below : ℕ → Bool
words_below zero = true
words_below (suc n) = ltb (make_mask n) (2 ^ 32) && words_below n

-- What is made from a table of `n` entries with places left: fewer places, and masks that are words.
abbrev Fills : ℕ → ℕ → Made (List NetEntry × ℕ) → Type 0
Fills n left (made (table, left') rs) = (left' < left) × (length table ≡ n) × AreWords table
Fills n left out_of_fuel = ⊥
Fills n left starved = Unit
Fills n left outside = Unit
Fills n left divided = Unit

-- What `generate` makes of a table of `n` entries.
abbrev Filled : ℕ → Made (List NetEntry) → Type 0
Filled n (made table rs) = (length table ≡ n) × AreWords table
Filled n out_of_fuel = ⊥
Filled n starved = Unit
Filled n outside = Unit
Filled n divided = Unit

-- What the C library says of `qsort`: the result holds the same entries.
pub record Rearranges (sort : List NetEntry → List NetEntry) : Type 0 where
  pub same_length : (t : List NetEntry) → length (sort t) ≡ length t
  pub from_before :
      (t : List NetEntry) (i : ℕ) (e : NetEntry)
      → get_elem? (sort t) i ≡ some e
      → (j : ℕ) × (get_elem? t j ≡ some e)

-- `createSearch` on a table that was printed picks an address of one of its networks.
abbrev pub Picks : List NetEntry → ℕ → ℕ → List ℕ → Type 0
Picks table r r' rs =
    (i : ℕ) × (e : NetEntry) × (addr : ℕ) × (create_search (map print_entry table) (r ∷ r' ∷ rs)
      ≡ made addr rs)
    × (get_elem? (map print_entry table) i ≡ some e)
    × (masked_compare addr e ≡ pos 0)

abbrev pub Searchable : Made (List NetEntry) → Type 0
Searchable (made table rest) = (r r' : ℕ) (rs : List ℕ) → Picks table r r' rs
Searchable out_of_fuel = ⊥
Searchable starved = Unit
Searchable outside = Unit
Searchable divided = Unit
