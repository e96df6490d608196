-- ===== src/Plenum/Networks.antt =====
-- plenum/uke11/cidr.c: a table of networks with random addresses and masks, and the search of an
-- address in it. Random numbers are the list of what `lrand48` returns; `qsort` and `bsearch` are
-- parameters.
pub mod Generate
pub mod Lookup
use in2140_introduksjon_til.Common.Bits.{complement}
use in2140_introduksjon_til.Common.Ints.{eq}
use in2140_introduksjon_til.Common.Run.{ℤ, pos, negsuc}
use in2140_introduksjon_til.Common.{
  ltb, leb, ◌==◌, if◌then◌else◌, length, get_elem?, set, replicate, ℕ, zero, suc, ◌+◌, ◌-◌, ◌*◌,
  ◌%◌, ◌^◌, min, bit_and, bit_or, Bool, true, false, Option, none, some, List, [], ◌∷◌, map,
}

pub record NetEntry : Type 0 where
  pub ip : ℕ
  pub mask : ℕ
  pub interface : ℕ

-- `starved`: the list of random numbers is too short. `outside`: an entry is written in front of
-- the table. `divided`: a division by 0. `out_of_fuel` is no outcome of the code.
pub data Made (A : Type 0) : Type 0 where
  starved outside divided out_of_fuel : Made A
  made : A → List ℕ → Made A

-- `validFirstByte( byte ) != 0`
unfoldable pub valid_first_byte : ℕ → Bool
valid_first_byte byte =
    if bit_and byte 0x80 == 0
    then true
    else if bit_and byte 0x40 == 0
    then true
    else if bit_and byte 0x20 == 0
    then true
    else false

-- `( ip[0] << 24 ) | ( ip[1] << 16 ) | ( ip[2] << 8 ) | ( ip[3] << 0 )`
unfoldable pub four_bytes : ℕ → ℕ → ℕ → ℕ → ℕ
four_bytes a b c d = bit_or (bit_or (bit_or (a * 2 ^ 24) (b * 2 ^ 16)) (c * 2 ^ 8)) d

abbrev pub other_bytes : ℕ → List ℕ → Made ℕ
other_bytes a [] = starved
other_bytes a (b ∷ []) = starved
other_bytes a (b ∷ c ∷ []) = starved
other_bytes a (b ∷ c ∷ d ∷ rest) = made (four_bytes a (b % 256) (c % 256) (d % 256)) rest

-- `makeRandomIP`; each round of its loop takes a random number.
unfoldable pub make_random_ip : List ℕ → Made ℕ
make_random_ip [] = starved
make_random_ip (r ∷ rs) =
    let again = make_random_ip rs in
    if valid_first_byte (r % 256) then other_bytes (r % 256) rs else again

-- The cases of the three `switch` statements, from their first one on.
abbrev switch_bytes : List ℕ
switch_bytes = 0 ∷ 128 ∷ 192 ∷ 224 ∷ 240 ∷ 248 ∷ 252 ∷ 254 ∷ []

abbrev switch_byte : ℕ → ℕ
switch_byte n = elim (get_elem? switch_bytes n) [ none ↦ 255 | some b ↦ b ]

unfoldable pub make_mask : ℕ → ℕ
unfolding four_bytes
make_mask len =
    if ltb len 16
    then four_bytes 255 (if ltb len 8 then 255 else switch_byte (len - 8)) 0 0
    else if ltb len 24
    then four_bytes 255 255 (switch_byte (len - 16)) 0
    else four_bytes 255 255 255 (if ltb len 31 then switch_byte (len - 24) else 255)

-- The loop of `makeEntry` with `left` places of the table at `e` and below: the table and the places
-- left behind it.
unfoldable pub entry_loop : ℕ → ℕ → ℕ → List NetEntry → List ℕ → Made (List NetEntry × ℕ)
entry_loop ip masklen zero table rs = if leb masklen 30 then outside else made (table, 0) rs
entry_loop ip masklen (suc left) table [] = starved
entry_loop ip masklen (suc left) table (r ∷ []) = starved
entry_loop ip masklen (suc left) table (r ∷ r' ∷ rs) =
    let newmasklen = 16 + r' % 14 in
    let written =
      set table left (record { ip = ip; mask = make_mask masklen; interface = r % 4 }) in
    let rest = entry_loop ip newmasklen left written rs in
    if leb masklen 30
    then (if ltb masklen newmasklen then rest else made (written, left) rs)
    else made (table, suc left) (r ∷ r' ∷ rs)

abbrev with_length : ℕ → List NetEntry → Made ℕ → Made (List NetEntry × ℕ)
with_length left table (made ip (r ∷ rs)) = entry_loop ip (8 + r % 23) left table rs
with_length left table (made ip []) = starved
with_length left table starved = starved
with_length left table outside = outside
with_length left table divided = divided
with_length left table out_of_fuel = out_of_fuel

-- `makeEntry( &table[left - 1] )`
unfoldable pub make_entry : ℕ → List NetEntry → List ℕ → Made (List NetEntry × ℕ)
unfolding make_random_ip
make_entry left table rs = with_length left table (make_random_ip rs)

abbrev continue : {A C : Type 0} → Made A → (A → List ℕ → Made C) → Made C
continue starved k = starved
continue outside k = outside
continue divided k = divided
continue out_of_fuel k = out_of_fuel
continue (made a rs) k = k a rs

-- The loop of `generate`, as long as places are left.
unfoldable pub generate_loop : ℕ → ℕ → List NetEntry → List ℕ → Made (List NetEntry)
generate_loop fuel zero table rs = made table rs
generate_loop zero (suc left) table rs = out_of_fuel
generate_loop (suc fuel) (suc left) table rs =
    continue (make_entry (suc left) table rs) (λ (table', left'). generate_loop fuel left' table')

abbrev empty_entry : NetEntry
empty_entry = record { ip = 0; mask = 0; interface = 0 }

-- `cmp` of two words, as -1, 0 or 1
abbrev pub compare_words : ℕ → ℕ → ℤ
compare_words l r = if l == r then pos 0 else if ltb l r then negsuc 0 else pos 1

-- `lt`, the order of the table
unfoldable pub lt_entry : NetEntry → NetEntry → ℤ
lt_entry l r = compare_words l.ip r.ip

unfoldable pub masked_compare : ℕ → NetEntry → ℤ
masked_compare key entry = compare_words (bit_and key entry.mask) (bit_and entry.ip entry.mask)

-- What `printEntry` does to an entry, and the class that it prints.
unfoldable pub print_entry : NetEntry → NetEntry
print_entry e = record e { ip = bit_and e.ip e.mask }

unfoldable pub class : NetEntry → ℕ
class e =
    if bit_and e.ip 0x80000000 == 0
    then b'A'
    else if bit_and e.ip 0x40000000 == 0
    then b'B'
    else if bit_and e.ip 0x20000000 == 0
    then b'C'
    else b'-'

-- `createSearch` over the first `tableSize` entries, which are the list.
unfoldable pub create_search : List NetEntry → List ℕ → Made ℕ
create_search [] rs = divided
create_search (e ∷ es) (r ∷ r' ∷ rs) = elim (get_elem? (e ∷ es) (r % length (e ∷ es))) [
  | none ↦ outside
  | some f ↦ made (bit_or (bit_and r' (complement 32 f.mask)) (bit_and f.ip f.mask)) rs
]
create_search (e ∷ es) _ = starved

-- The indices of the entries that `doSearch` prints. `before_table`: after these it reads
-- `table[-1]`.
pub data Search : Type 0 where
  not_found : Search
  found before_table : List ℕ → Search

abbrev pub add_index : ℕ → Search → Search
add_index i not_found = not_found
add_index i (found is) = found (i ∷ is)
add_index i (before_table is) = before_table (i ∷ is)

-- The loop of `doSearch`, with `result` at index `i`.
unfoldable pub search_down : List NetEntry → ℕ → ℕ → Search
search_down table addr zero = before_table []
search_down table addr (suc i) =
    let rest = search_down table addr i in
    elim (get_elem? table i) [
      | none ↦ before_table []
      | some e ↦ if eq (masked_compare addr e) (pos 0) then add_index i rest else found []
    ]

module _ (search : ℕ → List NetEntry → Option ℕ) where
  unfoldable pub do_search : List NetEntry → ℕ → Search
  do_search table addr = elim (search addr table) [
    | none ↦ not_found
    | some i ↦ add_index i (search_down table addr i)
  ]

module _ (sort : List NetEntry → List NetEntry) where
  -- `generate( num )`: the table is cleared, filled from its end, and sorted.
  unfoldable pub generate : ℕ → List ℕ → Made (List NetEntry)
  generate num rs =
      let size = min num 1000 in
      continue (generate_loop size size (replicate size empty_entry) rs)
        (λ table. made (sort table))

module _ (sort : List NetEntry → List NetEntry) (search : ℕ → List NetEntry → Option ℕ) where
  -- `main` behind `srand48`
  unfoldable pub cidr_main : ℕ → List ℕ → Made Search
  cidr_main num rs = continue (generate sort num rs) (λ table rest.
      continue (create_search (map print_entry table) rest)
        (λ addr. made (do_search search (map print_entry table) addr)))
