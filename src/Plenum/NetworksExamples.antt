-- ===== src/Plenum/NetworksExamples.antt =====
-- The theorems about plenum/uke11/ at concrete inputs, and runs of the code.
use in2140_introduksjon_til.Plenum.Networks.{
  valid_first_byte, make_mask, entry_loop, make_entry, generate_loop, masked_compare, search_down,
  do_search, generate, NetEntry, outside, not_found, found, before_table,
}
use in2140_introduksjon_til.Plenum.Networks.Lookup.{
  Matches, above, all_below, eq_pos, do_search_lem,
}
use in2140_introduksjon_til.Common.Ints.{eq}
use in2140_introduksjon_til.Common.Run.{pos}
use in2140_introduksjon_til.Common.{
  if◌then◌else◌, Bool-cases, Option-cases, get_elem?, ℕ, suc, ◌+◌, ◌*◌, ◌^◌, ◌≤◌, ◌<◌, ◌≡◌, refl,
  subst, ◌⊎◌, inl, inr, false, Option, none, some, List, [], ◌∷◌, arith,
}

-- The first entry that compares as equal.
find_match : ℕ → List NetEntry → Option ℕ
find_match addr [] = none
find_match addr (e ∷ es) =
    let rest = find_match addr es in
    if eq (masked_compare addr e) (pos 0)
    then some 0
    else elim rest [ none ↦ none | some i ↦ some (suc i) ]

find_match-Matches :
    (addr : ℕ) (table : List NetEntry) (i : ℕ)
    → find_match addr table ≡ some i
    → Matches addr table i
unfolding find_match
find_match-Matches addr [] i h = ground arith
find_match-Matches addr (e ∷ es) i h = elim (Bool-cases (eq (masked_compare addr e) (pos 0))) [
  | inl same ↦
      let first : 0 ≡ i = cc (rw same at h) in
      subst (Matches addr (e ∷ es)) first (e, refl, eq_pos _ same)
  | inr other ↦ elim (Option-cases (find_match addr es)) [
    | inl e' ↦ cc (rw (other, e') at h)
    | inr (j, e') ↦
        let next : suc j ≡ i = cc (rw (other, e') at h) in
        let (f, g, k) = find_match-Matches addr es j e' in
        subst (Matches addr (e ∷ es)) next (f, g, k)
  ]
]

abbrev network : ℕ → ℕ → NetEntry
network ip len = record { ip = ip; mask = make_mask len; interface = 1 }

-- 9.0.0.0/8, 10.0.0.0/8
abbrev networks : List NetEntry
networks = network (9 * 2 ^ 24) 8 ∷ network (10 * 2 ^ 24) 8 ∷ []

abbrev address : ℕ
address = 10 * 2 ^ 24 + 5

do_search_lem_example :
    ((find_match address networks ≡ none) × (do_search find_match networks address ≡ not_found))
    ⊎ ((j n : ℕ) × (find_match address networks ≡ some (j + suc n))
        × (do_search find_match networks address ≡ found (above j (suc n)))
        × (e : NetEntry) × (get_elem? networks j ≡ some e)
        × (eq (masked_compare address e) (pos 0) ≡ false)
        × ((m : ℕ) → j < m → m ≤ j + suc n → Matches address networks m))
    ⊎ ((i : ℕ) × (find_match address networks ≡ some i)
        × (do_search find_match networks address ≡ before_table (all_below (suc i)))
        × ((m : ℕ) → m ≤ i → Matches address networks m))
do_search_lem_example =
    do_search_lem find_match networks address (record { matches = find_match-Matches })

test_found : do_search find_match networks address ≡ found (1 ∷ [])
unfolding find_match masked_compare make_mask do_search search_down
test_found = refl

-- An address of the first network of the table.
test_before_table : do_search find_match networks (9 * 2 ^ 24) ≡ before_table (0 ∷ [])
unfolding find_match masked_compare make_mask do_search search_down
test_before_table = refl

as_it_is : List NetEntry → List NetEntry
as_it_is t = t

abbrev numbers : List ℕ
numbers = 10 ∷ 1 ∷ 2 ∷ 3 ∷ 0 ∷ 1 ∷ 9 ∷ 2 ∷ 0 ∷ 5 ∷ 6 ∷ 20 ∷ 1 ∷ 1 ∷ 4 ∷ 0 ∷ 0 ∷ 0 ∷ []

-- One place, and an address that gets two masks.
test_outside : generate as_it_is 1 numbers ≡ outside
unfolding generate as_it_is generate_loop make_entry valid_first_byte entry_loop
test_outside = refl
