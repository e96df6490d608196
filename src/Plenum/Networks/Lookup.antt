-- ===== src/Plenum/Networks/Lookup.antt =====
-- plenum/uke11/cidr.c: the address that is searched for, and what the search prints.
use in2140_introduksjon_til.Plenum.Networks.{
  compare_words, masked_compare, create_search, search_down, do_search, made, not_found, NetEntry,
  found, before_table,
}
use in2140_introduksjon_til.Common.Bits.{complement, bit_and-select}
use in2140_introduksjon_til.Common.Ints.{eq}
use in2140_introduksjon_til.Common.Run.{ℤ, pos, negsuc}
use in2140_introduksjon_til.Common.{
  ◌==◌, ==_self, ==_eq, Bool-cases, Option-cases, length, get_elem?, get_elem?_lt, ℕ, zero, suc,
  ◌+◌, ◌%◌, ◌^◌, ◌≤◌, ◌<◌, bit_and, bit_or, ◌≡◌, refl, sym, ap, ◌∙◌, subst, ◌⊎◌, inl, inr, true,
  false, Option, none, some, List, [], ◌∷◌, arith,
}

elem_below :
    {A : Type 0} (xs : List A) (i : ℕ) → i < length xs → (x : A) × (get_elem? xs i ≡ some x)
elem_below [] i h = absurd (omega arith)
elem_below (x ∷ xs) zero h = (x, refl)
elem_below (x ∷ xs) (suc i) h = elem_below xs i (omega arith)

compare_words_self : (a b : ℕ) → a ≡ b → compare_words a b ≡ pos 0
compare_words_self a b e = rw (e, ==_self b) refl

-- In a table that is not empty, with masks of 32 bits, `createSearch` picks an address of one of the
-- networks of the table: the address compares as equal to that entry under its mask.
pub create_search-masked_compare :
    (table : List NetEntry) (r r' : ℕ) (rs : List ℕ)
    → 0 < length table
    → ((i : ℕ) (e : NetEntry) → get_elem? table i ≡ some e → e.mask < 2 ^ 32)
    → (i : ℕ) × (e : NetEntry) × (addr : ℕ) × (create_search table (r ∷ r' ∷ rs) ≡ made addr rs)
      × (get_elem? table i ≡ some e)
      × (masked_compare addr e ≡ pos 0)
unfolding create_search masked_compare
create_search-masked_compare [] r r' rs h words = absurd (omega arith)
create_search-masked_compare (x ∷ xs) r r' rs h words =
    let i = r % length (x ∷ xs) in
    let (e, there) = elem_below (x ∷ xs) i (omega arith) in
    (
      i,
      e,
      bit_or (bit_and r' (complement 32 e.mask)) (bit_and e.ip e.mask),
      rw (there, create_search) refl,
      there,
      compare_words_self _ _ (bit_and-select 32 r' e.ip e.mask (words i e there)),
    )

-- The entry at this index is there and compares as equal to the address.
abbrev pub Matches : ℕ → List NetEntry → ℕ → Type 0
Matches addr table i =
    (e : NetEntry) × (get_elem? table i ≡ some e) × (masked_compare addr e ≡ pos 0)

-- What the C library says of `bsearch`: what it returns compares as equal.
pub record IsSearch (search : ℕ → List NetEntry → Option ℕ) : Type 0 where
  pub matches :
      (addr : ℕ) (table : List NetEntry) (i : ℕ) → search addr table ≡ some i → Matches addr table i

-- The indices from `j + n` down to `j + 1`.
unfoldable pub above : ℕ → ℕ → List ℕ
above j zero = []
above j (suc n) = (j + suc n) ∷ above j n

-- The indices below `n`, from the last one down.
unfoldable pub all_below : ℕ → List ℕ
all_below zero = []
all_below (suc n) = n ∷ all_below n

pub eq_pos : (z : ℤ) → eq z (pos 0) ≡ true → z ≡ pos 0
eq_pos (pos n) e = ap pos (==_eq n 0 e)
eq_pos (negsuc n) e = cc

one_more :
    (addr : ℕ) (table : List NetEntry) (i m : ℕ)
    → Matches addr table i
    → m < suc i
    → (m < i → Matches addr table m)
    → Matches addr table m
one_more addr table i m this h below = elim (Bool-cases (m == i)) [
  | inl e ↦ subst (Matches addr table) (sym (==_eq m i e)) this
  | inr e ↦ below (ground (arith, e))
]

search_down_lem :
    (table : List NetEntry) (addr i : ℕ)
    → i ≤ length table
    → ((j n : ℕ) × (i ≡ j + suc n)
        × (search_down table addr i ≡ found (above j n))
        × (e : NetEntry) × (get_elem? table j ≡ some e)
        × (eq (masked_compare addr e) (pos 0) ≡ false)
        × ((m : ℕ) → j < m → m < i → Matches addr table m))
      ⊎ ((search_down table addr i ≡ before_table (all_below i))
          × ((m : ℕ) → m < i → Matches addr table m))
unfolding search_down above all_below
search_down_lem table addr zero h = inr (refl, λ m k. absurd (omega arith))
search_down_lem table addr (suc i) h =
    let (e, there) = elem_below table i (omega arith) in
    elim (Bool-cases (eq (masked_compare addr e) (pos 0))) [
      | inr stop ↦ inl (
        i,
        0,
        omega arith,
        rw (there, search_down, stop) refl,
        e,
        there,
        stop,
        λ m a b. absurd (omega arith),
      )
      | inl same ↦
          let this : Matches addr table i = (e, there, eq_pos _ same) in
          elim (search_down_lem table addr i (omega arith)) [
            | inl (j, n, sum, r, f, g, stop, below) ↦ inl (
              j,
              suc n,
              omega (arith, sum),
              rw (there, search_down, same, r) (ap (λ k. found (k ∷ above j n)) sum),
              f,
              g,
              stop,
              λ m a b. one_more addr table i m this b (below m a),
            )
            | inr (r, below) ↦ inr (
              rw (there, search_down, same, r) refl,
              λ m b. one_more addr table i m this b (below m),
            )
          ]
    ]

-- With a `bsearch` that finds only entries that compare as equal, `doSearch` prints nothing when that
-- finds none; or else all entries from the one that it got down to the first one below it that does
-- not compare as equal; if there is no such entry, it goes on to read in front of the table.
pub do_search_lem :
    (search : ℕ → List NetEntry → Option ℕ) (table : List NetEntry) (addr : ℕ)
    → IsSearch search
    → ((search addr table ≡ none) × (do_search search table addr ≡ not_found))
      ⊎ ((j n : ℕ) × (search addr table ≡ some (j + suc n))
          × (do_search search table addr ≡ found (above j (suc n)))
          × (e : NetEntry) × (get_elem? table j ≡ some e)
          × (eq (masked_compare addr e) (pos 0) ≡ false)
          × ((m : ℕ) → j < m → m ≤ j + suc n → Matches addr table m))
      ⊎ ((i : ℕ) × (search addr table ≡ some i)
          × (do_search search table addr ≡ before_table (all_below (suc i)))
          × ((m : ℕ) → m ≤ i → Matches addr table m))
unfolding do_search above all_below
do_search_lem search table addr s = elim (Option-cases (search addr table)) [
  | inl e ↦ inl (e, rw (e, do_search) refl)
  | inr (i, e) ↦
      let this = s.matches addr table i e in
      let (f, there, same) = this in
      inr (elim (search_down_lem table addr i (omega (arith, get_elem?_lt table i there))) [
        | inl (j, n, sum, r, f, g, stop, below) ↦ inl (
          j,
          n,
          e ∙ ap some (omega (arith, sum)),
          rw (e, do_search, r) (ap (λ k. found (k ∷ above j n)) sum),
          f,
          g,
          stop,
          λ m a b. one_more addr table i m this (omega (arith, sum)) (below m a),
        )
        | inr (r, below) ↦ inr (
          i,
          e,
          rw (e, do_search, r) refl,
          λ m b. one_more addr table i m this (omega arith) (below m),
        )
      ])
]
