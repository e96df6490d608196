-- ===== src/Plenum/Arp.antt =====
-- plenum/uke11/arpjob.c: a table of addresses in which the oldest entry is replaced. Random numbers are
-- the list of what `lrand48` returns; `qsort` with each of the two comparisons, and `bsearch`, are
-- parameters.
pub mod Ages
pub mod Correct
pub mod Order
pub mod Replace
pub mod Returns
use in2140_introduksjon_til.Common.Ints.{difference}
use in2140_introduksjon_til.Common.Run.{ℤ, pos, negsuc}
use in2140_introduksjon_til.Common.Words.{from_le, swap32}
use in2140_introduksjon_til.Common.{
  ltb, ◌==◌, if◌then◌else◌, get_elem?, ℕ, zero, suc, ◌+◌, ◌-◌, ◌%◌, ◌^◌, min, bit_and, Bool, true,
  false, Option, none, some, List, [], ◌∷◌,
}

pub record ArpEntry : Type 0 where
  pub ip : ℕ
  pub mac : List ℕ
  pub age : ℕ

-- A value made with random numbers, and the numbers that are left; `none` when there are too few.
abbrev pub Random : Type 0 → Type 0
Random A = List ℕ → Option (A × List ℕ)

abbrev pub give : {A : Type 0} → A → Random A
give a rs = some (a, rs)

infixl 5 ◌>>=◌
abbrev pub ◌>>=◌ : {A B : Type 0} → Random A → (A → Random B) → Random B
◌>>=◌ m k rs = elim (m rs) [ none ↦ none | some (a, rs') ↦ k a rs' ]

-- `lrand48( ) % 256`
abbrev pub random_byte : Random ℕ
random_byte [] = none
random_byte (r ∷ rs) = some (r % 256, rs)

-- `validFirstByte( byte ) != 0`
unfoldable pub valid_byte : ℕ → Bool
valid_byte byte =
    if bit_and byte 8 == 0
    then true
    else if bit_and byte 4 == 0
    then true
    else if bit_and byte 2 == 0
    then true
    else false

-- The loop of `makeRandomIP`; each round takes a random number.
unfoldable pub first_byte : Random ℕ
first_byte [] = none
first_byte (r ∷ rs) =
    let again = first_byte rs in if valid_byte (r % 256) then some (r % 256, rs) else again

-- `memcpy` of the four bytes into a word, and `htonl`.
unfoldable pub make_random_ip : Random ℕ
make_random_ip = do
  a ← first_byte
  b ← random_byte
  c ← random_byte
  d ← random_byte
  give (swap32 (from_le (a ∷ b ∷ c ∷ d ∷ [])))

-- The loop of `makeRandomMac`, with `n` bytes left.
unfoldable pub make_random_mac : ℕ → Random (List ℕ)
make_random_mac zero = give []
make_random_mac (suc n) = do b ← random_byte; bs ← make_random_mac n; give (b ∷ bs)

-- `makeEntry`, where `latest` is given; it is one more afterwards, and stays an int.
unfoldable pub make_entry : (latest : ℕ) → Random ArpEntry
make_entry latest = do
  i ← make_random_ip
  m ← make_random_mac 6
  give (record { ip = i; mac = m; age = latest })

-- `oldest`: ages are not negative, so their difference is an int.
unfoldable pub oldest : ArpEntry → ArpEntry → ℤ
oldest l r = difference l.age r.age

-- The int with the bits of a word.
abbrev pub int_of_word : ℕ → ℤ
int_of_word w = if ltb w (2 ^ 31) then pos w else negsuc (2 ^ 32 - 1 - w)

-- `lt`: both comparisons read the words at the start of what they are given, the addresses; their
-- difference wraps around.
unfoldable pub lt_word : ℕ → ℕ → ℤ
lt_word l r = int_of_word ((l + 2 ^ 32 - r) % 2 ^ 32)

abbrev pub max_table : ℕ
max_table = 1000

-- The first `tableSize` entries, and `latest`.
pub record ArpTable : Type 0 where
  pub entries : List ArpEntry
  pub latest : ℕ

-- The loop of `generate`, from the last entry down: `filled` are the entries behind the `n` first ones.
unfoldable pub fill : ℕ → (filled : List ArpEntry) → (latest : ℕ) → Random ArpTable
fill zero filled latest = give (record { entries = filled; latest = latest })
fill (suc n) filled latest = do e ← make_entry latest; fill n (e ∷ filled) (latest + 1)

-- `table[0] = e`; with a table size of 0 the place is behind the table.
abbrev pub put_first : ArpEntry → List ArpEntry → List ArpEntry
put_first e [] = []
put_first e (x ∷ xs) = e ∷ xs

-- `table[i].ip`; behind the table all is 0.
abbrev pub ip_at : List ArpEntry → ℕ → ℕ
ip_at entries i = elim (get_elem? entries i) [ none ↦ 0 | some e ↦ e.ip ]

module _ (by_age by_ip : List ArpEntry → List ArpEntry) where
  -- `generate`, for a number of entries that is not negative.
  unfoldable pub generate_arp : ℕ → (latest : ℕ) → Random ArpTable
  generate_arp num latest = do
    t ← fill (min num max_table) [] latest
    give (record t { entries = by_ip t.entries })

  unfoldable pub replace1 : ArpTable → Random ArpTable
  replace1 t = do
    e ← make_entry t.latest
    give (record { entries = by_ip (put_first e (by_age t.entries)); latest = t.latest + 1 })

  -- The loop of `main`: the tables that it prints, and the last one.
  unfoldable pub replacements : (rep : ℕ) → ArpTable → Random (List ArpTable × ArpTable)
  replacements zero t = give ([], t)
  replacements (suc n) t = do
    t' ← replace1 t
    (shown, last) ← replacements n t'
    give (t' ∷ shown, last)

  -- `main`: the tables that it prints, and the entry that it finds for the address in `table[4]`.
  unfoldable pub arp_job :
      (search_for : ℕ → List ArpEntry → Option ArpEntry)
      → (number rep : ℕ) → Random (List ArpTable × Option ArpEntry)
  arp_job search_for number rep = do
    t ← generate_arp number 0
    (shown, last) ← replacements rep t
    give (t ∷ shown, search_for (ip_at last.entries 4) last.entries)
