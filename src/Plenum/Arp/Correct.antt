-- ===== src/Plenum/Arp/Correct.antt =====
-- plenum/uke11/arpjob.c: the operations end, and the table that they leave.
use mathlib.Core.List.{Perm}
use in2140_introduksjon_til.Plenum.Arp.{max_table, replace1, arp_job, ArpEntry, ArpTable}
use in2140_introduksjon_til.Plenum.Arp.Replace.{
  On, Replaced, Replaced-replace1, Windows, arp_job-Windows,
}
use in2140_introduksjon_til.Plenum.Arp.Ages.{Ages, IsAgeSort}
use in2140_introduksjon_til.Plenum.Arp.Returns.{Valid, per_entry, Gives-replace1, Gives-arp_job}
use in2140_introduksjon_til.Common.{
  length, ℕ, suc, ◌+◌, ◌*◌, ◌≤◌, min, ◌≡◌, subst, Option, some, List,
}

On-some :
    {A : Type 0} (P : A → Type 0) (o : Option (A × List ℕ)) (a : A) (rs : List ℕ)
    → On P o
    → o ≡ some (a, rs)
    → P a
unfolding On
On-some P o a rs h e = subst (On P) e h

module _ (by_age by_ip : List ArpEntry → List ArpEntry) (sorts : IsAgeSort by_age)
    (rearranges : (t : List ArpEntry) → Perm (by_ip t) t) where
  -- `replace1` on a table of which the ages are consecutive numbers up to `latest`, with at least 10
  -- random numbers that each make a valid first byte of an address: it takes 10 of them and ends. Just
  -- the entry with the smallest age is gone, all others are kept, and an entry with the age `latest`
  -- has come, which is one more afterwards; so the ages are consecutive again. `qsort` rearranges the
  -- table, and with the comparison of ages sorts it.
  pub replace1_lem :
      (start m : ℕ) (t : ArpTable) (rs : List ℕ)
      → Ages start (suc m) t.entries
      → t.latest ≡ start + suc m
      → Valid rs
      → per_entry ≤ length rs
      → (t' : ArpTable) × (rs' : List ℕ) × (replace1 by_age by_ip t rs ≡ some (t', rs'))
        × (per_entry + length rs' ≡ length rs)
        × Replaced start m t t'
  replace1_lem start m t rs consecutive now valid enough =
      let (t', rs', made, _, size) = Gives-replace1 by_age by_ip t rs valid enough in
      (
        t',
        rs',
        made,
        size,
        On-some (Replaced start m t) _ t' rs'
            (Replaced-replace1 by_age by_ip sorts rearranges start m t rs consecutive now) made,
      )

  -- The program, for at least one entry, with random numbers that each make a valid first byte of an
  -- address, 10 for each entry in the table, of at most 1000 entries, and for each replacement: it
  -- takes these numbers and ends. It has printed a table at first and one after each replacement, all
  -- of the same number of entries; the first has the ages from 0 on, and after each replacement the
  -- ages are those of the entries made last. `qsort` rearranges the table, and with the comparison of
  -- ages sorts it; `bsearch` may do anything.
  pub arp_job_lem :
      (search_for : ℕ → List ArpEntry → Option ArpEntry) (number rep : ℕ) (rs : List ℕ)
      → 1 ≤ number
      → Valid rs
      → per_entry * (min number max_table + rep) ≤ length rs
      → (tables : List ArpTable) × (found : Option ArpEntry) × (rs' : List ℕ) × (arp_job by_age
            by_ip search_for number rep rs
          ≡ some ((tables, found), rs'))
        × (per_entry * (min number max_table + rep) + length rs' ≡ length rs)
        × (length tables ≡ suc rep)
        × Windows 0 (min number max_table) tables
  arp_job_lem search_for number rep rs some_entries valid enough =
      let (r, rs', made, _, size) =
        Gives-arp_job by_age by_ip search_for number rep rs valid enough in
      let (count, windows) =
        On-some _ _ r rs'
          (arp_job-Windows by_age by_ip sorts rearranges search_for number rep rs some_entries)
          made in
      (r.0, r.1, rs', made, size, count, windows)
