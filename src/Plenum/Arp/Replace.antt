-- ===== src/Plenum/Arp/Replace.antt =====
-- plenum/uke11/arpjob.c: `generate`, `replace1` and `main`, by the ages of the entries.
use in2140_introduksjon_til.Plenum.Arp.{
  Random, ◌>>=◌, make_random_ip, make_random_mac, make_entry, max_table, fill, put_first,
  generate_arp, replace1, replacements, arp_job, ArpEntry, ArpTable,
}
use mathlib.Core.List.{Perm}
use mathlib.Core.List.Perm
use in2140_introduksjon_til.Common.{
  length, ℕ, zero, suc, ◌+◌, ◌-◌, ◌≤◌, min, ◌≡◌, refl, sym, ap, ◌∙◌, subst, Option, none, some,
  List, [], ◌∷◌, arith,
}
use in2140_introduksjon_til.Plenum.Arp.Ages.{
  upto, ages, Ages, upto_one_more, first-oldest, IsAgeSort,
}

-- A property of what is made, where the random numbers are enough.
unfoldable pub On : {A : Type 0} → (A → Type 0) → Option (A × List ℕ) → Type 0
On P none = Unit
On P (some (a, rs)) = P a

module _ {A : Type 0} where
  On-made :
      {B : Type 0} (P : A → Type 0) (Q : B → Type 0) (k : A → Random B) (o : Option (A × List ℕ))
      → On P o
      → ((a : A) (rs : List ℕ) → P a → On Q (k a rs))
      → On Q (elim o [ none ↦ none | some (a, rs) ↦ k a rs ])
  unfolding On
  On-made P Q k none h next = tt
  On-made P Q k (some (a, rs)) h next = next a rs h

  any : (o : Option (A × List ℕ)) → On (λ _. Unit) o
  unfolding On
  any none = tt
  any (some (a, rs)) = tt

  pub On-bind :
      {B : Type 0} (P : A → Type 0) (Q : B → Type 0) (m : Random A) (k : A → Random B) (rs : List ℕ)
      → On P (m rs)
      → ((a : A) (rs' : List ℕ) → P a → On Q (k a rs'))
      → On Q ((m >>= k) rs)
  On-bind P Q m k rs h next = On-made P Q k (m rs) h next

  pub On-then :
      {B : Type 0} (Q : B → Type 0) (m : Random A) (k : A → Random B) (rs : List ℕ)
      → ((a : A) (rs' : List ℕ) → On Q (k a rs'))
      → On Q ((m >>= k) rs)
  On-then Q m k rs next = On-bind (λ _. Unit) Q m k rs (any (m rs)) (λ a rs' _. next a rs')

make_entry-age : (latest : ℕ) (rs : List ℕ) → On (λ e. e.age ≡ latest) (make_entry latest rs)
unfolding make_entry On
make_entry-age latest rs =
    On-then _ make_random_ip _ rs λ i rs₁. On-then _ (make_random_mac 6) _ rs₁ λ m rs₂. refl

fill-Ages :
    (n : ℕ) (filled : List ArpEntry) (start k latest : ℕ) (rs : List ℕ)
    → Ages start k filled
    → latest ≡ start + k
    → On
        (λ t. Ages start (k + n) t.entries × (t.latest ≡ start + (k + n)))
        (fill n filled latest rs)
unfolding fill On
fill-Ages zero filled start k latest rs p e =
    let count : k ≡ k + 0 = omega arith in
    (subst (λ n. Perm (ages filled) (upto start n)) count p, e ∙ ap (λ n. start + n) count)
fill-Ages (suc n) filled start k latest rs p e =
    On-bind _ _ (make_entry latest) _ rs (make_entry-age latest rs) λ new rs' aged.
      let step : suc k + n ≡ k + suc n = omega arith in
      subst
        (λ c.
          On (λ t. Ages start c t.entries × (t.latest ≡ start + c))
            (fill n (new ∷ filled) (latest + 1) rs'))
        step
        (fill-Ages n (new ∷ filled) start (suc k) (latest + 1) rs'
          (upto_one_more new.age start k (ages filled) p (aged ∙ e)) (omega arith))

-- Just the entry with the age `start` is gone, and one with the age `latest` has come.
unfoldable pub Replaced : (start m : ℕ) → ArpTable → ArpTable → Type 0
Replaced start m t t' =
    (old : ArpEntry) × (new : ArpEntry) × (rest : List ArpEntry) × Perm t.entries (old ∷ rest)
    × (old.age ≡ start)
    × Perm t'.entries (new ∷ rest)
    × (new.age ≡ t.latest)
    × (t'.latest ≡ t.latest + 1)
    × Ages (suc start) (suc m) t'.entries

module _ (by_age by_ip : List ArpEntry → List ArpEntry) (sorts : IsAgeSort by_age)
    (rearranges : (t : List ArpEntry) → Perm (by_ip t) t) where
  generate_arp-Ages :
      (num latest : ℕ) (rs : List ℕ)
      → On
          (λ t.
            Ages latest (0 + min num max_table) t.entries
            × (t.latest ≡ latest + (0 + min num max_table)))
          (generate_arp by_age by_ip num latest rs)
  unfolding generate_arp On upto
  generate_arp-Ages num latest rs =
      On-bind _ _ (fill (min num max_table) [] latest) _ rs
        (fill-Ages (min num max_table) [] latest 0 latest rs (Perm.refl []) (omega arith))
        λ t rs' h. (Perm.trans (Perm.map (λ e. e.age) (rearranges t.entries)) h.0, h.1)

  -- What `replace1` makes of the entries and of `latest`.
  pub Replaced-replace1 :
      (start m : ℕ) (t : ArpTable) (rs : List ℕ)
      → Ages start (suc m) t.entries
      → t.latest ≡ start + suc m
      → On (Replaced start m t) (replace1 by_age by_ip t rs)
  unfolding replace1 On Replaced
  Replaced-replace1 start m t rs consecutive now =
      On-bind _ _ (make_entry t.latest) _ rs (make_entry-age t.latest rs) λ new rs' aged.
        let (old, rest, sorted, age, left) =
          first-oldest start m t.entries (by_age t.entries) (sorts.ascends t.entries)
            (sorts.rearranges t.entries) consecutive in
        let entries = by_ip (put_first new (by_age t.entries)) in
        let put : Perm entries (new ∷ rest) =
          subst (λ l. Perm (by_ip (put_first new l)) (new ∷ rest)) (sym sorted)
            (rearranges (new ∷ rest)) in
        (
          old,
          new,
          rest,
          Perm.symm (subst (λ l. Perm l t.entries) sorted (sorts.rearranges t.entries)),
          age,
          put,
          aged,
          refl,
          Perm.trans (Perm.map (λ e. e.age) put)
              (upto_one_more new.age (suc start) m (ages rest) left (aged ∙ now ∙ omega arith)),
        )

-- The tables hold `n` consecutive ages each, the first one from `start` on, and each one later than
-- the table before.
unfoldable pub Windows : (start n : ℕ) → List ArpTable → Type 0
Windows start n [] = Unit
Windows start n (t ∷ ts) = Ages start n t.entries × Windows (suc start) n ts

module _ (by_age by_ip : List ArpEntry → List ArpEntry) (sorts : IsAgeSort by_age)
    (rearranges : (t : List ArpEntry) → Perm (by_ip t) t) where
  replacements-Windows :
      (rep start m : ℕ) (t : ArpTable) (rs : List ℕ)
      → Ages start (suc m) t.entries
      → t.latest ≡ start + suc m
      → On
          (λ r. (length r.0 ≡ rep) × Windows (suc start) (suc m) r.0)
          (replacements by_age by_ip rep t rs)
  unfolding replacements On Windows Replaced
  replacements-Windows zero start m t rs p e = (refl, tt)
  replacements-Windows (suc rep) start m t rs p e =
      On-bind _ _ (replace1 by_age by_ip t) _ rs
        (Replaced-replace1 by_age by_ip sorts rearranges start m t rs p e)
        λ t' rs₁ (old, new, rest, _, _, _, _, latest, p').
          On-bind _ _ (replacements by_age by_ip rep t') _ rs₁
            (replacements-Windows rep (suc start) m t' rs₁ p' (omega arith))
            λ r rs₂ (size, more). (ap suc size, (p', more))

  pub arp_job-Windows :
      (search_for : ℕ → List ArpEntry → Option ArpEntry) (number rep : ℕ) (rs : List ℕ)
      → 1 ≤ number
      → On
          (λ r. (length r.0 ≡ suc rep) × Windows 0 (min number max_table) r.0)
          (arp_job by_age by_ip search_for number rep rs)
  unfolding arp_job On Windows
  arp_job-Windows search_for number rep rs some_entries =
      let n = min number max_table in
      let count : 0 + n ≡ suc (n - 1) = omega arith in
      let same : suc (n - 1) ≡ n = omega arith in
      On-bind _ _ (generate_arp by_age by_ip number 0) _ rs
        (generate_arp-Ages by_age by_ip sorts rearranges number 0 rs)
        λ t rs₁ (p, latest).
          let p' : Ages 0 (suc (n - 1)) t.entries = subst (λ k. Ages 0 k t.entries) count p in
          On-bind _ _ (replacements by_age by_ip rep t) _ rs₁
            (replacements-Windows rep 0 (n - 1) t rs₁ p' (latest ∙ ap (λ k. 0 + k) count))
            λ r rs₂ (size, more). (
              ap suc size,
              (subst (λ k. Ages 0 k t.entries) same p', subst (λ k. Windows 1 k r.0) same more),
            )
