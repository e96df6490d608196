-- ===== src/Plenum/Arp/Returns.antt =====
-- plenum/uke11/arpjob.c: how many random numbers the program takes.
use in2140_introduksjon_til.Plenum.Arp.{
  Random, give, ◌>>=◌, random_byte, valid_byte, first_byte, make_random_ip, make_random_mac,
  make_entry, max_table, fill, generate_arp, replace1, replacements, arp_job, ArpEntry, ArpTable,
}
use in2140_introduksjon_til.Common.{
  length, All, ℕ, zero, suc, ◌+◌, ◌*◌, ◌%◌, ◌≤◌, min, ◌≡◌, refl, true, Option, some, List, [], ◌∷◌,
  arith,
}

-- Random numbers of which each makes a first byte that is valid.
abbrev pub Valid : List ℕ → Type 0
Valid = All (λ r. valid_byte (r % 256) ≡ true)

-- With at least `k` such numbers, a value is made of just `k` of them.
abbrev pub Gives : {A : Type 0} → ℕ → Random A → Type 0
Gives {A = A} k m =
    (rs : List ℕ)
    → Valid rs
    → k ≤ length rs
    → (a : A) × (rs' : List ℕ) × (m rs ≡ some (a, rs')) × Valid rs' × (k + length rs' ≡ length rs)

module _ {A B : Type 0} where
  pub Gives-bind :
      (j k n : ℕ) (m : Random A) (f : A → Random B)
      → Gives j m
      → ((a : A) → Gives k (f a))
      → n ≡ j + k
      → Gives n (m >>= f)
  Gives-bind j k n m f first next e rs valid enough =
      let (a, rs₁, made, valid₁, size₁) = first rs valid (omega arith) in
      let (b, rs₂, made₂, valid₂, size₂) = next a rs₁ valid₁ (omega arith) in
      (b, rs₂, rw (made, ◌>>=◌, made₂) refl, valid₂, omega arith)

pub Gives-give : {A : Type 0} (a : A) → Gives 0 (give a)
Gives-give a rs valid enough = (a, rs, refl, valid, omega arith)

Gives-random_byte : Gives 1 random_byte
Gives-random_byte [] valid enough = absurd (omega arith)
Gives-random_byte (r ∷ rs) (v, valid) enough = (r % 256, rs, refl, valid, omega arith)

Gives-first_byte : Gives 1 first_byte
unfolding first_byte
Gives-first_byte [] valid enough = absurd (omega arith)
Gives-first_byte (r ∷ rs) (v, valid) enough = (r % 256, rs, rw v refl, valid, omega arith)

Gives-make_random_mac : (n : ℕ) → Gives n (make_random_mac n)
unfolding make_random_mac
Gives-make_random_mac zero = Gives-give []
Gives-make_random_mac (suc n) =
    Gives-bind 1 n (suc n) random_byte _ Gives-random_byte
      (λ b.
        Gives-bind n 0 n (make_random_mac n) _ (Gives-make_random_mac n) (λ bs. Gives-give _)
          (omega arith))
      (omega arith)

Gives-make_random_ip : Gives 4 make_random_ip
unfolding make_random_ip
Gives-make_random_ip =
    let byte = Gives-random_byte in
    Gives-bind 1 3 4 first_byte _ Gives-first_byte
      (λ a.
        Gives-bind 1 2 3 random_byte _ byte
          (λ b.
            Gives-bind 1 1 2 random_byte _ byte
              (λ c. Gives-bind 1 0 1 random_byte _ byte (λ d. Gives-give _) refl) refl)
          refl)
      refl

-- How many numbers an entry takes.
abbrev pub per_entry : ℕ
per_entry = 10

pub Gives-make_entry : (latest : ℕ) → Gives per_entry (make_entry latest)
unfolding make_entry
Gives-make_entry latest =
    Gives-bind 4 6 10 make_random_ip _ Gives-make_random_ip
      (λ i.
        Gives-bind 6 0 6 (make_random_mac 6) _ (Gives-make_random_mac 6) (λ m. Gives-give _) refl)
      refl

Gives-fill :
    (n : ℕ) (filled : List ArpEntry) (latest : ℕ) → Gives (per_entry * n) (fill n filled latest)
unfolding fill
Gives-fill zero filled latest = Gives-give _
Gives-fill (suc n) filled latest =
    Gives-bind 10 (10 * n) (10 * suc n) (make_entry latest) _ (Gives-make_entry latest)
      (λ e. Gives-fill n (e ∷ filled) (latest + 1)) (omega arith)

module _ (by_age by_ip : List ArpEntry → List ArpEntry) where
  Gives-generate_arp :
      (num latest : ℕ)
      → Gives (per_entry * min num max_table) (generate_arp by_age by_ip num latest)
  unfolding generate_arp
  Gives-generate_arp num latest =
      let n = per_entry * min num max_table in
      Gives-bind n 0 n (fill (min num max_table) [] latest) _
        (Gives-fill (min num max_table) [] latest) (λ t. Gives-give _) (omega arith)

  pub Gives-replace1 : (t : ArpTable) → Gives per_entry (replace1 by_age by_ip t)
  unfolding replace1
  Gives-replace1 t =
      Gives-bind 10 0 10 (make_entry t.latest) _ (Gives-make_entry t.latest) (λ e. Gives-give _)
        refl

  Gives-replacements :
      (rep : ℕ) (t : ArpTable) → Gives (per_entry * rep) (replacements by_age by_ip rep t)
  unfolding replacements
  Gives-replacements zero t = Gives-give _
  Gives-replacements (suc rep) t =
      Gives-bind 10 (10 * rep) (10 * suc rep) (replace1 by_age by_ip t) _ (Gives-replace1 t)
        (λ t'.
          Gives-bind (10 * rep) 0 (10 * rep) (replacements by_age by_ip rep t') _
            (Gives-replacements rep t') (λ r. Gives-give _) (omega arith))
        (omega arith)

  pub Gives-arp_job :
      (search_for : ℕ → List ArpEntry → Option ArpEntry) (number rep : ℕ)
      → Gives
          (per_entry * (min number max_table + rep))
          (arp_job by_age by_ip search_for number rep)
  unfolding arp_job
  Gives-arp_job search_for number rep =
      let n = min number max_table in
      Gives-bind (10 * n) (10 * rep) (10 * (n + rep)) (generate_arp by_age by_ip number 0) _
        (Gives-generate_arp number 0)
        (λ t.
          Gives-bind (10 * rep) 0 (10 * rep) (replacements by_age by_ip rep t) _
            (Gives-replacements rep t) (λ r. Gives-give _) (omega arith))
        (omega arith)
