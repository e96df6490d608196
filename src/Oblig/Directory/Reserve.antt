-- ===== src/Oblig/Directory/Reserve.antt =====
-- oblig/inode.c: the loops that take blocks and give them back, over any block store.
use in2140_introduksjon_til.Common.{
  ◌==◌, if◌then◌else◌, ==_self, ==_eq, Bool-cases, length, ℕ, zero, suc, ◌<◌, ◌≡◌, refl, sym, ap,
  ◌∙◌, ◌⊎◌, inl, inr, Bool, true, false, ◌||◌, none, some, List, [], ◌∷◌, ◌++◌, append-nil,
  append_assoc, arith,
}
use in2140_introduksjon_til.Common.Run.{ok}
use in2140_introduksjon_til.Oblig.Blocks.{BlockStore}
use in2140_introduksjon_til.Oblig.Directory.{free_blocks, reserve}

abbrev pub has : ℕ → List ℕ → Bool
has c [] = false
has c (b ∷ bs) = c == b || has c bs

-- No block stands twice in the list.
abbrev pub Distinct : List ℕ → Type 0
Distinct [] = Unit
Distinct (b ∷ bs) = (has b bs ≡ false) × Distinct bs

has-append : (c : ℕ) (xs ys : List ℕ) → has c (xs ++ ys) ≡ (has c xs || has c ys)
has-append c [] ys = refl
has-append c (x ∷ xs) ys = ground (arith, has-append c xs ys)

Distinct-snoc : (xs : List ℕ) (b : ℕ) → Distinct xs → has b xs ≡ false → Distinct (xs ++ (b ∷ []))
Distinct-snoc [] b d h = (refl, tt)
Distinct-snoc (x ∷ xs) b d h =
    (rw (has-append x xs (b ∷ [])) (ground (arith, d.0)), Distinct-snoc xs b d.1 (ground arith))

module _ (B : BlockStore) where
  open B use {Store, IsSound, used, allocate, free, allocate_cases, free_used}

  abbrev pub AllUsed : List ℕ → Store → Type 0
  AllUsed bs s = (c : ℕ) → has c bs ≡ true → used s c ≡ true

  -- From `s` to `s'` the blocks of `bs`, and no others, went out of use.
  abbrev pub Freed : List ℕ → Store → Store → Type 0
  Freed bs s s' = (c : ℕ) → used s' c ≡ (if has c bs then false else used s c)

  -- From `s` to `s'` the blocks of `bs`, which were unused, and no others came into use.
  pub record Taken (bs : List ℕ) (s s' : Store) : Type 0 where
    pub distinct : Distinct bs
    pub fresh : (c : ℕ) → has c bs ≡ true → used s c ≡ false
    pub now : (c : ℕ) → used s' c ≡ (has c bs || used s c)

module _ (B : BlockStore) where
  open B use {Store, IsSound, used, allocate, free, capacity, allocate_cases, free_used}

  still_used :
      (b : ℕ) (bs : List ℕ) (s s' : Store)
      → has b bs ≡ false
      → AllUsed B (b ∷ bs) s
      → ((c : ℕ) → used s' c ≡ (if c == b then false else used s c))
      → AllUsed B bs s'
  still_used b bs s s' out all one c h = elim (Bool-cases (c == b)) [
    | inl e ↦ cc (out, h, ap (λ a. has a bs) (==_eq c b e))
    | inr e ↦ one c ∙ (rw e (all c (rw e h)))
  ]

  Freed-cons :
      (b : ℕ) (bs : List ℕ) (s s₁ s₂ : Store)
      → ((c : ℕ) → used s₁ c ≡ (if c == b then false else used s c))
      → Freed B bs s₁ s₂
      → Freed B (b ∷ bs) s s₂
  Freed-cons b bs s s₁ s₂ one others c = elim (Bool-cases (c == b)) [
    | inl e ↦ others c ∙ ground (arith, one c, e)
    | inr e ↦ others c ∙ ground (arith, one c, e)
  ]

  -- Giving back distinct blocks in use frees them and no others.
  pub free_blocks-Freed :
      (bs : List ℕ) (s : Store)
      → IsSound s
      → Distinct bs
      → AllUsed B bs s
      → (s' : Store) × (free_blocks B bs s ≡ ok s') × IsSound s' × Freed B bs s s'
  unfolding free_blocks
  free_blocks-Freed [] s ok_s d all = (s, refl, ok_s, λ c. refl)
  free_blocks-Freed (b ∷ bs) s ok_s d all =
      let (s₁, freed, sound₁, one) = free_used s b ok_s (all b (rw (==_self b))) in
      let (s₂, rest, sound₂, others) =
        free_blocks-Freed bs s₁ sound₁ d.1 (still_used b bs s s₁ d.0 all one) in
      (s₂, rw (freed, rest), sound₂, Freed-cons b bs s s₁ s₂ one others)

  snoc_used :
      (taken : List ℕ) (b : ℕ) (s s' : Store)
      → AllUsed B taken s
      → ((c : ℕ) → used s' c ≡ (if c == b then true else used s c))
      → AllUsed B (taken ++ (b ∷ [])) s'
  snoc_used taken b s s' all one c h = one c ∙ ground (arith, has-append c taken (b ∷ []), all c, h)

  not-has_of_unused :
      (taken : List ℕ) (b : ℕ) (s : Store)
      → AllUsed B taken s
      → used s b ≡ false
      → has b taken ≡ false
  not-has_of_unused taken b s all un = ground (arith, all b, un)

  Taken-cons :
      (b : ℕ) (bs : List ℕ) (s s₁ s₂ : Store)
      → used s b ≡ false
      → ((c : ℕ) → used s₁ c ≡ (if c == b then true else used s c))
      → Taken B bs s₁ s₂
      → Taken B (b ∷ bs) s s₂
  Taken-cons b bs s s₁ s₂ un one t = record {
    distinct = (ground (arith, t.fresh b, one b), t.distinct);
    fresh = λ c h. elim (Bool-cases (c == b)) [
      | inl e ↦ rw (==_eq c b e) un
      | inr e ↦ ground (arith, one c, t.fresh c, h, e)
    ];
    now = λ c. t.now c ∙ ground (arith, one c);
  }

  -- Fewer than `k` blocks are unused: a shorter list holds all of them.
  abbrev pub TooFew : ℕ → Store → Type 0
  TooFew k s =
      (unused : List ℕ) × (length unused < k)
      × ((c : ℕ) → c < capacity → (used s c ≡ true) ⊎ (has c unused ≡ true))

module _ (B : BlockStore) where
  open B use {Store, IsSound, used, allocate, free, capacity, allocate_cases, free_used}

  TooFew-suc :
      (k b : ℕ) (s s₁ : Store)
      → ((c : ℕ) → used s₁ c ≡ (if c == b then true else used s c))
      → TooFew B k s₁
      → TooFew B (suc k) s
  TooFew-suc k b s s₁ one (unused, short, all) = (
    b ∷ unused,
    omega arith,
    λ c h. elim (Bool-cases (c == b)) [
      | inl e ↦ inr (ground (arith, e))
      | inr e ↦ elim (all c h) [
        | inl u ↦ inl (sym (one c ∙ rw e) ∙ u)
        | inr i ↦ inr (ground (arith, i))
      ]
    ],
  )

  -- What the loop does from a sound store in which the blocks taken so far are distinct and in use:
  -- it takes `k` more, or, with fewer than `k` unused, it gives all of `taken` back and nothing else
  -- has changed.
  abbrev pub ReserveResult : ℕ → List ℕ → Store → Type 0
  ReserveResult k taken s =
      ((bs : List ℕ) × (s' : Store) × (reserve B k taken s ≡ ok (some (taken ++ bs), s'))
        × IsSound s'
        × (length bs ≡ k)
        × Taken B bs s s')
      ⊎ ((s' : Store) × (reserve B k taken s ≡ ok (none, s'))
          × IsSound s'
          × Freed B taken s s'
          × TooFew B k s)

  Freed-snoc :
      (taken : List ℕ) (b : ℕ) (s s₁ s₂ : Store)
      → used s b ≡ false
      → ((c : ℕ) → used s₁ c ≡ (if c == b then true else used s c))
      → Freed B (taken ++ (b ∷ [])) s₁ s₂
      → Freed B taken s s₂
  Freed-snoc taken b s s₁ s₂ un one freed c = elim (Bool-cases (c == b)) [
    | inl e ↦
        freed c
        ∙ ground (arith, has-append c taken (b ∷ []), e, ap (used s) (==_eq c b e), un, one c)
    | inr e ↦ freed c ∙ ground (arith, has-append c taken (b ∷ []), one c, e)
  ]

  pub reserve_cases :
      (k : ℕ) (taken : List ℕ) (s : Store)
      → IsSound s
      → Distinct taken
      → AllUsed B taken s
      → ReserveResult k taken s
  unfolding reserve
  reserve_cases zero taken s sound d all = inl (
    [],
    s,
    ap (λ t. ok (some t, s)) (sym (append-nil taken)),
    sound,
    refl,
    record { distinct = tt; fresh = λ c h. cc; now = λ c. refl },
  )
  reserve_cases (suc k) taken s sound d all = elim (allocate_cases s sound) [
    | inr (full, all_taken) ↦
        let (s₁, freed, sound₁, back) = free_blocks-Freed B taken s sound d all in
        inr (s₁, rw (full, freed), sound₁, back, ([], omega arith, λ c h. inl (all_taken c h)))
    | inl (b, s₁, got, sound₁, un, one) ↦
        elim (reserve_cases k (taken ++ (b ∷ [])) s₁ sound₁
          (Distinct-snoc taken b d (not-has_of_unused B taken b s all un))
          (snoc_used B taken b s s₁ all one)) [
            | inl (bs, s₂, more, sound₂, size, t) ↦ inl (
              b ∷ bs,
              s₂,
              rw got (more ∙ ap (λ l. ok (some l, s₂)) (append_assoc taken (b ∷ []) bs)),
              sound₂,
              ap suc size,
              Taken-cons B b bs s s₁ s₂ un one t,
            )
            | inr (s₂, failed, sound₂, back, few) ↦ inr (
              s₂,
              rw got failed,
              sound₂,
              Freed-snoc taken b s s₁ s₂ un one back,
              TooFew-suc k b s s₁ one few,
            )
          ]
  ]
