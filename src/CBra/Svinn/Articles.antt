-- ===== src/CBra/Svinn/Articles.antt =====
-- CBra/uke9/finnsvinn.c: what the logs say of an article, and what is printed of it.
use in2140_introduksjon_til.Oblig.Directory.Names.{strcmp_eq→eq}
use in2140_introduksjon_til.CBra.Svinn.{
  registered, new_vare, change_vare, legg_til_vare, Vare, LogType, beholdning_log, levering_log,
  salg_log,
}
use in2140_introduksjon_til.Oblig.Inode.{strcmp_eq}
use in2140_introduksjon_til.Oblig.Table.Format.{IsText}
use in2140_introduksjon_til.Common.Ints.{◌+ℤ◌, ◌-ℤ◌}
use in2140_introduksjon_til.Common.Run.{ℤ, pos, Run, ok}
use in2140_introduksjon_til.Common.Words.{Bytes}
use in2140_introduksjon_til.Common.{
  if◌then◌else◌, Bool-cases, length, ℕ, ◌^◌, ◌<◌, ◌≡◌, refl, sym, ap, ◌∙◌, ◌⊎◌, inl, inr, true,
  none, some, List, [], ◌∷◌, ◌++◌, arith,
}

-- One line of a log.
pub record Entry : Type 0 where
  pub navn : Bytes
  pub antall : ℕ

unfoldable pub log_bytes : List Entry → Bytes
log_bytes [] = []
log_bytes (e ∷ es) = e.antall ∷ length e.navn ∷ (e.navn ++ log_bytes es)

-- A number and a length that fit a byte, and a name without a 0.
abbrev pub IsLine : Entry → Type 0
IsLine e = IsText e.navn × (e.antall < 2 ^ 8) × (length e.navn < 2 ^ 8)

abbrev pub AreLines : List Entry → Type 0
AreLines [] = Unit
AreLines (e ∷ es) = IsLine e × AreLines es

-- What is registered in and out, and what is in stock.
abbrev pub Numbers : Type 0
Numbers = ℤ × ℤ

unfoldable pub effect : LogType → ℕ → Numbers → Numbers
effect beholdning_log a (r, b) = (r, pos a)
effect levering_log a (r, b) = (r +ℤ pos a, b)
effect salg_log a (r, b) = (r -ℤ pos a, b)

-- The numbers of all articles of a name, when one more line names it: a first line makes the article.
abbrev pub register : LogType → ℕ → List Numbers → List Numbers
register t a [] = effect t a (pos 0, pos 0) ∷ []
register t a (x ∷ xs) = effect t a x ∷ xs

-- What the lines of a log that name the article make of its numbers.
unfoldable pub effects : Bytes → LogType → List Entry → List Numbers → List Numbers
effects n t [] x = x
effects n t (e ∷ es) x = effects n t es (if strcmp_eq e.navn n then register t e.antall x else x)

-- The numbers of all articles of this name.
unfoldable pub numbers_of : Bytes → List Vare → List Numbers
numbers_of n [] = []
numbers_of n (v ∷ vs) =
    let rest = numbers_of n vs in
    if strcmp_eq v.navn n then (v.registrert_inn_ut, v.beholdning) ∷ rest else rest

abbrev pub missing : Numbers → ℤ
missing (r, b) = r -ℤ b

-- All that is printed with this name.
unfoldable pub printed : Bytes → List (ℤ × Bytes) → List ℤ
printed n [] = []
printed n ((s, m) ∷ rest) =
    let others = printed n rest in if strcmp_eq m n then s ∷ others else others

name_after : (t : LogType) (a : ℕ) (v : Vare) → (registered t a v).navn ≡ v.navn
unfolding registered
name_after beholdning_log a v = refl
name_after levering_log a v = refl
name_after salg_log a v = refl

numbers_after :
    (t : LogType) (a : ℕ) (v : Vare)
    → ((registered t a v).registrert_inn_ut, (registered t a v).beholdning)
      ≡ effect t a (v.registrert_inn_ut, v.beholdning)
unfolding registered effect
numbers_after beholdning_log a v = refl
numbers_after levering_log a v = refl
numbers_after salg_log a v = refl

-- The name that two equal names are compared with does not matter.
same_test : (m k n : Bytes) → strcmp_eq m k ≡ true → strcmp_eq m n ≡ strcmp_eq k n
same_test m k n e = ap (λ x. strcmp_eq x n) (strcmp_eq→eq m k e)

change_vare-numbers_of :
    (navn : Bytes) (a : ℕ) (t : LogType) (vs : List Vare) (n : Bytes)
    → ((change_vare navn a t vs ≡ none) × (strcmp_eq navn n ≡ true → numbers_of n vs ≡ []))
      ⊎ ((vs' : List Vare) × (change_vare navn a t vs ≡ some vs')
          × (numbers_of n vs'
              ≡ (if strcmp_eq navn n then register t a (numbers_of n vs) else numbers_of n vs)))
unfolding change_vare numbers_of
change_vare-numbers_of navn a t [] n = inl (refl, λ e. refl)
change_vare-numbers_of navn a t (v ∷ vs) n = elim (Bool-cases (strcmp_eq v.navn navn)) [
  | inl same ↦ inr (
    registered t a v ∷ vs,
    rw same refl,
    elim (Bool-cases (strcmp_eq navn n)) [
      | inl e ↦
          rw (name_after t a v, e, same_test v.navn navn n same ∙ e)
            (ap (λ x. x ∷ numbers_of n vs) (numbers_after t a v))
      | inr e ↦ rw (name_after t a v, e, same_test v.navn navn n same ∙ e) refl
    ],
  )
  | inr other ↦ elim (change_vare-numbers_of navn a t vs n) [
    | inl (r, fresh) ↦ inl (
      rw (other, r) refl,
      λ e. rw (ap (strcmp_eq v.navn) (sym (strcmp_eq→eq navn n e)) ∙ other) (fresh e),
    )
    | inr (vs', r, numbers) ↦ inr (
      v ∷ vs',
      rw (other, r) refl,
      elim (Bool-cases (strcmp_eq navn n)) [
        | inl e ↦
            rw (e, ap (strcmp_eq v.navn) (sym (strcmp_eq→eq navn n e)) ∙ other) (rw e at numbers)
        | inr e ↦ elim (Bool-cases (strcmp_eq v.navn n)) [
          | inl f ↦
              rw (e, f) (ap (λ xs. (v.registrert_inn_ut, v.beholdning) ∷ xs) (rw e at numbers))
          | inr f ↦ rw (e, f) (rw e at numbers)
        ]
      ],
    )
  ]
]

new_vare-numbers :
    (navn : Bytes) (a : ℕ) (t : LogType)
    → ((new_vare navn a t).registrert_inn_ut, (new_vare navn a t).beholdning)
      ≡ effect t a (pos 0, pos 0)
unfolding new_vare effect
new_vare-numbers navn a beholdning_log = refl
new_vare-numbers navn a levering_log = ap (λ k. (pos k, pos 0)) (omega arith)
new_vare-numbers navn a salg_log = refl

new_vare-name : (navn : Bytes) (a : ℕ) (t : LogType) → (new_vare navn a t).navn ≡ navn
unfolding new_vare
new_vare-name navn a beholdning_log = refl
new_vare-name navn a levering_log = refl
new_vare-name navn a salg_log = refl

-- With memory, the numbers of the named article change and no others do.
abbrev pub Registers : Bytes → ℕ → LogType → List Vare → Run (List Vare) → Bytes → Type 0
Registers navn a t vs o n =
    (vs' : List Vare) × (o ≡ ok vs')
    × (numbers_of n vs'
        ≡ (if strcmp_eq navn n then register t a (numbers_of n vs) else numbers_of n vs))

pub legg_til_vare-Registers :
    (navn : Bytes) (a : ℕ) (t : LogType) (vs : List Vare) (n : Bytes)
    → Registers navn a t vs (legg_til_vare true navn a t vs) n
unfolding legg_til_vare numbers_of
legg_til_vare-Registers navn a t vs n = elim (change_vare-numbers_of navn a t vs n) [
  | inr (vs', r, numbers) ↦ (vs', rw (r, legg_til_vare) refl, numbers)
  | inl (r, fresh) ↦ (
    new_vare navn a t ∷ vs,
    rw (r, legg_til_vare) refl,
    elim (Bool-cases (strcmp_eq navn n)) [
      | inl e ↦
          rw (new_vare-name navn a t, e, fresh e) (ap (λ x. x ∷ []) (new_vare-numbers navn a t))
      | inr e ↦ rw (new_vare-name navn a t, e) refl
    ],
  )
]
