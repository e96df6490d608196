-- ===== src/CBra/Svinn/Logs.antt =====
-- CBra/uke9/finnsvinn.c: what is read of the logs, and what the program prints.
use in2140_introduksjon_til.CBra.Svinn.Range.{IsInt, effects-Within, missing-IsInt}
use in2140_introduksjon_til.CBra.Svinn.Articles.{
  log_bytes, AreLines, effects, numbers_of, missing, printed, legg_til_vare-Registers, Entry,
}
use in2140_introduksjon_til.Oblig.Table.{c_string}
use in2140_introduksjon_til.CBra.Svinn.{
  les_entries, les_log, svinn, find_svinn, Vare, LogType, beholdning_log, levering_log, salg_log,
}
use in2140_introduksjon_til.Oblig.Inode.{strcmp_eq}
use in2140_introduksjon_til.Oblig.Table.Format.{IsText}
use in2140_introduksjon_til.Common.Run.{ℤ, ok}
use in2140_introduksjon_til.Common.Words.{Bytes}
use in2140_introduksjon_til.Common.{
  ltb, le→ltb, ==_ne, Bool-cases, length, take, drop, All, length-append, length-drop_le,
  take-append, drop-append, ℕ, zero, suc, ◌+◌, ◌^◌, ◌≤◌, ◌<◌, ◌≡◌, refl, sym, ap, ◌∙◌, subst, inl,
  inr, true, false, some, List, [], ◌∷◌, ◌++◌, map, arith,
}

c_string_text : (n : Bytes) → IsText n → c_string n ≡ n
unfolding c_string
c_string_text [] t = refl
c_string_text (b ∷ n) t =
    rw (==_ne b 0 (λ e. omega (arith, t.0))) (ap (λ m. b ∷ m) (c_string_text n t.1))

les_entries-log_bytes :
    (fuel : ℕ) (es : List Entry) (t : LogType) (vs : List Vare) (n : Bytes)
    → length es ≤ fuel
    → AreLines es
    → (vs' : List Vare) × (les_entries fuel true (log_bytes es) t vs ≡ ok vs')
      × (numbers_of n vs' ≡ effects n t es (numbers_of n vs))
unfolding les_entries log_bytes effects
les_entries-log_bytes fuel [] t vs n h texts = (vs, refl, refl)
les_entries-log_bytes zero (e ∷ es) t vs n h texts = absurd (omega arith)
les_entries-log_bytes (suc fuel) (e ∷ es) t vs n h ((text, byte, short), texts) =
    let (vs', r, numbers) = legg_til_vare-Registers e.navn e.antall t vs n in
    let (vs'', r', numbers') = les_entries-log_bytes fuel es t vs' n (omega arith) texts in
    let long : ltb (length (e.navn ++ log_bytes es)) (length e.navn) ≡ false =
      le→ltb _ _ (omega (arith, length-append e.navn (log_bytes es))) in
    (
      vs'',
      rw
          (
            long,
            take-append (length e.navn) e.navn (log_bytes es) refl,
            drop-append (length e.navn) e.navn (log_bytes es) refl,
            c_string_text e.navn text,
            r,
          )
          r',
      numbers' ∙ ap (effects n t es) numbers,
    )

length-log_bytes : (es : List Entry) → length es ≤ length (log_bytes es)
unfolding log_bytes
length-log_bytes [] = omega arith
length-log_bytes (e ∷ es) = omega (arith, length-log_bytes es, length-append e.navn (log_bytes es))

printed-map :
    (n : Bytes) (vs : List Vare)
    → printed n (map (λ v. (svinn v, v.navn)) vs) ≡ map missing (numbers_of n vs)
unfolding printed svinn numbers_of
printed-map n [] = refl
printed-map n (v ∷ vs) = elim (Bool-cases (strcmp_eq v.navn n)) [
  | inl e ↦ rw e (ap (λ xs. svinn v ∷ xs) (printed-map n vs))
  | inr e ↦ rw e (printed-map n vs)
]

-- With memory, and three logs of lines with a byte for the number, a name without a 0 and of less than
-- 256 bytes, less than 2^22 in all:
-- the program ends and prints, with a name that is in one of the logs, once what was delivered less
-- what was sold, line by line, less the last stock of it; with a name in no log it prints nothing.
-- What it prints is an int.
pub find_svinn_lem :
    (salg levering beholdning : List Entry) (n : Bytes)
    → AreLines salg
    → AreLines levering
    → AreLines beholdning
    → length salg + length levering + length beholdning < 2 ^ 22
    → (out : List (ℤ × Bytes)) × (find_svinn true
          (some (log_bytes salg))
          (some (log_bytes levering))
          (some (log_bytes beholdning))
        ≡ ok out)
      × (printed n out
          ≡ map missing (
              effects n beholdning_log beholdning
                (effects n levering_log levering (effects n salg_log salg []))))
      × All IsInt (printed n out)
unfolding find_svinn les_log numbers_of
find_svinn_lem salg levering beholdning n s l b few =
    let (v₁, r₁, e₁) =
      les_entries-log_bytes (length (log_bytes salg)) salg salg_log [] n (length-log_bytes salg)
        s in
    let (v₂, r₂, e₂) =
      les_entries-log_bytes (length (log_bytes levering)) levering levering_log v₁ n
        (length-log_bytes levering) l in
    let (v₃, r₃, e₃) =
      les_entries-log_bytes (length (log_bytes beholdning)) beholdning beholdning_log v₂ n
        (length-log_bytes beholdning) b in
    let same =
      printed-map n v₃
      ∙ ap (map missing) (
          e₃
          ∙ ap (effects n beholdning_log beholdning)
              (e₂ ∙ ap (effects n levering_log levering) e₁)) in
    let small = effects-Within n beholdning_log beholdning _ (0 + length salg + length levering) b (
      effects-Within n levering_log levering _ (0 + length salg) l
        (effects-Within n salg_log salg [] 0 s tt)) in
    (
      map (λ v. (svinn v, v.navn)) v₃,
      rw (r₁, r₂, r₃) refl,
      same,
      subst (All IsInt) (sym same) (missing-IsInt _ _ (omega arith) small),
    )

-- With memory, `les_log` ends on every file that can be opened: the fuel does not run out.
les_entries_ends :
    (fuel : ℕ) (fil : Bytes) (t : LogType) (vs : List Vare)
    → length fil ≤ fuel
    → (vs' : List Vare) × (les_entries fuel true fil t vs ≡ ok vs')
unfolding les_entries
les_entries_ends fuel [] t vs h = (vs, refl)
les_entries_ends fuel (a ∷ []) t vs h = (vs, refl)
les_entries_ends zero (a ∷ k ∷ fil) t vs h = absurd (omega arith)
les_entries_ends (suc fuel) (a ∷ k ∷ fil) t vs h = elim (Bool-cases (ltb (length fil) k)) [
  | inl e ↦ (vs, rw e refl)
  | inr e ↦
      let (vs', r, _) = legg_til_vare-Registers (c_string (take k fil)) a t vs [] in
      let (vs'', r') =
        les_entries_ends fuel (drop k fil) t vs' (omega (arith, length-drop_le k fil)) in
      (vs'', rw (e, r) r')
]

-- With memory, the program ends on all files that can be opened, whatever they hold.
find_svinn_ends :
    (salg levering beholdning : Bytes)
    → (out : List (ℤ × Bytes)) × (find_svinn true (some salg) (some levering) (some beholdning)
        ≡ ok out)
unfolding find_svinn les_log
find_svinn_ends salg levering beholdning =
    let (v₁, r₁) = les_entries_ends (length salg) salg salg_log [] (omega arith) in
    let (v₂, r₂) = les_entries_ends (length levering) levering levering_log v₁ (omega arith) in
    let (v₃, r₃) =
      les_entries_ends (length beholdning) beholdning beholdning_log v₂ (omega arith) in
    (map (λ v. (svinn v, v.navn)) v₃, rw (r₁, r₂, r₃) refl)
