-- ===== src/CBra/Svinn.antt =====
-- CBra/uke9/finnsvinn.c: an inventory that is read from three logs, and what is missing of each
-- article. `int` is `ℤ`: Range bounds the numbers.
pub mod Articles
pub mod Logs
pub mod Range
use in2140_introduksjon_til.Oblig.Inode.{strcmp_eq}
use in2140_introduksjon_til.Oblig.Table.{c_string}
use in2140_introduksjon_til.Common.Ints.{◌+ℤ◌, ◌-ℤ◌}
use in2140_introduksjon_til.Common.Run.{◌>>=◌, ℤ, pos, Run, exited, ok}
use in2140_introduksjon_til.Common.Words.{Bytes}
use in2140_introduksjon_til.Common.{
  ltb, if◌then◌else◌, length, take, drop, ℕ, zero, suc, Bool, Option, none, some, List, [], ◌∷◌,
  map,
}

pub record Vare : Type 0 where
  pub beholdning : ℤ
  pub registrert_inn_ut : ℤ
  pub navn : Bytes

pub data LogType : Type 0 where
  beholdning_log levering_log salg_log : LogType

-- The `switch` of `legg_til_vare`.
unfoldable pub registered : LogType → ℕ → Vare → Vare
registered beholdning_log antall v = record v { beholdning = pos antall }
registered levering_log antall v = record v {
  registrert_inn_ut = v.registrert_inn_ut +ℤ pos antall;
}
registered salg_log antall v = record v { registrert_inn_ut = v.registrert_inn_ut -ℤ pos antall }

-- The article that `lag_vare` puts in front of the list.
unfoldable pub new_vare : Bytes → ℕ → LogType → Vare
new_vare navn antall beholdning_log = record {
  beholdning = pos antall;
  registrert_inn_ut = pos 0;
  navn = navn;
}
new_vare navn antall levering_log = record {
  beholdning = pos 0;
  registrert_inn_ut = pos antall;
  navn = navn;
}
new_vare navn antall salg_log = record {
  beholdning = pos 0;
  registrert_inn_ut = pos 0 -ℤ pos antall;
  navn = navn;
}

-- The `while` loop of `legg_til_vare`: the list with the first article of this name changed.
unfoldable pub change_vare : Bytes → ℕ → LogType → List Vare → Option (List Vare)
change_vare navn antall t [] = none
change_vare navn antall t (v ∷ vs) =
    let rest = change_vare navn antall t vs in
    if strcmp_eq v.navn navn
    then some (registered t antall v ∷ vs)
    else elim rest [ none ↦ none | some vs' ↦ some (v ∷ vs') ]

-- `memory`: whether `malloc` and `strdup` return memory
unfoldable pub legg_til_vare : Bool → Bytes → ℕ → LogType → List Vare → Run (List Vare)
legg_til_vare memory navn antall t varer = elim (change_vare navn antall t varer) [
  | some varer' ↦ ok varer'
  | none ↦ if memory then ok (new_vare navn antall t ∷ varer) else exited
]

-- The loop of `les_log`, on fuel for its rounds: what is read of a file that breaks off is used as far
-- as it goes. `exited` without fuel is no outcome of the code.
unfoldable pub les_entries : ℕ → Bool → Bytes → LogType → List Vare → Run (List Vare)
les_entries fuel memory [] t varer = ok varer
les_entries fuel memory (antall ∷ []) t varer = ok varer
les_entries zero memory (antall ∷ navn_len ∷ fil) t varer = exited
les_entries (suc fuel) memory (antall ∷ navn_len ∷ fil) t varer =
    if ltb (length fil) navn_len
    then ok varer
    else (legg_til_vare memory (c_string (take navn_len fil)) antall t varer >>= λ varer'.
        les_entries fuel memory (drop navn_len fil) t varer')

-- `les_log`; `none`: the file cannot be opened.
unfoldable pub les_log : Bool → Option Bytes → LogType → List Vare → Run (List Vare)
les_log memory none t varer = exited
les_log memory (some fil) t varer = les_entries (length fil) memory fil t varer

-- What `print_vare` prints.
unfoldable pub svinn : Vare → ℤ
svinn v = v.registrert_inn_ut -ℤ v.beholdning

-- `main` with the three files: what it prints of each article.
unfoldable pub find_svinn :
    Bool → Option Bytes → Option Bytes → Option Bytes → Run (List (ℤ × Bytes))
find_svinn memory salg levering beholdning = les_log memory salg salg_log [] >>= λ varer.
    les_log memory levering levering_log varer >>= λ varer'.
    les_log memory beholdning beholdning_log varer' >>= λ varer''.
    ok (map (λ v. (svinn v, v.navn)) varer'')
