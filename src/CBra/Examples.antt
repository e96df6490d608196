-- ===== src/CBra/Examples.antt =====
-- The theorem about CBra/uke9/ at concrete inputs, and a run of the program.
use in2140_introduksjon_til.CBra.Svinn.Range.{IsInt}
use in2140_introduksjon_til.CBra.Svinn.{
  registered, new_vare, change_vare, legg_til_vare, les_entries, les_log, svinn, find_svinn,
  beholdning_log, levering_log, salg_log,
}
use in2140_introduksjon_til.CBra.Svinn.Articles.{log_bytes, effects, missing, printed, Entry}
use in2140_introduksjon_til.CBra.Svinn.Logs.{find_svinn_lem}
use in2140_introduksjon_til.Oblig.Inode.{strcmp_eq}
use in2140_introduksjon_til.Oblig.Table.{c_string}
use in2140_introduksjon_til.Common.Run.{ℤ, pos, ok}
use in2140_introduksjon_til.Common.Words.{Bytes, codes}
use in2140_introduksjon_til.Common.{All, ℕ, ◌≡◌, refl, true, some, List, [], ◌∷◌, map, arith}

abbrev line : Bytes → ℕ → Entry
line n a = record { navn = n; antall = a }

-- Of milk 20 are delivered and 12 sold, and 5 are in stock.
abbrev sold : List Entry
sold = line (codes "milk") 10 ∷ line (codes "tea") 3 ∷ line (codes "milk") 2 ∷ []

abbrev delivered : List Entry
delivered = line (codes "milk") 20 ∷ line (codes "tea") 4 ∷ []

abbrev in_stock : List Entry
in_stock = line (codes "milk") 5 ∷ line (codes "tea") 1 ∷ []

find_svinn_lem_example :
    (out : List (ℤ × Bytes)) × (find_svinn true
        (some (log_bytes sold))
        (some (log_bytes delivered))
        (some (log_bytes in_stock))
      ≡ ok out)
    × (printed (codes "milk") out
        ≡ map missing (
            effects (codes "milk") beholdning_log in_stock (
              effects
                (codes "milk")
                levering_log
                delivered
                (effects (codes "milk") salg_log sold []))))
    × All IsInt (printed (codes "milk") out)
find_svinn_lem_example =
    find_svinn_lem sold delivered in_stock (codes "milk") (omega arith) (omega arith) (omega arith)
      (omega arith)

test_find_svinn :
    find_svinn true (some (log_bytes sold)) (some (log_bytes delivered)) (some (log_bytes in_stock))
    ≡ ok ((pos 0, codes "tea") ∷ (pos 3, codes "milk") ∷ [])
unfolding find_svinn les_log les_entries legg_til_vare change_vare registered new_vare svinn
    strcmp_eq c_string log_bytes
test_find_svinn = refl
