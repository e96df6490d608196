-- ===== src/Plenum/FirstFit/Draw.antt =====
-- plenum/uke8/sl_list.c: what `list_draw` draws of a sorted list of free ranges.
use in2140_introduksjon_til.Common.Run.{pos}
use in2140_introduksjon_til.Common.{
  ltb, Bool-cases, get_elem?, replicate, All, ℕ, zero, suc, ◌+◌, ◌-◌, ◌≤◌, ◌<◌, ◌≡◌, refl, sym, ap,
  ◌∙◌, inl, inr, Bool, true, false, ◌||◌, some, List, [], ◌∷◌, ◌++◌, append-nil, arith,
}
use in2140_introduksjon_til.Plenum.FirstFit.{draw_from, list_draw}
use in2140_introduksjon_til.Plenum.FirstFit.Merge.{
  Range, ranges, inside, covers, Separated, Separated-below,
}

get_elem?-first :
    (n y : ℕ) (a : Bool) (ys : List Bool) → y < n → get_elem? (replicate n a ++ ys) y ≡ some a
get_elem?-first zero y a ys h = absurd (omega arith)
get_elem?-first (suc n) zero a ys h = refl
get_elem?-first (suc n) (suc y) a ys h = get_elem?-first n y a ys (omega arith)

get_elem?-behind :
    (n y : ℕ) (a : Bool) (ys : List Bool) → get_elem? (replicate n a ++ ys) (n + y) ≡ get_elem? ys y
get_elem?-behind zero y a ys = ap (get_elem? ys) (omega arith)
get_elem?-behind (suc n) y a ys =
    ap (get_elem? (a ∷ (replicate n a ++ ys))) {y = suc (n + y)} (omega arith)
    ∙ get_elem?-behind n y a ys

covers_below : (lo x : ℕ) (rs : List Range) → Separated lo rs → x < lo → covers rs x ≡ false
unfolding Separated covers
covers_below lo x [] sep h = refl
covers_below lo x ((s, n) ∷ rs) (l, p, more) h =
    let outside : inside s n x ≡ false = ground arith in
    rw (outside, covers_below (suc (s + n)) x rs more (omega arith))

draw_from-covers :
    (i : ℕ) (rs : List Range) (limit y : ℕ)
    → Separated i rs
    → All (λ r. r.0 + r.1 ≤ limit) rs
    → i + y < limit
    → get_elem? (draw_from i (ranges rs) (pos limit)) y ≡ some (covers rs (i + y))
unfolding draw_from ranges Separated covers
draw_from-covers i [] limit y sep within h =
    ap (λ xs. get_elem? xs y) (sym (append-nil (replicate (limit - i) false)))
    ∙ get_elem?-first (limit - i) y false [] (omega arith)
draw_from-covers i ((s, n) ∷ rs) limit y (l, p, more) (w, ws) h =
    let used = s - i in
    let free = s + n - (i + used) in
    let x = i + y in
    elim (Bool-cases (ltb y used)) [
      | inl before ↦
          let outside : inside s n x ≡ false = ground arith in
          let cell : (inside s n x || covers rs x) ≡ false =
            rw (outside, covers_below (suc (s + n)) x rs more (ground arith)) in
          get_elem?-first used y false _ (ground arith) ∙ ap some (sym cell)
      | inr reached ↦
          let z = y - used in
          let split : y ≡ used + z = ground arith in
          ap (get_elem? _) split
          ∙ get_elem?-behind used z false _
          ∙ elim (Bool-cases (ltb z free)) [
            | inl free_place ↦
                let cell : inside s n x ≡ true = ground arith in
                get_elem?-first free z true _ (ground arith) ∙ ap some (sym (rw cell))
            | inr behind ↦
                let rest = z - free in
                let split' : z ≡ free + rest = ground arith in
                let outside : inside s n x ≡ false = ground arith in
                let place : i + used + free + rest ≡ x = ground arith in
                ap (get_elem? _) split'
                ∙ get_elem?-behind free rest true _
                ∙ draw_from-covers (i + used + free) rs limit rest
                    (Separated-below _ _ rs (omega arith) more) ws (omega (arith, place))
                ∙ ap some (ap (covers rs) place ∙ sym (rw outside))
          ]
    ]

-- `list_draw` of a sorted list of free ranges, none empty and no two adjacent, that end at the limit
-- or below: the place `x` below the limit is drawn as a dot where the list covers it, and as an X
-- where it does not.
pub list_draw-covers :
    (rs : List Range) (limit x : ℕ)
    → Separated 0 rs
    → All (λ r. r.0 + r.1 ≤ limit) rs
    → x < limit
    → get_elem? (list_draw (ranges rs) (pos limit)) x ≡ some (covers rs x)
unfolding list_draw
list_draw-covers rs limit x sep within h =
    draw_from-covers 0 rs limit x sep within (omega arith)
    ∙ ap (λ n. some (covers rs n)) (omega arith)
