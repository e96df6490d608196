-- ===== src/CBra/Svinn/Range.antt =====
-- CBra/uke9/finnsvinn.c: how large the numbers of an article become.
use in2140_introduksjon_til.CBra.Svinn.{LogType, beholdning_log, levering_log, salg_log}
use in2140_introduksjon_til.CBra.Svinn.Articles.{
  AreLines, Numbers, effect, register, effects, missing, Entry,
}
use in2140_introduksjon_til.Oblig.Inode.{strcmp_eq}
use in2140_introduksjon_til.Common.Ints.{difference, ◌+ℤ◌, ◌-ℤ◌}
use in2140_introduksjon_til.Common.Run.{ℤ, pos, negsuc}
use in2140_introduksjon_til.Common.Words.{Bytes}
use in2140_introduksjon_til.Common.{
  ltb, Bool-cases, length, All, ℕ, ◌+◌, ◌*◌, ◌^◌, ◌≤◌, ◌<◌, inl, inr, List, [], ◌∷◌, map, arith,
}

-- The distance of an int from 0.
abbrev pub magnitude : ℤ → ℕ
magnitude (pos n) = n
magnitude (negsuc n) = n + 1

abbrev pub IsInt : ℤ → Type 0
IsInt z = magnitude z < 2 ^ 31

-- The numbers after `k` lines.
abbrev pub Within : ℕ → Numbers → Type 0
Within k (r, b) = (magnitude r ≤ 255 * k) × (magnitude b ≤ 255)

magnitude-difference : (a b : ℕ) → magnitude (difference a b) ≤ a + b
magnitude-difference a b = elim (Bool-cases (ltb a b)) [
  | inl e ↦ rw e (ground arith)
  | inr e ↦ rw e (omega arith)
]

magnitude-add : (r : ℤ) (a : ℕ) → magnitude (r +ℤ pos a) ≤ magnitude r + a
magnitude-add (pos n) a = omega arith
magnitude-add (negsuc n) a = omega (arith, magnitude-difference a (n + 1))

magnitude-subtract : (r b : ℤ) → magnitude (r -ℤ b) ≤ magnitude r + magnitude b
magnitude-subtract (pos n) (pos a) = magnitude-difference n a
magnitude-subtract (pos n) (negsuc a) = omega arith
magnitude-subtract (negsuc n) (pos a) = omega arith
magnitude-subtract (negsuc n) (negsuc a) = omega (arith, magnitude-difference a n)

effect-Within :
    (t : LogType) (a k : ℕ) (x : Numbers) → a < 2 ^ 8 → Within k x → Within (k + 1) (effect t a x)
unfolding effect
effect-Within beholdning_log a k (r, b) byte (hr, hb) = (omega arith, omega arith)
effect-Within levering_log a k (r, b) byte (hr, hb) = (omega (arith, magnitude-add r a), hb)
effect-Within salg_log a k (r, b) byte (hr, hb) = (omega (arith, magnitude-subtract r (pos a)), hb)

All-Within : (k m : ℕ) (xs : List Numbers) → k ≤ m → All (Within k) xs → All (Within m) xs
All-Within k m [] more h = tt
All-Within k m ((r, b) ∷ xs) more ((hr, hb), h) = ((omega arith, hb), All-Within k m xs more h)

register-Within :
    (t : LogType) (a k : ℕ) (xs : List Numbers)
    → a < 2 ^ 8
    → All (Within k) xs
    → All (Within (k + 1)) (register t a xs)
register-Within t a k [] byte h =
    (effect-Within t a k (pos 0, pos 0) byte (omega arith, omega arith), tt)
register-Within t a k (x ∷ xs) byte (here, h) =
    (effect-Within t a k x byte here, All-Within k (k + 1) xs (omega arith) h)

pub effects-Within :
    (n : Bytes) (t : LogType) (es : List Entry) (xs : List Numbers) (k : ℕ)
    → AreLines es
    → All (Within k) xs
    → All (Within (k + length es)) (effects n t es xs)
unfolding effects
effects-Within n t [] xs k lines h = All-Within k (k + 0) xs (omega arith) h
effects-Within n t (e ∷ es) xs k ((text, byte, short), lines) h =
    All-Within (k + 1 + length es) (k + length (e ∷ es)) _ (omega arith) (
      effects-Within n t es _ (k + 1) lines (elim (Bool-cases (strcmp_eq e.navn n)) [
        | inl same ↦ rw same (register-Within t e.antall k xs byte h)
        | inr other ↦ rw other (All-Within k (k + 1) xs (omega arith) h)
      ]))

pub missing-IsInt :
    (xs : List Numbers) (k : ℕ) → k < 2 ^ 22 → All (Within k) xs → All IsInt (map missing xs)
missing-IsInt [] k few h = tt
missing-IsInt ((r, b) ∷ xs) k few ((hr, hb), h) =
    (omega (arith, magnitude-subtract r b), missing-IsInt xs k few h)
