-- ===== src/Common/Ints.antt =====
-- Arithmetic of C's int on `ℤ`, without its bounds.
use Prim.Native.Nat.{ℕ, ◌+◌, ◌-◌}
use mathlib.Core.Bool.{Bool, true, false}
use in2140_introduksjon_til.Common.{ltb, ◌==◌, if◌then◌else◌}
use in2140_introduksjon_til.Common.Run.{ℤ, pos, negsuc}

-- `x < y`
abbrev pub lt : ℤ → ℤ → Bool
lt (pos a) (pos b) = ltb a b
lt (pos a) (negsuc b) = false
lt (negsuc a) (pos b) = true
lt (negsuc a) (negsuc b) = ltb b a

-- `x == y`
abbrev pub eq : ℤ → ℤ → Bool
eq (pos a) (pos b) = a == b
eq (pos a) (negsuc b) = false
eq (negsuc a) (pos b) = false
eq (negsuc a) (negsuc b) = a == b

abbrev pub difference : ℕ → ℕ → ℤ
difference a b = if ltb a b then negsuc (b - a - 1) else pos (a - b)

infixl 6 ◌+ℤ◌
abbrev pub ◌+ℤ◌ : ℤ → ℤ → ℤ
pos a +ℤ pos b = pos (a + b)
pos a +ℤ negsuc b = difference a (b + 1)
negsuc a +ℤ pos b = difference b (a + 1)
negsuc a +ℤ negsuc b = negsuc (a + b + 1)

infixl 6 ◌-ℤ◌
abbrev pub ◌-ℤ◌ : ℤ → ℤ → ℤ
pos a -ℤ pos b = difference a b
pos a -ℤ negsuc b = pos (a + b + 1)
negsuc a -ℤ pos b = negsuc (a + b)
negsuc a -ℤ negsuc b = difference b a
