-- ===== src/Common/Run.antt =====
-- How a C function ends: it returns a value, or the process exits. `int` results are `ℤ`, where
-- `negsuc n` is -(n + 1).
use Prim.Native.Nat.{ℕ}

pub data ℤ : Type 0 where
  pos : ℕ → ℤ
  negsuc : ℕ → ℤ

-- the -1 that the code returns on failure
abbrev pub failure : ℤ
failure = negsuc 0

-- `exited` is a call of `exit( -1 )`. `unchecked_null`: an allocation failed that the code does not
-- look at, and a NULL is where a string or an array should be; what a later access does with it is
-- undefined, and the model stops.
pub data Run {ℓ} (A : Type ℓ) : Type ℓ where
  exited unchecked_null : Run A
  ok : A → Run A

infixl 5 ◌>>=◌
abbrev pub ◌>>=◌ {ℓ κ} : {A : Type ℓ} {B : Type κ} → Run A → (A → Run B) → Run B
exited >>= f = exited
unchecked_null >>= f = unchecked_null
ok a >>= f = f a
