-- ===== src/Common/Words.antt =====
-- Machine words on a little-endian host: how a value of some bytes lies in memory, and the byte
-- order conversions of arpa/inet.h on such a host.
use native.Mathlib.Nat.{pow-suc}
use Prim.Native.String.{String}
use Prim.Native.Char.{code}
use in2140_introduksjon_til.Common.{
  ℕ, zero, suc, ◌+◌, ◌*◌, ◌/◌, ◌%◌, ◌^◌, ◌<◌, ◌≡◌, refl, ap, List, [], ◌∷◌, ◌++◌, Option, none,
  some, arith, length, length-append, take, drop, take-append, drop-append, if◌then◌else◌, ltb,
  le→ltb, ◌≤◌,
}

abbrev pub Bytes : Type 0
Bytes = List ℕ

-- The bytes of a string constant without the 0 at its end.
abbrev pub codes : String → Bytes
codes String.[] = []
codes (String.◌∷◌ c s) = code c ∷ codes s

-- The bytes of an object of `k` bytes that holds `n`.
unfoldable pub le_bytes : ℕ → ℕ → Bytes
le_bytes zero n = []
le_bytes (suc k) n = n % 256 ∷ le_bytes k (n / 256)

-- The value of an object with these bytes.
unfoldable pub from_le : Bytes → ℕ
from_le [] = 0
from_le (b ∷ bs) = b + 256 * from_le bs

pub length-le_bytes : (k n : ℕ) → length (le_bytes k n) ≡ k
unfolding le_bytes
length-le_bytes zero n = refl
length-le_bytes (suc k) n = ap suc (length-le_bytes k (n / 256))

pub from_le-le_bytes : (k n : ℕ) → n < 256 ^ k → from_le (le_bytes k n) ≡ n
unfolding le_bytes from_le
from_le-le_bytes zero n h = omega arith
from_le-le_bytes (suc k) n h =
    omega (arith, from_le-le_bytes k (n / 256) (omega (arith, pow-suc 256 k)))

-- `fread` of one object of `k` bytes: its value and what the file has left; `none` is a short read.
unfoldable pub read_le : ℕ → Bytes → Option (ℕ × Bytes)
read_le k bs = if ltb (length bs) k then none else some (from_le (take k bs), drop k bs)

pub read_le-le_bytes :
    (k n : ℕ) (rest : Bytes) → n < 256 ^ k → read_le k (le_bytes k n ++ rest) ≡ some (n, rest)
unfolding read_le
read_le-le_bytes k n rest h =
    let size = length-le_bytes k n in
    let long : k ≤ length (le_bytes k n ++ rest) =
      omega (arith, length-append (le_bytes k n) rest) in
    rw (
      le→ltb (length (le_bytes k n ++ rest)) k long,
      take-append k (le_bytes k n) rest (omega arith),
      drop-append k (le_bytes k n) rest (omega arith),
      from_le-le_bytes k n h,
    )

-- `htons` and `ntohs`
unfoldable pub swap16 : ℕ → ℕ
swap16 x = x % 256 * 256 + x / 256

-- `htonl` and `ntohl`
unfoldable pub swap32 : ℕ → ℕ
swap32 x = x % 256 * 2 ^ 24 + x / 2 ^ 8 % 256 * 2 ^ 16 + x / 2 ^ 16 % 256 * 2 ^ 8 + x / 2 ^ 24

pub swap16_twice : (x : ℕ) → x < 2 ^ 16 → swap16 (swap16 x) ≡ x
unfolding swap16
swap16_twice x h = omega arith

pub swap32_twice : (x : ℕ) → x < 2 ^ 32 → swap32 (swap32 x) ≡ x
unfolding swap32
swap32_twice x h = omega arith

pub swap16-lt : (x : ℕ) → x < 2 ^ 16 → swap16 x < 2 ^ 16
unfolding swap16
swap16-lt x h = omega arith

pub swap32-lt : (x : ℕ) → x < 2 ^ 32 → swap32 x < 2 ^ 32
unfolding swap32
swap32-lt x h = omega arith
