-- ===== src/Eksam/D1/Header.antt =====
-- eksam/handout/d1_udp.c: packets in memory and their checksums.
use in2140_introduksjon_til.Common.{
  if◌then◌else◌, Bool-cases, length, drop, All, ℕ, ◌+◌, ◌*◌, ◌/◌, ◌%◌, ◌^◌, ◌<◌, bit_xor, ◌≡◌, refl,
  sym, ◌∙◌, inl, inr, Bool, true, false, not, ◌&&◌, [], ◌∷◌, ◌++◌, arith,
}
use in2140_introduksjon_til.Common.Words.{Bytes, le_bytes, from_le-le_bytes}
use in2140_introduksjon_til.Common.Xor.{bit_xor-lt, bit_xor_cancel, bit_xor_cancel_right}
use in2140_introduksjon_til.Eksam.D1.{
  header_size, header_bytes, read_header, xor_words, compute_checksum, is_odd, D1Header,
}

abbrev pub AreBytes : Bytes → Type 0
AreBytes = All (λ b. b < 256)

pub xor_words-lt : (acc : ℕ) (bs : Bytes) → acc < 2 ^ 16 → AreBytes bs → xor_words acc bs < 2 ^ 16
unfolding xor_words
xor_words-lt acc [] h k = h
xor_words-lt acc (lo ∷ []) h k = bit_xor-lt 16 acc lo h (omega arith)
xor_words-lt acc (lo ∷ hi ∷ rest) h (l, (g, k)) =
    xor_words-lt (bit_xor acc (lo + 256 * hi)) rest
      (bit_xor-lt 16 acc (lo + 256 * hi) h (omega arith)) k

-- Different checksums stay different, whatever words follow.
xor_words_injective : (a b : ℕ) (bs : Bytes) → xor_words a bs ≡ xor_words b bs → a ≡ b
unfolding xor_words
xor_words_injective a b [] e = e
xor_words_injective a b (lo ∷ []) e = bit_xor_cancel_right lo a b e
xor_words_injective a b (lo ∷ hi ∷ rest) e =
    bit_xor_cancel_right (lo + 256 * hi) a b
      (xor_words_injective (bit_xor a (lo + 256 * hi)) (bit_xor b (lo + 256 * hi)) rest e)

-- The loop over the payload tells apart two payloads that differ in one byte.
pub xor_words_one_byte :
    (acc : ℕ) (front : Bytes) (b c : ℕ) (back : Bytes)
    → xor_words acc (front ++ (b ∷ back)) ≡ xor_words acc (front ++ (c ∷ back))
    → b ≡ c
unfolding xor_words
xor_words_one_byte acc [] b c [] e = bit_xor_cancel acc b c e
xor_words_one_byte acc [] b c (y ∷ back) e = omega (
  arith,
  bit_xor_cancel acc (b + 256 * y) (c + 256 * y)
      (xor_words_injective (bit_xor acc (b + 256 * y)) (bit_xor acc (c + 256 * y)) back e),
)
xor_words_one_byte acc (x ∷ []) b c back e = omega (
  arith,
  bit_xor_cancel acc (x + 256 * b) (x + 256 * c)
      (xor_words_injective (bit_xor acc (x + 256 * b)) (bit_xor acc (x + 256 * c)) back e),
)
xor_words_one_byte acc (x ∷ y ∷ front) b c back e =
    xor_words_one_byte (bit_xor acc (x + 256 * y)) front b c back e

-- The fields lie within their types.
pub record Fits (h : D1Header) : Type 0 where
  pub flags : h.flags < 2 ^ 16
  pub checksum : h.checksum < 2 ^ 16
  pub size : h.size < 2 ^ 32

pub compute_checksum-lt :
    (memory : Bool) (h : D1Header) (bs : Bytes)
    → h.flags < 2 ^ 16
    → h.size < 2 ^ 32
    → AreBytes bs
    → compute_checksum memory h bs < 2 ^ 16
unfolding compute_checksum
compute_checksum-lt memory h bs hf hs k = choose (is_odd (length bs) && not memory) (
    xor_words-lt (bit_xor (bit_xor h.flags (h.size % 2 ^ 16)) (h.size / 2 ^ 16)) bs
      (bit_xor-lt 16 (bit_xor h.flags (h.size % 2 ^ 16)) (h.size / 2 ^ 16)
        (bit_xor-lt 16 h.flags (h.size % 2 ^ 16) hf (omega arith)) (omega arith))
      k)
  where
    choose : (b : Bool) {v : ℕ} → v < 2 ^ 16 → (if b then 0xffff else v) < 2 ^ 16
    choose true l = omega arith
    choose false l = l

pub length-header_bytes : (h : D1Header) → length (header_bytes h) ≡ header_size
unfolding header_bytes le_bytes
length-header_bytes h = refl

pub drop-header_bytes :
    (h : D1Header) (rest : Bytes) → drop header_size (header_bytes h ++ rest) ≡ rest
unfolding header_bytes le_bytes
drop-header_bytes h rest = refl

-- Reading back a header that was copied into a packet.
pub read_header-header_bytes :
    (h : D1Header) (rest : Bytes) → Fits h → read_header (header_bytes h ++ rest) ≡ h
unfolding header_bytes read_header le_bytes
read_header-header_bytes h rest f = λ i. record {
  flags = from_le-le_bytes 2 h.flags f.flags i;
  checksum = from_le-le_bytes 2 h.checksum f.checksum i;
  size = from_le-le_bytes 4 h.size f.size i;
}

abbrev header_part : D1Header → ℕ
header_part h = bit_xor (bit_xor h.flags (h.size % 2 ^ 16)) (h.size / 2 ^ 16)

compute_checksum-xor_words :
    (h : D1Header) (bs : Bytes) → compute_checksum true h bs ≡ xor_words (header_part h) bs
unfolding compute_checksum
compute_checksum-xor_words h bs = elim (Bool-cases (is_odd (length bs))) [
  | inl e ↦ rw e
  | inr e ↦ rw e
]

-- With memory for the padded copy, the checksum tells apart payloads that differ in one byte.
pub compute_checksum_one_byte :
    (h : D1Header) (front : Bytes) (b c : ℕ) (back : Bytes)
    → compute_checksum true h (front ++ (b ∷ back)) ≡ compute_checksum true h (front ++ (c ∷ back))
    → b ≡ c
compute_checksum_one_byte h front b c back e = xor_words_one_byte (header_part h) front b c back (
    sym (compute_checksum-xor_words h (front ++ (b ∷ back)))
    ∙ (e ∙ compute_checksum-xor_words h (front ++ (c ∷ back))))
