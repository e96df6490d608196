-- ===== src/Plenum/Arp/Order.antt =====
-- plenum/uke11/arpjob.c: `lt`, the comparison by which the table is sorted and searched.
use in2140_introduksjon_til.Common.Run.{pos, negsuc}
use in2140_introduksjon_til.Common.Ints.{lt, difference}
use in2140_introduksjon_til.Common.{
  ltb, lt→ltb, le→ltb, Bool-cases, ℕ, ◌+◌, ◌-◌, ◌%◌, ◌^◌, ◌≤◌, ◌<◌, ◌≡◌, refl, ap, ◌∙◌, inl, inr,
  true, arith,
}
use in2140_introduksjon_til.Plenum.Arp.{int_of_word, lt_word}

int_of_word-negsuc : (w : ℕ) → 2 ^ 31 ≤ w → int_of_word w ≡ negsuc (2 ^ 32 - 1 - w)
int_of_word-negsuc w h = rw (le→ltb w (2 ^ 31) h)

int_of_word-pos : (w : ℕ) → w < 2 ^ 31 → int_of_word w ≡ pos w
int_of_word-pos w h = rw (lt→ltb w (2 ^ 31) h)

lt_word_below : (l r : ℕ) → l < r → r < 2 ^ 32 → r ≤ l + 2 ^ 31 → lt_word l r ≡ negsuc (r - l - 1)
unfolding lt_word
lt_word_below l r less word near =
    let wrapped : (l + 2 ^ 32 - r) % 2 ^ 32 ≡ l + 2 ^ 32 - r = omega arith in
    ap int_of_word wrapped
    ∙ int_of_word-negsuc (l + 2 ^ 32 - r) (omega arith)
    ∙ ap negsuc (omega arith)

lt_word_above : (l r : ℕ) → r ≤ l → l < 2 ^ 32 → l < r + 2 ^ 31 → lt_word l r ≡ pos (l - r)
unfolding lt_word
lt_word_above l r more word near =
    let wrapped : (l + 2 ^ 32 - r) % 2 ^ 32 ≡ l - r = omega arith in
    ap int_of_word wrapped ∙ int_of_word-pos (l - r) (omega arith)

-- From 2^31 on, the difference has the wrong sign.
lt_word_far : (l r : ℕ) → l < 2 ^ 32 → r + 2 ^ 31 ≤ l → lt_word l r ≡ negsuc (2 ^ 32 - 1 - (l - r))
unfolding lt_word
lt_word_far l r word far =
    let wrapped : (l + 2 ^ 32 - r) % 2 ^ 32 ≡ l - r = omega arith in
    ap int_of_word wrapped ∙ int_of_word-negsuc (l - r) (omega arith)

-- Two addresses that lie less than 2^31 apart are compared as the numbers that they are.
pub lt_word_near :
    (l r : ℕ)
    → l < 2 ^ 32
    → r < 2 ^ 32
    → l < r + 2 ^ 31
    → r < l + 2 ^ 31
    → lt_word l r ≡ difference l r
lt_word_near l r hl hr near near' = elim (Bool-cases (ltb l r)) [
  | inl less ↦ lt_word_below l r (ground arith) hr (omega arith) ∙ rw less refl
  | inr more ↦ lt_word_above l r (ground arith) hl near ∙ rw more refl
]

-- `lt` is no order of all addresses: of three addresses whose neighbours lie at most 2^31 apart, and
-- the first and the last at least 2^31, each is before the next one, and the last before the first.
pub lt_word_cycle :
    (a b c : ℕ)
    → a < b
    → b < c
    → c < 2 ^ 32
    → b ≤ a + 2 ^ 31
    → c ≤ b + 2 ^ 31
    → a + 2 ^ 31 ≤ c
    → (lt (lt_word a b) (pos 0) ≡ true)
      × (lt (lt_word b c) (pos 0) ≡ true)
      × (lt (lt_word c a) (pos 0) ≡ true)
lt_word_cycle a b c ab bc word near near' far = (
  ap (λ z. lt z (pos 0)) (lt_word_below a b ab (omega arith) near),
  ap (λ z. lt z (pos 0)) (lt_word_below b c bc word near'),
  ap (λ z. lt z (pos 0)) (lt_word_far c a word far),
)
