-- ===== src/Oblig/Table/Format.antt =====
-- oblig/inode.c: what the master file table can hold, and how its fields read back.
use in2140_introduksjon_til.Common.{
  ◌==◌, if◌then◌else◌, le→ltb, ==_ne, length, All, length-append, take-append, drop-append, ℕ, suc,
  ◌+◌, ◌^◌, ◌<◌, max, ◌≡◌, refl, ap, ◌∙◌, subst, false, List, [], ◌∷◌, ◌++◌, append_assoc, arith,
}
use in2140_introduksjon_til.Common.Words.{Bytes, le_bytes, read_le-le_bytes}
use in2140_introduksjon_til.Oblig.Inode.{id, count, Inode, inode, Inodes, nil, cons}
use in2140_introduksjon_til.Oblig.Table.{
  save_ids, save_blocks, input, Reader, read_int, read_bytes, c_string, read_blocks, negative,
  read_directory, read_file, create_inode, loaded,
}

-- Bytes of a C string: none is 0.
abbrev pub IsText : Bytes → Type 0
IsText = All (λ b. 0 < b)

-- What the format can hold: names without a 0, numbers within their C types, no blocks in a
-- directory and no children in a file.
mutual
  pub data IsSaved : Inode → Type 0 where
    is_file :
        {i d size : ℕ} {n : Bytes} {bs : List ℕ}
        → i < 2 ^ 31
        → IsText n
        → length n + 1 < 2 ^ 31
        → d ≡ 0
        → size < 2 ^ 31
        → length bs < 2 ^ 31
        → All (λ b. b < 2 ^ 64) bs
        → IsSaved (inode i n d nil size bs)
    is_dir :
        {i d size : ℕ} {n : Bytes} {cs : Inodes}
        → i < 2 ^ 31
        → IsText n
        → length n + 1 < 2 ^ 31
        → 0 < d
        → d < 256
        → size ≡ 0
        → count cs < 2 ^ 31
        → AreSaved cs
        → IsSaved (inode i n d cs size [])

  pub data AreSaved : Inodes → Type 0 where
    no_more : AreSaved nil
    more : {c : Inode} {cs : Inodes} → IsSaved c → AreSaved cs → AreSaved (cons c cs)

-- The number of inodes of a tree, and the longest way down.
unfoldable mutual
  pub size : Inode → ℕ
  size (inode i n d cs s bs) = suc (size_children cs)

  pub size_children : Inodes → ℕ
  size_children nil = 0
  size_children (cons c cs) = size c + size_children cs

unfoldable mutual
  pub depth : Inode → ℕ
  depth (inode i n d cs s bs) = suc (depth_children cs)

  pub depth_children : Inodes → ℕ
  depth_children nil = 0
  depth_children (cons c cs) = max (depth c) (depth_children cs)

pub read_int-le_bytes :
    (k v ids : ℕ) (rest : Bytes)
    → v < 256 ^ k
    → read_int k (input (le_bytes k v ++ rest) ids) ≡ loaded v (input rest ids)
unfolding read_int
read_int-le_bytes k v ids rest h = rw (read_le-le_bytes k v rest h, read_int)

read_bytes-append :
    (n rest : Bytes) (ids : ℕ)
    → read_bytes (length n) (input (n ++ rest) ids) ≡ loaded n (input rest ids)
unfolding read_bytes
read_bytes-append n rest ids = rw (
  le→ltb (length (n ++ rest)) (length n) (omega (arith, length-append n rest)),
  take-append (length n) n rest refl,
  drop-append (length n) n rest refl,
)

c_string-text : (n : Bytes) → IsText n → c_string (n ++ (0 ∷ [])) ≡ n
unfolding c_string
c_string-text [] t = refl
c_string-text (b ∷ n) t =
    rw (==_ne b 0 (λ e. omega (arith, t.0))) (ap (λ m. b ∷ m) (c_string-text n t.1))

pub read_blocks-save_blocks :
    (bs : List ℕ) (rest : Bytes) (ids : ℕ)
    → All (λ b. b < 2 ^ 64) bs
    → read_blocks (length bs) (input (save_blocks bs ++ rest) ids) ≡ loaded bs (input rest ids)
unfolding read_blocks save_blocks
read_blocks-save_blocks [] rest ids h = refl
read_blocks-save_blocks (b ∷ bs) rest ids h = rw (
  append_assoc (le_bytes 8 b) (save_blocks bs) rest,
  read_int-le_bytes 8 b ids (save_blocks bs ++ rest) h.0,
  read_blocks-save_blocks bs rest ids h.1,
)

-- The ids are dropped, so only their number matters.
pub child_ids : Inodes → List ℕ
child_ids nil = []
child_ids (cons c cs) = id c ∷ child_ids cs

save_ids-child_ids : (cs : Inodes) → save_ids cs ≡ save_blocks (child_ids cs)
unfolding save_ids save_blocks child_ids
save_ids-child_ids nil = refl
save_ids-child_ids (cons c cs) = ap (λ l. le_bytes 8 (id c) ++ l) (save_ids-child_ids cs)

length-child_ids : (cs : Inodes) → length (child_ids cs) ≡ count cs
unfolding child_ids
length-child_ids nil = refl
length-child_ids (cons c cs) = ap suc (length-child_ids cs)

id-lt : {t : Inode} → IsSaved t → id t < 2 ^ 64
id-lt (is_file i n l d s k b) = omega arith
id-lt (is_dir i n l d d' s k c) = omega arith

child_ids-lt : {cs : Inodes} → AreSaved cs → All (λ b. b < 2 ^ 64) (child_ids cs)
unfolding child_ids
child_ids-lt no_more = tt
child_ids-lt (more c cs) = (id-lt c, child_ids-lt cs)

pub read_blocks-save_ids :
    (cs : Inodes) (rest : Bytes) (ids : ℕ)
    → AreSaved cs
    → read_blocks (count cs) (input (save_ids cs ++ rest) ids)
      ≡ loaded (child_ids cs) (input rest ids)
read_blocks-save_ids cs rest ids h =
    rw (save_ids-child_ids cs, ← length-child_ids cs)
      (read_blocks-save_blocks (child_ids cs) rest ids (child_ids-lt h))

-- What `create_inode` does after the four fields that every inode has.
abbrev pub body : ℕ → ℕ → Bytes → ℕ → Reader Inode
body f i n d = if d == 0 then read_file i n else read_directory (create_inode f) i n d

abbrev pub fields : ℕ → Bytes → ℕ → Bytes → Bytes
fields i n d rest = le_bytes 4 i ++ (le_bytes 4 (length n + 1) ++ (n ++ (0 ∷ d ∷ rest)))

one_byte : (d : ℕ) (rest : Bytes) → d < 256 → d ∷ rest ≡ le_bytes 1 d ++ rest
unfolding le_bytes
one_byte d rest h = ap (λ x. x ∷ rest) (omega arith)

pub read_fields :
    (f i d ids : ℕ) (n rest : Bytes)
    → i < 2 ^ 31
    → IsText n
    → length n + 1 < 2 ^ 31
    → d < 256
    → create_inode (suc f) (input (fields i n d rest) ids) ≡ body f i n d (input rest (ids + 1))
unfolding create_inode
read_fields f i d ids n rest hi text hn hd = rw (
  read_int-le_bytes 4 i ids (le_bytes 4 (length n + 1) ++ (n ++ (0 ∷ d ∷ rest))) (omega arith),
  read_int-le_bytes 4 (length n + 1) (ids + 1) (n ++ (0 ∷ d ∷ rest)) (omega arith),
  not_negative,
  name_first,
  one_byte d rest hd,
  read_int-le_bytes 1 d (ids + 1) rest (omega arith),
  c_string-text n text,
)
  where
    not_negative : negative (length n + 1) ≡ false
    not_negative = ground arith

    name_first :
        read_bytes (length n + 1) (input (n ++ (0 ∷ d ∷ rest)) (ids + 1))
        ≡ loaded (n ++ (0 ∷ [])) (input (d ∷ rest) (ids + 1))
    name_first = rw (← append_assoc n (0 ∷ []) (d ∷ rest)) (
        subst
          (λ k.
            read_bytes k (input ((n ++ (0 ∷ [])) ++ (d ∷ rest)) (ids + 1))
            ≡ loaded (n ++ (0 ∷ [])) (input (d ∷ rest) (ids + 1)))
          (length-append n (0 ∷ []) ∙ omega arith)
          (read_bytes-append (n ++ (0 ∷ [])) (d ∷ rest) (ids + 1)))
