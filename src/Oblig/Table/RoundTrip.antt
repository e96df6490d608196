-- ===== src/Oblig/Table/RoundTrip.antt =====
-- oblig/inode.c: a saved tree loads back, and the id counter afterwards.
use in2140_introduksjon_til.Oblig.Table.Format.{
  size, size_children, depth, depth_children, read_int-le_bytes, read_blocks-save_blocks,
  read_blocks-save_ids, body, fields, read_fields, IsSaved, is_file, is_dir, AreSaved, no_more,
  more,
}
use in2140_introduksjon_til.Common.{
  ◌==◌, if◌then◌else◌, ==_ne, length, All, length-append, ℕ, zero, suc, ◌+◌, ◌^◌, ◌≤◌, ◌<◌, ◌≡◌, ap,
  subst, true, false, Option, some, List, [], ◌∷◌, ◌++◌, append-nil, append_assoc, arith,
}
use in2140_introduksjon_til.Common.Words.{Bytes, le_bytes}
use in2140_introduksjon_til.Oblig.Inode.{count, Inode, inode, Inodes, nil, cons}
use in2140_introduksjon_til.Oblig.Table.{
  save_ids, save_blocks, save_inode, save_children, save_inodes, always, input, ◌>=>◌, try_malloc,
  read_blocks, read_children, negative, read_directory, read_file, create_inode, load_inodes,
  loaded,
}

-- The fields in front of the rest of an inode, with what follows it in the file.
fields-append : (i d : ℕ) (n b rest : Bytes) → fields i n d b ++ rest ≡ fields i n d (b ++ rest)
fields-append i d n b rest = simp append_assoc

file_body :
    (f i ids size : ℕ) (n : Bytes) (bs : List ℕ) (rest : Bytes)
    → size < 2 ^ 31
    → length bs < 2 ^ 31
    → All (λ b. b < 2 ^ 64) bs
    → body f i n 0
        (input ((le_bytes 4 size ++ (le_bytes 4 (length bs) ++ save_blocks bs)) ++ rest) ids)
      ≡ loaded (inode i n 0 nil size bs) (input rest ids)
unfolding read_file
file_body f i ids size n bs rest hs hb all = rw (
  append_assoc (le_bytes 4 size) (le_bytes 4 (length bs) ++ save_blocks bs) rest,
  append_assoc (le_bytes 4 (length bs)) (save_blocks bs) rest,
  read_int-le_bytes 4 size ids (le_bytes 4 (length bs) ++ (save_blocks bs ++ rest)) (omega arith),
  read_int-le_bytes 4 (length bs) ids (save_blocks bs ++ rest) (omega arith),
  not_negative,
  read_blocks-save_blocks bs rest ids all,
)
  where
    not_negative : negative (length bs) ≡ false
    not_negative = ground arith

-- The part of a directory behind the number of its children.
children_body :
    (f ids : ℕ) (cs : Inodes) (rest : Bytes)
    → AreSaved cs
    → read_children (create_inode f) (count cs) (input (save_children cs ++ rest) ids)
      ≡ loaded cs (input rest (ids + size_children cs))
    → (if count cs == 0
          then loaded nil
          else (try_malloc >=> λ _. read_blocks (count cs) >=> λ _.
              try_malloc >=> λ _. read_children (create_inode f) (count cs)))
        (input (save_ids cs ++ (save_children cs ++ rest)) ids)
      ≡ loaded cs (input rest (ids + size_children cs))
unfolding read_children save_ids save_children
children_body f ids nil rest saved ih = ih
children_body f ids (cons c cs) rest saved ih = rw (
  ==_ne (count (cons c cs)) 0 (λ e. omega arith),
  read_blocks-save_ids (cons c cs) (save_children (cons c cs) ++ rest) ids saved,
  ih,
)

dir_body :
    (f i ids d : ℕ) (n : Bytes) (cs : Inodes) (rest : Bytes)
    → 0 < d
    → count cs < 2 ^ 31
    → AreSaved cs
    → read_children (create_inode f) (count cs) (input (save_children cs ++ rest) ids)
      ≡ loaded cs (input rest (ids + size_children cs))
    → body f i n d
        (input ((le_bytes 4 (count cs) ++ (save_ids cs ++ save_children cs)) ++ rest) ids)
      ≡ loaded (inode i n d cs 0 []) (input rest (ids + size_children cs))
unfolding read_directory
dir_body f i ids d n cs rest hd hc saved ih = rw (
  ==_ne d 0 (λ e. omega arith),
  append_assoc (le_bytes 4 (count cs)) (save_ids cs ++ save_children cs) rest,
  append_assoc (save_ids cs) (save_children cs) rest,
  read_int-le_bytes 4 (count cs) ids (save_ids cs ++ (save_children cs ++ rest)) (omega arith),
  not_negative,
  children_body f ids cs rest saved ih,
)
  where
    not_negative : negative (count cs) ≡ false
    not_negative = ground arith

mutual
  unfolding save_inode size depth read_children

  create_inode-save :
      {t : Inode}
      → IsSaved t
      → (f ids : ℕ) (rest : Bytes) → depth t ≤ f
      → create_inode f (input (save_inode t ++ rest) ids) ≡ loaded t (input rest (ids + size t))
  create_inode-save (is_file hi text hn hd hs hb all) zero ids rest h = absurd (omega arith)
  create_inode-save (is_dir hi text hn hd hd' hs hc saved) zero ids rest h = absurd (omega arith)
  create_inode-save (is_file {i} {d} {size = z} {n} {bs} hi text hn hd hs hb all) (suc f) ids rest
        h =
      rw (
        hd,
        fields-append i 0 n (le_bytes 4 z ++ (le_bytes 4 (length bs) ++ save_blocks bs)) rest,
        read_fields f i 0 ids n
            ((le_bytes 4 z ++ (le_bytes 4 (length bs) ++ save_blocks bs)) ++ rest) hi text hn
            (omega arith),
        file_body f i (ids + 1) z n bs rest hs hb all,
      )
  create_inode-save (is_dir {i} {d} {size = z} {n} {cs} hi text hn hd hd' hs hc saved) (suc f) ids
        rest h =
      rw
        (
          hs,
          ==_ne d 0 (λ e. omega arith),
          fields-append i d n (le_bytes 4 (count cs) ++ (save_ids cs ++ save_children cs)) rest,
          read_fields f i d ids n
              ((le_bytes 4 (count cs) ++ (save_ids cs ++ save_children cs)) ++ rest) hi text hn hd',
          dir_body f i (ids + 1) d n cs rest hd hc saved
              (read_children-save saved f (ids + 1) rest (omega arith)),
        )
        (ap (λ a. loaded (inode i n d cs 0 []) (input rest a)) (omega arith))

  read_children-save :
      {cs : Inodes}
      → AreSaved cs
      → (f ids : ℕ) (rest : Bytes) → depth_children cs ≤ f
      → read_children (create_inode f) (count cs) (input (save_children cs ++ rest) ids)
        ≡ loaded cs (input rest (ids + size_children cs))
  read_children-save no_more f ids rest h = ap (λ a. loaded nil (input rest a)) (omega arith)
  read_children-save (more {c} {cs} s ss) f ids rest h =
      rw
        (
          append_assoc (save_inode c) (save_children cs) rest,
          create_inode-save s f ids (save_children cs ++ rest) (omega arith),
          read_children-save ss f (ids + size c) rest (omega arith),
        )
        (ap (λ a. loaded (cons c cs) (input rest a)) (omega arith))

length-fields : (i d : ℕ) (n b : Bytes) → length b < length (fields i n d b)
length-fields i d n b = omega (
  arith,
  length-append (le_bytes 4 i) (le_bytes 4 (length n + 1) ++ (n ++ (0 ∷ d ∷ b))),
  length-append (le_bytes 4 (length n + 1)) (n ++ (0 ∷ d ∷ b)),
  length-append n (0 ∷ d ∷ b),
)

length_body :
    (d z : ℕ) (bs : List ℕ) (cs : Inodes)
    → AreSaved cs
    → 0 < d
    → length (save_children cs)
      ≤ length (
          if d == 0
          then le_bytes 4 z ++ (le_bytes 4 (length bs) ++ save_blocks bs)
          else le_bytes 4 (count cs) ++ (save_ids cs ++ save_children cs))
length_body d z bs cs saved h = rw (==_ne d 0 (λ e. omega arith)) (
    omega (
      arith,
      length-append (le_bytes 4 (count cs)) (save_ids cs ++ save_children cs),
      length-append (save_ids cs) (save_children cs),
    ))

-- Every inode on the way down takes bytes.
mutual
  unfolding save_inode depth

  depth-le-length : {t : Inode} → IsSaved t → depth t ≤ length (save_inode t)
  depth-le-length (is_file {i} {d} {size = z} {n} {bs} hi text hn hd hs hb all) = omega (
    arith,
    length-fields i d n (
        if d == 0
        then le_bytes 4 z ++ (le_bytes 4 (length bs) ++ save_blocks bs)
        else le_bytes 4 0 ++ (save_ids nil ++ [])),
  )
  depth-le-length (is_dir {i} {d} {size = z} {n} {cs} hi text hn hd hd' hs hc saved) = omega (
    arith,
    length-fields i d n (
        if d == 0
        then le_bytes 4 z ++ (le_bytes 4 0 ++ save_blocks [])
        else le_bytes 4 (count cs) ++ (save_ids cs ++ save_children cs)),
    length_body d z [] cs saved hd,
    depth_children-le-length saved,
  )

  depth_children-le-length :
      {cs : Inodes} → AreSaved cs → depth_children cs ≤ length (save_children cs)
  depth_children-le-length no_more = omega arith
  depth_children-le-length (more {c} {cs} s ss) = omega (
    arith,
    depth-le-length s,
    depth_children-le-length ss,
    length-append (save_inode c) (save_children cs),
  )

-- With memory for all that is allocated, a tree that the format can hold, written by `save_inodes` over any earlier file, is what
-- `load_inodes` returns; the whole file is read, and `num_inode_ids` has grown by the number of
-- inodes.
pub load_inodes-save_inodes :
    (t : Inode) (before : Option Bytes) (ids : ℕ)
    → IsSaved t
    → load_inodes always (save_inodes true (some t) before) ids
      ≡ some (loaded t (input [] (ids + size t)))
unfolding load_inodes save_inodes
load_inodes-save_inodes t before ids saved = ap some (
    subst
      (λ b.
        create_inode (length (save_inode t) + 1) (input b ids) ≡ loaded t (input [] (ids + size t)))
      (append-nil (save_inode t))
      (create_inode-save saved (length (save_inode t) + 1) ids []
        (omega (arith, depth-le-length saved))))
