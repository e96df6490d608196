-- ===== src/Oblig/Inode.antt =====
-- oblig/inode.c: the inode and the operations on one directory. A `struct inode` is a value that
-- owns its children; `num_children` and `num_blocks` are the lengths of the two arrays. Names are
-- C strings without their terminator. An operation that writes to `*parent` returns the new one.
use in2140_introduksjon_til.Common.{
  ◌==◌, if◌then◌else◌, ℕ, suc, ◌+◌, ◌/◌, ◌%◌, Bool, true, false, ◌&&◌, Option, none, some, List, [],
  ◌∷◌,
}
use in2140_introduksjon_til.Common.Words.{Bytes}

mutual
  pub data Inode : Type 0 where
    inode :
        (id : ℕ) (name : Bytes) (is_directory : ℕ) (children : Inodes) (filesize : ℕ)
        (blocks : List ℕ)
        → Inode

  -- The array `children`.
  pub data Inodes : Type 0 where
    nil : Inodes
    cons : Inode → Inodes → Inodes

abbrev pub id : Inode → ℕ
id (inode i n d c s b) = i

abbrev pub name : Inode → Bytes
name (inode i n d c s b) = n

abbrev pub is_directory : Inode → ℕ
is_directory (inode i n d c s b) = d

abbrev pub children : Inode → Inodes
children (inode i n d c s b) = c

abbrev pub filesize : Inode → ℕ
filesize (inode i n d c s b) = s

abbrev pub blocks : Inode → List ℕ
blocks (inode i n d c s b) = b

abbrev pub with_children : Inode → Inodes → Inode
with_children (inode i n d c s b) c' = inode i n d c' s b

abbrev pub count : Inodes → ℕ
count nil = 0
count (cons c cs) = suc (count cs)

abbrev pub snoc : Inodes → Inode → Inodes
snoc nil n = cons n nil
snoc (cons c cs) n = cons c (snoc cs n)

-- `strcmp( a, b ) == 0`
unfoldable pub strcmp_eq : Bytes → Bytes → Bool
strcmp_eq [] [] = true
strcmp_eq [] (b ∷ bs) = false
strcmp_eq (a ∷ as') [] = false
strcmp_eq (a ∷ as') (b ∷ bs) = (a == b) && strcmp_eq as' bs

abbrev pub blocksize : ℕ
blocksize = 4096

unfoldable pub blocks_needed : ℕ → ℕ
blocks_needed bytes = if bytes % blocksize == 0 then bytes / blocksize else bytes / blocksize + 1

-- The loop over the children: the first one with the name.
unfoldable pub find_child : Inodes → Bytes → Option Inode
find_child nil n = none
find_child (cons c cs) n = if strcmp_eq (name c) n then some c else find_child cs n

-- The parent's own name is looked at before those of the children. `none` is NULL.
unfoldable pub find_inode_by_name : Option Inode → Bytes → Option Inode
find_inode_by_name none n = none
find_inode_by_name (some parent) n =
    if strcmp_eq (name parent) n
    then some parent
    else if is_directory parent == 0
    then none
    else find_child (children parent) n
