-- ===== src/Oblig/Table.antt =====
-- oblig/inode.c: the master file table. `save_inodes` writes the bytes of a tree, `load_inodes`
-- reads them back. `int` and `size_t` values lie in the file as 4 and 8 little-endian bytes.
pub mod Format
pub mod Fuel
pub mod Ids
pub mod RoundTrip
use in2140_introduksjon_til.Common.{
  ltb, leb, ◌==◌, if◌then◌else◌, length, take, drop, ℕ, zero, suc, ◌+◌, ◌^◌, Bool, true, Option,
  none, some, List, [], ◌∷◌, ◌++◌,
}
use in2140_introduksjon_til.Common.Words.{Bytes, le_bytes, read_le}
use in2140_introduksjon_til.Oblig.Inode.{id, count, Inode, inode, Inodes, nil, cons}

-- `save_inode`: the bytes that the `fwrite` calls append to the file.
unfoldable pub save_ids : Inodes → Bytes
save_ids nil = []
save_ids (cons c cs) = le_bytes 8 (id c) ++ save_ids cs

unfoldable pub save_blocks : List ℕ → Bytes
save_blocks [] = []
save_blocks (b ∷ bs) = le_bytes 8 b ++ save_blocks bs

unfoldable mutual
  pub save_inode : Inode → Bytes
  save_inode (inode i n d cs size bs) =
      le_bytes 4 i
      ++ (le_bytes 4 (length n + 1)
          ++ (n
              ++ (0
                  ∷ d
                  ∷ (if d == 0
                      then le_bytes 4 size ++ (le_bytes 4 (length bs) ++ save_blocks bs)
                      else le_bytes 4 (count cs) ++ (save_ids cs ++ save_children cs)))))

  pub save_children : Inodes → Bytes
  save_children nil = []
  save_children (cons c cs) = save_inode c ++ save_children cs

-- `save_inodes`: what the file holds afterwards. With no root, or if `fopen` fails, nothing is
-- written.
unfoldable pub save_inodes : (opened : Bool) → Option Inode → Option Bytes → Option Bytes
save_inodes opened none file = file
save_inodes opened (some root) file = if opened then some (save_inode root) else file

-- What is left of the file, `num_inode_ids`, and which of the coming calls of `malloc` and `calloc`
-- return memory.
pub record Input : Type 0 where
  pub file : Bytes
  pub num_inode_ids : ℕ
  pub memory : ℕ → Bool

abbrev pub always : ℕ → Bool
always k = true

abbrev pub input : Bytes → ℕ → Input
input f i = record { file = f; num_inode_ids = i; memory = always }

-- `no_inode`: the call returns NULL. `null_child`: a NULL was stored among the children of an inode.
-- `incomplete`: the file ends in the middle of a number, which the code does not test. What the code
-- goes on with after these two is not modelled. `out_of_fuel` is no outcome of the code.
pub data Load {ℓ} (A : Type ℓ) : Type ℓ where
  incomplete out_of_fuel null_child : Load A
  no_inode : Input → Load A
  loaded : A → Input → Load A

abbrev pub Reader {ℓ} : Type ℓ → Type ℓ
Reader A = Input → Load A

abbrev pub and_then {ℓ κ} : {A : Type ℓ} {B : Type κ} → Load A → (A → Reader B) → Load B
and_then incomplete k = incomplete
and_then out_of_fuel k = out_of_fuel
and_then null_child k = null_child
and_then (no_inode s) k = no_inode s
and_then (loaded a rest) k = k a rest

infixl 4 ◌>=>◌
abbrev pub ◌>=>◌ {ℓ κ} : {A : Type ℓ} {B : Type κ} → Reader A → (A → Reader B) → Reader B
p >=> k = λ s. and_then (p s) k

-- `fread` of one integer of `k` bytes
unfoldable pub read_int : ℕ → Reader ℕ
read_int k s = elim (read_le k s.file) [
  | none ↦ incomplete
  | some (v, rest) ↦ loaded v (record s { file = rest })
]

-- A call of `malloc` or `calloc` that is tested: without memory the function returns NULL.
abbrev pub try_malloc : Reader (Unit {0})
try_malloc s =
    if s.memory 0 then loaded tt (record s { memory = λ k. s.memory (k + 1) }) else no_inode s

-- The `fread` of the `k` bytes of a name: with fewer the function returns NULL.
unfoldable pub read_bytes : ℕ → Reader Bytes
read_bytes k s =
    if ltb (length s.file) k
    then no_inode s
    else loaded (take k s.file) (record s { file = drop k s.file })

-- An array of bytes as a C string: up to the first 0.
unfoldable pub c_string : Bytes → Bytes
c_string [] = []
c_string (b ∷ bs) = if b == 0 then [] else b ∷ c_string bs

unfoldable pub read_blocks : ℕ → Reader (List ℕ)
read_blocks zero s = loaded [] s
read_blocks (suc k) s = (read_int 8 >=> λ b. read_blocks k >=> λ bs. loaded (b ∷ bs)) s

-- `children[i] = create_inode(file)`
abbrev pub stored_child : {A : Type 0} → Load A → Load A
stored_child incomplete = incomplete
stored_child out_of_fuel = out_of_fuel
stored_child null_child = null_child
stored_child (no_inode s) = null_child
stored_child (loaded a rest) = loaded a rest

-- The loop that fills `children`, with the function that reads one child.
unfoldable pub read_children : Reader Inode → ℕ → Reader Inodes
read_children child zero s = loaded nil s
read_children child (suc k) s =
    ((λ s. stored_child (child s)) >=> λ c. read_children child k >=> λ cs. loaded (cons c cs)) s

-- An `int` of this bit pattern is negative.
abbrev pub negative : ℕ → Bool
negative v = leb (2 ^ 31) v

-- The two ends of `create_inode`. The ids of the children are read into an array that is dropped; a
-- directory with a negative number of children gets none. A negative size is too large for `malloc`.
unfoldable pub read_directory : Reader Inode → ℕ → Bytes → ℕ → Reader Inode
read_directory child i n d = read_int 4 >=> λ k.
    let number = (if negative k then 0 else k) in
    let some_children : Reader Inodes = try_malloc >=> λ _.
    read_blocks number >=> λ _. try_malloc >=> λ _. read_children child number in
    (if number == 0 then loaded nil else some_children) >=> λ cs. loaded (inode i n d cs 0 [])

unfoldable pub read_file : ℕ → Bytes → Reader Inode
read_file i n = read_int 4 >=> λ size. read_int 4 >=> λ k.
    if negative k
    then no_inode
    else (try_malloc >=> λ _. read_blocks k >=> λ bs. loaded (inode i n 0 nil size bs))

abbrev pub next_id : Input → Input
next_id s = record s { num_inode_ids = s.num_inode_ids + 1 }

-- `create_inode`, on fuel for the depth of the tree.
unfoldable pub create_inode : ℕ → Reader Inode
create_inode zero s = out_of_fuel
create_inode (suc f) s =
    (try_malloc >=> λ _. read_int 4 >=> λ i s₁.
    (read_int 4 >=> λ k.
    if negative k
    then no_inode
    else (try_malloc >=> λ _. read_bytes k >=> λ n. read_int 1 >=> λ d.
        if d == 0
        then read_file i (c_string n)
        else read_directory (create_inode f) i (c_string n) d))
      (next_id s₁))
      s

-- `load_inodes`; every inode takes bytes, so the file's length bounds the depth. `none`: the file
-- cannot be opened.
unfoldable pub load_inodes : (memory : ℕ → Bool) → Option Bytes → ℕ → Option (Load Inode)
load_inodes memory none ids = none
load_inodes memory (some bytes) ids =
    some (create_inode (length bytes + 1) (record (input bytes ids) { memory = memory }))
