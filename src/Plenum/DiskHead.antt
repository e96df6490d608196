-- ===== src/Plenum/DiskHead.antt =====
-- plenum/uke9/uke9.c: the algorithms that choose the order of the requests to a disk, and the
-- number of tracks that its head moves over. Track numbers are numbers from 0 on.
pub mod Extremes
pub mod Distance
use in2140_introduksjon_til.Oblig.Inode.{name, strcmp_eq}
use in2140_introduksjon_til.Common.Words.{Bytes, codes}
use Prim.Native.String.{String}
use in2140_introduksjon_til.Common.Run.{Run, exited, ok}
use in2140_introduksjon_til.Common.{
  ltb, if◌then◌else◌, length, get_elem?, take, drop, ℕ, zero, suc, ◌+◌, ◌-◌, Bool, Option, none,
  some, List, [], ◌∷◌, map,
}

-- DISKSIZE
abbrev pub disksize : ℕ
disksize = 40

pub data DsAlgos : Type 0 where
  fcfs_algo look_algo lookdown_algo scan_algo : DsAlgos

-- `abs(pos - request)`
abbrev pub distance : ℕ → ℕ → ℕ
distance position request = (position - request) + (request - position)

-- Where the distance is an int: `fcfs`, and the loop of `look` from `requests[idx]` on.
unfoldable pub fcfs : ℕ → List ℕ → ℕ
fcfs position [] = 0
fcfs position (r ∷ requests) = distance position r + fcfs r requests

-- `while (idx < num && pos > requests[idx]) idx++;`
unfoldable pub first_not_below : ℕ → List ℕ → ℕ
first_not_below position [] = 0
first_not_below position (r ∷ requests) =
    if ltb r position then suc (first_not_below position requests) else 0

-- The loop of `lookdown`, from `requests[idx - 1]` down.
unfoldable pub move_down : ℕ → List ℕ → ℕ → ℕ
move_down position requests zero = 0
move_down position requests (suc i) = elim (get_elem? requests i) [
  | none ↦ 0
  | some r ↦ distance position r + move_down r requests i
]

module _ (sort : List ℕ → List ℕ) where
  -- `qsort( requests, num, sizeof(int), &lt )` is `sort`.
  unfoldable pub look : ℕ → List ℕ → ℕ
  look position requests =
      let sorted = sort requests in fcfs position (drop (first_not_below position sorted) sorted)

  unfoldable pub lookdown : ℕ → List ℕ → ℕ
  lookdown position requests =
      let sorted = sort requests in move_down position sorted (first_not_below position sorted)

  -- `memory`: whether `malloc` returns memory
  unfoldable pub scan : Bool → ℕ → List ℕ → ℕ
  scan memory position requests =
      if memory then look position (0 ∷ (disksize - 1) ∷ requests) else look position requests

  abbrev pub moved : DsAlgos → Bool → ℕ → List ℕ → ℕ
  moved fcfs_algo memory position requests = fcfs position requests
  moved look_algo memory position requests = look position requests
  moved lookdown_algo memory position requests = lookdown position requests
  moved scan_algo memory position requests = scan memory position requests

-- `strncmp(word, name, 5) == 0`
abbrev same_start : Bytes → String → Bool
same_start word name = strcmp_eq (take 5 word) (take 5 (codes name))

-- The choice in `main`; `none`: the algorithm is not supported.
unfoldable pub algorithm : Bytes → Option DsAlgos
algorithm word =
    if same_start word "FCFS"
    then some fcfs_algo
    else if same_start word "LOOK"
    then some look_algo
    else if same_start word "LOOKDOWN"
    then some lookdown_algo
    else if same_start word "SCAN"
    then some scan_algo
    else none

module _ (sort : List ℕ → List ℕ) (atoi : Bytes → ℕ) where
  -- `requests[i] = atoi(argv[i+1])` for all `i < argc-2`; the first one is the start.
  abbrev move_from : DsAlgos → Bool → List ℕ → Run ℕ
  move_from algo memory [] = exited
  move_from algo memory (startpos ∷ requests) = ok (moved sort algo memory startpos requests)

  -- `main` with memory for its own arrays, from `argv[1]` on: the distance that it prints.
  unfoldable pub seek_main : Bool → List Bytes → Run ℕ
  seek_main memory [] = exited
  seek_main memory (word ∷ []) = exited
  seek_main memory (word ∷ track ∷ tracks) = elim (algorithm word) [
    | none ↦ exited
    | some algo ↦
        move_from algo memory (map atoi (take (length tracks + 1) (word ∷ track ∷ tracks)))
  ]
