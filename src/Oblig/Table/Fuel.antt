-- ===== src/Oblig/Table/Fuel.antt =====
-- oblig/inode.c: `load_inodes` ends on every file, since each inode takes bytes from it.
use in2140_introduksjon_til.Oblig.Inode.{Inode, inode, nil, cons}
use in2140_introduksjon_til.Oblig.Table.{
  input, Reader, and_then, ◌>=>◌, read_int, try_malloc, read_bytes, c_string, read_blocks,
  stored_child, read_children, negative, read_directory, read_file, next_id, create_inode,
  load_inodes, no_inode, loaded, Input, Load, incomplete, out_of_fuel, null_child,
}
use in2140_introduksjon_til.Common.Words.{Bytes, from_le, read_le}
use in2140_introduksjon_til.Common.{
  ltb, ◌==◌, if◌then◌else◌, Bool-cases, length, take, drop, length-drop_le, ℕ, zero, suc, ◌+◌, ◌≤◌,
  ◌<◌, ◌≡◌, refl, ◌≢◌, ◌⊎◌, inl, inr, Bool, true, false, some, [], ◌∷◌, arith,
}

-- The reading ends, with no more bytes left than there were.
abbrev pub Reads {ℓ} : {A : Type ℓ} → ℕ → Load A → Type 0
Reads n incomplete = Unit
Reads n out_of_fuel = ⊥
Reads n null_child = Unit
Reads n (no_inode s) = Unit
Reads n (loaded a rest) = length rest.file ≤ n

-- On a file of at most `n` bytes the reader ends.
pub record EndsOn {ℓ} {A : Type ℓ} (n : ℕ) (p : Reader A) : Type ℓ where
  pub reads : (s : Input) → length s.file ≤ n → Reads (length s.file) (p s)

length-drop_eq : (k : ℕ) (bs : Bytes) → k ≤ length bs → length (drop k bs) + k ≡ length bs
length-drop_eq zero bs h = omega arith
length-drop_eq (suc k) [] h = absurd (omega arith)
length-drop_eq (suc k) (b ∷ bs) h = omega (arith, length-drop_eq k bs (omega arith))

Reads-le : {A : Type 0} (n m : ℕ) (r : Load A) → n ≤ m → Reads n r → Reads m r
Reads-le n m incomplete h r = tt
Reads-le n m out_of_fuel h r = r
Reads-le n m null_child h r = tt
Reads-le n m (no_inode s) h r = tt
Reads-le n m (loaded a rest) h r = omega arith

Reads-and_then :
    {A C : Type 0} (n m : ℕ) (r : Load A) (k : A → Reader C)
    → n ≤ m
    → Reads n r
    → ((a : A) → EndsOn m (k a))
    → Reads n (and_then r k)
Reads-and_then n m incomplete k h r f = tt
Reads-and_then n m out_of_fuel k h r f = r
Reads-and_then n m null_child k h r f = tt
Reads-and_then n m (no_inode s) k h r f = tt
Reads-and_then n m (loaded a rest) k h r f =
    Reads-le (length rest.file) n (k a rest) r ((f a).reads rest (omega arith))

pub EndsOn-then :
    {A C : Type 0} (n : ℕ) (p : Reader A) (k : A → Reader C)
    → EndsOn n p
    → ((a : A) → EndsOn n (k a))
    → EndsOn n (p >=> k)
EndsOn-then n p k e f = record {
  reads = λ s h. Reads-and_then (length s.file) n (p s) k h (e.reads s h) f;
}

EndsOn-loaded : {A : Type 0} (n : ℕ) (a : A) → EndsOn n (loaded a)
EndsOn-loaded n a = record { reads = λ s h. omega arith }

EndsOn-no_inode : {A : Type 0} (n : ℕ) → EndsOn {A = A} n no_inode
EndsOn-no_inode n = record { reads = λ s h. tt }

EndsOn-try_malloc : (n : ℕ) → EndsOn n try_malloc
EndsOn-try_malloc n = record { reads = λ s h. within s (s.memory 0) }
  where
    within :
        (s : Input) (b : Bool)
        → Reads {0}
            (length s.file)
            (if b then loaded tt (record s { memory = λ k. s.memory (k + 1) }) else no_inode s)
    within s true = omega arith
    within s false = tt

EndsOn-stored_child :
    {A : Type 0} (n : ℕ) (child : Reader A)
    → EndsOn n child
    → EndsOn n (λ s. stored_child (child s))
EndsOn-stored_child {A} n child e = record {
  reads = λ s h. within (length s.file) (child s) (e.reads s h);
}
  where
    within : (k : ℕ) (r : Load A) → Reads k r → Reads k (stored_child r)
    within k incomplete h = tt
    within k out_of_fuel h = h
    within k null_child h = tt
    within k (no_inode s) h = tt
    within k (loaded a rest) h = h

EndsOn-read_int : (n k : ℕ) → EndsOn n (read_int k)
unfolding read_int read_le
EndsOn-read_int n k = record {
  reads = λ s h. elim (Bool-cases (ltb (length s.file) k)) [
    | inl e ↦ rw (e, read_int) tt
    | inr e ↦ rw (e, read_int) (length-drop_le k s.file)
  ];
}

EndsOn-read_bytes : (n k : ℕ) → EndsOn n (read_bytes k)
unfolding read_bytes
EndsOn-read_bytes n k = record {
  reads = λ s h. elim (Bool-cases (ltb (length s.file) k)) [
    | inl e ↦ rw e tt
    | inr e ↦ rw e (length-drop_le k s.file)
  ];
}

EndsOn-read_blocks : (n k : ℕ) → EndsOn n (read_blocks k)
unfolding read_blocks
EndsOn-read_blocks n zero = record { reads = λ s h. omega arith }
EndsOn-read_blocks n (suc k) = record {
  reads = λ s h.
      (EndsOn-then n (read_int 8) _ (EndsOn-read_int n 8) (λ b.
          EndsOn-then n (read_blocks k) _ (EndsOn-read_blocks n k)
            (λ bs. EndsOn-loaded n (b ∷ bs)))).reads
        s h;
}

EndsOn-read_children :
    (n k : ℕ) (child : Reader Inode) → EndsOn n child → EndsOn n (read_children child k)
unfolding read_children
EndsOn-read_children n zero child e = record { reads = λ s h. omega arith }
EndsOn-read_children n (suc k) child e = record {
  reads = λ s h.
      (EndsOn-then n _ _ (EndsOn-stored_child n child e) (λ c.
          EndsOn-then n (read_children child k) _ (EndsOn-read_children n k child e)
            (λ cs. EndsOn-loaded n (cons c cs)))).reads
        s h;
}

EndsOn-read_directory :
    (n i d : ℕ) (text : Bytes) (child : Reader Inode)
    → EndsOn n child
    → EndsOn n (read_directory child i text d)
unfolding read_directory
EndsOn-read_directory n i d text child e = EndsOn-then n (read_int 4) _ (EndsOn-read_int n 4) (λ k.
    let number = (if negative k then 0 else k) in
    EndsOn-then n _ _
      (elim (Bool-cases (number == 0)) [
        | inl none_there ↦ rw none_there (EndsOn-loaded n nil)
        | inr some_there ↦ rw some_there (
            EndsOn-then n try_malloc _ (EndsOn-try_malloc n) (λ _.
              EndsOn-then n (read_blocks number) _ (EndsOn-read_blocks n number) (λ _.
                EndsOn-then n try_malloc _ (EndsOn-try_malloc n)
                  (λ _. EndsOn-read_children n number child e))))
      ])
      (λ cs. EndsOn-loaded n (inode i text d cs 0 [])))

EndsOn-read_file : (n i : ℕ) (text : Bytes) → EndsOn n (read_file i text)
unfolding read_file
EndsOn-read_file n i text = EndsOn-then n (read_int 4) _ (EndsOn-read_int n 4) (λ size.
    EndsOn-then n (read_int 4) _ (EndsOn-read_int n 4) (λ k. elim (Bool-cases (negative k)) [
      | inl e ↦ rw e (EndsOn-no_inode n)
      | inr e ↦ rw e (
          EndsOn-then n try_malloc _ (EndsOn-try_malloc n) (λ _.
            EndsOn-then n (read_blocks k) _ (EndsOn-read_blocks n k)
              (λ bs. EndsOn-loaded n (inode i text 0 nil size bs))))
    ]))

-- What `create_inode` does behind the id.
create_inode_rest :
    (n f i : ℕ)
    → EndsOn n (create_inode f)
    → EndsOn n (
        read_int 4 >=> λ k.
        if negative k
        then no_inode
        else (try_malloc >=> λ _. read_bytes k >=> λ text. read_int 1 >=> λ d.
            if d == 0
            then read_file i (c_string text)
            else read_directory (create_inode f) i (c_string text) d))
create_inode_rest n f i e = EndsOn-then n (read_int 4) _ (EndsOn-read_int n 4) (λ k.
    elim (Bool-cases (negative k)) [
      | inl neg ↦ rw neg (EndsOn-no_inode n)
      | inr neg ↦ rw neg (
          EndsOn-then n try_malloc _ (EndsOn-try_malloc n) (λ _.
            EndsOn-then n (read_bytes k) _ (EndsOn-read_bytes n k) (λ text.
              EndsOn-then n (read_int 1) _ (EndsOn-read_int n 1) (λ d. elim (Bool-cases (d == 0)) [
                | inl file ↦ rw file (EndsOn-read_file n i (c_string text))
                | inr dir ↦ rw dir (EndsOn-read_directory n i d (c_string text) (create_inode f) e)
              ]))))
    ])

read_int_cases :
    (k : ℕ) (s : Input)
    → (read_int k s ≡ incomplete)
      ⊎ ((v : ℕ) × (rest : Input) × (read_int k s ≡ loaded v rest)
          × (length rest.file + k ≡ length s.file))
unfolding read_int read_le
read_int_cases k s = elim (Bool-cases (ltb (length s.file) k)) [
  | inl e ↦ inl (rw (e, read_int) refl)
  | inr e ↦ inr (
    from_le (take k s.file),
    record s { file = drop k s.file },
    rw (e, read_int) refl,
    length-drop_eq k s.file (ground (arith, e)),
  )
]

-- What `create_inode` does behind the `calloc`.
create_inode_fields :
    (n f : ℕ)
    → ((m : ℕ) → m < n → EndsOn m (create_inode f))
    → EndsOn n (
        read_int 4 >=> λ i s₁.
        (read_int 4 >=> λ k.
        if negative k
        then no_inode
        else (try_malloc >=> λ _. read_bytes k >=> λ text. read_int 1 >=> λ d.
            if d == 0
            then read_file i (c_string text)
            else read_directory (create_inode f) i (c_string text) d))
          (next_id s₁))
create_inode_fields n f below = record {
  reads = λ s short. elim (read_int_cases 4 s) [
    | inl e ↦ rw e tt
    | inr (i, s₁, e, left) ↦ rw e (
        Reads-le (length s₁.file) (length s.file) _ (omega arith) (
          (create_inode_rest (length s₁.file) f i (below (length s₁.file) (omega arith))).reads
            (next_id s₁) (omega arith)))
  ];
}

EndsOn-create_inode : (f n : ℕ) → n < f → EndsOn n (create_inode f)
unfolding create_inode
EndsOn-create_inode zero n h = absurd (omega arith)
EndsOn-create_inode (suc f) n h = record {
  reads = λ s short.
      (EndsOn-then n try_malloc _ (EndsOn-try_malloc n)
          (λ _. create_inode_fields n f (λ m k. EndsOn-create_inode f m (omega arith)))).reads
        s short;
}

not_out_of_fuel : {A : Type 0} (n : ℕ) (r : Load A) → Reads n r → r ≢ out_of_fuel
not_out_of_fuel n incomplete h e = cc
not_out_of_fuel n out_of_fuel h e = h
not_out_of_fuel n null_child h e = cc
not_out_of_fuel n (no_inode s) h e = cc
not_out_of_fuel n (loaded a rest) h e = cc

-- Whatever the file holds and whichever allocations fail, the fuel of `load_inodes`, one more than the
-- bytes of the file, does not run out.
pub load_inodes_ends :
    (memory : ℕ → Bool) (bytes : Bytes) (ids : ℕ)
    → load_inodes memory (some bytes) ids ≢ some out_of_fuel
unfolding load_inodes
load_inodes_ends memory bytes ids e =
    let start = record (input bytes ids) { memory = memory } in
    let ends = EndsOn-create_inode (length bytes + 1) (length bytes) (omega arith) in
    not_out_of_fuel (length bytes) (create_inode (length bytes + 1) start)
      (ends.reads start (omega arith)) cc
