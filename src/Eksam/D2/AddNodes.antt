-- ===== src/Eksam/D2/AddNodes.antt =====
-- What `d2_add_to_local_tree` does with a buffer of nodes in the format of PacketResponse: the
-- children behind `num_children` are left out, all fields are in network byte order.
use in2140_introduksjon_til.Common.Words.{
  Bytes, le_bytes, length-le_bytes, read_le-le_bytes, swap32, swap32_twice, swap32-lt,
}
use in2140_introduksjon_til.Common.{
  lt→ltb, le→ltb, ==_ne, length, set, All, length-append, ℕ, zero, suc, ◌+◌, ◌-◌, ◌*◌, ◌^◌, ◌≤◌,
  ◌<◌, min, ◌≡◌, refl, sym, ap, ap₂, ◌∙◌, Option, some, List, [], ◌∷◌, ◌++◌, map, append_assoc,
  arith,
}
use in2140_introduksjon_til.Eksam.D2.Store.{
  next_word, next_words, next_node, put_node, add_loop, d2_add_to_local_tree, NetNode, got,
}

-- The bytes of the numbers, in front of `rest`.
unfoldable pub word_bytes : ℕ → Bytes → Bytes
word_bytes v rest = le_bytes 4 (swap32 v) ++ rest

unfoldable pub words_bytes : List ℕ → Bytes → Bytes
words_bytes [] rest = rest
words_bytes (v ∷ vs) rest = word_bytes v (words_bytes vs rest)

unfoldable pub node_bytes : NetNode → Bytes → Bytes
node_bytes n rest =
    word_bytes n.id (word_bytes n.value (word_bytes n.num_children (words_bytes n.child_id rest)))

unfoldable pub nodes_bytes : List NetNode → Bytes → Bytes
nodes_bytes [] rest = rest
nodes_bytes (n ∷ ns) rest = node_bytes n (nodes_bytes ns rest)

-- How many bytes these are.
unfoldable pub nodes_size : List NetNode → ℕ
nodes_size [] = 0
nodes_size (n ∷ ns) = 12 + 4 * length n.child_id + nodes_size ns

-- A node that fits the fields: at most 5 children, all of them in `child_id`, and 32-bit values.
abbrev pub Fits : NetNode → Type 0
Fits n =
    (n.id < 2 ^ 32)
    × (n.value < 2 ^ 32)
    × (length n.child_id ≡ n.num_children)
    × (n.num_children ≤ 5)
    × All (λ c. c < 2 ^ 32) n.child_id

pub next_word-word_bytes :
    (v : ℕ) (rest : Bytes) → v < 2 ^ 32 → next_word (word_bytes v rest) ≡ got (v, rest)
unfolding next_word word_bytes
next_word-word_bytes v rest h =
    let sw = swap32_twice v h in
    rw (read_le-le_bytes 4 (swap32 v) rest (swap32-lt v h), next_word, sw)

next_words-words_bytes :
    (vs : List ℕ) (rest : Bytes)
    → All (λ c. c < 2 ^ 32) vs
    → next_words (length vs) (words_bytes vs rest) ≡ got (vs, rest)
unfolding next_words words_bytes
next_words-words_bytes [] rest h = refl
next_words-words_bytes (v ∷ vs) rest (h, hs) =
    rw (next_word-word_bytes v (words_bytes vs rest) h, next_words-words_bytes vs rest hs)

next_node-node_bytes :
    (n : NetNode) (rest : Bytes) → Fits n → next_node (node_bytes n rest) ≡ got (n, rest)
unfolding next_node node_bytes
next_node-node_bytes n rest (i, v, l, k, cs) =
    let all : min n.num_children 5 ≡ length n.child_id = omega arith in
    let small : n.num_children < 2 ^ 32 = omega arith in
    rw (
      next_word-word_bytes n.id _ i,
      next_word-word_bytes n.value _ v,
      next_word-word_bytes n.num_children _ small,
      all,
      next_words-words_bytes n.child_id rest cs,
      le→ltb 5 n.num_children k,
    )

length-word_bytes : (v : ℕ) (rest : Bytes) → length (word_bytes v rest) ≡ 4 + length rest
unfolding word_bytes
length-word_bytes v rest =
    omega (arith, length-append (le_bytes 4 (swap32 v)) rest, length-le_bytes 4 (swap32 v))

length-words_bytes :
    (vs : List ℕ) (rest : Bytes) → length (words_bytes vs rest) ≡ 4 * length vs + length rest
unfolding words_bytes
length-words_bytes [] rest = omega arith
length-words_bytes (v ∷ vs) rest =
    omega (arith, length-word_bytes v (words_bytes vs rest), length-words_bytes vs rest)

length-node_bytes :
    (n : NetNode) (rest : Bytes)
    → length (node_bytes n rest) ≡ 12 + 4 * length n.child_id + length rest
unfolding node_bytes
length-node_bytes n rest =
    let cs = words_bytes n.child_id rest in
    let ks = word_bytes n.num_children cs in
    omega (
      arith,
      length-word_bytes n.id (word_bytes n.value ks),
      length-word_bytes n.value ks,
      length-word_bytes n.num_children cs,
      length-words_bytes n.child_id rest,
    )

pub length-nodes_bytes :
    (ns : List NetNode) (rest : Bytes) → length (nodes_bytes ns rest) ≡ nodes_size ns + length rest
unfolding nodes_bytes nodes_size
length-nodes_bytes [] rest = omega arith
length-nodes_bytes (n ∷ ns) rest =
    omega (arith, length-node_bytes n (nodes_bytes ns rest), length-nodes_bytes ns rest)

set_at :
    (before xs : List (Option NetNode)) (o v : Option NetNode)
    → set (before ++ (o ∷ xs)) (length before) v ≡ before ++ (v ∷ xs)
set_at [] xs o v = refl
set_at (b ∷ before) xs o v = ap (λ ys. b ∷ ys) (set_at before xs o v)

put_node_at :
    (before xs : List (Option NetNode)) (o : Option NetNode) (n : NetNode)
    → put_node (before ++ (o ∷ xs)) (length before) n ≡ got (before ++ (some n ∷ xs))
unfolding put_node
put_node_at before xs o n =
    let inside : length before < length (before ++ (o ∷ xs)) =
      omega (arith, length-append before (o ∷ xs)) in
    rw (lt→ltb (length before) (length (before ++ (o ∷ xs))) inside, set_at before xs o (some n))

-- One round that reads a node and writes it.
add_loop_step :
    (f : ℕ) (nodes nodes' : List (Option NetNode)) (idx left left' : ℕ) (memory rest : Bytes)
    (n : NetNode)
    → next_node memory ≡ got (n, rest)
    → put_node nodes idx n ≡ got nodes'
    → 0 < left
    → left - (length memory - length rest) ≡ left'
    → add_loop (suc f) nodes idx memory left ≡ add_loop f nodes' (idx + 1) rest left'
unfolding add_loop
add_loop_step f nodes nodes' idx left left' memory rest n read put more step =
    rw (==_ne left 0 (λ e. omega arith), add_loop, read, put, step)

-- The places of the array behind `before`, which hold `old`, are written with `ns`.
add_loop-nodes_bytes :
    (fuel : ℕ) (ns : List NetNode) (before old after : List (Option NetNode)) (tail : Bytes)
    → All Fits ns
    → length old ≡ length ns
    → nodes_size ns < fuel
    → add_loop fuel (before ++ (old ++ after)) (length before) (nodes_bytes ns tail) (nodes_size ns)
      ≡ got (length before + length ns, before ++ (map some ns ++ after))
unfolding add_loop nodes_size nodes_bytes
add_loop-nodes_bytes zero ns before old after tail fit size enough = absurd (omega arith)
add_loop-nodes_bytes (suc f) [] before [] after tail fit size enough =
    ap (λ i. got (i, before ++ after)) (omega arith)
add_loop-nodes_bytes (suc f) [] before (o ∷ old) after tail fit size enough = absurd (omega arith)
add_loop-nodes_bytes (suc f) (n ∷ ns) before [] after tail fit size enough = absurd (omega arith)
add_loop-nodes_bytes (suc f) (n ∷ ns) before (o ∷ old) after tail (fit, fits) size enough =
    let rest = nodes_bytes ns tail in
    let bytes = node_bytes n rest in
    let before' = before ++ (some n ∷ []) in
    let idx : length before' ≡ length before + 1 =
      omega (arith, length-append before (some n ∷ [])) in
    let size' : length before' + length ns ≡ length before + suc (length ns) = omega arith in
    let step =
      add_loop_step f _ _ (length before) (nodes_size (n ∷ ns)) (nodes_size ns) bytes rest n
        (next_node-node_bytes n rest fit) (put_node_at before (old ++ after) o n) (omega arith)
        (omega (arith, length-node_bytes n rest)) in
    let more = add_loop-nodes_bytes f ns before' old after tail fits (omega arith) (omega arith) in
    step
    ∙ ap₂ (λ xs i. add_loop f xs i rest (nodes_size ns)) (sym (append_assoc before _ _)) (sym idx)
    ∙ more
    ∙ ap₂ (λ i xs. got (i, xs)) size' (append_assoc before _ _)

-- A buffer that holds nodes which fit the format, and anything behind them: `d2_add_to_local_tree`,
-- called with the size of the nodes and the index of the first free place, writes the nodes in
-- order into the places from that index on, changes no other place, and returns the index raised by
-- the number of nodes. The array has a place for every node.
pub d2_add_to_local_tree-nodes_bytes :
    (number : ℕ) (ns : List NetNode) (before old after : List (Option NetNode)) (tail : Bytes)
    → All Fits ns
    → length old ≡ length ns
    → d2_add_to_local_tree
        (record { number_of_nodes = number; nodes = before ++ (old ++ after) })
        (length before)
        (nodes_bytes ns tail)
        (nodes_size ns)
      ≡ got (
        length before + length ns,
        record { number_of_nodes = number; nodes = before ++ (map some ns ++ after) },
      )
unfolding d2_add_to_local_tree
d2_add_to_local_tree-nodes_bytes number ns before old after tail fits size =
    rw (add_loop-nodes_bytes (nodes_size ns + 1) ns before old after tail fits size (omega arith))
