-- ===== src/Eksam/D2/Store.antt =====
-- eksam/handout/d2_lookup.c: the local tree, an array of nodes. A place of the array that was not
-- written yet is `none`. `child_id` holds the entries that were set.
use in2140_introduksjon_til.Common.Words.{Bytes, read_le, swap32}
use in2140_introduksjon_til.Common.{
  ltb, ◌==◌, if◌then◌else◌, length, get_elem?, set, take, replicate, ℕ, zero, suc, ◌+◌, ◌-◌, min,
  Bool, true, false, ◌&&◌, Option, none, some, List, [], ◌∷◌, ◌++◌,
}

pub record NetNode : Type 0 where
  pub id : ℕ
  pub value : ℕ
  pub num_children : ℕ
  pub child_id : List ℕ

pub record LocalTreeStore : Type 0 where
  pub number_of_nodes : ℕ
  pub nodes : List (Option NetNode)

-- `d2_alloc_local_tree`, with whether each of the two calls of `malloc` returns memory.
unfoldable pub d2_alloc_local_tree : (tree nodes : Bool) → ℕ → Option LocalTreeStore
d2_alloc_local_tree tree nodes num_nodes =
    if tree && nodes
    then some (record { number_of_nodes = num_nodes; nodes = replicate num_nodes none })
    else none

-- `fault`: a read or write outside an array. `no_fuel` is no outcome of the code.
pub data Access {ℓ} (A : Type ℓ) : Type ℓ where
  fault no_fuel : Access A
  got : A → Access A

abbrev pub and_then {ℓ κ} : {A : Type ℓ} {B : Type κ} → Access A → (A → Access B) → Access B
and_then fault k = fault
and_then no_fuel k = no_fuel
and_then (got a) k = k a

-- `ntohl(*ptr++)`: the number, and the memory from `ptr` on.
unfoldable pub next_word : Bytes → Access (ℕ × Bytes)
next_word memory = elim (read_le 4 memory) [ none ↦ fault | some (v, rest) ↦ got (swap32 v, rest) ]

-- The loop that reads the children.
unfoldable pub next_words : ℕ → Bytes → Access (List ℕ × Bytes)
next_words zero memory = got ([], memory)
next_words (suc k) memory =
    and_then (next_word memory)
      λ (v, rest). and_then (next_words k rest) λ (vs, rest'). got (v ∷ vs, rest')

-- One round of the loop of `d2_add_to_local_tree`: a node, and the memory behind it. The line that
-- prints the node reads `child_id[i]` for every `i` below `num_children`, past its 5 entries if there
-- are more.
unfoldable pub next_node : Bytes → Access (NetNode × Bytes)
next_node memory = and_then (next_word memory) λ (i, m₁). and_then (next_word m₁) λ (v, m₂).
    and_then (next_word m₂) λ (k, m₃). and_then (next_words (min k 5) m₃) λ (ids, m₄).
      if ltb 5 k
      then fault
      else got (record { id = i; value = v; num_children = k; child_id = ids }, m₄)

-- `nodes->nodes[node_idx] = node`
unfoldable pub put_node : List (Option NetNode) → ℕ → NetNode → Access (List (Option NetNode))
put_node nodes idx n = if ltb idx (length nodes) then got (set nodes idx (some n)) else fault

-- The loop: `left` is what of `buflen` lies ahead of `ptr`, and 0 when `ptr` has passed the end.
unfoldable pub add_loop :
    ℕ → List (Option NetNode) → ℕ → Bytes → ℕ → Access (ℕ × List (Option NetNode))
add_loop zero nodes idx memory left = no_fuel
add_loop (suc f) nodes idx memory left = elim (left == 0) [
  | true ↦ got (idx, nodes)
  | false ↦ and_then (next_node memory) λ (n, rest).
      and_then (put_node nodes idx n)
        λ nodes'. add_loop f nodes' (idx + 1) rest (left - (length memory - length rest))
]

-- `d2_add_to_local_tree`: the returned index, and the tree. Every round takes bytes of the buffer, so
-- `buflen + 1` rounds are enough.
unfoldable pub d2_add_to_local_tree :
    LocalTreeStore → ℕ → (buffer : Bytes) → (buflen : ℕ) → Access (ℕ × LocalTreeStore)
d2_add_to_local_tree store node_idx buffer buflen =
    and_then (add_loop (buflen + 1) store.nodes node_idx buffer buflen)
      λ (idx, nodes). got (idx, record store { nodes = nodes })

-- A printed line: the depth, and the node's id, value and number of children.
abbrev pub Line : Type 0
Line = ℕ × ℕ × ℕ × ℕ

-- `nodes[node_id]`; a place that was not written has no values to print.
unfoldable pub node_at : List (Option NetNode) → ℕ → Access NetNode
node_at nodes i = elim (get_elem? nodes i) [
  | none ↦ fault
  | some none ↦ fault
  | some (some n) ↦ got n
]

-- The loop over the children, with what prints one child.
unfoldable pub print_children : (ℕ → Access (List Line)) → List ℕ → Access (List Line)
print_children child [] = got []
print_children child (c ∷ cs) =
    and_then (child c) λ ls. and_then (print_children child cs) λ rest. got (ls ++ rest)

abbrev pub line : ℕ → NetNode → Line
line depth n = (depth, n.id, n.value, n.num_children)

-- The children that the loop visits; it reads past `child_id` if there are fewer entries.
unfoldable pub visited : NetNode → Access (List ℕ)
visited n =
    if ltb (length n.child_id) n.num_children then fault else got (take n.num_children n.child_id)

-- `print_node`, on fuel for the depth of the tree.
unfoldable pub print_node : ℕ → List (Option NetNode) → ℕ → ℕ → Access (List Line)
print_node zero nodes node_id depth = no_fuel
print_node (suc f) nodes node_id depth = and_then (node_at nodes node_id) λ n.
    and_then (visited n) λ ids.
      and_then (print_children (λ c. print_node f nodes c (depth + 1)) ids)
        λ ls. got (line depth n ∷ ls)

-- `d2_print_tree`: the node at index 0 without dashes, then its children at depth 1.
unfoldable pub d2_print_tree : ℕ → LocalTreeStore → Access (List Line)
d2_print_tree fuel store = and_then (node_at store.nodes 0) λ n. and_then (visited n) λ ids.
    and_then (print_children (λ c. print_node fuel store.nodes c 1) ids) λ ls. got (line 0 n ∷ ls)
