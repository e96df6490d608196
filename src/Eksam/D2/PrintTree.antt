-- ===== src/Eksam/D2/PrintTree.antt =====
-- What `d2_print_tree` prints of a tree whose nodes are numbered in depth-first order, as the server
-- assigns the ids.
use in2140_introduksjon_til.Common.{
  le→ltb, length, get_elem?, length-append, take_all, ℕ, zero, suc, ◌+◌, ◌≤◌, max, ◌≡◌, refl, sym,
  ap, ap₂, ◌∙◌, Option, some, List, [], ◌∷◌, ◌++◌, map, append-nil, append_assoc, arith,
}
use in2140_introduksjon_til.Eksam.D2.Store.{
  Line, node_at, print_children, line, visited, print_node, d2_print_tree, NetNode, got,
}

-- A list of trees: the first one's value and children, and the others.
pub data Forest : Type 0 where
  no_trees : Forest
  tree : (value : ℕ) → (children siblings : Forest) → Forest

unfoldable pub size : Forest → ℕ
size no_trees = 0
size (tree v cs ss) = suc (size cs + size ss)

unfoldable pub height : Forest → ℕ
height no_trees = 0
height (tree v cs ss) = max (suc (height cs)) (height ss)

-- The ids of the roots, where the first tree's root has the id `k`.
unfoldable pub roots : ℕ → Forest → List ℕ
roots k no_trees = []
roots k (tree v cs ss) = k ∷ roots (suc k + size cs) ss

unfoldable pub root_node : ℕ → ℕ → Forest → NetNode
root_node k v cs = record {
  id = k;
  value = v;
  num_children = length (roots (suc k) cs);
  child_id = roots (suc k) cs;
}

-- The nodes in depth-first order, numbered from `k` on.
unfoldable pub numbered : ℕ → Forest → List NetNode
numbered k no_trees = []
numbered k (tree v cs ss) =
    root_node k v cs ∷ (numbered (suc k) cs ++ numbered (suc k + size cs) ss)

-- The lines of the specified printout: a node's line, those of its children one deeper, and those of
-- its siblings.
unfoldable pub preorder : ℕ → ℕ → Forest → List Line
preorder depth k no_trees = []
preorder depth k (tree v cs ss) =
    line depth (root_node k v cs)
    ∷ (preorder (depth + 1) (suc k) cs ++ preorder depth (suc k + size cs) ss)

-- The array holds the nodes of the forest at their ids.
unfoldable pub Holds : List (Option NetNode) → ℕ → Forest → Type 0
Holds nodes k no_trees = Unit
Holds nodes k (tree v cs ss) =
    (get_elem? nodes k ≡ some (some (root_node k v cs)))
    × Holds nodes (suc k) cs
    × Holds nodes (suc k + size cs) ss

visited-root_node : (k v : ℕ) (cs : Forest) → visited (root_node k v cs) ≡ got (roots (suc k) cs)
unfolding visited root_node
visited-root_node k v cs =
    let ids = roots (suc k) cs in
    rw (le→ltb (length ids) (length ids) (omega arith), take_all (length ids) ids (omega arith))

node_at_lem :
    (nodes : List (Option NetNode)) (i : ℕ) (n : NetNode)
    → get_elem? nodes i ≡ some (some n)
    → node_at nodes i ≡ got n
unfolding node_at
node_at_lem nodes i n h = rw (h, node_at)

pub print_children-roots :
    (fuel : ℕ) (nodes : List (Option NetNode)) (depth k : ℕ) (f : Forest)
    → Holds nodes k f
    → height f ≤ fuel
    → print_children (λ c. print_node fuel nodes c depth) (roots k f) ≡ got (preorder depth k f)
unfolding Holds preorder roots height print_children print_node
print_children-roots fuel nodes depth k no_trees h deep = refl
print_children-roots zero nodes depth k (tree v cs ss) h deep = absurd (omega arith)
print_children-roots (suc fuel) nodes depth k (tree v cs ss) (here, below, behind) deep = rw (
  node_at_lem nodes k (root_node k v cs) here,
  visited-root_node k v cs,
  print_children-roots fuel nodes (depth + 1) (suc k) cs below (omega arith),
  print_children-roots (suc fuel) nodes depth (suc k + size cs) ss behind (omega arith),
)

-- `d2_print_tree` of a store that holds a tree numbered from 0 in depth-first order prints every
-- node once, in depth-first order, each at its depth in the tree, and the recursion is as deep as
-- the tree.
pub d2_print_tree_lem :
    (fuel number : ℕ) (nodes : List (Option NetNode)) (v : ℕ) (cs : Forest)
    → Holds nodes 0 (tree v cs no_trees)
    → height cs ≤ fuel
    → d2_print_tree fuel (record { number_of_nodes = number; nodes = nodes })
      ≡ got (preorder 0 0 (tree v cs no_trees))
unfolding d2_print_tree Holds preorder
d2_print_tree_lem fuel number nodes v cs (here, below, u) deep = rw (
  node_at_lem nodes 0 (root_node 0 v cs) here,
  visited-root_node 0 v cs,
  print_children-roots fuel nodes 1 1 cs below deep,
  append-nil (preorder 1 1 cs),
)

pub map-append :
    (xs ys : List NetNode) → map {B = Option NetNode} some (xs ++ ys) ≡ map some xs ++ map some ys
map-append [] ys = refl
map-append (x ∷ xs) ys = ap (λ zs. some x ∷ zs) (map-append xs ys)

pub length-numbered : (k : ℕ) (f : Forest) → length (numbered k f) ≡ size f
unfolding numbered size
length-numbered k no_trees = refl
length-numbered k (tree v cs ss) = omega (
  arith,
  length-append (numbered (suc k) cs) (numbered (suc k + size cs) ss),
  length-numbered (suc k) cs,
  length-numbered (suc k + size cs) ss,
)

pub length-map : (ns : List NetNode) → length (map {B = Option NetNode} some ns) ≡ length ns
length-map [] = refl
length-map (n ∷ ns) = ap suc (length-map ns)

get_elem?_at :
    (before xs : List (Option NetNode)) (x : Option NetNode)
    → get_elem? (before ++ (x ∷ xs)) (length before) ≡ some x
get_elem?_at [] xs x = refl
get_elem?_at (b ∷ before) xs x = get_elem?_at before xs x

-- An array with the numbered nodes from index `k` on holds the forest.
pub Holds-numbered :
    (k : ℕ) (f : Forest) (before after nodes : List (Option NetNode))
    → nodes ≡ before ++ (map some (numbered k f) ++ after)
    → length before ≡ k
    → Holds nodes k f
unfolding Holds numbered
Holds-numbered k no_trees before after nodes e l = tt
Holds-numbered k (tree v cs ss) before after nodes e l =
    let r : Option NetNode = some (root_node k v cs) in
    let xs = map {B = Option NetNode} some (numbered (suc k) cs) in
    let ys = map {B = Option NetNode} some (numbered (suc k + size cs) ss) in
    let here : get_elem? nodes k ≡ some r =
      ap₂ (λ zs i. get_elem? zs i) e (sym l) ∙ get_elem?_at before _ r in
    let below : nodes ≡ (before ++ (r ∷ [])) ++ (xs ++ (ys ++ after)) =
      e
      ∙ ap (λ zs. before ++ (r ∷ (zs ++ after))) (map-append (numbered (suc k) cs) _)
      ∙ ap (λ zs. before ++ (r ∷ zs)) (append_assoc xs ys after)
      ∙ sym (append_assoc before (r ∷ []) (xs ++ (ys ++ after))) in
    let behind : nodes ≡ ((before ++ (r ∷ [])) ++ xs) ++ (ys ++ after) =
      below ∙ sym (append_assoc (before ++ (r ∷ [])) xs (ys ++ after)) in
    let l₁ = length-append before (r ∷ []) in
    (
      here,
      Holds-numbered (suc k) cs (before ++ (r ∷ [])) (ys ++ after) nodes below (omega arith),
      Holds-numbered (suc k + size cs) ss ((before ++ (r ∷ [])) ++ xs) after nodes behind (
          omega (
            arith,
            length-append (before ++ (r ∷ [])) xs,
            length-map (numbered (suc k) cs),
            length-numbered (suc k) cs,
          )),
    )
