-- ===== src/Eksam/D2/Lookup.antt =====
-- eksam/handout/d2_lookup.c and the loop of eksam/handout/d2_test_client.c: a tree that the server
-- sends in several responses is printed whole.
use in2140_introduksjon_til.Common.Words.{Bytes}
use in2140_introduksjon_til.Eksam.D2.Rounds.{
  nodes_of, responses_of, store, receive_nodes-Loop, Loop-responses_of,
}
use in2140_introduksjon_til.Common.{
  length, replicate, All, ℕ, ◌+◌, ◌≤◌, ◌<◌, ◌≡◌, refl, sym, ap, ◌∙◌, true, none, some, List, [],
  ◌++◌, map, arith,
}
use in2140_introduksjon_til.Eksam.D2.Store.{d2_alloc_local_tree, NetNode, got}
use in2140_introduksjon_til.Eksam.D2.AddNodes.{Fits}
use in2140_introduksjon_til.Eksam.D2.PrintTree.{
  size, height, numbered, preorder, d2_print_tree_lem, length-numbered, Holds-numbered, Forest,
  no_trees, tree,
}
use in2140_introduksjon_til.Eksam.D2.Client.{receive_nodes, show_tree}

-- The lookup client from the response size on. The server sends the nodes of a tree with the root's
-- value `v` and the children `cs`, numbered from 0 in depth-first order, in PacketResponse packets:
-- `nss` are the nodes of each packet but the last and `last` those of the last, none of them empty,
-- and every node fits the format (32-bit values, at most 5 children). When the response size is the
-- number of nodes, `malloc` has memory and the recursion may go as deep as the tree, the client
-- leaves its loop and prints the tree: every node once, in depth-first order, each at its depth.
pub show_tree_lem :
    (fuel v : ℕ) (cs : Forest) (nss : List (List NetNode)) (last : List NetNode) (rest : ℕ → Bytes)
    → nodes_of nss last ≡ numbered 0 (tree v cs no_trees)
    → All (All Fits) nss
    → All Fits last
    → All (λ ns. 0 < length ns) nss
    → 0 < length last
    → height cs ≤ fuel
    → show_tree true true fuel (size (tree v cs no_trees)) (responses_of nss last rest)
      ≡ got (preorder 0 0 (tree v cs no_trees))
unfolding show_tree d2_alloc_local_tree
show_tree_lem fuel v cs nss last rest e fs f ne n deep =
    let t = tree v cs no_trees in
    let number = size t in
    let count : length (nodes_of nss last) + 0 ≡ number =
      ap (λ ns. length ns + 0) e ∙ omega (arith, length-numbered 0 t) in
    let received =
      ap (λ k. receive_nodes (store number (replicate k none)) 0 (responses_of nss last rest))
        (sym count)
      ∙ receive_nodes-Loop (Loop-responses_of number nss last [] 0 rest fs f ne n) in
    rw received (
      d2_print_tree_lem fuel number (map some (nodes_of nss last) ++ []) v cs
        (Holds-numbered 0 t [] [] _ (ap (λ ns. map some ns ++ []) e) refl) deep)
