-- ===== src/Eksam/LookupExamples.antt =====
-- The theorems about eksam/handout/d2_lookup.c at concrete inputs.
use in2140_introduksjon_til.Eksam.D2.Rounds.{responses_of, nodes_of}
use in2140_introduksjon_til.Eksam.D2.Request.{d2_send_request_cases}
use in2140_introduksjon_til.Common.Run.{failure, pos}
use in2140_introduksjon_til.Common.Words.{Bytes, swap16}
use in2140_introduksjon_til.Common.{
  length, drop, replicate, All, ℕ, ◌+◌, ◌≤◌, ◌<◌, ◌≡◌, refl, ◌⊎◌, inr, true, none, some, List, [],
  ◌∷◌, arith,
}
use in2140_introduksjon_til.Eksam.Peers.{
  allocated, resolve, d2_client_create, d2_client_delete, d2_client_create_cases, Resources, System,
  D2Client,
}
use in2140_introduksjon_til.Eksam.D1.{ack_packet, data_packet, net, Library, datagram, returned}
use in2140_introduksjon_til.Eksam.D2.Store.{
  next_word, d2_add_to_local_tree, Line, d2_print_tree, NetNode, got,
}
use in2140_introduksjon_til.Eksam.D2.Wire.{
  response_size, short_at, d2_send_request, d2_recv_response,
}
use in2140_introduksjon_til.Eksam.D2.Client.{show_tree}
use in2140_introduksjon_til.Eksam.D2.AddNodes.{
  nodes_bytes, nodes_size, Fits, d2_add_to_local_tree-nodes_bytes,
}
use in2140_introduksjon_til.Eksam.D2.PrintTree.{
  size, height, roots, root_node, numbered, preorder, Holds, d2_print_tree_lem, Forest, no_trees,
  tree,
}
use in2140_introduksjon_til.Eksam.D2.Responses.{response_bytes, d2_recv_response-response_bytes}
use in2140_introduksjon_til.Eksam.D2.Lookup.{show_tree_lem}

-- A host on which everything works.
abbrev pub machine : Library
machine = record { memory = true; sends = λ n. true; stale = replicate 8 0 }

-- A root with the value 7 and two children: one with the value 9 and a child of its own, and a leaf.
abbrev pub children : Forest
children = tree 9 (tree 4 no_trees no_trees) (tree 5 no_trees no_trees)

abbrev pub root_of_tree : NetNode
root_of_tree = record { id = 0; value = 7; num_children = 2; child_id = 1 ∷ 3 ∷ [] }

abbrev pub inner : NetNode
inner = record { id = 1; value = 9; num_children = 1; child_id = 2 ∷ [] }

abbrev pub leaf_2 : NetNode
leaf_2 = record { id = 2; value = 4; num_children = 0; child_id = [] }

abbrev pub leaf_3 : NetNode
leaf_3 = record { id = 3; value = 5; num_children = 0; child_id = [] }

pub first_Fits : All Fits (root_of_tree ∷ inner ∷ [])
first_Fits = (
  (omega arith, omega arith, refl, omega arith, (omega arith, (omega arith, tt))),
  ((omega arith, omega arith, refl, omega arith, (omega arith, tt)), tt),
)

pub last_Fits : All Fits (leaf_2 ∷ leaf_3 ∷ [])
last_Fits = (
  (omega arith, omega arith, refl, omega arith, tt),
  ((omega arith, omega arith, refl, omega arith, tt), tt),
)

middle_Fits : All Fits (inner ∷ leaf_2 ∷ [])
middle_Fits = (
  (omega arith, omega arith, refl, omega arith, (omega arith, tt)),
  ((omega arith, omega arith, refl, omega arith, tt), tt),
)

d2_add_to_local_tree-nodes_bytes_example :
    d2_add_to_local_tree
      (record { number_of_nodes = 4; nodes = some root_of_tree ∷ none ∷ none ∷ none ∷ [] })
      1
      (nodes_bytes (inner ∷ leaf_2 ∷ []) (1 ∷ 2 ∷ []))
      (nodes_size (inner ∷ leaf_2 ∷ []))
    ≡ got (
      3,
      record {
        number_of_nodes = 4;
        nodes = some root_of_tree ∷ some inner ∷ some leaf_2 ∷ none ∷ [];
      },
    )
d2_add_to_local_tree-nodes_bytes_example =
    d2_add_to_local_tree-nodes_bytes 4 (inner ∷ leaf_2 ∷ []) (some root_of_tree ∷ [])
      (none ∷ none ∷ []) (none ∷ []) (1 ∷ 2 ∷ []) middle_Fits refl

-- The specified printout of the tree.
abbrev printout : List Line
printout = (0, 0, 7, 2) ∷ (1, 1, 9, 1) ∷ (2, 2, 4, 0) ∷ (1, 3, 5, 0) ∷ []

preorder_of_tree : preorder 0 0 (tree 7 children no_trees) ≡ printout
unfolding preorder root_node roots size
preorder_of_tree = refl

pub numbered_tree :
    nodes_of ((root_of_tree ∷ inner ∷ []) ∷ []) (leaf_2 ∷ leaf_3 ∷ [])
    ≡ numbered 0 (tree 7 children no_trees)
unfolding nodes_of numbered root_node roots size
numbered_tree = refl

pub height_of_children : height children ≤ 2
unfolding height
height_of_children = omega arith

Holds-tree :
    Holds
      (some root_of_tree ∷ some inner ∷ some leaf_2 ∷ some leaf_3 ∷ [])
      0
      (tree 7 children no_trees)
unfolding Holds root_node roots size
Holds-tree = (refl, (refl, (refl, tt, tt), (refl, tt, tt)), tt)

d2_print_tree_lem_example :
    d2_print_tree 2 (record {
      number_of_nodes = 4;
      nodes = some root_of_tree ∷ some inner ∷ some leaf_2 ∷ some leaf_3 ∷ [];
    })
    ≡ got (preorder 0 0 (tree 7 children no_trees))
d2_print_tree_lem_example =
    d2_print_tree_lem 2 4 (some root_of_tree ∷ some inner ∷ some leaf_2 ∷ some leaf_3 ∷ []) 7
      children Holds-tree height_of_children

show_tree_lem_example :
    show_tree true true 2
      (size (tree 7 children no_trees))
      (responses_of ((root_of_tree ∷ inner ∷ []) ∷ []) (leaf_2 ∷ leaf_3 ∷ []) (λ k. 1 ∷ []))
    ≡ got (preorder 0 0 (tree 7 children no_trees))
show_tree_lem_example =
    show_tree_lem 2 7 children ((root_of_tree ∷ inner ∷ []) ∷ []) (leaf_2 ∷ leaf_3 ∷ [])
      (λ k. 1 ∷ []) numbered_tree (first_Fits, tt) last_Fits (omega arith, tt) (omega arith)
      height_of_children

small_response : response_size + nodes_size (inner ∷ leaf_2 ∷ []) ≤ 1016
unfolding nodes_size
small_response = omega arith

d2_recv_response-response_bytes_example :
    (rest : Bytes) × (d2_recv_response machine
        (replicate 1024 0)
        1024
        (datagram (data_packet true 1 (response_bytes 8 (inner ∷ leaf_2 ∷ []) [])) ∷ [])
        []
      ≡ returned (
        got (pos (response_size + nodes_size (inner ∷ leaf_2 ∷ []))),
        response_bytes 8 (inner ∷ leaf_2 ∷ []) rest,
        net [] (ack_packet true 1 ∷ []),
      ))
d2_recv_response-response_bytes_example =
    d2_recv_response-response_bytes machine 1 8 (inner ∷ leaf_2 ∷ []) (replicate 1024 0) [] []
      (inr refl) small_response

d2_send_request_cases_example :
    ((1001 ≤ 1000)
      × (d2_send_request machine 0 1001 (replicate 64 0) (datagram (ack_packet true 0) ∷ []) []
          ≡ returned (failure, 0, net (datagram (ack_packet true 0) ∷ []) [])))
    ⊎ ((1000 < 1001)
        × (request : Bytes) × (length request ≡ 64)
        × (short_at 0 request ≡ got 1)
        × (next_word (drop 4 request) ≡ got (1001, replicate 56 0))
        × (d2_send_request machine 0 1001 (replicate 64 0) (datagram (ack_packet true 0) ∷ []) []
            ≡ returned (pos 1, 1, net [] (data_packet true 0 request ∷ []))))
d2_send_request_cases_example =
    d2_send_request_cases machine 0 1001 (replicate 64 0) 0 [] [] refl (λ n. refl) (omega arith)
      (omega arith) refl

-- A system on which the name of the server is found.
abbrev pub network : System
network = record {
  descriptor = some 3;
  peer_memory = true;
  client_memory = true;
  converted = pos 0;
  dotted = 0;
  host = some 16777343;
}

abbrev pub nothing_open : Resources
nothing_open = record { sockets = []; objects = 0 }

d2_client_create_cases_example :
    ((client : D2Client) × (r' : Resources) × (ip : ℕ) × (d2_client_create network 2024 nothing_open
        ≡ (some client, r'))
      × (resolve network ≡ some ip)
      × (client.peer.addr ≡ some (record { sin_port = swap16 2024; sin_addr = ip }))
      × (client.peer.next_seqno ≡ 0)
      × (d2_client_delete (some client) r' ≡ nothing_open))
    ⊎ (d2_client_create network 2024 nothing_open ≡ (none, allocated nothing_open))
d2_client_create_cases_example = d2_client_create_cases network 2024 nothing_open
