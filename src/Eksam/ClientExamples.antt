-- ===== src/Eksam/ClientExamples.antt =====
-- The theorems about the two test clients of eksam/ at concrete inputs.
use in2140_introduksjon_til.Eksam.D1.Bounds.{d1_recv_data_bounds}
use in2140_introduksjon_til.Eksam.D1.TestClient.{d1_test_client, Ended}
use in2140_introduksjon_til.Eksam.D2.AddNodes.{nodes_size}
use in2140_introduksjon_til.Eksam.D2.Wire.{short_at}
use in2140_introduksjon_til.Eksam.D1.TestClient.Releases.{d1_test_client_ends}
use in2140_introduksjon_til.Eksam.Peers.Kept.{found_client}
use in2140_introduksjon_til.Eksam.D2.TestClient.Found.{size_bytes, response_packets, response_acks}
use in2140_introduksjon_til.Common.Run.{failure, ℤ, pos}
use in2140_introduksjon_til.Common.Words.{Bytes}
use in2140_introduksjon_til.Common.{
  length, drop, replicate, ℕ, ◌+◌, ◌≤◌, ◌≡◌, refl, ◌⊎◌, true, false, some, [], ◌∷◌, arith,
}
use in2140_introduksjon_til.Eksam.D1.{
  ack_packet, data_packet, net, d1_recv_data, Net, Library, error, datagram, blocked, returned,
}
use in2140_introduksjon_til.Eksam.D1.Send.{acks}
use in2140_introduksjon_til.Eksam.D2.Store.{next_word, got}
use in2140_introduksjon_til.Eksam.D2.PrintTree.{size, preorder}
use in2140_introduksjon_til.Eksam.Peers.{resolve, d2_client_delete}
use in2140_introduksjon_til.Eksam.LookupExamples.{
  machine, children, root_of_tree, inner, leaf_2, leaf_3, first_Fits, last_Fits, numbered_tree,
  height_of_children, network, nothing_open,
}
use in2140_introduksjon_til.Eksam.D2.TestClient.{ended, d2_test_client, Stack, Memory}
use in2140_introduksjon_til.Eksam.D2.TestClient.Answers.{
  whole_tree, d2_test_client_served, Served, IsServed,
}
use in2140_introduksjon_til.Eksam.D2.TestClient.Failures.{d2_test_client_leaves}
use in2140_introduksjon_til.Eksam.D1.TestClient.Answers.{Answer, Wrong}

abbrev pong : Answer
pong = record { seqno = 0; text = b'p' ∷ b'o' ∷ b'n' ∷ b'g' ∷ [] }

abbrev pang : Answer
pang = record { seqno = 1; text = b'p' ∷ b'a' ∷ b'n' ∷ b'g' ∷ [] }

abbrev once_wrong : Wrong
once_wrong = record { connects = 1; first_pings = 0; second_pings = 2; disconnects = 0 }

abbrev array : Bytes
array = replicate 1024 1

d1_test_client_ends_example :
    (d1_test_client machine network 3 2024 array nothing_open (net (error ∷ []) []) ≡ blocked)
    ⊎ ((e : Ended) × (d1_test_client machine network 3 2024 array nothing_open (net (error ∷ []) [])
          ≡ returned e)
        × (e.resources ≡ nothing_open)
        × (((e.result ≡ pos 0) × (length e.printed ≡ 2)) ⊎ (e.result ≡ failure)))
d1_test_client_ends_example =
    d1_test_client_ends machine network 3 2024 array nothing_open (net (error ∷ []) [])

d1_recv_data_bounds_example :
    (d1_recv_data machine 1000 array (datagram (replicate 1000 7) ∷ error ∷ []) [] ≡ blocked)
    ⊎ ((r : ℤ) × (buffer' : Bytes) × (wire : Net) × (d1_recv_data machine 1000 array
            (datagram (replicate 1000 7) ∷ error ∷ [])
            []
          ≡ returned (r, buffer', wire))
        × (length buffer' ≡ 1024)
        × ((r ≡ failure) ⊎ ((n : ℕ) × (r ≡ pos n) × (n + 8 ≤ 1000))))
d1_recv_data_bounds_example =
    d1_recv_data_bounds machine 1000 array (datagram (replicate 1000 7) ∷ error ∷ []) []
      (omega arith)

abbrev four_nodes : Served
four_nodes = record {
  value = 7;
  children = children;
  parts = (root_of_tree ∷ inner ∷ []) ∷ [];
  last = leaf_2 ∷ leaf_3 ∷ [];
}

four_nodes-IsServed : IsServed four_nodes
unfolding nodes_size size
four_nodes-IsServed = record {
  in_order = numbered_tree;
  parts-Fits = (first_Fits, tt);
  last-Fits = last_Fits;
  parts_filled = (omega arith, tt);
  last_filled = omega arith;
  parts_small = (omega arith, tt);
  last_small = omega arith;
  size_small = omega arith;
}

abbrev arrays : Stack
arrays = record { packet = replicate 64 1; first = array; buffer = array }

abbrev both : Memory
both = record { tree = true; nodes = true }

d2_test_client_served_example :
    let packets = response_packets machine (λ k. 0) four_nodes.parts four_nodes.last [] in
    let size_packet = data_packet true 1 (size_bytes (size (whole_tree four_nodes))) in
    (request : Bytes) × (length request ≡ 64)
    × (short_at 0 request ≡ got 1)
    × (next_word (drop 4 request) ≡ got (1001, replicate 56 1))
    × (d2_test_client machine network both arrays 2 4 2024 1001 nothing_open
          (net (acks machine 0 1 (datagram size_packet ∷ packets)) [])
        ≡ ended
            (pos 0)
            nothing_open
            (net [] (
              response_acks machine
                (λ k. 0)
                four_nodes.parts
                (ack_packet true 1 ∷ replicate 2 (data_packet true 0 request))))
            (preorder 0 0 (whole_tree four_nodes)))
unfolding resolve
d2_test_client_served_example =
    d2_test_client_served machine four_nodes four_nodes-IsServed (λ k. 0) network arrays 2 3
      16777343 4 2024 1001 1 1 nothing_open [] [] refl (λ n. refl) refl refl refl refl (omega arith)
      (omega arith) (omega arith) refl (λ n. omega arith) (omega arith) height_of_children

-- A host that sends nothing.
abbrev mute : Library
mute = record machine { sends = λ n. false }

d2_test_client_leaves_example :
    (request : Bytes) × (d2_test_client mute network both arrays 2 4 2024 1001 nothing_open
        (net [] [])
      ≡ ended failure
          (record { sockets = 3 ∷ []; objects = 2 })
          (net [] (data_packet true 0 request ∷ []))
          [])
    × (d2_client_delete
          (some (found_client 3 2024 16777343))
          (record { sockets = 3 ∷ []; objects = 2 })
        ≡ nothing_open)
unfolding resolve
d2_test_client_leaves_example =
    d2_test_client_leaves mute network both arrays 2 3 16777343 4 2024 nothing_open refl refl refl
      refl (omega arith) 1001 (net [] []) (omega arith) refl refl

abbrev with_answer : Net
with_answer = net (datagram [] ∷ []) []
