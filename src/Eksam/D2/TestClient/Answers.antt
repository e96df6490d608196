-- ===== src/Eksam/D2/TestClient/Answers.antt =====
-- eksam/handout/d2_test_client.c: a whole run of the program with a server that knows the tree.
use in2140_introduksjon_til.Eksam.Peers.Kept.{
  found_client, d2_client_create-found, d2_client_delete-found,
}
use in2140_introduksjon_til.Eksam.D1.Send.{acks}
use in2140_introduksjon_til.Eksam.D2.Request.{request_size, d2_send_request_cases}
use in2140_introduksjon_til.Eksam.Peers.{
  opened, allocated, resolve, d2_client_delete, Resources, System, D2Client,
}
use in2140_introduksjon_til.Eksam.D2.AddNodes.{nodes_size, Fits}
use in2140_introduksjon_til.Eksam.D2.TestClient.Found.{
  size_bytes, d2_recv_response_size-size_bytes, receive_from-Loop, Numbers, response_packets,
  response_acks, Calls-response_packets,
}
use in2140_introduksjon_til.Eksam.D2.Wire.{
  type_request, response_size, short_at, d2_recv_response_size,
}
use in2140_introduksjon_til.Eksam.D1.Receive.{max_payload}
use in2140_introduksjon_til.Common.Run.{pos}
use in2140_introduksjon_til.Common.Words.{Bytes}
use in2140_introduksjon_til.Common.{
  le→ltb, length, drop, replicate, All, ℕ, suc, ◌+◌, ◌%◌, ◌^◌, ◌≤◌, ◌<◌, ◌≡◌, refl, ap, ◌∙◌, subst,
  inl, inr, true, none, some, List, [], ◌∷◌, ◌++◌, map, arith,
}
use in2140_introduksjon_til.Eksam.D1.{
  ack_packet, data_packet, net, Library, Arrival, datagram, returned,
}
use in2140_introduksjon_til.Eksam.D2.Store.{
  d2_alloc_local_tree, next_word, d2_print_tree, NetNode, LocalTreeStore, got,
}
use in2140_introduksjon_til.Eksam.D2.Rounds.{nodes_of, responses_of, store, Loop-responses_of, Loop}
use in2140_introduksjon_til.Eksam.D2.PrintTree.{
  size, height, numbered, preorder, d2_print_tree_lem, length-numbered, Holds-numbered, Forest,
  no_trees, tree,
}
use in2140_introduksjon_til.Eksam.D2.TestClient.{
  ended, d2_free_local_tree, local_tree, finish, after_loop, receive_from, with_nodes, sized,
  requested, with_lookup, d2_test_client, Stack,
}

-- The nodes of a tree with the root's value and children, in packets: `parts` are those of each packet
-- but the last.
pub record Served : Type 0 where
  pub value : ℕ
  pub children : Forest
  pub parts : List (List NetNode)
  pub last : List NetNode

abbrev pub whole_tree : Served → Forest
whole_tree t = tree t.value t.children no_trees

-- The packets hold the nodes in depth-first order, none of them is empty or too large, and every node
-- fits the format.
pub record IsServed (t : Served) : Type 0 where
  pub in_order : nodes_of t.parts t.last ≡ numbered 0 (whole_tree t)
  pub parts-Fits : All (All Fits) t.parts
  pub last-Fits : All Fits t.last
  pub parts_filled : All (λ ns. 0 < length ns) t.parts
  pub last_filled : 0 < length t.last
  pub parts_small : All (λ ns. response_size + nodes_size ns ≤ max_payload) t.parts
  pub last_small : response_size + nodes_size t.last ≤ max_payload
  pub size_small : size (whole_tree t) < 2 ^ 16

length-responses_of :
    (nss : List (List NetNode)) (last : List NetNode) (rest : ℕ → Bytes)
    → length (responses_of nss last rest) ≡ suc (length nss)
unfolding responses_of
length-responses_of [] last rest = refl
length-responses_of (ns ∷ nss) last rest = ap suc (length-responses_of nss last rest)

length-response_packets :
    (lib : Library) (q : Numbers) (nss : List (List NetNode)) (last : List NetNode)
    (after : List Arrival)
    → suc (length nss) ≤ length (response_packets lib q nss last after)
unfolding response_packets
length-response_packets lib q [] last after = omega arith
length-response_packets lib q (ns ∷ nss) last after =
    omega (arith, length-response_packets lib q nss last after)

module _ (lib : Library) (t : Served) (fine : IsServed t) where
  -- The tree that the loop leaves.
  abbrev received : LocalTreeStore
  received = store (size (whole_tree t)) (map some (nodes_of t.parts t.last) ++ [])

  receive_from_served :
      (q : Numbers) (buffer : Bytes) (after : List Arrival) (sent : List Bytes)
      → ((k : ℕ) → q k < 2)
      → let wire = net (response_packets lib q t.parts t.last after) sent in
        receive_from lib
          (suc (length wire.arrivals))
          (store (size (whole_tree t)) (replicate (size (whole_tree t)) none))
          0
          buffer
          wire
        ≡ returned (
          got (0 + length (nodes_of t.parts t.last), received),
          net after (response_acks lib q t.parts sent),
        )
  receive_from_served q buffer after sent bits =
      let number = size (whole_tree t) in
      let count : length (nodes_of t.parts t.last) + 0 ≡ number =
        ap (λ ns. length ns + 0) fine.in_order ∙ omega (arith, length-numbered 0 (whole_tree t)) in
      let (rest, calls) =
        Calls-response_packets lib q bits t.parts t.last buffer after sent fine.parts_small
          fine.last_small in
      let loop =
        Loop-responses_of number t.parts t.last [] 0 rest fine.parts-Fits fine.last-Fits
          fine.parts_filled fine.last_filled in
      receive_from-Loop lib _
        (subst
          (λ k.
            Loop (store number (replicate k none)) 0 (responses_of t.parts t.last rest)
              (0 + length (nodes_of t.parts t.last), received))
          count loop)
        calls
        (omega (
          arith,
          length-responses_of t.parts t.last rest,
          length-response_packets lib q t.parts t.last after,
        ))

  printed_served :
      (fuel : ℕ)
      → height t.children ≤ fuel
      → d2_print_tree fuel received ≡ got (preorder 0 0 (whole_tree t))
  printed_served fuel deep =
      d2_print_tree_lem fuel (size (whole_tree t)) (map some (nodes_of t.parts t.last) ++ [])
        t.value t.children
        (Holds-numbered 0 (whole_tree t) [] [] _ (ap (λ ns. map some ns ++ []) fine.in_order) refl)
        deep

  -- From the response size on.
  served :
      (q : Numbers) (stack : Stack) (fuel : ℕ) (client : D2Client) (r : Resources) (q₀ : ℕ)
      (after : List Arrival) (sent : List Bytes)
      → ((k : ℕ) → q k < 2)
      → q₀ < 2
      → height t.children ≤ fuel
      → let packets = response_packets lib q t.parts t.last after in
        let size_packet = data_packet lib.memory q₀ (size_bytes (size (whole_tree t))) in
        sized lib
          (record { tree = true; nodes = true })
          stack
          fuel
          client
          r
          (d2_recv_response_size lib stack.first (datagram size_packet ∷ packets) sent)
        ≡ ended
            (pos 0)
            (d2_client_delete (some client) r)
            (net after (response_acks lib q t.parts (ack_packet lib.memory q₀ ∷ sent)))
            (preorder 0 0 (whole_tree t))
  unfolding sized with_nodes local_tree d2_alloc_local_tree after_loop finish d2_free_local_tree
  served q stack fuel client r q₀ after sent bits bit deep =
      let acked = ack_packet lib.memory q₀ ∷ sent in
      let packets = response_packets lib q t.parts t.last after in
      rw
        (
          d2_recv_response_size-size_bytes lib q₀ (size (whole_tree t)) stack.first packets sent bit
              fine.size_small,
          receive_from_served q stack.buffer after acked bits,
          finish,
          printed_served fuel deep,
        )
        (ap
          (λ n.
            ended (pos 0) (d2_client_delete (some client) (record r { objects = n }))
              (net after (response_acks lib q t.parts acked)) (preorder 0 0 (whole_tree t)))
          (omega arith))

  -- The lookup client with enough arguments and an id above 1000, on a system that makes the client,
  -- resolves the server's name and has memory, while `sendto` works. The server acknowledges the
  -- request, after any number of wrong acknowledgements, sends the number of nodes of a tree, which is
  -- below 2^16, and then the nodes in depth-first order in its packets, none of them empty or too
  -- large. Where the recursion may go as deep as the tree, the client returns 0, has printed every node
  -- once, in depth-first order at its depth, has closed its socket and released all that it allocated,
  -- and has sent the request, once more for each wrong acknowledgement, and one acknowledgement for
  -- each packet of the server, with its number. The request is 64 bytes with the type and the id.
  pub d2_test_client_served :
      (q : Numbers) (system : System) (stack : Stack) (fuel fd ip argc port student_id q₀ k : ℕ)
      (r : Resources) (after : List Arrival) (sent : List Bytes)
      → length lib.stale ≡ 8
      → ((n : ℕ) → lib.sends n ≡ true)
      → system.client_memory ≡ true
      → system.descriptor ≡ some fd
      → system.peer_memory ≡ true
      → resolve system ≡ some ip
      → 4 ≤ argc
      → 1000 < student_id
      → student_id < 2 ^ 32
      → length stack.packet ≡ request_size
      → ((n : ℕ) → q n < 2)
      → q₀ < 2
      → height t.children ≤ fuel
      → let packets = response_packets lib q t.parts t.last after in
        let size_packet = data_packet lib.memory q₀ (size_bytes (size (whole_tree t))) in
        (request : Bytes) × (length request ≡ request_size)
        × (short_at 0 request ≡ got type_request)
        × (next_word (drop 4 request) ≡ got (student_id, drop 8 stack.packet))
        × (d2_test_client lib system
              (record { tree = true; nodes = true })
              stack
              fuel
              argc
              port
              student_id
              r
              (net (acks lib 0 k (datagram size_packet ∷ packets)) sent)
            ≡ ended
                (pos 0)
                r
                (net after (
                  response_acks lib q t.parts (
                    ack_packet lib.memory q₀
                    ∷ (replicate (suc k) (data_packet lib.memory 0 request) ++ sent))))
                (preorder 0 0 (whole_tree t)))
  unfolding d2_test_client with_lookup requested
  d2_test_client_served q system stack fuel fd ip argc port student_id q₀ k r after sent whole works
        client_memory made peer_memory found enough large word packet bits bit deep =
      let packets = response_packets lib q t.parts t.last after in
      let size_packet = data_packet lib.memory q₀ (size_bytes (size (whole_tree t))) in
      let number = port % 2 ^ 16 in
      elim (d2_send_request_cases lib 0 student_id stack.packet k (datagram size_packet ∷ packets)
        sent whole works (omega arith) word packet) [
          | inl (small, _) ↦ absurd (omega arith)
          | inr (_, request, size, kind, id, e) ↦ (
            request,
            size,
            kind,
            id,
            rw
                (
                  le→ltb argc 4 enough,
                  le→ltb student_id 1000 (omega arith),
                  d2_client_create-found system fd number ip r client_memory made peer_memory found,
                  e,
                )
                (served q stack fuel (found_client fd number ip)
                    (allocated (opened fd (allocated r))) q₀ after
                    (replicate (suc k) (data_packet lib.memory 0 request) ++ sent) bits bit deep
                  ∙ ap
                      (λ left.
                        ended (pos 0) left
                          (net after (
                            response_acks lib q t.parts (
                              ack_packet lib.memory q₀
                              ∷ (replicate (suc k) (data_packet lib.memory 0 request) ++ sent))))
                          (preorder 0 0 (whole_tree t)))
                      (d2_client_delete-found fd number ip r)),
          )
        ]
