-- ===== src/Eksam/D2/Client.antt =====
-- eksam/handout/d2_test_client.c: the loop that receives the responses, over the results of its calls
-- of `d2_recv_response`, and what it prints in the end.
use in2140_introduksjon_til.Common.Run.{ℤ, pos, negsuc}
use in2140_introduksjon_til.Common.Words.{Bytes}
use in2140_introduksjon_til.Common.{
  ltb, ◌==◌, if◌then◌else◌, drop, ℕ, ◌-◌, Bool, true, false, Option, none, some, List, [], ◌∷◌,
}
use in2140_introduksjon_til.Eksam.D2.Store.{
  d2_alloc_local_tree, and_then, d2_add_to_local_tree, Line, d2_print_tree, LocalTreeStore, Access,
  fault, no_fuel, got,
}
use in2140_introduksjon_til.Eksam.D2.Wire.{
  type_response, type_last_response, response_size, short_at,
}

-- A call's result, and the buffer after it.
abbrev pub Response : Type 0
Response = ℤ × Bytes

-- `ret > (int)sizeof(PacketResponse)`, and then what `ret` exceeds it by.
abbrev pub beyond_header : ℤ → Option ℕ
beyond_header (pos n) = if ltb response_size n then some (n - response_size) else none
beyond_header (negsuc n) = none

-- The call of `d2_add_to_local_tree` behind the header.
abbrev pub add_payload : LocalTreeStore → ℕ → Bytes → ℕ → Access (ℕ × LocalTreeStore)
add_payload store node_index buffer size =
    d2_add_to_local_tree store node_index (drop response_size buffer) size

-- One round of the loop, from the call's result on: `repeat`, `node_index` and the tree after it.
unfoldable pub round : LocalTreeStore → ℕ → Response → Access (Bool × ℕ × LocalTreeStore)
round store node_index (ret, buffer) = elim (beyond_header ret) [
  | none ↦ got (true, node_index, store)
  | some size ↦ and_then (short_at 0 buffer) λ packet_type.
      if packet_type == type_response
      then (and_then (add_payload store node_index buffer size)
          λ (i, store'). got (true, i, store'))
      else if packet_type == type_last_response
      then (and_then (add_payload store node_index buffer size)
          λ (i, store'). got (false, i, store'))
      else got (false, node_index, store)
]

-- The loop, for the responses that arrive; behind the last one it goes on waiting, which is
-- `no_fuel`.
unfoldable pub receive_nodes : LocalTreeStore → ℕ → List Response → Access (ℕ × LocalTreeStore)
receive_nodes store node_index [] = no_fuel
receive_nodes store node_index (r ∷ more) =
    and_then (round store node_index r)
      λ (repeat, i, store'). if repeat then receive_nodes store' i more else got (i, store')

-- From the response size on: the store is allocated, filled and printed.
-- Without memory the store is a null pointer.
unfoldable pub show_tree :
    (tree_memory nodes_memory : Bool) → ℕ → (num_nodes : ℕ) → List Response → Access (List Line)
show_tree tree_memory nodes_memory fuel num_nodes responses =
    elim (d2_alloc_local_tree tree_memory nodes_memory num_nodes) [
      | none ↦ fault
      | some store ↦
          and_then (receive_nodes store 0 responses) λ (i, store'). d2_print_tree fuel store'
    ]
