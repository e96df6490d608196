-- ===== src/Eksam/D2/TestClient.antt =====
-- eksam/handout/d2_test_client.c: `main`, over the client, the requests and the responses, with what it
-- leaves open and allocated.
pub mod Answers
pub mod Failures
pub mod Found
use in2140_introduksjon_til.Eksam.D2.Wire.{d2_send_request, d2_recv_response_size, d2_recv_response}
use in2140_introduksjon_til.Common.Run.{failure, ℤ, pos, negsuc}
use in2140_introduksjon_til.Common.Words.{Bytes}
use in2140_introduksjon_til.Common.{
  ltb, if◌then◌else◌, length, ℕ, zero, suc, ◌%◌, ◌^◌, Bool, Option, none, some, List, [],
}
use in2140_introduksjon_til.Eksam.Peers.{
  allocated, freed, d2_client_create, d2_client_delete, Resources, System, D2Client,
}
use in2140_introduksjon_til.Eksam.D1.{Sent, Net, Library, Outcome, blocked, returned}
use in2140_introduksjon_til.Eksam.D2.Store.{
  d2_alloc_local_tree, Line, d2_print_tree, LocalTreeStore, Access, fault, no_fuel, got,
}
use in2140_introduksjon_til.Eksam.D2.Client.{round}

-- What `main` returns, what is left behind, and the tree that was printed.
pub record LookupEnd : Type 0 where
  pub result : ℤ
  pub resources : Resources
  pub wire : Net
  pub lines : List Line

-- The arrays on the stack, before they are written: `packet` of `d2_send_request`, `buffer` of
-- `d2_recv_response_size`, and `buffer` of the loop, which is the same memory in every round.
pub record Stack : Type 0 where
  pub packet : Bytes
  pub first : Bytes
  pub buffer : Bytes

-- Whether `malloc` has memory for the tree and for its nodes.
pub record Memory : Type 0 where
  pub tree : Bool
  pub nodes : Bool

abbrev pub ended : ℤ → Resources → Net → List Line → Outcome (Access LookupEnd)
ended result r wire lines =
    returned (got (record { result = result; resources = r; wire = wire; lines = lines }))

-- The two objects of a tree.
unfoldable pub d2_free_local_tree : Option LocalTreeStore → Resources → Resources
d2_free_local_tree none r = r
d2_free_local_tree (some store) r = freed (freed r)

-- The tree that the program goes on with, and the heap. A null pointer is a tree without places:
-- every access to it is a fault.
unfoldable pub local_tree : Memory → ℕ → Resources → LocalTreeStore × Resources
local_tree memory num_nodes r = elim (d2_alloc_local_tree memory.tree memory.nodes num_nodes) [
  | none ↦ (record { number_of_nodes = 0; nodes = [] }, r)
  | some store ↦ (store, allocated (allocated r))
]

-- What follows the loop: the tree is printed and freed, and the client deleted.
unfoldable pub finish :
    (fuel : ℕ)
    → D2Client
    → Resources
    → Access (ℕ × LocalTreeStore) × Net
    → Outcome (Access LookupEnd)
finish fuel client r (fault, wire) = returned fault
finish fuel client r (no_fuel, wire) = returned no_fuel
finish fuel client r (got (i, store), wire) = elim (d2_print_tree fuel store) [
  | fault ↦ returned fault
  | no_fuel ↦ returned no_fuel
  | got lines ↦
      ended (pos 0) (d2_client_delete (some client) (d2_free_local_tree (some store) r)) wire lines
]

unfoldable pub after_loop :
    (fuel : ℕ)
    → D2Client
    → Resources
    → Outcome (Access (ℕ × LocalTreeStore) × Net)
    → Outcome (Access LookupEnd)
after_loop fuel client r blocked = blocked
after_loop fuel client r (returned end) = finish fuel client r end

-- What a round of the loop makes of a call of `d2_recv_response`, with the rounds that follow.
unfoldable pub after_receive :
    LocalTreeStore
    → ℕ
    → (LocalTreeStore → ℕ → Bytes → Net → Outcome (Access (ℕ × LocalTreeStore) × Net))
    → Outcome (Access ℤ × Bytes × Net)
    → Outcome (Access (ℕ × LocalTreeStore) × Net)
after_receive store i more blocked = blocked
after_receive store i more (returned (fault, buffer, wire)) = returned (fault, wire)
after_receive store i more (returned (no_fuel, buffer, wire)) = returned (no_fuel, wire)
after_receive store i more (returned (got ret, buffer, wire)) = elim (round store i (ret, buffer)) [
  | fault ↦ returned (fault, wire)
  | no_fuel ↦ returned (no_fuel, wire)
  | got (repeat, i', store') ↦
      if repeat then more store' i' buffer wire else returned (got (i', store'), wire)
]

module _ (lib : Library) where
  -- The loop. Every round that returns takes at least one arrival off the network, so a fuel above
  -- their number is enough.
  unfoldable pub receive_from :
      ℕ → LocalTreeStore → ℕ → Bytes → Net → Outcome (Access (ℕ × LocalTreeStore) × Net)
  receive_from zero store i buffer wire = returned (no_fuel, wire)
  receive_from (suc f) store i buffer wire =
      after_receive store i (receive_from f)
        (d2_recv_response lib buffer 1024 wire.arrivals wire.sent)

  -- From the response size on.
  unfoldable pub with_nodes :
      Memory → Stack → (fuel : ℕ) → D2Client → Resources → ℕ → Net → Outcome (Access LookupEnd)
  with_nodes memory stack fuel client r num_nodes wire =
      let (store, r') = local_tree memory num_nodes r in
      after_loop fuel client r'
        (receive_from (suc (length wire.arrivals)) store 0 stack.buffer wire)

  unfoldable pub sized :
      Memory
      → Stack
      → (fuel : ℕ) → D2Client
      → Resources
      → Outcome (Access ℤ × Net)
      → Outcome (Access LookupEnd)
  sized memory stack fuel client r blocked = blocked
  sized memory stack fuel client r (returned (fault, wire)) = returned fault
  sized memory stack fuel client r (returned (no_fuel, wire)) = returned no_fuel
  sized memory stack fuel client r (returned (got (negsuc n), wire)) = ended failure r wire []
  sized memory stack fuel client r (returned (got (pos n), wire)) =
      with_nodes memory stack fuel client r n wire

  -- The test of the result of `d2_send_request` is for 0.
  unfoldable pub requested :
      Memory → Stack → (fuel : ℕ) → D2Client → Resources → Sent → Outcome (Access LookupEnd)
  requested memory stack fuel client r blocked = blocked
  requested memory stack fuel client r (returned (pos zero, seqno, wire)) = ended failure r wire []
  requested memory stack fuel client r (returned (pos (suc n), seqno, wire)) =
      sized memory stack fuel client r
        (d2_recv_response_size lib stack.first wire.arrivals wire.sent)
  requested memory stack fuel client r (returned (negsuc n, seqno, wire)) =
      sized memory stack fuel client r
        (d2_recv_response_size lib stack.first wire.arrivals wire.sent)

  unfoldable pub with_lookup :
      Memory
      → Stack
      → (fuel student_id : ℕ) → Option D2Client × Resources
      → Net
      → Outcome (Access LookupEnd)
  with_lookup memory stack fuel student_id (none, r) wire = ended failure r wire []
  with_lookup memory stack fuel student_id (some client, r) wire =
      requested memory stack fuel client r
        (d2_send_request lib client.peer.next_seqno student_id stack.packet wire.arrivals wire.sent)

  -- `main`: `port` and `student_id` are what `atoi` makes of the arguments, as unsigned words; `fuel`
  -- is how deep the recursion of `print_node` may go.
  unfoldable pub d2_test_client :
      System
      → Memory
      → Stack
      → (fuel argc port student_id : ℕ) → Resources
      → Net
      → Outcome (Access LookupEnd)
  d2_test_client system memory stack fuel argc port student_id r wire =
      if ltb argc 4
      then ended failure r wire []
      else if ltb student_id 1000
      then ended failure r wire []
      else with_lookup memory stack fuel student_id (d2_client_create system (port % 2 ^ 16) r) wire
