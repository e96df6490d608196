-- ===== src/Eksam/D2/TestClient/Failures.antt =====
-- eksam/handout/d2_test_client.c: what the program leaves behind when the request is not sent.
use in2140_introduksjon_til.Eksam.D1.Send.{d1_send_data_stuck}
use in2140_introduksjon_til.Eksam.D2.Wire.{request_packet, d2_send_request}
use in2140_introduksjon_til.Eksam.Peers.Kept.{
  found_client, d2_client_create-found, d2_client_delete-found,
}
use in2140_introduksjon_til.Common.Run.{failure, pos}
use in2140_introduksjon_til.Common.Words.{Bytes}
use in2140_introduksjon_til.Common.{
  leb, le→ltb, length, ℕ, ◌%◌, ◌^◌, ◌≤◌, ◌<◌, ◌≡◌, refl, ap, ◌∙◌, true, false, some, List, [], ◌∷◌,
  arith,
}
use in2140_introduksjon_til.Eksam.D1.{data_packet, net, Net, Library, Arrival, returned}
use in2140_introduksjon_til.Eksam.Peers.{
  opened, allocated, resolve, d2_client_delete, Resources, System, D2Client,
}
use in2140_introduksjon_til.Eksam.D2.Request.{request_size, length-request_packet}
use in2140_introduksjon_til.Eksam.D2.TestClient.{
  ended, requested, with_lookup, d2_test_client, Stack, Memory,
}

d2_send_request_stuck :
    (lib : Library) (q i : ℕ) (stale : Bytes) (arrivals : List Arrival) (sent : List Bytes)
    → 1000 < i
    → length stale ≡ request_size
    → lib.sends (length sent) ≡ false
    → d2_send_request lib q i stale arrivals sent
      ≡ returned (pos 0, q, net arrivals (data_packet lib.memory q (request_packet i stale) ∷ sent))
unfolding d2_send_request
d2_send_request_stuck lib q i stale arrivals sent large size stuck =
    let fits = length-request_packet i stale size in
    let small : leb i 1000 ≡ false = ground arith in
    rw
      (
        small,
        d1_send_data_stuck lib q (request_packet i stale) arrivals sent (omega arith, omega arith)
            stuck,
      )
      refl

module _ (lib : Library) (system : System) (memory : Memory) (stack : Stack) (fuel fd ip argc : ℕ)
    (port : ℕ) (r : Resources) (client_memory : system.client_memory ≡ true)
    (made : system.descriptor ≡ some fd) (peer_memory : system.peer_memory ≡ true)
    (found : resolve system ≡ some ip) (enough : 4 ≤ argc) where
  -- The client that the program has made, and what it holds then.
  abbrev client : D2Client
  client = found_client fd (port % 2 ^ 16) ip

  abbrev held : Resources
  held = allocated (opened fd (allocated r))

  to_request :
      (student_id : ℕ) (wire : Net)
      → 1000 ≤ student_id
      → d2_test_client lib system memory stack fuel argc port student_id r wire
        ≡ requested lib memory stack fuel client held
            (d2_send_request lib 0 student_id stack.packet wire.arrivals wire.sent)
  unfolding d2_test_client with_lookup
  to_request student_id wire large = rw (
    le→ltb argc 4 enough,
    le→ltb student_id 1000 large,
    d2_client_create-found system fd (port % 2 ^ 16) ip r client_memory made peer_memory found,
  )

  -- On a system that makes the client and resolves the name, with an id above 1000: when `sendto` does
  -- not send the request, the program returns -1 and leaves the client behind, with its socket open and
  -- its two objects on the heap, which deleting the client would have given back.
  pub d2_test_client_leaves :
      (student_id : ℕ) (wire : Net)
      → 1000 < student_id
      → length stack.packet ≡ request_size
      → lib.sends (length wire.sent) ≡ false
      → (request : Bytes) × (d2_test_client lib system memory stack fuel argc port student_id r wire
          ≡ ended failure held
              (net wire.arrivals (data_packet lib.memory 0 request ∷ wire.sent))
              [])
        × (d2_client_delete (some client) held ≡ r)
  unfolding requested
  d2_test_client_leaves student_id wire large size stuck = (
    request_packet student_id stack.packet,
    to_request student_id wire (omega arith)
        ∙ ap (requested lib memory stack fuel client held) (
            d2_send_request_stuck lib 0 student_id stack.packet wire.arrivals wire.sent large size
              stuck),
    d2_client_delete-found fd (port % 2 ^ 16) ip r,
  )
