-- ===== src/Eksam/D1/TestClient.antt =====
-- eksam/handout/d1_test_client.c: the program that says "connect", twice "ping" and "disconnect" to a
-- server, and prints what the server answers to each "ping".
pub mod Answers
pub mod Releases
use in2140_introduksjon_til.Common.Run.{failure, ℤ, pos, negsuc}
use in2140_introduksjon_til.Common.Words.{Bytes}
use in2140_introduksjon_til.Common.{
  ltb, if◌then◌else◌, set, ℕ, zero, suc, ◌%◌, ◌^◌, Option, none, some, List, [], ◌∷◌,
}
use in2140_introduksjon_til.Oblig.Table.{c_string}
use in2140_introduksjon_til.Eksam.Peers.{
  d1_create_client, d1_delete, d1_get_peer_info, Resources, System, D1Peer,
}
use in2140_introduksjon_til.Eksam.D1.{
  Sent, d1_recv_data, d1_send_data, blocked, returned, Net, Library, Outcome,
}

abbrev pub connect : Bytes
connect = b'c' ∷ b'o' ∷ b'n' ∷ b'n' ∷ b'e' ∷ b'c' ∷ b't' ∷ []

abbrev pub ping : Bytes
ping = b'p' ∷ b'i' ∷ b'n' ∷ b'g' ∷ []

abbrev pub disconnect : Bytes
disconnect = b'd' ∷ b'i' ∷ b's' ∷ b'c' ∷ b'o' ∷ b'n' ∷ b'n' ∷ b'e' ∷ b'c' ∷ b't' ∷ []

-- The variables of `main` once the client is made, the network, and the answers printed so far, the
-- last one first.
pub record Session : Type 0 where
  pub client : D1Peer
  pub resources : Resources
  pub buffer : Bytes
  pub wire : Net
  pub printed : List Bytes

-- What `main` returns, and what is left behind.
pub record Ended : Type 0 where
  pub result : ℤ
  pub resources : Resources
  pub wire : Net
  pub printed : List Bytes

-- `d1_delete( client ); return`
unfoldable pub quit : ℤ → Session → Outcome Ended
quit result s = returned (record {
  result = result;
  resources = d1_delete (some s.client) s.resources;
  wire = s.wire;
  printed = s.printed;
})

-- The session after a call of `d1_send_data`.
abbrev pub after_say : Session → ℕ → Net → Session
after_say s seqno wire =
    let client : D1Peer = record s.client { next_seqno = seqno } in
    record s { client = client; wire = wire }

unfoldable pub said : Session → (Session → Outcome Ended) → Sent → Outcome Ended
said s next blocked = blocked
said s next (returned (pos n, seqno, wire)) = next (after_say s seqno wire)
said s next (returned (negsuc n, seqno, wire)) = quit failure (after_say s seqno wire)

-- The session after `buffer[ret] = 0` and the `printf` with `%s`.
abbrev pub after_hear : Session → ℕ → Bytes → Net → Session
after_hear s ret buffer wire =
    let text = set buffer ret 0 in
    record s { buffer = text; wire = wire; printed = c_string text ∷ s.printed }

unfoldable pub heard :
    Session → (Session → Outcome Ended) → Outcome (ℤ × Bytes × Net) → Outcome Ended
heard s next blocked = blocked
heard s next (returned (pos n, buffer, wire)) = next (after_hear s n buffer wire)
heard s next (returned (negsuc n, buffer, wire)) =
    quit failure (record s { buffer = buffer; wire = wire })

module _ (lib : Library) where
  -- A call of `d1_send_data`, with what `main` does if it fails.
  unfoldable pub say : Bytes → Session → (Session → Outcome Ended) → Outcome Ended
  say text s next =
      said s next (d1_send_data lib s.client.next_seqno text s.wire.arrivals s.wire.sent)

  -- The call of `d1_recv_data`, with what `main` does if it fails.
  unfoldable pub hear : Session → (Session → Outcome Ended) → Outcome Ended
  hear s next = heard s next (d1_recv_data lib 1000 s.buffer s.wire.arrivals s.wire.sent)

  -- The loop.
  unfoldable pub pings : ℕ → Session → (Session → Outcome Ended) → Outcome Ended
  pings zero s next = next s
  pings (suc n) s next = say ping s λ asked. hear asked λ answered. pings n answered next

  -- From the "connect" on.
  unfoldable pub talk : Session → Outcome Ended
  talk s = say connect s λ connected. pings 2 connected λ done. say disconnect done (quit (pos 0))

  unfoldable pub with_address : ℤ × D1Peer → Resources → (buffer : Bytes) → Net → Outcome Ended
  with_address (ret, client) r buffer wire =
      let s : Session = record {
        client = client;
        resources = r;
        buffer = buffer;
        wire = wire;
        printed = [];
      } in
      elim ret [ pos zero ↦ quit failure s | pos (suc n) ↦ talk s | negsuc n ↦ talk s ]

  unfoldable pub with_client :
      System → (port : ℕ) → Option D1Peer × Resources → (buffer : Bytes) → Net → Outcome Ended
  with_client system port (none, r) buffer wire =
      returned (record { result = failure; resources = r; wire = wire; printed = [] })
  with_client system port (some client, r) buffer wire =
      with_address (d1_get_peer_info system client (port % 2 ^ 16)) r buffer wire

  -- `main`: `port` is what `atoi` makes of the second argument, as an unsigned word, and `buffer` what
  -- the array of 1024 bytes holds before it is written.
  unfoldable pub d1_test_client :
      System → (argc port : ℕ) → (buffer : Bytes) → Resources → Net → Outcome Ended
  d1_test_client system argc port buffer r wire =
      if ltb argc 3
      then returned (record { result = failure; resources = r; wire = wire; printed = [] })
      else with_client system port (d1_create_client system r) buffer wire
