-- ===== src/Eksam/D2/TestClient/Found.antt =====
-- eksam/handout/d2_lookup.c and eksam/handout/d2_test_client.c: the calls that receive the responses of
-- a server that knows the tree.
use in2140_introduksjon_til.Eksam.D2.AddNodes.{nodes_size}
use in2140_introduksjon_til.Eksam.D2.TestClient.{after_receive, receive_from}
use in2140_introduksjon_til.Eksam.D1.Receive.{max_payload, d1_recv_data-data_packet}
use in2140_introduksjon_til.Eksam.D2.Wire.{
  type_response_size, type_response, type_last_response, response_size, parse_response_size,
  d2_recv_response_size, d2_recv_response,
}
use in2140_introduksjon_til.Eksam.D2.Responses.{
  response_bytes, short_at_front, AreBytes-append, AreBytes-le_bytes, take_append_drop,
  short_at_behind, d2_recv_response-response_bytes,
}
use in2140_introduksjon_til.Eksam.D1.Header.{AreBytes}
use in2140_introduksjon_til.Common.Run.{ℤ, pos}
use in2140_introduksjon_til.Common.Words.{Bytes, le_bytes, swap16}
use in2140_introduksjon_til.Common.{
  ◌==◌, if◌then◌else◌, length, drop, All, ℕ, zero, suc, ◌+◌, ◌^◌, ◌≤◌, ◌<◌, ◌≡◌, refl, sym, ap, ap₂,
  ◌∙◌, subst, ◌⊎◌, inl, inr, List, [], ◌∷◌, ◌++◌, append_assoc, arith,
}
use in2140_introduksjon_til.Eksam.D1.{
  ack_packet, data_packet, net, Net, Library, Arrival, datagram, returned,
}
use in2140_introduksjon_til.Eksam.D1.Exchange.{ack_bit}
use in2140_introduksjon_til.Eksam.D2.Store.{NetNode, LocalTreeStore, got}
use in2140_introduksjon_til.Eksam.D2.Client.{Response}
use in2140_introduksjon_til.Eksam.D2.Rounds.{response, responses_of, Loop, ends, again}

-- The bytes of a PacketResponseSize.
unfoldable pub size_bytes : ℕ → Bytes
size_bytes n = le_bytes 2 (swap16 type_response_size) ++ le_bytes 2 (swap16 n)

parse_response_size-size_bytes :
    (n : ℕ) (rest : Bytes) → n < 2 ^ 16 → parse_response_size (size_bytes n ++ rest) ≡ got (pos n)
unfolding parse_response_size size_bytes
parse_response_size-size_bytes n rest small =
    let kind = le_bytes 2 (swap16 type_response_size) in
    let whole = append_assoc kind (le_bytes 2 (swap16 n)) rest in
    ap parse_response_size whole
    ∙ rw
        (
          short_at_front type_response_size (le_bytes 2 (swap16 n) ++ rest) (omega arith),
          short_at_behind (swap16 type_response_size) (le_bytes 2 (swap16 n) ++ rest),
          short_at_front n rest small,
        )
        refl

AreBytes-size_bytes : (n : ℕ) → AreBytes (size_bytes n)
unfolding size_bytes
AreBytes-size_bytes n =
    AreBytes-append (le_bytes 2 (swap16 type_response_size)) (le_bytes 2 (swap16 n))
      (AreBytes-le_bytes 2 (swap16 type_response_size)) (AreBytes-le_bytes 2 (swap16 n))

length-size_bytes : (n : ℕ) → length (size_bytes n) ≡ 4
unfolding size_bytes le_bytes
length-size_bytes n = refl

module _ (lib : Library) where
  pub d2_recv_response_size-size_bytes :
      (q n : ℕ) (buffer : Bytes) (as' : List Arrival) (sent : List Bytes)
      → q < 2
      → n < 2 ^ 16
      → d2_recv_response_size lib buffer
          (datagram (data_packet lib.memory q (size_bytes n)) ∷ as')
          sent
        ≡ returned (got (pos n), net as' (ack_packet lib.memory q ∷ sent))
  unfolding d2_recv_response_size
  d2_recv_response_size-size_bytes q n buffer as' sent bit small =
      let bytes = size_bytes n in
      let size = length-size_bytes n in
      let (buf', received, front) =
        d1_recv_data-data_packet lib q bytes (AreBytes-size_bytes n) (omega arith) 1024 buffer as'
          sent (omega arith) in
      let rest = drop (length bytes) buf' in
      let whole : buf' ≡ bytes ++ rest =
        sym (take_append_drop (length bytes) buf') ∙ ap (λ xs. xs ++ rest) front in
      rw (received, (ack_bit q bit).0)
        (ap (λ b. returned (parse_response_size b, net as' (ack_packet lib.memory q ∷ sent))) whole
          ∙ ap (λ a. returned (a, net as' (ack_packet lib.memory q ∷ sent)))
              (parse_response_size-size_bytes n rest small))

  -- Successive calls of `d2_recv_response`, with what they return, and the network after them.
  pub data Calls : Bytes → Net → List Response → Net → Type 0 where
    done : {b : Bytes} {w : Net} → Calls b w [] w
    call :
        {b b' : Bytes} {w w' w'' : Net} {ret : ℤ} {rs : List Response}
        → d2_recv_response lib b 1024 w.arrivals w.sent ≡ returned (got ret, b', w')
        → Calls b' w' rs w''
        → Calls b w ((ret, b') ∷ rs) w''

  -- The loop makes just these calls.
  pub receive_from-Loop :
      {s : LocalTreeStore} {i : ℕ} {rs : List Response} {left : ℕ × LocalTreeStore} {b : Bytes}
      {w w' : Net} (f : ℕ)
      → Loop s i rs left
      → Calls b w rs w'
      → length rs ≤ f
      → receive_from lib f s i b w ≡ returned (got left, w')
  unfolding receive_from after_receive
  receive_from-Loop zero (ends e) (Calls.call c more) enough = absurd (omega arith)
  receive_from-Loop zero (again e l) (Calls.call c more) enough = absurd (omega arith)
  receive_from-Loop (suc f) (ends e) (Calls.call c Calls.done) enough =
      rw (c, after_receive, e) refl
  receive_from-Loop (suc f) (again e l) (Calls.call c more) enough =
      rw (c, after_receive, e) (receive_from-Loop f l more (omega arith))

-- The sequence number of the server's packet that `k` more follow.
abbrev pub Numbers : Type 0
Numbers = (k : ℕ) → ℕ

-- The packets with the responses, and the acknowledgements that are sent for them.
unfoldable pub response_packets :
    Library → Numbers → List (List NetNode) → (last : List NetNode) → List Arrival → List Arrival
response_packets lib q [] last after =
    datagram (data_packet lib.memory (q 0) (response_bytes type_last_response last [])) ∷ after
response_packets lib q (ns ∷ nss) last after =
    datagram (data_packet lib.memory (q (suc (length nss))) (response_bytes type_response ns []))
    ∷ response_packets lib q nss last after

unfoldable pub response_acks : Library → Numbers → List (List NetNode) → List Bytes → List Bytes
response_acks lib q [] sent = ack_packet lib.memory (q 0) ∷ sent
response_acks lib q (ns ∷ nss) sent =
    response_acks lib q nss (ack_packet lib.memory (q (suc (length nss))) ∷ sent)

-- What the buffer holds behind the nodes of a response matters only where a response is.
responses_of_agree :
    (nss : List (List NetNode)) (last : List NetNode) (f g : ℕ → Bytes)
    → ((k : ℕ) → k ≤ length nss → f k ≡ g k)
    → responses_of nss last f ≡ responses_of nss last g
unfolding responses_of
responses_of_agree [] last f g h =
    ap (λ b. response type_last_response last b ∷ []) (h 0 (omega arith))
responses_of_agree (ns ∷ nss) last f g h =
    ap₂ (λ b rs. response type_response ns b ∷ rs) (h (suc (length nss)) (omega arith))
      (responses_of_agree nss last f g (λ k le. h k (omega arith)))

-- `f`, but `b` at `n`.
abbrev with_rest : ℕ → Bytes → (ℕ → Bytes) → ℕ → Bytes
with_rest n b f k = if k == n then b else f k

module _ (lib : Library) (q : Numbers) (bits : (k : ℕ) → q k < 2) where
  abbrev IsSmall : List NetNode → Type 0
  IsSmall ns = response_size + nodes_size ns ≤ max_payload

  one_call :
      (k t : ℕ) (ns : List NetNode) (buffer : Bytes) (as' : List Arrival) (sent : List Bytes)
      → (t ≡ type_response) ⊎ (t ≡ type_last_response)
      → IsSmall ns
      → (b : Bytes) × (d2_recv_response lib buffer 1024
            (datagram (data_packet lib.memory (q k) (response_bytes t ns [])) ∷ as')
            sent
          ≡ returned (
            got (pos (response_size + nodes_size ns)),
            response_bytes t ns b,
            net as' (ack_packet lib.memory (q k) ∷ sent),
          ))
  one_call k t ns buffer as' sent typed small =
      let (b, e) = d2_recv_response-response_bytes lib (q k) t ns buffer as' sent typed small in
      (
        b,
        e
            ∙ ap
                (λ a. returned (
                  got (pos (response_size + nodes_size ns)),
                  response_bytes t ns b,
                  net as' (ack_packet lib.memory a ∷ sent),
                ))
                (ack_bit (q k) (bits k)).0,
      )

  pub Calls-response_packets :
      (nss : List (List NetNode)) (last : List NetNode) (buffer : Bytes) (after : List Arrival)
      (sent : List Bytes)
      → All IsSmall nss
      → IsSmall last
      → (rest : ℕ → Bytes) × Calls lib buffer
          (net (response_packets lib q nss last after) sent)
          (responses_of nss last rest)
          (net after (response_acks lib q nss sent))
  unfolding response_packets response_acks responses_of
  Calls-response_packets [] last buffer after sent smalls small =
      let (b, e) = one_call 0 type_last_response last buffer after sent (inr refl) small in
      ((λ k. b), Calls.call e Calls.done)
  Calls-response_packets (ns ∷ nss) last buffer after sent (s, smalls) small =
      let n = suc (length nss) in
      let packets = response_packets lib q nss last after in
      let (b, e) = one_call n type_response ns buffer packets sent (inl refl) s in
      let (rest, more) =
        Calls-response_packets nss last (response_bytes type_response ns b) after
          (ack_packet lib.memory (q n) ∷ sent) smalls small in
      let same = responses_of_agree nss last rest (with_rest n b rest) (λ k le. ground arith) in
      let here : b ≡ with_rest n b rest n = ground arith in
      (
        with_rest n b rest,
        subst
            (λ c.
              Calls lib buffer (net (response_packets lib q (ns ∷ nss) last after) sent)
                (response type_response ns c ∷ responses_of nss last (with_rest n b rest))
                (net after (response_acks lib q (ns ∷ nss) sent)))
            here
            (Calls.call e (
              subst
                (λ rs.
                  Calls lib (response_bytes type_response ns b)
                    (net packets (ack_packet lib.memory (q n) ∷ sent)) rs
                    (net after (response_acks lib q (ns ∷ nss) sent)))
                same more)),
      )
