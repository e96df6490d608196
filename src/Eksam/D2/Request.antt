-- ===== src/Eksam/D2/Request.antt =====
-- eksam/handout/d2_lookup.c: what `d2_send_request` puts on the network.
use in2140_introduksjon_til.Eksam.D2.AddNodes.{word_bytes, next_word-word_bytes}
use in2140_introduksjon_til.Eksam.D2.Responses.{short_at_front}
use in2140_introduksjon_til.Common.Run.{failure, pos}
use in2140_introduksjon_til.Common.Words.{Bytes, le_bytes, length-le_bytes, swap16, swap32}
use in2140_introduksjon_til.Common.{
  leb, Bool-cases, length, drop, replicate, length-append, overwrite-append, length-overwrite, ℕ,
  suc, ◌-◌, ◌^◌, ◌≤◌, ◌<◌, ◌≡◌, refl, ap, ◌∙◌, ◌⊎◌, inl, inr, true, List, ◌++◌, append_assoc, arith,
}
use in2140_introduksjon_til.Eksam.D1.{data_packet, net, Library, Arrival, returned}
use in2140_introduksjon_til.Eksam.D1.Send.{acks, d1_send_data-late_ack}
use in2140_introduksjon_til.Eksam.D2.Store.{next_word, got}
use in2140_introduksjon_til.Eksam.D2.Wire.{type_request, short_at, request_packet, d2_send_request}

abbrev pub request_size : ℕ
request_size = 64

request_packet_lem :
    (i : ℕ) (stale : Bytes)
    → length stale ≡ request_size
    → request_packet i stale
      ≡ le_bytes 2 (swap16 type_request) ++ (le_bytes 2 0 ++ word_bytes i (drop 8 stale))
unfolding request_packet word_bytes
request_packet_lem i stale h =
    let kind = le_bytes 2 (swap16 type_request) in
    let unused = le_bytes 2 0 in
    let word = le_bytes 4 (swap32 i) in
    let size : length (kind ++ (unused ++ word)) ≡ 8 = omega (
      arith,
      length-append kind (unused ++ word),
      length-append unused word,
      length-le_bytes 2 (swap16 type_request),
      length-le_bytes 2 0,
      length-le_bytes 4 (swap32 i),
    ) in
    overwrite-append stale (kind ++ (unused ++ word)) (omega arith)
    ∙ ap (λ n. (kind ++ (unused ++ word)) ++ drop n stale) size
    ∙ append_assoc kind (unused ++ word) (drop 8 stale)
    ∙ ap (λ xs. kind ++ xs) (append_assoc unused word (drop 8 stale))

pub length-request_packet :
    (i : ℕ) (stale : Bytes)
    → length stale ≡ request_size
    → length (request_packet i stale) ≡ request_size
unfolding request_packet le_bytes
length-request_packet i stale h =
    length-overwrite stale
      (le_bytes 2 (swap16 type_request) ++ (le_bytes 2 0 ++ le_bytes 4 (swap32 i))) (omega arith)
    ∙ h

request_packet_type :
    (i : ℕ) (stale : Bytes)
    → length stale ≡ request_size
    → short_at 0 (request_packet i stale) ≡ got type_request
request_packet_type i stale h =
    ap (short_at 0) (request_packet_lem i stale h)
    ∙ short_at_front type_request (le_bytes 2 0 ++ word_bytes i (drop 8 stale)) (omega arith)

drop_header : (a b : ℕ) (rest : Bytes) → drop 4 (le_bytes 2 a ++ (le_bytes 2 b ++ rest)) ≡ rest
unfolding le_bytes
drop_header a b rest = refl

drop-word_bytes : (v : ℕ) (rest : Bytes) → drop 4 (word_bytes v rest) ≡ rest
unfolding le_bytes word_bytes
drop-word_bytes v rest = refl

request_packet_id :
    (i : ℕ) (stale : Bytes)
    → length stale ≡ request_size
    → i < 2 ^ 32
    → next_word (drop 4 (request_packet i stale)) ≡ got (i, drop 8 stale)
request_packet_id i stale h word =
    ap (λ xs. next_word (drop 4 xs)) (request_packet_lem i stale h)
    ∙ ap next_word (drop_header (swap16 type_request) 0 (word_bytes i (drop 8 stale)))
    ∙ next_word-word_bytes i (drop 8 stale) word

-- For an id above 1000, with `sendto` working and `k` acknowledgements of the wrong number before one
-- of the right number, `d2_send_request` returns 1 and has sent one and the same packet `k + 1`
-- times. Its payload is REQUEST_SIZE bytes long, starts with the type TYPE_REQUEST, and has the id,
-- both in network byte order, 4 bytes further on. For an id of at most 1000 it returns -1, sends
-- nothing and receives nothing.
pub d2_send_request_cases :
    (lib : Library) (q i : ℕ) (stale : Bytes) (k : ℕ) (as' : List Arrival) (sent : List Bytes)
    → length lib.stale ≡ 8
    → ((n : ℕ) → lib.sends n ≡ true)
    → q < 2
    → i < 2 ^ 32
    → length stale ≡ request_size
    → ((i ≤ 1000)
        × (d2_send_request lib q i stale (acks lib q k as') sent
            ≡ returned (failure, q, net (acks lib q k as') sent)))
      ⊎ ((1000 < i)
          × (request : Bytes) × (length request ≡ request_size)
          × (short_at 0 request ≡ got type_request)
          × (next_word (drop 4 request) ≡ got (i, drop 8 stale))
          × (d2_send_request lib q i stale (acks lib q k as') sent
              ≡ returned (
                pos 1,
                1 - q,
                net as' (replicate (suc k) (data_packet lib.memory q request) ++ sent),
              )))
unfolding d2_send_request
d2_send_request_cases lib q i stale k as' sent whole works bit word size =
    elim (Bool-cases (leb i 1000)) [
      | inl small ↦ inl (ground arith, rw small)
      | inr large ↦
          let fits = length-request_packet i stale size in
          inr (
            ground arith,
            request_packet i stale,
            fits,
            request_packet_type i stale size,
            request_packet_id i stale size word,
            rw (
              large,
              d1_send_data-late_ack lib whole works q bit (request_packet i stale)
                  (omega arith, omega arith) k as' sent,
            ),
          )
    ]
