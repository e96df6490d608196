-- ===== src/Eksam/D2/Wire.antt =====
-- eksam/handout/d2_lookup.c: the request and the responses, over `D1`.
use in2140_introduksjon_til.Common.Run.{failure, ℤ, pos, negsuc}
use in2140_introduksjon_til.Common.Words.{Bytes, le_bytes, read_le, swap16, swap32}
use in2140_introduksjon_til.Common.{
  ltb, leb, ◌==◌, if◌then◌else◌, drop, overwrite, ℕ, bit_and, ◌&&◌, ◌||◌, none, some, List, ◌++◌,
}
use in2140_introduksjon_til.Eksam.D1.{
  net, Sent, d1_recv_data, d1_send_data, Net, Library, Arrival, Outcome, blocked, returned,
}
use in2140_introduksjon_til.Eksam.D2.Store.{and_then, Access, fault, got}

abbrev pub type_request : ℕ
type_request = 1

abbrev pub type_response_size : ℕ
type_response_size = 2

abbrev pub type_response : ℕ
type_response = 4

abbrev pub type_last_response : ℕ
type_last_response = 8

-- The size of a PacketResponse.
abbrev pub response_size : ℕ
response_size = 4

-- `ntohs` of the two bytes that stand `at` bytes into the buffer.
unfoldable pub short_at : ℕ → Bytes → Access ℕ
short_at at buffer = elim (read_le 2 (drop at buffer)) [
  | none ↦ fault
  | some (v, rest) ↦ got (swap16 v)
]

-- The array `packet`: the three fields, and what the rest of its REQUEST_SIZE bytes held before.
unfoldable pub request_packet : ℕ → (stale : Bytes) → Bytes
request_packet i stale =
    overwrite stale (le_bytes 2 (swap16 type_request) ++ (le_bytes 2 0 ++ le_bytes 4 (swap32 i)))

-- The end of `d2_send_request`.
abbrev pub request_result : Sent → Sent
request_result blocked = blocked
request_result (returned (pos n, seqno, peer)) = returned (pos 1, seqno, peer)
request_result (returned (negsuc n, seqno, peer)) = returned (pos 0, seqno, peer)

-- `d2_send_request`; `packet` is what the array holds before it is written.
unfoldable pub d2_send_request :
    Library → (next_seqno i : ℕ) → (packet : Bytes) → List Arrival → List Bytes → Sent
d2_send_request lib next_seqno i packet arrivals sent =
    let send = d1_send_data lib next_seqno (request_packet i packet) arrivals sent in
    if leb i 1000 then returned (failure, next_seqno, net arrivals sent) else request_result send

-- What `d2_recv_response_size` makes of the received bytes.
unfoldable pub parse_response_size : Bytes → Access ℤ
parse_response_size buffer = and_then (short_at 0 buffer) λ packet_type.
    if bit_and packet_type type_response_size == 0
    then got failure
    else and_then (short_at 2 buffer) λ packet_size. got (pos packet_size)

abbrev after_size : Outcome (ℤ × Bytes × Net) → Outcome (Access ℤ × Net)
after_size blocked = blocked
after_size (returned (pos n, buffer, n')) = returned (parse_response_size buffer, n')
after_size (returned (negsuc n, buffer, n')) = returned (got failure, n')

-- `d2_recv_response_size`; `buffer` is what the array holds before it is written.
unfoldable pub d2_recv_response_size :
    Library → (buffer : Bytes) → List Arrival → List Bytes → Outcome (Access ℤ × Net)
d2_recv_response_size lib buffer arrivals sent =
    after_size (d1_recv_data lib 1024 buffer arrivals sent)

-- What `d2_recv_response` makes of the `received` bytes.
unfoldable pub parse_response : (received : ℕ) → Bytes → Access ℤ
parse_response received buffer = and_then (short_at 0 buffer) λ packet_type.
    if packet_type == type_response || packet_type == type_last_response
    then (and_then (short_at 2 buffer) λ payload_size.
        got (if ltb 0 payload_size && received == payload_size then pos received else pos 0))
    else got (pos 0)

abbrev after_response : Outcome (ℤ × Bytes × Net) → Outcome (Access ℤ × Bytes × Net)
after_response blocked = blocked
after_response (returned (pos n, buffer, n')) = returned (parse_response n buffer, buffer, n')
after_response (returned (negsuc n, buffer, n')) = returned (got failure, buffer, n')

-- `d2_recv_response`: the result, the caller's buffer, and the network.
unfoldable pub d2_recv_response :
    Library
    → (buffer : Bytes) → (sz : ℕ) → List Arrival
    → List Bytes
    → Outcome (Access ℤ × Bytes × Net)
d2_recv_response lib buffer sz arrivals sent =
    after_response (d1_recv_data lib sz buffer arrivals sent)
