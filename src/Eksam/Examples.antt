-- ===== src/Eksam/Examples.antt =====
-- The theorems about eksam/ at concrete inputs.
use in2140_introduksjon_til.Common.{
  take, replicate, overwrite, ℕ, ◌≡◌, refl, ◌⊎◌, true, [], ◌∷◌, ◌++◌, arith,
}
use in2140_introduksjon_til.Common.Run.{pos}
use in2140_introduksjon_til.Common.Words.{Bytes, le_bytes}
use in2140_introduksjon_til.Eksam.D1.{
  header_bytes, ack_packet, data_header, data_packet, net, after_wait, send_to, d1_recv_data,
  send_with, d1_wait_ack, d1_send_data, Net, Library, error, datagram, blocked, returned,
}
use in2140_introduksjon_til.Eksam.D1.Receive.{d1_recv_data_damaged}
use in2140_introduksjon_til.Eksam.D1.Send.{d1_send_data-late_ack}
use in2140_introduksjon_til.Eksam.D1.Exchange.{d1_send_data_reports_success, exchange_recovers}

-- A host on which everything works.
abbrev host : Library
host = record { memory = true; sends = λ n. true; stale = replicate 8 0 }

abbrev ping : Bytes
ping = b'p' ∷ b'i' ∷ b'n' ∷ b'g' ∷ []

abbrev pong : Bytes
pong = b'p' ∷ b'o' ∷ b'n' ∷ b'g' ∷ []

abbrev room : Bytes
room = replicate 20 0

d1_recv_data_damaged_example :
    d1_recv_data host 20 room
      (datagram (header_bytes (data_header true 1 ping) ++ pong) ∷ error ∷ [])
      []
    ≡ d1_recv_data host 20
        (overwrite room (header_bytes (data_header true 1 ping) ++ pong))
        (error ∷ [])
        (ack_packet true 0 ∷ [])
d1_recv_data_damaged_example =
    d1_recv_data_damaged host 1 (b'p' ∷ []) b'i' b'o' (b'n' ∷ b'g' ∷ []) 20 room (error ∷ []) []
      refl (omega arith) (omega arith) (omega arith) (omega arith)

d1_send_data-late_ack_example :
    d1_send_data host 0 ping
      (datagram (ack_packet true 1)
        ∷ datagram (ack_packet true 1)
        ∷ datagram (ack_packet true 0)
        ∷ [])
      []
    ≡ returned (pos 12, 1, net [] (replicate 3 (data_packet true 0 ping)))
d1_send_data-late_ack_example =
    d1_send_data-late_ack host refl (λ n. refl) 0 (omega arith) ping (omega arith, omega arith) 2 []
      []

d1_send_data_reports_success_example :
    (d1_send_data host 0 ping (error ∷ []) [] ≡ blocked)
    ⊎ ((q' : ℕ) × (n : Net) × (d1_send_data host 0 ping (error ∷ []) [] ≡ returned (pos 12, q', n)))
d1_send_data_reports_success_example =
    d1_send_data_reports_success host 0 ping (error ∷ []) [] (omega arith, omega arith) refl

-- `recvfrom` fails, and the caller is told that 12 bytes were sent.
error_is_success :
    d1_send_data host 0 ping (error ∷ []) []
    ≡ returned (pos 12, 0, net [] (data_packet true 0 ping ∷ []))
unfolding d1_send_data send_with send_to after_wait d1_wait_ack data_packet header_bytes le_bytes
error_is_success = refl

exchange_recovers_example :
    (buf' : Bytes) × (d1_recv_data host 20 room
        (datagram (header_bytes (data_header true 1 ping) ++ pong)
          ∷ datagram (data_packet true 1 ping)
          ∷ [])
        []
      ≡ returned (pos 4, buf', net [] (ack_packet true 1 ∷ ack_packet true 0 ∷ [])))
    × (take 4 buf' ≡ ping)
    × (d1_send_data host 1 ping
          (datagram (ack_packet true 0) ∷ datagram (ack_packet true 1) ∷ [])
          []
        ≡ returned (pos 12, 0, net [] (data_packet true 1 ping ∷ data_packet true 1 ping ∷ [])))
exchange_recovers_example =
    exchange_recovers host refl refl (λ n. refl) 1 (omega arith) (b'p' ∷ []) (b'n' ∷ b'g' ∷ []) b'i'
      b'o' 20 room [] [] [] [] (omega arith) (omega arith) (omega arith) (omega arith)
