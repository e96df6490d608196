-- ===== src/Eksam/D1/Exchange.antt =====
-- eksam/handout/d1_udp.c: the result of `d1_send_data` when no acknowledgement is accepted, and one
-- exchange between a sender and a receiver.
use in2140_introduksjon_til.Eksam.D1.Header.{AreBytes}
use in2140_introduksjon_til.Eksam.D1.Receive.{
  max_payload, d1_recv_data-data_packet, d1_recv_data_damaged,
}
use in2140_introduksjon_til.Common.{
  ◌==◌, if◌then◌else◌, Bool-cases, length, take, overwrite, length-append, ℕ, suc, ◌+◌, ◌-◌, ◌≤◌,
  ◌<◌, ◌≡◌, refl, ap₂, ◌∙◌, ◌≢◌, ◌⊎◌, inl, inr, Bool, true, false, List, [], ◌∷◌, ◌++◌, arith,
}
use in2140_introduksjon_til.Common.Run.{pos}
use in2140_introduksjon_til.Common.Words.{Bytes, le_bytes}
use in2140_introduksjon_til.Eksam.D1.{
  flag_ack, header_size, header_bytes, is_set, ack_packet, data_header, data_packet, net,
  host_flags, host_size, Sent, is_nonzero, after_wait, send_to, d1_recv_data, send_with, ack_buff,
  ack_response, d1_wait_ack, d1_send_data, error, datagram, blocked, returned, too_long, Net,
  Library, Arrival,
}
use in2140_introduksjon_til.Eksam.D1.Send.{
  IsPayload, send_step, after_wait_nonzero, d1_send_data-late_ack,
}

abbrev Nonzero : Sent → Type 0
Nonzero blocked = Unit
Nonzero (returned (r, q, n)) = is_nonzero r ≡ true

Nonzero-if : (b : Bool) (s t : Sent) → Nonzero s → Nonzero t → Nonzero (if b then s else t)
Nonzero-if true s t h k = h
Nonzero-if false s t h k = k

after_wait-Nonzero : (n : ℕ) (s : Sent) → Nonzero (after_wait (pos (suc n)) s)
unfolding after_wait
after_wait-Nonzero n blocked = tt
after_wait-Nonzero n (returned (r, q, rest)) = elim (Bool-cases (is_nonzero r)) [
  | inl e ↦ rw e (ground arith)
  | inr e ↦ rw e refl
]

length-data_packet_pos :
    (memory : Bool) (q : ℕ) (buffer : Bytes)
    → (n : ℕ) × (length (data_packet memory q buffer) ≡ suc n)
unfolding data_packet header_bytes le_bytes
length-data_packet_pos memory q buffer = (_, refl)

module _ (lib : Library) where
  send_with-Nonzero :
      (q : ℕ) (buffer : Bytes) (arrivals : List Arrival) (sent : List Bytes)
      (wait : List Bytes → Sent)
      → Nonzero (send_with lib q buffer arrivals sent wait)
  unfolding send_with send_to
  send_with-Nonzero q buffer arrivals sent wait =
      Nonzero-if (too_long buffer) _ _ refl (elim (Bool-cases (lib.sends (length sent))) [
        | inr e ↦ rw e refl
        | inl e ↦
            let (n, size) = length-data_packet_pos lib.memory q buffer in
            rw (e, size) (after_wait-Nonzero n (wait (data_packet lib.memory q buffer ∷ sent)))
      ])

  wait_ack-Nonzero :
      (q : ℕ) (buffer : Bytes) (arrivals : List Arrival) (sent : List Bytes)
      → Nonzero (d1_wait_ack lib q buffer arrivals sent)
  unfolding d1_wait_ack
  wait_ack-Nonzero q buffer [] sent = tt
  wait_ack-Nonzero q buffer (error ∷ as') sent = refl
  wait_ack-Nonzero q buffer (datagram d ∷ as') sent =
      Nonzero-if (is_set (host_flags (ack_buff lib d)) flag_ack) _ _
        (Nonzero-if (host_size (ack_buff lib d) == length (take 8 d)) _ _
          (Nonzero-if (ack_response lib d == q) _ _ refl
            (send_with-Nonzero q buffer as' sent (λ s. d1_wait_ack lib q buffer as' s)))
          refl)
        refl

  -- Once its first `sendto` has worked, `d1_send_data` of 1 to 1016 bytes never reports a failure: it
  -- waits for ever, or returns the packet's size, whatever arrives, also if `recvfrom` fails or what
  -- arrives is no ACK packet or one of a wrong size.
  pub d1_send_data_reports_success :
      (q : ℕ) (buffer : Bytes) (arrivals : List Arrival) (sent : List Bytes)
      → IsPayload buffer
      → lib.sends (length sent) ≡ true
      → (d1_send_data lib q buffer arrivals sent ≡ blocked)
        ⊎ ((q' : ℕ) × (n : Net) × (d1_send_data lib q buffer arrivals sent
              ≡ returned (pos (header_size + length buffer), q', n)))
  unfolding d1_send_data after_wait
  d1_send_data_reports_success q buffer arrivals sent p works =
      report (d1_wait_ack lib q buffer arrivals (data_packet lib.memory q buffer ∷ sent))
        (wait_ack-Nonzero q buffer arrivals (data_packet lib.memory q buffer ∷ sent))
        (send_step lib q buffer arrivals sent (λ s. d1_wait_ack lib q buffer arrivals s) p works)
    where
      report :
          (w : Sent)
          → Nonzero w
          → send_with lib q buffer arrivals sent (λ s. d1_wait_ack lib q buffer arrivals s)
            ≡ after_wait (pos (header_size + length buffer)) w
          → (send_with lib q buffer arrivals sent (λ s. d1_wait_ack lib q buffer arrivals s)
              ≡ blocked)
            ⊎ ((q' : ℕ) × (n : Net) × (send_with lib q buffer arrivals sent
                    (λ s. d1_wait_ack lib q buffer arrivals s)
                  ≡ returned (pos (header_size + length buffer), q', n)))
      report blocked h e = inl e
      report (returned (r, q', n)) h e =
          inr (q', n, e ∙ after_wait_nonzero (pos (header_size + length buffer)) r q' n h)

pub ack_bit :
    (q : ℕ) → q < 2 → ((if q == 1 then 1 else 0) ≡ q) × ((if q == 1 then 0 else 1) ≡ 1 - q)
ack_bit q bit = (ground arith, ground arith)

module _ (lib : Library) (memory : lib.memory ≡ true) (whole : length lib.stale ≡ 8)
    (works : (n : ℕ) → lib.sends n ≡ true) (q : ℕ) (bit : q < 2) where
  -- With memory for the packets, where every `sendto` works and the receiver's buffer has room for the
  -- packet: a packet of `d1_send_data` of at most `max_payload` bytes, whose payload is changed in one byte on the way, and which is sent
  -- again when the receiver's answer arrives: the receiver refuses the first, takes the second and
  -- returns the payload; its two answers, in order, make the sender send the packet twice, return its
  -- size, and move its sequence number on.
  pub exchange_recovers :
      (front back : Bytes) (b c sz : ℕ) (buf : Bytes) (for_receiver for_sender : List Arrival)
      (replies sent : List Bytes)
      → AreBytes (front ++ (b ∷ back))
      → length (front ++ (b ∷ back)) ≤ max_payload
      → header_size + length (front ++ (b ∷ back)) ≤ sz
      → b ≢ c
      → let buffer = front ++ (b ∷ back) in
        let packet = data_packet lib.memory q buffer in
        let damaged = header_bytes (data_header lib.memory q buffer) ++ (front ++ (c ∷ back)) in
        let refusal = ack_packet lib.memory (1 - q) in
        let approval = ack_packet lib.memory q in
        (buf' : Bytes) × (d1_recv_data lib sz buf
            (datagram damaged ∷ datagram packet ∷ for_receiver)
            replies
          ≡ returned (pos (length buffer), buf', net for_receiver (approval ∷ refusal ∷ replies)))
        × (take (length buffer) buf' ≡ buffer)
        × (d1_send_data lib q buffer (datagram refusal ∷ datagram approval ∷ for_sender) sent
            ≡ returned
                (pos (header_size + length buffer), 1 - q, net for_sender (packet ∷ packet ∷ sent)))
  exchange_recovers front back b c sz buf for_receiver for_sender replies sent bytes fits room ne =
      let buffer = front ++ (b ∷ back) in
      let packet = data_packet lib.memory q buffer in
      let damaged = header_bytes (data_header lib.memory q buffer) ++ (front ++ (c ∷ back)) in
      let (buf', taken, same) =
        d1_recv_data-data_packet lib q buffer bytes fits sz (overwrite buf damaged) for_receiver
          (ack_packet lib.memory (if q == 1 then 0 else 1) ∷ replies) room in
      let refused =
        d1_recv_data_damaged lib q front b c back sz buf (datagram packet ∷ for_receiver) replies
          memory bytes fits room ne in
      (
        buf',
        refused
            ∙ (taken
                ∙ ap₂
                    (λ x y. returned (
                      pos (length buffer),
                      buf',
                      net for_receiver
                          (ack_packet lib.memory x ∷ ack_packet lib.memory y ∷ replies),
                    ))
                    (ack_bit q bit).0 (ack_bit q bit).1),
        same,
        d1_send_data-late_ack lib whole works q bit buffer
            (omega (arith, length-append front (b ∷ back)), fits) 1 for_sender sent,
      )
