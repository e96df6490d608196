-- ===== src/Eksam/D1/Send.antt =====
-- eksam/handout/d1_udp.c: `d1_send_data` and `d1_wait_ack`: retransmission, the sequence number, and
-- the result.
use in2140_introduksjon_til.Eksam.D1.Receive.{max_payload}
use in2140_introduksjon_til.Common.{
  ◌==◌, if◌then◌else◌, Bool-cases, length, take, drop, replicate, length-append, take_all,
  drop-append, overwrite-append, replicate-append_cons, ℕ, zero, suc, ◌+◌, ◌-◌, ◌^◌, ◌≤◌, ◌<◌, ◌≡◌,
  refl, sym, ap, ◌∙◌, inl, inr, Bool, true, false, List, [], ◌∷◌, ◌++◌, append-nil, arith,
}
use in2140_introduksjon_til.Common.Run.{failure, ℤ, pos}
use in2140_introduksjon_til.Common.Words.{
  Bytes, swap16, swap32, swap16_twice, swap32_twice, swap16-lt, swap32-lt,
}
use in2140_introduksjon_til.Eksam.D1.{
  flag_ack, ackno_bit, header_size, header_bytes, read_header, is_set, ack_header, ack_packet,
  data_header, data_packet, net, host_flags, host_size, Sent, is_nonzero, after_wait, send_to,
  send_with, ack_buff, ack_response, d1_wait_ack, d1_send_data, ack_flags, datagram, returned,
  too_long, Net, Library, Arrival,
}
use in2140_introduksjon_til.Eksam.D1.Header.{
  compute_checksum-lt, length-header_bytes, read_header-header_bytes, Fits,
}

ack_flags_cases :
    (s : ℕ)
    → (ack_flags s < 2 ^ 16)
      × (is_set (ack_flags s) flag_ack ≡ true)
      × (is_set (ack_flags s) ackno_bit ≡ s == 1)
ack_flags_cases s = elim (Bool-cases (s == 1)) [
  | inl e ↦ rw e (omega arith, refl, refl)
  | inr e ↦ rw e (omega arith, refl, refl)
]

ack_header-Fits : (memory : Bool) (s : ℕ) → Fits (ack_header memory s)
unfolding ack_header
ack_header-Fits memory s =
    let flags = swap16-lt (ack_flags s) (ack_flags_cases s).0 in
    let size = swap32-lt 8 (omega arith) in
    record { flags = flags; checksum = compute_checksum-lt memory _ [] flags size tt; size = size }

module _ (lib : Library) (whole : length lib.stale ≡ 8) where
  abbrev acked : ℕ → Bytes
  acked s = ack_packet lib.memory s

  take-acked : (s : ℕ) → take 8 (acked s) ≡ acked s
  unfolding ack_packet
  take-acked s =
      take_all 8 (header_bytes (ack_header lib.memory s))
        (omega (arith, length-header_bytes (ack_header lib.memory s)))

  length-acked : (s : ℕ) → length (acked s) ≡ 8
  unfolding ack_packet
  length-acked s = length-header_bytes (ack_header lib.memory s)

  -- An ACK packet fills the array on the stack.
  ack_buff-acked : (s : ℕ) → ack_buff lib (acked s) ≡ acked s
  ack_buff-acked s = rw (
    take-acked s,
    overwrite-append lib.stale (acked s) (omega (arith, length-acked s)),
    length-acked s,
    nothing_left lib.stale whole,
    append-nil (acked s),
  )
    where
      nothing_left : (xs : Bytes) → length xs ≡ 8 → drop 8 xs ≡ []
      nothing_left xs h = rw (← append-nil xs) (drop-append 8 xs [] (sym h))

  read_acked : (s : ℕ) → read_header (acked s) ≡ ack_header lib.memory s
  unfolding ack_packet
  read_acked s =
      rw (← append-nil (header_bytes (ack_header lib.memory s)))
        (read_header-header_bytes (ack_header lib.memory s) [] (ack_header-Fits lib.memory s))

  acked_flags : (s : ℕ) → host_flags (ack_buff lib (acked s)) ≡ ack_flags s
  unfolding ack_header
  acked_flags s =
      ap (λ d. swap16 (read_header d).flags) (ack_buff-acked s)
      ∙ (ap (λ h. swap16 h.flags) (read_acked s) ∙ swap16_twice (ack_flags s) (ack_flags_cases s).0)

  acked_size : (s : ℕ) → host_size (ack_buff lib (acked s)) ≡ 8
  unfolding ack_header
  acked_size s =
      ap (λ d. swap32 (read_header d).size) (ack_buff-acked s)
      ∙ (ap (λ h. swap32 h.size) (read_acked s) ∙ swap32_twice 8 (omega arith))

  acked_response : (s : ℕ) → ack_response lib (acked s) ≡ (if s == 1 then 1 else 0)
  acked_response s = rw (acked_flags s, (ack_flags_cases s).2)

  -- An ACK packet either ends the wait or has the data sent again.
  wait_step :
      (q s : ℕ) (buffer : Bytes) (as' : List Arrival) (sent : List Bytes)
      → d1_wait_ack lib q buffer (datagram (acked s) ∷ as') sent ≡ (
          if (if s == 1 then 1 else 0) == q
          then returned (pos 1, if q == 0 then 1 else 0, net as' sent)
          else send_with lib q buffer as' sent (λ n. d1_wait_ack lib q buffer as' n))
  unfolding d1_wait_ack
  wait_step q s buffer as' sent = rw (
    acked_flags s,
    (ack_flags_cases s).1,
    acked_size s,
    take-acked s,
    length-acked s,
    (ack_flags_cases s).2,
  )

-- A payload that `d1_send_data` takes.
abbrev pub IsPayload : Bytes → Type 0
IsPayload buffer = (0 < length buffer) × (length buffer ≤ max_payload)

payload_not_too_long : (buffer : Bytes) → IsPayload buffer → too_long buffer ≡ false
payload_not_too_long buffer p = ground arith

pub send_step :
    (lib : Library) (q : ℕ) (buffer : Bytes) (arrivals : List Arrival) (sent : List Bytes)
    (wait : List Bytes → Sent)
    → IsPayload buffer
    → lib.sends (length sent) ≡ true
    → send_with lib q buffer arrivals sent wait
      ≡ after_wait
          (pos (header_size + length buffer))
          (wait (data_packet lib.memory q buffer ∷ sent))
unfolding send_with send_to data_packet
send_step lib q buffer arrivals sent wait p works =
    rw (payload_not_too_long buffer p, works)
      (ap (λ n. after_wait (pos n) (wait (data_packet lib.memory q buffer ∷ sent)))
        (length-append (header_bytes (data_header lib.memory q buffer)) buffer
          ∙ omega (arith, length-header_bytes (data_header lib.memory q buffer))))

pub d1_send_data_stuck :
    (lib : Library) (q : ℕ) (buffer : Bytes) (arrivals : List Arrival) (sent : List Bytes)
    → IsPayload buffer
    → lib.sends (length sent) ≡ false
    → d1_send_data lib q buffer arrivals sent
      ≡ returned (failure, q, net arrivals (data_packet lib.memory q buffer ∷ sent))
unfolding d1_send_data send_with send_to
d1_send_data_stuck lib q buffer arrivals sent p stuck = rw (payload_not_too_long buffer p, stuck)

-- `k` acknowledgements of the wrong number, then one of the right number, then `as'`.
abbrev pub acks : Library → (q k : ℕ) → List Arrival → List Arrival
acks lib q k as' =
    replicate k (datagram (ack_packet lib.memory (1 - q)))
    ++ (datagram (ack_packet lib.memory q) ∷ as')

pub after_wait_nonzero :
    (b r : ℤ) (q : ℕ) (n : Net)
    → is_nonzero r ≡ true
    → after_wait b (returned (r, q, n)) ≡ returned (b, q, n)
unfolding after_wait
after_wait_nonzero b r q n h = rw h

module _ (lib : Library) (whole : length lib.stale ≡ 8) (works : (n : ℕ) → lib.sends n ≡ true)
    (q : ℕ) (bit : q < 2) (buffer : Bytes) (p : IsPayload buffer) where
  abbrev pub late_ack : ℕ → List Arrival → List Arrival
  late_ack k as' = acks lib q k as'

  abbrev packet : Bytes
  packet = data_packet lib.memory q buffer

  wait_late_ack :
      (k : ℕ) (as' : List Arrival) (sent : List Bytes)
      → (r : ℤ) × (is_nonzero r ≡ true)
        × (d1_wait_ack lib q buffer (late_ack k as') sent
            ≡ returned (r, 1 - q, net as' (replicate k packet ++ sent)))
  wait_late_ack zero as' sent = (pos 1, refl, wait_step lib whole q q buffer as' sent ∙ right)
    where
      right :
          (if (if q == 1 then 1 else 0) == q
            then returned (pos 1, if q == 0 then 1 else 0, net as' sent)
            else send_with lib q buffer as' sent (λ n. d1_wait_ack lib q buffer as' n))
          ≡ returned (pos 1, 1 - q, net as' sent)
      right = ground arith
  wait_late_ack (suc k) as' sent =
      let (r, nonzero, again) = wait_late_ack k as' (packet ∷ sent) in
      (
        pos (header_size + length buffer),
        ground arith,
        wait_step lib whole q (1 - q) buffer (late_ack k as') sent
            ∙ (wrong
                ∙ (send_step lib q buffer (late_ack k as') sent
                      (λ n. d1_wait_ack lib q buffer (late_ack k as') n) p (works (length sent))
                    ∙ (ap (after_wait (pos (header_size + length buffer))) again
                        ∙ (after_wait_nonzero _ r (1 - q) _ nonzero
                            ∙ ap
                                (λ l.
                                  returned (pos (header_size + length buffer), 1 - q, net as' l))
                                (replicate-append_cons k packet sent))))),
      )
    where
      wrong :
          (if (if 1 - q == 1 then 1 else 0) == q
            then returned (pos 1, if q == 0 then 1 else 0, net (late_ack k as') sent)
            else send_with lib q buffer
                (late_ack k as')
                sent
                (λ n. d1_wait_ack lib q buffer (late_ack k as') n))
          ≡ send_with lib q buffer
              (late_ack k as')
              sent
              (λ n. d1_wait_ack lib q buffer (late_ack k as') n)
      wrong = ground arith

  -- While `sendto` works, a payload of 1 to 1016 bytes that meets `k` acknowledgements of the wrong
  -- number and then one of the right number is sent `k + 1` times, always as the same packet; the
  -- call returns the packet's size, takes just these acknowledgements off the network, and moves the
  -- sequence number on from 0 to 1 or from 1 to 0.
  pub d1_send_data-late_ack :
      (k : ℕ) (as' : List Arrival) (sent : List Bytes)
      → d1_send_data lib q buffer (late_ack k as') sent
        ≡ returned
            (pos (header_size + length buffer), 1 - q, net as' (replicate (suc k) packet ++ sent))
  unfolding d1_send_data
  d1_send_data-late_ack k as' sent =
      let (r, nonzero, waited) = wait_late_ack k as' (packet ∷ sent) in
      send_step lib q buffer (late_ack k as') sent
        (λ n. d1_wait_ack lib q buffer (late_ack k as') n) p (works (length sent))
      ∙ (ap (after_wait (pos (header_size + length buffer))) waited
          ∙ (after_wait_nonzero _ r (1 - q) _ nonzero
              ∙ ap (λ l. returned (pos (header_size + length buffer), 1 - q, net as' l))
                  (replicate-append_cons k packet sent)))
