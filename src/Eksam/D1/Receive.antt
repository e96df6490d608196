-- ===== src/Eksam/D1/Receive.antt =====
-- eksam/handout/d1_udp.c: `d1_recv_data` on the packets that `d1_send_data` builds, whole and
-- damaged.
use in2140_introduksjon_til.Common.Run.{pos}
use in2140_introduksjon_til.Common.{
  ◌==◌, if◌then◌else◌, le→ltb, ==_self, ==_ne, Bool-cases, length, take, overwrite, length-append,
  take_all, take-overwrite, ℕ, ◌+◌, ◌^◌, ◌≤◌, ◌<◌, ◌≡◌, refl, sym, ap, ◌∙◌, ◌≢◌, inl, inr, Bool,
  true, false, ◌&&◌, List, ◌∷◌, ◌++◌, arith,
}
use in2140_introduksjon_til.Common.Words.{
  Bytes, swap16, swap32, swap16_twice, swap32_twice, swap16-lt, swap32-lt,
}
use in2140_introduksjon_til.Eksam.D1.{
  flag_data, seqno_bit, header_size, header_bytes, read_header, compute_checksum, is_set,
  ack_packet, data_header, data_packet, net, host_flags, host_size, payload, size_fits, d1_send_ack,
  checksum_fits, d1_recv_data, data_flags, datagram, returned, D1Header, Library, Arrival,
}
use in2140_introduksjon_til.Eksam.D1.Header.{
  AreBytes, compute_checksum-lt, length-header_bytes, drop-header_bytes, read_header-header_bytes,
  compute_checksum_one_byte, Fits,
}

abbrev pub max_payload : ℕ
max_payload = 1016

data_flags_cases :
    (q : ℕ)
    → (data_flags q < 2 ^ 16)
      × (is_set (data_flags q) flag_data ≡ true)
      × (is_set (data_flags q) seqno_bit ≡ q == 1)
data_flags_cases q = elim (Bool-cases (q == 1)) [
  | inl e ↦ rw e (omega arith, refl, refl)
  | inr e ↦ rw e (omega arith, refl, refl)
]

module _ (memory : Bool) (q : ℕ) (buffer : Bytes) (bytes : AreBytes buffer)
    (fits : length buffer ≤ max_payload) where
  pub data_header-Fits : Fits (data_header memory q buffer)
  unfolding data_header
  data_header-Fits =
      let flags = swap16-lt (data_flags q) (data_flags_cases q).0 in
      let size = swap32-lt (header_size + length buffer) (omega arith) in
      record {
        flags = flags;
        checksum = compute_checksum-lt memory _ buffer flags size bytes;
        size = size;
      }

-- A DATA packet is accepted or refused by its checksum and size.
recv_step :
    (lib : Library) (sz : ℕ) (buf d : Bytes) (as' : List Arrival) (sent : List Bytes) (fine : Bool)
    → 8 ≤ sz
    → length d ≤ sz
    → 8 ≤ length d
    → is_set (host_flags d) flag_data ≡ true
    → (checksum_fits lib d && size_fits d) ≡ fine
    → d1_recv_data lib sz buf (datagram d ∷ as') sent ≡ (
        if fine
        then returned (
          pos (length (payload d)),
          overwrite (overwrite buf d) (payload d),
          net as' (d1_send_ack lib (if is_set (host_flags d) seqno_bit then 1 else 0) sent),
        )
        else d1_recv_data lib sz
            (overwrite buf d)
            as'
            (d1_send_ack lib (if is_set (host_flags d) seqno_bit then 0 else 1) sent))
unfolding d1_recv_data
recv_step lib sz buf d as' sent fine big within whole is_data fits =
    rw (take_all sz d within, le→ltb sz 8 big, le→ltb (length d) 8 whole, is_data, fits)

module _ (lib : Library) (q : ℕ) (buffer : Bytes) (bytes : AreBytes buffer)
    (fits : length buffer ≤ max_payload) where
  abbrev sent_header : D1Header
  sent_header = data_header lib.memory q buffer

  read_sent : (rest : Bytes) → read_header (header_bytes sent_header ++ rest) ≡ sent_header
  read_sent rest =
      read_header-header_bytes sent_header rest (data_header-Fits lib.memory q buffer bytes fits)

  sent_flags : (rest : Bytes) → host_flags (header_bytes sent_header ++ rest) ≡ data_flags q
  unfolding data_header
  sent_flags rest =
      ap (λ h. swap16 h.flags) (read_sent rest) ∙ swap16_twice (data_flags q) (data_flags_cases q).0

  sent_size :
      (rest : Bytes) → host_size (header_bytes sent_header ++ rest) ≡ header_size + length buffer
  unfolding data_header
  sent_size rest =
      ap (λ h. swap32 h.size) (read_sent rest)
      ∙ swap32_twice (header_size + length buffer) (omega arith)

  sent_length :
      (rest : Bytes) → length (header_bytes sent_header ++ rest) ≡ header_size + length rest
  sent_length rest =
      omega (arith, length-append (header_bytes sent_header) rest, length-header_bytes sent_header)

  sent_checksum :
      (rest : Bytes)
      → checksum_fits lib (header_bytes sent_header ++ rest)
        ≡ compute_checksum lib.memory sent_header rest
          == compute_checksum lib.memory sent_header buffer
  unfolding data_header compute_checksum
  sent_checksum rest = rw (read_sent rest, drop-header_bytes sent_header rest)

  pub d1_recv_data-data_packet :
      (sz : ℕ) (buf : Bytes) (as' : List Arrival) (sent : List Bytes)
      → header_size + length buffer ≤ sz
      → (buf' : Bytes) × (d1_recv_data lib sz buf
            (datagram (data_packet lib.memory q buffer) ∷ as')
            sent
          ≡ returned (
            pos (length buffer),
            buf',
            net as' (ack_packet lib.memory (if q == 1 then 1 else 0) ∷ sent),
          ))
        × (take (length buffer) buf' ≡ buffer)
  unfolding data_packet d1_send_ack
  d1_recv_data-data_packet sz buf as' sent room =
      let packet = header_bytes sent_header ++ buffer in
      (
        overwrite (overwrite buf packet) buffer,
        recv_step lib sz buf packet as' sent true (omega arith) (omega (arith, sent_length buffer))
              (omega (arith, sent_length buffer)) (rw (sent_flags buffer) (data_flags_cases q).1)
              accepted
            ∙ rw (drop-header_bytes sent_header buffer, sent_flags buffer, (data_flags_cases q).2),
        take-overwrite (overwrite buf packet) buffer,
      )
    where
      accepted :
          (checksum_fits lib (header_bytes sent_header ++ buffer)
            && size_fits (header_bytes sent_header ++ buffer))
          ≡ true
      accepted = rw (
        sent_checksum buffer,
        sent_length buffer,
        sent_size buffer,
        ==_self (compute_checksum lib.memory sent_header buffer),
        ==_self (header_size + length buffer),
      )

-- If one byte of the payload of such a packet is changed on the way, whichever and however, and
-- there is memory for the checksum, `d1_recv_data` does not accept the packet: it answers with an
-- ACK packet for the other sequence number and goes on to receive, with the buffer as `recvfrom`
-- left it.
pub d1_recv_data_damaged :
    (lib : Library) (q : ℕ) (front : Bytes) (b c : ℕ) (back : Bytes) (sz : ℕ) (buf : Bytes)
    (as' : List Arrival) (sent : List Bytes)
    → lib.memory ≡ true
    → AreBytes (front ++ (b ∷ back))
    → length (front ++ (b ∷ back)) ≤ max_payload
    → header_size + length (front ++ (b ∷ back)) ≤ sz
    → b ≢ c
    → let packet =
        header_bytes (data_header lib.memory q (front ++ (b ∷ back))) ++ (front ++ (c ∷ back)) in
      d1_recv_data lib sz buf (datagram packet ∷ as') sent
      ≡ d1_recv_data lib sz
          (overwrite buf packet)
          as'
          (ack_packet lib.memory (if q == 1 then 0 else 1) ∷ sent)
unfolding d1_send_ack
d1_recv_data_damaged lib q front b c back sz buf as' sent memory bytes fits room ne =
    let good = front ++ (b ∷ back) in
    let bad = front ++ (c ∷ back) in
    let packet = header_bytes (sent_header lib q good bytes fits) ++ bad in
    recv_step lib sz buf packet as' sent false (omega arith)
      (omega (
        arith,
        sent_length lib q good bytes fits bad,
        length-append front (b ∷ back),
        length-append front (c ∷ back),
      ))
      (omega (arith, sent_length lib q good bytes fits bad))
      (rw (sent_flags lib q good bytes fits bad) (data_flags_cases q).1)
      (rw (sent_checksum lib q good bytes fits bad, differs))
    ∙ rw (sent_flags lib q good bytes fits bad, (data_flags_cases q).2)
  where
    differs :
        (compute_checksum lib.memory
            (data_header lib.memory q (front ++ (b ∷ back)))
            (front ++ (c ∷ back))
          == compute_checksum lib.memory
              (data_header lib.memory q (front ++ (b ∷ back)))
              (front ++ (b ∷ back)))
        ≡ false
    differs = rw memory (
        ==_ne _ _ (λ e. ne (
          sym (
            compute_checksum_one_byte (data_header true q (front ++ (b ∷ back))) front c b back
              e))))
