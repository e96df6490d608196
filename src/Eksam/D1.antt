-- ===== src/Eksam/D1.antt =====
-- eksam/handout/d1_udp.c: packets, checksums, sending and receiving. A datagram is a list of bytes,
-- the host is little-endian. What the network does is an explicit script: the datagrams (or
-- failures) that successive calls of `recvfrom` yield, and a record of what was sent.
pub mod Bounds
pub mod Header
pub mod Exchange
pub mod Receive
pub mod Send
pub mod TestClient
use in2140_introduksjon_til.Common.Run.{failure, ℤ, pos, negsuc}
use in2140_introduksjon_til.Common.Words.{Bytes, le_bytes, from_le, swap16, swap32}
use in2140_introduksjon_til.Common.{
  ltb, ◌==◌, if◌then◌else◌, length, take, drop, overwrite, ℕ, ◌+◌, ◌*◌, ◌/◌, ◌%◌, ◌^◌, bit_and,
  bit_or, bit_xor, Bool, true, not, ◌&&◌, ◌||◌, List, [], ◌∷◌, ◌++◌,
}

pub record D1Header : Type 0 where
  pub flags : ℕ
  pub checksum : ℕ
  pub size : ℕ

abbrev pub flag_data : ℕ
flag_data = 2 ^ 15

abbrev pub flag_ack : ℕ
flag_ack = 2 ^ 8

abbrev pub seqno_bit : ℕ
seqno_bit = 2 ^ 7

abbrev pub ackno_bit : ℕ
ackno_bit = 1

abbrev pub header_size : ℕ
header_size = 8

-- The bytes of the struct in memory, and the struct that such bytes hold.
unfoldable pub header_bytes : D1Header → Bytes
header_bytes h = le_bytes 2 h.flags ++ (le_bytes 2 h.checksum ++ le_bytes 4 h.size)

unfoldable pub read_header : Bytes → D1Header
read_header buffer = record {
  flags = from_le (take 2 buffer);
  checksum = from_le (take 2 (drop 2 buffer));
  size = from_le (take 4 (drop 4 buffer));
}

-- The loop over the payload, 16 bits at a time; a last odd byte is padded with 0.
unfoldable pub xor_words : ℕ → Bytes → ℕ
xor_words acc [] = acc
xor_words acc (lo ∷ []) = bit_xor acc lo
xor_words acc (lo ∷ hi ∷ rest) = xor_words (bit_xor acc (lo + 256 * hi)) rest

abbrev is_odd : ℕ → Bool
is_odd n = n % 2 == 1

-- The first loop skips the checksum field. `memory` is whether `malloc` finds room for the padded
-- copy, which is needed for an odd size; without it the function returns (uint16_t) -1.
unfoldable pub compute_checksum : (memory : Bool) → D1Header → Bytes → ℕ
compute_checksum memory h buffer =
    let header_part = bit_xor (bit_xor h.flags (h.size % 2 ^ 16)) (h.size / 2 ^ 16) in
    if is_odd (length buffer) && not memory then 0xffff else xor_words header_part buffer

-- `header.flags & bit`, as a test
abbrev pub is_set : ℕ → ℕ → Bool
is_set flags bit = not (bit_and flags bit == 0)

abbrev ack_flags : ℕ → ℕ
ack_flags seqno =
    let flags = bit_or 0 flag_ack in if seqno == 1 then bit_or flags ackno_bit else flags

-- The header that `d1_send_ack` makes: the checksum is computed while its field is 0.
unfoldable pub ack_header : (memory : Bool) → ℕ → D1Header
ack_header memory seqno =
    let h : D1Header = record { flags = swap16 (ack_flags seqno); checksum = 0; size = swap32 8 } in
    record h { checksum = compute_checksum memory h [] }

unfoldable pub ack_packet : (memory : Bool) → ℕ → Bytes
ack_packet memory seqno = header_bytes (ack_header memory seqno)

abbrev data_flags : ℕ → ℕ
data_flags next_seqno =
    let flags = bit_or 0 flag_data in if next_seqno == 1 then bit_or flags seqno_bit else flags

-- The header that `d1_send_data` makes from `peer->next_seqno` and the payload.
unfoldable pub data_header : (memory : Bool) → ℕ → Bytes → D1Header
data_header memory next_seqno buffer =
    let h : D1Header = record {
      flags = swap16 (data_flags next_seqno);
      checksum = 0;
      size = swap32 (header_size + length buffer);
    } in
    record h { checksum = compute_checksum memory h buffer }

unfoldable pub data_packet : (memory : Bool) → ℕ → Bytes → Bytes
data_packet memory next_seqno buffer = header_bytes (data_header memory next_seqno buffer) ++ buffer

-- What one call of `recvfrom` yields.
pub data Arrival : Type 0 where
  error : Arrival
  datagram : Bytes → Arrival

-- The network: what is still to arrive, and the datagrams that `sendto` was called with, the last
-- one first.
pub record Net : Type 0 where
  pub arrivals : List Arrival
  pub sent : List Bytes

abbrev pub net : List Arrival → List Bytes → Net
net a s = record { arrivals = a; sent = s }

-- The library's answers: whether `malloc` has memory, whether the `n`-th `sendto` succeeds, and the
-- 8 bytes that the array `ack_buff` on the stack holds before it is written.
pub record Library : Type 0 where
  pub memory : Bool
  pub sends : ℕ → Bool
  pub stale : Bytes

-- `blocked`: a call of `recvfrom` waits for a datagram that never comes.
pub data Outcome {ℓ} (A : Type ℓ) : Type ℓ where
  blocked : Outcome A
  returned : A → Outcome A

-- The header of a received packet, with the fields that are converted in host order, and whether
-- its size fits.
abbrev pub host_flags : Bytes → ℕ
host_flags packet = swap16 (read_header packet).flags

abbrev pub host_size : Bytes → ℕ
host_size packet = swap32 (read_header packet).size

abbrev pub payload : Bytes → Bytes
payload packet = drop header_size packet

abbrev pub size_fits : Bytes → Bool
size_fits packet = length packet == host_size packet

-- What a call returns: its result, `peer->next_seqno`, and the network.
abbrev pub Sent : Type 0
Sent = Outcome (ℤ × ℕ × Net)

-- The test `if ( res )` at the end of `d1_send_data`.
abbrev pub is_nonzero : ℤ → Bool
is_nonzero (pos n) = not (n == 0)
is_nonzero (negsuc n) = true

unfoldable pub after_wait : ℤ → Sent → Sent
after_wait bytes_sent blocked = blocked
after_wait bytes_sent (returned (res, seqno, n)) =
    returned (if is_nonzero res then bytes_sent else failure, seqno, n)

abbrev too_long : Bytes → Bool
too_long buffer = ltb 1016 (length buffer) || length buffer == 0

module _ (lib : Library) where
  -- `sendto`: the number of bytes sent, or -1.
  unfoldable pub send_to : Bytes → List Bytes → ℤ × List Bytes
  send_to packet sent =
      (if lib.sends (length sent) then pos (length packet) else failure, packet ∷ sent)

  -- The result of `sendto` is not looked at.
  unfoldable pub d1_send_ack : ℕ → List Bytes → List Bytes
  unfolding send_to
  d1_send_ack seqno sent = (send_to (ack_packet lib.memory seqno) sent).1

  -- Whether the checksum in the header is that of the packet.
  abbrev pub checksum_fits : Bytes → Bool
  checksum_fits packet =
      compute_checksum lib.memory (read_header packet) (payload packet)
      == (read_header packet).checksum

  -- `d1_recv_data`: the result, the caller's buffer, and the network. After a damaged packet the
  -- function calls itself, with the buffer as `recvfrom` left it.
  unfoldable pub d1_recv_data : ℕ → Bytes → List Arrival → List Bytes → Outcome (ℤ × Bytes × Net)
  d1_recv_data sz buffer [] sent =
      if ltb sz 8 then returned (failure, buffer, net [] sent) else blocked
  d1_recv_data sz buffer (error ∷ as') sent =
      if ltb sz 8
      then returned (failure, buffer, net (error ∷ as') sent)
      else returned (failure, buffer, net as' sent)
  d1_recv_data sz buffer (datagram d ∷ as') sent =
      let packet = take sz d in
      let buffer' = overwrite buffer packet in
      let accept = returned (
        pos (length (payload packet)),
        overwrite buffer' (payload packet),
        net as' (d1_send_ack (if is_set (host_flags packet) seqno_bit then 1 else 0) sent),
      ) in
      let again =
        d1_recv_data sz buffer' as'
          (d1_send_ack (if is_set (host_flags packet) seqno_bit then 0 else 1) sent) in
      if ltb sz 8
      then returned (failure, buffer, net (datagram d ∷ as') sent)
      else if ltb (length packet) header_size
      then returned (failure, buffer', net as' sent)
      else if is_set (host_flags packet) flag_data
      then (if checksum_fits packet && size_fits packet then accept else again)
      else returned (failure, buffer', net as' sent)

  after_send : (next_seqno : ℕ) → List Arrival → (List Bytes → Sent) → ℤ × List Bytes → Sent
  unfolding after_wait
  after_send next_seqno arrivals wait (negsuc n, sent) =
      returned (failure, next_seqno, net arrivals sent)
  after_send next_seqno arrivals wait (pos n, sent) = after_wait (pos n) (wait sent)

  -- The body of `d1_send_data`, with the call of `d1_wait_ack` that it ends in.
  unfoldable pub send_with :
      (next_seqno : ℕ) → Bytes → List Arrival → List Bytes → (List Bytes → Sent) → Sent
  unfolding after_send
  send_with next_seqno buffer arrivals sent wait =
      if too_long buffer
      then returned (failure, next_seqno, net arrivals sent)
      else after_send next_seqno arrivals wait
          (send_to (data_packet lib.memory next_seqno buffer) sent)

  -- `ack_buff` after `recvfrom`, which takes at most 8 bytes of the datagram.
  abbrev pub ack_buff : Bytes → Bytes
  ack_buff d = overwrite lib.stale (take 8 d)

  abbrev pub ack_response : Bytes → ℕ
  ack_response d = if is_set (host_flags (ack_buff d)) ackno_bit then 1 else 0

  -- `d1_wait_ack`; with a wrong acknowledgement number it sends the data again, and so waits again.
  unfoldable pub d1_wait_ack : (next_seqno : ℕ) → Bytes → List Arrival → List Bytes → Sent
  d1_wait_ack next_seqno buffer [] sent = blocked
  d1_wait_ack next_seqno buffer (error ∷ as') sent = returned (failure, next_seqno, net as' sent)
  d1_wait_ack next_seqno buffer (datagram d ∷ as') sent =
      let resend =
        send_with next_seqno buffer as' sent (λ s. d1_wait_ack next_seqno buffer as' s) in
      let next = (if next_seqno == 0 then 1 else 0) in
      if is_set (host_flags (ack_buff d)) flag_ack
      then if host_size (ack_buff d) == length (take 8 d)
        then if ack_response d == next_seqno then returned (pos 1, next, net as' sent) else resend
        else returned (failure, next_seqno, net as' sent)
      else returned (failure, next_seqno, net as' sent)

  unfoldable pub d1_send_data : (next_seqno : ℕ) → Bytes → List Arrival → List Bytes → Sent
  d1_send_data next_seqno buffer arrivals sent =
      send_with next_seqno buffer arrivals sent (λ s. d1_wait_ack next_seqno buffer arrivals s)
