-- ===== src/Eksam/D1/Bounds.antt =====
-- eksam/handout/d1_udp.c: how much `d1_recv_data` returns and writes.
use in2140_introduksjon_til.Common.Run.{failure, ℤ, pos, negsuc}
use in2140_introduksjon_til.Common.Words.{Bytes}
use in2140_introduksjon_til.Common.{
  ltb, if◌then◌else◌, length, take, overwrite, length-take, length-drop, length-overwrite, ℕ, ◌+◌,
  ◌≤◌, ◌≡◌, refl, ap, ◌∙◌, subst, ◌⊎◌, inl, inr, Bool, true, false, ◌&&◌, List, [], ◌∷◌, arith,
}
use in2140_introduksjon_til.Eksam.D1.{
  flag_data, header_size, is_set, host_flags, payload, size_fits, checksum_fits, d1_recv_data,
  error, datagram, blocked, returned, Net, Library, Arrival, Outcome,
}

abbrev Received : Type 0
Received = Outcome (ℤ × Bytes × Net)

-- A result leaves room for the header in `sz` bytes, and the buffer keeps its length.
unfoldable pub Within : ℕ → ℕ → Received → Type 0
Within sz room blocked = Unit
Within sz room (returned (pos n, buffer, wire)) = (n + header_size ≤ sz) × (length buffer ≡ room)
Within sz room (returned (negsuc n, buffer, wire)) = (n ≡ 0) × (length buffer ≡ room)

Within-if :
    (sz room : ℕ) (b : Bool) (s t : Received)
    → (b ≡ true → Within sz room s)
    → (b ≡ false → Within sz room t)
    → Within sz room (if b then s else t)
Within-if sz room true s t h k = h refl
Within-if sz room false s t h k = k refl

accepted :
    (sz room : ℕ) (buffer packet : Bytes)
    → length packet ≤ sz
    → length packet ≤ room
    → length (overwrite buffer packet) ≡ room
    → header_size ≤ length packet
    → (length (payload packet) + header_size ≤ sz)
      × (length (overwrite (overwrite buffer packet) (payload packet)) ≡ room)
accepted sz room buffer packet within fits written long =
    let rest = length-drop header_size packet in
    (
      omega (arith, rest),
      length-overwrite (overwrite buffer packet) (payload packet) (omega (arith, rest)) ∙ written,
    )

module _ (lib : Library) (sz : ℕ) where
  pub d1_recv_data-Within :
      (room : ℕ) (buffer : Bytes) (arrivals : List Arrival) (sent : List Bytes)
      → sz ≤ room
      → length buffer ≡ room
      → Within sz room (d1_recv_data lib sz buffer arrivals sent)
  unfolding Within d1_recv_data
  d1_recv_data-Within room buffer [] sent big size =
      Within-if sz room (ltb sz 8) _ _ (λ _. (refl, size)) (λ _. tt)
  d1_recv_data-Within room buffer (error ∷ as') sent big size =
      Within-if sz room (ltb sz 8) _ _ (λ _. (refl, size)) (λ _. (refl, size))
  d1_recv_data-Within room buffer (datagram d ∷ as') sent big size =
      let packet = take sz d in
      let within : length packet ≤ sz = omega (arith, length-take sz d) in
      let written : length (overwrite buffer packet) ≡ room =
        length-overwrite buffer packet (omega arith) ∙ size in
      Within-if sz room (ltb sz 8) _ _ (λ _. (refl, size))
        λ whole.
          Within-if sz room (ltb (length packet) header_size) _ _ (λ _. (refl, written))
            λ long.
              Within-if sz room (is_set (host_flags packet) flag_data) _ _
                (λ _.
                  Within-if sz room (checksum_fits lib packet && size_fits packet) _ _
                    (λ _.
                      accepted sz room buffer packet within (omega arith) written (ground arith))
                    (λ _. d1_recv_data-Within room (overwrite buffer packet) as' _ big written))
                (λ _. (refl, written))

-- The length of the buffer after a call that returned.
pub length-d1_recv_data :
    (lib : Library) (sz : ℕ) (buffer : Bytes) (arrivals : List Arrival) (sent : List Bytes) (n : ℕ)
    (buffer' : Bytes) (wire : Net)
    → sz ≤ length buffer
    → d1_recv_data lib sz buffer arrivals sent ≡ returned (pos n, buffer', wire)
    → length buffer' ≡ length buffer
unfolding Within
length-d1_recv_data lib sz buffer arrivals sent n buffer' wire big e =
    (subst (Within sz (length buffer)) e
      (d1_recv_data-Within lib sz (length buffer) buffer arrivals sent big refl)).1

-- `d1_recv_data` of `sz` bytes into a buffer of at least that size: whatever arrives, it returns at
-- most `sz - 8`, so that the byte behind what it returns is still inside the buffer, and it changes
-- the buffer in place, without a change of its length. Or it waits for ever.
pub d1_recv_data_bounds :
    (lib : Library) (sz : ℕ) (buffer : Bytes) (arrivals : List Arrival) (sent : List Bytes)
    → sz ≤ length buffer
    → (d1_recv_data lib sz buffer arrivals sent ≡ blocked)
      ⊎ ((r : ℤ) × (buffer' : Bytes) × (wire : Net) × (d1_recv_data lib sz buffer arrivals sent
            ≡ returned (r, buffer', wire))
          × (length buffer' ≡ length buffer)
          × ((r ≡ failure) ⊎ ((n : ℕ) × (r ≡ pos n) × (n + header_size ≤ sz))))
unfolding Within
d1_recv_data_bounds lib sz buffer arrivals sent big =
    bounded (d1_recv_data lib sz buffer arrivals sent)
      (d1_recv_data-Within lib sz (length buffer) buffer arrivals sent big refl)
  where
    bounded :
        (o : Received)
        → Within sz (length buffer) o
        → (o ≡ blocked)
          ⊎ ((r : ℤ) × (buffer' : Bytes) × (wire : Net) × (o ≡ returned (r, buffer', wire))
              × (length buffer' ≡ length buffer)
              × ((r ≡ failure) ⊎ ((n : ℕ) × (r ≡ pos n) × (n + header_size ≤ sz))))
    bounded blocked w = inl refl
    bounded (returned (pos n, b, wire)) w = inr (pos n, b, wire, refl, w.1, inr (n, refl, w.0))
    bounded (returned (negsuc n, b, wire)) w =
        inr (negsuc n, b, wire, refl, w.1, inl (ap negsuc w.0))
