-- ===== src/Eksam/D2/Responses.antt =====
-- eksam/handout/d2_lookup.c: what `d2_recv_response` makes of a response that arrives in a packet of
-- `D1`.
use in2140_introduksjon_til.Common.Run.{pos}
use in2140_introduksjon_til.Common.Words.{
  Bytes, le_bytes, length-le_bytes, read_le-le_bytes, swap16, swap32, swap16_twice, swap16-lt,
}
use in2140_introduksjon_til.Common.{
  ◌==◌, if◌then◌else◌, lt→ltb, ==_self, length, take, drop, length-append, ℕ, zero, suc, ◌+◌, ◌/◌,
  ◌^◌, ◌≤◌, ◌<◌, ◌≡◌, refl, sym, ap, ◌∙◌, ◌⊎◌, true, ◌||◌, List, [], ◌∷◌, ◌++◌, append_assoc, arith,
}
use in2140_introduksjon_til.Eksam.D1.{
  ack_packet, data_packet, net, d1_recv_data, Net, Library, Arrival, datagram, returned,
}
use in2140_introduksjon_til.Eksam.D1.Header.{AreBytes}
use in2140_introduksjon_til.Eksam.D1.Receive.{max_payload, d1_recv_data-data_packet}
use in2140_introduksjon_til.Eksam.D2.Store.{NetNode, got}
use in2140_introduksjon_til.Eksam.D2.Wire.{
  type_response, type_last_response, response_size, short_at, parse_response, d2_recv_response,
}
use in2140_introduksjon_til.Eksam.D2.AddNodes.{
  word_bytes, words_bytes, node_bytes, nodes_bytes, nodes_size, length-nodes_bytes,
}

-- The bytes of a PacketResponse with these nodes, in front of `rest`.
unfoldable pub response_bytes : ℕ → List NetNode → Bytes → Bytes
response_bytes packet_type ns rest =
    le_bytes 2 (swap16 packet_type)
    ++ (le_bytes 2 (swap16 (response_size + nodes_size ns)) ++ nodes_bytes ns rest)

pub short_at_front :
    (v : ℕ) (rest : Bytes) → v < 2 ^ 16 → short_at 0 (le_bytes 2 (swap16 v) ++ rest) ≡ got v
unfolding short_at
short_at_front v rest h =
    rw (read_le-le_bytes 2 (swap16 v) rest (swap16-lt v h), short_at, swap16_twice v h)

pub type_of_response :
    (t : ℕ) (ns : List NetNode) (rest : Bytes)
    → t < 2 ^ 16
    → short_at 0 (response_bytes t ns rest) ≡ got t
unfolding response_bytes
type_of_response t ns rest h =
    short_at_front t (le_bytes 2 (swap16 (response_size + nodes_size ns)) ++ nodes_bytes ns rest) h

word_bytes-append : (v : ℕ) (xs ys : Bytes) → word_bytes v xs ++ ys ≡ word_bytes v (xs ++ ys)
unfolding word_bytes
word_bytes-append v xs ys = append_assoc (le_bytes 4 (swap32 v)) xs ys

words_bytes-append :
    (vs : List ℕ) (xs ys : Bytes) → words_bytes vs xs ++ ys ≡ words_bytes vs (xs ++ ys)
unfolding words_bytes
words_bytes-append [] xs ys = refl
words_bytes-append (v ∷ vs) xs ys =
    word_bytes-append v (words_bytes vs xs) ys ∙ ap (word_bytes v) (words_bytes-append vs xs ys)

nodes_bytes-append :
    (ns : List NetNode) (xs ys : Bytes) → nodes_bytes ns xs ++ ys ≡ nodes_bytes ns (xs ++ ys)
unfolding nodes_bytes node_bytes
nodes_bytes-append [] xs ys = refl
nodes_bytes-append (n ∷ ns) xs ys =
    let more = nodes_bytes-append ns xs ys in
    word_bytes-append n.id _ ys
    ∙ ap (word_bytes n.id) (
        word_bytes-append n.value _ ys
        ∙ ap (word_bytes n.value) (
            word_bytes-append n.num_children _ ys
            ∙ ap (word_bytes n.num_children) (
                words_bytes-append n.child_id (nodes_bytes ns xs) ys
                ∙ ap (words_bytes n.child_id) more)))

response_bytes-append :
    (t : ℕ) (ns : List NetNode) (xs ys : Bytes)
    → response_bytes t ns xs ++ ys ≡ response_bytes t ns (xs ++ ys)
unfolding response_bytes le_bytes
response_bytes-append t ns xs ys = rw (nodes_bytes-append ns xs ys)

length-response_bytes :
    (t : ℕ) (ns : List NetNode) → length (response_bytes t ns []) ≡ response_size + nodes_size ns
unfolding response_bytes
length-response_bytes t ns =
    let ds = le_bytes 2 (swap16 (response_size + nodes_size ns)) in
    let ns' = nodes_bytes ns [] in
    omega (
      arith,
      length-append (le_bytes 2 (swap16 t)) (ds ++ ns'),
      length-append ds ns',
      length-le_bytes 2 (swap16 t),
      length-le_bytes 2 (swap16 (response_size + nodes_size ns)),
      length-nodes_bytes ns [],
    )

pub AreBytes-append : (xs ys : Bytes) → AreBytes xs → AreBytes ys → AreBytes (xs ++ ys)
AreBytes-append [] ys h k = k
AreBytes-append (x ∷ xs) ys (h, hs) k = (h, AreBytes-append xs ys hs k)

pub AreBytes-le_bytes : (k n : ℕ) → AreBytes (le_bytes k n)
unfolding le_bytes
AreBytes-le_bytes zero n = tt
AreBytes-le_bytes (suc k) n = (omega arith, AreBytes-le_bytes k (n / 256))

AreBytes-word_bytes : (v : ℕ) (rest : Bytes) → AreBytes rest → AreBytes (word_bytes v rest)
unfolding word_bytes
AreBytes-word_bytes v rest h =
    AreBytes-append (le_bytes 4 (swap32 v)) rest (AreBytes-le_bytes 4 (swap32 v)) h

AreBytes-words_bytes : (vs : List ℕ) (rest : Bytes) → AreBytes rest → AreBytes (words_bytes vs rest)
unfolding words_bytes
AreBytes-words_bytes [] rest h = h
AreBytes-words_bytes (v ∷ vs) rest h =
    AreBytes-word_bytes v (words_bytes vs rest) (AreBytes-words_bytes vs rest h)

AreBytes-nodes_bytes : (ns : List NetNode) → AreBytes (nodes_bytes ns [])
unfolding nodes_bytes node_bytes
AreBytes-nodes_bytes [] = tt
AreBytes-nodes_bytes (n ∷ ns) = AreBytes-word_bytes n.id _ (
    AreBytes-word_bytes n.value _ (
      AreBytes-word_bytes n.num_children _
        (AreBytes-words_bytes n.child_id _ (AreBytes-nodes_bytes ns))))

AreBytes-response_bytes : (t : ℕ) (ns : List NetNode) → AreBytes (response_bytes t ns [])
unfolding response_bytes
AreBytes-response_bytes t ns =
    let size = swap16 (response_size + nodes_size ns) in
    AreBytes-append (le_bytes 2 (swap16 t)) _ (AreBytes-le_bytes 2 (swap16 t))
      (AreBytes-append (le_bytes 2 size) _ (AreBytes-le_bytes 2 size) (AreBytes-nodes_bytes ns))

pub take_append_drop : (n : ℕ) (xs : Bytes) → take n xs ++ drop n xs ≡ xs
take_append_drop zero xs = refl
take_append_drop (suc n) [] = refl
take_append_drop (suc n) (x ∷ xs) = ap (λ ys. x ∷ ys) (take_append_drop n xs)

pub short_at_behind : (v : ℕ) (rest : Bytes) → short_at 2 (le_bytes 2 v ++ rest) ≡ short_at 0 rest
unfolding short_at le_bytes
short_at_behind v rest = refl

size_of_response :
    (t : ℕ) (ns : List NetNode) (rest : Bytes)
    → response_size + nodes_size ns < 2 ^ 16
    → short_at 2 (response_bytes t ns rest) ≡ got (response_size + nodes_size ns)
unfolding response_bytes
size_of_response t ns rest h =
    let size = response_size + nodes_size ns in
    short_at_behind (swap16 t) (le_bytes 2 (swap16 size) ++ nodes_bytes ns rest)
    ∙ short_at_front size (nodes_bytes ns rest) h

parse_response-response_bytes :
    (t : ℕ) (ns : List NetNode) (rest : Bytes)
    → (t ≡ type_response) ⊎ (t ≡ type_last_response)
    → response_size + nodes_size ns < 2 ^ 16
    → parse_response (response_size + nodes_size ns) (response_bytes t ns rest)
      ≡ got (pos (response_size + nodes_size ns))
unfolding parse_response
parse_response-response_bytes t ns rest typed small =
    let n = response_size + nodes_size ns in
    let known : (t == type_response || t == type_last_response) ≡ true = ground arith in
    let short : t < 2 ^ 16 = ground arith in
    rw (
      type_of_response t ns rest short,
      known,
      size_of_response t ns rest small,
      lt→ltb 0 n (omega arith),
      ==_self n,
    )

d2_recv_response_step :
    (lib : Library) (buffer buf' : Bytes) (arrivals : List Arrival) (sent : List Bytes) (n : ℕ)
    (after : Net) (t : ℕ) (ns : List NetNode) (rest : Bytes)
    → d1_recv_data lib 1024 buffer arrivals sent ≡ returned (pos n, buf', after)
    → n ≡ response_size + nodes_size ns
    → buf' ≡ response_bytes t ns rest
    → (t ≡ type_response) ⊎ (t ≡ type_last_response)
    → n < 2 ^ 16
    → d2_recv_response lib buffer 1024 arrivals sent
      ≡ returned (got (pos (response_size + nodes_size ns)), response_bytes t ns rest, after)
unfolding d2_recv_response
d2_recv_response_step lib buffer buf' arrivals sent n after t ns rest received size whole typed
      small =
    rw (received, whole, size, parse_response-response_bytes t ns rest typed (omega arith))

-- A PacketResponse of type TYPE_RESPONSE or TYPE_LAST_RESPONSE whose payload size is its own size,
-- sent as the payload of a D1 data packet of at most 1016 bytes: `d2_recv_response` with a buffer
-- size of 1024 returns the size of the PacketResponse, and the buffer then starts with its bytes.
-- One datagram is taken off the network and acknowledged.
pub d2_recv_response-response_bytes :
    (lib : Library) (q t : ℕ) (ns : List NetNode) (buffer : Bytes) (as' : List Arrival)
    (sent : List Bytes)
    → (t ≡ type_response) ⊎ (t ≡ type_last_response)
    → response_size + nodes_size ns ≤ max_payload
    → let packet = data_packet lib.memory q (response_bytes t ns []) in
      (rest : Bytes) × (d2_recv_response lib buffer 1024 (datagram packet ∷ as') sent
        ≡ returned (
          got (pos (response_size + nodes_size ns)),
          response_bytes t ns rest,
          net as' (ack_packet lib.memory (if q == 1 then 1 else 0) ∷ sent),
        ))
d2_recv_response-response_bytes lib q t ns buffer as' sent typed small =
    let bytes = response_bytes t ns [] in
    let size = length-response_bytes t ns in
    let (buf', received, front) =
      d1_recv_data-data_packet lib q bytes (AreBytes-response_bytes t ns) (omega arith) 1024 buffer
        as' sent (omega arith) in
    let rest = drop (length bytes) buf' in
    let whole : buf' ≡ response_bytes t ns rest =
      sym (take_append_drop (length bytes) buf')
      ∙ ap (λ xs. xs ++ rest) front
      ∙ response_bytes-append t ns [] rest in
    (
      rest,
      d2_recv_response_step lib buffer buf' _ sent (length bytes) _ t ns rest received size whole
          typed (omega arith),
    )
