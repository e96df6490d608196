-- ===== src/Eksam/D2/Rounds.antt =====
-- The loop of eksam/handout/d2_test_client.c, round by round, on the responses that carry the nodes of
-- a tree.
use in2140_introduksjon_til.Eksam.D2.Client.{
  Response, beyond_header, add_payload, round, receive_nodes,
}
use in2140_introduksjon_til.Common.Run.{pos}
use in2140_introduksjon_til.Common.Words.{Bytes, le_bytes}
use in2140_introduksjon_til.Common.{
  lt→ltb, length, drop, replicate, All, length-append, length-replicate, ℕ, zero, suc, ◌+◌, ◌<◌,
  ◌≡◌, refl, sym, ap, ap₂, ◌∙◌, subst, true, false, Option, none, some, List, [], ◌∷◌, ◌++◌, map,
  append_assoc, arith,
}
use in2140_introduksjon_til.Eksam.D2.Store.{and_then, NetNode, LocalTreeStore, got}
use in2140_introduksjon_til.Eksam.D2.Wire.{type_response, type_last_response, response_size}
use in2140_introduksjon_til.Eksam.D2.AddNodes.{
  nodes_bytes, nodes_size, Fits, d2_add_to_local_tree-nodes_bytes,
}
use in2140_introduksjon_til.Eksam.D2.PrintTree.{map-append, length-map}
use in2140_introduksjon_til.Eksam.D2.Responses.{response_bytes, type_of_response}

-- The response that carries the nodes, as `d2_recv_response` leaves it in the buffer.
abbrev pub response : ℕ → List NetNode → Bytes → Response
response packet_type ns rest =
    (pos (response_size + nodes_size ns), response_bytes packet_type ns rest)

-- The nodes of all responses: `nss` are those of each but the last.
unfoldable pub nodes_of : List (List NetNode) → List NetNode → List NetNode
nodes_of [] last = last
nodes_of (ns ∷ nss) last = ns ++ nodes_of nss last

-- The responses; `rest k` is what the buffer holds behind the nodes when `k` more responses follow.
unfoldable pub responses_of :
    List (List NetNode) → List NetNode → (rest : ℕ → Bytes) → List Response
responses_of [] last rest = response type_last_response last (rest 0) ∷ []
responses_of (ns ∷ nss) last rest =
    response type_response ns (rest (suc (length nss))) ∷ responses_of nss last rest

drop-response_bytes :
    (t : ℕ) (ns : List NetNode) (rest : Bytes)
    → drop response_size (response_bytes t ns rest) ≡ nodes_bytes ns rest
unfolding response_bytes le_bytes
drop-response_bytes t ns rest = refl

beyond_header-add : (n : ℕ) → 0 < n → beyond_header (pos (response_size + n)) ≡ some n
beyond_header-add n h =
    rw (lt→ltb response_size (response_size + n) (omega arith)) (ap some (omega arith))

nodes_size_pos : (ns : List NetNode) → 0 < length ns → 0 < nodes_size ns
unfolding nodes_size
nodes_size_pos [] h = absurd (omega arith)
nodes_size_pos (n ∷ ns) h = omega arith

replicate_add :
    (a b : ℕ) (x : Option NetNode) → replicate (a + b) x ≡ replicate a x ++ replicate b x
replicate_add zero b x = ap (λ n. replicate n x) (omega arith)
replicate_add (suc a) b x =
    ap (λ n. replicate n x) {y = suc (a + b)} (omega arith)
    ∙ ap (λ xs. x ∷ xs) (replicate_add a b x)

abbrev pub store : ℕ → List (Option NetNode) → LocalTreeStore
store number ns = record { number_of_nodes = number; nodes = ns }

-- `d2_add_to_local_tree` where only free places are left behind the first ones.
add_payload-response :
    (number t : ℕ) (ns : List NetNode) (before : List (Option NetNode)) (free : ℕ) (rest : Bytes)
    → All Fits ns
    → add_payload
        (store number (before ++ replicate (length ns + free) none))
        (length before)
        (response_bytes t ns rest)
        (nodes_size ns)
      ≡ got
          (length before + length ns, store number ((before ++ map some ns) ++ replicate free none))
add_payload-response number t ns before free rest fits =
    let places = replicate (length ns) none in
    rw
      (
        drop-response_bytes t ns rest,
        replicate_add (length ns) free none,
        append_assoc before (map some ns) (replicate free none),
      )
      (d2_add_to_local_tree-nodes_bytes number ns before places (replicate free none) rest fits
        (length-replicate (length ns) none))

-- The loop ends with the last of the responses, and leaves this index and tree.
pub data Loop : LocalTreeStore → ℕ → List Response → ℕ × LocalTreeStore → Type 0 where
  ends :
      {s s' : LocalTreeStore} {i i' : ℕ} {r : Response}
      → round s i r ≡ got (false, i', s')
      → Loop s i (r ∷ []) (i', s')
  again :
      {s s' : LocalTreeStore} {i i' : ℕ} {r : Response} {more : List Response}
      {left : ℕ × LocalTreeStore}
      → round s i r ≡ got (true, i', s')
      → Loop s' i' more left
      → Loop s i (r ∷ more) left

pub receive_nodes-Loop :
    {s : LocalTreeStore} {i : ℕ} {rs : List Response} {left : ℕ × LocalTreeStore}
    → Loop s i rs left
    → receive_nodes s i rs ≡ got left
unfolding receive_nodes
receive_nodes-Loop (Loop.ends e) = rw (e, and_then) refl
receive_nodes-Loop (Loop.again e more) = rw (e, and_then) (receive_nodes-Loop more)

round_last :
    (number : ℕ) (ns : List NetNode) (before : List (Option NetNode)) (free : ℕ) (rest : Bytes)
    → All Fits ns
    → 0 < length ns
    → round
        (store number (before ++ replicate (length ns + free) none))
        (length before)
        (response type_last_response ns rest)
      ≡ got (
        false,
        length before + length ns,
        store number ((before ++ map some ns) ++ replicate free none),
      )
unfolding round
round_last number ns before free rest fits some_nodes = rw (
  beyond_header-add (nodes_size ns) (nodes_size_pos ns some_nodes),
  round,
  type_of_response type_last_response ns rest (omega arith),
  add_payload-response number type_last_response ns before free rest fits,
)

round_more :
    (number : ℕ) (ns : List NetNode) (before : List (Option NetNode)) (free : ℕ) (rest : Bytes)
    → All Fits ns
    → 0 < length ns
    → round
        (store number (before ++ replicate (length ns + free) none))
        (length before)
        (response type_response ns rest)
      ≡ got (
        true,
        length before + length ns,
        store number ((before ++ map some ns) ++ replicate free none),
      )
unfolding round
round_more number ns before free rest fits some_nodes = rw (
  beyond_header-add (nodes_size ns) (nodes_size_pos ns some_nodes),
  round,
  type_of_response type_response ns rest (omega arith),
  add_payload-response number type_response ns before free rest fits,
)

-- The loop fills the free places with the nodes of the responses, in order.
pub Loop-responses_of :
    (number : ℕ) (nss : List (List NetNode)) (last : List NetNode) (before : List (Option NetNode))
    (free : ℕ) (rest : ℕ → Bytes)
    → All (All Fits) nss
    → All Fits last
    → All (λ ns. 0 < length ns) nss
    → 0 < length last
    → Loop
        (store number (before ++ replicate (length (nodes_of nss last) + free) none))
        (length before)
        (responses_of nss last rest)
        (
          length before + length (nodes_of nss last),
          store number ((before ++ map some (nodes_of nss last)) ++ replicate free none),
        )
unfolding nodes_of responses_of
Loop-responses_of number [] last before free rest fs f ne n =
    Loop.ends (round_last number last before free (rest 0) f n)
Loop-responses_of number (ns ∷ nss) last before free rest (f, fs) fl (n, ne) nl =
    let others = nodes_of nss last in
    let many = length-append ns others in
    let places : length (ns ++ others) + free ≡ length ns + (length others + free) = omega arith in
    let before' = before ++ map some ns in
    let size : length before' ≡ length before + length ns =
      omega (arith, length-append before (map some ns), length-map ns) in
    let index : length before' + length others ≡ length before + length (ns ++ others) =
      omega arith in
    let written : before' ++ map some others ≡ before ++ map some (ns ++ others) =
      append_assoc before (map some ns) (map some others)
      ∙ ap (λ xs. before ++ xs) (sym (map-append ns others)) in
    let free' = length others + free in
    let left : ℕ × LocalTreeStore = (
      length before + length (ns ++ others),
      store number ((before ++ map some (ns ++ others)) ++ replicate free none),
    ) in
    let rs = responses_of nss last rest in
    subst
      (λ k.
        Loop (store number (before ++ replicate k none)) (length before)
          (response type_response ns (rest (suc (length nss))) ∷ rs) left)
      (sym places)
      (Loop.again (round_more number ns before free' (rest (suc (length nss))) f n) (
        subst (λ i. Loop (store number (before' ++ replicate free' none)) i rs left) size
          (subst (λ x. Loop (store number (before' ++ replicate free' none)) (length before') rs x)
            (ap₂ (λ i xs. (i, store number (xs ++ replicate free none))) index written)
            (Loop-responses_of number nss last before' free rest fs fl ne nl))))
