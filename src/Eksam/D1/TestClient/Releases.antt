-- ===== src/Eksam/D1/TestClient/Releases.antt =====
-- eksam/handout/d1_test_client.c: how the program ends, whatever the system, the network and the
-- server do.
use in2140_introduksjon_til.Eksam.Peers.Kept.{d1_create_client_cases, d1_delete-d1_get_peer_info}
use in2140_introduksjon_til.Common.Run.{failure, ℤ, pos, negsuc}
use in2140_introduksjon_til.Common.Words.{Bytes}
use in2140_introduksjon_til.Common.{
  ltb, Bool-cases, length, ℕ, zero, suc, ◌+◌, ◌%◌, ◌^◌, ◌≡◌, refl, ap, ◌∙◌, ◌⊎◌, inl, inr, some,
  arith,
}
use in2140_introduksjon_til.Eksam.D1.{Sent, blocked, returned, Net, Library, Outcome}
use in2140_introduksjon_til.Eksam.Peers.{d1_delete, d1_get_peer_info, Resources, System, D1Peer}
use in2140_introduksjon_til.Eksam.D1.TestClient.{
  quit, said, heard, say, hear, pings, talk, with_address, with_client, d1_test_client, Session,
  Ended,
}

-- Deleting the client gives back the resources `r`, and `n` answers were printed.
abbrev Holds : Resources → ℕ → Session → Type 0
Holds r n s = (d1_delete (some s.client) s.resources ≡ r) × (length s.printed ≡ n)

-- The program has given back what it took; it returns 0 after two answers, and -1 otherwise.
unfoldable Releases : Resources → Outcome Ended → Type 0
Releases r blocked = Unit
Releases r (returned e) =
    (e.resources ≡ r) × (((e.result ≡ pos 0) × (length e.printed ≡ 2)) ⊎ (e.result ≡ failure))

module _ (r : Resources) where
  quit-failure : (n : ℕ) (s : Session) → Holds r n s → Releases r (quit failure s)
  unfolding quit Releases
  quit-failure n s h = (h.0, inr refl)

  module _ (n : ℕ) (s : Session) (next : Session → Outcome Ended) where
    said-Releases :
        (sent : Sent)
        → Holds r n s
        → ((s' : Session) → Holds r n s' → Releases r (next s'))
        → Releases r (said s next sent)
    unfolding said Releases d1_delete
    said-Releases blocked h k = tt
    said-Releases (returned (pos m, q, wire)) h k = k _ h
    said-Releases (returned (negsuc m, q, wire)) h k = quit-failure n _ h

    heard-Releases :
        (received : Outcome (ℤ × Bytes × Net))
        → Holds r n s
        → ((s' : Session) → Holds r (suc n) s' → Releases r (next s'))
        → Releases r (heard s next received)
    unfolding heard Releases d1_delete
    heard-Releases blocked h k = tt
    heard-Releases (returned (pos m, b, wire)) h k = k _ (h.0, ap suc h.1)
    heard-Releases (returned (negsuc m, b, wire)) h k = quit-failure n _ h

  module _ (lib : Library) where
    pings-Releases :
        (k n : ℕ) (s : Session) (next : Session → Outcome Ended)
        → Holds r n s
        → ((s' : Session) → Holds r (k + n) s' → Releases r (next s'))
        → Releases r (pings lib k s next)
    unfolding pings say hear
    pings-Releases zero n s next h rest = rest s (h.0, h.1 ∙ omega arith)
    pings-Releases (suc k) n s next h rest = said-Releases n s _ _ h λ asked h'.
        heard-Releases n asked _ _ h' λ answered h''.
          pings-Releases k (suc n) answered next h'' λ s' h₃. rest s' (h₃.0, h₃.1 ∙ omega arith)

    talk-Releases : (s : Session) → Holds r 0 s → Releases r (talk lib s)
    unfolding talk say quit Releases
    talk-Releases s h = said-Releases 0 s _ _ h λ s₁ h₁.
        pings-Releases 2 0 s₁ _ h₁
          λ s₂ h₂. said-Releases 2 s₂ _ _ h₂ λ s₃ h₃. (h₃.0, inl (refl, h₃.1))

    with_address-Releases :
        (found : ℤ × D1Peer) (r' : Resources) (buffer : Bytes) (wire : Net)
        → d1_delete (some found.1) r' ≡ r
        → Releases r (with_address lib found r' buffer wire)
    unfolding with_address
    with_address-Releases (pos zero, client) r' buffer wire h = quit-failure 0 _ (h, refl)
    with_address-Releases (pos (suc n), client) r' buffer wire h = talk-Releases _ (h, refl)
    with_address-Releases (negsuc n, client) r' buffer wire h = talk-Releases _ (h, refl)

d1_test_client-Releases :
    (lib : Library) (system : System) (argc port : ℕ) (buffer : Bytes) (r : Resources) (wire : Net)
    → Releases r (d1_test_client lib system argc port buffer r wire)
unfolding d1_test_client with_client Releases
d1_test_client-Releases lib system argc port buffer r wire = elim (Bool-cases (ltb argc 3)) [
  | inl few ↦ rw few (refl, inr refl)
  | inr enough ↦ elim (d1_create_client_cases system r) [
    | inl e ↦ rw (enough, e) (refl, inr refl)
    | inr (client, r', e, back) ↦
        rw (enough, e)
          (with_address-Releases r lib (d1_get_peer_info system client (port % 2 ^ 16)) r' buffer
            wire (d1_delete-d1_get_peer_info system client (port % 2 ^ 16) r' ∙ back))
  ]
]

-- The test client, whatever the system, the network and the server do: it waits for ever, or it ends
-- with every socket that it opened closed and every object that it allocated released, and returns 0
-- after it has printed two answers, and -1 otherwise.
pub d1_test_client_ends :
    (lib : Library) (system : System) (argc port : ℕ) (buffer : Bytes) (r : Resources) (wire : Net)
    → (d1_test_client lib system argc port buffer r wire ≡ blocked)
      ⊎ ((e : Ended) × (d1_test_client lib system argc port buffer r wire ≡ returned e)
          × (e.resources ≡ r)
          × (((e.result ≡ pos 0) × (length e.printed ≡ 2)) ⊎ (e.result ≡ failure)))
unfolding Releases
d1_test_client_ends lib system argc port buffer r wire =
    ended (d1_test_client lib system argc port buffer r wire)
      (d1_test_client-Releases lib system argc port buffer r wire)
  where
    ended :
        (o : Outcome Ended)
        → Releases r o
        → (o ≡ blocked)
          ⊎ ((e : Ended) × (o ≡ returned e)
              × (e.resources ≡ r)
              × (((e.result ≡ pos 0) × (length e.printed ≡ 2)) ⊎ (e.result ≡ failure)))
    ended blocked h = inl refl
    ended (returned e) h = inr (e, refl, h.0, h.1)
