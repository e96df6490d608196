-- ===== src/Eksam/Peers/Kept.antt =====
-- eksam/handout/d1_udp.c: what deleting a peer gives back, however it was made.
use in2140_introduksjon_til.Common.Words.{swap16}
use in2140_introduksjon_til.Common.{
  Bool-cases, Option-cases, ℕ, ◌≡◌, ap, ◌∙◌, ◌⊎◌, inl, inr, true, none, some, arith,
}
use in2140_introduksjon_til.Eksam.Peers.{
  opened, allocated, freed, d1_create_client, d1_delete, resolve, d1_get_peer_info, with_peer,
  d2_client_create, d2_client_delete, new_peer, d1_create_client-none, d1_create_client-some,
  get_peer_info_none, get_peer_info_some, d1_delete_new, Resources, System, Address, D1Peer,
  D2Client,
}

pub d1_create_client_cases :
    (system : System) (r : Resources)
    → (d1_create_client system r ≡ (none, r))
      ⊎ ((peer : D1Peer) × (r' : Resources) × (d1_create_client system r ≡ (some peer, r'))
          × (d1_delete (some peer) r' ≡ r))
d1_create_client_cases system r = elim (Option-cases system.descriptor) [
  | inl e ↦ inl (d1_create_client-none system r (inl e))
  | inr (fd, e) ↦ elim (Bool-cases system.peer_memory) [
    | inr empty ↦ inl (d1_create_client-none system r (inr empty))
    | inl memory ↦ inr (
      new_peer fd,
      allocated (opened fd r),
      d1_create_client-some system r fd e memory,
      d1_delete_new (new_peer fd) r,
    )
  ]
]

-- The address of the server has no part in it.
pub d1_delete-d1_get_peer_info :
    (system : System) (peer : D1Peer) (port : ℕ) (r : Resources)
    → d1_delete (some (d1_get_peer_info system peer port).1) r ≡ d1_delete (some peer) r
unfolding d1_delete
d1_delete-d1_get_peer_info system peer port r = elim (Option-cases (resolve system)) [
  | inl e ↦ ap (λ x. d1_delete (some x.1) r) (get_peer_info_none system peer port e)
  | inr (ip, e) ↦ ap (λ x. d1_delete (some x.1) r) (get_peer_info_some system peer port ip e)
]

-- The client that is made when everything works.
abbrev pub found_client : (fd port ip : ℕ) → D2Client
found_client fd port ip =
    let server : Address = record { sin_port = swap16 port; sin_addr = ip } in
    let peer : D1Peer = record { socket = fd; addr = some server; next_seqno = 0 } in
    record { peer = peer }

pub d2_client_create-found :
    (system : System) (fd port ip : ℕ) (r : Resources)
    → system.client_memory ≡ true
    → system.descriptor ≡ some fd
    → system.peer_memory ≡ true
    → resolve system ≡ some ip
    → d2_client_create system port r
      ≡ (some (found_client fd port ip), allocated (opened fd (allocated r)))
unfolding d2_client_create with_peer
d2_client_create-found system fd port ip r yes' made memory found = rw (
  d1_create_client-some system (allocated r) fd made memory,
  get_peer_info_some system (new_peer fd) port ip found,
  yes',
)

-- Deleting it gives back the sockets and the heap.
pub d2_client_delete-found :
    (fd port ip : ℕ) (r : Resources)
    → d2_client_delete (some (found_client fd port ip)) (allocated (opened fd (allocated r))) ≡ r
unfolding d2_client_delete
d2_client_delete-found fd port ip r =
    ap freed (d1_delete_new (found_client fd port ip).peer (allocated r))
    ∙ ap (λ n. record r { objects = n }) (omega arith)
