-- ===== src/Eksam/Peers.antt =====
-- eksam/handout/d1_udp.c and eksam/handout/d2_lookup.c: how peers and clients are made and deleted,
-- with the sockets that are open and the number of objects on the heap.
pub mod Kept
use in2140_introduksjon_til.Common.Run.{ℤ, pos, negsuc}
use in2140_introduksjon_til.Common.Words.{swap16}
use in2140_introduksjon_til.Common.{
  ◌==◌, if◌then◌else◌, ==_self, Bool-cases, Option-cases, ℕ, zero, suc, ◌+◌, ◌-◌, ◌≡◌, refl, ap,
  ap₂, ◌∙◌, ◌⊎◌, inl, inr, Bool, true, false, Option, none, some, List, [], ◌∷◌, arith,
}

pub record Resources : Type 0 where
  pub sockets : List ℕ
  pub objects : ℕ

-- The system's answers: `socket` (`none` is -1), `malloc` for a D1Peer and for a D2Client, `inet_pton`
-- with the address it writes, and `gethostbyname` (`none` is NULL).
pub record System : Type 0 where
  pub descriptor : Option ℕ
  pub peer_memory : Bool
  pub client_memory : Bool
  pub converted : ℤ
  pub dotted : ℕ
  pub host : Option ℕ

-- A `struct sockaddr_in` of the family AF_INET.
pub record Address : Type 0 where
  pub sin_port : ℕ
  pub sin_addr : ℕ

-- `addr` is `none` while it is all zero.
pub record D1Peer : Type 0 where
  pub socket : ℕ
  pub addr : Option Address
  pub next_seqno : ℕ

pub record D2Client : Type 0 where
  pub peer : D1Peer

-- `close`
abbrev pub close : ℕ → List ℕ → List ℕ
close fd [] = []
close fd (s ∷ open_sockets) = if s == fd then open_sockets else s ∷ close fd open_sockets

abbrev pub opened : ℕ → Resources → Resources
opened fd r = record r { sockets = fd ∷ r.sockets }

abbrev pub closed : ℕ → Resources → Resources
closed fd r = record r { sockets = close fd r.sockets }

-- `malloc` and `free` of one object
abbrev pub allocated : Resources → Resources
allocated r = record r { objects = r.objects + 1 }

abbrev pub freed : Resources → Resources
freed r = record r { objects = r.objects - 1 }

unfoldable pub d1_create_client : System → Resources → Option D1Peer × Resources
d1_create_client system r = elim system.descriptor [
  | none ↦ (none, r)
  | some fd ↦
      if system.peer_memory
      then (some (record { socket = fd; addr = none; next_seqno = 0 }), allocated (opened fd r))
      else (none, closed fd (opened fd r))
]

-- The descriptor of a peer is never -1, since `d1_create_client` makes no peer with it.
unfoldable pub d1_delete : Option D1Peer → Resources → Resources
d1_delete none r = r
d1_delete (some peer) r = freed (closed peer.socket r)

-- The IP address that is found for the name.
unfoldable pub resolve : System → Option ℕ
resolve system = elim system.converted [
  | pos zero ↦ system.host
  | pos (suc n) ↦ some system.dotted
  | negsuc n ↦ none
]

unfoldable pub d1_get_peer_info : System → D1Peer → ℕ → ℤ × D1Peer
d1_get_peer_info system peer server_port = elim (resolve system) [
  | none ↦ (pos 0, peer)
  | some ip ↦
      (pos 1, record peer { addr = some (record { sin_port = swap16 server_port; sin_addr = ip }) })
]

-- The end of `d2_client_create`, after `d1_get_peer_info`.
abbrev pub with_info : ℤ × D1Peer → Resources → Option D2Client × Resources
with_info (pos zero, peer) r = (none, d1_delete (some peer) r)
with_info (pos (suc n), peer) r = (some (record { peer = peer }), r)
with_info (negsuc n, peer) r = (some (record { peer = peer }), r)

-- The part of `d2_client_create` behind `d1_create_client`.
unfoldable pub with_peer : System → ℕ → Option D1Peer × Resources → Option D2Client × Resources
with_peer system server_port (none, r) = (none, r)
with_peer system server_port (some peer, r) = with_info (d1_get_peer_info system peer server_port) r

unfoldable pub d2_client_create : System → ℕ → Resources → Option D2Client × Resources
d2_client_create system server_port r =
    let made = with_peer system server_port (d1_create_client system (allocated r)) in
    if system.client_memory then made else (none, r)

unfoldable pub d2_client_delete : Option D2Client → Resources → Resources
d2_client_delete none r = r
d2_client_delete (some client) r = freed (d1_delete (some client.peer) r)

close_head : (fd : ℕ) (open_sockets : List ℕ) → close fd (fd ∷ open_sockets) ≡ open_sockets
close_head fd open_sockets = rw (==_self fd)

abbrev pub new_peer : ℕ → D1Peer
new_peer fd = record { socket = fd; addr = none; next_seqno = 0 }

pub d1_create_client-none :
    (system : System) (r : Resources)
    → (system.descriptor ≡ none) ⊎ (system.peer_memory ≡ false)
    → d1_create_client system r ≡ (none, r)
unfolding d1_create_client
d1_create_client-none system r (inl e) = rw (e, d1_create_client)
d1_create_client-none system r (inr empty) = elim (Option-cases system.descriptor) [
  | inl e ↦ rw (e, d1_create_client)
  | inr (fd, e) ↦ rw (e, d1_create_client, empty, close_head fd r.sockets)
]

pub d1_create_client-some :
    (system : System) (r : Resources) (fd : ℕ)
    → system.descriptor ≡ some fd
    → system.peer_memory ≡ true
    → d1_create_client system r ≡ (some (new_peer fd), allocated (opened fd r))
unfolding d1_create_client
d1_create_client-some system r fd e yes' = rw (e, d1_create_client, yes')

pub get_peer_info_none :
    (system : System) (peer : D1Peer) (port : ℕ)
    → resolve system ≡ none
    → d1_get_peer_info system peer port ≡ (pos 0, peer)
unfolding d1_get_peer_info
get_peer_info_none system peer port e = rw (e, d1_get_peer_info)

pub get_peer_info_some :
    (system : System) (peer : D1Peer) (port ip : ℕ)
    → resolve system ≡ some ip
    → d1_get_peer_info system peer port
      ≡ (pos 1, record peer { addr = some (record { sin_port = swap16 port; sin_addr = ip }) })
unfolding d1_get_peer_info
get_peer_info_some system peer port ip e = rw (e, d1_get_peer_info)

-- Deleting a peer undoes what making it did.
pub d1_delete_new :
    (peer : D1Peer) (r : Resources) → d1_delete (some peer) (allocated (opened peer.socket r)) ≡ r
unfolding d1_delete
d1_delete_new peer r =
    ap₂ (λ ss n. record { sockets = ss; objects = n }) (close_head peer.socket r.sockets)
      (omega arith)

-- `d2_client_create` either makes a client whose peer has the resolved address with the port in
-- network byte order and the sequence number 0, and then `d2_client_delete` of it leaves the sockets
-- and the heap as they were before; or it returns no client, and then it has closed every socket that
-- it opened, while the object of the D2Client, if there was memory for it, stays on the heap.
pub d2_client_create_cases :
    (system : System) (port : ℕ) (r : Resources)
    → ((client : D2Client) × (r' : Resources) × (ip : ℕ) × (d2_client_create system port r
          ≡ (some client, r'))
        × (resolve system ≡ some ip)
        × (client.peer.addr ≡ some (record { sin_port = swap16 port; sin_addr = ip }))
        × (client.peer.next_seqno ≡ 0)
        × (d2_client_delete (some client) r' ≡ r))
      ⊎ (d2_client_create system port r ≡ (none, if system.client_memory then allocated r else r))
unfolding d2_client_create with_peer d2_client_delete
d2_client_create_cases system port r = elim (Bool-cases system.client_memory) [
  | inr empty ↦ inr (rw empty)
  | inl yes' ↦ elim (Option-cases system.descriptor) [
    | inl e ↦ inr (rw (d1_create_client-none system (allocated r) (inl e), yes'))
    | inr (fd, e) ↦ elim (Bool-cases system.peer_memory) [
      | inr empty ↦ inr (rw (d1_create_client-none system (allocated r) (inr empty), yes'))
      | inl memory ↦
          let created = d1_create_client-some system (allocated r) fd e memory in
          elim (Option-cases (resolve system)) [
            | inl unknown ↦ inr (
                rw (
                  created,
                  get_peer_info_none system (new_peer fd) port unknown,
                  d1_delete_new (new_peer fd) (allocated r),
                  yes',
                ))
            | inr (ip, found) ↦ inl (
              record {
                peer = record {
                  socket = fd;
                  addr = some (record { sin_port = swap16 port; sin_addr = ip });
                  next_seqno = 0;
                };
              },
              allocated (opened fd (allocated r)),
              ip,
              rw (created, get_peer_info_some system (new_peer fd) port ip found, yes'),
              found,
              refl,
              refl,
              ap freed (d1_delete_new _ (allocated r))
                  ∙ ap (λ n. record r { objects = n }) (omega arith),
            )
          ]
    ]
  ]
]
