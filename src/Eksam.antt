-- ===== src/Eksam.antt =====
-- eksam/: a datagram protocol with acknowledgements (`D1`), a lookup service over it (`D2`), and how
-- their ends are made and deleted (`Peers`).
-- The code is the same in eksam/handout/ and eksam/levering/15239/.
pub mod D1
pub mod D2
pub mod Peers
mod ClientExamples
mod Examples
mod LookupExamples
