-- ===== src/Eksam/D2.antt =====
-- eksam/handout/d2_lookup.c: the lookup service over `D1`. `Wire` holds the request and the
-- responses, `Store` the tree of nodes and its printing, `Client` the loop of the test client.
-- `Request`, `Responses`, `AddNodes`, `PrintTree` and `Lookup` prove what these do.
pub mod AddNodes
pub mod Client
pub mod Lookup
pub mod PrintTree
pub mod Request
pub mod Responses
pub mod Rounds
pub mod Store
pub mod TestClient
pub mod Wire
