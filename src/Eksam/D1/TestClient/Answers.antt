-- ===== src/Eksam/D1/TestClient/Answers.antt =====
-- eksam/handout/d1_test_client.c: a run with a server that answers.
use in2140_introduksjon_til.Eksam.D1.Header.{AreBytes}
use in2140_introduksjon_til.Common.Words.{Bytes}
use in2140_introduksjon_til.Common.{
  length, replicate, ℕ, suc, ◌+◌, ◌-◌, ◌≤◌, ◌<◌, ◌≡◌, true, List, [], ◌∷◌, ◌++◌,
}
use in2140_introduksjon_til.Oblig.Table.{c_string}
use in2140_introduksjon_til.Eksam.D1.{
  header_size, ack_packet, data_packet, net, datagram, Library, Arrival,
}
use in2140_introduksjon_til.Eksam.D1.Send.{acks}
use in2140_introduksjon_til.Eksam.D1.TestClient.{connect, ping, disconnect, after_say, Session}

-- An answer of the server: the sequence number of its packet, and the text.
pub record Answer : Type 0 where
  pub seqno : ℕ
  pub text : Bytes

-- What the program can take: a text that fits the 1000 bytes it reads, with the header.
abbrev pub IsAnswer : Answer → Type 0
IsAnswer a = (a.seqno < 2) × AreBytes a.text × (header_size + length a.text ≤ 1000)

-- How many wrong acknowledgements arrive for each of the four packets.
pub record Wrong : Type 0 where
  pub connects : ℕ
  pub first_pings : ℕ
  pub second_pings : ℕ
  pub disconnects : ℕ

module _ (lib : Library) (first second : Answer) (wrong : Wrong) where
  -- What arrives: acknowledgements of each packet, and behind those of a "ping" the answer to it.
  unfoldable pub script : List Arrival
  script = acks lib 0 wrong.connects (
      acks lib 1 wrong.first_pings (
        datagram (data_packet lib.memory first.seqno first.text)
        ∷ acks lib 0 wrong.second_pings (
            datagram (data_packet lib.memory second.seqno second.text)
            ∷ acks lib 1 wrong.disconnects [])))

  -- What is sent, the last packet first.
  unfoldable pub transcript : List Bytes → List Bytes
  transcript before =
      replicate (suc wrong.disconnects) (data_packet lib.memory 1 disconnect)
      ++ (ack_packet lib.memory second.seqno
          ∷ (replicate (suc wrong.second_pings) (data_packet lib.memory 0 ping)
              ++ (ack_packet lib.memory first.seqno
                  ∷ (replicate (suc wrong.first_pings) (data_packet lib.memory 1 ping)
                      ++ (replicate (suc wrong.connects) (data_packet lib.memory 0 connect)
                          ++ before)))))

module _ (lib : Library) (whole : length lib.stale ≡ 8) (works : (n : ℕ) → lib.sends n ≡ true) where
  -- The session after a text that was sent again for each of `k` wrong acknowledgements.
  abbrev said_session : Bytes → ℕ → List Arrival → Session → Session
  said_session text k as' s =
      after_say s (1 - s.client.next_seqno) (
        net as'
          (replicate (suc k) (data_packet lib.memory s.client.next_seqno text) ++ s.wire.sent))

  -- The session after an answer.
  abbrev heard_session : Answer → Bytes → List Arrival → Session → Session
  heard_session a buffer as' s = record s {
    buffer = buffer;
    wire = net as' (ack_packet lib.memory a.seqno ∷ s.wire.sent);
    printed = c_string a.text ∷ s.printed;
  }
