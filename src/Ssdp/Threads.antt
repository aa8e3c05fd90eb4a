-- ===== src/Ssdp/Threads.antt =====
-- The two threads of `run` of service/src/ssdp.rs: what they send.
use ahara_collector.Prelude.{ℕ, Option, none, some, List, [], ◌∷◌, ◌++◌, Text, Bytes}
use ahara_collector.Metrics.{Metrics}
use ahara_collector.Ssdp.{MediaServerLease, alive_messages, SocketAddr, v4, Responder, process}

-- A datagram, with the lease, the clock and the printed date when it is processed.
pub record Arrival : Type 0 where
  pub src : SocketAddr
  pub payload : Bytes
  pub lease : Option MediaServerLease
  pub date : Text
  pub now_seconds : ℕ

-- The receiver: the replies in the order in which they are sent.
unfoldable pub receive_all :
    Responder → List Arrival → Metrics → List (SocketAddr × Bytes) × Metrics
unfolding process
receive_all r [] m = ([], m)
receive_all r (a ∷ arrivals) m =
    let (replies, m') = process r a.lease a.src a.payload a.date a.now_seconds m in
    let (later, m'') = receive_all r arrivals m' in (replies ++ later, m'')

unfoldable pub announced : Option MediaServerLease → ℕ → List Bytes
unfolding alive_messages
announced none now_seconds = []
announced (some lease) now_seconds = alive_messages lease now_seconds

abbrev pub ssdp_multicast : ℕ
ssdp_multicast = 0xeffffffa

-- The advertiser: each message to the multicast group and to the home broadcast address.
unfoldable pub to_targets : ℕ → ℕ → List Bytes → List (SocketAddr × Bytes)
to_targets home_broadcast port [] = []
to_targets home_broadcast port (payload ∷ payloads) =
    (v4 ssdp_multicast port, payload)
    ∷ (v4 home_broadcast port, payload)
    ∷ to_targets home_broadcast port payloads

unfoldable pub advertise : ℕ → ℕ → Option MediaServerLease → ℕ → List (SocketAddr × Bytes)
unfolding announced to_targets
advertise home_broadcast port lease now_seconds =
    to_targets home_broadcast port (announced lease now_seconds)
