-- ===== src/Gossip.antt =====
-- crates/tiny-io-oi/src/node.rs and std_impl.rs (opcode 0x87): the assertions that neighbours
-- broadcast, the payload of a broadcast, and the count of the neighbours that confirm a hazard.
pub mod Quorum
use tiny_io_oi.Prelude.{
  ℕ, ◌-◌, List, [], ◌∷◌, ◌++◌, Bool, false, not, ◌&&◌, ◌||◌, leb, if◌then◌else◌, length, same,
}
use tiny_io_oi.Prelude.Words.{to_le}
use tiny_io_oi.Protocol.{NodeId}

-- node.rs: `GossipAssertion` and `GossipContext`.
pub record GossipAssertion : Type 0 where
  pub sender_mac : NodeId
  pub timestamp_us : ℕ
  pub hazard_score : ℕ

pub record GossipContext (N : Type 0) : Type 0 where
  pub my_mac : NodeId
  pub network : N
  pub recent_gossip : List GossipAssertion
  pub current_time_us : ℕ

-- `unique_neighbors.contains`.
unfoldable pub contains : List NodeId → NodeId → Bool
contains [] mac = false
contains (m ∷ ms) mac = same m mac || contains ms mac

-- The heapless vector holds eight addresses; a push on a full one fails, and is ignored.
unfoldable pub push_unique : List NodeId → NodeId → List NodeId
push_unique macs mac =
    if contains macs mac then macs else (if leb 8 (length macs) then macs else macs ++ mac ∷ [])

-- Does this neighbour confirm: in the time window, another node, and with a high enough score?
unfoldable pub confirms : NodeId → ℕ → ℕ → ℕ → GossipAssertion → Bool
confirms my_mac now window_us high_threshold entry =
    leb (now - entry.timestamp_us) window_us
    && not (same entry.sender_mac my_mac)
    && leb high_threshold entry.hazard_score

unfoldable pub count_neighbors :
    NodeId → ℕ → ℕ → ℕ → List NodeId → List GossipAssertion → List NodeId
unfolding confirms push_unique contains
count_neighbors my_mac now window_us high macs [] = macs
count_neighbors my_mac now window_us high macs (e ∷ es) =
    count_neighbors my_mac now window_us high
      (if confirms my_mac now window_us high e then push_unique macs e.sender_mac else macs) es

-- The payload of a gossip broadcast: address, time, score.
unfoldable pub gossip_payload : NodeId → ℕ → ℕ → List ℕ
gossip_payload my_mac time_us score = my_mac ++ (to_le 8 time_us ++ to_le 2 score)
