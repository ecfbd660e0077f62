-- ===== src/Cache.antt =====
-- crates/tiny-io-oi/src/node.rs: the cache of a node for the assertions of its neighbours.
pub mod Bounds
use tiny_io_oi.Prelude.{
  ℕ, ◌-◌, List, [], ◌∷◌, ◌++◌, Bool, true, false, leb, if◌then◌else◌, length, take, drop, keep,
  same,
}
use tiny_io_oi.Prelude.Words.{from_le}
use tiny_io_oi.Gossip.{GossipAssertion}

-- The assertions of the last five seconds.
unfoldable pub expire : ℕ → List GossipAssertion → List GossipAssertion
expire now cache = keep (λ a. leb (now - a.timestamp_us) 5_000_000) cache

abbrev pub has_sender : List GossipAssertion → List ℕ → Bool
has_sender [] mac = false
has_sender (e ∷ es) mac =
    let rest = has_sender es mac in if same e.sender_mac mac then true else rest

-- The first entry of the sender is overwritten.
abbrev pub renew : List GossipAssertion → GossipAssertion → List GossipAssertion
renew [] a = []
renew (e ∷ es) a =
    let rest = renew es a in
    if same e.sender_mac a.sender_mac
    then record e { timestamp_us = a.timestamp_us; hazard_score = a.hazard_score } ∷ es
    else e ∷ rest

-- A push on the full vector of eight entries fails, and is ignored.
unfoldable pub remember : List GossipAssertion → GossipAssertion → List GossipAssertion
remember cache a =
    if has_sender cache a.sender_mac
    then renew cache a
    else (if leb 8 (length cache) then cache else cache ++ a ∷ [])

abbrev pub parse_assertion : List ℕ → GossipAssertion
parse_assertion payload = record {
  sender_mac = take 6 payload;
  timestamp_us = from_le (take 8 (drop 6 payload));
  hazard_score = from_le (take 2 (drop 14 payload));
}

-- A payload of fewer than sixteen bytes is ignored.
unfoldable pub hear : List ℕ → List GossipAssertion → List GossipAssertion
unfolding remember
hear payload cache =
    if leb 16 (length payload) then remember cache (parse_assertion payload) else cache
