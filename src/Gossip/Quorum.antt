-- ===== src/Gossip/Quorum.antt =====
-- crates/tiny-io-oi/src/std_impl.rs (opcode 0x87): which neighbours are counted.
use tiny_io_oi.Prelude.{
  ℕ, ◌≤◌, ◌<◌, List, [], ◌∷◌, ◌++◌, ◌≡◌, inl, inr, refl, Bool, true, false, ◌||◌, ◌&&◌, arith,
  length, length-append, ap, same, same_iff, Bool-cases,
}
use tiny_io_oi.Protocol.{NodeId}
use tiny_io_oi.Gossip.{GossipAssertion, contains, push_unique, confirms, count_neighbors}

contains-append :
    (macs : List NodeId) (mac m : NodeId)
    → contains (macs ++ mac ∷ []) m ≡ (contains macs m || same mac m)
unfolding contains
contains-append [] mac m = ground arith
contains-append (x ∷ macs) mac m = ground (arith, contains-append macs mac m)

-- No address stands twice.
abbrev pub Distinct : List NodeId → Type 0
Distinct [] = Unit
Distinct (m ∷ ms) = (contains ms m ≡ false) × Distinct ms

Distinct-append :
    (macs : List NodeId) (mac : NodeId)
    → Distinct macs
    → contains macs mac ≡ false
    → Distinct (macs ++ mac ∷ [])
unfolding contains
Distinct-append [] mac d new = (refl, tt)
Distinct-append (m ∷ ms) mac d new = (
  ground (arith, contains-append ms mac m, d.0, same_iff m mac, same_iff mac m),
  Distinct-append ms mac d.1 (ground arith),
)

-- What a push of a sender leaves of the list.
record Pushed (macs : List NodeId) (mac : NodeId) (r : List NodeId) : Type 0 where
  distinct : Distinct macs → Distinct r
  few : length macs ≤ 8 → length r ≤ 8
  grows : length macs ≤ length r
  sound : (m : NodeId) → contains r m ≡ true → (contains macs m || same mac m) ≡ true
  complete :
      (m : NodeId) → length r < 8 → (contains macs m || same mac m) ≡ true → contains r m ≡ true

contains_same : (macs : List NodeId) (a b : NodeId) → a ≡ b → contains macs a ≡ contains macs b
contains_same macs a b e = ap (contains macs) e

push_unique-Pushed : (macs : List NodeId) (mac : NodeId) → Pushed macs mac (push_unique macs mac)
unfolding push_unique
push_unique-Pushed macs mac = record {
  distinct = λ d. ground (arith, Distinct-append macs mac d);
  few = λ le. ground (arith, length-append macs (mac ∷ []));
  grows = ground (arith, length-append macs (mac ∷ []));
  sound = λ m h. ground (arith, contains-append macs mac m);
  complete = λ m room h. ground (
    arith,
    contains-append macs mac m,
    length-append macs (mac ∷ []),
    same_iff mac m,
    contains_same macs mac m,
  );
}

module _ (my_mac : NodeId) (now window_us high : ℕ) where
  -- Some entry of the cache confirms the hazard and comes from this address.
  abbrev pub confirmed : List GossipAssertion → NodeId → Bool
  confirmed [] mac = false
  confirmed (e ∷ es) mac =
      (confirms my_mac now window_us high e && same e.sender_mac mac) || confirmed es mac

  record Counts (macs : List NodeId) (es : List GossipAssertion) (r : List NodeId) : Type 0 where
    distinct : Distinct macs → Distinct r
    few : length macs ≤ 8 → length r ≤ 8
    grows : length macs ≤ length r
    sound : (m : NodeId) → contains r m ≡ true → (contains macs m || confirmed es m) ≡ true
    complete :
        (m : NodeId)
        → length r < 8
        → (contains macs m || confirmed es m) ≡ true
        → contains r m ≡ true

  count_neighbors-Counts :
      (macs : List NodeId) (es : List GossipAssertion)
      → Counts macs es (count_neighbors my_mac now window_us high macs es)
  unfolding count_neighbors
  count_neighbors-Counts macs [] = record {
    distinct = λ d. d;
    few = λ le. le;
    grows = omega arith;
    sound = λ m h. ground arith;
    complete = λ m room h. ground arith;
  }
  count_neighbors-Counts macs (e ∷ es) = elim (Bool-cases (confirms my_mac now window_us high e)) [
    | inl t ↦
        let p = push_unique-Pushed macs e.sender_mac in
        let q = count_neighbors-Counts (push_unique macs e.sender_mac) es in
        rw t (record {
          distinct = λ d. q.distinct (p.distinct d);
          few = λ le. q.few (p.few le);
          grows = omega (arith, p.grows, q.grows);
          sound = λ m h. ground (arith, t, q.sound m h, p.sound m);
          complete = λ m room h. ground (arith, t, q.grows, q.complete m room, p.complete m);
        })
    | inr f ↦
        let q = count_neighbors-Counts macs es in
        rw f (record {
          distinct = q.distinct;
          few = q.few;
          grows = q.grows;
          sound = λ m h. ground (arith, f, q.sound m h);
          complete = λ m room h. ground (arith, f, q.complete m room);
        })
  ]

  -- The addresses that `SpatialConsensusAssert` counts, for a cache of assertions.
  pub record Quorum (es : List GossipAssertion) (r : List NodeId) : Type 0 where
    pub distinct : Distinct r
    pub at_most : length r ≤ 8
    pub sound : (m : NodeId) → contains r m ≡ true → confirmed es m ≡ true
    pub complete : (m : NodeId) → length r < 8 → confirmed es m ≡ true → contains r m ≡ true

  -- Every address is counted once and has an assertion in the cache that confirms the hazard;
  -- at most eight are counted; and while fewer than eight are, none that confirms is left out.
  pub count_neighbors-Quorum :
      (es : List GossipAssertion) → Quorum es (count_neighbors my_mac now window_us high [] es)
  unfolding contains
  count_neighbors-Quorum es =
      let q = count_neighbors-Counts [] es in
      record {
        distinct = q.distinct tt;
        at_most = q.few (omega arith);
        sound = λ m h. ground (arith, q.sound m h);
        complete = λ m room h. ground (arith, q.complete m room);
      }
