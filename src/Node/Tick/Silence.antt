-- ===== src/Node/Tick/Silence.antt =====
-- crates/tiny-io-oi/src/node.rs: a node whose network delivers nothing.
use tiny_io_oi.Prelude.{
  ℕ, zero, suc, ◌-◌, List, [], ◌∷◌, Option, none, some, true, ◌&&◌, not, ◌≡◌, ◌⊎◌, inl, inr, refl,
  sym, subst, ap, arith, if_rule, All, ◌==◌,
}
use tiny_io_oi.Protocol.{NodeId, from_core_id}
use tiny_io_oi.Scores.{Entry, decay, best, leader}
use tiny_io_oi.Scores.Leader.{AtMost}
use tiny_io_oi.Cache.{expire}
use tiny_io_oi.Node.{Platform, Node, enter_safe_mode, get_leader}
use tiny_io_oi.Node.Handlers.{is_some}
use tiny_io_oi.Node.Tick.{mark_leader, check_heartbeat, prepare, deliver, tick}

decay-AtMost :
    (top : ℕ) (scores : List Entry)
    → All (AtMost (suc top)) scores
    → All (AtMost top) (decay scores)
unfolding decay
decay-AtMost top [] h = tt
decay-AtMost top (none ∷ xs) h = (tt, decay-AtMost top xs h.1)
decay-AtMost top (some (id, score) ∷ xs) h = (
  if_rule (AtMost top) (score - 1 == 0) none (some (id, score - 1)) (λ t. tt)
      (λ f. omega (arith, h.0)),
  decay-AtMost top xs h.1,
)

best-decay : (scores : List Entry) → All (AtMost 1) scores → best none (decay scores) ≡ none
unfolding decay
best-decay [] h = refl
best-decay (none ∷ xs) h = best-decay xs h.1
best-decay (some (id, score) ∷ xs) h = ground (arith, h.0, best-decay xs h.1)

leader-decay : (scores : List Entry) → All (AtMost 1) scores → leader (decay scores) ≡ none
unfolding leader
leader-decay scores h = ap named (best-decay scores h)
  where
    named : Option (List ℕ × ℕ) → Option NodeId
    named b = elim b [ none ↦ none | some e ↦ some (from_core_id e.0) ]

module _ (platform : Platform) where
  open platform use {board}

  -- The node has had a leader, or it is in safe mode.
  abbrev pub IsAlert : Node platform → Type 0
  IsAlert n = (n.leader_active ≡ true) ⊎ (n.safe_mode ≡ true)

  -- What a silent tick makes of the node.
  record Fades (n n' : Node platform) : Type 0 where
    table : n'.scores ≡ decay n.scores
    alert : IsAlert n'
    falls : leader (decay n.scores) ≡ none → n'.safe_mode ≡ true

  check_heartbeat-Fades :
      (n : Node platform) (now : ℕ) → IsAlert n → Fades n (prepare platform now n)
  unfolding prepare check_heartbeat enter_safe_mode
  check_heartbeat-Fades n now a =
      let p : Node platform = record n {
        scores = decay n.scores;
        recent_gossip = expire now n.recent_gossip;
      } in
      if_rule (Fades n) (n.leader_active && not (is_some (leader (decay n.scores)))) _ p
        (λ t. record { table = refl; alert = inr refl; falls = λ e. refl })
        (λ f. record {
          table = refl;
          alert = a;
          falls = λ e. elim a [ inl l ↦ absurd (ground (arith, f, l, e)) | inr s ↦ s ];
        })

  mark_leader-Fades :
      (n n' : Node platform) (network : board.N)
      → Fades n n'
      → Fades n (mark_leader platform (record n' { network = network }))
  mark_leader-Fades n n' network f = record {
    table = f.table;
    alert = elim f.alert [
      | inl l ↦ inl (
          if_rule (λ b. b ≡ true) (is_some (get_leader platform n')) true n'.leader_active
            (λ t. refl) (λ t. l))
      | inr s ↦ inr s
    ];
    falls = f.falls;
  }

  -- The node after a number of ticks, each with a clock of its own.
  abbrev pub ticks : ℕ → (ℕ → ℕ → ℕ) → Node platform → Node platform
  ticks zero clocks n = n
  ticks (suc k) clocks n = ticks k (λ i. clocks (suc i)) (tick platform (clocks 0) n)

  module _ (silent : (net : board.N) → (board.network_ops.receive net 256).1 ≡ none) where
    tick-Fades : (clock : ℕ → ℕ) (n : Node platform) → IsAlert n → Fades n (tick platform clock n)
    unfolding tick
    tick-Fades clock n a =
        let n1 = prepare platform (clock 0) n in
        let received = board.network_ops.receive n1.network 256 in
        subst
          (λ m.
            Fades n (deliver platform (λ i. clock (suc i)) m (record n1 { network = received.0 })))
          (sym (silent n1.network))
          (mark_leader-Fades n n1 received.0 (check_heartbeat-Fades n (clock 0) a))

    -- A node that has had a leader, on a network that delivers nothing, is in safe mode after as
    -- many ticks as the highest score of its table, and at least one.
    pub ticks-safe_mode :
        (k : ℕ) (clocks : ℕ → ℕ → ℕ) (n : Node platform)
        → IsAlert n
        → All (AtMost (suc k)) n.scores
        → (ticks (suc k) clocks n).safe_mode ≡ true
    ticks-safe_mode zero clocks n a h = (tick-Fades (clocks 0) n a).falls (leader-decay n.scores h)
    ticks-safe_mode (suc k) clocks n a h =
        let f = tick-Fades (clocks 0) n a in
        ticks-safe_mode k (λ i. clocks (suc i)) (tick platform (clocks 0) n) f.alert
          (subst (All (AtMost (suc k))) (sym f.table) (decay-AtMost (suc k) n.scores h))
