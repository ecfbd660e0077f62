-- ===== src/Node/Tick/Durable.antt =====
-- crates/tiny-io-oi/src/node.rs: the state of a node and its write-ahead log.
use tiny_io_oi.Prelude.{
  ℕ, zero, suc, append_assoc, List, [], ◌∷◌, ◌++◌, Option, none, some, false, ◌≡◌, ◌∙◌, refl, ap,
  sym,
}
use tiny_io_oi.Prelude.Words.{AreBytes}
use tiny_io_oi.Log.{Reason, recover}
use tiny_io_oi.Log.Replay.{IsTorn, framed, log_of, recover-log_of}
use tiny_io_oi.Log.Durable.{WalLaws, Succeeds, Holds, Holds-conflict, Holds-delta}
use tiny_io_oi.Node.{Platform, Node, log, enter_safe_mode, recover_from_wal}
use tiny_io_oi.Node.Handlers.{on_gossip, on_state_update, apply_first}
use tiny_io_oi.Node.Tick.{tick}
use tiny_io_oi.Node.Tick.Silence.{ticks}
use tiny_io_oi.Node.Tick.Stable.{Stable, Carries, tick-keeps}

module _ (platform : Platform) (laws : WalLaws platform.wal_ops)
    (succeeds : Succeeds platform.wal_ops) (start : platform.S) where
  open platform use {board, S, W, wal_ops, state_ops}

  -- The node has a log, whose records lead from `start` to the state that the node is in.
  pub record IsDurable (n : Node platform) : Type 0 where
    pub wal : W
    pub has_wal : n.wal ≡ some wal
    pub holds : Holds wal_ops state_ops start wal n.state

  enter_safe_mode-IsDurable :
      (n : Node platform) (reason : Reason)
      → IsDurable n
      → IsDurable (enter_safe_mode platform reason n)
  unfolding enter_safe_mode
  enter_safe_mode-IsDurable n reason d = record {
    wal = (wal_ops.append d.wal (wal_ops.conflict reason)).0;
    has_wal = ap (λ w. log platform w (wal_ops.conflict reason)) d.has_wal;
    holds = Holds-conflict wal_ops state_ops start laws succeeds d.wal n.state reason d.holds;
  }

  apply_first-IsDurable :
      (n : Node platform) (payload : List ℕ)
      → AreBytes payload
      → IsDurable n
      → IsDurable (apply_first platform payload n)
  apply_first-IsDurable n [] bytes d = d
  apply_first-IsDurable n (delta ∷ rest) bytes d = record {
    wal = (wal_ops.append d.wal (wal_ops.delta_insert delta)).0;
    has_wal = ap (λ w. log platform w (wal_ops.delta_insert delta)) d.has_wal;
    holds = Holds-delta wal_ops state_ops start laws succeeds d.wal n.state delta bytes.0 d.holds;
  }

  IsDurable-Stable : Stable platform IsDurable AreBytes
  unfolding on_gossip
  IsDurable-Stable = record {
    drives = λ n network motor d. record { wal = d.wal; has_wal = d.has_wal; holds = d.holds };
    flags =
        λ n safe active banned last d. record { wal = d.wal; has_wal = d.has_wal; holds = d.holds };
    votes = λ n id d. record { wal = d.wal; has_wal = d.has_wal; holds = d.holds };
    hears = λ n payload d. record { wal = d.wal; has_wal = d.has_wal; holds = d.holds };
    applies = apply_first-IsDurable;
    ages = λ n now d. record { wal = d.wal; has_wal = d.has_wal; holds = d.holds };
    guards = enter_safe_mode-IsDurable;
  }

  tick-IsDurable :
      (clock : ℕ → ℕ) (n : Node platform)
      → ((network : board.N) → Carries platform AreBytes (board.network_ops.receive network 256).1)
      → IsDurable n
      → IsDurable (tick platform clock n)
  tick-IsDurable clock n bytes d =
      tick-keeps platform IsDurable AreBytes IsDurable-Stable clock n bytes d

  ticks-IsDurable :
      (k : ℕ) (clocks : ℕ → ℕ → ℕ) (n : Node platform)
      → ((network : board.N) → Carries platform AreBytes (board.network_ops.receive network 256).1)
      → IsDurable n
      → IsDurable (ticks platform k clocks n)
  ticks-IsDurable zero clocks n bytes d = d
  ticks-IsDurable (suc k) clocks n bytes d =
      ticks-IsDurable k (λ i. clocks (suc i)) (tick platform (clocks 0) n) bytes
        (tick-IsDurable (clocks 0) n bytes d)

  recover_from_wal-IsDurable :
      (n restarted : Node platform) (wal : W) (torn : List ℕ) (d : IsDurable n)
      → wal_ops.read_all wal ≡ some (log_of d.holds.records torn)
      → IsTorn torn
      → restarted.wal ≡ some wal
      → restarted.state ≡ start
      → (recover_from_wal platform restarted).state ≡ n.state
  unfolding recover_from_wal
  recover_from_wal-IsDurable n restarted wal torn d readable t has_wal fresh =
      ap (λ w. recover wal_ops state_ops w restarted.state) has_wal
      ∙ ap (recover wal_ops state_ops (some wal)) fresh
      ∙ recover-log_of wal_ops state_ops wal d.holds.records torn start readable d.holds.short t
      ∙ d.holds.leads

  log_of-append :
      (records : List (List ℕ)) (torn : List ℕ) → log_of records [] ++ torn ≡ log_of records torn
  log_of-append [] torn = refl
  log_of-append (r ∷ rs) torn =
      append_assoc (framed r) (log_of rs []) torn ∙ ap (◌++◌ (framed r)) (log_of-append rs torn)

  -- Where no append to the log fails, a node whose log leads from the state `start` to its own runs
  -- for any number of ticks on a network that delivers bytes. A node that then restarts from `start`, with the bytes of that node's
  -- log and at most a torn write behind them, recovers the state that the node was in.
  pub ticks-recover :
      (k : ℕ) (clocks : ℕ → ℕ → ℕ) (n restarted : Node platform) (old wal : W) (bytes torn : List ℕ)
      → ((network : board.N) → Carries platform AreBytes (board.network_ops.receive network 256).1)
      → IsDurable n
      → (ticks platform k clocks n).wal ≡ some old
      → wal_ops.read_all old ≡ some bytes
      → wal_ops.read_all wal ≡ some (bytes ++ torn)
      → IsTorn torn
      → restarted.wal ≡ some wal
      → restarted.state ≡ start
      → (recover_from_wal platform restarted).state ≡ (ticks platform k clocks n).state
  ticks-recover k clocks n restarted old wal bytes torn delivers d kept readable torn_log t has_wal
        fresh =
      let after = ticks-IsDurable k clocks n delivers d in
      let same_log : some after.wal ≡ some old = sym after.has_wal ∙ kept in
      let same_bytes : some bytes ≡ some (log_of after.holds.records []) =
        sym readable ∙ ap (λ w. or_none w) (sym same_log) ∙ after.holds.readable in
      recover_from_wal-IsDurable (ticks platform k clocks n) restarted wal torn after
        (torn_log
          ∙ ap (extended torn) same_bytes
          ∙ ap some (log_of-append after.holds.records torn))
        t has_wal fresh
    where
      or_none : Option W → Option (List ℕ)
      or_none none = none
      or_none (some w) = wal_ops.read_all w

      extended : List ℕ → Option (List ℕ) → Option (List ℕ)
      extended torn none = none
      extended torn (some bytes) = some (bytes ++ torn)

module _ (platform : Platform) (start : platform.S) where
  open platform use {W, wal_ops, state_ops}

  -- A node that is not in safe mode, and whose log leads from the state `start` to its own, applies a
  -- state update even where the append of it fails. If the failed append leaves at most a torn write
  -- behind the records, a node that restarts from `start` with that log recovers the state before the
  -- update.
  pub on_state_update-lost :
      (n restarted : Node platform) (wal wal1 : W) (delta : ℕ) (payload torn : List ℕ)
      (d : Holds wal_ops state_ops start wal n.state)
      → n.safe_mode ≡ false
      → n.wal ≡ some wal
      → wal_ops.append wal (wal_ops.delta_insert delta) ≡ (wal1, false)
      → wal_ops.read_all wal1 ≡ some (log_of d.records torn)
      → IsTorn torn
      → restarted.wal ≡ (on_state_update platform (delta ∷ payload) n).wal
      → restarted.state ≡ start
      → ((on_state_update platform (delta ∷ payload) n).state ≡ state_ops.apply_delta n.state delta)
        × ((recover_from_wal platform restarted).state ≡ n.state)
  unfolding on_state_update recover_from_wal
  on_state_update-lost n restarted wal wal1 delta payload torn d active has_wal failed readable t
        same fresh =
      let update = apply_first platform (delta ∷ payload) n in
      let applied : on_state_update platform (delta ∷ payload) n ≡ update = rw active refl in
      let kept : restarted.wal ≡ some wal1 =
        same
        ∙ ap (λ m. m.wal) applied
        ∙ ap (λ w. log platform w (wal_ops.delta_insert delta)) has_wal
        ∙ ap (λ r. some r.0) failed in
      (
        ap (λ m. m.state) applied,
        ap (λ w. recover wal_ops state_ops w restarted.state) kept
            ∙ ap (recover wal_ops state_ops (some wal1)) fresh
            ∙ recover-log_of wal_ops state_ops wal1 d.records torn start readable d.short t
            ∙ d.leads,
      )
