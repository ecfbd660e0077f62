-- ===== src/Log/Durable.antt =====
-- crates/tiny-io-oi/src/node.rs: what the write-ahead log of cdDB promises to the node, and a log
-- that holds the state of one.
use tiny_io_oi.Prelude.{
  append_assoc, append_nil, ℕ, ◌^◌, ◌%◌, ◌<◌, List, [], ◌∷◌, ◌++◌, Option, none, some, true, ◌≡◌,
  refl, sym, ap, ◌∙◌, arith, length, All,
}
use tiny_io_oi.Traits.{IoOiState}
use tiny_io_oi.Log.{Wal, Reason, apply_delta_of, apply_record}
use tiny_io_oi.Log.Replay.{framed, log_of, apply_all}

-- An append that succeeds writes the command behind the log, as its length in four bytes and its bytes, which
-- decode to it again; and an attribute that was put in a command is found in it.
pub record WalLaws {W C : Type 0} (wal_ops : Wal W C) : Type 0 where
  pub encode : C → List ℕ
  pub encode-lt : (cmd : C) → length (encode cmd) < 2 ^ 32
  pub decode-encode : (cmd : C) → wal_ops.decode (encode cmd) ≡ some cmd
  pub read_all-append :
      (wal : W) (bytes : List ℕ) (cmd : C)
      → (wal_ops.append wal cmd).1 ≡ true
      → wal_ops.read_all wal ≡ some bytes
      → wal_ops.read_all (wal_ops.append wal cmd).0 ≡ some (bytes ++ framed (encode cmd))
  pub delta_of-insert : (delta : ℕ) → wal_ops.delta_of (wal_ops.delta_insert delta) ≡ some delta
  pub delta_of-conflict : (reason : Reason) → wal_ops.delta_of (wal_ops.conflict reason) ≡ none

-- No append fails.
abbrev pub Succeeds : {W C : Type 0} → Wal W C → Type 0
Succeeds {W} {C} wal_ops = (wal : W) (cmd : C) → (wal_ops.append wal cmd).1 ≡ true

small_mod : (n : ℕ) → n < 2 ^ 8 → n % 2 ^ 8 ≡ n
small_mod n h = omega arith

log_of-snoc :
    (records : List (List ℕ)) (r : List ℕ)
    → log_of records [] ++ framed r ≡ log_of (records ++ r ∷ []) []
log_of-snoc [] r = sym (append_nil (framed r))
log_of-snoc (x ∷ xs) r =
    append_assoc (framed x) (log_of xs []) (framed r) ∙ ap (◌++◌ (framed x)) (log_of-snoc xs r)

All-snoc :
    {A : Type 0} (P : A → Type 0) (xs : List A) (x : A) → All P xs → P x → All P (xs ++ x ∷ [])
All-snoc P [] x h k = (k, tt)
All-snoc P (y ∷ ys) x h k = (h.0, All-snoc P ys x h.1 k)

module _ {W C S : Type 0} (wal_ops : Wal W C) (state_ops : IoOiState S) (start : S) where
  apply_all-snoc :
      (records : List (List ℕ)) (r : List ℕ) (s : S)
      → apply_all wal_ops state_ops (records ++ r ∷ []) s
        ≡ apply_record wal_ops state_ops r (apply_all wal_ops state_ops records s)
  apply_all-snoc [] r s = refl
  apply_all-snoc (x ∷ xs) r s = apply_all-snoc xs r (apply_record wal_ops state_ops x s)

  -- The log holds whole records, which lead from the state `start` to `state`.
  pub record Holds (wal : W) (state : S) : Type 0 where
    pub records : List (List ℕ)
    pub readable : wal_ops.read_all wal ≡ some (log_of records [])
    pub short : All (λ r. length r < 2 ^ 32) records
    pub leads : apply_all wal_ops state_ops records start ≡ state

  module _ (laws : WalLaws wal_ops) (succeeds : Succeeds wal_ops) where
    Holds-append :
        (wal : W) (state state' : S) (cmd : C)
        → Holds wal state
        → apply_record wal_ops state_ops (laws.encode cmd) state ≡ state'
        → Holds (wal_ops.append wal cmd).0 state'
    Holds-append wal state state' cmd h e = record {
      records = h.records ++ laws.encode cmd ∷ [];
      readable =
          laws.read_all-append wal (log_of h.records []) cmd (succeeds wal cmd) h.readable
          ∙ ap some (log_of-snoc h.records (laws.encode cmd));
      short =
          All-snoc (λ r. length r < 2 ^ 32) h.records (laws.encode cmd) h.short
            (laws.encode-lt cmd);
      leads =
          apply_all-snoc h.records (laws.encode cmd) start
          ∙ ap (apply_record wal_ops state_ops (laws.encode cmd)) h.leads
          ∙ e;
    }

    -- What an attribute does to a state.
    abbrev effect : S → Option ℕ → S
    effect s delta = apply_delta_of wal_ops state_ops delta s

    apply_record-effect :
        (cmd : C) (s : S)
        → apply_record wal_ops state_ops (laws.encode cmd) s ≡ effect s (wal_ops.delta_of cmd)
    unfolding apply_record
    apply_record-effect cmd s = ap run_cmd (laws.decode-encode cmd)
      where
        run_cmd : Option C → S
        run_cmd o = elim o [ none ↦ s | some c ↦ effect s (wal_ops.delta_of c) ]

    pub Holds-conflict :
        (wal : W) (state : S) (reason : Reason)
        → Holds wal state
        → Holds (wal_ops.append wal (wal_ops.conflict reason)).0 state
    Holds-conflict wal state reason h = Holds-append wal state state (wal_ops.conflict reason) h (
        apply_record-effect (wal_ops.conflict reason) state
        ∙ ap (effect state) (laws.delta_of-conflict reason))

    pub Holds-delta :
        (wal : W) (state : S) (delta : ℕ)
        → delta < 2 ^ 8
        → Holds wal state
        → Holds
            (wal_ops.append wal (wal_ops.delta_insert delta)).0
            (state_ops.apply_delta state delta)
    Holds-delta wal state delta lt h =
        Holds-append wal state (state_ops.apply_delta state delta) (wal_ops.delta_insert delta) h (
          apply_record-effect (wal_ops.delta_insert delta) state
          ∙ ap (effect state) (laws.delta_of-insert delta)
          ∙ ap (state_ops.apply_delta state) (small_mod delta lt))
