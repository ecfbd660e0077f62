-- ===== src/Log/Replay.antt =====
-- crates/tiny-io-oi/src/node.rs, `recover_from_wal`: what reading the log back gives.
use tiny_io_oi.Prelude.{
  ℕ, zero, suc, ◌^◌, ◌≤◌, ◌<◌, List, [], ◌∷◌, ◌++◌, Option, none, some, ◌≡◌, ◌⊎◌, refl, ap, ◌∙◌,
  arith, ltb, false, length, take, drop, length-append, take-append, drop-append, All,
}
use tiny_io_oi.Prelude.Words.{from_le, to_le}
use tiny_io_oi.Traits.{IoOiState}
use tiny_io_oi.Log.{Wal, apply_record, replay, recover}

-- A record as it stands in the log, and a log of records.
abbrev pub framed : List ℕ → List ℕ
framed r = to_le 4 (length r) ++ r

-- The records before the bytes at the end.
abbrev pub log_of : List (List ℕ) → List ℕ → List ℕ
log_of [] end = end
log_of (r ∷ rs) end = framed r ++ log_of rs end

-- The end of a log whose last write was cut off: fewer bytes than a length takes, or than the
-- length says.
abbrev pub IsTorn : List ℕ → Type 0
IsTorn bytes = (length bytes < 4) ⊎ (length (drop 4 bytes) < from_le (take 4 bytes))

from_le-to_le : (n : ℕ) → n < 2 ^ 32 → from_le (to_le 4 n) ≡ n
from_le-to_le n h = omega arith

module _ {W C S : Type 0} (wal_ops : Wal W C) (state_ops : IoOiState S) where
  abbrev pub apply_all : List (List ℕ) → S → S
  apply_all [] s = s
  apply_all (r ∷ rs) s = apply_all rs (apply_record wal_ops state_ops r s)

  replay-torn :
      (fuel : ℕ) (bytes : List ℕ) (s : S) → IsTorn bytes → replay wal_ops state_ops fuel bytes s ≡ s
  unfolding replay
  replay-torn zero bytes s torn = refl
  replay-torn (suc fuel) bytes s torn = ground (arith, torn)

  replay-framed :
      (fuel : ℕ) (r end : List ℕ) (s : S)
      → length r < 2 ^ 32
      → replay wal_ops state_ops (suc fuel) (framed r ++ end) s
        ≡ replay wal_ops state_ops fuel end (apply_record wal_ops state_ops r s)
  unfolding replay
  replay-framed fuel r end s short =
      rw (from_le-to_le (length r) short, whole, fits, take-append r end, drop-append r end) refl
    where
      whole : ltb (length (framed r ++ end)) 4 ≡ false
      whole = ground arith

      fits : ltb (length (r ++ end)) (length r) ≡ false
      fits = ground (arith, length-append r end)

  replay-log_of :
      (fuel : ℕ) (records : List (List ℕ)) (torn : List ℕ) (s : S)
      → All (λ r. length r < 2 ^ 32) records
      → IsTorn torn
      → length (log_of records torn) ≤ fuel
      → replay wal_ops state_ops fuel (log_of records torn) s ≡ apply_all records s
  replay-log_of fuel [] torn s short t le = replay-torn fuel torn s t
  replay-log_of zero (r ∷ rs) torn s short t le = absurd (omega arith)
  replay-log_of (suc fuel) (r ∷ rs) torn s short t le =
      replay-framed fuel r (log_of rs torn) s short.0
      ∙ replay-log_of fuel rs torn (apply_record wal_ops state_ops r s) short.1 t
          (omega (arith, le, length-append r (log_of rs torn)))

  -- Recovery from a log of whole records with a torn write at its end applies the records in
  -- order, each once, and nothing of the torn one.
  pub recover-log_of :
      (wal : W) (records : List (List ℕ)) (torn : List ℕ) (s : S)
      → wal_ops.read_all wal ≡ some (log_of records torn)
      → All (λ r. length r < 2 ^ 32) records
      → IsTorn torn
      → recover wal_ops state_ops (some wal) s ≡ apply_all records s
  unfolding recover
  recover-log_of wal records torn s e short t =
      ap loop e ∙ replay-log_of (length (log_of records torn)) records torn s short t (omega arith)
    where
      loop : Option (List ℕ) → S
      loop o = elim o [ none ↦ s | some bytes ↦ replay wal_ops state_ops (length bytes) bytes s ]
