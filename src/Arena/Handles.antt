-- ===== src/Arena/Handles.antt =====
-- crates/tiny-io-oi/src/unsafe_core.rs: the slots of an arena, and the handles that point to them.
use tiny_io_oi.Prelude.{
  ℕ, suc, ◌+◌, ◌%◌, ◌^◌, ◌<◌, List, [], ◌∷◌, some, ◌≡◌, inl, inr, Bool-cases, arith, ◌==◌, length,
  get_or,
}
use tiny_io_oi.Arena.{Arena, TinyArc, find_free, get}

pub find_free-zero :
    (counts : List ℕ) (i j : ℕ)
    → find_free counts i ≡ some j
    → (k : ℕ) × (j ≡ i + k) × (k < length counts) × (get_or counts k 0 ≡ 0)
find_free-zero [] i j h = absurd cc
find_free-zero (c ∷ cs) i j h = elim (Bool-cases (c == 0)) [
  | inl t ↦ (0, ground arith, omega arith, ground arith)
  | inr f ↦
      let (k, e, lt, z) = find_free-zero cs (suc i) j (ground arith) in
      (suc k, omega (arith, e), omega (arith, lt), z)
]

-- A live handle, with the value that its owner put in.
pub record Handle (T : Type 0) : Type 0 where
  pub arc : TinyArc
  pub value : T

pub small_index : (i : ℕ) → i < 2 ^ 16 → i % 2 ^ 16 ≡ i
small_index i h = omega arith

module _ {T : Type 0} where
  pub record IsHeld (a : Arena T) (h : Handle T) : Type 0 where
    pub within : h.arc.ref_count_ptr < length a.ref_counts
    pub points : h.arc.index ≡ h.arc.ref_count_ptr
    pub reads : get h.arc a ≡ some h.value
