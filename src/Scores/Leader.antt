-- ===== src/Scores/Leader.antt =====
-- crates/tiny-io-oi/src/node.rs: whom `get_leader` elects.
use tiny_io_oi.Prelude.{
  ℕ, ◌≤◌, List, [], ◌∷◌, Option, none, some, ◌≡◌, ◌⊎◌, inl, inr, refl, ap, arith, ltb, All, ltb→lt,
  Bool-cases,
}
use tiny_io_oi.Protocol.{NodeId, CoreNodeId, from_core_id}
use tiny_io_oi.Scores.{Entry, best, leader}

-- Is the entry in the table?
abbrev pub Holds : CoreNodeId × ℕ → List Entry → Type 0
Holds e [] = ⊥
Holds e (x ∷ xs) = (x ≡ some e) ⊎ Holds e xs

abbrev pub AtMost : ℕ → Entry → Type 0
AtMost top none = Unit
AtMost top (some (id, score)) = score ≤ top

-- What a search from the candidate `b` on finds.
record Found (b : CoreNodeId × ℕ) (xs : List Entry) (e : CoreNodeId × ℕ) : Type 0 where
  found : best (some b) xs ≡ some e
  source : (e ≡ b) ⊎ Holds e xs
  above : b.1 ≤ e.1
  top : All (AtMost e.1) xs

best-some : (b : CoreNodeId × ℕ) (xs : List Entry) → (e : CoreNodeId × ℕ) × Found b xs e
best-some b [] = (b, record { found = refl; source = inl refl; above = omega arith; top = tt })
best-some b (none ∷ xs) =
    let (e, f) = best-some b xs in
    (
      e,
      record {
        found = f.found;
        source = ground (arith, f.source);
        above = f.above;
        top = (tt, f.top);
      },
    )
best-some b (some x ∷ xs) = elim (Bool-cases (ltb x.1 b.1)) [
  | inl t ↦
      let (e, f) = best-some b xs in
      (
        e,
        record {
          found = rw t f.found;
          source = ground (arith, f.source);
          above = f.above;
          top = (omega (arith, f.above, ltb→lt x.1 b.1 t), f.top);
        },
      )
  | inr t ↦
      let (e, f) = best-some x xs in
      (
        e,
        record {
          found = rw t f.found;
          source = ground (arith, f.source);
          above = ground (arith, f.above);
          top = (f.above, f.top);
        },
      )
]

best-none :
    (xs : List Entry)
    → ((best none xs ≡ none) × All (λ x. x ≡ none) xs)
      ⊎ ((e : CoreNodeId × ℕ) × (best none xs ≡ some e) × Holds e xs × All (AtMost e.1) xs)
best-none [] = inl (refl, tt)
best-none (none ∷ xs) = elim (best-none xs) [
  | inl (e, all) ↦ inl (e, (refl, all))
  | inr (e, b, h, all) ↦ inr (e, b, inr h, (tt, all))
]
best-none (some x ∷ xs) =
    let (e, f) = best-some x xs in inr (e, f.found, ground (arith, f.source), (f.above, f.top))

-- The two results of an election: nobody, from an empty table, or the address of an entry whose
-- score no other entry exceeds.
abbrev pub Elects : List Entry → Option NodeId → Type 0
Elects scores l =
    ((l ≡ none) × All (λ x. x ≡ none) scores)
    ⊎ ((e : CoreNodeId × ℕ) × (l ≡ some (from_core_id e.0))
        × Holds e scores
        × All (AtMost e.1) scores)

-- `get_leader` elects nobody only if the table is empty, and otherwise the address of an entry of
-- the table whose score no other entry exceeds.
pub leader-Elects : (scores : List Entry) → Elects scores (leader scores)
unfolding leader
leader-Elects scores = elim (best-none scores) [
  | inl (e, all) ↦ inl (ap named e, all)
  | inr (e, b, h, all) ↦ inr (e, ap named b, h, all)
]
  where
    named : Option (CoreNodeId × ℕ) → Option NodeId
    named b = elim b [ none ↦ none | some e ↦ some (from_core_id e.0) ]
