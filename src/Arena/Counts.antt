-- ===== src/Arena/Counts.antt =====
-- crates/tiny-io-oi/src/unsafe_core.rs: the counters of an arena, each against the live handles of
-- its slot.
use tiny_io_oi.Prelude.{
  get_or-set_self, get_or-set_ne, ℕ, suc, ◌+◌, ◌^◌, ◌≤◌, ◌<◌, List, [], ◌∷◌, ◌++◌, Option, none,
  ◌≡◌, ◌≢◌, inl, inr, sym, subst, ◌∙◌, Bool-cases, ==_iff, ap, arith, ◌==◌, if◌then◌else◌, length,
  get_or, set, All,
}
use tiny_io_oi.Arena.{Arena, get}
use tiny_io_oi.Arena.Handles.{Handle, IsHeld}

module _ {T : Type 0} where
  abbrev pub owners : ℕ → List (Handle T) → ℕ
  owners i [] = 0
  owners i (h ∷ hs) = let rest = owners i hs in if h.arc.ref_count_ptr == i then suc rest else rest

  -- Every counter is the number of live handles of its slot, and each of them reads its value.
  pub record IsOwned (a : Arena T) (hs : List (Handle T)) : Type 0 where
    pub sizes : length a.data_slots ≡ length a.ref_counts
    pub small : length a.ref_counts ≤ 2 ^ 16
    pub counted : (i : ℕ) → get_or a.ref_counts i 0 ≡ owners i hs
    pub held : All (IsHeld a) hs

  pub owners-le : (i : ℕ) (hs : List (Handle T)) → owners i hs ≤ length hs
  owners-le i [] = omega arith
  owners-le i (h ∷ hs) = ground (arith, owners-le i hs)

  pub owners-append :
      (i : ℕ) (xs ys : List (Handle T)) → owners i (xs ++ ys) ≡ owners i xs + owners i ys
  owners-append i [] ys = omega arith
  owners-append i (x ∷ xs) ys = ground (arith, owners-append i xs ys)

  -- A write to the counter of slot `i` gives the counts of other handles, if it gives its own.
  pub set-counted :
      (counts : List ℕ) (i v : ℕ) (hs hs' : List (Handle T))
      → i < length counts
      → ((j : ℕ) → get_or counts j 0 ≡ owners j hs)
      → ((j : ℕ) → i ≢ j → owners j hs' ≡ owners j hs)
      → owners i hs' ≡ v
      → (j : ℕ) → get_or (set counts i v) j 0 ≡ owners j hs'
  set-counted counts i v hs hs' lt c other own j = elim (Bool-cases (i == j)) [
    | inl t ↦
        subst (λ k. get_or (set counts i v) k 0 ≡ owners k hs') ((==_iff i j).0 t)
          (get_or-set_self counts i v 0 lt ∙ sym own)
    | inr f ↦
        let ne : i ≢ j = λ e. ground (arith, (==_iff i j).1 e) in
        get_or-set_ne counts i j v 0 ne ∙ c j ∙ sym (other j ne)
  ]

  -- Handles of other slots are held after a write to the data of a slot without owners.
  pub write-IsHeld :
      (a a' : Arena T) (i : ℕ) (v : Option T) (hs : List (Handle T))
      → a'.data_slots ≡ set a.data_slots i v
      → length a'.ref_counts ≡ length a.ref_counts
      → owners i hs ≡ 0
      → All (IsHeld a) hs
      → All (IsHeld a') hs
  unfolding get
  write-IsHeld a a' i v [] e l o h = tt
  write-IsHeld a a' i v (x ∷ xs) e l o h =
      let ne : i ≢ x.arc.index =
        λ q. ground (arith, o, (==_iff x.arc.ref_count_ptr i).1, h.0.points, q) in
      (
        record {
          within = omega (arith, l, h.0.within);
          points = h.0.points;
          reads =
              ap (λ d. get_or d x.arc.index none) e
              ∙ get_or-set_ne a.data_slots i x.arc.index v none ne
              ∙ h.0.reads;
        },
        write-IsHeld a a' i v xs e l (ground (arith, o)) h.1,
      )

  -- A write to a counter keeps the handles held.
  pub recount-IsHeld :
      (a a' : Arena T) (hs : List (Handle T))
      → a'.data_slots ≡ a.data_slots
      → length a'.ref_counts ≡ length a.ref_counts
      → All (IsHeld a) hs
      → All (IsHeld a') hs
  unfolding get
  recount-IsHeld a a' [] e l h = tt
  recount-IsHeld a a' (x ∷ xs) e l h = (
    record {
      within = omega (arith, l, h.0.within);
      points = h.0.points;
      reads = ap (λ d. get_or d x.arc.index none) e ∙ h.0.reads;
    },
    recount-IsHeld a a' xs e l h.1,
  )
