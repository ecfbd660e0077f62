-- ===== src/Arena/Threads/Invariant.antt =====
-- crates/tiny-io-oi/src/unsafe_core.rs: what holds of an arena however its threads interleave.
use tiny_io_oi.Prelude.{
  get_or-set_self, get_or-set_ne, All-split, All-join, ℕ, ◌+◌, ◌^◌, ◌≤◌, ◌<◌, List, [], ◌∷◌, ◌++◌,
  none, ◌≡◌, ◌≢◌, inl, inr, sym, ◌∙◌, subst, arith, ◌==◌, ==_iff, Bool-cases, if◌then◌else◌, length,
  length-set, get_or, set, All,
}
use tiny_io_oi.Arena.{Arena, get}
use tiny_io_oi.Arena.Handles.{IsHeld}
use tiny_io_oi.Arena.Threads.{Task}

module _ {T : Type 0} where
  -- How many owners of slot `i` a task is: a reservation and a live handle are one each.
  abbrev pub share : ℕ → Task T → ℕ
  share i (Task.scanning j value) = 0
  share i (Task.reserved j value) = if j == i then 1 else 0
  share i (Task.holding h) = if h.arc.ref_count_ptr == i then 1 else 0

  abbrev pub shares : ℕ → List (Task T) → ℕ
  shares i [] = 0
  shares i (t ∷ ts) = share i t + shares i ts

  -- A reserved slot has one owner; a live handle points to its slot and reads its value.
  abbrev pub IsFine : Arena T → Task T → Type 0
  IsFine a (Task.scanning i value) = Unit
  IsFine a (Task.reserved i value) = (i < length a.ref_counts) × (get_or a.ref_counts i 0 ≡ 1)
  IsFine a (Task.holding h) = IsHeld a h

  -- Every counter is the number of the owners of its slot, and every task is fine.
  pub record IsShared (a : Arena T) (ts : List (Task T)) : Type 0 where
    pub sizes : length a.data_slots ≡ length a.ref_counts
    pub small : length a.ref_counts ≤ 2 ^ 16
    pub counted : (i : ℕ) → get_or a.ref_counts i 0 ≡ shares i ts
    pub fine : All (IsFine a) ts

  share-le : (i : ℕ) (t : Task T) → share i t ≤ 1
  share-le i (Task.scanning j value) = omega arith
  share-le i (Task.reserved j value) = ground arith
  share-le i (Task.holding h) = ground arith

  pub shares-le : (i : ℕ) (ts : List (Task T)) → shares i ts ≤ length ts
  shares-le i [] = omega arith
  shares-le i (t ∷ ts) = omega (arith, share-le i t, shares-le i ts)

  shares-append : (i : ℕ) (xs ys : List (Task T)) → shares i (xs ++ ys) ≡ shares i xs + shares i ys
  shares-append i [] ys = omega arith
  shares-append i (x ∷ xs) ys = omega (arith, shares-append i xs ys)

  -- A step at slot `i` keeps the tasks that do not own the slot fine.
  pub frame-IsFine :
      (a a' : Arena T) (i : ℕ) (ts : List (Task T))
      → length a'.ref_counts ≡ length a.ref_counts
      → ((j : ℕ) → i ≢ j → get_or a'.ref_counts j 0 ≡ get_or a.ref_counts j 0)
      → ((j : ℕ) → i ≢ j → get_or a'.data_slots j none ≡ get_or a.data_slots j none)
      → shares i ts ≡ 0
      → All (IsFine a) ts
      → All (IsFine a') ts
  unfolding get
  frame-IsFine a a' i [] l c d o f = tt
  frame-IsFine a a' i (Task.scanning j value ∷ ts) l c d o f =
      (tt, frame-IsFine a a' i ts l c d (omega arith) f.1)
  frame-IsFine a a' i (Task.reserved j value ∷ ts) l c d o f =
      let ne : i ≢ j = λ e. ground (arith, o, (==_iff j i).1 (sym e)) in
      ((omega (arith, l, f.0.0), c j ne ∙ f.0.1), frame-IsFine a a' i ts l c d (omega arith) f.1)
  frame-IsFine a a' i (Task.holding h ∷ ts) l c d o f =
      let ne : i ≢ h.arc.ref_count_ptr = λ e. ground (arith, o, (==_iff _ i).1 (sym e)) in
      let ne' : i ≢ h.arc.index = λ e. ne (e ∙ f.0.points) in
      (
        record {
          within = omega (arith, l, f.0.within);
          points = f.0.points;
          reads = d h.arc.index ne' ∙ f.0.reads;
        },
        frame-IsFine a a' i ts l c d (omega arith) f.1,
      )

  -- So does a write to the counter of a slot, of which a reservation has no other owner.
  pub recount-IsFine :
      (a : Arena T) (i v : ℕ) (ts : List (Task T))
      → (get_or a.ref_counts i 0 ≡ 1 → shares i ts ≡ 0)
      → All (IsFine a) ts
      → All (IsFine (record a { ref_counts = set a.ref_counts i v })) ts
  unfolding get
  recount-IsFine a i v [] o f = tt
  recount-IsFine a i v (Task.scanning j value ∷ ts) o f =
      (tt, recount-IsFine a i v ts (λ e. omega (arith, o e)) f.1)
  recount-IsFine a i v (Task.reserved j value ∷ ts) o f =
      let ne : i ≢ j = λ e. ground (
        arith,
        o (subst (λ k. get_or a.ref_counts k 0 ≡ 1) (sym e) f.0.1),
        (==_iff j i).1 (sym e),
      ) in
      (
        (
          omega (arith, length-set a.ref_counts i v, f.0.0),
          get_or-set_ne a.ref_counts i j v 0 ne ∙ f.0.1,
        ),
        recount-IsFine a i v ts (λ e. omega (arith, o e)) f.1,
      )
  recount-IsFine a i v (Task.holding h ∷ ts) o f = (
    record {
      within = omega (arith, length-set a.ref_counts i v, f.0.within);
      points = f.0.points;
      reads = f.0.reads;
    },
    recount-IsFine a i v ts (λ e. omega (arith, o e)) f.1,
  )

  module _ (front back : List (Task T)) (t : Task T) (a : Arena T)
      (shared : IsShared a (front ++ t ∷ back)) where
    -- The counter of a slot, by where its owners stand.
    pub parted : (j : ℕ) → get_or a.ref_counts j 0 ≡ shares j front + (share j t + shares j back)
    parted j = shared.counted j ∙ shares-append j front (t ∷ back)

    pub IsFine-parts : All (IsFine a) front × (IsFine a t × All (IsFine a) back)
    IsFine-parts = All-split (IsFine a) front (t ∷ back) shared.fine

    -- The invariant after a step that turned `t` into `became`, part by part.
    pub assemble :
        (a' : Arena T) (became : List (Task T))
        → length a'.data_slots ≡ length a.data_slots
        → length a'.ref_counts ≡ length a.ref_counts
        → ((j : ℕ) → get_or a'.ref_counts j 0 ≡ shares j front + (shares j became + shares j back))
        → All (IsFine a') front
        → All (IsFine a') became
        → All (IsFine a') back
        → IsShared a' (front ++ (became ++ back))
    assemble a' became ld lc c f n b = record {
      sizes = omega (arith, shared.sizes, ld, lc);
      small = omega (arith, shared.small, lc);
      counted = λ j.
          omega (arith, c j, shares-append j front (became ++ back), shares-append j became back);
      fine = All-join (IsFine a') front (became ++ back) f (All-join (IsFine a') became back n b);
    }

    -- A write to the counter of slot `i` counts the owners after it.
    pub set-counted :
        (i v : ℕ) (became : List (Task T))
        → i < length a.ref_counts
        → ((j : ℕ) → i ≢ j → shares j became ≡ share j t)
        → v ≡ shares i front + (shares i became + shares i back)
        → (j : ℕ)
        → get_or (set a.ref_counts i v) j 0 ≡ shares j front + (shares j became + shares j back)
    set-counted i v became lt other own j = elim (Bool-cases (i == j)) [
      | inl e ↦
          subst
            (λ k.
              get_or (set a.ref_counts i v) k 0
              ≡ shares k front + (shares k became + shares k back))
            ((==_iff i j).0 e) (get_or-set_self a.ref_counts i v 0 lt ∙ own)
      | inr f ↦
          let ne : i ≢ j = λ e. ground (arith, (==_iff i j).1 e) in
          omega (arith, get_or-set_ne a.ref_counts i j v 0 ne, parted j, other j ne)
    ]
