-- ===== src/Arena/Threads/Progress.antt =====
-- crates/tiny-io-oi/src/unsafe_core.rs: the steps of the threads keep the counters and the values.
use tiny_io_oi.Prelude.{
  get_or-set_self, get_or-set_ne, get_or-replicate, length-replicate, ℕ, suc, ◌+◌, ◌-◌, ◌%◌, ◌^◌,
  ◌≤◌, ◌<◌, List, [], ◌∷◌, ◌++◌, none, some, ◌≡◌, ◌≢◌, refl, sym, ap, ◌∙◌, arith, ◌==◌, ==_iff,
  if_rule, ltb, length, length-set, get_or, set, All, replicate,
}
use tiny_io_oi.Arena.{Arena, new, get, clone, drop_arc}
use tiny_io_oi.Arena.Handles.{Handle, IsHeld, small_index}
use tiny_io_oi.Arena.Threads.{Task, Choice, advance, Step, call, move, Reach, here, next}
use tiny_io_oi.Arena.Threads.Invariant.{
  shares, IsFine, IsShared, shares-le, frame-IsFine, recount-IsFine, parted, IsFine-parts, assemble,
  set-counted,
}

module _ {T : Type 0} (front back : List (Task T)) (a : Arena T) where
  -- What has to hold after a step.
  After : Arena T × List (Task T) → Type 0
  After r = IsShared r.0 (front ++ (r.1 ++ back))

  idle-After :
      (t : Task T) (became : List (Task T))
      → IsShared a (front ++ t ∷ back)
      → ((j : ℕ) → shares j (t ∷ []) ≡ shares j became)
      → All (IsFine a) became
      → After (a, became)
  unfolding After
  idle-After t became shared same fine =
      let parts = IsFine-parts front back t a shared in
      assemble front back t a shared a became refl refl
        (λ j. omega (arith, parted front back t a shared j, same j)) parts.0 fine parts.1.1

  scanning-After :
      (i : ℕ) (value : T) (c : Choice)
      → IsShared a (front ++ Task.scanning i value ∷ back)
      → After (advance c (Task.scanning i value) a)
  unfolding advance After
  scanning-After i value c shared =
      let t = Task.scanning i value in
      let parts = IsFine-parts front back t a shared in
      let here_counted = parted front back t a shared i in
      let a' : Arena T = record a { ref_counts = set a.ref_counts i 1 } in
      let same_size = length-set a.ref_counts i 1 in
      if_rule After (ltb i (length a.ref_counts)) _ _
        (λ lt.
          if_rule After (get_or a.ref_counts i 0 == 0) _ _
            (λ free.
              let lt' : i < length a.ref_counts = ground arith in
              let unowned : get_or a.ref_counts i 0 ≡ 0 = (==_iff _ 0).0 free in
              let frame : (ts : List (Task T))
                  → shares i ts ≡ 0
                  → All (IsFine a) ts
                  → All (IsFine a') ts =
                λ ts o f.
                  frame-IsFine a a' i ts same_size (λ j ne. get_or-set_ne a.ref_counts i j 1 0 ne)
                    (λ j ne. refl) o f in
              assemble front back t a shared a' (Task.reserved i value ∷ []) refl same_size
                (set-counted front back t a shared i 1 (Task.reserved i value ∷ []) lt'
                  (λ j ne. ground arith) (ground (arith, here_counted, unowned)))
                (frame front (omega (arith, here_counted, unowned)) parts.0)
                ((omega (arith, lt', same_size), get_or-set_self a.ref_counts i 1 0 lt'), tt)
                (frame back (omega (arith, here_counted, unowned)) parts.1.1))
            (λ taken. idle-After t (Task.scanning (suc i) value ∷ []) shared (λ j. refl) (tt, tt)))
        (λ end. idle-After t [] shared (λ j. refl) tt)

  reserved-After :
      (i : ℕ) (value : T) (c : Choice)
      → IsShared a (front ++ Task.reserved i value ∷ back)
      → After (advance c (Task.reserved i value) a)
  unfolding advance After get
  reserved-After i value c shared =
      let t = Task.reserved i value in
      let parts = IsFine-parts front back t a shared in
      let a' : Arena T = record a { data_slots = set a.data_slots i (some value) } in
      let held : Handle T = record {
        arc = record { index = i % 2 ^ 16; ref_count_ptr = i };
        value = value;
      } in
      let alone = parted front back t a shared i in
      let frame : (ts : List (Task T)) → shares i ts ≡ 0 → All (IsFine a) ts → All (IsFine a') ts =
        λ ts o f.
          frame-IsFine a a' i ts refl (λ j ne. refl)
            (λ j ne. get_or-set_ne a.data_slots i j (some value) none ne) o f in
      let index = small_index i (omega (arith, parts.1.0.0, shared.small)) in
      assemble front back t a shared a' (Task.holding held ∷ [])
        (length-set a.data_slots i (some value)) refl
        (λ j. omega (arith, parted front back t a shared j))
        (frame front (ground (arith, alone, parts.1.0.1)) parts.0)
        (
          record {
            within = parts.1.0.0;
            points = index;
            reads =
                ap (λ k. get_or (set a.data_slots i (some value)) k none) index
                ∙ get_or-set_self a.data_slots i (some value) none
                    (omega (arith, parts.1.0.0, shared.sizes));
          },
          tt,
        )
        (frame back (ground (arith, alone, parts.1.0.1)) parts.1.1)

  -- A new count for the slot of a live handle, of which `became` are the handles after the step.
  recounted-After :
      (h : Handle T) (v : ℕ) (became : List (Task T))
      → IsShared a (front ++ Task.holding h ∷ back)
      → let i = h.arc.ref_count_ptr in
        let a' : Arena T = record a { ref_counts = set a.ref_counts i v } in
        ((j : ℕ) → i ≢ j → shares j became ≡ shares j (Task.holding h ∷ []))
        → v ≡ shares i front + (shares i became + shares i back)
        → (IsHeld a' h → All (IsFine a') became)
        → After (a', became)
  unfolding After get
  recounted-After h v became shared other own fine =
      let t = Task.holding h in
      let i = h.arc.ref_count_ptr in
      let parts = IsFine-parts front back t a shared in
      let same_size = length-set a.ref_counts i v in
      let counted = parted front back t a shared i in
      let owned = (==_iff i i).1 refl in
      assemble front back t a shared (record a { ref_counts = set a.ref_counts i v }) became refl
        same_size
        (set-counted front back t a shared i v became parts.1.0.within
          (λ j ne. omega (arith, other j ne)) own)
        (recount-IsFine a i v front (λ one. ground (arith, counted, one, owned)) parts.0)
        (fine (record {
          within = omega (arith, parts.1.0.within, same_size);
          points = parts.1.0.points;
          reads = parts.1.0.reads;
        }))
        (recount-IsFine a i v back (λ one. ground (arith, counted, one, owned)) parts.1.1)

  holding-After :
      (h : Handle T) (c : Choice)
      → length (front ++ Task.holding h ∷ back) < 2 ^ 16 - 1
      → IsShared a (front ++ Task.holding h ∷ back)
      → After (advance c (Task.holding h) a)
  unfolding advance After clone drop_arc
  holding-After h c few shared =
      let t = Task.holding h in
      let i = h.arc.ref_count_ptr in
      let counted = parted front back t a shared i in
      let total = shared.counted i in
      let bound = shares-le i (front ++ t ∷ back) in
      let owned = (==_iff i i).1 refl in
      elim c as (λ k. After (advance k t a)) [
        | Choice.clone_it ↦
            recounted-After h ((get_or a.ref_counts i 0 + 1) % 2 ^ 16) (t ∷ t ∷ []) shared
              (λ j ne. ground arith) (ground (arith, counted, total, bound, few, owned))
              (λ held. (held, (held, tt)))
        | Choice.drop_it ↦
            recounted-After h ((get_or a.ref_counts i 0 + 2 ^ 16 - 1) % 2 ^ 16) [] shared
              (λ j ne. ground arith) (ground (arith, counted, total, bound, few, owned))
              (λ held. tt)
      ]

module _ {T : Type 0} where
  advance-IsShared :
      (c : Choice) (front : List (Task T)) (t : Task T) (back : List (Task T)) (a : Arena T)
      → length (front ++ t ∷ back) < 2 ^ 16 - 1
      → IsShared a (front ++ t ∷ back)
      → IsShared (advance c t a).0 (front ++ ((advance c t a).1 ++ back))
  unfolding After
  advance-IsShared c front (Task.scanning i value) back a few shared =
      scanning-After front back a i value c shared
  advance-IsShared c front (Task.reserved i value) back a few shared =
      reserved-After front back a i value c shared
  advance-IsShared c front (Task.holding h) back a few shared =
      holding-After front back a h c few shared

  Step-IsShared :
      {a a' : Arena T} {ts ts' : List (Task T)} → Step a ts a' ts' → IsShared a ts → IsShared a' ts'
  Step-IsShared (call value a ts) shared = record {
    sizes = shared.sizes;
    small = shared.small;
    counted = λ i. omega (arith, shared.counted i);
    fine = (tt, shared.fine);
  }
  Step-IsShared (move c front t back a few) shared = advance-IsShared c front t back a few shared

  Reach-keeps :
      {a : Arena T} {ts : List (Task T)} {b : Arena T} {us : List (Task T)}
      → IsShared a ts
      → Reach a ts b us
      → IsShared b us
  Reach-keeps shared here = shared
  Reach-keeps shared (next r s) = Step-IsShared s (Reach-keeps shared r)

  new-IsShared : (size : ℕ) → size ≤ 2 ^ 16 → IsShared {T = T} (new size) []
  new-IsShared size le =
      let zeros : length (replicate size 0) ≡ size = length-replicate size 0 in
      record {
        sizes = length-replicate size none ∙ sym zeros;
        small = omega (arith, le, zeros);
        counted = λ i. get_or-replicate size i 0;
        fine = tt;
      }

  -- However the threads that share a new arena of at most 2^16 slots interleave, as long as fewer than
  -- 2^16 - 1 handles and calls are under way at each step: every counter is the number of the owners
  -- of its slot, a slot that is reserved has no other owner, and every live handle points to its slot and
  -- reads the value that it was allocated with.
  pub Reach-IsShared :
      (size : ℕ) (a : Arena T) (ts : List (Task T))
      → size ≤ 2 ^ 16
      → Reach (new size) [] a ts
      → IsShared a ts
  Reach-IsShared size a ts le r = Reach-keeps (new-IsShared size le) r
