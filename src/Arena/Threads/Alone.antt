-- ===== src/Arena/Threads/Alone.antt =====
-- crates/tiny-io-oi/src/unsafe_core.rs: a call of `alloc` that no other thread interrupts.
use tiny_io_oi.Prelude.{
  ℕ, suc, ◌+◌, ◌-◌, ◌%◌, ◌^◌, ◌≤◌, ◌<◌, List, [], ◌∷◌, ◌++◌, Option, none, some, true, false, ◌≡◌,
  refl, sym, ap, ◌∙◌, subst, arith, ◌==◌, if_rule, length, length-append, get_or, set,
}
use tiny_io_oi.Arena.{Arena, TinyArc, find_free, alloc}
use tiny_io_oi.Arena.Threads.{Task, Choice, advance, move, Reach, next}

module _ {T : Type 0} where
  -- What a call that returned leaves: the handle that it returned, if any.
  abbrev pub returned : T → Option TinyArc → List (Task T)
  returned value none = []
  returned value (some arc) = Task.holding (record { arc = arc; value = value }) ∷ []

  -- The end of `alloc`, with the slot that was found free.
  abbrev found : T → Arena T → Option ℕ → Arena T × Option TinyArc
  found value a none = (a, none)
  found value a (some i) = (
    record { data_slots = set a.data_slots i (some value); ref_counts = set a.ref_counts i 1 },
    some (record { index = i % 2 ^ 16; ref_count_ptr = i }),
  )

  advance-end :
      (i : ℕ) (value : T) (a : Arena T)
      → length a.ref_counts ≤ i
      → advance Choice.clone_it (Task.scanning i value) a ≡ (a, [])
  unfolding advance
  advance-end i value a le = ground arith

  advance-taken :
      (i : ℕ) (value : T) (a : Arena T)
      → i < length a.ref_counts
      → (get_or a.ref_counts i 0 == 0) ≡ false
      → advance Choice.clone_it (Task.scanning i value) a ≡ (a, Task.scanning (suc i) value ∷ [])
  unfolding advance
  advance-taken i value a lt f = ground arith

  advance-free :
      (i : ℕ) (value : T) (a : Arena T)
      → i < length a.ref_counts
      → (get_or a.ref_counts i 0 == 0) ≡ true
      → advance Choice.clone_it (Task.scanning i value) a
        ≡ (record a { ref_counts = set a.ref_counts i 1 }, Task.reserved i value ∷ [])
  unfolding advance
  advance-free i value a lt t = ground arith

  advance-reserved :
      (i : ℕ) (value : T) (a : Arena T)
      → advance Choice.clone_it (Task.reserved i value) a ≡ (
        record a { data_slots = set a.data_slots i (some value) },
        returned value (some (record { index = i % 2 ^ 16; ref_count_ptr = i })),
      )
  unfolding advance
  advance-reserved i value a = refl

  module _ (front back : List (Task T)) (value : T) (start : Arena T) (tasks : List (Task T))
      (few : length front + length back < 2 ^ 16 - 2) where
    After : Arena T × List (Task T) → Type 0
    After r = Reach start tasks r.0 (front ++ (r.1 ++ back))

    step :
        (t : Task T) (a : Arena T) (r : Arena T × List (Task T))
        → advance Choice.clone_it t a ≡ r
        → Reach start tasks a (front ++ t ∷ back)
        → After r
    unfolding After
    step t a r e reached = subst After e (
        next reached (
          move Choice.clone_it front t back a (omega (arith, few, length-append front (t ∷ back)))))

    scan :
        (cs : List ℕ) (i : ℕ) (a : Arena T)
        → length a.ref_counts ≡ i + length cs
        → ((k : ℕ) → get_or cs k 0 ≡ get_or a.ref_counts (i + k) 0)
        → Reach start tasks a (front ++ Task.scanning i value ∷ back)
        → let r = found value a (find_free cs i) in After (r.0, returned value r.1)
    unfolding After
    scan [] i a size at reached =
        step (Task.scanning i value) a _ (advance-end i value a (omega (arith, size))) reached
    scan (c ∷ cs) i a size at reached =
        let same : get_or a.ref_counts i 0 ≡ c =
          sym (at 0 ∙ ap (λ k. get_or a.ref_counts k 0) (omega arith)) in
        let within : i < length a.ref_counts = omega (arith, size) in
        if_rule (λ o. After ((found value a o).0, returned value (found value a o).1)) (c == 0)
          (some i) (find_free cs (suc i))
          (λ t.
            step (Task.reserved i value) (record a { ref_counts = set a.ref_counts i 1 }) _
              (advance-reserved i value _)
              (step (Task.scanning i value) a _
                (advance-free i value a within (ground (arith, same, t))) reached))
          (λ f.
            scan cs (suc i) a (omega (arith, size))
              (λ k. at (suc k) ∙ ap (λ j. get_or a.ref_counts j 0) (omega arith))
              (step (Task.scanning i value) a _
                (advance-taken i value a within (ground (arith, same, f))) reached))

    -- Without an interruption, the steps of a call of `alloc` lead to the arena and the handle, if any,
    -- of the function `alloc`, as long as fewer than 2^16 - 2 other tasks are under way.
    pub alloc-Reach :
        (a : Arena T)
        → Reach start tasks a (front ++ Task.scanning 0 value ∷ back)
        → Reach start tasks (alloc value a).0 (front ++ (returned value (alloc value a).1 ++ back))
    unfolding alloc After
    alloc-Reach a reached =
        let r =
          scan a.ref_counts 0 a (omega arith) (λ k. ap (λ j. get_or a.ref_counts j 0) (omega arith))
            reached in
        as_alloc (find_free a.ref_counts 0) r
      where
        as_alloc :
            (o : Option ℕ)
            → After ((found value a o).0, returned value (found value a o).1)
            → let r : Arena T × Option TinyArc = elim o [
              | none ↦ (a, none)
              | some i ↦ (
                record {
                  data_slots = set a.data_slots i (some value);
                  ref_counts = set a.ref_counts i 1;
                },
                some (record { index = i % 2 ^ 16; ref_count_ptr = i }),
              )
            ] in
              After (r.0, returned value r.1)
        as_alloc none r = r
        as_alloc (some i) r = r
