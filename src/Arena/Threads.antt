-- ===== src/Arena/Threads.antt =====
-- crates/tiny-io-oi/src/unsafe_core.rs: threads that share an arena. Each atomic operation is one
-- step: a thread in `alloc` tries the compare-exchange of one slot at a time, and writes the value in a
-- step of its own. The orderings are `SeqCst`, so the steps of all threads form one sequence.
pub mod Invariant
pub mod Progress
pub mod Alone
use tiny_io_oi.Prelude.{
  ℕ, suc, ◌%◌, ◌^◌, ◌<◌, ◌-◌, List, [], ◌∷◌, ◌++◌, some, ◌==◌, ltb, if◌then◌else◌, length, get_or,
  set,
}
use tiny_io_oi.Arena.{Arena, clone, drop_arc}
use tiny_io_oi.Arena.Handles.{Handle}

-- What is under way: a call of `alloc` in its loop at index `i`, one that has reserved slot `i` and
-- has not written it yet, or a live handle.
pub data Task (T : Type 0) : Type 0 where
  scanning : (i : ℕ) (value : T) → Task T
  reserved : (i : ℕ) (value : T) → Task T
  holding : Handle T → Task T

-- What the owner of a handle does with it.
pub data Choice : Type 0 where
  clone_it drop_it : Choice

module _ {T : Type 0} where
  -- The next atomic step of a task: the arena after it, and what the task becomes.
  unfoldable pub advance : Choice → Task T → Arena T → Arena T × List (Task T)
  advance c (Task.scanning i value) a =
      if ltb i (length a.ref_counts)
      then (if get_or a.ref_counts i 0 == 0
          then (record a { ref_counts = set a.ref_counts i 1 }, Task.reserved i value ∷ [])
          else (a, Task.scanning (suc i) value ∷ []))
      else (a, [])
  advance c (Task.reserved i value) a = (
    record a { data_slots = set a.data_slots i (some value) },
    Task.holding (record { arc = record { index = i % 2 ^ 16; ref_count_ptr = i }; value = value })
        ∷ [],
  )
  advance Choice.clone_it (Task.holding h) a =
      ((clone h.arc a).0, Task.holding h ∷ Task.holding (record h { arc = (clone h.arc a).1 }) ∷ [])
  advance Choice.drop_it (Task.holding h) a = (drop_arc h.arc a, [])

  -- A call of `alloc` begins, or one of the tasks takes a step. There are fewer than 2^16 - 1 of them,
  -- since more clones of one handle would wrap its counter around.
  pub data Step : Arena T → List (Task T) → Arena T → List (Task T) → Type 0 where
    call : (value : T) (a : Arena T) (ts : List (Task T)) → Step a ts a (Task.scanning 0 value ∷ ts)
    move :
        (c : Choice) (front : List (Task T)) (t : Task T) (back : List (Task T)) (a : Arena T)
        → length (front ++ t ∷ back) < 2 ^ 16 - 1
        → Step a (front ++ t ∷ back) (advance c t a).0 (front ++ ((advance c t a).1 ++ back))

  -- What the threads can reach from an arena and tasks.
  pub data Reach (a : Arena T) (ts : List (Task T)) : Arena T → List (Task T) → Type 0 where
    here : Reach a ts a ts
    next :
        {b c : Arena T} {us vs : List (Task T)} → Reach a ts b us → Step b us c vs → Reach a ts c vs
