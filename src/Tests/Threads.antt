-- ===== src/Tests/Threads.antt =====
-- Concrete inputs for the theorems on threads that share an arena.
use tiny_io_oi.Prelude.{ℕ, [], ◌∷◌, ◌++◌, none, some, arith}
use tiny_io_oi.Arena.{Arena, new, alloc}
use tiny_io_oi.Arena.Handles.{Handle}
use tiny_io_oi.Arena.Threads.{Task, Choice, advance, Reach, here, next, call, move}
use tiny_io_oi.Arena.Threads.Invariant.{IsShared}
use tiny_io_oi.Arena.Threads.Progress.{Reach-IsShared}
use tiny_io_oi.Arena.Threads.Alone.{returned, alloc-Reach}

-- Two calls began at slot 0; one has taken it, and the other one has gone on to slot 1.
abbrev contended : Arena ℕ
contended = record { data_slots = some 24 ∷ none ∷ []; ref_counts = 1 ∷ 0 ∷ [] }

abbrev winner : Handle ℕ
winner = record { arc = record { index = 0; ref_count_ptr = 0 }; value = 24 }

contended-Reach : Reach (new 2) [] contended (Task.holding winner ∷ Task.scanning 1 42 ∷ [])
unfolding advance
contended-Reach =
    next
      (next
        (next (next (next here (call 42 (new 2) [])) (call 24 (new 2) (Task.scanning 0 42 ∷ []))) (
          move Choice.clone_it [] (Task.scanning 0 24) (Task.scanning 0 42 ∷ []) (new 2)
            (omega arith)))
        (move Choice.clone_it (Task.reserved 0 24 ∷ []) (Task.scanning 0 42) []
          (record { data_slots = none ∷ none ∷ []; ref_counts = 1 ∷ 0 ∷ [] }) (omega arith)))
      (move Choice.clone_it [] (Task.reserved 0 24) (Task.scanning 1 42 ∷ [])
        (record { data_slots = none ∷ none ∷ []; ref_counts = 1 ∷ 0 ∷ [] }) (omega arith))

Reach-IsShared_example : IsShared contended (Task.holding winner ∷ Task.scanning 1 42 ∷ [])
Reach-IsShared_example =
    Reach-IsShared 2 contended (Task.holding winner ∷ Task.scanning 1 42 ∷ []) (omega arith)
      contended-Reach

abbrev two_slots : Arena ℕ
two_slots = new 2

alloc-Reach_example :
    Reach two_slots [] (alloc 9 two_slots).0 ([] ++ (returned 9 (alloc 9 two_slots).1 ++ []))
alloc-Reach_example =
    alloc-Reach [] [] 9 two_slots [] (omega arith) two_slots (next here (call 9 two_slots []))
