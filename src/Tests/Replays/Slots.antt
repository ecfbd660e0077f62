-- ===== src/Tests/Replays/Slots.antt =====
-- crates/tiny-io-oi/src/lib.rs: the test of the arena. The threads take their turns here one after
-- the other; Arena.Threads.Progress has all the interleavings.
use tiny_io_oi.Prelude.{
  ℕ, zero, suc, List, [], ◌∷◌, Option, none, some, Bool, true, false, not, ◌&&◌, ◌≡◌, refl, same,
  replicate,
}
use tiny_io_oi.Arena.{Arena, TinyArc, new, alloc, clone, drop_arc, get}
use tiny_io_oi.Node.Handlers.{is_some}
use tiny_io_oi.Tests.Replays.{all_of}

-- An array of four bytes.
abbrev Bytes4 : Type 0
Bytes4 = List ℕ

abbrev four : ℕ → Bytes4
four b = replicate 4 b

abbrev no_arc : TinyArc
no_arc = record { index = 0; ref_count_ptr = 0 }

-- `alloc(..).expect(..)`: the arena, the handle, and whether there was one.
abbrev expected : Arena Bytes4 × Option TinyArc → Arena Bytes4 × TinyArc × Bool
expected (a, none) = (a, no_arc, false)
expected (a, some arc) = (a, arc, true)

-- Does the handle read these bytes?
abbrev holds : Bytes4 → Option Bytes4 → Bool
holds val none = false
holds val (some v) = same v val

-- The body of a thread: it allocates, clones, reads through the clone and drops both.
abbrev thread_body : ℕ → Arena Bytes4 → Arena Bytes4 × Bool
thread_body i a =
    let (a1, arc, ok) = expected (alloc (four i) a) in
    let (a2, arc_clone) = clone arc a1 in
    let read = holds (four i) (get arc_clone a2) in
    (drop_arc arc_clone (drop_arc arc a2), ok && read)

abbrev run_threads : ℕ → ℕ → Arena Bytes4 → Arena Bytes4 × Bool
run_threads zero i a = (a, true)
run_threads (suc n) i a =
    let (a1, ok) = thread_body i a in
    let (a2, later) = run_threads n (suc i) a1 in (a2, ok && later)

abbrev test_no_std_memory_leak_and_thread_drop : Bool
test_no_std_memory_leak_and_thread_drop =
    let (b0, arc0, ok0) = expected (alloc (four 0) (new 4)) in
    let (b1, arc1, ok1) = expected (alloc (four 1) b0) in
    let (b2, arc2, ok2) = expected (alloc (four 2) b1) in
    let (b3, arc3, ok3) = expected (alloc (four 3) b2) in
    let (b4, full) = alloc (four 4) b3 in
    let (b5, arc_reused, ok5) = expected (alloc (four 5) (drop_arc arc2 b4)) in
    let reads = holds (four 5) (get arc_reused b5) in
    let cleared = drop_arc arc_reused (drop_arc arc3 (drop_arc arc1 (drop_arc arc0 b5))) in
    let (c, threads) = run_threads 4 0 cleared in
    let (d0, a0, clean0) = expected (alloc (four 10) c) in
    let (d1, a1, clean1) = expected (alloc (four 11) d0) in
    let (d2, a2, clean2) = expected (alloc (four 12) d1) in
    let (d3, a3, clean3) = expected (alloc (four 13) d2) in
    all_of (
      ok0
      ∷ ok1
      ∷ ok2
      ∷ ok3
      ∷ not (is_some full)
      ∷ ok5
      ∷ reads
      ∷ threads
      ∷ clean0
      ∷ clean1
      ∷ clean2
      ∷ clean3
      ∷ holds (four 10) (get a0 d3)
      ∷ holds (four 11) (get a1 d3)
      ∷ holds (four 12) (get a2 d3)
      ∷ holds (four 13) (get a3 d3)
      ∷ [])

no_std_memory_leak_and_thread_drop_passes : test_no_std_memory_leak_and_thread_drop ≡ true
unfolding alloc clone drop_arc get same
no_std_memory_leak_and_thread_drop_passes = refl
