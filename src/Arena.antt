-- ===== src/Arena.antt =====
-- crates/tiny-io-oi/src/unsafe_core.rs: the arena of shared values and its counted handles. Every
-- atomic operation is one step, so a thread's `alloc` is one step of this model only where no
-- other one comes between its compare-exchange and its write.
pub mod Counts
pub mod Handles
pub mod Ownership
pub mod Threads
use tiny_io_oi.Prelude.{
  ℕ, suc, ◌+◌, ◌-◌, ◌%◌, ◌^◌, List, [], ◌∷◌, Option, none, some, ◌==◌, if◌then◌else◌, get_or, set,
  replicate,
}

pub record Arena (T : Type 0) : Type 0 where
  pub data_slots : List (Option T)
  pub ref_counts : List ℕ

-- A handle: the index of its slot as a u16, and the counter that it points to.
pub record TinyArc : Type 0 where
  pub index : ℕ
  pub ref_count_ptr : ℕ

-- The first counter that is 0, from position `i` on.
abbrev pub find_free : List ℕ → ℕ → Option ℕ
find_free [] i = none
find_free (c ∷ cs) i = let rest = find_free cs (suc i) in if c == 0 then some i else rest

abbrev pub from_raw : ℕ → ℕ → TinyArc
from_raw index ref_count_ptr = record { index = index; ref_count_ptr = ref_count_ptr }

-- `HardwareTime`: one static variable.
pub record HardwareTime : Type 0 where
  pub local_hardware_time_us : ℕ

abbrev pub set_us : ℕ → HardwareTime → HardwareTime
set_us us t = record { local_hardware_time_us = us }

abbrev pub get_us : HardwareTime → ℕ
get_us t = t.local_hardware_time_us

module _ {T : Type 0} where
  -- `Arena::new`.
  abbrev pub new : ℕ → Arena T
  new size = record { data_slots = replicate size none; ref_counts = replicate size 0 }

  -- The slot is reserved by its counter, and then written.
  unfoldable pub alloc : T → Arena T → Arena T × Option TinyArc
  alloc value a = elim (find_free a.ref_counts 0) [
    | none ↦ (a, none)
    | some i ↦ (
      record { data_slots = set a.data_slots i (some value); ref_counts = set a.ref_counts i 1 },
      some (record { index = i % 2 ^ 16; ref_count_ptr = i }),
    )
  ]

  -- `fetch_add` and `fetch_sub` on a u16 wrap around.
  unfoldable pub clone : TinyArc → Arena T → Arena T × TinyArc
  clone arc a =
      let count = get_or a.ref_counts arc.ref_count_ptr 0 in
      (record a { ref_counts = set a.ref_counts arc.ref_count_ptr ((count + 1) % 2 ^ 16) }, arc)

  -- `TinyArc::new` counts the handle that it makes; `from_raw` does not.
  abbrev pub arc_new : ℕ → ℕ → Arena T → Arena T × TinyArc
  arc_new index ref_count_ptr a =
      let count = get_or a.ref_counts ref_count_ptr 0 in
      (
        record a { ref_counts = set a.ref_counts ref_count_ptr ((count + 1) % 2 ^ 16) },
        record { index = index; ref_count_ptr = ref_count_ptr },
      )

  unfoldable pub drop_arc : TinyArc → Arena T → Arena T
  drop_arc arc a =
      let count = get_or a.ref_counts arc.ref_count_ptr 0 in
      record a { ref_counts = set a.ref_counts arc.ref_count_ptr ((count + 2 ^ 16 - 1) % 2 ^ 16) }

  unfoldable pub get : TinyArc → Arena T → Option T
  get arc a = get_or a.data_slots arc.index none
