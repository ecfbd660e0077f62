-- ===== src/Ffi/Heap.antt =====
-- crates/tiny-io-oi-host/src/ffi.rs: the builders that C holds pointers to. A pointer is `none` for
-- null, or the position of its builder in the heap. `Box::into_raw` gives a new position, and a
-- freed one is not given again. A call with a pointer to a freed builder, which is undefined in
-- the source, changes nothing here.
use tiny_io_oi.Prelude.{
  ℕ, List, [], ◌∷◌, ◌++◌, Option, none, some, ◌≡◌, ◌≢◌, sym, ap, subst, ◌∙◌, inl, inr, Bool-cases,
  ==_iff, ◌==◌, if◌then◌else◌, arith, length, get_or, set, All, append_nil, append_assoc,
  get_or-set_self, get_or-set_ne, get_or-within, get_or-behind, get_or-last,
}
use tiny_io_oi.Vm.{VmStep}
use tiny_io_oi.Ffi.{
  ScriptBuilder, push_step, create_script_builder, script_builder_add_pwm, script_builder_add_delay,
  script_builder_add_assert,
}

abbrev pub Heap : Type 0
Heap = List (Option ScriptBuilder)

abbrev pub deref : Option ℕ → Heap → Option ScriptBuilder
deref none heap = none
deref (some p) heap = get_or heap p none

abbrev pub store : Option ℕ → Option ScriptBuilder → Heap → Heap
store none b heap = heap
store (some p) b heap = set heap p b

-- A call of C that may change a builder.
pub data Call : Type 0 where
  create : Call
  add_pwm : (builder : Option ℕ) (channel speed : ℕ) → Call
  add_delay : (builder : Option ℕ) (ticks : ℕ) → Call
  add_assert : (builder : Option ℕ) (pin expected : ℕ) → Call
  free : (builder : Option ℕ) → Call

abbrev pub script_builder_free : Option ℕ → Heap → Heap
script_builder_free builder heap = store builder none heap

abbrev pub call : Call → Heap → Heap
call Call.create heap = heap ++ create_script_builder ∷ []
call (Call.add_pwm b channel speed) heap =
    store b (script_builder_add_pwm (deref b heap) channel speed) heap
call (Call.add_delay b ticks) heap = store b (script_builder_add_delay (deref b heap) ticks) heap
call (Call.add_assert b pin expected) heap =
    store b (script_builder_add_assert (deref b heap) pin expected) heap
call (Call.free b) heap = script_builder_free b heap

abbrev pub calls : List Call → Heap → Heap
calls [] heap = heap
calls (c ∷ cs) heap = calls cs (call c heap)

-- The steps that calls with the pointer `p` add.
abbrev named : ℕ → Option ℕ → VmStep → List VmStep
named p none s = []
named p (some q) s = if q == p then s ∷ [] else []

abbrev pub adds : ℕ → Call → List VmStep
adds p (Call.add_pwm b channel speed) = named p b (VmStep.set_pwm channel speed)
adds p (Call.add_delay b ticks) = named p b (VmStep.delay ticks)
adds p (Call.add_assert b pin expected) = named p b (VmStep.assert_or_yield pin expected)
adds p _ = []

abbrev pub added : ℕ → List Call → List VmStep
added p [] = []
added p (c ∷ cs) = adds p c ++ added p cs

abbrev pub Keeps : ℕ → List Call → Type 0
Keeps p = All (λ c. c ≢ Call.free (some p))

abbrev Holds : ℕ → List VmStep → Heap → Type 0
Holds p steps heap = deref (some p) heap ≡ some (record { steps = steps })

store-Holds :
    (p q : ℕ) (b : Option ScriptBuilder) (steps : List VmStep) (heap : Heap)
    → q ≢ p
    → Holds p steps heap
    → Holds p steps (store (some q) b heap)
store-Holds p q b steps heap ne h = get_or-set_ne heap q p b none ne ∙ h

push_step-Holds :
    (p : ℕ) (b : Option ℕ) (s : VmStep) (steps : List VmStep) (heap : Heap)
    → Holds p steps heap
    → Holds p (steps ++ named p b s) (store b (push_step (deref b heap) s) heap)
push_step-Holds p none s steps heap h =
    h ∙ ap (λ xs. some (record { steps = xs })) (sym (append_nil steps))
push_step-Holds p (some q) s steps heap h = elim (Bool-cases (q == p)) [
  | inl t ↦ rw (t, (==_iff q p).0 t, h) (get_or-set_self heap p _ none (get_or-within heap p _ h))
  | inr f ↦
      rw (f, append_nil steps)
        (store-Holds p q _ steps heap (λ e. ground (arith, (==_iff q p).1 e)) h)
]

call-Holds :
    (p : ℕ) (c : Call) (steps : List VmStep) (heap : Heap)
    → c ≢ Call.free (some p)
    → Holds p steps heap
    → Holds p (steps ++ adds p c) (call c heap)
call-Holds p Call.create steps heap ne h =
    get_or-behind heap _ p none (get_or-within heap p _ h)
    ∙ h
    ∙ ap (λ xs. some (record { steps = xs })) (sym (append_nil steps))
call-Holds p (Call.add_pwm b channel speed) steps heap ne h = push_step-Holds p b _ steps heap h
call-Holds p (Call.add_delay b ticks) steps heap ne h = push_step-Holds p b _ steps heap h
call-Holds p (Call.add_assert b pin expected) steps heap ne h = push_step-Holds p b _ steps heap h
call-Holds p (Call.free none) steps heap ne h =
    h ∙ ap (λ xs. some (record { steps = xs })) (sym (append_nil steps))
call-Holds p (Call.free (some q)) steps heap ne h =
    rw (append_nil steps)
      (store-Holds p q none steps heap (λ e. ne (ap (λ n. Call.free (some n)) e)) h)

calls-Holds :
    (p : ℕ) (cs : List Call) (steps : List VmStep) (heap : Heap)
    → Keeps p cs
    → Holds p steps heap
    → Holds p (steps ++ added p cs) (calls cs heap)
calls-Holds p [] steps heap k h = rw (append_nil steps) h
calls-Holds p (c ∷ cs) steps heap k h =
    subst (λ xs. Holds p xs (calls cs (call c heap))) (append_assoc steps (adds p c) (added p cs))
      (calls-Holds p cs (steps ++ adds p c) (call c heap) k.1 (call-Holds p c steps heap k.0 h))

-- A new builder has, after any calls of which none frees it, the steps that those with its
-- pointer added, in their order.
pub calls-added :
    (heap : Heap) (cs : List Call)
    → Keeps (length heap) cs
    → deref (some (length heap)) (calls cs (call Call.create heap))
      ≡ some (record { steps = added (length heap) cs })
calls-added heap cs k =
    calls-Holds (length heap) cs [] (call Call.create heap) k
      (get_or-last heap create_script_builder none)
