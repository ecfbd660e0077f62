-- ===== src/Node/Tick/Signing.antt =====
-- crates/tiny-io-oi/src/node.rs: the detection of a leader that signs two messages.
use tiny_io_oi.Prelude.{
  ℕ, List, Option, none, some, Bool, true, ◌&&◌, ◌≡◌, ◌≢◌, ◌↔◌, ap, arith, same_iff,
}
use tiny_io_oi.Protocol.{NodeId, OpCode}
use tiny_io_oi.Protocol.Codes.{same_opcode_iff}
use tiny_io_oi.Node.{Platform, Node, get_leader}
use tiny_io_oi.Node.Handlers.{is_id}
use tiny_io_oi.Node.Tick.{is_signed, conflicts, double_signs}

pub is_id_iff : (o : Option NodeId) (id : NodeId) → (is_id o id ≡ true) ↔ (o ≡ some id)
is_id_iff none id = ground arith
is_id_iff (some k) id = (λ h. ap some ((same_iff k id).0 h), λ e. ground (arith, (same_iff k id).1))

-- The last message had the same opcode, and another payload.
abbrev pub Clashes : Option (OpCode × List ℕ) → OpCode → List ℕ → Type 0
Clashes last opcode payload = (prev : List ℕ) × (last ≡ some (opcode, prev)) × (prev ≢ payload)

some_pair :
    {o o' : OpCode} {q q' : List ℕ}
    → ◌≡◌ {A = Option (OpCode × List ℕ)} (some (o, q)) (some (o', q'))
    → (o ≡ o') × (q ≡ q')
some_pair e = (cc, cc)

conflicts_iff :
    (last : Option (OpCode × List ℕ)) (opcode : OpCode) (payload : List ℕ)
    → (conflicts last opcode payload ≡ true) ↔ Clashes last opcode payload
conflicts_iff none opcode payload = (λ h. cc, λ h. cc)
conflicts_iff (some (o, prev)) opcode payload = (
  λ h. (
    prev,
    ap (λ o'. some (o', prev)) ((same_opcode_iff o opcode).0 (ground arith)),
    λ e. ground (arith, (same_iff prev payload).1 e),
  ),
  λ h. ground (
    arith,
    (same_opcode_iff o opcode).1 (some_pair h.1).0,
    (same_iff prev payload).0,
    (some_pair h.1).1,
    h.2,
  ),
)

and_left : (a b : Bool) → (a && b) ≡ true → a ≡ true
and_left a b h = ground arith

and_right : (a b : Bool) → (a && b) ≡ true → b ≡ true
and_right a b h = ground arith

module _ (platform : Platform) where
  open platform use {board}

  -- A message is a double sign if and only if it comes from the leader, with an opcode of state
  -- updates, scripts or tasks, after one with the same opcode and another payload.
  pub double_signs_iff :
      (sender : NodeId) (opcode : OpCode) (payload : List ℕ) (n : Node platform)
      → (double_signs platform sender opcode payload n ≡ true) ↔ (
          (get_leader platform n ≡ some sender)
          × (is_signed opcode ≡ true)
          × Clashes n.last_leader_msg opcode payload)
  unfolding double_signs
  double_signs_iff sender opcode payload n =
      let l = is_id_iff (get_leader platform n) sender in
      let c = conflicts_iff n.last_leader_msg opcode payload in
      (
        λ h. (
          l.0 (and_left _ _ (and_left _ _ h)),
          and_right (is_id (get_leader platform n) sender) _ (and_left _ _ h),
          c.0 (and_right (is_id (get_leader platform n) sender && is_signed opcode) _ h),
        ),
        λ h. ground (arith, l.1 h.0, h.1, c.1 h.2),
      )
