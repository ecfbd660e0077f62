-- ===== src/CoreGateway/Relay.antt =====
-- crates/tiny-io-oi/src/gateway.rs: what a bridge broadcasts of the frames on its line.
use mathlib.Core.Path.{ap₂}
use tiny_io_oi.Prelude.{
  ℕ, zero, suc, ◌≤◌, List, [], ◌∷◌, ◌++◌, Option, none, some, ◌≡◌, refl, sym, ap, ◌∙◌, subst, arith,
  length, All, map,
}
use tiny_io_oi.Protocol.{NodeId, OpCode, opcode_byte}
use tiny_io_oi.Protocol.Codes.{opcode-round_trip}
use tiny_io_oi.Traits.{Network}
use tiny_io_oi.Drivers.{MockUart, mock_uart}
use tiny_io_oi.Gateway.{Archive, header, forward, forward_payload}
use tiny_io_oi.CoreGateway.{FramingDecoder, CoreBridge, forward_if, receive_byte, read_uart}

-- The frames that a decoder completes over some bytes, in order, and its state after them.
abbrev pub frames_of : {D : Type 0} → FramingDecoder D → List ℕ → D → D × List (List ℕ)
frames_of ops [] s = (s, [])
frames_of ops (b ∷ bytes) s =
    let (s', frame) = ops.feed_byte s b in
    let rest = frames_of ops bytes s' in elim frame [ none ↦ rest | some f ↦ (rest.0, f ∷ rest.1) ]

-- What the bridge relies on of the decoder: from an idle state, the bytes of one frame of at most
-- `capacity` bytes complete that frame, and lead to an idle state.
pub record DecoderLaws {D : Type 0} (ops : FramingDecoder D) (capacity : ℕ) (IsIdle : D → Type 0)
    : Type 0 where
  pub fresh-IsIdle : IsIdle ops.fresh
  pub frame-whole :
      (s : D) (body : List ℕ)
      → IsIdle s
      → length body ≤ capacity
      → let r = frames_of ops (header (length body) ++ body) s in (r.1 ≡ body ∷ []) × IsIdle r.0

-- A message on the line: what the archive wrote for it.
pub record Message : Type 0 where
  pub sender : NodeId
  pub opcode : OpCode
  pub payload : List ℕ
  pub serialized : List ℕ

-- The archive wrote the message, in at most the decoder's capacity, and reads it back.
pub record IsArchived (archive : Archive) (capacity : ℕ) (m : Message) : Type 0 where
  pub written : archive.to_bytes m.sender (opcode_byte m.opcode ∷ m.payload) ≡ some m.serialized
  pub read : archive.check m.serialized ≡ some (opcode_byte m.opcode ∷ m.payload)
  pub short : length m.serialized ≤ capacity

-- The bytes of messages on the line, one after the other.
abbrev pub line_of : List Message → List ℕ
line_of [] = []
line_of (m ∷ ms) = (header (length m.serialized) ++ m.serialized) ++ line_of ms

frames_of-append :
    {D : Type 0} (ops : FramingDecoder D) (xs ys : List ℕ) (s : D)
    → let r = frames_of ops xs s in
      let q = frames_of ops ys r.0 in frames_of ops (xs ++ ys) s ≡ (q.0, r.1 ++ q.1)
frames_of-append ops [] ys s = refl
frames_of-append {D} ops (x ∷ xs) ys s =
    let (s', frame) = ops.feed_byte s x in
    ap
      (λ rest.
        let r : D × List (List ℕ) = elim frame [ none ↦ rest | some f ↦ (rest.0, f ∷ rest.1) ] in r)
      (frames_of-append ops xs ys s')
    ∙ go frame (frames_of ops xs s')
  where
    go :
        (frame : Option (List ℕ)) (q : D × List (List ℕ))
        → let r : D × List (List ℕ) = elim frame [ none ↦ q | some f ↦ (q.0, f ∷ q.1) ] in
          let later = frames_of ops ys q.0 in
          let whole : D × List (List ℕ) = elim frame [
            | none ↦ (later.0, q.1 ++ later.1)
            | some f ↦ (later.0, f ∷ (q.1 ++ later.1))
          ] in
          let last = frames_of ops ys r.0 in whole ≡ (last.0, r.1 ++ last.1)
    go none q = refl
    go (some f) q = refl

-- The decoder completes the frames of the messages on a line, in their order.
pub frames_of-line_of :
    {D : Type 0} (archive : Archive) (ops : FramingDecoder D) (capacity : ℕ) (IsIdle : D → Type 0)
    (ms : List Message) (s : D)
    → DecoderLaws ops capacity IsIdle
    → IsIdle s
    → All (IsArchived archive capacity) ms
    → let r = frames_of ops (line_of ms) s in (r.1 ≡ map (λ m. m.serialized) ms) × IsIdle r.0
frames_of-line_of archive ops capacity IsIdle [] s laws idle archived = (refl, idle)
frames_of-line_of archive ops capacity IsIdle (m ∷ ms) s laws idle archived =
    let bytes = header (length m.serialized) ++ m.serialized in
    let r = frames_of ops bytes s in
    let whole = laws.frame-whole s m.serialized idle archived.0.short in
    let later = frames_of-line_of archive ops capacity IsIdle ms r.0 laws whole.1 archived.1 in
    subst (λ x. (x.1 ≡ m.serialized ∷ map (λ m. m.serialized) ms) × IsIdle x.0)
      (sym (frames_of-append ops bytes (line_of ms) s)) (ap₂ ◌++◌ whole.0 later.0, later.1)

abbrev pub broadcast_all : {N : Type 0} → Network N → List Message → N → N
broadcast_all network_ops [] n = n
broadcast_all network_ops (m ∷ ms) n =
    broadcast_all network_ops ms (network_ops.broadcast n m.opcode m.payload).0

-- A bridge on which these bytes wait.
abbrev pub waiting : {N D : Type 0} → List ℕ → List ℕ → D → N → CoreBridge N MockUart D
waiting bytes written s n = record {
  network = n;
  uart = record { incoming = bytes; written = written };
  decoder = s;
}

module _ {N D : Type 0} (network_ops : Network N) (archive : Archive)
    (decoder_ops : FramingDecoder D) (capacity : ℕ) (IsIdle : D → Type 0)
    (laws : DecoderLaws decoder_ops capacity IsIdle) where
  abbrev forward_all : List (List ℕ) → N → N
  forward_all [] n = n
  forward_all (f ∷ fs) n = forward_all fs (forward network_ops mock_uart archive f n)

  forward_if-frames :
      (frame : Option (List ℕ)) (rest : D × List (List ℕ)) (n : N)
      → let r : D × List (List ℕ) = elim frame [ none ↦ rest | some f ↦ (rest.0, f ∷ rest.1) ] in
        (forward_all rest.1 (forward_if network_ops mock_uart archive decoder_ops frame n)
          ≡ forward_all r.1 n)
        × (rest.0 ≡ r.0)
  forward_if-frames none rest n = (refl, refl)
  forward_if-frames (some f) rest n = (refl, refl)

  -- A bridge that reads the bytes forwards the frames that its decoder completes.
  read_uart-frames :
      (bytes written : List ℕ) (fuel : ℕ) (s : D) (n : N)
      → length bytes ≤ fuel
      → let r = frames_of decoder_ops bytes s in
        read_uart network_ops mock_uart archive decoder_ops fuel (waiting bytes written s n)
        ≡ waiting [] written r.0 (forward_all r.1 n)
  unfolding read_uart receive_byte
  read_uart-frames [] written zero s n le = refl
  read_uart-frames [] written (suc fuel) s n le = refl
  read_uart-frames (b ∷ bytes) written zero s n le = absurd (omega arith)
  read_uart-frames (b ∷ bytes) written (suc fuel) s n le =
      let (s', frame) = decoder_ops.feed_byte s b in
      let same = forward_if-frames frame (frames_of decoder_ops bytes s') n in
      read_uart-frames bytes written fuel s'
        (forward_if network_ops mock_uart archive decoder_ops frame n) (omega (arith, le))
      ∙ ap₂ (waiting [] written) same.1 same.0

  forward-broadcast :
      (m : Message) (n : N)
      → IsArchived archive capacity m
      → forward network_ops mock_uart archive m.serialized n
        ≡ (network_ops.broadcast n m.opcode m.payload).0
  unfolding forward
  forward-broadcast m n archived =
      ap hand_over archived.read
      ∙ ap (λ o. (network_ops.broadcast n o m.payload).0) (opcode-round_trip.0 m.opcode)
    where
      hand_over : Option (List ℕ) → N
      hand_over o = elim o [ none ↦ n | some p ↦ forward_payload network_ops mock_uart archive p n ]

  forward_all-broadcast_all :
      (ms : List Message) (n : N)
      → All (IsArchived archive capacity) ms
      → forward_all (map (λ m. m.serialized) ms) n ≡ broadcast_all network_ops ms n
  forward_all-broadcast_all [] n archived = refl
  forward_all-broadcast_all (m ∷ ms) n archived =
      ap (forward_all (map (λ m. m.serialized) ms)) (forward-broadcast m n archived.0)
      ∙ forward_all-broadcast_all ms (network_ops.broadcast n m.opcode m.payload).0 archived.1

  -- A bridge with an idle decoder that reads the bytes of any number of messages from its line, each
  -- archived within the capacity of the decoder, broadcasts each of them once, in their order, with
  -- its opcode and payload; the line is then empty and the decoder idle again.
  pub read_uart-relays :
      (ms : List Message) (written : List ℕ) (fuel : ℕ) (s : D) (n : N)
      → IsIdle s
      → All (IsArchived archive capacity) ms
      → length (line_of ms) ≤ fuel
      → (s' : D) × IsIdle s'
        × (read_uart network_ops mock_uart archive decoder_ops fuel
              (waiting (line_of ms) written s n)
            ≡ waiting [] written s' (broadcast_all network_ops ms n))
  read_uart-relays ms written fuel s n idle archived enough =
      let r = frames_of decoder_ops (line_of ms) s in
      let line = frames_of-line_of archive decoder_ops capacity IsIdle ms s laws idle archived in
      (
        r.0,
        line.1,
        read_uart-frames (line_of ms) written fuel s n enough
            ∙ ap (λ fs. waiting [] written r.0 (forward_all fs n)) line.0
            ∙ ap (waiting [] written r.0) (forward_all-broadcast_all ms n archived),
      )
