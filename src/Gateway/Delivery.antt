-- ===== src/Gateway/Delivery.antt =====
-- crates/tiny-io-oi-host/src/gateway.rs: the frames that a bridge takes out of a stream of bytes.
use tiny_io_oi.Prelude.{
  take_all, drop_all, append_assoc, ℕ, suc, ◌+◌, ◌/◌, ◌%◌, ◌^◌, ◌<◌, List, [], ◌∷◌, ◌++◌, Option,
  none, some, ◌≡◌, ◌≢◌, ◌∙◌, sym, subst, refl, ap, true, arith, leb, length, length-append, drop,
  All,
}
use tiny_io_oi.Prelude.Words.{from_be16}
use tiny_io_oi.Protocol.{NodeId, OpCode, opcode_byte}
use tiny_io_oi.Protocol.Codes.{opcode-round_trip}
use tiny_io_oi.Traits.{Network, Uart}
use tiny_io_oi.Gateway.{Archive, Reception, header, forward, forward_payload, parse, take_byte}

-- No byte is the first one of the magic prefix.
abbrev pub IsNoise : List ℕ → Type 0
IsNoise = All (λ b. b ≢ 0xDE)

-- Noise that waits in the buffer.
pub record IsJunk (buf : List ℕ) : Type 0 where
  pub noise : IsNoise buf
  pub short : length buf < 4

module _ {N U : Type 0} (network_ops : Network N) (uart_ops : Uart U) (archive : Archive) where
  abbrev byte : ℕ → Reception N → Reception N
  byte = take_byte network_ops uart_ops archive

  -- The reading loop on the bytes that the line holds.
  abbrev pub feed : List ℕ → Reception N → Reception N
  feed [] r = r
  feed (b ∷ bs) r = feed bs (take_byte network_ops uart_ops archive b r)

  feed-append : (xs ys : List ℕ) (r : Reception N) → feed (xs ++ ys) r ≡ feed ys (feed xs r)
  feed-append [] ys r = refl
  feed-append (x ∷ xs) ys r = feed-append xs ys (take_byte network_ops uart_ops archive x r)

  parse-whole :
      (h l : ℕ) (body : List ℕ) (network : N)
      → from_be16 h l ≡ length body
      → parse network_ops uart_ops archive (0xDE ∷ 0xAD ∷ h ∷ l ∷ body) network
        ≡ record { radio = forward network_ops uart_ops archive body network; buffer = [] }
  unfolding parse
  parse-whole h l body network e = rw (e, enough, long, take_all body, rest) refl
    where
      long : leb 4 (length (0xDE ∷ 0xAD ∷ h ∷ l ∷ body)) ≡ true
      long = ground arith

      four : 4 + length body ≡ suc (suc (suc (suc (length body))))
      four = omega arith

      rest : drop (4 + length body) (0xDE ∷ 0xAD ∷ h ∷ l ∷ body) ≡ []
      rest = ap (λ n. drop n (0xDE ∷ 0xAD ∷ h ∷ l ∷ body)) four ∙ drop_all body

      enough : leb (4 + length body) (length (0xDE ∷ 0xAD ∷ h ∷ l ∷ body)) ≡ true
      enough = ground arith

  parse-part :
      (h l : ℕ) (body : List ℕ) (network : N)
      → length body < from_be16 h l
      → parse network_ops uart_ops archive (0xDE ∷ 0xAD ∷ h ∷ l ∷ body) network
        ≡ record { radio = network; buffer = 0xDE ∷ 0xAD ∷ h ∷ l ∷ body }
  unfolding parse
  parse-part h l body network lt = ground arith

  parse-skip :
      (x y z w : ℕ) (network : N)
      → x ≢ 0xDE
      → parse network_ops uart_ops archive (x ∷ y ∷ z ∷ w ∷ []) network
        ≡ record { radio = network; buffer = y ∷ z ∷ w ∷ [] }
  unfolding parse
  parse-skip x y z w network ne = ground arith

  feed-body :
      (h l : ℕ) (got body : List ℕ) (b : ℕ) (network : N)
      → from_be16 h l ≡ length got + suc (length body)
      → feed (b ∷ body) (record { radio = network; buffer = 0xDE ∷ 0xAD ∷ h ∷ l ∷ got }) ≡ record {
        radio = forward network_ops uart_ops archive (got ++ b ∷ body) network;
        buffer = [];
      }
  unfolding take_byte
  feed-body h l got [] b network e =
      parse-whole h l (got ++ b ∷ []) network (omega (arith, e, length-append got (b ∷ [])))
  feed-body h l got (c ∷ body) b network e =
      ap (feed (c ∷ body))
        (parse-part h l (got ++ b ∷ []) network (omega (arith, e, length-append got (b ∷ []))))
      ∙ feed-body h l (got ++ b ∷ []) body c network (omega (arith, e, length-append got (b ∷ [])))
      ∙ ap
          (λ whole. record {
            radio = forward network_ops uart_ops archive whole network;
            buffer = [];
          })
          (append_assoc got (b ∷ []) (c ∷ body))

  -- A header after noise: what is left in the buffer is the header.
  feed-header :
      (h l : ℕ) (buf : List ℕ) (network : N)
      → IsJunk buf
      → feed (0xDE ∷ 0xAD ∷ h ∷ l ∷ []) (record { radio = network; buffer = buf })
        ≡ parse network_ops uart_ops archive (0xDE ∷ 0xAD ∷ h ∷ l ∷ []) network
  unfolding take_byte parse
  feed-header h l [] network j = refl
  feed-header h l (x ∷ []) network j = ap (byte l) (parse-skip x 0xDE 0xAD h network j.noise.0)
  feed-header h l (x ∷ y ∷ []) network j =
      ap (λ r. byte l (byte h r)) (parse-skip x y 0xDE 0xAD network j.noise.0)
      ∙ ap (byte l) (parse-skip y 0xDE 0xAD h network j.noise.1.0)
  feed-header h l (x ∷ y ∷ z ∷ []) network j =
      ap (λ r. byte l (byte h (byte 0xAD r))) (parse-skip x y z 0xDE network j.noise.0)
      ∙ ap (λ r. byte l (byte h r)) (parse-skip y z 0xDE 0xAD network j.noise.1.0)
      ∙ ap (byte l) (parse-skip z 0xDE 0xAD h network j.noise.1.1.0)
  feed-header h l (x ∷ y ∷ z ∷ w ∷ rest) network j = absurd (omega (arith, j.short))

  -- Noise that came in has not touched the radio.
  abbrev Ignores : N → Reception N → Type 0
  Ignores network r = (r.radio ≡ network) × IsJunk r.buffer

  take_byte-IsJunk :
      (b : ℕ) (r : Reception N)
      → IsJunk r.buffer
      → b ≢ 0xDE
      → Ignores r.radio (take_byte network_ops uart_ops archive b r)
  unfolding take_byte parse
  take_byte-IsJunk b r j ne = go r.buffer j
    where
      go :
          (buf : List ℕ)
          → IsJunk buf
          → Ignores r.radio (parse network_ops uart_ops archive (buf ++ b ∷ []) r.radio)
      go [] j = (refl, record { noise = (ne, tt); short = omega arith })
      go (x ∷ []) j = (refl, record { noise = (j.noise.0, (ne, tt)); short = omega arith })
      go (x ∷ y ∷ []) j =
          (refl, record { noise = (j.noise.0, (j.noise.1.0, (ne, tt))); short = omega arith })
      go (x ∷ y ∷ z ∷ []) j =
          subst (Ignores r.radio) (sym (parse-skip x y z b r.radio j.noise.0))
            (refl, record { noise = (j.noise.1.0, (j.noise.1.1.0, (ne, tt))); short = omega arith })
      go (x ∷ y ∷ z ∷ w ∷ rest) j = absurd (omega (arith, j.short))

  feed-IsJunk :
      (noise : List ℕ) (r : Reception N)
      → IsJunk r.buffer
      → IsNoise noise
      → Ignores r.radio (feed noise r)
  feed-IsJunk [] r j ne = (refl, j)
  feed-IsJunk (b ∷ noise) r j ne =
      let now = take_byte-IsJunk b r j ne.0 in
      let later = feed-IsJunk noise (byte b r) now.1 ne.1 in (later.0 ∙ now.0, later.1)

  pub feed-framed :
      (body : List ℕ) (r : Reception N)
      → IsJunk r.buffer
      → length body < 2 ^ 16
      → feed (header (length body) ++ body) r
        ≡ record { radio = forward network_ops uart_ops archive body r.radio; buffer = [] }
  feed-framed body r j short =
      let h = length body % 2 ^ 16 / 256 in
      let l = length body % 2 ^ 16 % 256 in
      ap (feed body) (feed-header h l r.buffer r.radio j) ∙ go h l body (omega (arith, short))
    where
      go :
          (h l : ℕ) (body : List ℕ)
          → from_be16 h l ≡ length body
          → feed body (parse network_ops uart_ops archive (0xDE ∷ 0xAD ∷ h ∷ l ∷ []) r.radio)
            ≡ record { radio = forward network_ops uart_ops archive body r.radio; buffer = [] }
      go h l [] e = parse-whole h l [] r.radio e
      go h l (b ∷ body) e =
          ap (feed (b ∷ body)) (parse-part h l [] r.radio (omega (arith, e)))
          ∙ feed-body h l [] body b r.radio (omega (arith, e))

  -- From a buffer of fewer than four bytes of noise, a frame of fewer than 2^16 bytes that comes
  -- after any more noise, all of it without the byte 0xDE, is handed over as a whole, once, and leaves the buffer empty.
  pub feed-frame :
      (noise body : List ℕ) (r : Reception N)
      → IsJunk r.buffer
      → IsNoise noise
      → length body < 2 ^ 16
      → feed (noise ++ (header (length body) ++ body)) r
        ≡ record { radio = forward network_ops uart_ops archive body r.radio; buffer = [] }
  feed-frame noise body r j ne short =
      let before = feed-IsJunk noise r j ne in
      feed-append noise (header (length body) ++ body) r
      ∙ feed-framed body (feed noise r) before.1 short
      ∙ ap (λ n. record { radio = forward network_ops uart_ops archive body n; buffer = [] })
          before.0

  -- The bytes that one bridge writes for a radio message make another bridge, with fewer than four
  -- bytes of noise in its buffer, broadcast the same opcode and payload, where the archive wrote
  -- fewer than 2^16 bytes and reads them back.
  pub feed-message :
      (sender : NodeId) (opcode : OpCode) (payload serialized : List ℕ) (r : Reception N)
      → archive.to_bytes sender (opcode_byte opcode ∷ payload) ≡ some serialized
      → archive.check serialized ≡ some (opcode_byte opcode ∷ payload)
      → length serialized < 2 ^ 16
      → IsJunk r.buffer
      → (feed (header (length serialized) ++ serialized) r).radio
        ≡ (network_ops.broadcast r.radio opcode payload).0
  unfolding forward
  feed-message sender opcode payload serialized r written read short j =
      ap (λ q. q.radio) (feed-framed serialized r j short)
      ∙ ap (hand_over) read
      ∙ ap (λ o. (network_ops.broadcast r.radio o payload).0) (opcode-round_trip.0 opcode)
    where
      hand_over : Option (List ℕ) → N
      hand_over o = elim o [
        | none ↦ r.radio
        | some p ↦ forward_payload network_ops uart_ops archive p r.radio
      ]
