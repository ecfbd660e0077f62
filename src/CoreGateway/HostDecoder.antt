-- ===== src/CoreGateway/HostDecoder.antt =====
-- crates/tiny-io-oi-host/src/gateway.rs: the host's parser keeps what the core's bridge relies on.
use tiny_io_oi.Prelude.{
  ℕ, ◌-◌, ◌^◌, List, [], ◌∷◌, ◌++◌, Option, none, some, true, ◌≡◌, refl, sym, ap, ◌∙◌, subst, arith,
  length, append_nil, append_assoc,
}
use tiny_io_oi.Traits.{Network}
use tiny_io_oi.Drivers.{mock_uart}
use tiny_io_oi.Gateway.{Archive, Reception, header, forward}
use tiny_io_oi.Gateway.Delivery.{IsJunk, feed, feed-framed}
use tiny_io_oi.CoreGateway.{forward_if}
use tiny_io_oi.CoreGateway.Relay.{frames_of, DecoderLaws}
use tiny_io_oi.CoreGateway.HostParser.{host_feed, host_decoder, take_byte-host_feed}

-- A radio that keeps the frames it is handed, and an archive that hands over every frame whole.
abbrev recorder : Network (List (List ℕ))
recorder = record {
  broadcast = λ n opcode payload. (n ++ payload ∷ [], true);
  receive = λ n size. (n, none);
}

abbrev whole_frames : Archive
whole_frames = record { check = λ f. some (0 ∷ f); to_bytes = λ sender payload. none }

feed-frames_of :
    (bytes buf : List ℕ) (n : List (List ℕ))
    → let r = frames_of host_decoder bytes buf in
      feed recorder mock_uart whole_frames bytes (record { radio = n; buffer = buf })
      ≡ record { radio = n ++ r.1; buffer = r.0 }
unfolding forward
feed-frames_of [] buf n = ap (λ x. record { radio = x; buffer = buf }) (sym (append_nil n))
feed-frames_of (b ∷ bytes) buf n =
    let r = host_feed (buf ++ b ∷ []) in
    ap (feed recorder mock_uart whole_frames bytes)
      (take_byte-host_feed recorder mock_uart whole_frames b buf n)
    ∙ feed-frames_of bytes r.0 (forward_if recorder mock_uart whole_frames host_decoder r.1 n)
    ∙ go r.1 (frames_of host_decoder bytes r.0)
  where
    go :
        (frame : Option (List ℕ)) (rest : List ℕ × List (List ℕ))
        → let r : List ℕ × List (List ℕ) = elim frame [
          | none ↦ rest
          | some f ↦ (rest.0, f ∷ rest.1)
        ] in
          ◌≡◌ {A = Reception (List (List ℕ))}
            (record {
              radio = forward_if recorder mock_uart whole_frames host_decoder frame n ++ rest.1;
              buffer = rest.0;
            })
            (record { radio = n ++ r.1; buffer = r.0 })
    go none rest = refl
    go (some f) rest =
        ap (λ x. record { radio = x; buffer = rest.0 }) (append_assoc n (f ∷ []) rest.1)

-- The host's parser keeps what the core's bridge relies on of a decoder, for frames of fewer than 2^16
-- bytes; it is idle while fewer than four bytes of noise wait in its buffer.
pub host_decoder-DecoderLaws : DecoderLaws host_decoder (2 ^ 16 - 1) IsJunk
unfolding forward
host_decoder-DecoderLaws = record {
  fresh-IsIdle = record { noise = tt; short = omega arith };
  frame-whole = λ buf body junk short.
      let r = frames_of host_decoder (header (length body) ++ body) buf in
      let e =
        sym (feed-frames_of (header (length body) ++ body) buf [])
        ∙ feed-framed recorder mock_uart whole_frames body (record { radio = []; buffer = buf })
            junk (omega (arith, short)) in
      (
        ap (λ q. q.radio) e,
        subst IsJunk (sym (ap (λ q. q.buffer) e)) (record { noise = tt; short = omega arith }),
      );
}
