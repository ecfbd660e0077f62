-- ===== src/Gateway/Pending.antt =====
-- crates/tiny-io-oi-host/src/gateway.rs: the bytes that wait in the buffer of a bridge.
use tiny_io_oi.Prelude.{
  ℕ, suc, ◌+◌, ◌<◌, List, [], ◌∷◌, ◌++◌, ◌≡◌, ◌⊎◌, inl, inr, true, arith, length, length-append,
  length-drop,
}
use tiny_io_oi.Traits.{Network, Uart}
use tiny_io_oi.Gateway.{Archive, Reception, has_magic, announced, parse, take_byte}

-- Fewer bytes than a header has, or the start of a frame that is not complete.
abbrev pub IsPending : List ℕ → Type 0
IsPending buf = (length buf < 4) ⊎ ((has_magic buf ≡ true) × (length buf < 4 + announced buf))

grown-IsPending :
    (buf : List ℕ) (b : ℕ)
    → IsPending buf
    → (length buf < 4)
      ⊎ ((has_magic (buf ++ b ∷ []) ≡ true)
          × (length (buf ++ b ∷ []) < suc (4 + announced (buf ++ b ∷ []))))
grown-IsPending [] b p = inl (omega arith)
grown-IsPending (x ∷ []) b p = inl (omega arith)
grown-IsPending (x ∷ y ∷ []) b p = inl (omega arith)
grown-IsPending (x ∷ y ∷ z ∷ []) b p = inl (omega arith)
grown-IsPending (x ∷ y ∷ z ∷ w ∷ rest) b (inl h) = absurd (omega arith)
grown-IsPending (x ∷ y ∷ z ∷ w ∷ rest) b (inr h) =
    inr (h.0, omega (arith, h.1, length-append rest (b ∷ [])))

module _ {N U : Type 0} (network_ops : Network N) (uart_ops : Uart U) (archive : Archive) where
  -- A received byte leaves in the buffer either fewer than four bytes, or the start of a frame that
  -- is not complete.
  pub take_byte-IsPending :
      (b : ℕ) (r : Reception N)
      → IsPending r.buffer
      → IsPending (take_byte network_ops uart_ops archive b r).buffer
  unfolding take_byte parse
  take_byte-IsPending b r p =
      let buf = r.buffer ++ b ∷ [] in
      ground (
        arith,
        length-append r.buffer (b ∷ []),
        grown-IsPending r.buffer b p,
        length-drop (4 + announced buf) buf,
        length-drop 1 buf,
      )
