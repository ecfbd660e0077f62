-- ===== src/CoreGateway/HostParser.antt =====
-- crates/tiny-io-oi-host/src/gateway.rs: the parser of the host's bridge, without what it does with a
-- frame. The listening loop of the tool parses in the same way. It stands for no code of io_oi_core,
-- whose decoder is a parameter.
use tiny_io_oi.Prelude.{
  ℕ, ◌+◌, List, [], ◌∷◌, ◌++◌, Option, none, some, Bool, true, false, ◌≡◌, refl, leb, if◌then◌else◌,
  length, take, drop,
}
use tiny_io_oi.Traits.{Network, Uart}
use tiny_io_oi.Gateway.{Archive, Reception, has_magic, announced, forward, parse, take_byte}
use tiny_io_oi.CoreGateway.{FramingDecoder, forward_if}

-- The host's parser, without what it does with a frame.
abbrev pub host_feed : List ℕ → List ℕ × Option (List ℕ)
host_feed buf =
    if leb 4 (length buf)
    then (if has_magic buf
        then (if leb (4 + announced buf) (length buf)
            then (drop (4 + announced buf) buf, some (take (announced buf) (drop 4 buf)))
            else (buf, none))
        else (drop 1 buf, none))
    else (buf, none)

-- The parser in the form of a decoder, to speak of the frames that it completes.
abbrev pub host_decoder : FramingDecoder (List ℕ)
host_decoder = record { fresh = []; feed_byte = λ buf b. host_feed (buf ++ b ∷ []) }

module _ {N U : Type 0} (network_ops : Network N) (uart_ops : Uart U) (archive : Archive) where
  pub take_byte-host_feed :
      (b : ℕ) (buf : List ℕ) (n : N)
      → let r = host_feed (buf ++ b ∷ []) in
        take_byte network_ops uart_ops archive b (record { radio = n; buffer = buf }) ≡ record {
          radio = forward_if network_ops uart_ops archive host_decoder r.1 n;
          buffer = r.0;
        }
  unfolding take_byte parse
  take_byte-host_feed b buf n =
      go (leb 4 (length whole)) (has_magic whole) (leb (4 + announced whole) (length whole))
    where
      whole : List ℕ
      whole = buf ++ b ∷ []

      go :
          (long magic full : Bool)
          → let r : List ℕ × Option (List ℕ) =
              if long
              then (if magic
                  then (if full
                      then (
                        drop (4 + announced whole) whole,
                        some (take (announced whole) (drop 4 whole)),
                      )
                      else (whole, none))
                  else (drop 1 whole, none))
              else (whole, none) in
            let q : Reception N =
              if long
              then (if magic
                  then (if full
                      then record {
                        radio =
                            forward network_ops uart_ops archive
                              (take (announced whole) (drop 4 whole))
                              n;
                        buffer = drop (4 + announced whole) whole;
                      }
                      else record { radio = n; buffer = whole })
                  else record { radio = n; buffer = drop 1 whole })
              else record { radio = n; buffer = whole } in
            ◌≡◌ {A = Reception N} q (record {
              radio = forward_if network_ops uart_ops archive host_decoder r.1 n;
              buffer = r.0;
            })
      go true true true = refl
      go true true false = refl
      go true false full = refl
      go false magic full = refl
