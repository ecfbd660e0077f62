-- ===== src/Tests/Lines.antt =====
-- Concrete inputs for the theorems on the gateway, the log, the clock and the protocol.
use tiny_io_oi.Prelude.{◌+◌, ◌-◌, [], ◌∷◌, ◌++◌, some, ◌≡◌, inl, refl, arith}
use tiny_io_oi.Prelude.Int.{pos}
use tiny_io_oi.Drivers.{MockNetwork, mock_network, mock_uart, mock_network_new, mock_state}
use tiny_io_oi.Gateway.{Archive, Reception, header, forward, take_byte}
use tiny_io_oi.Gateway.Pending.{IsPending, take_byte-IsPending}
use tiny_io_oi.Gateway.Delivery.{IsJunk, feed, feed-frame}
use tiny_io_oi.Log.{recover}
use tiny_io_oi.Log.Replay.{log_of, apply_all, recover-log_of}
use tiny_io_oi.Ptp.{calculate_offset_and_delay}
use tiny_io_oi.Ptp.Exchange.{calculate_offset_and_delay-ahead}
use tiny_io_oi.Tests.Boards.{byte_log}

-- An archive that is the payload itself.
abbrev bare : Archive
bare = record { check = λ frame. some frame; to_bytes = λ sender payload. some payload }

abbrev quiet_line : Reception MockNetwork
quiet_line = record { radio = mock_network_new; buffer = 1 ∷ [] }

quiet_line-IsJunk : IsJunk quiet_line.buffer
quiet_line-IsJunk = record { noise = (omega arith, tt); short = omega arith }

take_byte_run : IsPending (take_byte mock_network mock_uart bare 0xDE quiet_line).buffer
take_byte_run = take_byte-IsPending mock_network mock_uart bare 0xDE quiet_line (inl (omega arith))

feed-frame_example :
    feed mock_network mock_uart bare ((5 ∷ []) ++ (header 2 ++ 4 ∷ 6 ∷ [])) quiet_line ≡ record {
      radio = forward mock_network mock_uart bare (4 ∷ 6 ∷ []) mock_network_new;
      buffer = [];
    }
feed-frame_example =
    feed-frame mock_network mock_uart bare (5 ∷ []) (4 ∷ 6 ∷ []) quiet_line quiet_line-IsJunk
      (omega arith, tt) (omega arith)

-- Two deltas, and a third whose write was cut off.
recover-log_of_example :
    recover byte_log mock_state
      (some (log_of ((3 ∷ []) ∷ (4 ∷ []) ∷ []) (1 ∷ 0 ∷ [])))
      (record { flags = 0 })
    ≡ apply_all byte_log mock_state ((3 ∷ []) ∷ (4 ∷ []) ∷ []) (record { flags = 0 })
recover-log_of_example =
    recover-log_of byte_log mock_state (log_of ((3 ∷ []) ∷ (4 ∷ []) ∷ []) (1 ∷ 0 ∷ []))
      ((3 ∷ []) ∷ (4 ∷ []) ∷ []) (1 ∷ 0 ∷ []) (record { flags = 0 }) refl
      (omega arith, (omega arith, tt)) (inl (omega arith))

calculate_offset_and_delay-ahead_example :
    calculate_offset_and_delay 1000 (1000 + 40 + 10) 2000 (2000 + 40 - 10) ≡ (pos 10, 40)
calculate_offset_and_delay-ahead_example =
    calculate_offset_and_delay-ahead 1000 2000 10 40 (omega arith) (omega arith) (omega arith)
