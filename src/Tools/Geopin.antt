-- ===== src/Tools/Geopin.antt =====
-- crates/tiny-io-oi-tools/src/bin/verify_geopin.rs: what a gateway makes of the bytes of the tool, and
-- what the tool makes of the bytes of a gateway.
use tiny_io_oi.Prelude.{
  ℕ, ◌+◌, List, [], ◌∷◌, ◌++◌, Option, none, some, Bool, true, false, ◌||◌, ◌≡◌, refl, ap, ◌∙◌, leb,
  if◌then◌else◌, length, take, drop,
}
use tiny_io_oi.Gateway.{Archive, has_magic, announced}
use tiny_io_oi.CoreGateway.Relay.{frames_of}
use tiny_io_oi.CoreGateway.HostParser.{host_feed, host_decoder}
use tiny_io_oi.Tools.{is_report, Listening, examine, listen}

module _ (archive : Archive) where
  -- Is one of the frames a report?
  abbrev pub reported : List (List ℕ) → Bool
  reported [] = false
  reported (f ∷ fs) = is_report (archive.check f) || reported fs

  -- The bytes of the reads that gave one.
  abbrev pub bytes_of : List (Option ℕ) → List ℕ
  bytes_of [] = []
  bytes_of (none ∷ reads) = bytes_of reads
  bytes_of (some b ∷ reads) = b ∷ bytes_of reads

  abbrev follows : Option (List ℕ) → Bool → Bool
  follows none later = later
  follows (some f) later = is_report (archive.check f) || later

  examine-host_feed :
      (buf : List ℕ) (later : List ℕ → Listening)
      → let r = examine archive buf in
        let q = host_feed buf in
        let found : Listening = elim r.exception_found [ true ↦ r | false ↦ later r.rx_buf ] in
        found.exception_found ≡ follows q.1 (later q.0).exception_found
  examine-host_feed buf later =
      go (leb 4 (length buf)) (has_magic buf) (leb (4 + announced buf) (length buf))
        (is_report (archive.check (take (announced buf) (drop 4 buf)))) refl
    where
      go :
          (long magic full report : Bool)
          → is_report (archive.check (take (announced buf) (drop 4 buf))) ≡ report
          → let r : Listening =
              if long
              then (if magic
                  then (if full
                      then (if report
                          then record { exception_found = true; rx_buf = buf }
                          else record {
                            exception_found = false;
                            rx_buf = drop (4 + announced buf) buf;
                          })
                      else record { exception_found = false; rx_buf = buf })
                  else record { exception_found = false; rx_buf = drop 1 buf })
              else record { exception_found = false; rx_buf = buf } in
            let q : List ℕ × Option (List ℕ) =
              if long
              then (if magic
                  then (if full
                      then (drop (4 + announced buf) buf, some (take (announced buf) (drop 4 buf)))
                      else (buf, none))
                  else (drop 1 buf, none))
              else (buf, none) in
            let found : Listening = elim r.exception_found [ true ↦ r | false ↦ later r.rx_buf ] in
            found.exception_found ≡ follows q.1 (later q.0).exception_found
      go true true true true e = rw e refl
      go true true true false e = rw e refl
      go true true false report e = refl
      go true false full report e = refl
      go false magic full report e = refl

  -- The tool finds a report, whatever reads fail in between, exactly if one of the frames that the
  -- host's parser takes out of the bytes that were read is an exception.
  pub listen-reported :
      (reads : List (Option ℕ)) (buf : List ℕ)
      → (listen archive reads buf).exception_found
        ≡ reported (frames_of host_decoder (bytes_of reads) buf).1
  unfolding listen
  listen-reported [] buf = refl
  listen-reported (none ∷ reads) buf = listen-reported reads buf
  listen-reported (some b ∷ reads) buf =
      let q = host_feed (buf ++ b ∷ []) in
      examine-host_feed (buf ++ b ∷ []) (λ rest. listen archive reads rest)
      ∙ ap (follows q.1) (listen-reported reads q.0)
      ∙ go q.1 (frames_of host_decoder (bytes_of reads) q.0)
    where
      go :
          (frame : Option (List ℕ)) (rest : List ℕ × List (List ℕ))
          → let r : List ℕ × List (List ℕ) = elim frame [
            | none ↦ rest
            | some f ↦ (rest.0, f ∷ rest.1)
          ] in
            follows frame (reported rest.1) ≡ reported r.1
      go none rest = refl
      go (some f) rest = refl
