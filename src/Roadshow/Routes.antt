-- ===== src/Roadshow/Routes.antt =====
-- smart_geopin_roadshow/smart_geopin_ui/src/main.rs: which requests reach redis.
use Prim.Native.Char.{Char, code}
use Prim.Native.String.append
use Prim.Native.String.{String, [] as nil, ◌∷◌ as cons, ◌++◌ as append_text, begins}
use text.Mathlib.TextFind.{begins_cases}
use text.Mathlib.TextLemmas.{append_assoc}
use tiny_io_oi.Prelude.{
  ℕ, ◌+◌, ◌/◌, ◌%◌, List, [], ◌∷◌, ◌++◌, Option, none, some, Bool, ◌||◌, true, false, ◌≡◌, ◌≢◌, ◌⊎◌,
  inl, inr, refl, sym, ap, ◌∙◌, if_rule, ◌==◌, ltb, if◌then◌else◌, Bool-cases, arith, length,
}
use tiny_io_oi.ReportText.{decimal}
use tiny_io_oi.Roadshow.{
  Pages, Redis, starts_with, trigger_payload, put_request, written, after_connect, trigger, route,
}

starts_with-prefix :
    (line prefix : String)
    → starts_with line prefix ≡ true
    → (v : String) × (append_text prefix v ≡ line)
unfolding starts_with
starts_with-prefix line prefix e = elim (begins_cases line prefix 1 0) [
  | inl hit ↦ hit.1
  | inr miss ↦ absurd (go (begins line prefix 1 0) miss e)
]
  where
    go : (n : ℕ) → n ≡ 0 → (n == 1) ≡ true → ⊥
    go n z t = ground (arith, z, t)

first_code : String → ℕ
first_code nil = 0
first_code (cons c s) = code c

-- Texts that begin with different characters differ.
different_heads :
    (c d : Char) (s t v w : String)
    → code c ≢ code d
    → append_text (cons c s) v ≡ append_text (cons d t) w
    → ⊥
unfolding first_code
different_heads c d s t v w ne e =
    ne (ap first_code (sym (append.cons c s v) ∙ e ∙ append.cons d t w))

not_both :
    (line s : String)
    → starts_with line "POST /trigger " ≡ true
    → starts_with line (cons "G" s) ≡ false
not_both line s post = elim (Bool-cases (starts_with line (cons "G" s))) [
  | inl get ↦
      let (v, e) = starts_with-prefix line "POST /trigger " post in
      let (w, q) = starts_with-prefix line (cons "G" s) get in
      absurd (different_heads "G" "P" s "OST /trigger " w v (λ x. ground (arith, x)) (q ∙ sym e))
  | inr f ↦ f
]

-- A number below 100 in decimal, and a command in the protocol of redis: an array of strings, each
-- behind its length.
abbrev decimal_bytes : ℕ → List ℕ
decimal_bytes n = if ltb n 10 then (48 + n) ∷ [] else (48 + n / 10) ∷ (48 + n % 10) ∷ []

abbrev line_end : List ℕ
line_end = 13 ∷ 10 ∷ []

abbrev bulk_strings : List (List ℕ) → List ℕ
bulk_strings [] = []
bulk_strings (s ∷ rest) =
    (b'$' ∷ decimal_bytes (length s)) ++ line_end ++ s ++ line_end ++ bulk_strings rest

abbrev pub resp : List (List ℕ) → List ℕ
resp strings = (b'*' ∷ decimal_bytes (length strings)) ++ line_end ++ bulk_strings strings

-- PUT, vm:broadcast, and the bytecode of a MultiBandAssert on pin 3.
abbrev pub broadcast_command : List (List ℕ)
broadcast_command =
    (b'P' ∷ b'U' ∷ b'T' ∷ [])
    ∷ (b'v' ∷ b'm' ∷ b':' ∷ b'b' ∷ b'r' ∷ b'o' ∷ b'a' ∷ b'd' ∷ b'c' ∷ b'a' ∷ b's' ∷ b't' ∷ [])
    ∷ (0x83 ∷ 3 ∷ 7 ∷ 0 ∷ 0 ∷ 64 ∷ 0 ∷ 128 ∷ [])
    ∷ []

put_request-resp : put_request trigger_payload ≡ resp broadcast_command
unfolding put_request decimal
put_request-resp = refl

-- The response begins with this status.
abbrev pub HasStatus : String → String → Type 0
HasStatus status response = (rest : String) × (append_text status rest ≡ response)

module _ {R : Type 0} (pages : Pages) (redis : Redis R) where
  -- What the trigger does to redis, and what it answers: it could not connect; or it connected, and
  -- wrote the command in the protocol of redis, with or without success.
  pub data Triggered (r : R) (result : R × String) : Type 0 where
    refused :
        (e : String)
        → (redis.connect r).1 ≡ some e
        → result.0 ≡ (redis.connect r).0
        → HasStatus "HTTP/1.1 500 " result.1
        → Triggered r result
    sent :
        (redis.connect r).1 ≡ none
        → redis.write_all (redis.connect r).0 (resp broadcast_command) ≡ (result.0, true)
        → HasStatus "HTTP/1.1 200 " result.1
        → Triggered r result
    lost :
        (redis.connect r).1 ≡ none
        → redis.write_all (redis.connect r).0 (resp broadcast_command) ≡ (result.0, false)
        → HasStatus "HTTP/1.1 500 " result.1
        → Triggered r result

  trigger-Triggered : (r : R) → Triggered r (trigger pages redis r)
  trigger-Triggered r = go (redis.connect r).1 refl
    where
      refusal : String
      refusal =
          "Internal Server Error\r\nContent-Type: application/json\r\n\r\n{\"status\":\"error\", \"message\":\""

      r1 : R
      r1 = (redis.connect r).0

      sends : R × Bool
      sends = redis.write_all r1 (put_request trigger_payload)

      same : redis.write_all r1 (resp broadcast_command) ≡ sends
      same = ap (redis.write_all r1) (sym put_request-resp)

      after_write :
          (ok : Bool)
          → (redis.connect r).1 ≡ none
          → sends.1 ≡ ok
          → Triggered r (sends.0, written pages redis ok)
      after_write true connected e =
          sent connected (same ∙ ap (λ b. (sends.0, b)) e)
            ("OK\r\nContent-Type: application/json\r\n\r\n{\"status\":\"success\"}", refl)
      after_write false connected e = lost connected (same ∙ ap (λ b. (sends.0, b)) e) (
        "Internal Server Error\r\nContent-Type: application/json\r\n\r\n{\"status\":\"error\"}",
        refl,
      )

      go :
          (o : Option String)
          → (redis.connect r).1 ≡ o
          → Triggered r (after_connect pages redis r1 o)
      go none e = after_write sends.1 e refl
      go (some x) e = refused x e refl (
        append_text refusal (append_text x "\"}"),
        sym (append_assoc "HTTP/1.1 500 " refusal (append_text x "\"}")),
      )

  -- A request whose first line does not begin with that for the trigger leaves redis alone. For one
  -- that does, the server connects to redis; it answers with the status 500 if that fails, and else
  -- writes the command PUT of the eight bytes to vm:broadcast, in the protocol of redis, and answers
  -- with 200 exactly if they could be written, and else with 500.
  pub route-redis :
      (line : String) (r : R)
      → let result = route pages redis line r in
        ((starts_with line "POST /trigger " ≡ false) × (result.0 ≡ r))
        ⊎ ((starts_with line "POST /trigger " ≡ true) × Triggered r result)
  unfolding route
  route-redis line r = elim (Bool-cases (starts_with line "POST /trigger ")) [
    | inl t ↦ inr (
      t,
      rw
          (
            not_both line "ET / " t,
            not_both line "ET /index.html " t,
            not_both line "ET /style.css " t,
            not_both line "ET /app.js " t,
            t,
          )
          (trigger-Triggered r),
    )
    | inr f ↦ inl (
      f,
      rw f (
          if_rule (λ (q : R × String). q.0 ≡ r)
            (starts_with line "GET / " || starts_with line "GET /index.html ") _ _ (λ _. refl)
            (λ _.
              if_rule (λ (q : R × String). q.0 ≡ r) (starts_with line "GET /style.css ") _ _
                (λ _. refl)
                (λ _.
                  if_rule (λ (q : R × String). q.0 ≡ r) (starts_with line "GET /app.js ") _ _
                    (λ _. refl) (λ _. refl)))),
    )
  ]
