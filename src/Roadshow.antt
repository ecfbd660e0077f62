-- ===== src/Roadshow.antt =====
-- smart_geopin_roadshow/smart_geopin_ui/src/main.rs: the web server of the roadshow. The pages that
-- the build includes, `String::from_utf8_lossy` and the connection to redis are parameters. Printing
-- and the thread for each client are left out.
pub mod Routes
use Prim.Native.String.{String, [] as nil, ◌∷◌ as cons, ◌++◌ as append, len, slice, find, begins}
use Prim.Native.Char.{code}
use text.Mathlib.Text.{◌==◌ as str_eq}
use tiny_io_oi.Prelude.{
  ℕ, ◌-◌, List, [], ◌∷◌, ◌++◌, Option, none, some, Bool, true, false, ◌||◌, min, ◌==◌,
  if◌then◌else◌, length,
}
use tiny_io_oi.ReportText.{decimal}

pub record Pages : Type 0 where
  pub html_content : String
  pub css_content : String
  pub js_content : String

-- `TcpStream::connect` to redis, with its error if it fails, and `write_all`, with whether it
-- returned `Ok`. What either does to redis is in the state.
pub record Redis (R : Type 0) : Type 0 where
  pub connect : R → R × Option String
  pub write_all : R → List ℕ → R × Bool

unfoldable pub starts_with : String → String → Bool
starts_with s prefix = begins s prefix 1 0 == 1

-- `lines().next().unwrap_or("")`: what stands before the first line feed, without a carriage return.
abbrev without_cr : String → String
without_cr s =
    let before = slice s 0 (len s - 1) in
    if str_eq (slice s (len s - 1) (len s)) "\r" then before else s

unfoldable pub first_line : String → String
first_line request = without_cr (slice request 0 (min (find request "\n") (len request)))

-- `format!` with the length of a page and the page.
abbrev pub page : String → String → String
page kind content = append "HTTP/1.1 200 OK\r\nContent-Type: " (
    append kind
      (append "\r\nContent-Length: " (append (decimal (len content)) (append "\r\n\r\n" content))))

abbrev pub trigger_payload : List ℕ
trigger_payload = 0x83 ∷ 0x03 ∷ 0x07 ∷ 0x00 ∷ 0x00 ∷ 0x40 ∷ 0x00 ∷ 0x80 ∷ []

-- `into_bytes`, of an ASCII text.
abbrev into_bytes : String → List ℕ
into_bytes nil = []
into_bytes (cons c text) = code c ∷ into_bytes text

-- `full_req`.
unfoldable pub put_request : List ℕ → List ℕ
put_request payload =
    into_bytes (
      append "*3\r\n$3\r\nPUT\r\n$12\r\nvm:broadcast\r\n$"
        (append (decimal (length payload)) "\r\n"))
    ++ payload
    ++ into_bytes "\r\n"

module _ {R : Type 0} (pages : Pages) (redis : Redis R) where
  -- The answer to a command that was written, or not.
  abbrev pub written : Bool → String
  written true = "HTTP/1.1 200 OK\r\nContent-Type: application/json\r\n\r\n{\"status\":\"success\"}"
  written false =
      "HTTP/1.1 500 Internal Server Error\r\nContent-Type: application/json\r\n\r\n{\"status\":\"error\"}"

  -- The branch of `POST /trigger `, after a connection, and after an error of it: redis, and the
  -- answer.
  abbrev pub after_connect : R → Option String → R × String
  after_connect r (some e) = (
    r,
    append
        "HTTP/1.1 500 Internal Server Error\r\nContent-Type: application/json\r\n\r\n{\"status\":\"error\", \"message\":\""
        (append e "\"}"),
  )
  after_connect r none =
      let (r1, ok) = redis.write_all r (put_request trigger_payload) in (r1, written ok)

  abbrev pub trigger : R → R × String
  trigger r = let (r1, error) = redis.connect r in after_connect r1 error

  -- The chain of tests on the first line.
  unfoldable pub route : String → R → R × String
  unfolding starts_with
  route line r =
      if starts_with line "GET / " || starts_with line "GET /index.html "
      then (r, page "text/html" pages.html_content)
      else (if starts_with line "GET /style.css "
          then (r, page "text/css" pages.css_content)
          else (if starts_with line "GET /app.js "
              then (r, page "application/javascript" pages.js_content)
              else (if starts_with line "POST /trigger "
                  then trigger r
                  else (r, "HTTP/1.1 404 Not Found\r\nContent-Length: 9\r\n\r\nNot Found"))))

  -- A client whose stream gives bytes, or an error. Nothing is answered to no bytes.
  unfoldable pub handle_client : (List ℕ → String) → Option (List ℕ) → R → R × Option String
  unfolding route first_line
  handle_client from_utf8_lossy none r = (r, none)
  handle_client from_utf8_lossy (some []) r = (r, none)
  handle_client from_utf8_lossy (some (b ∷ bytes)) r =
      let (r1, response) = route (first_line (from_utf8_lossy (b ∷ bytes))) r in (r1, some response)
