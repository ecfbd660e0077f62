-- ===== src/Tests/Pages.antt =====
-- Concrete inputs for the web server of the roadshow, and runs of it.
use Prim.Native.String.{String}
use tiny_io_oi.Prelude.{ℕ, List, [], ◌∷◌, ◌++◌, none, some, true, false, ◌≡◌, ◌⊎◌, refl}
use tiny_io_oi.Roadshow.{Pages, Redis, starts_with, first_line, put_request, route, handle_client}
use tiny_io_oi.Roadshow.Routes.{Triggered, route-redis}
use tiny_io_oi.ReportText.{decimal}

abbrev pages : Pages
pages = record { html_content = "<p>é</p>"; css_content = ""; js_content = "run();" }

-- A redis that keeps the bytes, and takes as many writes as it is asked to.
abbrev redis : Redis (List ℕ)
redis = record { connect = λ r. (r, none); write_all = λ r bytes. (r ++ bytes, true) }

-- The text of a client's bytes, whatever they are.
abbrev asks_for_page : List ℕ → String
asks_for_page bytes = "GET / HTTP/1.1\r\nHost: localhost\r\n\r\n"

-- The length of the page is counted in bytes.
page_reply :
    handle_client pages redis asks_for_page (some (71 ∷ [])) []
    ≡ ([], some "HTTP/1.1 200 OK\r\nContent-Type: text/html\r\nContent-Length: 9\r\n\r\n<p>é</p>")
unfolding handle_client route first_line starts_with decimal
page_reply = refl

-- An array of three bulk strings: PUT, vm:broadcast and the eight bytes.
trigger_request :
    put_request (1 ∷ 2 ∷ [])
    ≡ 42 ∷ 51 ∷ 13 ∷ 10 ∷ 36 ∷ 51 ∷ 13 ∷ 10 ∷ 80 ∷ 85 ∷ 84 ∷ 13 ∷ 10 ∷ 36 ∷ 49 ∷ 50 ∷ 13 ∷ 10 ∷ 118
      ∷ 109 ∷ 58 ∷ 98 ∷ 114 ∷ 111 ∷ 97 ∷ 100 ∷ 99 ∷ 97 ∷ 115 ∷ 116 ∷ 13 ∷ 10 ∷ 36 ∷ 50 ∷ 13 ∷ 10 ∷ 1
      ∷ 2 ∷ 13 ∷ 10 ∷ []
unfolding put_request decimal
trigger_request = refl

route-redis_example :
    let line : String = "POST /trigger HTTP/1.1" in
    let result = route pages redis line [] in
    ((starts_with line "POST /trigger " ≡ false) × (result.0 ≡ []))
    ⊎ ((starts_with line "POST /trigger " ≡ true) × Triggered pages redis [] result)
route-redis_example = route-redis pages redis "POST /trigger HTTP/1.1" []
