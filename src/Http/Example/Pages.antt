-- ===== src/Http/Example/Pages.antt =====
-- src/http/main.cc with src/http/HttpServer.cc: what the example server sends for a whole request.
use a_tiny_network_library.Common.{
  ℕ, ◌+◌, ◌<◌, ◌^◌, ◌≡◌, refl, ap, sym, ◌∙◌, true, List, [], ◌∷◌, ◌++◌, some, if◌then◌else◌, length,
  append_assoc, append-nil, Bool-cases, inl, inr,
}
use a_tiny_network_library.Common.Text.{codes, crlf, eq_text}
use a_tiny_network_library.Common.Decimal.{decimal, digits_of}
use a_tiny_network_library.Net.Buffer.{Buffer}
use a_tiny_network_library.Net.Buffer.Layout.{IsValid, content}
use a_tiny_network_library.Http.Request.{Request, Method, Version, HeaderMap, put_header}
use a_tiny_network_library.Http.Response.{
  Response, set_status_code, set_status_message, set_content_type, add_header, set_body,
  set_close_connection, in_buf, header_pieces, pieces, concat,
}
use a_tiny_network_library.Http.Response
use a_tiny_network_library.Http.Context.RoundTrip.{print_request, IsPrintable, parsed}
use a_tiny_network_library.Http.Server.{sends, shuts_down, on_message}
use a_tiny_network_library.Http.Server.Messages.{response_of, on_message-print_request}
use a_tiny_network_library.Http.Example.{on_request, with_ok, title_page, icon, hello, not_found}

-- A response that closes the connection, as RFC 2616 prints it.
abbrev pub page : (status : List ℕ) (headers : HeaderMap) (body : List ℕ) → List ℕ
page status headers body =
    codes "HTTP/1.1 "
    ++ (status
        ++ (crlf
            ++ (codes "Connection: close"
                ++ (crlf ++ (concat (header_pieces headers) ++ (crlf ++ body))))))

abbrev content_type : List ℕ
content_type = codes "Content-Type"

abbrev server : List ℕ × List ℕ
server = (codes "Server", codes "Muduo")

-- The page of each path.
abbrev pub page_of : (order : HeaderMap → HeaderMap) (favicon now path : List ℕ) → List ℕ
page_of order favicon now path =
    if eq_text path (codes "/")
    then page (codes "200 OK") (order ((content_type, codes "text/html") ∷ server ∷ [])) (
        codes "<html><head><title>This is title</title></head><body><h1>Hello</h1>Now is "
        ++ now
        ++ codes "</body></html>")
    else (if eq_text path (codes "/favicon.ico")
        then page (codes "200 OK") (order ((content_type, codes "image/png") ∷ [])) favicon
        else (if eq_text path (codes "/hello")
            then page (codes "200 OK") (order ((content_type, codes "text/plain") ∷ server ∷ []))
                (codes "hello, world!\n")
            else page (codes "404 Not Found") (order []) []))

concat-tail :
    (ss : List (List ℕ)) (body : List ℕ)
    → concat (ss ++ (crlf ∷ body ∷ [])) ≡ concat ss ++ (crlf ++ body)
unfolding concat
concat-tail [] body = ap (◌++◌ crlf) (append-nil body)
concat-tail (s ∷ ss) body =
    ap (◌++◌ s) (concat-tail ss body) ∙ sym (append_assoc s (concat ss) (crlf ++ body))

-- The text of a response, and that the server closes the connection behind it.
record Answers (order : HeaderMap → HeaderMap) (text : List ℕ) (r : Response) : Type 0 where
  printed : concat (pieces order r) ≡ text
  closes : r.close_connection ≡ true

abbrev closing : (code : ℕ) (message : List ℕ) → HeaderMap → (body : List ℕ) → Response
closing code message hs body = record {
  headers = hs;
  status_code = code;
  status_message = message;
  close_connection = true;
  body = body;
}

abbrev in_front : (status t : List ℕ) → List ℕ
in_front status t =
    codes "HTTP/1.1 " ++ (status ++ (crlf ++ (codes "Connection: close" ++ (crlf ++ t))))

module _ (order : HeaderMap → HeaderMap) where
  ok-Answers :
      (hs : HeaderMap) (body : List ℕ)
      → Answers order (page (codes "200 OK") (order hs) body) (closing 200 (codes "OK") hs body)
  unfolding pieces in_buf decimal digits_of concat
  ok-Answers hs body = record {
    printed = ap (in_front (codes "200 OK")) (concat-tail (header_pieces (order hs)) body);
    closes = refl;
  }

  missing-Answers :
      (hs : HeaderMap) (body : List ℕ)
      → Answers order
          (page (codes "404 Not Found") (order hs) body)
          (closing 404 (codes "Not Found") hs body)
  unfolding pieces in_buf decimal digits_of concat
  missing-Answers hs body = record {
    printed = ap (in_front (codes "404 Not Found")) (concat-tail (header_pieces (order hs)) body);
    closes = refl;
  }

  -- Every path has its page, and every page closes the connection.
  on_request-Answers :
      (favicon now : List ℕ) (req : Request)
      → Answers order
          (page_of order favicon now req.path)
          (response_of (on_request favicon now) req)
  unfolding on_request title_page icon hello not_found with_ok set_body set_content_type add_header
      put_header eq_text set_status_message set_status_code set_close_connection Response.init
  on_request-Answers favicon now req = elim (Bool-cases (eq_text req.path (codes "/"))) [
    | inl title ↦ rw title (ok-Answers _ _)
    | inr more ↦ elim (Bool-cases (eq_text req.path (codes "/favicon.ico"))) [
      | inl i ↦ rw (more, i) (ok-Answers _ _)
      | inr other ↦ elim (Bool-cases (eq_text req.path (codes "/hello"))) [
        | inl h ↦ rw (more, other, h) (ok-Answers _ _)
        | inr unknown ↦ rw (more, other, unknown) (missing-Answers _ _)
      ]
    ]
  ]

-- A message that begins with a whole well-formed request, whatever its method, query and headers, is
-- answered with the page of its path, or with 404 when it has none, and the connection is shut down;
-- what follows the request stays in the buffer. The page must be shorter than 2^31 bytes.
pub on_message-page_of :
    (order : HeaderMap → HeaderMap) (favicon now : List ℕ) (time : ℕ) (m : Method)
    (path query : List ℕ) (v : Version) (hs : HeaderMap) (k : IsPrintable m path query v hs)
    (fuel : ℕ) (b : Buffer) (rest : List ℕ)
    → IsValid b
    → content b ≡ print_request m path query v hs ++ rest
    → length hs + 2 < fuel
    → length (page_of order favicon now path) < 2 ^ 31
    → (b' : Buffer) × (on_message fuel time (on_request favicon now) order b
        ≡ some (sends (page_of order favicon now path) ∷ shuts_down ∷ [], b'))
      × (content b' ≡ rest)
      × IsValid b'
on_message-page_of order favicon now time m path query v hs k fuel b rest w e h small =
    let req = parsed time m path query v hs k in
    let a : Answers order (page_of order favicon now path)
        (response_of (on_request favicon now) req) =
      unfold parsed in on_request-Answers order favicon now req in
    let (b', run, left, valid) =
      on_message-print_request (on_request favicon now) order time m path query v hs k fuel b rest w
        e h (rw a.printed small) in
    (b', run ∙ ap (λ xs. some (xs, b')) (rw (a.printed, a.closes) refl), left, valid)
