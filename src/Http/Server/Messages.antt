-- ===== src/Http/Server/Messages.antt =====
-- src/http/HttpServer.cc: `onMessage` on whole and on divided requests.
use a_tiny_network_library.Common.{
  Bool, true, false, refl, if◌then◌else◌, ℕ, ◌+◌, ◌<◌, ◌^◌, ◌≡◌, ap, ◌∙◌, List, [], ◌∷◌, ◌++◌, none,
  some, arith, length,
}
use a_tiny_network_library.Net.Buffer
use a_tiny_network_library.Net.Buffer.{
  Buffer, max_size, initial_size, find_crlf, get_buffer_all_as_string,
}
use a_tiny_network_library.Net.Buffer.Layout.{
  IsValid, content, init-IsValid, content-init, length-init, string_at-readable,
}
use a_tiny_network_library.Http.Request.{Request, Method, Version, HeaderMap}
use a_tiny_network_library.Http.Response.{Response, pieces, concat, append_to_buffer-concat}
use a_tiny_network_library.Http.Response
use a_tiny_network_library.Http.Context
use a_tiny_network_library.Http.Context.{got_all?, parse_request, Parse, got_all}
use a_tiny_network_library.Http.Context.Loop.{parse_request_incomplete, reads_line}
use a_tiny_network_library.Http.Context.RoundTrip.{
  print_request, IsPrintable, parsed, parse_request-print_request,
}
use a_tiny_network_library.Http.Server.{
  Action, sends, shuts_down, HttpCallback, shutdown_if, response_to, on_request, bad_request,
  refuse_unless, serve_if, on_message,
}

-- What the callback makes of the response, which is made to close the connection, and its text.
abbrev pub response_of : HttpCallback → Request → Response
response_of callback req = callback req (Response.init true)

abbrev pub response_text : HttpCallback → (HeaderMap → HeaderMap) → Request → List ℕ
response_text callback order req = concat (pieces order (response_of callback req))

-- The text, and a shutdown if the response says so.
abbrev pub answers : List ℕ → Bool → List Action
answers text close = sends text ∷ (if close then shuts_down ∷ [] else [])

shutdown_if-eq : (close : Bool) → shutdown_if close ≡ (if close then shuts_down ∷ [] else [])
unfolding shutdown_if
shutdown_if-eq true = refl
shutdown_if-eq false = refl

response_to-eq :
    (callback : HttpCallback) (req : Request) → response_to callback req ≡ response_of callback req
unfolding response_to
response_to-eq callback req = refl

-- `onRequest` sends the whole text of the callback's response in one piece, and shuts the
-- connection down exactly if the response says so.
pub on_request-response_text :
    (callback : HttpCallback) (order : HeaderMap → HeaderMap) (req : Request)
    → length (response_text callback order req) < 2 ^ 31
    → on_request callback order req
      ≡ some
          (answers (response_text callback order req) (response_of callback req).close_connection)
unfolding on_request get_buffer_all_as_string
on_request-response_text callback order req h =
    let v : IsValid (Buffer.init initial_size) = init-IsValid initial_size (omega arith) in
    let (b, e, w, c) =
      append_to_buffer-concat order (response_of callback req) (Buffer.init initial_size) v h
        (omega (arith, length-init initial_size)) in
    let c' : content b ≡ response_text callback order req =
      c ∙ ap (λ (t : List ℕ). t ++ response_text callback order req) (content-init initial_size) in
    rw (
      response_to-eq callback req,
      e,
      string_at-readable w,
      c',
      shutdown_if-eq (response_of callback req).close_connection,
    )

module _ (callback : HttpCallback) (order : HeaderMap → HeaderMap) (time : ℕ) where
  -- A message that begins with a whole well-formed request is answered with the callback's
  -- response to that request, and nothing else; what follows the request stays in the buffer.
  pub on_message-print_request :
      (m : Method) (path query : List ℕ) (v : Version) (hs : HeaderMap)
      (k : IsPrintable m path query v hs) (fuel : ℕ) (b : Buffer) (rest : List ℕ)
      → IsValid b
      → content b ≡ print_request m path query v hs ++ rest
      → length hs + 2 < fuel
      → length (response_text callback order (parsed time m path query v hs k)) < 2 ^ 31
      → (b' : Buffer) × (on_message fuel time callback order b
          ≡ some (
            answers
                (response_text callback order (parsed time m path query v hs k))
                (response_of callback (parsed time m path query v hs k)).close_connection,
            b',
          ))
        × (content b' ≡ rest)
        × IsValid b'
  unfolding on_message got_all? serve_if refuse_unless
  on_message-print_request m path query v hs k fuel b rest w e h small =
      let (q, run, f) = parse_request-print_request time m path query v hs k fuel b rest w e h in
      (
        q.input,
        rw (
          run,
          f.answer,
          f.all,
          f.request,
          on_request-response_text callback order (parsed time m path query v hs k) small,
        ),
        f.left,
        f.valid,
      )

  -- A message in which no line is complete yet is refused: the server sends 400 and shuts the
  -- connection down, though the rest of the request line may still be on its way.
  pub on_message_incomplete :
      (fuel : ℕ) (b : Buffer)
      → find_crlf b ≡ none
      → 1 < fuel
      → on_message fuel time callback order b ≡ some (sends bad_request ∷ shuts_down ∷ [], b)
  unfolding on_message got_all? serve_if refuse_unless Context.init
  on_message_incomplete fuel b e h =
      rw (parse_request_incomplete fuel time Context.init b (unfold Context.init in reads_line) e h)
