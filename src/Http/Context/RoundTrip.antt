-- ===== src/Http/Context/RoundTrip.antt =====
-- src/http/HttpContext.cc: `parseRequest` reads back a request that is printed as RFC 2616 says.
use a_tiny_network_library.Common.{
  ℕ, zero, suc, ◌+◌, ◌<◌, ◌≡◌, ◌≢◌, refl, ◌∙◌, true, false, List, [], ◌∷◌, ◌++◌, arith, length,
  some, append_assoc,
}
use a_tiny_network_library.Common.Text.{Without}
use a_tiny_network_library.Net.Buffer.{Buffer}
use a_tiny_network_library.Net.Buffer.Layout.{IsValid, content}
use a_tiny_network_library.Net.Buffer.Search.{find_crlf-line}
use a_tiny_network_library.Http.Request.{
  Method, Version, Request, HeaderMap, put_header, header_value, add_header, is_valid,
  set_receive_time,
}
use a_tiny_network_library.Http.Request
use a_tiny_network_library.Http.Context.{
  expect_headers, init, Parse, parse_request_line, finish_request_line, parse_in, parse_step,
  parse_request,
}
use a_tiny_network_library.Http.Context.Lines.{LineAt, line_to-eq, next-IsValid, content-next}
use a_tiny_network_library.Http.Context.Loop.{parse_loop-step}
use a_tiny_network_library.Http.Context.RequestLine.{
  request_line, request_line-Without, IsTarget, process_request_line-request_line,
}
use a_tiny_network_library.Http.Context.Headers.{
  header_block, put_all, AreHeaders, Finished, Expecting, line_at, headers_loop,
}

-- A request as RFC 2616 prints it: request line, header lines, empty line.
unfoldable pub print_request : Method → List ℕ → List ℕ → Version → HeaderMap → List ℕ
unfolding request_line header_block
print_request m path query v hs =
    request_line m path query v ++ (13 ∷ 10 ∷ (header_block hs ++ (13 ∷ 10 ∷ [])))

-- What can be printed so that it can be read back.
pub record IsPrintable (m : Method) (path query : List ℕ) (v : Version) (hs : HeaderMap)
    : Type 0 where
  pub known : is_valid m ≡ true
  pub target : IsTarget path query
  pub path_line : Without 13 path
  pub query_line : Without 13 query
  pub versioned : v ≢ Version.unknown
  pub fields : AreHeaders hs

-- The headers of a request that was read so far may arrive later: the loop reads the rest of them
-- and comes to `kGotAll`, but with the answer false.
pub parse_request-resumed :
    (hs : HeaderMap) (fuel time : ℕ) (r : Request) (b : Buffer) (rest : List ℕ)
    → IsValid b
    → AreHeaders hs
    → content b ≡ header_block hs ++ (13 ∷ 10 ∷ rest)
    → length hs + 1 < fuel
    → (q : Parse) × (parse_request fuel time (record { state = expect_headers; request = r }) b
        ≡ some q)
      × Finished false (record r { headers = put_all hs r.headers }) rest q
unfolding parse_request
parse_request-resumed hs fuel time r b rest v a e h =
    headers_loop hs fuel time _ false r rest a
      (record { answer = refl; more = refl; state = refl; request = refl; input = e; valid = v }) h

module _ (time : ℕ) (m : Method) (path query : List ℕ) (v : Version) (hs : HeaderMap)
    (k : IsPrintable m path query v hs) where
  -- What the parser makes of the printed request.
  unfoldable pub parsed : Request
  parsed = record {
    method = m;
    version = v;
    path = path;
    query = query;
    receive_time = time;
    headers = put_all hs [];
  }

  request_line_step :
      (b : Buffer) (text : List ℕ)
      → IsValid b
      → content b ≡ request_line m path query v ++ (13 ∷ 10 ∷ text)
      → Expecting true
          (record {
            method = m;
            version = v;
            path = path;
            query = query;
            receive_time = time;
            headers = [];
          })
          text
          (parse_step time (record { ok = false; has_more = true; context = init; input = b }))
  unfolding parse_step parse_in parse_request_line finish_request_line set_receive_time init
      Request.init
  request_line_step b text w e =
      let line : List ℕ = request_line m path query v in
      let at : LineAt b (b.reader_index + length line) line text = line_at b line text e in
      rw
        (
          find_crlf-line w line text (request_line-Without m path query v k.path_line k.query_line)
              e,
          line_to-eq w at,
          process_request_line-request_line m path query v Request.init k.known k.target k.versioned
              (unfold Request.init in refl),
        )
        (record {
          answer = refl;
          more = refl;
          state = refl;
          request = refl;
          input = content-next w at;
          valid = next-IsValid w at;
        })

  -- Parsing after printing: on an input that begins with a printed request, a fresh parse answers
  -- true in the state `kGotAll`, with the request that was printed, and leaves what follows it.
  pub parse_request-print_request :
      (fuel : ℕ) (b : Buffer) (rest : List ℕ)
      → IsValid b
      → content b ≡ print_request m path query v hs ++ rest
      → length hs + 2 < fuel
      → (q : Parse) × (parse_request fuel time init b ≡ some q) × Finished true parsed rest q
  unfolding parse_request parsed print_request
  parse_request-print_request zero b rest w e h = absurd (omega arith)
  parse_request-print_request (suc fuel) b rest w e h =
      let line : List ℕ = request_line m path query v in
      let e' : content b ≡ line ++ (13 ∷ 10 ∷ (header_block hs ++ (13 ∷ 10 ∷ rest))) =
        e ∙ simp append_assoc in
      let start : Parse = record { ok = false; has_more = true; context = init; input = b } in
      let (q, run, f) =
        headers_loop hs fuel time (parse_step time start) true _ rest k.fields
          (request_line_step b (header_block hs ++ (13 ∷ 10 ∷ rest)) w e') (omega arith) in
      (q, parse_loop-step fuel time start refl ∙ run, f)
