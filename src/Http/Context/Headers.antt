-- ===== src/Http/Context/Headers.antt =====
-- src/http/HttpContext.cc: the loop reads a block of headers.
use a_tiny_network_library.Common.{
  ℕ, zero, suc, ◌+◌, ◌<◌, ◌≡◌, refl, ap, sym, ◌∙◌, Bool, true, false, List, [], ◌∷◌, ◌++◌, arith,
  length, ◌==◌, some, append_assoc, append-nil,
}
use a_tiny_network_library.Common.Text.{
  find_char, Without, Without-append, found-ne-end, take-found, drop-found-add, isspace,
}
use a_tiny_network_library.Net.Buffer.{Buffer, find_crlf, retrieve_until}
use a_tiny_network_library.Net.Buffer.Layout.{IsValid, content}
use a_tiny_network_library.Net.Buffer.Search.{find_crlf-line}
use a_tiny_network_library.Http.Request.{Request, HeaderMap, put_header, header_value, add_header}
use a_tiny_network_library.Http.Request.Headers.{Bare, Spaces, header_value-Bare}
use a_tiny_network_library.Http.Context.{
  expect_headers, got_all, Parse, parse_header, parse_in, parse_step, parse_loop,
}
use a_tiny_network_library.Http.Context.Lines.{LineAt, line_to-eq, next-IsValid, content-next}
use a_tiny_network_library.Http.Context.Loop.{parse_loop-stop, parse_loop-step}

unfoldable pub header_line : List ℕ × List ℕ → List ℕ
header_line (field, value) = field ++ (b':' ∷ b' ' ∷ value)

unfoldable pub header_block : HeaderMap → List ℕ
unfolding header_line
header_block [] = []
header_block (h ∷ hs) = header_line h ++ (13 ∷ 10 ∷ header_block hs)

-- The later of two headers with one field counts.
unfoldable pub put_all : HeaderMap → HeaderMap → HeaderMap
put_all [] m = m
put_all ((field, value) ∷ hs) m = put_all hs (put_header field value m)

abbrev pub AreHeaders : HeaderMap → Type 0
AreHeaders [] = Unit {0}
AreHeaders ((field, value) ∷ hs) =
    (Without b':' field × Without 13 field × Without 13 value × Bare value) × AreHeaders hs

one_space : Spaces (b' ' ∷ [])
unfolding isspace
one_space = (refl, tt)

header_line-colon :
    (field value : List ℕ)
    → Without b':' field
    → (find_char b':' (header_line (field, value)) == length (header_line (field, value))) ≡ false
unfolding header_line
header_line-colon field value colon = found-ne-end b':' field (b' ' ∷ value) colon

module _ (field value : List ℕ) (colon : Without b':' field) (bare : Bare value) (r : Request) where
  add_header-header_line :
      add_header (header_line (field, value)) (find_char b':' (header_line (field, value))) r
      ≡ record r { headers = put_header field value r.headers }
  unfolding add_header header_line
  add_header-header_line =
      let e : header_value (b' ' ∷ value) ≡ value =
        ap (λ (t : List ℕ). header_value (b' ' ∷ t)) (sym (append-nil value))
        ∙ header_value-Bare (b' ' ∷ []) value [] one_space bare tt in
      rw (
        take-found b':' field (b' ' ∷ value) colon,
        drop-found-add b':' field (b' ' ∷ value) colon,
        e,
      )

-- The state in which the loop leaves a complete request.
pub record Finished (o : Bool) (r : Request) (rest : List ℕ) (q : Parse) : Type 0 where
  pub answer : q.ok ≡ o
  pub all : q.context.state ≡ got_all
  pub request : q.context.request ≡ r
  pub left : content q.input ≡ rest
  pub valid : IsValid q.input

-- The state in which the loop goes on with the headers.
pub record Expecting (o : Bool) (r : Request) (text : List ℕ) (p : Parse) : Type 0 where
  pub answer : p.ok ≡ o
  pub more : p.has_more ≡ true
  pub state : p.context.state ≡ expect_headers
  pub request : p.context.request ≡ r
  pub input : content p.input ≡ text
  pub valid : IsValid p.input

pub line_at :
    (b : Buffer) (line rest : List ℕ)
    → content b ≡ line ++ (13 ∷ 10 ∷ rest)
    → LineAt b (b.reader_index + length line) line rest
line_at b line rest e = record { cut = e; at = refl }

module _ (p : Parse) (v : IsValid p.input) {end : ℕ} (field value : List ℕ) {rest : List ℕ}
    (l : LineAt p.input end (header_line (field, value)) rest) (colon : Without b':' field)
    (bare : Bare value) where
  parse_header-line : parse_header p (some end) ≡ record p {
    context = record {
      state = p.context.state;
      request = record p.context.request {
        headers = put_header field value p.context.request.headers;
      };
    };
    input = retrieve_until (end + 2) p.input;
  }
  unfolding parse_header
  parse_header-line = rw (
    line_to-eq v l,
    header_line-colon field value colon,
    add_header-header_line field value colon bare p.context.request,
  )

parse_header-last :
    (p : Parse) {end : ℕ} {rest : List ℕ}
    → IsValid p.input
    → LineAt p.input end [] rest
    → parse_header p (some end) ≡ record p {
      has_more = false;
      context = record { state = got_all; request = p.context.request };
      input = retrieve_until (end + 2) p.input;
    }
unfolding parse_header find_char
parse_header-last p v l = rw (line_to-eq v l)

parse_step-headers :
    (time : ℕ) (p : Parse)
    → p.context.state ≡ expect_headers
    → parse_step time p ≡ parse_header p (find_crlf p.input)
unfolding parse_step parse_in
parse_step-headers time p e = rw e

headers_step :
    (time : ℕ) (p : Parse) {o : Bool} {r : Request} (field value rest : List ℕ)
    → Without b':' field
    → Without 13 field
    → Without 13 value
    → Bare value
    → Expecting o r (header_line (field, value) ++ (13 ∷ 10 ∷ rest)) p
    → Expecting o (record r { headers = put_header field value r.headers }) rest (parse_step time p)
headers_step time p field value rest h k l m e =
    let line : List ℕ = header_line (field, value) in
    let at : LineAt p.input (p.input.reader_index + length line) line rest =
      line_at p.input line rest e.input in
    let clean : Without 13 line =
      unfold header_line in Without-append 13 field (b':' ∷ b' ' ∷ value) k (refl, (refl, l)) in
    rw
      (
        parse_step-headers time p e.state,
        find_crlf-line e.valid line rest clean e.input,
        parse_header-line p e.valid field value at h m,
      )
      (record {
        answer = e.answer;
        more = e.more;
        state = e.state;
        request =
            ap (λ (r : Request). record r { headers = put_header field value r.headers }) e.request;
        input = content-next e.valid at;
        valid = next-IsValid e.valid at;
      })

pub headers_loop :
    (hs : HeaderMap) (fuel time : ℕ) (p : Parse) (o : Bool) (r : Request) (rest : List ℕ)
    → AreHeaders hs
    → Expecting o r (header_block hs ++ (13 ∷ 10 ∷ rest)) p
    → length hs + 1 < fuel
    → (q : Parse) × (parse_loop fuel time p ≡ some q)
      × Finished o (record r { headers = put_all hs r.headers }) rest q
unfolding put_all header_block
headers_loop hs zero time p o r rest a e h = absurd (omega arith)
headers_loop hs (suc zero) time p o r rest a e h = absurd (omega arith)
headers_loop [] (suc (suc fuel)) time p o r rest a e h =
    let at : LineAt p.input (p.input.reader_index + 0) [] rest = line_at p.input [] rest e.input in
    let step : parse_step time p ≡ record p {
      has_more = false;
      context = record { state = got_all; request = p.context.request };
      input = retrieve_until (p.input.reader_index + 0 + 2) p.input;
    } =
      rw (parse_step-headers time p e.state, find_crlf-line e.valid [] rest tt e.input)
        (parse_header-last p e.valid at) in
    (
      _,
      parse_loop-step (suc fuel) time p e.more
          ∙ ap (parse_loop (suc fuel) time) step
          ∙ parse_loop-stop fuel time _ refl,
      record {
        answer = e.answer;
        all = refl;
        request = e.request;
        left = content-next e.valid at;
        valid = next-IsValid e.valid at;
      },
    )
headers_loop ((field, value) ∷ hs) (suc (suc fuel)) time p o r rest ((h1, h2, h3, h4), a) e h =
    let e' : Expecting o r
        (header_line (field, value) ++ (13 ∷ 10 ∷ (header_block hs ++ (13 ∷ 10 ∷ rest)))) p =
      record {
        answer = e.answer;
        more = e.more;
        state = e.state;
        request = e.request;
        input = e.input ∙ append_assoc (header_line (field, value)) _ _;
        valid = e.valid;
      } in
    let (q, k, f) =
      headers_loop hs (suc fuel) time (parse_step time p) o
        (record r { headers = put_header field value r.headers }) rest a
        (headers_step time p field value (header_block hs ++ (13 ∷ 10 ∷ rest)) h1 h2 h3 h4 e')
        (omega arith) in
    (q, parse_loop-step (suc fuel) time p e.more ∙ k, f)
