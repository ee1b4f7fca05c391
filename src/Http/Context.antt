-- ===== src/Http/Context.antt =====
-- src/http/HttpContext.h and src/http/HttpContext.cc: the parser's states, one turn of its loop,
-- and the loop on fuel (`none`: the fuel ran out).
pub mod Lines
pub mod Loop
pub mod RequestLine
pub mod Headers
pub mod RoundTrip
use a_tiny_network_library.Common.{
  ℕ, zero, suc, ◌+◌, ◌-◌, ◌≡◌, Bool, true, false, not, ◌&&◌, List, [], ◌∷◌, Option, none, some,
  ◌==◌, if◌then◌else◌, length, take, drop, get_or,
}
use a_tiny_network_library.Common.Text.{codes, eq_text, find_char}
use a_tiny_network_library.Net.Buffer.{Buffer, peek, find_crlf, retrieve_until}
use a_tiny_network_library.Http.Request
use a_tiny_network_library.Http.Request.{
  Request, Version, set_method, set_path, set_query, set_version, set_receive_time, add_header,
}

pub data ParseState : Type 0 where
  expect_request_line expect_headers expect_body got_all : ParseState

pub record Context : Type 0 where
  pub state : ParseState
  pub request : Request

unfoldable pub init : Context
init = record { state = expect_request_line; request = Request.init }

abbrev pub is_got_all : ParseState → Bool
is_got_all ParseState.got_all = true
is_got_all _ = false

unfoldable pub got_all? : Context → Bool
got_all? c = is_got_all c.state

-- A fresh state, and the request exchanged with an empty one that is then destroyed.
unfoldable pub reset : Context → Context
reset c = record {
  state = expect_request_line;
  request = (Request.swap (c.request, Request.init)).0;
}

-- The version: eight bytes, "HTTP/1." and '1' or '0'.
unfoldable pub process_version : List ℕ → Request → Bool × Request
process_version text r =
    if (length text == 8) && eq_text (take (length text - 1) text) (codes "HTTP/1.")
    then (if get_or text (length text - 1) 0 == b'1'
        then (true, set_version Version.http11 r)
        else if get_or text (length text - 1) 0 == b'0'
        then (true, set_version Version.http10 r)
        else (false, r))
    else (false, r)

-- The path and, from the question mark on, the query.
unfoldable pub set_target : List ℕ → Request → Request
set_target target r =
    let question = find_char b'?' target in
    if not (question == length target)
    then set_query (drop question target) (set_path (take question target) r)
    else set_path target r

-- What follows the first space of the line.
unfoldable pub process_target : List ℕ → Request → Bool × Request
process_target rest r =
    let space = find_char b' ' rest in
    if not (space == length rest)
    then process_version (drop (space + 1) rest) (set_target (take space rest) r)
    else (false, r)

unfoldable pub after_method : List ℕ → Bool × Request → Bool × Request
after_method rest (true, r) = process_target rest r
after_method rest (false, r) = (false, r)

-- The fields that were read before an error keep their new values.
unfoldable pub process_request_line : List ℕ → Request → Bool × Request
process_request_line line r =
    let space = find_char b' ' line in
    if not (space == length line)
    then after_method (drop (space + 1) line) (set_method (take space line) r)
    else (false, r)

-- The local variables of `parseRequest`, with the members and the buffer that it works on.
pub record Parse : Type 0 where
  pub ok : Bool
  pub has_more : Bool
  pub context : Context
  pub input : Buffer

-- The line in front of the CRLF that `crlf` points at.
abbrev pub line_to : ℕ → Buffer → List ℕ
line_to crlf b = take (crlf - peek b) (drop (peek b) b.buffer)

unfoldable pub finish_request_line : ℕ → ℕ → Parse → Bool × Request → Parse
finish_request_line time crlf p (true, r) = record {
  ok = true;
  has_more = p.has_more;
  context = record { state = expect_headers; request = set_receive_time time r };
  input = retrieve_until (crlf + 2) p.input;
}
finish_request_line time crlf p (false, r) = record {
  ok = false;
  has_more = false;
  context = record { state = p.context.state; request = r };
  input = p.input;
}

unfoldable pub parse_request_line : ℕ → Parse → Option ℕ → Parse
parse_request_line time p none = record p { has_more = false }
parse_request_line time p (some crlf) =
    finish_request_line time crlf p (process_request_line (line_to crlf p.input) p.context.request)

-- A line without a colon ends the headers.
unfoldable pub parse_header : Parse → Option ℕ → Parse
parse_header p none = record p { has_more = false }
parse_header p (some crlf) =
    let line = line_to crlf p.input in
    let colon = find_char b':' line in
    if not (colon == length line)
    then record p {
      context = record {
        state = p.context.state;
        request = add_header line colon p.context.request;
      };
      input = retrieve_until (crlf + 2) p.input;
    }
    else record p {
      has_more = false;
      context = record { state = got_all; request = p.context.request };
      input = retrieve_until (crlf + 2) p.input;
    }

-- The branches of the loop's body by the state. In the last two it does nothing.
unfoldable pub parse_in : ParseState → ℕ → Parse → Parse
parse_in expect_request_line time p = parse_request_line time p (find_crlf p.input)
parse_in expect_headers time p = parse_header p (find_crlf p.input)
parse_in expect_body time p = p
parse_in got_all time p = p

-- One turn of the loop.
unfoldable pub parse_step : ℕ → Parse → Parse
parse_step time p = parse_in p.context.state time p

unfoldable pub parse_loop : ℕ → ℕ → Parse → Option Parse
parse_loop zero time p = none
parse_loop (suc fuel) time p = elim p.has_more [
  | true ↦ parse_loop fuel time (parse_step time p)
  | false ↦ some p
]

-- The result's `ok` is what `parseRequest` returns.
unfoldable pub parse_request : ℕ → ℕ → Context → Buffer → Option Parse
parse_request fuel time c b =
    parse_loop fuel time (record { ok = false; has_more = true; context = c; input = b })
