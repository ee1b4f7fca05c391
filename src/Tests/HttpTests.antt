-- ===== src/Tests/HttpTests.antt =====
-- src/http at a small request.
use a_tiny_network_library.Common.{
  ℕ, ◌+◌, ◌≡◌, refl, List, [], ◌∷◌, ◌++◌, none, some, arith, length, true, false, if◌then◌else◌,
  inr,
}
use a_tiny_network_library.Common.Text.{codes, eq_text, isspace, crlf, Without-of}
use a_tiny_network_library.Common.Decimal.{digits_of, decimal}
use a_tiny_network_library.Common.Word.{sub_size}
use a_tiny_network_library.Net.Buffer
use a_tiny_network_library.Net.Buffer.{Buffer, find_crlf}
use a_tiny_network_library.Net.Buffer.Layout.{IsValid, content}
use a_tiny_network_library.Http.Request.{
  Method, Version, Request, HeaderMap, add_header, get_header, header_value, put_header,
}
use a_tiny_network_library.Http.Request
use a_tiny_network_library.Http.Request.Headers.{get_header-add_header}
use a_tiny_network_library.Http.Response.{Response, concat, pieces, append_to_buffer}
use a_tiny_network_library.Http.Response.Printed.{append_to_buffer-printed}
use a_tiny_network_library.Http.Response
use a_tiny_network_library.Http.Context.{Context, Parse, ParseState, parse_request}
use a_tiny_network_library.Http.Context
use a_tiny_network_library.Http.Context.Loop.{
  idle_all, reads_line, parse_request-returns, parse_request-diverges,
}
use a_tiny_network_library.Http.Context.RoundTrip.{
  print_request, IsPrintable, parsed, parse_request-print_request, parse_request-resumed,
}
use a_tiny_network_library.Http.Context.Headers.{header_block, Finished, put_all}
use a_tiny_network_library.Http.Server.{
  sends, shuts_down, on_message, response_to, default_http_callback, bad_request,
}
use a_tiny_network_library.Http.Server.Messages.{
  response_text, response_of, answers, on_message-print_request, on_message_incomplete,
}

abbrev holding : List ℕ → Buffer
holding text = record {
  buffer = codes "........" ++ text;
  reader_index = 8;
  writer_index = 8 + length text;
}

abbrev headers : HeaderMap
headers = (codes "Host", codes "h") ∷ []

abbrev path : List ℕ
path = codes "/a"

abbrev query : List ℕ
query = codes "?x=1"

printable : IsPrintable Method.get path query Version.http11 headers
unfolding isspace
printable = record {
  known = refl;
  target = record {
    path_no_space = Without-of b' ' path refl;
    path_no_question = Without-of b'?' path refl;
    query_no_space = Without-of b' ' query refl;
    query_marked = inr (codes "x=1", refl);
  };
  path_line = Without-of 13 path refl;
  query_line = Without-of 13 query refl;
  versioned = ground arith;
  fields = (
    (
      Without-of b':' (codes "Host") refl,
      Without-of 13 (codes "Host") refl,
      Without-of 13 (codes "h") refl,
      (refl, refl),
    ),
    tt,
  );
}

abbrev request_text : List ℕ
request_text = codes "GET /a?x=1 HTTP/1.1" ++ (crlf ++ (codes "Host: h" ++ (crlf ++ crlf)))

prints :
    content (holding (request_text ++ codes "Z"))
    ≡ print_request Method.get path query Version.http11 headers ++ codes "Z"
unfolding print_request Request.method_string
prints = refl

input-IsValid : IsValid (holding (request_text ++ codes "Z"))
input-IsValid = record {
  prepended = omega arith;
  ordered = omega arith;
  fits = omega arith;
  bounded = omega arith;
}

parse_request-print_request_example :
    (q : Parse) × (parse_request 4 77 Context.init (holding (request_text ++ codes "Z")) ≡ some q)
    × Finished true (parsed 77 Method.get path query Version.http11 headers printable) (codes "Z") q
parse_request-print_request_example =
    parse_request-print_request 77 Method.get path query Version.http11 headers printable 4
      (holding (request_text ++ codes "Z")) (codes "Z") input-IsValid prints (omega arith)

parse_request-returns_example :
    (q : Parse) × (parse_request 40 77 Context.init (holding (request_text ++ codes "Z")) ≡ some q)
    × IsValid q.input
unfolding Context.init
parse_request-returns_example =
    parse_request-returns 40 77 Context.init (holding (request_text ++ codes "Z")) input-IsValid
      reads_line (omega arith)

abbrev all_read : Context
all_read = record { state = ParseState.got_all; request = Request.init }

parse_request-diverges_example :
    parse_request 1000 77 all_read (holding (request_text ++ codes "Z")) ≡ none
parse_request-diverges_example =
    parse_request-diverges 1000 77 all_read (holding (request_text ++ codes "Z")) idle_all

late_headers :
    content (holding (codes "Host: h" ++ (crlf ++ crlf))) ≡ header_block headers ++ (13 ∷ 10 ∷ [])
unfolding header_block
late_headers = refl

late-IsValid : IsValid (holding (codes "Host: h" ++ (crlf ++ crlf)))
late-IsValid = record {
  prepended = omega arith;
  ordered = omega arith;
  fits = omega arith;
  bounded = omega arith;
}

parse_request-resumed_example :
    (q : Parse) × (parse_request 3 77
        (record { state = ParseState.expect_headers; request = Request.init })
        (holding (codes "Host: h" ++ (crlf ++ crlf)))
      ≡ some q)
    × Finished false (record Request.init { headers = put_all headers Request.init.headers }) [] q
parse_request-resumed_example =
    parse_request-resumed headers 3 77 Request.init (holding (codes "Host: h" ++ (crlf ++ crlf))) []
      late-IsValid printable.fields late_headers (omega arith)

get_header-add_header_example :
    get_header (codes "Host") (add_header (codes "Host:  h ") 4 Request.init) ≡ (
      if eq_text (codes "Host") (codes "Host")
      then codes "h"
      else get_header (codes "Host") Request.init)
unfolding isspace
get_header-add_header_example =
    get_header-add_header (codes "Host") (codes "  ") (codes "h") (codes " ") (codes "Host")
      Request.init (refl, (refl, tt)) (refl, refl) (refl, tt)

abbrev not_found : Response
not_found = record {
  headers = (codes "X", codes "1") ∷ [];
  status_code = 404;
  status_message = codes "Not Found";
  close_connection = true;
  body = codes "gone";
}

abbrev in_order : HeaderMap → HeaderMap
in_order hs = hs

append_to_buffer-printed_example :
    (b : Buffer) × (append_to_buffer in_order not_found (holding (codes "Z")) ≡ some b)
    × IsValid b
    × (content b
        ≡ codes "Z" ++ codes "HTTP/1.1 404 Not Found\r\nConnection: close\r\nX: 1\r\n\r\ngone")
unfolding decimal digits_of
append_to_buffer-printed_example =
    append_to_buffer-printed in_order not_found (holding (codes "Z"))
      (record {
        prepended = omega arith;
        ordered = omega arith;
        fits = omega arith;
        bounded = omega arith;
      })
      (omega arith) (omega arith)

default_text :
    response_text default_http_callback in_order
      (parsed 77 Method.get path query Version.http11 headers printable)
    ≡ codes "HTTP/1.1 404 Not Found" ++ (crlf ++ (codes "Connection: close" ++ (crlf ++ crlf)))
unfolding concat pieces Response.in_buf Response.header_pieces decimal digits_of response_to
    default_http_callback Response.init Response.set_status_code Response.set_status_message
    Response.set_close_connection
default_text = refl

on_message-print_request_example :
    (b : Buffer) × (on_message 4 77 default_http_callback in_order
        (holding (request_text ++ codes "Z"))
      ≡ some (
        answers
            (response_text default_http_callback in_order
              (parsed 77 Method.get path query Version.http11 headers printable))
            (response_of default_http_callback
              (parsed 77 Method.get path query Version.http11 headers printable)).close_connection,
        b,
      ))
    × (content b ≡ codes "Z")
    × IsValid b
on_message-print_request_example =
    on_message-print_request default_http_callback in_order 77 Method.get path query Version.http11
      headers printable 4 (holding (request_text ++ codes "Z")) (codes "Z") input-IsValid prints
      (omega arith) (rw default_text (omega arith))

half_a_line : find_crlf (holding (codes "GET /a HT")) ≡ none
unfolding find_crlf Buffer.readable_bytes Buffer.search_crlf sub_size
half_a_line = refl

on_message_incomplete_example :
    on_message 2 77 default_http_callback in_order (holding (codes "GET /a HT"))
    ≡ some (sends bad_request ∷ shuts_down ∷ [], holding (codes "GET /a HT"))
on_message_incomplete_example =
    on_message_incomplete default_http_callback in_order 77 2 (holding (codes "GET /a HT"))
      half_a_line (omega arith)
