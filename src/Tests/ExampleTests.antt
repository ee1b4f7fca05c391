-- ===== src/Tests/ExampleTests.antt =====
-- src/http/main.cc: a request for /hello.
use a_tiny_network_library.Common.{ℕ, ◌≡◌, refl, List, [], ◌∷◌, ◌++◌, some, arith, inl}
use a_tiny_network_library.Common.Text.{codes, eq_text, crlf, Without-of}
use a_tiny_network_library.Net.Buffer.{Buffer}
use a_tiny_network_library.Net.Buffer.Layout.{IsValid, content}
use a_tiny_network_library.Http.Request.{Method, Version, HeaderMap}
use a_tiny_network_library.Http.Request
use a_tiny_network_library.Http.Response.{concat, header_pieces}
use a_tiny_network_library.Http.Context.RoundTrip.{print_request, IsPrintable}
use a_tiny_network_library.Http.Server.{sends, shuts_down, on_message}
use a_tiny_network_library.Http.Example.{on_request}
use a_tiny_network_library.Http.Example.Pages.{on_message-page_of}

abbrev received : Buffer
received = record {
  buffer = codes "........GET /hello HTTP/1.1" ++ (crlf ++ (crlf ++ codes "Z"));
  reader_index = 8;
  writer_index = 32;
}

abbrev page_of_hello : List ℕ
page_of_hello =
    codes "HTTP/1.1 200 OK\r\nConnection: close\r\n"
    ++ codes "Content-Type: text/plain\r\nServer: Muduo\r\n\r\nhello, world!\n"

abbrev in_order : HeaderMap → HeaderMap
in_order hs = hs

printable : IsPrintable Method.get (codes "/hello") [] Version.http11 []
printable = record {
  known = refl;
  target = record {
    path_no_space = Without-of b' ' (codes "/hello") refl;
    path_no_question = Without-of b'?' (codes "/hello") refl;
    query_no_space = tt;
    query_marked = inl refl;
  };
  path_line = Without-of 13 (codes "/hello") refl;
  query_line = tt;
  versioned = ground arith;
  fields = tt;
}

received-IsValid : IsValid received
received-IsValid = record {
  prepended = omega arith;
  ordered = omega arith;
  fits = omega arith;
  bounded = omega arith;
}

received-prints :
    content received ≡ print_request Method.get (codes "/hello") [] Version.http11 [] ++ codes "Z"
unfolding print_request Request.method_string
received-prints = refl

on_message-page_of_example :
    (b : Buffer) × (on_message 4 77 (on_request [] []) in_order received
      ≡ some (sends page_of_hello ∷ shuts_down ∷ [], b))
    × (content b ≡ codes "Z")
    × IsValid b
unfolding eq_text concat header_pieces
on_message-page_of_example =
    on_message-page_of in_order [] [] 77 Method.get (codes "/hello") [] Version.http11 [] printable
      4 received (codes "Z") received-IsValid received-prints (omega arith) (omega arith)
