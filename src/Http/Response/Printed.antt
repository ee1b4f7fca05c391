-- ===== src/Http/Response/Printed.antt =====
-- src/http/HttpResponse.cc: the text that `appendToBuffer` prints.
use a_tiny_network_library.Common.{
  ℕ, ◌+◌, ◌≤◌, ◌<◌, ◌^◌, ◌≡◌, refl, ap, sym, ◌∙◌, Bool, true, false, List, [], ◌∷◌, ◌++◌, some,
  arith, length, take-all, append_assoc, append-nil, length-append,
}
use a_tiny_network_library.Common.Text.{codes, crlf}
use a_tiny_network_library.Common.Decimal.{
  decimal, digits_of, length-digits_of, length-digits_of_le,
}
use a_tiny_network_library.Net.Buffer.{Buffer, max_size}
use a_tiny_network_library.Net.Buffer.Layout.{IsValid, content}
use a_tiny_network_library.Http.Request.{HeaderMap}
use a_tiny_network_library.Http.Response.{
  Response, in_buf, header_pieces, pieces, concat, append_to_buffer, append_to_buffer-concat,
}

-- The lines of the headers.
abbrev pub header_lines : HeaderMap → List ℕ
header_lines [] = []
header_lines ((key, value) ∷ hs) =
    key ++ (codes ": " ++ (value ++ (codes "\r\n" ++ header_lines hs)))

-- The lines that say how the connection goes on.
abbrev pub connection_lines : (close : Bool) (size : ℕ) → List ℕ
connection_lines true size = codes "Connection: close\r\n"
connection_lines false size =
    codes "Content-Length: " ++ (decimal size ++ codes "\r\nConnection: Keep-Alive\r\n")

-- A response as RFC 2616 prints it: status line, header lines, empty line, body.
abbrev pub printed : (HeaderMap → HeaderMap) → Response → List ℕ
printed order r =
    codes "HTTP/1.1 "
    ++ (decimal r.status_code
        ++ (codes " "
            ++ (r.status_message
                ++ (codes "\r\n"
                    ++ (connection_lines r.close_connection (length r.body)
                        ++ (header_lines (order r.headers) ++ (codes "\r\n" ++ r.body)))))))

concat-append : (ss ts : List (List ℕ)) → concat (ss ++ ts) ≡ concat ss ++ concat ts
unfolding concat
concat-append [] ts = refl
concat-append (s ∷ ss) ts =
    ap (◌++◌ s) (concat-append ss ts) ∙ sym (append_assoc s (concat ss) (concat ts))

concat-header_pieces : (hs : HeaderMap) → concat (header_pieces hs) ≡ header_lines hs
unfolding concat header_pieces
concat-header_pieces [] = refl
concat-header_pieces ((key, value) ∷ hs) = rw (concat-header_pieces hs) refl

-- The status line is never cut: the number has at most 20 digits.
status_fits :
    (n : ℕ)
    → in_buf (codes "HTTP/1.1 " ++ (decimal n ++ codes " "))
      ≡ codes "HTTP/1.1 " ++ (decimal n ++ codes " ")
unfolding in_buf decimal
status_fits n =
    take-all 31 (codes "HTTP/1.1 " ++ (digits_of 20 n ++ codes " "))
      (omega (arith, length-append (digits_of 20 n) (codes " "), length-digits_of_le 20 n))

size_fits :
    (n : ℕ)
    → n < 2 ^ 31
    → in_buf (codes "Content-Length: " ++ (decimal n ++ crlf))
      ≡ codes "Content-Length: " ++ (decimal n ++ crlf)
unfolding in_buf decimal
size_fits n h =
    take-all 31 (codes "Content-Length: " ++ (digits_of 20 n ++ crlf))
      (omega (arith, length-append (digits_of 20 n) crlf, length-digits_of 20 9 n (omega arith)))

-- What follows the status message.
tail_of : (HeaderMap → HeaderMap) → Response → List ℕ
tail_of order r = header_lines (order r.headers) ++ (crlf ++ r.body)

concat-tail :
    (order : HeaderMap → HeaderMap) (r : Response)
    → concat (header_pieces (order r.headers) ++ (crlf ∷ r.body ∷ [])) ≡ tail_of order r
unfolding tail_of
concat-tail order r =
    concat-append (header_pieces (order r.headers)) (crlf ∷ r.body ∷ [])
    ∙ rw (concat-header_pieces (order r.headers)) (
        ap (◌++◌ (header_lines (order r.headers)))
          (unfold concat in ap (◌++◌ crlf) (append-nil r.body)))

concat-pieces :
    (order : HeaderMap → HeaderMap) (close : Bool) (r : Response)
    → r.close_connection ≡ close
    → length r.body < 2 ^ 31
    → concat (pieces order r) ≡ printed order r
unfolding pieces concat
concat-pieces order true r e h =
    rw (e, status_fits r.status_code, concat-tail order r) (unfold tail_of in simp append_assoc)
concat-pieces order false r e h =
    rw (e, status_fits r.status_code, size_fits (length r.body) h, concat-tail order r)
      (unfold tail_of in simp append_assoc)

length-body_le :
    (order : HeaderMap → HeaderMap) (r : Response) → length r.body ≤ length (printed order r)
length-body_le order r =
    let last : List ℕ = codes "\r\n" ++ r.body in
    let t3 : List ℕ = header_lines (order r.headers) ++ last in
    let t2 : List ℕ = connection_lines r.close_connection (length r.body) ++ t3 in
    let t1 : List ℕ = r.status_message ++ (codes "\r\n" ++ t2) in
    omega (
      arith,
      length-append (header_lines (order r.headers)) last,
      length-append (connection_lines r.close_connection (length r.body)) t3,
      length-append r.status_message (codes "\r\n" ++ t2),
      length-append (decimal r.status_code) (codes " " ++ t1),
    )

-- Within the size limits `appendToBuffer` puts behind the content the response as RFC 2616 prints it,
-- whatever its fields: the status line with the whole number, then either the line that closes the
-- connection or the length of the body and the line that keeps it, then a line for each header in
-- the order in which the map is walked, an empty line, and the body.
pub append_to_buffer-printed :
    (order : HeaderMap → HeaderMap) (r : Response) (b : Buffer)
    → IsValid b
    → length (printed order r) < 2 ^ 31
    → length b.buffer + length (printed order r) ≤ max_size
    → (b' : Buffer) × (append_to_buffer order r b ≡ some b')
      × IsValid b'
      × (content b' ≡ content b ++ printed order r)
append_to_buffer-printed order r b v h k =
    let e =
      concat-pieces order r.close_connection r refl (omega (arith, h, length-body_le order r)) in
    let (b', run, w, c) = append_to_buffer-concat order r b v (rw e h) (rw e k) in
    (b', run, w, c ∙ ap (◌++◌ (content b)) e)
