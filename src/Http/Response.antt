-- ===== src/Http/Response.antt =====
-- src/http/HttpResponse.h and src/http/HttpResponse.cc. The order in which an `unordered_map` is
-- walked is an argument.
pub mod Printed
use a_tiny_network_library.Common.{
  ℕ, ◌+◌, ◌≤◌, ◌<◌, ◌^◌, ◌≡◌, refl, ap, sym, ◌∙◌, Bool, List, [], ◌∷◌, ◌++◌, Option, some, arith,
  if◌then◌else◌, length, take, append_assoc, append-nil, length-append, ◌>>=◌,
}
use a_tiny_network_library.Common.Text.{codes, crlf}
use a_tiny_network_library.Common.Decimal.{decimal}
use a_tiny_network_library.Net.Buffer.{Buffer, append, max_size}
use a_tiny_network_library.Net.Buffer.Layout.{IsValid, content}
use a_tiny_network_library.Net.Buffer.Append.{append-Appended}
use a_tiny_network_library.Http.Request.{HeaderMap, put_header}

pub record Response : Type 0 where
  pub headers : HeaderMap
  pub status_code : ℕ
  pub status_message : List ℕ
  pub close_connection : Bool
  pub body : List ℕ

unfoldable pub init : Bool → Response
init close = record {
  headers = [];
  status_code = 0;
  status_message = [];
  close_connection = close;
  body = [];
}

unfoldable pub set_status_code : ℕ → Response → Response
set_status_code code r = record r { status_code = code }

unfoldable pub set_status_message : List ℕ → Response → Response
set_status_message message r = record r { status_message = message }

unfoldable pub set_close_connection : Bool → Response → Response
set_close_connection on r = record r { close_connection = on }

unfoldable pub add_header : List ℕ → List ℕ → Response → Response
add_header key value r = record r { headers = put_header key value r.headers }

unfoldable pub set_content_type : List ℕ → Response → Response
set_content_type content_type r = add_header (codes "Content-Type") content_type r

unfoldable pub set_body : List ℕ → Response → Response
set_body body r = record r { body = body }

-- `snprintf` into `char buf[32]`: at most 31 bytes.
unfoldable pub in_buf : List ℕ → List ℕ
in_buf text = take 31 text

unfoldable pub header_pieces : HeaderMap → List (List ℕ)
header_pieces [] = []
header_pieces ((key, value) ∷ hs) = key ∷ codes ": " ∷ value ∷ crlf ∷ header_pieces hs

-- What `appendToBuffer` hands to `append`, call by call.
unfoldable pub pieces : (HeaderMap → HeaderMap) → Response → List (List ℕ)
pieces order r =
    in_buf (codes "HTTP/1.1 " ++ (decimal r.status_code ++ codes " "))
    ∷ r.status_message
    ∷ crlf
    ∷ ((if r.close_connection
          then (codes "Connection: close" ++ crlf) ∷ []
          else in_buf (codes "Content-Length: " ++ (decimal (length r.body) ++ crlf))
            ∷ (codes "Connection: Keep-Alive" ++ crlf)
            ∷ [])
        ++ (header_pieces (order r.headers) ++ (crlf ∷ r.body ∷ [])))

unfoldable pub append_all : List (List ℕ) → Buffer → Option Buffer
append_all [] b = some b
append_all (s ∷ ss) b = append s b >>= λ b'. append_all ss b'

unfoldable pub append_to_buffer : (HeaderMap → HeaderMap) → Response → Buffer → Option Buffer
append_to_buffer order r b = append_all (pieces order r) b

-- The text of a response.
unfoldable pub concat : List (List ℕ) → List ℕ
concat [] = []
concat (s ∷ ss) = s ++ concat ss

append_all-Appended :
    (ss : List (List ℕ)) (b : Buffer)
    → IsValid b
    → length (concat ss) < 2 ^ 31
    → length b.buffer + length (concat ss) ≤ max_size
    → (b' : Buffer) × (append_all ss b ≡ some b')
      × IsValid b'
      × (content b' ≡ content b ++ concat ss)
unfolding append_all concat
append_all-Appended [] b v h k = (b, refl, v, sym (append-nil (content b)))
append_all-Appended (s ∷ ss) b v h k =
    let n : length (s ++ concat ss) ≡ length s + length (concat ss) = length-append s (concat ss) in
    let (b1, e1, a1) = append-Appended s v (omega arith) (omega arith) in
    let (b2, e2, v2, c2) =
      append_all-Appended ss b1 a1.valid (omega arith) (omega (arith, a1.bound)) in
    (
      b2,
      rw e1 e2,
      v2,
      c2 ∙ ap (λ (t : List ℕ). t ++ concat ss) a1.extended ∙ append_assoc (content b) s (concat ss),
    )

-- Within the size limits `appendToBuffer` puts the whole text of the response behind the content,
-- its pieces in order.
pub append_to_buffer-concat :
    (order : HeaderMap → HeaderMap) (r : Response) (b : Buffer)
    → IsValid b
    → length (concat (pieces order r)) < 2 ^ 31
    → length b.buffer + length (concat (pieces order r)) ≤ max_size
    → (b' : Buffer) × (append_to_buffer order r b ≡ some b')
      × IsValid b'
      × (content b' ≡ content b ++ concat (pieces order r))
unfolding append_to_buffer
append_to_buffer-concat order r b v h k = append_all-Appended (pieces order r) b v h k
