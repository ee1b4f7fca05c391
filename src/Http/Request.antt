-- ===== src/Http/Request.antt =====
-- src/http/HttpRequest.h. A pair of pointers into a line is the text between them; the hash map of
-- headers is an association list with one entry for each key.
pub mod Headers
use a_tiny_network_library.Common.{
  ℕ, suc, ◌+◌, ◌≡◌, Bool, true, false, not, List, [], ◌∷◌, ◌++◌, Option, none, some, if◌then◌else◌,
  length, take, drop,
}
use a_tiny_network_library.Common.Text.{codes, eq_text, skip_spaces, trim_end}

pub data Method : Type 0 where
  invalid get post head put delete : Method

pub data Version : Type 0 where
  unknown http10 http11 : Version

abbrev pub HeaderMap : Type 0
HeaderMap = List (List ℕ × List ℕ)

pub record Request : Type 0 where
  pub method : Method
  pub version : Version
  pub path : List ℕ
  pub query : List ℕ
  pub receive_time : ℕ
  pub headers : HeaderMap

unfoldable pub init : Request
init = record {
  method = Method.invalid;
  version = Version.unknown;
  path = [];
  query = [];
  receive_time = 0;
  headers = [];
}

unfoldable pub read_method : List ℕ → Method
read_method m =
    if eq_text m (codes "GET")
    then Method.get
    else if eq_text m (codes "POST")
    then Method.post
    else if eq_text m (codes "HEAD")
    then Method.head
    else if eq_text m (codes "PUT")
    then Method.put
    else if eq_text m (codes "DELETE")
    then Method.delete
    else Method.invalid

abbrev pub is_valid : Method → Bool
is_valid Method.invalid = false
is_valid _ = true

-- Sets the method and answers whether it is known.
unfoldable pub set_method : List ℕ → Request → Bool × Request
set_method m r = (is_valid (read_method m), record r { method = read_method m })

unfoldable pub method_string : Method → List ℕ
method_string Method.get = codes "GET"
method_string Method.post = codes "POST"
method_string Method.head = codes "HEAD"
method_string Method.put = codes "PUT"
method_string Method.delete = codes "DELETE"
method_string Method.invalid = codes "UNKNOWN"

unfoldable pub set_version : Version → Request → Request
set_version v r = record r { version = v }

unfoldable pub set_path : List ℕ → Request → Request
set_path p r = record r { path = p }

unfoldable pub set_query : List ℕ → Request → Request
set_query q r = record r { query = q }

unfoldable pub set_receive_time : ℕ → Request → Request
set_receive_time t r = record r { receive_time = t }

-- `headers_[key] = value` and `headers_.find(key)`.
unfoldable pub put_header : List ℕ → List ℕ → HeaderMap → HeaderMap
put_header k v [] = (k, v) ∷ []
put_header k v ((j, w) ∷ m) = if eq_text j k then (k, v) ∷ m else (j, w) ∷ put_header k v m

unfoldable pub find_header : List ℕ → HeaderMap → Option (List ℕ)
find_header k [] = none
find_header k ((j, v) ∷ m) = if eq_text j k then some v else find_header k m

-- A header's value: what follows the colon, without the spaces around it.
unfoldable pub header_value : List ℕ → List ℕ
header_value after = trim_end (skip_spaces after)

-- `line` is the text of the line, `colon` the index of its colon.
unfoldable pub add_header : List ℕ → ℕ → Request → Request
add_header line colon r = record r {
  headers = put_header (take colon line) (header_value (drop (colon + 1) line)) r.headers;
}

abbrev pub or_empty : Option (List ℕ) → List ℕ
or_empty none = []
or_empty (some v) = v

unfoldable pub get_header : List ℕ → Request → List ℕ
get_header field r = or_empty (find_header field r.headers)

-- `swap` exchanges all the fields of the two requests.
unfoldable pub swap : Request × Request → Request × Request
swap (a, b) = (b, a)
