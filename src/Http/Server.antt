-- ===== src/Http/Server.antt =====
-- src/http/HttpServer.cc: what a message makes the server do with its connection.
pub mod Messages
pub mod Start
use a_tiny_network_library.Common.{
  ℕ, ◌≡◌, Bool, true, false, not, ◌&&◌, ◌||◌, List, [], ◌∷◌, ◌++◌, Option, none, some,
  if◌then◌else◌, ◌>>=◌,
}
use a_tiny_network_library.Common.Text.{codes, crlf, eq_text}
use a_tiny_network_library.Net.Buffer
use a_tiny_network_library.Net.Buffer.{Buffer, initial_size, get_buffer_all_as_string}
use a_tiny_network_library.Http.Request.{Request, Version, HeaderMap, get_header}
use a_tiny_network_library.Http.Response
use a_tiny_network_library.Http.Response.{
  Response, set_status_code, set_status_message, set_close_connection, append_to_buffer,
}
use a_tiny_network_library.Http.Context
use a_tiny_network_library.Http.Context.{got_all?, parse_request, Parse}

-- The calls that the handlers make on the connection.
pub data Action : Type 0 where
  sends : List ℕ → Action
  shuts_down : Action

abbrev pub HttpCallback : Type 0
HttpCallback = Request → Response → Response

unfoldable pub default_http_callback : HttpCallback
default_http_callback req resp =
    set_close_connection true (set_status_message (codes "Not Found") (set_status_code 404 resp))

abbrev pub is_http10 : Version → Bool
is_http10 Version.http10 = true
is_http10 _ = false

-- The test for a short connection, which the next line of the source overrides.
unfoldable pub wants_close : Request → Bool
wants_close req =
    let connection = get_header (codes "Connection") req in
    eq_text connection (codes "close")
    || (is_http10 req.version && not (eq_text connection (codes "Keep-Alive")))

unfoldable pub shutdown_if : Bool → List Action
shutdown_if true = shuts_down ∷ []
shutdown_if false = []

-- `close = true` is assigned whatever the test says.
unfoldable pub response_to : HttpCallback → Request → Response
response_to callback req = let close = true in callback req (Response.init close)

unfoldable pub on_request : HttpCallback → (HeaderMap → HeaderMap) → Request → Option (List Action)
on_request callback order req = do
  let response = response_to callback req
  buf ← append_to_buffer order response (Buffer.init initial_size)
  text ← get_buffer_all_as_string buf
  some (sends text ∷ shutdown_if response.close_connection)

unfoldable pub bad_request : List ℕ
bad_request = codes "HTTP/1.1 400 Bad Request" ++ (crlf ++ crlf)

unfoldable pub refuse_unless : Bool → List Action
refuse_unless true = []
refuse_unless false = sends bad_request ∷ shuts_down ∷ []

unfoldable pub serve_if :
    Bool → HttpCallback → (HeaderMap → HeaderMap) → Request → Option (List Action)
serve_if true callback order req = on_request callback order req
serve_if false callback order req = some []

-- Each message is parsed in a context of its own, which is dropped at the end.
unfoldable pub on_message :
    ℕ → ℕ → HttpCallback → (HeaderMap → HeaderMap) → Buffer → Option (List Action × Buffer)
on_message fuel time callback order buf = do
  q ← parse_request fuel time Context.init buf
  served ← serve_if (got_all? q.context) callback order q.context.request
  some (refuse_unless q.ok ++ served, q.input)
