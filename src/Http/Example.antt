-- ===== src/Http/Example.antt =====
-- src/http/main.cc: the callback of the example server. The bytes of the icon and the text of the time
-- are arguments.
pub mod Pages
use a_tiny_network_library.Common.{ℕ, true, List, ◌++◌, if◌then◌else◌}
use a_tiny_network_library.Common.Text.{codes, eq_text}
use a_tiny_network_library.Http.Request.{Request}
use a_tiny_network_library.Http.Response.{
  Response, set_status_code, set_status_message, set_content_type, add_header, set_body,
  set_close_connection,
}

unfoldable pub with_ok : Response → Response
with_ok resp = set_status_message (codes "OK") (set_status_code 200 resp)

unfoldable pub title_page : (now : List ℕ) → Response → Response
title_page now resp =
    set_body
      (codes "<html><head><title>This is title</title></head><body><h1>Hello</h1>Now is "
        ++ now
        ++ codes "</body></html>")
      (add_header (codes "Server") (codes "Muduo")
        (set_content_type (codes "text/html") (with_ok resp)))

unfoldable pub icon : (favicon : List ℕ) → Response → Response
icon favicon resp = set_body favicon (set_content_type (codes "image/png") (with_ok resp))

unfoldable pub hello : Response → Response
hello resp = set_body (codes "hello, world!\n") (
    add_header (codes "Server") (codes "Muduo")
      (set_content_type (codes "text/plain") (with_ok resp)))

unfoldable pub not_found : Response → Response
not_found resp =
    set_close_connection true (set_status_message (codes "Not Found") (set_status_code 404 resp))

unfoldable pub on_request : (favicon now : List ℕ) → Request → Response → Response
on_request favicon now req resp =
    if eq_text req.path (codes "/")
    then title_page now resp
    else (if eq_text req.path (codes "/favicon.ico")
        then icon favicon resp
        else (if eq_text req.path (codes "/hello") then hello resp else not_found resp))
