-- ===== src/Http/Context/RequestLine.antt =====
-- src/http/HttpContext.cc: `processRequestLine` reads what a well-formed request line says.
use a_tiny_network_library.Common.{
  ℕ, ◌≡◌, refl, true, List, [], ◌∷◌, ◌++◌, inl, inr, ◌⊎◌, append-nil, ◌≢◌,
}
use a_tiny_network_library.Common.Text.{
  codes, Without, Without-append, Without-of, found-ne-end, take-found, drop-found, drop-found-add,
  absent-eq-end, eq_text,
}
use a_tiny_network_library.Http.Request.{
  Method, Version, Request, is_valid, method_string, set_method, set_path, set_query, set_version,
}
use a_tiny_network_library.Http.Request.Headers.{read_method-method_string}
use a_tiny_network_library.Http.Context.{
  process_version, set_target, process_target, after_method, process_request_line,
}

-- The versions that a request line can name.
abbrev pub version_text : Version → List ℕ
version_text Version.http11 = codes "HTTP/1.1"
version_text Version.http10 = codes "HTTP/1.0"
version_text Version.unknown = []

unfoldable pub request_line : Method → List ℕ → List ℕ → Version → List ℕ
request_line m path query v =
    method_string m ++ (b' ' ∷ ((path ++ query) ++ (b' ' ∷ version_text v)))

-- What a request line can carry.
pub record IsTarget (path query : List ℕ) : Type 0 where
  pub path_no_space : Without b' ' path
  pub path_no_question : Without b'?' path
  pub query_no_space : Without b' ' query
  pub query_marked : (query ≡ []) ⊎ ((q : List ℕ) × (query ≡ b'?' ∷ q))

IsTarget-Without : {path query : List ℕ} → IsTarget path query → Without b' ' (path ++ query)
IsTarget-Without {path} {query} t = Without-append b' ' path query t.path_no_space t.query_no_space

set_target-eq :
    (path query : List ℕ) (r : Request)
    → IsTarget path query
    → r.query ≡ []
    → (query ≡ []) ⊎ ((q : List ℕ) × (query ≡ b'?' ∷ q))
    → set_target (path ++ query) r ≡ record r { path = path; query = query }
unfolding set_target set_path set_query
set_target-eq path query r t e (inl empty) =
    rw (empty, append-nil, absent-eq-end b'?' path t.path_no_question)
      (λ i. record r { path = path; query = e i })
set_target-eq path query r t e (inr (q, marked)) = rw (
  marked,
  found-ne-end b'?' path q t.path_no_question,
  take-found b'?' path q t.path_no_question,
  drop-found b'?' path q t.path_no_question,
)

process_version-eq :
    (v : Version) (r : Request)
    → v ≢ Version.unknown
    → process_version (version_text v) r ≡ (true, set_version v r)
unfolding process_version eq_text
process_version-eq Version.http11 r h = refl
process_version-eq Version.http10 r h = refl
process_version-eq Version.unknown r h = absurd (h refl)

process_target-eq :
    (path query : List ℕ) (v : Version) (r : Request)
    → IsTarget path query
    → v ≢ Version.unknown
    → r.query ≡ []
    → process_target ((path ++ query) ++ (b' ' ∷ version_text v)) r
      ≡ (true, record r { path = path; query = query; version = v })
unfolding process_target
process_target-eq path query v r t h e =
    rw
      (
        found-ne-end b' ' (path ++ query) (version_text v) (IsTarget-Without t),
        take-found b' ' (path ++ query) (version_text v) (IsTarget-Without t),
        drop-found-add b' ' (path ++ query) (version_text v) (IsTarget-Without t),
        set_target-eq path query r t e t.query_marked,
        process_version-eq v (record r { path = path; query = query }) h,
      )
      (unfold set_version in refl)

method_string-Without : (m : Method) → Without b' ' (method_string m)
unfolding method_string
method_string-Without Method.get = Without-of b' ' (codes "GET") refl
method_string-Without m = Without-of b' ' (method_string m) refl

-- No part of the line holds a carriage return.
pub request_line-Without :
    (m : Method) (path query : List ℕ) (v : Version)
    → Without 13 path
    → Without 13 query
    → Without 13 (request_line m path query v)
unfolding request_line
request_line-Without m path query v h k =
    Without-append 13 (method_string m) _ (method m) (
      refl,
      Without-append 13 (path ++ query) _ (Without-append 13 path query h k) (refl, version v),
    )
  where
    method : (m : Method) → Without 13 (method_string m)
    method Method.get = unfold method_string in Without-of 13 (codes "GET") refl
    method m = unfold method_string in Without-of 13 (method_string m) refl

    version : (v : Version) → Without 13 (version_text v)
    version Version.http11 = Without-of 13 (codes "HTTP/1.1") refl
    version v = Without-of 13 (version_text v) refl

-- A request line that prints a known method, a target and a version is accepted, and sets exactly
-- these on a request with an empty query.
pub process_request_line-request_line :
    (m : Method) (path query : List ℕ) (v : Version) (r : Request)
    → is_valid m ≡ true
    → IsTarget path query
    → v ≢ Version.unknown
    → r.query ≡ []
    → process_request_line (request_line m path query v) r
      ≡ (true, record r { method = m; path = path; query = query; version = v })
unfolding process_request_line request_line set_method after_method
process_request_line-request_line m path query v r k t h e =
    let rest : List ℕ = (path ++ query) ++ (b' ' ∷ version_text v) in
    rw (
      found-ne-end b' ' (method_string m) rest (method_string-Without m),
      take-found b' ' (method_string m) rest (method_string-Without m),
      drop-found-add b' ' (method_string m) rest (method_string-Without m),
      read_method-method_string m,
      k,
      process_target-eq path query v (record r { method = m }) t h e,
    )
