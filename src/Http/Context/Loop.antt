-- ===== src/Http/Context/Loop.antt =====
-- src/http/HttpContext.cc: when the loop of `parseRequest` ends.
use a_tiny_network_library.Common.{
  ℕ, zero, suc, ◌+◌, ◌<◌, ◌≡◌, refl, ap, ◌∙◌, Bool, true, false, List, ◌∷◌, arith, length, ◌==◌,
  length-append, inl, inr, ◌⊎◌, none, some, Bool-cases,
}
use a_tiny_network_library.Common.Text.{find_char}
use a_tiny_network_library.Net.Buffer.{Buffer, find_crlf, retrieve_until}
use a_tiny_network_library.Net.Buffer.Layout.{IsValid, content}
use a_tiny_network_library.Http.Request.{Request}
use a_tiny_network_library.Http.Context.{
  ParseState, expect_request_line, expect_headers, expect_body, got_all, Context, Parse, line_to,
  finish_request_line, parse_request_line, parse_header, parse_in, parse_step, parse_loop,
  parse_request,
}
use a_tiny_network_library.Http.Context.Lines.{LineAt, next-IsValid, content-next, find_crlf-cases}

-- The states in which the loop's body does something.
pub data IsReading : ParseState → Type 0 where
  reads_line : IsReading expect_request_line
  reads_headers : IsReading expect_headers

-- One turn leaves the loop, or takes a line off the input and goes on reading.
pub record Turn (p q : Parse) : Type 0 where
  pub valid : IsValid q.input
  pub progress :
      (q.has_more ≡ false)
      ⊎ (IsReading q.context.state × (length (content q.input) < length (content p.input)))

module _ (time : ℕ) (p : Parse) (v : IsValid p.input) where
  stop-Turn : Turn p (record p { has_more = false })
  stop-Turn = record { valid = v; progress = inl refl }

  module _ {end : ℕ} {line rest : List ℕ} (l : LineAt p.input end line rest) where
    next-shorter : length (content (retrieve_until (end + 2) p.input)) < length (content p.input)
    next-shorter =
        omega (
          arith,
          ap length (content-next v l),
          ap length l.cut,
          length-append line (13 ∷ 10 ∷ rest),
        )

    finish_request_line-Turn : (r : Bool × Request) → Turn p (finish_request_line time end p r)
    unfolding finish_request_line
    finish_request_line-Turn (true, r) = record {
      valid = next-IsValid v l;
      progress = inr (reads_line_next, next-shorter);
    }
      where
        reads_line_next : IsReading expect_headers
        reads_line_next = reads_headers
    finish_request_line-Turn (false, r) = record { valid = v; progress = inl refl }

    parse_header-Turn : p.context.state ≡ expect_headers → Turn p (parse_header p (some end))
    unfolding parse_header
    parse_header-Turn e =
        elim (Bool-cases (find_char b':' (line_to end p.input) == length (line_to end p.input))) [
          | inl last ↦ rw last (record { valid = next-IsValid v l; progress = inl refl })
          | inr header ↦ rw header (record {
            valid = next-IsValid v l;
            progress = inr (rw e reads_headers, next-shorter);
          })
        ]

parse_in-Turn :
    {s : ParseState} (time : ℕ) (p : Parse)
    → IsReading s
    → p.context.state ≡ s
    → IsValid p.input
    → Turn p (parse_in s time p)
unfolding parse_in parse_request_line
parse_in-Turn time p reads_line e v = elim (find_crlf-cases v) [
  | inl missing ↦ rw (missing, parse_request_line) (stop-Turn time p v)
  | inr (end, line, rest, found, l) ↦
      rw (found, parse_request_line) (finish_request_line-Turn time p v l _)
]
parse_in-Turn time p reads_headers e v = elim (find_crlf-cases v) [
  | inl missing ↦ rw missing (unfold parse_header in stop-Turn time p v)
  | inr (end, line, rest, found, l) ↦ rw found (parse_header-Turn time p v l e)
]

pub parse_loop-stop :
    (fuel time : ℕ) (p : Parse) → p.has_more ≡ false → parse_loop (suc fuel) time p ≡ some p
unfolding parse_loop
parse_loop-stop fuel time p h = ground arith

pub parse_loop-step :
    (fuel time : ℕ) (p : Parse)
    → p.has_more ≡ true
    → parse_loop (suc fuel) time p ≡ parse_loop fuel time (parse_step time p)
unfolding parse_loop
parse_loop-step fuel time p h = ground arith

parse_loop-returns :
    (fuel time : ℕ) (p : Parse)
    → IsValid p.input
    → IsReading p.context.state
    → length (content p.input) + 1 < fuel
    → (q : Parse) × (parse_loop fuel time p ≡ some q) × IsValid q.input
parse_loop-returns zero time p v s h = absurd (omega arith)
parse_loop-returns (suc zero) time p v s h = absurd (omega arith)
parse_loop-returns (suc (suc fuel)) time p v s h = elim (Bool-cases p.has_more) [
  | inr stop ↦ (p, parse_loop-stop (suc fuel) time p stop, v)
  | inl more ↦
      let t : Turn p (parse_step time p) = unfold parse_step in parse_in-Turn time p s refl v in
      next t more (λ v' s' h'. parse_loop-returns (suc fuel) time (parse_step time p) v' s' h')
        t.progress
]
  where
    next :
        Turn p (parse_step time p)
        → p.has_more ≡ true
        → (IsValid (parse_step time p).input
            → IsReading (parse_step time p).context.state
            → length (content (parse_step time p).input) + 1 < suc fuel
            → (q : Parse) × (parse_loop (suc fuel) time (parse_step time p) ≡ some q)
              × IsValid q.input)
        → ((parse_step time p).has_more ≡ false)
          ⊎ (IsReading (parse_step time p).context.state
              × (length (content (parse_step time p).input) < length (content p.input)))
        → (q : Parse) × (parse_loop (suc (suc fuel)) time p ≡ some q) × IsValid q.input
    next t more go_on (inl stop) = (
      parse_step time p,
      parse_loop-step (suc fuel) time p more ∙ parse_loop-stop fuel time (parse_step time p) stop,
      t.valid,
    )
    next t more go_on (inr (reads, shorter)) =
        let (q, e, k) = go_on t.valid reads (omega arith) in
        (q, parse_loop-step (suc fuel) time p more ∙ e, k)

-- Reading a request line or headers, `parseRequest` returns, whatever the input: each turn that
-- goes on takes a line of at least two bytes.
pub parse_request-returns :
    (fuel time : ℕ) (c : Context) (b : Buffer)
    → IsValid b
    → IsReading c.state
    → length (content b) + 1 < fuel
    → (q : Parse) × (parse_request fuel time c b ≡ some q) × IsValid q.input
unfolding parse_request
parse_request-returns fuel time c b v s h = parse_loop-returns fuel time _ v s h

-- The other states, in which the body of the loop changes nothing.
pub data IsIdle : ParseState → Type 0 where
  idle_body : IsIdle expect_body
  idle_all : IsIdle got_all

parse_in_idle : {s : ParseState} (time : ℕ) (p : Parse) → IsIdle s → parse_in s time p ≡ p
unfolding parse_in
parse_in_idle time p idle_body = refl
parse_in_idle time p idle_all = refl

parse_step-idle : (time : ℕ) (p : Parse) → IsIdle p.context.state → parse_step time p ≡ p
unfolding parse_step
parse_step-idle time p s = parse_in_idle time p s

parse_loop-diverges :
    (fuel time : ℕ) (p : Parse)
    → IsIdle p.context.state
    → p.has_more ≡ true
    → parse_loop fuel time p ≡ none
parse_loop-diverges zero time p s h = unfold parse_loop in refl
parse_loop-diverges (suc fuel) time p s h =
    parse_loop-step fuel time p h
    ∙ ap (parse_loop fuel time) (parse_step-idle time p s)
    ∙ parse_loop-diverges fuel time p s h

-- In the states `kExpectBody` and `kGotAll` the loop of `parseRequest` never ends: no number of
-- turns suffices, on any input.
pub parse_request-diverges :
    (fuel time : ℕ) (c : Context) (b : Buffer) → IsIdle c.state → parse_request fuel time c b ≡ none
unfolding parse_request
parse_request-diverges fuel time c b s = parse_loop-diverges fuel time _ s refl

parse_in_incomplete :
    {s : ParseState} (time : ℕ) (p : Parse)
    → IsReading s
    → find_crlf p.input ≡ none
    → parse_in s time p ≡ record p { has_more = false }
unfolding parse_in parse_request_line parse_header
parse_in_incomplete time p reads_line e = rw e
parse_in_incomplete time p reads_headers e = rw e

pub parse_step_incomplete :
    (time : ℕ) (p : Parse)
    → IsReading p.context.state
    → find_crlf p.input ≡ none
    → parse_step time p ≡ record p { has_more = false }
unfolding parse_step
parse_step_incomplete time p s e = parse_in_incomplete time p s e

-- Without a CRLF in its input `parseRequest` answers false at once, and changes nothing.
pub parse_request_incomplete :
    (fuel time : ℕ) (c : Context) (b : Buffer)
    → IsReading c.state
    → find_crlf b ≡ none
    → 1 < fuel
    → parse_request fuel time c b
      ≡ some (record { ok = false; has_more = false; context = c; input = b })
unfolding parse_request
parse_request_incomplete zero time c b s e h = absurd (omega arith)
parse_request_incomplete (suc zero) time c b s e h = absurd (omega arith)
parse_request_incomplete (suc (suc fuel)) time c b s e h =
    let start : Parse = record { ok = false; has_more = true; context = c; input = b } in
    parse_loop-step (suc fuel) time start refl
    ∙ ap (parse_loop (suc fuel) time) (parse_step_incomplete time start s e)
    ∙ parse_loop-stop fuel time (record start { has_more = false }) refl
