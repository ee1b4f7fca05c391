-- ===== src/Logger/Logging/Stream.antt =====
-- src/logger/Logging.cc: the text that the stream of a line shows.
use a_tiny_network_library.Common.{
  ℕ, ◌+◌, ◌-◌, ◌≡◌, ◌≤◌, ◌<◌, refl, sym, ap, subst, ◌∙◌, true, List, [], ◌∷◌, ◌++◌, ltb, lt→ltb,
  le→leb, length, arith, append_assoc, append-nil, length-append,
}
use a_tiny_network_library.Logger.FixedBuffer.{
  FixedBuffer, avail, append, text_of, copy_in-cur, copy_in-text, copy_in-length,
}
use a_tiny_network_library.Logger.LogStream.{
  pos, formatted, format_integer, put_integer, put_string,
}
use a_tiny_network_library.Logger.LogStream.Digits.{length-formatted, put_integer-text}
use a_tiny_network_library.Logger.Logging.{put_all}
use a_tiny_network_library.Logger.LogFile.Lines.{joined}

-- The text in an array of a size.
pub record Shows (size : ℕ) (text : List ℕ) (b : FixedBuffer) : Type 0 where
  pub shown : text_of b ≡ text
  pub at : b.cur ≡ length text
  pub sized : length b.bytes ≡ size
  pub inside : length text ≤ size

pub append-Shows :
    {size : ℕ} {text : List ℕ} (more : List ℕ) (b : FixedBuffer)
    → length text + length more < size
    → Shows size text b
    → Shows size (text ++ more) (append more b)
unfolding avail append
append-Shows {size} {text} more b room s =
    let fits : ltb (length more) (length b.bytes - b.cur) ≡ true =
      lt→ltb (length more) (length b.bytes - b.cur) (omega (arith, room, s.at, s.sized)) in
    let here : b.cur + length more ≤ length b.bytes = omega (arith, room, s.at, s.sized) in
    rw fits (record {
      shown = copy_in-text more b here ∙ ap (λ t. t ++ more) s.shown;
      at = omega (arith, copy_in-cur more b, s.at, length-append text more);
      sized = copy_in-length more b here ∙ s.sized;
      inside = omega (arith, length-append text more, room);
    })

put_integer-cur :
    (n : ℕ) (b : FixedBuffer)
    → (put_integer (formatted (pos n)) b).cur ≡ b.cur + length (formatted (pos n))
unfolding put_integer
put_integer-cur n b = refl

pub format-Shows :
    {size : ℕ} {text : List ℕ} (n : ℕ) (b : FixedBuffer)
    → length text + 48 ≤ size
    → Shows size text b
    → Shows size (text ++ formatted (pos n)) (format_integer (pos n) b)
unfolding format_integer avail
format-Shows {size} {text} n b room s =
    let l = length-formatted (pos n) in
    let (t, v, k) =
      put_integer-text (formatted (pos n)) b (omega (arith, room, s.at, s.sized, l)) in
    rw (le→leb 48 (length b.bytes - b.cur) (omega (arith, room, s.at, s.sized))) (record {
      shown = t ∙ ap (λ u. u ++ formatted (pos n)) s.shown;
      at = omega (arith, s.at, put_integer-cur n b, length-append text (formatted (pos n)));
      sized = k ∙ s.sized;
      inside = omega (arith, room, length-append text (formatted (pos n)), l);
    })

pub put_all-Shows :
    {size : ℕ} {text : List ℕ} (texts : List (List ℕ)) (b : FixedBuffer)
    → length text + length (joined texts) < size
    → Shows size text b
    → Shows size (text ++ joined texts) (put_all texts b)
unfolding put_all put_string joined
put_all-Shows {size} {text} [] b room s = subst (λ t. Shows size t b) (sym (append-nil text)) s
put_all-Shows {size} {text} (t ∷ ts) b room s =
    let l = length-append t (joined ts) in
    subst (λ u. Shows size u (put_all ts (append t b))) (append_assoc text t (joined ts))
      (put_all-Shows ts (append t b) (omega (arith, room, l, length-append text t))
        (append-Shows t b (omega (arith, room, l)) s))
