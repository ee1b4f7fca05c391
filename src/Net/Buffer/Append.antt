-- ===== src/Net/Buffer/Append.antt =====
-- src/net/Buffer.h: making room and putting bytes in.
use a_tiny_network_library.Common.{
  ℕ, ◌+◌, ◌^◌, ◌≤◌, ◌<◌, ◌≡◌, refl, ap, ◌∙◌, none, some, ◌%◌, List, ◌++◌, append_assoc, arith,
  length, take, drop, length-append, length-take, length-drop, le→leb, le→ltb, ◌>>=◌,
}
use a_tiny_network_library.Common.Word.{add_size, through_int, add_size-eq_of_lt}
use a_tiny_network_library.Net.Buffer.{
  Buffer, cheap_prepend, max_size, prependable_bytes, copy_to, resize, make_space, append,
}
use a_tiny_network_library.Net.Buffer.Layout.{
  IsValid, content, Regions, Regions-content, Regions-IsValid, Regions-take, content-Regions,
  writable_bytes-eq,
}
use a_tiny_network_library.Net.Buffer.Room.{ensure_writable_bytes-MakesRoom}

-- What `append` leaves: the old content with `str` behind it, in a well-formed buffer, and a
-- vector that grew only if the free room was too small.
pub record Appended (b : Buffer) (str : List ℕ) (b' : Buffer) : Type 0 where
  pub valid : IsValid b'
  pub extended : content b' ≡ content b ++ str
  pub bound : length b'.buffer ≤ length b.buffer + length str
  pub reuse :
      cheap_prepend + length (content b) + length str ≤ length b.buffer
      → length b'.buffer ≡ length b.buffer

-- Writing `str` at the writer index of a buffer with room for it.
module _ {b : Buffer} (v : IsValid b) (str : List ℕ)
    (room : b.writer_index + length str ≤ length b.buffer) where
  unfoldable pub written : Buffer
  written = record b {
    buffer = take b.writer_index b.buffer ++ (str ++ drop (b.writer_index + length str) b.buffer);
    writer_index = b.writer_index + length str;
  }

  pub written-Regions : Regions written (content b ++ str)
  unfolding written
  written-Regions =
      let r : Regions b (content b) = Regions-content v in
      record {
        pre = r.pre;
        post = drop (b.writer_index + length str) b.buffer;
        shape = rw (Regions-take r) (simp append_assoc);
        reader = r.reader;
        writer = omega (arith, r.writer, length-append (content b) str);
      }

  pub length-written : length written.buffer ≡ length b.buffer
  unfolding written
  length-written = omega (
    arith,
    length-append (take b.writer_index b.buffer)
        (str ++ drop (b.writer_index + length str) b.buffer),
    length-append str (drop (b.writer_index + length str) b.buffer),
    length-take b.writer_index b.buffer,
    length-drop (b.writer_index + length str) b.buffer,
  )

  pub copy_to-written : copy_to str b.writer_index b.buffer ≡ some written.buffer
  unfolding written copy_to
  copy_to-written = rw (le→leb (b.writer_index + length str) (length b.buffer) room)

  -- The step that `append` and `readFd` share.
  pub store_lem :
      (b' : Buffer) × ((copy_to str b.writer_index b.buffer >>= λ w.
      some (record b { buffer = w; writer_index = add_size b.writer_index (length str) }))
        ≡ some b')
      × Regions b' (content b ++ str)
      × (b'.reader_index ≡ b.reader_index)
      × (length b'.buffer ≡ length b.buffer)
  store_lem = (
    written,
    rw (copy_to-written, add_size-eq_of_lt b.writer_index (length str) (omega (arith, v.bounded)))
        (unfold written in refl),
    written-Regions,
    unfold written in refl,
    length-written,
  )

-- Under the size limits of the code (`makeSpace` takes an `int`) `append` succeeds.
pub append-Appended :
    {b : Buffer} (str : List ℕ)
    → IsValid b
    → length str < 2 ^ 31
    → length b.buffer + length str ≤ max_size
    → (b' : Buffer) × (append str b ≡ some b') × Appended b str b'
unfolding append
append-Appended {b} str v i k =
    let (b1, e1, m) = ensure_writable_bytes-MakesRoom v (length str) i (omega (arith, v.fits)) in
    let (b2, e2, r, same, size) = store_lem m.valid str m.room in
    (
      b2,
      rw e1 e2,
      record {
        valid =
            Regions-IsValid r (omega (arith, same, m.valid.prepended))
              (omega (arith, size, m.bound));
        extended = content-Regions r ∙ ap (λ (t : List ℕ). t ++ str) m.same;
        bound = omega (arith, size, m.bound);
        reuse = λ enough. size ∙ m.reuse enough;
      },
    )

-- The `int` that `makeSpace` takes is negative from 2^31 on: where it is asked for so much room,
-- it asks `resize` for more than a vector can hold, which throws.
pub make_space-none :
    {b : Buffer} (len : ℕ)
    → IsValid b
    → 2 ^ 31 ≤ len
    → len + cheap_prepend < 2 ^ 32
    → b.writer_index + len < 2 ^ 32
    → make_space len b ≡ none
unfolding make_space through_int add_size resize prependable_bytes
make_space-none {b} len v h k i =
    let e : len % 2 ^ 32 ≡ len = omega arith in
    rw (writable_bytes-eq v, e, le→ltb len (2 ^ 31) h)
      (ground (arith, v.fits, v.bounded, v.ordered))
