-- ===== src/Net/Buffer/Retrieve.antt =====
-- src/net/Buffer.h: taking bytes out.
use a_tiny_network_library.Common.{
  ℕ, ◌+◌, ◌-◌, ◌≤◌, ◌<◌, ◌≡◌, refl, sym, ◌∙◌, some, [], lt→ltb, dec_lt, true, arith, length, take,
  drop, ltb, le→leb, take-take, drop-all, drop-drop, drop-take,
}
use a_tiny_network_library.Common.Word.{add_size, sub_size, add_size-eq_of_lt, sub_size-eq_of_le}
use a_tiny_network_library.Net.Buffer.{
  Buffer, retrieve, retrieve_all, retrieve_until, retrieve_as_string, retrieve_all_as_string,
  readable_bytes, string_at, peek,
}
use a_tiny_network_library.Net.Buffer.Layout.{
  IsValid, content, readable_bytes-eq, length-content, string_at-readable,
}

pub retrieve_all-IsValid : {b : Buffer} → IsValid b → IsValid (retrieve_all b)
unfolding retrieve_all
retrieve_all-IsValid v = record {
  prepended = omega arith;
  ordered = omega arith;
  fits = omega (arith, v.prepended, v.ordered, v.fits);
  bounded = v.bounded;
}

pub content-retrieve_all : (b : Buffer) → content (retrieve_all b) ≡ []
unfolding retrieve_all
content-retrieve_all b = refl

module _ {b : Buffer} (v : IsValid b) (len : ℕ) where
  module _ (part : len < b.writer_index - b.reader_index) where
    add-reader : add_size b.reader_index len ≡ b.reader_index + len
    add-reader = add_size-eq_of_lt b.reader_index len (omega (arith, v.fits, v.bounded))

    part-readable : ltb len (readable_bytes b) ≡ true
    part-readable = rw (readable_bytes-eq v) (lt→ltb len (b.writer_index - b.reader_index) part)

    retrieve-part : retrieve len b ≡ record b { reader_index = b.reader_index + len }
    unfolding retrieve
    retrieve-part = rw (part-readable, add-reader)

  retrieve-rest : b.writer_index - b.reader_index ≤ len → retrieve len b ≡ retrieve_all b
  unfolding retrieve
  retrieve-rest h = rw (readable_bytes-eq v) (ground arith)

  -- Taking bytes out keeps the buffer's regions in order.
  pub retrieve-IsValid : IsValid (retrieve len b)
  retrieve-IsValid = elim (dec_lt len (b.writer_index - b.reader_index)) [
    | yes part ↦ rw (retrieve-part part) (record {
      prepended = omega (arith, v.prepended);
      ordered = omega arith;
      fits = v.fits;
      bounded = v.bounded;
    })
    | no all ↦ rw (retrieve-rest (omega arith)) (retrieve_all-IsValid v)
  ]

  -- `retrieve` drops that many bytes from the front, and all of them if there are fewer.
  pub content-retrieve : content (retrieve len b) ≡ drop len (content b)
  content-retrieve = elim (dec_lt len (b.writer_index - b.reader_index)) [
    | yes part ↦
        let e : b.writer_index - (b.reader_index + len) ≡ b.writer_index - b.reader_index - len =
          omega arith in
        rw (retrieve-part part, e)
          (rw (
            drop-take len (b.writer_index - b.reader_index) (drop b.reader_index b.buffer),
            drop-drop len b.reader_index (b.reader_index + len) b.buffer refl,
          ))
    | no all ↦
        rw (retrieve-rest (omega arith), content-retrieve_all b)
          (sym (drop-all len (content b) (omega (arith, length-content v))))
  ]

module _ {b : Buffer} (v : IsValid b) where
  -- A pointer into the readable bytes, `k` bytes on.
  pub retrieve_until-retrieve :
      (k : ℕ) → k ≤ b.writer_index - b.reader_index → retrieve_until (peek b + k) b ≡ retrieve k b
  unfolding retrieve_until
  retrieve_until-retrieve k h =
      let e : sub_size (peek b + k) (peek b) ≡ k =
        sub_size-eq_of_le (peek b + k) (peek b) (omega arith)
          (omega (arith, v.fits, v.bounded, v.ordered))
        ∙ omega arith in
      rw e

  string_at-take :
      (len : ℕ)
      → len ≤ length (content b)
      → string_at b.buffer (peek b) len ≡ some (take len (content b))
  unfolding string_at
  string_at-take len h = rw (
    le→leb (b.reader_index + len) (length b.buffer)
        (omega (arith, length-content v, v.ordered, v.fits)),
    take-take len (b.writer_index - b.reader_index) (drop b.reader_index b.buffer)
        (omega (arith, length-content v)),
  )

  -- For a length that the readable bytes cover, `retrieveAsString` returns the first bytes and
  -- leaves the others, in order, in a buffer that is still well formed.
  pub retrieve_as_string-split :
      (len : ℕ)
      → len ≤ length (content b)
      → (b' : Buffer) × (retrieve_as_string len b ≡ some (take len (content b), b'))
        × (content b' ≡ drop len (content b))
        × IsValid b'
  unfolding retrieve_as_string
  retrieve_as_string-split len h =
      (retrieve len b, rw (string_at-take len h), content-retrieve v len, retrieve-IsValid v len)

  -- `retrieveAllAsString` returns all the readable bytes and leaves none.
  pub retrieve_all_as_string-all :
      (b' : Buffer) × (retrieve_all_as_string b ≡ some (content b, b'))
      × (content b' ≡ [])
      × IsValid b'
  unfolding retrieve_all_as_string retrieve_as_string
  retrieve_all_as_string-all = (
    retrieve (readable_bytes b) b,
    rw (string_at-readable v),
    content-retrieve v (readable_bytes b)
        ∙ drop-all (readable_bytes b) (content b)
            (omega (arith, length-content v, readable_bytes-eq v)),
    retrieve-IsValid v (readable_bytes b),
  )

pub buffer-retrieve : (len : ℕ) (b : Buffer) → (retrieve len b).buffer ≡ b.buffer
unfolding retrieve retrieve_all
buffer-retrieve len b = ground arith
