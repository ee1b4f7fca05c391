-- ===== src/Net/Buffer/Layout.antt =====
-- src/net/Buffer.h: the three regions of the vector, and what the readable one holds.
use a_tiny_network_library.Common.{
  ℕ, ◌+◌, ◌-◌, ◌≤◌, ◌≡◌, refl, sym, ap, ◌∙◌, some, List, [], ◌++◌, append_assoc, arith, length,
  take, drop, length-append, length-take, length-drop, length-replicate, take-append-drop,
  take-append, drop-append, drop-append_ge, le→leb,
}
use a_tiny_network_library.Common.Word.{sub_size-eq_of_le}
use a_tiny_network_library.Net.Buffer.{
  Buffer, cheap_prepend, max_size, init, readable_bytes, writable_bytes, peek, string_at, copy_to,
}

-- prependable bytes | readable bytes | writable bytes
pub record IsValid (b : Buffer) : Type 0 where
  pub prepended : cheap_prepend ≤ b.reader_index
  pub ordered : b.reader_index ≤ b.writer_index
  pub fits : b.writer_index ≤ length b.buffer
  pub bounded : length b.buffer ≤ max_size

-- The readable bytes.
abbrev pub content : Buffer → List ℕ
content b = take (b.writer_index - b.reader_index) (drop b.reader_index b.buffer)

-- The vector cut into its regions, with `xs` in the middle.
pub record Regions (b : Buffer) (xs : List ℕ) : Type 0 where
  pub pre : List ℕ
  pub post : List ℕ
  pub shape : b.buffer ≡ pre ++ (xs ++ post)
  pub reader : b.reader_index ≡ length pre
  pub writer : b.writer_index ≡ length pre + length xs

pub Regions-content : {b : Buffer} → IsValid b → Regions b (content b)
Regions-content {b} v = record {
  pre = take b.reader_index b.buffer;
  post = drop (b.writer_index - b.reader_index) (drop b.reader_index b.buffer);
  shape = sym (
      ap (◌++◌ (take b.reader_index b.buffer))
        (take-append-drop (b.writer_index - b.reader_index) (drop b.reader_index b.buffer))
      ∙ take-append-drop b.reader_index b.buffer);
  reader = omega (arith, length-take b.reader_index b.buffer);
  writer = omega (
    arith,
    length-take b.reader_index b.buffer,
    length-take (b.writer_index - b.reader_index) (drop b.reader_index b.buffer),
    length-drop b.reader_index b.buffer,
  );
}

module _ {b : Buffer} {xs : List ℕ} (r : Regions b xs) where
  pub Regions-length : length b.buffer ≡ b.writer_index + length r.post
  Regions-length = omega (
    arith,
    ap length r.shape,
    length-append r.pre (xs ++ r.post),
    length-append xs r.post,
    r.reader,
    r.writer,
  )

  pub Regions-drop : drop b.reader_index b.buffer ≡ xs ++ r.post
  Regions-drop = rw r.shape (drop-append r.pre (xs ++ r.post) b.reader_index r.reader)

  pub Regions-take : take b.writer_index b.buffer ≡ r.pre ++ xs
  Regions-take =
      rw (r.shape, ← append_assoc)
        (take-append (r.pre ++ xs) r.post b.writer_index
          (omega (arith, r.writer, length-append r.pre xs)))

  pub content-Regions : content b ≡ xs
  content-Regions =
      rw Regions-drop (
        take-append xs r.post (b.writer_index - b.reader_index) (omega (arith, r.reader, r.writer)))

  pub Regions-IsValid : cheap_prepend ≤ b.reader_index → length b.buffer ≤ max_size → IsValid b
  Regions-IsValid h k = record {
    prepended = h;
    ordered = omega (arith, r.reader, r.writer);
    fits = omega (arith, Regions-length);
    bounded = k;
  }

module _ {b : Buffer} (v : IsValid b) where
  pub readable_bytes-eq : readable_bytes b ≡ b.writer_index - b.reader_index
  unfolding readable_bytes
  readable_bytes-eq =
      sub_size-eq_of_le b.writer_index b.reader_index v.ordered (omega (arith, v.fits, v.bounded))

  pub writable_bytes-eq : writable_bytes b ≡ length b.buffer - b.writer_index
  unfolding writable_bytes
  writable_bytes-eq =
      sub_size-eq_of_le (length b.buffer) b.writer_index v.fits (omega (arith, v.bounded))

  pub length-content : length (content b) ≡ b.writer_index - b.reader_index
  length-content = omega (
    arith,
    length-take (b.writer_index - b.reader_index) (drop b.reader_index b.buffer),
    length-drop b.reader_index b.buffer,
    v.ordered,
    v.fits,
  )

  pub length-content-readable : length (content b) ≡ readable_bytes b
  length-content-readable = omega (arith, length-content, readable_bytes-eq)

  -- The readable bytes can be read.
  pub string_at-readable : string_at b.buffer (peek b) (readable_bytes b) ≡ some (content b)
  unfolding string_at
  string_at-readable = rw (
    readable_bytes-eq,
    le→leb (b.reader_index + (b.writer_index - b.reader_index)) (length b.buffer)
        (omega (arith, v.ordered, v.fits)),
  )

-- A copy into the vector, cut at the place written.
pub copy_to-append :
    (pre old post xs : List ℕ) (pos : ℕ)
    → pos ≡ length pre
    → length xs ≡ length old
    → copy_to xs pos (pre ++ (old ++ post)) ≡ some (pre ++ (xs ++ post))
unfolding copy_to
copy_to-append pre old post xs pos e k = rw (
  le→leb (pos + length xs) (length (pre ++ (old ++ post)))
      (omega (arith, length-append pre (old ++ post), length-append old post)),
  take-append pre (old ++ post) pos e,
  drop-append_ge pre (old ++ post) (pos + length xs) (length xs) (omega arith),
  drop-append old post (length xs) k,
)

pub init-IsValid : (size : ℕ) → cheap_prepend + size ≤ max_size → IsValid (init size)
unfolding init
init-IsValid size h = record {
  prepended = omega arith;
  ordered = omega arith;
  fits = omega (arith, length-replicate {A = ℕ} (cheap_prepend + size) 0);
  bounded = omega (arith, length-replicate {A = ℕ} (cheap_prepend + size) 0);
}

pub content-init : (size : ℕ) → content (init size) ≡ []
unfolding init
content-init size = refl

pub length-init : (size : ℕ) → length (init size).buffer ≡ cheap_prepend + size
unfolding init
length-init size = length-replicate {A = ℕ} (cheap_prepend + size) 0
