-- ===== src/Net/Buffer/Room.antt =====
-- src/net/Buffer.h: `makeSpace` makes room for the bytes that are appended.
use a_tiny_network_library.Common.{
  ℕ, ◌+◌, ◌-◌, ◌^◌, ◌≤◌, ◌<◌, ◌≡◌, refl, sym, ap, ◌∙◌, some, List, ◌++◌, append_assoc, arith,
  length, take, drop, replicate, length-append, length-take, length-drop, length-replicate,
  take-all, le→leb, dec_lt, lt→ltb, le→ltb,
}
use a_tiny_network_library.Common.Word.{
  add_size, through_int, add_size-eq_of_lt, through_int-eq_of_lt,
}
use a_tiny_network_library.Net.Buffer.{
  Buffer, cheap_prepend, max_size, writable_bytes, prependable_bytes, copy_to, resize, move_down,
  make_space, ensure_writable_bytes,
}
use a_tiny_network_library.Net.Buffer.Layout.{
  IsValid, content, Regions, Regions-content, Regions-IsValid, content-Regions,
  length-content-readable, writable_bytes-eq, length-content, string_at-readable,
}

-- `b'` is `b` with room for `len` more bytes: the same content, and a vector that grows only if
-- the two free regions together are too small.
pub record MakesRoom (b : Buffer) (len : ℕ) (b' : Buffer) : Type 0 where
  pub valid : IsValid b'
  pub same : content b' ≡ content b
  pub room : b'.writer_index + len ≤ length b'.buffer
  pub bound : length b'.buffer ≤ length b.buffer + len
  pub reuse :
      cheap_prepend + length (content b) + len ≤ length b.buffer
      → length b'.buffer ≡ length b.buffer

module _ {b : Buffer} (v : IsValid b) (len : ℕ) where
  length-moved :
      cheap_prepend + length (content b) ≤ length b.buffer
      → length (
          take cheap_prepend b.buffer
          ++ (content b ++ drop (cheap_prepend + length (content b)) b.buffer))
        ≡ length b.buffer
  length-moved h = omega (
    arith,
    length-append (take cheap_prepend b.buffer)
        (content b ++ drop (cheap_prepend + length (content b)) b.buffer),
    length-append (content b) (drop (cheap_prepend + length (content b)) b.buffer),
    length-take cheap_prepend b.buffer,
    length-drop (cheap_prepend + length (content b)) b.buffer,
  )

  pub moved : Buffer
  moved = record {
    buffer =
        take cheap_prepend b.buffer
        ++ (content b ++ drop (cheap_prepend + length (content b)) b.buffer);
    reader_index = cheap_prepend;
    writer_index = cheap_prepend + length (content b);
  }

  moved-Regions : cheap_prepend + length (content b) ≤ length b.buffer → Regions moved (content b)
  unfolding moved
  moved-Regions h = record {
    pre = take cheap_prepend b.buffer;
    post = drop (cheap_prepend + length (content b)) b.buffer;
    shape = refl;
    reader = omega (arith, length-take cheap_prepend b.buffer);
    writer = omega (arith, length-take cheap_prepend b.buffer);
  }

  move_down-moved : cheap_prepend + length (content b) ≤ length b.buffer → move_down b ≡ some moved
  unfolding move_down moved copy_to
  move_down-moved h = rw (
    string_at-readable v,
    le→leb (cheap_prepend + length (content b)) (length b.buffer) h,
    sym (length-content-readable v),
    add_size-eq_of_lt cheap_prepend (length (content b)) (omega (arith, v.bounded)),
  )

  moved-MakesRoom :
      cheap_prepend + length (content b) + len ≤ length b.buffer → MakesRoom b len moved
  unfolding moved
  moved-MakesRoom h =
      let r : Regions moved (content b) = moved-Regions (omega arith) in
      let l : length moved.buffer ≡ length b.buffer = length-moved (omega arith) in
      record {
        valid = Regions-IsValid r (omega arith) (omega (arith, v.bounded));
        same = content-Regions r;
        room = omega arith;
        bound = omega arith;
        reuse = λ _. l;
      }

  grown : Buffer
  grown = record b { buffer = b.buffer ++ replicate (b.writer_index + len - length b.buffer) 0 }

  grown-MakesRoom :
      length b.buffer < b.writer_index + len
      → length b.buffer < cheap_prepend + length (content b) + len
      → b.writer_index + len ≤ max_size
      → MakesRoom b len grown
  unfolding grown
  grown-MakesRoom h needed k =
      let l : length grown.buffer ≡ b.writer_index + len = omega (
        arith,
        length-append b.buffer (replicate (b.writer_index + len - length b.buffer) 0),
        length-replicate {A = ℕ} (b.writer_index + len - length b.buffer) 0,
      ) in
      let old : Regions b (content b) = Regions-content v in
      let r : Regions grown (content b) = record {
        pre = old.pre;
        post = old.post ++ replicate (b.writer_index + len - length b.buffer) 0;
        shape =
            ap (λ (t : List ℕ). t ++ replicate (b.writer_index + len - length b.buffer) 0) old.shape
            ∙ rw (append_assoc, append_assoc);
        reader = old.reader;
        writer = old.writer;
      } in
      record {
        valid = Regions-IsValid r v.prepended (omega arith);
        same = content-Regions r;
        room = omega arith;
        bound = omega (arith, v.fits);
        reuse = λ enough. absurd (omega arith);
      }

  resize-grown :
      length b.buffer ≤ b.writer_index + len
      → b.writer_index + len ≤ max_size
      → resize (b.writer_index + len) b.buffer ≡ some grown.buffer
  unfolding resize grown
  resize-grown h k =
      rw (le→leb (b.writer_index + len) max_size k, take-all (b.writer_index + len) b.buffer h)

  -- The room that `makeSpace` compares, and what it asks for.
  free_room :
      add_size (writable_bytes b) (prependable_bytes b)
      ≡ length b.buffer - b.writer_index + b.reader_index
  unfolding prependable_bytes
  free_room = rw (writable_bytes-eq v) (
      add_size-eq_of_lt (length b.buffer - b.writer_index) b.reader_index
        (omega (arith, v.fits, v.ordered, v.bounded)))

  needed_room : len < 2 ^ 31 → add_size (through_int len) cheap_prepend ≡ len + cheap_prepend
  needed_room i =
      rw (through_int-eq_of_lt len i) (add_size-eq_of_lt len cheap_prepend (omega arith))

  grown_size :
      len < 2 ^ 31
      → b.writer_index + len ≤ max_size
      → add_size b.writer_index (through_int len) ≡ b.writer_index + len
  grown_size i k =
      rw (through_int-eq_of_lt len i) (add_size-eq_of_lt b.writer_index len (omega arith))

  make_space-MakesRoom :
      length b.buffer < b.writer_index + len
      → len < 2 ^ 31
      → b.writer_index + len ≤ max_size
      → (b' : Buffer) × (make_space len b ≡ some b') × MakesRoom b len b'
  unfolding make_space
  make_space-MakesRoom h i k =
      let n : ℕ = length b.buffer - b.writer_index + b.reader_index in
      elim (dec_lt n (len + cheap_prepend)) [
        | yes short ↦ (
          grown,
          rw
              (
                free_room,
                needed_room i,
                lt→ltb n (len + cheap_prepend) short,
                grown_size i k,
                resize-grown (omega arith) k,
              )
              (unfold grown in refl),
          grown-MakesRoom h (omega (arith, length-content v, v.ordered, v.fits)) k,
        )
        | no long ↦ (
          moved,
          rw (free_room, needed_room i, le→ltb n (len + cheap_prepend) (omega arith))
              (move_down-moved (omega (arith, length-content v, v.ordered, v.fits))),
          moved-MakesRoom (omega (arith, length-content v, v.ordered, v.fits)),
        )
      ]

  -- `ensureWritableBytes` always makes the room it is asked for, within the vector's limits.
  pub ensure_writable_bytes-MakesRoom :
      len < 2 ^ 31
      → b.writer_index + len ≤ max_size
      → (b' : Buffer) × (ensure_writable_bytes len b ≡ some b') × MakesRoom b len b'
  unfolding ensure_writable_bytes
  ensure_writable_bytes-MakesRoom i k = elim (dec_lt (length b.buffer - b.writer_index) len) [
    | yes short ↦
        rw (writable_bytes-eq v, lt→ltb (length b.buffer - b.writer_index) len short)
          (make_space-MakesRoom (omega (arith, v.fits)) i k)
    | no enough ↦
        rw (writable_bytes-eq v, le→ltb (length b.buffer - b.writer_index) len (omega arith))
          (
            b,
            refl,
            record {
              valid = v;
              same = refl;
              room = omega (arith, v.fits);
              bound = omega arith;
              reuse = λ _. refl;
            },
          )
  ]
