-- ===== src/Net/Buffer/Fd.antt =====
-- src/net/Buffer.cc: `readFd` and `writeFd`. The system call is an argument.
use a_tiny_network_library.Common.{
  ℕ, ◌+◌, ◌-◌, ◌^◌, ◌≤◌, ◌<◌, ◌≡◌, refl, sym, ap, ◌∙◌, some, List, [], ◌++◌, append_assoc,
  append-nil, ◌⊎◌, arith, length, take, drop, length-take, length-drop, take-append-drop, dec_le,
  le→leb, lt→leb,
}
use a_tiny_network_library.Common.Posix.{ReadResult, got, read_error, WriteResult}
use a_tiny_network_library.Net.Buffer.{
  Buffer, max_size, extrabuf_size, read_room, store_read, read_fd, write_fd,
}
use a_tiny_network_library.Net.Buffer.Layout.{
  IsValid, content, Regions, Regions-IsValid, content-Regions, writable_bytes-eq,
  string_at-readable,
}
use a_tiny_network_library.Net.Buffer.Append.{
  append-Appended, store_lem, written, written-Regions, length-written, copy_to-written,
}

-- The bytes that an answer of `readv` delivers.
abbrev pub received : ReadResult → List ℕ
received (got bytes) = bytes
received (read_error e) = []

-- What POSIX promises of `readv`: never more bytes than the blocks hold.
abbrev pub WithinRoom : (ℕ → ReadResult) → Type 0
WithinRoom readv = (room : ℕ) → length (received (readv room)) ≤ room

-- The buffer after a read: the content with the bytes received behind it.
pub record Received (b : Buffer) (bytes : List ℕ) (b' : Buffer) : Type 0 where
  pub valid : IsValid b'
  pub extended : content b' ≡ content b ++ bytes

module _ {b : Buffer} (v : IsValid b) (bytes : List ℕ) where
  store_read-fits :
      b.writer_index + length bytes ≤ length b.buffer
      → (b' : Buffer) × (store_read (got bytes) b ≡ some b') × Received b bytes b'
  unfolding store_read
  store_read-fits h =
      let (b', e, r, same, size) = store_lem v bytes h in
      (
        b',
        rw
            (
              writable_bytes-eq v,
              le→leb (length bytes) (length b.buffer - b.writer_index) (omega arith),
            )
            e,
        record {
          valid =
              Regions-IsValid r (omega (arith, same, v.prepended)) (omega (arith, size, v.bounded));
          extended = content-Regions r;
        },
      )

  -- The first part fills the vector, `append` takes the rest from the stack.
  module _ (over : length b.buffer < b.writer_index + length bytes) where
    fill : ℕ
    fill = length b.buffer - b.writer_index

    length-fill : length (take fill bytes) ≡ length b.buffer - b.writer_index
    unfolding fill
    length-fill = omega (arith, length-take fill bytes)

    fill_room : b.writer_index + length (take fill bytes) ≤ length b.buffer
    fill_room = omega (arith, length-fill, v.fits)

    filled : Buffer
    filled = record b {
      buffer = (written v (take fill bytes) fill_room).buffer;
      writer_index = length (written v (take fill bytes) fill_room).buffer;
    }

    length-filled : length filled.buffer ≡ length b.buffer
    unfolding filled
    length-filled = length-written v (take fill bytes) fill_room

    filled-Regions : Regions filled (content b ++ take fill bytes)
    unfolding filled written
    filled-Regions =
        let r : Regions (written v (take fill bytes) fill_room) (content b ++ take fill bytes) =
          written-Regions v (take fill bytes) fill_room in
        record {
          pre = r.pre;
          post = r.post;
          shape = r.shape;
          reader = r.reader;
          writer =
              length-written v (take fill bytes) fill_room
              ∙ omega (arith, r.writer, length-fill, v.fits);
        }

    filled-IsValid : IsValid filled
    filled-IsValid =
        Regions-IsValid filled-Regions (unfold filled in v.prepended)
          (omega (arith, length-filled, v.bounded))

    store_read-spills :
        length bytes < 2 ^ 31
        → b.writer_index + length bytes ≤ max_size
        → (b' : Buffer) × (store_read (got bytes) b ≡ some b') × Received b bytes b'
    unfolding store_read fill
    store_read-spills i k =
        let (b', e, a) =
          append-Appended (drop fill bytes) filled-IsValid (omega (arith, length-drop fill bytes))
            (omega (arith, length-drop fill bytes, length-filled, v.fits)) in
        (
          b',
          rw
              (
                writable_bytes-eq v,
                lt→leb (length bytes) fill (omega arith),
                copy_to-written v (take fill bytes) fill_room,
              )
              (unfold filled in e),
          record {
            valid = a.valid;
            extended =
                a.extended
                ∙ ap (λ (t : List ℕ). t ++ drop fill bytes) (content-Regions filled-Regions)
                ∙ rw append_assoc (ap (◌++◌ (content b)) (take-append-drop fill bytes));
          },
        )

-- `readv` is offered the free room of the vector, and the stack buffer if that room is smaller.
read_room-eq :
    {b : Buffer}
    → IsValid b
    → (read_room b ≡ length b.buffer - b.writer_index)
      ⊎ (length b.buffer - b.writer_index < extrabuf_size)
        × (read_room b ≡ length b.buffer - b.writer_index + extrabuf_size)
unfolding read_room
read_room-eq {b} v = rw (writable_bytes-eq v) (ground arith)

store_read-Received :
    {b : Buffer} (n : ReadResult)
    → IsValid b
    → length (received n) ≤ read_room b
    → length b.buffer + extrabuf_size ≤ max_size
    → (b' : Buffer) × (store_read n b ≡ some b') × Received b (received n) b'
store_read-Received {b} (got bytes) v w k =
    elim (dec_le (b.writer_index + length bytes) (length b.buffer)) [
      | yes fits ↦ store_read-fits v bytes fits
      | no over ↦
          store_read-spills v bytes (omega arith) (omega (arith, read_room-eq v))
            (omega (arith, read_room-eq v, v.fits))
    ]
store_read-Received {b} (read_error e) v w k =
    (b, unfold store_read in refl, record { valid = v; extended = sym (append-nil (content b)) })

-- `readFd` on a well-formed buffer, whatever `readv` answers within the room it is offered: the
-- bytes received go behind the content, also where they spill over into the stack buffer; an error
-- changes no content; the answer is passed on. The vector must have 64 KB left to its maximal size.
pub read_fd-Received :
    {b : Buffer} (readv : ℕ → ReadResult)
    → IsValid b
    → WithinRoom readv
    → length b.buffer + extrabuf_size ≤ max_size
    → (b' : Buffer) × (read_fd readv b ≡ some (readv (read_room b), b'))
      × Received b (received (readv (read_room b))) b'
unfolding read_fd
read_fd-Received {b} readv v w k =
    let (b', e, r) = store_read-Received (readv (read_room b)) v (w (read_room b)) k in
    (b', rw e, r)

-- `writeFd` offers exactly the readable bytes to `write` and passes its answer on.
pub write_fd-content :
    {b : Buffer} (write : List ℕ → WriteResult)
    → IsValid b
    → write_fd write b ≡ some (write (content b))
unfolding write_fd
write_fd-content write v = rw (string_at-readable v)
