-- ===== src/Net/Buffer.antt =====
-- src/net/Buffer.h and src/net/Buffer.cc. A pointer into `buffer_` is an index into the vector.
-- `none` is a call that throws (`std::length_error` of `resize`) or leaves the vector's bounds.
pub mod Layout
pub mod Room
pub mod Append
pub mod Retrieve
pub mod Search
pub mod Fd
use a_tiny_network_library.Common.{
  ℕ, zero, suc, ◌+◌, ◌-◌, ◌^◌, ◌≡◌, Bool, true, false, ◌&&◌, Option, none, some, List, [], ◌∷◌,
  ◌++◌, ltb, leb, ◌==◌, if◌then◌else◌, length, take, drop, replicate, ◌>>=◌,
}
use a_tiny_network_library.Common.Posix.{ReadResult, got, read_error, WriteResult}
use a_tiny_network_library.Common.Word.{add_size, sub_size, through_int}

abbrev pub cheap_prepend : ℕ
cheap_prepend = 8

abbrev pub initial_size : ℕ
initial_size = 1024

-- `std::vector<char>::max_size()`.
abbrev pub max_size : ℕ
max_size = 2 ^ 63 - 1

pub record Buffer : Type 0 where
  pub buffer : List ℕ
  pub reader_index : ℕ
  pub writer_index : ℕ

unfoldable pub init : ℕ → Buffer
init size = record {
  buffer = replicate (cheap_prepend + size) 0;
  reader_index = cheap_prepend;
  writer_index = cheap_prepend;
}

unfoldable pub readable_bytes : Buffer → ℕ
readable_bytes b = sub_size b.writer_index b.reader_index

unfoldable pub writable_bytes : Buffer → ℕ
writable_bytes b = sub_size (length b.buffer) b.writer_index

unfoldable pub prependable_bytes : Buffer → ℕ
prependable_bytes b = b.reader_index

-- The index that `peek()` and `beginWrite()` point at.
abbrev pub peek : Buffer → ℕ
peek b = b.reader_index

abbrev pub begin_write : Buffer → ℕ
begin_write b = b.writer_index

unfoldable pub retrieve_all : Buffer → Buffer
retrieve_all b = record b { reader_index = cheap_prepend; writer_index = cheap_prepend }

unfoldable pub retrieve : ℕ → Buffer → Buffer
retrieve len b =
    if ltb len (readable_bytes b)
    then record b { reader_index = add_size b.reader_index len }
    else retrieve_all b

unfoldable pub retrieve_until : ℕ → Buffer → Buffer
retrieve_until end b = retrieve (sub_size end (peek b)) b

-- `std::string(first, len)` and `std::string(first, last)` over the vector.
unfoldable pub string_at : List ℕ → ℕ → ℕ → Option (List ℕ)
string_at v first len =
    if leb (first + len) (length v) then some (take len (drop first v)) else none

unfoldable pub get_buffer_all_as_string : Buffer → Option (List ℕ)
get_buffer_all_as_string b = string_at b.buffer (peek b) (readable_bytes b)

unfoldable pub retrieve_as_string : ℕ → Buffer → Option (List ℕ × Buffer)
retrieve_as_string len b = do
  result ← string_at b.buffer (peek b) len
  some (result, retrieve len b)

unfoldable pub retrieve_all_as_string : Buffer → Option (List ℕ × Buffer)
retrieve_all_as_string b = retrieve_as_string (readable_bytes b) b

-- `std::vector::resize`.
unfoldable pub resize : ℕ → List ℕ → Option (List ℕ)
resize n v = if leb n max_size then some (take n v ++ replicate (n - length v) 0) else none

-- `std::copy` of `xs` to the vector, from index `pos` on.
unfoldable pub copy_to : List ℕ → ℕ → List ℕ → Option (List ℕ)
copy_to xs pos v =
    if leb (pos + length xs) (length v)
    then some (take pos v ++ (xs ++ drop (pos + length xs) v))
    else none

-- Moves the readable bytes down to `kCheapPrepend`.
unfoldable pub move_down : Buffer → Option Buffer
move_down b = do
  let readable = readable_bytes b
  content ← string_at b.buffer b.reader_index readable
  v ← copy_to content cheap_prepend b.buffer
  some (record {
    buffer = v;
    reader_index = cheap_prepend;
    writer_index = add_size cheap_prepend readable;
  })

-- The argument is an `int`.
unfoldable pub make_space : ℕ → Buffer → Option Buffer
make_space len b =
    if ltb (add_size (writable_bytes b) (prependable_bytes b))
      (add_size (through_int len) cheap_prepend)
    then (do
      v ← resize (add_size b.writer_index (through_int len)) b.buffer
      some (record b { buffer = v }))
    else move_down b

unfoldable pub ensure_writable_bytes : ℕ → Buffer → Option Buffer
ensure_writable_bytes len b = if ltb (writable_bytes b) len then make_space len b else some b

unfoldable pub append : List ℕ → Buffer → Option Buffer
append str b = do
  b' ← ensure_writable_bytes (length str) b
  v ← copy_to str (begin_write b') b'.buffer
  some (record b' { buffer = v; writer_index = add_size b'.writer_index (length str) })

-- `std::search` for "\r\n": the position of its first occurrence in a text.
unfoldable pub search_crlf : List ℕ → Option ℕ
search_crlf [] = none
search_crlf (c ∷ []) = none
search_crlf (c ∷ d ∷ cs) =
    let rest = search_crlf (d ∷ cs) in
    if (c == 13) && (d == 10) then some 0 else rest >>= λ i. some (suc i)

-- `end == beginWrite()` is the answer NULL.
unfoldable pub find_crlf : Buffer → Option ℕ
find_crlf b = do
  i ← search_crlf (take (readable_bytes b) (drop (peek b) b.buffer))
  some (peek b + i)

abbrev pub extrabuf_size : ℕ
extrabuf_size = 65536

-- `readv` is given the room that the two blocks of its vector have together.
unfoldable pub read_room : Buffer → ℕ
read_room b =
    let writable = writable_bytes b in
    if ltb writable extrabuf_size then writable + extrabuf_size else writable

unfoldable pub store_read : ReadResult → Buffer → Option Buffer
store_read (read_error e) b = some b
store_read (got bytes) b =
    let writable = writable_bytes b in
    if leb (length bytes) writable
    then (do
      v ← copy_to bytes (begin_write b) b.buffer
      some (record b { buffer = v; writer_index = add_size b.writer_index (length bytes) }))
    else (do
      v ← copy_to (take writable bytes) (begin_write b) b.buffer
      append (drop writable bytes) (record b { buffer = v; writer_index = length v }))

unfoldable pub read_fd : (ℕ → ReadResult) → Buffer → Option (ReadResult × Buffer)
read_fd readv b = do let n = readv (read_room b); b' ← store_read n b; some (n, b')

unfoldable pub write_fd : (List ℕ → WriteResult) → Buffer → Option WriteResult
write_fd write b = do
  readable ← string_at b.buffer (peek b) (readable_bytes b)
  some (write readable)
