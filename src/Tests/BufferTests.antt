-- ===== src/Tests/BufferTests.antt =====
-- src/net/Buffer.h and src/net/Buffer.cc at small buffers.
use a_tiny_network_library.Common.{
  ℕ, ◌+◌, ◌≤◌, ◌^◌, ◌≡◌, ◌≢◌, List, ◌∷◌, ◌++◌, none, some, arith, length, take, drop, length-take,
}
use a_tiny_network_library.Common.Posix.{ReadResult, got}
use a_tiny_network_library.Common.Text.{codes}
use a_tiny_network_library.Net.Buffer.{
  Buffer, append, retrieve, find_crlf, make_space, read_fd, read_room, peek,
}
use a_tiny_network_library.Net.Buffer.Layout.{IsValid, content}
use a_tiny_network_library.Net.Buffer.Append.{Appended, append-Appended, make_space-none}
use a_tiny_network_library.Net.Buffer.Retrieve.{content-retrieve}
use a_tiny_network_library.Net.Buffer.Search.{find_crlf-first}
use a_tiny_network_library.Net.Buffer.Fd.{Received, WithinRoom, received, read_fd-Received}

-- "ab\r\ncd" in a vector with two free bytes behind it.
abbrev small : Buffer
small = record {
  buffer = codes "........ab" ++ (13 ∷ 10 ∷ codes "cd..");
  reader_index = 8;
  writer_index = 14;
}

small-IsValid : IsValid small
small-IsValid = record {
  prepended = omega arith;
  ordered = omega arith;
  fits = omega arith;
  bounded = omega arith;
}

append-Appended_example :
    (b : Buffer) × (append (codes "xyz") small ≡ some b) × Appended small (codes "xyz") b
append-Appended_example = append-Appended (codes "xyz") small-IsValid (omega arith) (omega arith)

make_space-none_example : make_space (2 ^ 31) small ≡ none
make_space-none_example =
    make_space-none (2 ^ 31) small-IsValid (omega arith) (omega arith) (omega arith)

content-retrieve_example : content (retrieve 3 small) ≡ drop 3 (content small)
content-retrieve_example = content-retrieve small-IsValid 3

find_crlf-first_example :
    ((end : ℕ)
      → find_crlf small ≡ some end
      → (line rest : List ℕ) × (content small ≡ line ++ (13 ∷ 10 ∷ rest))
        × (end ≡ peek small + length line)
        × ((l r : List ℕ) → content small ≡ l ++ (13 ∷ 10 ∷ r) → length line ≤ length l))
    × ((l r : List ℕ) → content small ≡ l ++ (13 ∷ 10 ∷ r) → find_crlf small ≢ none)
find_crlf-first_example = find_crlf-first small-IsValid

-- Five bytes arrive: three more than the vector has room for.
abbrev five_bytes : ℕ → ReadResult
five_bytes room = got (take room (codes "12345"))

five_bytes-WithinRoom : WithinRoom five_bytes
five_bytes-WithinRoom room = omega (arith, length-take room (codes "12345"))

read_fd-Received_example :
    (b : Buffer) × (read_fd five_bytes small ≡ some (five_bytes (read_room small), b))
    × Received small (received (five_bytes (read_room small))) b
read_fd-Received_example =
    read_fd-Received five_bytes small-IsValid five_bytes-WithinRoom (omega arith)
