-- ===== src/Net/InetAddress.antt =====
-- src/net/InetAddress.h and src/net/InetAddress.cc: an IPv4 address with a port. `ntop` is the text that
-- `inet_ntop` makes of an address.
use a_tiny_network_library.Common.{
  ℕ, ◌+◌, ◌*◌, ◌/◌, ◌%◌, ◌^◌, ◌≡◌, ◌≤◌, ◌<◌, List, ◌∷◌, ◌++◌, arith, length, length-append,
}
use a_tiny_network_library.Common.Decimal.{digits_of, decimal, length-digits_of}

-- `sin_port` is in network byte order, as a little-endian host reads its two bytes.
pub record InetAddress : Type 0 where
  pub sin_addr : ℕ
  pub sin_port : ℕ

-- `htons` and `ntohs` on such a host: the two bytes change places.
unfoldable pub swap_bytes : ℕ → ℕ
swap_bytes n = n % 256 * 256 + n / 256 % 256

abbrev pub inaddr_any : ℕ
inaddr_any = 0

-- The text of the address that is asked for is not used.
unfoldable pub init : (port : ℕ) (ip : List ℕ) → InetAddress
init port ip = record { sin_addr = inaddr_any; sin_port = swap_bytes port }

unfoldable pub to_ip : (ntop : ℕ → List ℕ) → InetAddress → List ℕ
to_ip ntop a = ntop a.sin_addr

unfoldable pub to_port : InetAddress → ℕ
to_port a = swap_bytes a.sin_port

unfoldable pub to_ip_port : (ntop : ℕ → List ℕ) → InetAddress → List ℕ
to_ip_port ntop a = ntop a.sin_addr ++ (b':' ∷ decimal (swap_bytes a.sin_port))

-- The port is the one that was asked for.
pub to_port-init : (port : ℕ) (ip : List ℕ) → port < 2 ^ 16 → to_port (init port ip) ≡ port
unfolding to_port init swap_bytes
to_port-init port ip h = omega arith

-- The text of an address and its port has at most 21 characters.
pub length-to_ip_port :
    (ntop : ℕ → List ℕ) (a : InetAddress)
    → length (ntop a.sin_addr) ≤ 15
    → length (to_ip_port ntop a) ≤ 21
unfolding to_ip_port swap_bytes decimal
length-to_ip_port ntop a h = omega (
  arith,
  h,
  length-append (ntop a.sin_addr)
      (b':' ∷ digits_of 20 (a.sin_port % 256 * 256 + a.sin_port / 256 % 256)),
  length-digits_of 20 4 (a.sin_port % 256 * 256 + a.sin_port / 256 % 256) (omega arith),
)
