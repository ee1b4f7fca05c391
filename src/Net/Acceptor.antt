-- ===== src/Net/Acceptor.antt =====
-- src/net/Acceptor.h and src/net/Acceptor.cc: the listening socket with its channel. What `accept4`
-- answers is an argument; that a socket cannot be created, bound or listened on is only logged.
use a_tiny_network_library.Common.{ℕ, Bool, true, false, List, [], ◌∷◌, Option, none, some}
use a_tiny_network_library.Net.InetAddress.{InetAddress}
use a_tiny_network_library.Net.Channel
use a_tiny_network_library.Net.Channel.{Channel, EventMask, enable_reading, disable_all}

pub record Acceptor : Type 0 where
  pub channel : Channel
  pub listenning : Bool
  pub has_callback : Bool

-- What the acceptor asks of the kernel, of its loop and of its owner.
pub data Effect : Type 0 where
  sets_reuse_addr : Bool → Effect
  sets_reuse_port : Bool → Effect
  binds : InetAddress → Effect
  listens : Effect
  updates_channel : EventMask → Effect
  removes_channel : Effect
  new_connection : (connfd : ℕ) → InetAddress → Effect
  closes : (connfd : ℕ) → Effect

-- The constructor, on the socket that was created. `reuseport` goes to the reuse of addresses, and the
-- reuse of ports is on whatever it says.
unfoldable pub init : (fd : ℕ) (reuseport : Bool) → InetAddress → Acceptor × List Effect
init fd reuseport listen_addr = (
  (let channel = Channel.init fd in
      record {
        channel = record channel { read_callback = true };
        listenning = false;
        has_callback = false;
      }),
  sets_reuse_addr reuseport ∷ sets_reuse_port true ∷ binds listen_addr ∷ [],
)

unfoldable pub set_new_connection_callback : Acceptor → Acceptor
set_new_connection_callback a = record a { has_callback = true }

unfoldable pub listen : Acceptor → Acceptor × List Effect
listen a =
    let channel = enable_reading a.channel in
    (
      record a { listenning = true; channel = channel },
      listens ∷ updates_channel channel.events ∷ [],
    )

-- `accept4`: a connection with the address of its peer, or none.
unfoldable pub handed : (has_callback : Bool) → Option (ℕ × InetAddress) → List Effect
handed has_callback none = []
handed true (some (connfd, peer)) = new_connection connfd peer ∷ []
handed false (some (connfd, peer)) = closes connfd ∷ []

unfoldable pub handle_read : Option (ℕ × InetAddress) → Acceptor → List Effect
handle_read accepted a = handed a.has_callback accepted

unfoldable pub destroy : Acceptor → Acceptor × List Effect
destroy a =
    let channel = disable_all a.channel in
    (record a { channel = channel }, updates_channel channel.events ∷ removes_channel ∷ [])
