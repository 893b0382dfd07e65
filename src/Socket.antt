-- ===== src/Socket.antt =====
-- The class `Socket` of src/net/Socket.h, over the system calls of Posix/Calls and the addresses of
-- Inet. An operation takes the system's state and gives the new one. `none` is an `exit` of the program.
pub mod Transfer
use netyo.Prelude.{
  ℕ, ◌+◌, ◌≡◌, Bool, true, false, Option, none, some, List, [], ◌∷◌, ◌++◌, if◌then◌else◌, ltb,
  ◌>>=◌, zero, suc,
}
use netyo.Prelude.Int.{ℤ, pos, negsuc}
use netyo.Inet.{Addresses, InetAddr, zero_addr, sockaddrlen, text, af_inet}
use netyo.Posix.Calls.{Calls}

pub record Socket : Type 0 where
  pub sock_fd : ℤ
  pub localaddr : InetAddr
  pub addr_pair : List ℕ

abbrev pub negative : ℤ → Bool
negative (pos n) = false
negative (negsuc n) = true

abbrev pub sol_socket : ℕ
sol_socket = 1

abbrev pub so_reuseaddr : ℕ
so_reuseaddr = 2

abbrev pub so_reuseport : ℕ
so_reuseport = 15

abbrev pub so_keepalive : ℕ
so_keepalive = 9

abbrev pub ipproto_tcp : ℕ
ipproto_tcp = 6

abbrev pub tcp_nodelay : ℕ
tcp_nodelay = 1

abbrev pub somaxconn : ℕ
somaxconn = 4096

-- `SOCK_STREAM | SOCK_NONBLOCK | SOCK_CLOEXEC`
abbrev pub default_type : ℕ
default_type = 1 + 2048 + 524288

-- `Socket()`
abbrev pub no_socket : Socket
no_socket = record { sock_fd = negsuc 0; localaddr = zero_addr; addr_pair = [] }

-- `Socket(Socket && other)`: the new socket, and what is left in the old one.
unfoldable pub move_from : Socket → Socket × Socket
move_from other = (
  record no_socket { sock_fd = other.sock_fd; localaddr = other.localaddr },
  record other { sock_fd = no_socket.sock_fd; localaddr = no_socket.localaddr },
)

module _ (c : Calls InetAddr) where
  open c use {State}

  -- `getsockname()` and `getpeername()`
  unfoldable pub sock_name : State → ℤ → InetAddr
  sock_name k fd = elim (c.getsockname k fd) [ none ↦ zero_addr | some a ↦ a ]

  unfoldable pub peer_name : State → ℤ → InetAddr
  peer_name k fd = elim (c.getpeername k fd) [ none ↦ zero_addr | some a ↦ a ]

  -- `Socket(family, type, proto)`
  unfoldable pub new_socket : State → ℕ → ℕ → ℕ → Option (State × Socket)
  new_socket k family type proto =
      let (k', fd) = c.socket k family type proto in
      if negative fd then none else some (k', record no_socket { sock_fd = fd })

  -- `Socket(sock_fd)`
  unfoldable pub of_fd : State → ℤ → Socket
  unfolding sock_name
  of_fd k fd = record { sock_fd = fd; localaddr = sock_name k fd; addr_pair = [] }

  -- `close()`, which the destructor calls.
  unfoldable pub close_socket : Socket → State → State
  close_socket s k = elim s.sock_fd [
    | pos zero ↦ k
    | pos (suc n) ↦ c.close k (suc n)
    | negsuc n ↦ k
  ]

  unfoldable pub set_option : Socket → ℕ → ℕ → ℕ → State → State
  set_option s level optname value k = c.setsockopt k s.sock_fd level optname value

  -- `bind(localaddr)`, `connect(localaddr)` and `listen()`, with their results.
  unfoldable pub bind_socket : Socket → InetAddr → State → State × Socket × ℤ
  unfolding sock_name sockaddrlen
  bind_socket s addr k =
      let (k', res) = c.bind k s.sock_fd addr (sockaddrlen addr) in
      if negative res
      then (k', s, res)
      else (k', record s { localaddr = sock_name k' s.sock_fd }, res)

  unfoldable pub connect_socket : Socket → InetAddr → State → State × Socket × ℤ
  unfolding sock_name sockaddrlen
  connect_socket s addr k =
      let (k', res) = c.connect k s.sock_fd addr (sockaddrlen addr) in
      if negative res
      then (k', s, res)
      else (k', record s { localaddr = sock_name k' s.sock_fd }, res)

  unfoldable pub listen_socket : Socket → State → State × ℤ
  listen_socket s k = c.listen k s.sock_fd somaxconn

  -- `accept()`, `shutdown(op)` and `send(data, len)`.
  unfoldable pub accept_socket : Socket → State → State × Socket
  unfolding of_fd
  accept_socket s k = let (k', connfd) = c.accept4 k s.sock_fd in (k', of_fd k' connfd)

  unfoldable pub shutdown_socket : Socket → ℕ → State → State × ℤ
  shutdown_socket s op k = c.shutdown k s.sock_fd op

  unfoldable pub send_socket : Socket → ℕ → State → State × ℤ
  send_socket s len k = c.write k s.sock_fd len

  -- `getsockerr()`
  unfoldable pub sock_err : Socket → State → State × ℕ
  sock_err s k =
      let (k', got) = c.sock_error k s.sock_fd in
      elim got [ none ↦ (k', c.errno k') | some optval ↦ (k', optval) ]

  -- `operator string()`, which keeps what it has made.
  unfoldable pub socket_text : Addresses → Socket → State → Socket × List ℕ
  unfolding text peer_name
  socket_text a s k = elim s.addr_pair [
    | [] ↦
        let made = text a s.localaddr ++ 124 ∷ text a (peer_name k s.sock_fd) in
        (record s { addr_pair = made }, made)
    | x ∷ xs ↦ (s, x ∷ xs)
  ]

  -- `server_socket(localaddr)`; the result of `bind` is dropped.
  unfoldable pub server_socket : InetAddr → State → Option (State × Socket)
  unfolding new_socket set_option bind_socket
  server_socket addr k = do
    made ← new_socket k af_inet default_type ipproto_tcp
    let s = made.1
    let k1 = set_option s sol_socket so_reuseaddr 1 made.0
    let k2 = set_option s sol_socket so_reuseport 1 k1
    let bound = bind_socket s addr k2
    some (bound.0, bound.1)

  -- `Transport(loop, socket, channel_protocol)` of src/net/Transport.cpp: the socket that the connection
  -- has, and what is left in the one that it was given, on which the options are set.
  unfoldable pub take_socket : Socket → State → State × Socket × Socket
  unfolding move_from set_option
  take_socket given k =
      let (own, left) = move_from given in
      let k1 = set_option left sol_socket so_keepalive 1 k in
      let k2 = set_option left ipproto_tcp tcp_nodelay 1 k1 in (k2, own, left)
