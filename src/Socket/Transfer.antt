-- ===== src/Socket/Transfer.antt =====
-- The way of a descriptor through the sockets of src/net/Socket.h into a connection of
-- src/net/Transport.cpp.
use netyo.Prelude.{ℕ, zero, suc, ◌≡◌, List, ◌⊎◌, refl, inl, inr}
use netyo.Prelude.Int.{ℤ, pos, negsuc}
use netyo.Inet.{InetAddr}
use netyo.Posix.Calls.{Calls}
use netyo.Socket.{
  Socket, move_from, of_fd, close_socket, set_option, accept_socket, take_socket, sol_socket,
  so_keepalive, ipproto_tcp, tcp_nodelay,
}

module _ (c : Calls InetAddr) where
  -- The calls of `setsockopt` for a connection, on a descriptor.
  abbrev pub options_set : ℤ → c.State → c.State
  options_set fd k =
      c.setsockopt (c.setsockopt k fd sol_socket so_keepalive 1) fd ipproto_tcp tcp_nodelay 1

  -- The end of a socket.
  abbrev pub Ends : Socket → c.State → Type 0
  Ends s k =
      ((n : ℕ) × (s.sock_fd ≡ pos (suc n)) × (close_socket c s k ≡ c.close k (suc n)))
      ⊎ ((s.sock_fd ≡ pos 0) ⊎ ((n : ℕ) × (s.sock_fd ≡ negsuc n))) × (close_socket c s k ≡ k)

  close_socket-Ends :
      (fd : ℤ) (a : InetAddr) (t : List ℕ) (k : c.State)
      → Ends (record { sock_fd = fd; localaddr = a; addr_pair = t }) k
  unfolding close_socket
  close_socket-Ends (pos zero) a t k = inr (inl refl, refl)
  close_socket-Ends (pos (suc n)) a t k = inl (n, refl, refl)
  close_socket-Ends (negsuc n) a t k = inr (inr (n, refl), refl)

  -- A connection that is made of an accepted socket has the descriptor that was accepted; its options
  -- are set on the descriptor -1. The end of the socket that it was made of closes nothing, before or
  -- after that of the connection's own, which closes the descriptor, once, if it is positive.
  accept_socket-take_socket :
      (s : Socket) (k : c.State)
      → let (k1, accepted) = accept_socket c s k in
        let (k2, own, left) = take_socket c accepted k1 in
        (own.sock_fd ≡ (c.accept4 k s.sock_fd).1)
        × (k2 ≡ options_set (negsuc 0) k1)
        × (close_socket c left k2 ≡ k2)
        × (close_socket c own (close_socket c left k2)
            ≡ close_socket c left (close_socket c own k2))
        × Ends own k2
  unfolding accept_socket take_socket close_socket move_from set_option of_fd
  accept_socket-take_socket s k =
      let (k1, accepted) = accept_socket c s k in
      let (k2, own, left) = take_socket c accepted k1 in
      (refl, refl, refl, refl, close_socket-Ends own.sock_fd own.localaddr own.addr_pair k2)
