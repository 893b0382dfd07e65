-- ===== src/Acceptor.antt =====
-- The class `TcpServerAcceptor` of src/net/Transport.cpp: a `TcpTransport` on the listening socket,
-- with its own `activate` and `handle_onread`.
use netyo.Prelude.{◌≡◌, arith, if◌then◌else◌, ◌==◌, some, none, ◌>>=◌, Option, ◌≢◌}
use netyo.Epoll.{Epoll}
use netyo.Posix.{Socket}
use netyo.Transport.{
  Conn, Protocol, activated, set_state, resume_reading, close, handle_onerror, handle_onclose,
}

module _ (e : Epoll) (c : Socket) where
  -- The body that `activate` hands to `call_soon`; the socket's option is not in the model.
  unfoldable pub acceptor_activate_in_loop : Conn e c → Conn e c
  acceptor_activate_in_loop t = set_state e c activated (resume_reading e c t)

  -- A call of an empty callback throws, a fault here.
  unfoldable pub acceptor_handle_onread : Protocol e c → Conn e c → Option (Conn e c)
  acceptor_handle_onread p t =
      let (k, error) = c.take_error t.socket in
      let t' : Conn e c = record t { socket = k } in
      if error == 0
      then (elim p.data_received_cb [ none ↦ none | some f ↦ f t' ])
      else (handle_onerror e c p t' >>= handle_onclose e c p)

  -- With a socket that has no error left after one has been read, an error of the listening socket is
  -- taken for none by the `handle_onerror` that follows: `handle_onread` comes to a `close` of the
  -- acceptor alone.
  pub acceptor_handle_onread-close :
      (p : Protocol e c) (t : Conn e c)
      → ((k : c.State) → (c.take_error (c.take_error k).0).1 ≡ 0)
      → (c.take_error t.socket).1 ≢ 0
      → acceptor_handle_onread p t
        ≡ close e c p (record t { socket = (c.take_error (c.take_error t.socket).0).0 })
  unfolding acceptor_handle_onread handle_onerror handle_onclose
  acceptor_handle_onread-close p t clears h = ground (arith, clears t.socket, h)
