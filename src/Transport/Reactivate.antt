-- ===== src/Transport/Reactivate.antt =====
-- `activate` of `TcpTransport` (src/net/Transport.cpp) where `connection_made_cb` closes the
-- connection.
use netyo.Prelude.{◌+◌, ◌≡◌, ◌∙◌, ap, arith, some, none, true, refl, Bool-cases, inl, inr}
use netyo.Epoll.{Epoll}
use netyo.Posix.{Socket}
use netyo.Channel.{is_reading}
use netyo.Transport.{
  activated, Conn, Protocol, run_cb, set_state, closed, reset_timeout, resume_reading,
  activate_in_loop, force_close,
}
use netyo.Transport.Close.{given_up, force_close-open}

module _ (e : Epoll) (c : Socket) (p : Protocol e c) where
  no_timeout : (t : Conn e c) → p.reset_timeout_cb ≡ none → reset_timeout e c p t ≡ some t
  unfolding reset_timeout
  no_timeout t h = simp h (ground arith)

  made :
      (t u : Conn e c)
      → run_cb e c p.connection_made_cb t ≡ some u
      → activate_in_loop e c p t
        ≡ reset_timeout e c p (set_state e c activated (resume_reading e c u))
  unfolding activate_in_loop
  made t u h = rw h

  resume_reading-lost : (t : Conn e c) → (resume_reading e c t).lost ≡ t.lost
  unfolding resume_reading
  resume_reading-lost t = elim (Bool-cases (is_reading t.channel)) [
    | inl q ↦ simp q
    | inr q ↦ simp q
  ]

  -- If `connection_made_cb` closes a connection, and so gives it up, `activate` sets the state back to
  -- `ACTIVATED`: the next `force_close` gives the connection up once more and calls
  -- `connection_lost_cb` again. (`reset_timeout_cb` is taken to be empty.)
  activate-force_close :
      (t u : Conn e c)
      → p.reset_timeout_cb ≡ none
      → run_cb e c p.connection_made_cb t ≡ some u
      → closed e c u ≡ true
      → let v = set_state e c activated (resume_reading e c u) in
        (activate_in_loop e c p t ≡ some v)
        × (force_close e c p v ≡ run_cb e c p.connection_lost_cb (given_up e c v))
        × ((given_up e c v).lost ≡ u.lost + 1)
  activate-force_close t u n h q =
      let v = set_state e c activated (resume_reading e c u) in
      (
        made t u h ∙ no_timeout v n,
        force_close-open e c p v refl,
        ap (λ k. k + 1) (resume_reading-lost u),
      )
