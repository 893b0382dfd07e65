-- ===== src/Transport/Close.antt =====
-- `close` and `force_close` of `TcpTransport` (src/net/Transport.cpp), and the last write after a
-- `close`.
use netyo.Prelude.{
  ℕ, ◌+◌, ◌≡◌, ◌∙◌, ap, Option-cases, some, none, ◌>>=◌, true, false, refl, Bool-cases, inl, inr,
}
use netyo.Prelude.Int.{to_int}
use netyo.Epoll.{Epoll}
use netyo.Posix.{Socket}
use netyo.Ring.{Ring}
use netyo.Buffer.{drain_wbuffer}
use netyo.Channel.{is_writing, destroy}
use netyo.Transport.{
  disconnecting, disconnected, is_disconnected, is_disconnecting, Conn, Protocol, run_cb, set_state,
  on_channel, is_closing, closed, force_close, close, pause_writing, finish_writing, handle_onwrite,
}

module _ (e : Epoll) (c : Socket) where
  -- A connection that has been given up, as `connection_lost_cb` finds it.
  abbrev pub given_up : Conn e c → Conn e c
  given_up t =
      let t1 = on_channel e c (destroy e) (set_state e c disconnected t) in
      record t1 { socket = c.shutdown_both t1.socket; lost = t1.lost + 1 }

  pause_writing-state : (t : Conn e c) → (pause_writing e c t).state ≡ t.state
  unfolding pause_writing
  pause_writing-state t = elim (Bool-cases (is_writing t.channel)) [ inl q ↦ rw q | inr q ↦ rw q ]

  module _ (p : Protocol e c) where
    pub force_close-open :
        (t : Conn e c)
        → closed e c t ≡ false
        → force_close e c p t ≡ run_cb e c p.connection_lost_cb (given_up t)
    unfolding force_close
    force_close-open t h = rw h

    pub force_close-closed : (t : Conn e c) → closed e c t ≡ true → force_close e c p t ≡ some t
    unfolding force_close
    force_close-closed t h = rw h

    -- A second `force_close` changes nothing, where the callback for a lost connection leaves the
    -- connection closed.
    force_close_twice :
        (t : Conn e c)
        → ((u v : Conn e c)
            → closed e c u ≡ true
            → run_cb e c p.connection_lost_cb u ≡ some v
            → closed e c v ≡ true)
        → (force_close e c p t >>= force_close e c p) ≡ force_close e c p t
    force_close_twice t h = elim (Bool-cases (closed e c t)) [
      | inl q ↦ rw (force_close-closed t q) (force_close-closed t q)
      | inr q ↦ elim (Option-cases (run_cb e c p.connection_lost_cb (given_up t))) [
        | inl f ↦ rw (force_close-open t q, f) refl
        | inr (v, f) ↦ rw (force_close-open t q, f) (force_close-closed v (h (given_up t) v refl f))
      ]
    ]

    finish-closing :
        (t : Conn e c)
        → p.done_writing_cb ≡ none
        → is_closing e c (pause_writing e c t) ≡ true
        → finish_writing e c p t ≡ force_close e c p (pause_writing e c t)
    unfolding finish_writing
    finish-closing t d h = rw (d, h)

    close-writing :
        (t : Conn e c)
        → is_closing e c t ≡ false
        → closed e c t ≡ false
        → is_writing t.channel ≡ true
        → close e c p t
          ≡ some (record t { state = disconnecting; socket = c.shutdown_read t.socket })
    unfolding close
    close-writing t a b w = simp (a, b, w)

    onwrite-done :
        (t : Conn e c) (k : c.State) (r : Ring ℕ)
        → drain_wbuffer c t.socket t.wbuffer ≡ some (k, r, some 0)
        → handle_onwrite e c p t ≡ finish_writing e c p (record t { socket = k; wbuffer = r })
    unfolding handle_onwrite to_int
    onwrite-done t k r h = rw h

    -- A connection that is open and watched for writing, with no `done_writing_cb`: `close` shuts the
    -- reading side down and waits, and a `handle_onwrite` after it that writes all there is gives the
    -- connection up.
    pub close-handle_onwrite :
        (t : Conn e c) (k : c.State) (r : Ring ℕ)
        → is_closing e c t ≡ false
        → closed e c t ≡ false
        → is_writing t.channel ≡ true
        → p.done_writing_cb ≡ none
        → drain_wbuffer c (c.shutdown_read t.socket) t.wbuffer ≡ some (k, r, some 0)
        → (close e c p t >>= handle_onwrite e c p)
          ≡ run_cb e c p.connection_lost_cb (
              given_up
                (pause_writing e c (record t { state = disconnecting; socket = k; wbuffer = r })))
    close-handle_onwrite t k r a b w d h =
        let u : Conn e c = record t { state = disconnecting; socket = k; wbuffer = r } in
        ap (λ m. m >>= handle_onwrite e c p) (close-writing t a b w)
        ∙ onwrite-done (record t { state = disconnecting; socket = c.shutdown_read t.socket }) k r h
        ∙ finish-closing u d (ap is_disconnecting (pause_writing-state u))
        ∙ force_close-open (pause_writing e c u) (ap is_disconnected (pause_writing-state u))
