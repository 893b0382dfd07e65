-- ===== src/Transport/Counting.antt =====
-- What the handlers of a connection of src/net/Transport.cpp do to the count of the times that it has been
-- given up.
use netyo.Prelude.Int.{ℤ, pos, negsuc, to_int}
use netyo.Prelude.{
  zero, suc, ℕ, ◌+◌, ◌≡◌, ◌∙◌, ap, List, length, if◌then◌else◌, ◌==◌, some, none, ◌>>=◌, Option,
  true, false, refl, Bool-cases, inl, inr, subst, ◌&&◌, Bool,
}
use netyo.Epoll.{Epoll}
use netyo.Posix.{Socket}
use netyo.Buffer.{drain_wbuffer, feed_rbuffer, feed_wbuffer}
use netyo.Channel.{is_writing, is_reading}
use netyo.Epoll.{Events}
use netyo.Prelude.{not, ◌||◌}
use netyo.Channel.{call_if, handle_events, is_destroyed}
use netyo.Transport.{
  handle_event, Conn, Protocol, CallBack, run_cb, is_closing, closed, force_close, close,
  pause_writing, resume_writing, resume_reading, finish_writing, handle_onwrite, handle_onread,
  handle_onclose, handle_onerror, reset_timeout, activate_in_loop, send_in_loop,
}
use netyo.Transport.Close.{given_up, force_close-open, force_close-closed}

module _ (e : Epoll) (c : Socket) where
  -- A connection has been given up once if it is closed, and else never.
  abbrev pub IsCounted : Conn e c → Type 0
  IsCounted t = t.lost ≡ (if closed e c t then 1 else 0)

  -- If `m` ends without a fault, its connection is counted.
  abbrev pub Counts : Option (Conn e c) → Type 0
  Counts m = (t : Conn e c) → m ≡ some t → IsCounted t

  abbrev pub KeepsCount : CallBack e c → Type 0
  KeepsCount cb = (t : Conn e c) → IsCounted t → Counts (run_cb e c cb t)

  -- The callbacks of a program keep the count, as calls of `close`, `send` and the like do.
  pub record IsFair (p : Protocol e c) : Type 0 where
    pub data_received : KeepsCount p.data_received_cb
    pub pause_writing_ok : KeepsCount p.pause_writing_cb
    pub done_writing : KeepsCount p.done_writing_cb
    pub eof_received : KeepsCount p.eof_received_cb
    pub connection_lost : KeepsCount p.connection_lost_cb
    pub reset_timeout_ok : KeepsCount p.reset_timeout_cb
    -- It leaves an open connection open.
    pub connection_made :
        (t u : Conn e c)
        → IsCounted t
        → closed e c t ≡ false
        → run_cb e c p.connection_made_cb t ≡ some u
        → IsCounted u × (closed e c u ≡ false)

  bind-Counts :
      {A : Type 0} (m : Option A) (f : A → Option (Conn e c))
      → ((a : A) → m ≡ some a → Counts (f a))
      → Counts (m >>= f)
  bind-Counts none f h t q = cc
  bind-Counts (some a) f h t q = h a refl t q

  some-Counts : (t : Conn e c) → IsCounted t → Counts (some t)
  some-Counts t h u q = let same : t ≡ u = cc in subst IsCounted same h

  if-Counts :
      (b : Bool) (m n : Option (Conn e c)) → Counts m → Counts n → Counts (if b then m else n)
  if-Counts true m n h k = h
  if-Counts false m n h k = k

  refreshed-Counts :
      (cb : CallBack e c)
      → KeepsCount cb
      → (t : Conn e c) → IsCounted t
      → Counts (elim cb [
        | none ↦ some t
        | some f ↦ f t >>= λ t'. some (record t' { last_active = t'.now })
      ])
  refreshed-Counts none keep t h = some-Counts t h
  refreshed-Counts (some f) keep t h =
      bind-Counts (f t) _ λ u q. some-Counts (record u { last_active = u.now }) (keep t h u q)

  module _ (p : Protocol e c) (fair : IsFair p) where
    pub force_close-Counts : (t : Conn e c) → IsCounted t → Counts (force_close e c p t)
    force_close-Counts t h = elim (Bool-cases (closed e c t)) [
      | inl q ↦ rw (force_close-closed e c p t q) (some-Counts t h)
      | inr q ↦
          rw (force_close-open e c p t q)
            (fair.connection_lost (given_up e c t) (rw q at (ap (λ n. n + 1) h)))
    ]

    pub close-Counts : (t : Conn e c) → IsCounted t → Counts (close e c p t)
    unfolding close
    close-Counts t h = elim (Bool-cases (is_closing e c t)) [
      | inl q ↦ simp q (some-Counts t h)
      | inr q ↦ elim (Bool-cases (closed e c t)) [
        | inl r ↦ simp (q, r) (some-Counts t h)
        | inr r ↦
            let open_still : t.lost ≡ 0 = rw r at h in
            simp (q, r)
              (if-Counts (is_writing t.channel) _ _ (some-Counts _ open_still)
                (force_close-Counts t h))
      ]
    ]

    handle_onclose-Counts : (t : Conn e c) → IsCounted t → Counts (handle_onclose e c p t)
    unfolding handle_onclose
    handle_onclose-Counts = close-Counts

    handle_onerror-Counts : (t : Conn e c) → IsCounted t → Counts (handle_onerror e c p t)
    unfolding handle_onerror
    handle_onerror-Counts t h =
        if-Counts ((c.take_error t.socket).1 == 0) _ _ (some-Counts _ h) (force_close-Counts _ h)

    reset_timeout-Counts : (t : Conn e c) → IsCounted t → Counts (reset_timeout e c p t)
    unfolding reset_timeout
    reset_timeout-Counts t h =
        if-Counts _ _ _ (refreshed-Counts p.reset_timeout_cb fair.reset_timeout_ok t h)
          (some-Counts t h)

    pause_writing-count : (t : Conn e c) → IsCounted t → IsCounted (pause_writing e c t)
    unfolding pause_writing
    pause_writing-count t h = elim (Bool-cases (is_writing t.channel)) [
      | inl q ↦ simp q h
      | inr q ↦ simp q h
    ]

    resume_writing-count : (t : Conn e c) → IsCounted t → IsCounted (resume_writing e c t)
    unfolding resume_writing
    resume_writing-count t h = elim (Bool-cases (is_writing t.channel)) [
      | inl q ↦ simp q h
      | inr q ↦ simp q h
    ]

    resume_reading-lost : (t : Conn e c) → (resume_reading e c t).lost ≡ t.lost
    unfolding resume_reading
    resume_reading-lost t = elim (Bool-cases (is_reading t.channel)) [
      | inl q ↦ simp q
      | inr q ↦ simp q
    ]

    finish_writing-Counts : (t : Conn e c) → IsCounted t → Counts (finish_writing e c p t)
    unfolding finish_writing
    finish_writing-Counts t h =
        bind-Counts (run_cb e c p.done_writing_cb (pause_writing e c t)) _ λ u q.
          let k : IsCounted u = fair.done_writing _ (pause_writing-count t h) u q in
          if-Counts (is_closing e c u) _ _ (force_close-Counts u k) (some-Counts u k)

    after_sent-Counts :
        (left : ℤ) (u : Conn e c)
        → IsCounted u
        → Counts (elim left [
          | negsuc n ↦ handle_onerror e c p u
          | pos zero ↦ finish_writing e c p u
          | pos (suc n) ↦ some u
        ])
    after_sent-Counts (negsuc n) u h = handle_onerror-Counts u h
    after_sent-Counts (pos zero) u h = finish_writing-Counts u h
    after_sent-Counts (pos (suc n)) u h = some-Counts u h

    after_drain-Counts :
        (res : Option ℕ) (u : Conn e c)
        → IsCounted u
        → Counts (elim res [
          | none ↦ handle_onerror e c p u
          | some left ↦ elim (to_int left) [
            | negsuc n ↦ handle_onerror e c p u
            | pos zero ↦ finish_writing e c p u
            | pos (suc n) ↦ some u
          ]
        ])
    after_drain-Counts none u h = handle_onerror-Counts u h
    after_drain-Counts (some left) u h = after_sent-Counts (to_int left) u h

    handle_onwrite-Counts : (t : Conn e c) → IsCounted t → Counts (handle_onwrite e c p t)
    unfolding handle_onwrite
    handle_onwrite-Counts t h =
        bind-Counts (drain_wbuffer c t.socket t.wbuffer) _
          λ out q. after_drain-Counts out.2 (record t { socket = out.0; wbuffer = out.1 }) h

    after_feed-Counts :
        (nbytes : ℤ) (u : Conn e c)
        → IsCounted u
        → Counts (elim nbytes [
          | negsuc n ↦ handle_onerror e c p u
          | pos zero ↦ run_cb e c p.eof_received_cb u
          | pos (suc n) ↦ reset_timeout e c p u >>= run_cb e c p.data_received_cb
        ])
    after_feed-Counts (negsuc n) u h = handle_onerror-Counts u h
    after_feed-Counts (pos zero) u h = fair.eof_received u h
    after_feed-Counts (pos (suc n)) u h =
        bind-Counts (reset_timeout e c p u) _
          λ v r. fair.data_received v (reset_timeout-Counts u h v r)

    handle_onread-Counts : (t : Conn e c) → IsCounted t → Counts (handle_onread e c p t)
    unfolding handle_onread
    handle_onread-Counts t h =
        bind-Counts (feed_rbuffer c t.socket t.rbuffer) _
          λ out q. after_feed-Counts (to_int out.2) (record t { socket = out.0; rbuffer = out.1 }) h

    pub send_in_loop-Counts :
        (bs : List ℕ) (t : Conn e c) → IsCounted t → Counts (send_in_loop e c p bs t)
    unfolding send_in_loop
    send_in_loop-Counts bs t h = if-Counts (length bs == 0) _ _ (some-Counts t h) (
        bind-Counts (reset_timeout e c p t) _ λ u r.
          bind-Counts (feed_wbuffer u.wbuffer bs) _ λ fed _.
            let k =
              resume_writing-count (record u { wbuffer = fed.0 }) (reset_timeout-Counts t h u r) in
            if-Counts _ _ _ (fair.pause_writing_ok _ k) (some-Counts _ k))

    pub activate_in_loop-Counts :
        (t : Conn e c) → IsCounted t → closed e c t ≡ false → Counts (activate_in_loop e c p t)
    unfolding activate_in_loop
    activate_in_loop-Counts t h op = bind-Counts (run_cb e c p.connection_made_cb t) _ λ u q.
        let (k, r) = fair.connection_made t u h op q in
        let none_lost : u.lost ≡ 0 = rw r at k in
        reset_timeout-Counts _ (resume_reading-lost u ∙ none_lost)

    call_if-Counts :
        (b : Bool) (f : Conn e c → Option (Conn e c)) (t : Conn e c)
        → ((u : Conn e c) → IsCounted u → Counts (f u))
        → IsCounted t
        → Counts (call_if b (some f) t)
    call_if-Counts true f t keep h = keep t h
    call_if-Counts false f t keep h = some-Counts t h

    then-Counts :
        (b : Bool) (f : Conn e c → Option (Conn e c)) (t : Conn e c)
        (g : Conn e c → Option (Conn e c))
        → ((u : Conn e c) → IsCounted u → Counts (f u))
        → IsCounted t
        → ((u : Conn e c) → IsCounted u → Counts (g u))
        → Counts (call_if b (some f) t >>= g)
    then-Counts b f t g keep h k =
        bind-Counts (call_if b (some f) t) g λ u q. k u (call_if-Counts b f t keep h u q)

    pub handle_event-Counts :
        (ev : Events) (t : Conn e c) → IsCounted t → Counts (handle_event e c p ev t)
    unfolding handle_event handle_events
    handle_event-Counts ev t h = if-Counts (is_destroyed t.channel.state) _ _ (some-Counts t h) (
        then-Counts (ev.pollhup && not ev.pollin) (handle_onclose e c p) t _ handle_onclose-Counts h
          λ t1 h1.
            then-Counts (ev.pollnval || ev.pollerr) (handle_onerror e c p) t1 _
              handle_onerror-Counts h1
              λ t2 h2.
                then-Counts (ev.pollin || ev.pollpri || ev.pollrdhup) (handle_onread e c p) t2 _
                  handle_onread-Counts h2
                  λ t3 h3.
                    then-Counts ev.pollout (handle_onwrite e c p) t3 _ handle_onwrite-Counts h3
                      λ t4 h4. some-Counts _ h4)
