-- ===== src/Tests/Transports.antt =====
-- `TcpTransport` of src/net/Transport.cpp on the line and the interest list of the tests.
use netyo.Prelude.{ℕ, ◌≡◌, refl, List, [], ◌∷◌, none, some, true, false, subst, ◌>>=◌}
use netyo.Epoll.{Events, none_set}
use netyo.Ring.{mod_index}
use netyo.Buffer.{drain_wbuffer, drain_first, drain_second, drained, read_span}
use netyo.Channel.{Channel, Callbacks, added, destroyed, handle_events}
use netyo.Transport.{
  Conn, Protocol, activated, disconnecting, closed, force_close, close, handle_onwrite,
  pause_writing, activate_in_loop,
}
use netyo.Transport.Close.{given_up, close-handle_onwrite}
use netyo.Transport.Counting.{IsCounted, IsFair, KeepsCount, close-Counts}
use netyo.Transport.Lost.{here, next, event, forcing, Reach-IsCounted}
use netyo.Tests.World.{Line, line_socket, one_epoll}

abbrev pub both_events : Events
both_events = record none_set { pollin = true; pollpri = true; pollout = true }

-- A connection with two bytes to write.
abbrev pub busy : Conn one_epoll line_socket
busy = record {
  state = activated;
  channel = record { fd = 5; state = added; events = both_events; prev_events = none_set };
  selector = some both_events;
  socket = record { inbox = []; outbox = []; quota = 50 };
  rbuffer = record { vec = 0 ∷ 0 ∷ 0 ∷ []; lo = 0; hi = 0 };
  wbuffer = record { vec = 8 ∷ 9 ∷ 0 ∷ []; lo = 0; hi = 2 };
  timeout = 0;
  last_active = 0;
  now = 0;
  write_highlevel = 4000;
  lost = 0;
}

-- There is something to read, or the end of it.
abbrev readable : Events
readable = record none_set { pollin = true }

-- No callback at all, and one that closes each connection as it is made.
abbrev pub silent : Protocol one_epoll line_socket
silent = record {
  connection_made_cb = none;
  data_received_cb = none;
  pause_writing_cb = none;
  done_writing_cb = none;
  eof_received_cb = none;
  connection_lost_cb = none;
  reset_timeout_cb = none;
}

abbrev refusing : Protocol one_epoll line_socket
refusing = record silent {
  connection_made_cb = some (λ t. force_close one_epoll line_socket silent t);
}

abbrev drained_line : Line
drained_line = record { inbox = []; outbox = 8 ∷ 9 ∷ []; quota = 48 }

close-handle_onwrite_example :
    (close one_epoll line_socket silent busy >>= handle_onwrite one_epoll line_socket silent)
    ≡ some (
        given_up one_epoll line_socket (
          pause_writing one_epoll line_socket (record busy {
            state = disconnecting;
            socket = drained_line;
            wbuffer = record { vec = 8 ∷ 9 ∷ 0 ∷ []; lo = 2; hi = 2 };
          })))
unfolding drain_wbuffer drain_first drain_second drained read_span mod_index
close-handle_onwrite_example =
    close-handle_onwrite one_epoll line_socket silent busy drained_line
      (record { vec = 8 ∷ 9 ∷ 0 ∷ []; lo = 2; hi = 2 }) refl refl refl refl refl

none_keeps : KeepsCount one_epoll line_socket none
none_keeps t h u q = let same : t ≡ u = cc in subst (IsCounted one_epoll line_socket) same h

silent-IsFair : IsFair one_epoll line_socket silent
silent-IsFair = record {
  data_received = none_keeps;
  pause_writing_ok = none_keeps;
  done_writing = none_keeps;
  eof_received = none_keeps;
  connection_lost = none_keeps;
  reset_timeout_ok = none_keeps;
  connection_made = λ t u h open_still q.
      let same : t ≡ u = cc in
      (
        subst (IsCounted one_epoll line_socket) same h,
        subst (λ w. closed one_epoll line_socket w ≡ false) same open_still,
      );
}

-- A program that closes at the end of the input, and whose `connection_lost_cb` does nothing.
abbrev polite : Protocol one_epoll line_socket
polite = record silent {
  eof_received_cb = some (λ t. close one_epoll line_socket silent t);
  connection_lost_cb = some (λ t. some t);
}

polite-IsFair : IsFair one_epoll line_socket polite
polite-IsFair = record {
  data_received = none_keeps;
  pause_writing_ok = none_keeps;
  done_writing = none_keeps;
  eof_received = close-Counts one_epoll line_socket silent silent-IsFair;
  connection_lost = none_keeps;
  reset_timeout_ok = none_keeps;
  connection_made = silent-IsFair.connection_made;
}

-- The end of the input arrives, and the connection waits for its last write.
abbrev waiting_busy : Conn one_epoll line_socket
waiting_busy = record busy {
  state = disconnecting;
  channel = record busy.channel { prev_events = readable };
}

abbrev closed_busy : Conn one_epoll line_socket
closed_busy = given_up one_epoll line_socket waiting_busy

Reach-IsCounted_example : closed_busy.lost ≡ 1
unfolding force_close close netyo.Transport.handle_event handle_events netyo.Transport.handle_onread
    netyo.Buffer.feed_rbuffer netyo.Buffer.feed_loop netyo.Buffer.free_spans netyo.Buffer.make_space
    netyo.Buffer.scatter netyo.Prelude.Int.to_int
Reach-IsCounted_example =
    Reach-IsCounted one_epoll line_socket polite busy closed_busy polite-IsFair refl
      (next (next here (event readable refl)) (forcing refl))

-- A connection that `connection_made_cb` closes is given up again later.
refusing-twice :
    (activate_in_loop one_epoll line_socket refusing busy
      >>= force_close one_epoll line_socket refusing
      >>= λ t. some t.lost)
    ≡ some 2
unfolding force_close activate_in_loop netyo.Transport.reset_timeout netyo.Transport.resume_reading
    netyo.Channel.destroy
refusing-twice = refl

-- A state that is a channel and a list of the callbacks that ran.
abbrev Noted : Type 0
Noted = Channel × List ℕ

abbrev noting : Callbacks Noted
noting = record {
  read_cb = some (λ s. some (s.0, 3 ∷ s.1));
  write_cb = some (λ s. some (s.0, 4 ∷ s.1));
  close_cb = some (λ s. some (record s.0 { state = destroyed }, 1 ∷ s.1));
  error_cb = none;
}

abbrev hang_up : Events
hang_up = record none_set { pollhup = true; pollerr = true; pollout = true }

hang_up-noted :
    handle_events (λ s. s.0) (λ ch s. (ch, s.1)) noting hang_up (busy.channel, [])
    ≡ some (record busy.channel { state = destroyed; prev_events = hang_up }, 4 ∷ 1 ∷ [])
unfolding handle_events
hang_up-noted = refl
