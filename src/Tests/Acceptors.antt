-- ===== src/Tests/Acceptors.antt =====
-- `TcpServerAcceptor` of src/net/Transport.cpp on a listening socket with an error.
use netyo.Prelude.{ℕ, ◌≡◌, [], ◌∷◌, arith, some, none, true, refl}
use netyo.Epoll.{none_set}
use netyo.Posix.{Socket}
use netyo.Channel.{added}
use netyo.Transport.{Conn, Protocol, activated, close}
use netyo.Acceptor.{acceptor_handle_onread, acceptor_handle_onread-close}
use netyo.Tests.World.{one_epoll}

-- A socket whose state is its pending error.
abbrev listening : Socket
listening = record {
  State = ℕ;
  readv = λ k n. (k, none);
  write = λ k bs. (k, none);
  unread = λ k. [];
  sent = λ k. [];
  shutdown_read = λ k. k;
  shutdown_both = λ k. k;
  take_error = λ k. (0, k);
  readv_some = λ k n bs h. absurd cc;
  readv_none = λ k n h. refl;
  write_some = λ k bs n h. absurd cc;
  write_none = λ k bs h. refl;
}

abbrev in_error : Conn one_epoll listening
in_error = record {
  state = activated;
  channel = record {
    fd = 3;
    state = added;
    events = record none_set { pollin = true };
    prev_events = none_set;
  };
  selector = some (record none_set { pollin = true });
  socket = 24;
  rbuffer = record { vec = 0 ∷ 0 ∷ []; lo = 0; hi = 0 };
  wbuffer = record { vec = 0 ∷ 0 ∷ []; lo = 0; hi = 0 };
  timeout = 0;
  last_active = 0;
  now = 0;
  write_highlevel = 4000;
  lost = 0;
}

abbrev no_callbacks : Protocol one_epoll listening
no_callbacks = record {
  connection_made_cb = none;
  data_received_cb = none;
  pause_writing_cb = none;
  done_writing_cb = none;
  eof_received_cb = none;
  connection_lost_cb = none;
  reset_timeout_cb = none;
}

acceptor_handle_onread-close_example :
    acceptor_handle_onread one_epoll listening no_callbacks in_error
    ≡ close one_epoll listening no_callbacks (record in_error { socket = 0 })
acceptor_handle_onread-close_example =
    acceptor_handle_onread-close one_epoll listening no_callbacks in_error (λ k. refl) (omega arith)
