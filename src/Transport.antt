-- ===== src/Transport.antt =====
-- The classes `Transport` and `TcpTransport` of src/net/Transport.h and Transport.cpp: a connection
-- with its channel, its two buffers and its state. The handlers run in the thread of the loop; what
-- `call_soon` postpones is a definition of its own, ending in `_in_loop`. `none` is a fault in a
-- buffer.
pub mod Close
pub mod Lost
pub mod Counting
pub mod Reactivate
use netyo.Prelude.{
  zero, suc, ℕ, ◌+◌, ◌-◌, ◌*◌, Bool, true, false, ◌||◌, ◌&&◌, not, Option, none, some, List, [],
  ◌∷◌, ◌++◌, if◌then◌else◌, ltb, ◌==◌, ◌>>=◌, length,
}
use netyo.Prelude.Int.{pos, negsuc, to_int}
use netyo.Epoll.{Events, Epoll}
use netyo.Posix.{Socket}
use netyo.Ring.{Ring, size}
use netyo.Buffer.{feed_rbuffer, drain_wbuffer, feed_wbuffer}
use netyo.Channel.{
  Channel, Callbacks, is_reading, is_writing, enable, disable, destroy, handle_events, read_events,
  write_events,
}

-- `Transport::States`
pub data States : Type 0 where
  initial activated disconnecting disconnected : States

abbrev pub is_disconnecting : States → Bool
is_disconnecting disconnecting = true
is_disconnecting initial = false
is_disconnecting activated = false
is_disconnecting disconnected = false

abbrev pub is_disconnected : States → Bool
is_disconnected disconnected = true
is_disconnected initial = false
is_disconnected activated = false
is_disconnected disconnecting = false

module _ (e : Epoll) (c : Socket) where
  -- The fields of the two classes, and what they change outside: the selector, the socket and the
  -- clock (`now`, in nanoseconds, as `timeout` is). `lost` counts the times that the connection has
  -- been given up; the source keeps no such field.
  pub record Conn : Type 0 where
    pub state : States
    pub channel : Channel
    pub selector : e.State
    pub socket : c.State
    pub rbuffer : Ring ℕ
    pub wbuffer : Ring ℕ
    pub timeout : ℕ
    pub last_active : ℕ
    pub now : ℕ
    pub write_highlevel : ℕ
    pub lost : ℕ

  abbrev pub CallBack : Type 0
  CallBack = Option (Conn → Option Conn)

  -- `TcpTransport::Protocol`: the callbacks that the code calls, `none` for an empty one.
  pub record Protocol : Type 0 where
    pub connection_made_cb : CallBack
    pub data_received_cb : CallBack
    pub pause_writing_cb : CallBack
    pub done_writing_cb : CallBack
    pub eof_received_cb : CallBack
    pub connection_lost_cb : CallBack
    pub reset_timeout_cb : CallBack

  abbrev pub run_cb : CallBack → Conn → Option Conn
  run_cb none t = some t
  run_cb (some f) t = f t

  -- `set_state`, and the channel's operations on the selector.
  abbrev pub set_state : States → Conn → Conn
  set_state s t = record t { state = s }

  abbrev pub on_channel : (Channel → e.State → Channel × e.State) → Conn → Conn
  on_channel f t = let (ch, k) = f t.channel t.selector in record t { channel = ch; selector = k }

  -- `is_closing`, `closed`
  abbrev pub is_closing : Conn → Bool
  is_closing t = is_disconnecting t.state

  abbrev pub closed : Conn → Bool
  closed t = is_disconnected t.state

  unfoldable pub pause_reading : Conn → Conn
  pause_reading t = if is_reading t.channel then on_channel (disable e read_events) t else t

  unfoldable pub resume_reading : Conn → Conn
  resume_reading t = if is_reading t.channel then t else on_channel (enable e read_events) t

  unfoldable pub pause_writing : Conn → Conn
  pause_writing t = if is_writing t.channel then on_channel (disable e write_events) t else t

  unfoldable pub resume_writing : Conn → Conn
  resume_writing t = if is_writing t.channel then t else on_channel (enable e write_events) t

  abbrev three_seconds : ℕ
  three_seconds = 3_000_000_000

  module _ (p : Protocol) where
    -- `reset_timeout`; the time is read again after the callback.
    unfoldable pub reset_timeout : Conn → Option Conn
    reset_timeout t =
        if ltb 0 t.timeout && ltb three_seconds (t.now - t.last_active)
        then (elim p.reset_timeout_cb [
          | none ↦ some t
          | some f ↦ f t >>= λ t'. some (record t' { last_active = t'.now })
        ])
        else some t

    unfoldable pub force_close : Conn → Option Conn
    force_close t =
        if closed t
        then some t
        else (let t1 = on_channel (destroy e) (set_state disconnected t) in
            run_cb p.connection_lost_cb
              (record t1 { socket = c.shutdown_both t1.socket; lost = t1.lost + 1 }))

    unfoldable pub close : Conn → Option Conn
    close t =
        if is_closing t || closed t
        then some t
        else if is_writing t.channel
        then some (set_state disconnecting (record t { socket = c.shutdown_read t.socket }))
        else force_close t

    unfoldable pub handle_onclose : Conn → Option Conn
    handle_onclose t = close t

    unfoldable pub handle_onerror : Conn → Option Conn
    handle_onerror t =
        let (k, error) = c.take_error t.socket in
        let t' = record t { socket = k } in if error == 0 then some t' else force_close t'

    -- `nbytes` is an `int`.
    unfoldable pub handle_onread : Conn → Option Conn
    handle_onread t = do
      fed ← feed_rbuffer c t.socket t.rbuffer
      let (k, r, nbytes) = fed
      let t' = record t { socket = k; rbuffer = r }
      elim (to_int nbytes) [
        | negsuc n ↦ handle_onerror t'
        | pos zero ↦ run_cb p.eof_received_cb t'
        | pos (suc n) ↦ reset_timeout t' >>= run_cb p.data_received_cb
      ]

    -- What follows when everything has been written.
    unfoldable pub finish_writing : Conn → Option Conn
    finish_writing t = do
      t' ← run_cb p.done_writing_cb (pause_writing t)
      if is_closing t' then force_close t' else some t'

    -- `res` is an `int`; `none` is the -1 of `drain_wbuffer`.
    unfoldable pub handle_onwrite : Conn → Option Conn
    handle_onwrite t = do
      drained ← drain_wbuffer c t.socket t.wbuffer
      let (k, r, res) = drained
      let t' = record t { socket = k; wbuffer = r }
      elim res [
        | none ↦ handle_onerror t'
        | some left ↦ elim (to_int left) [
          | negsuc n ↦ handle_onerror t'
          | pos zero ↦ finish_writing t'
          | pos (suc n) ↦ some t'
        ]
      ]

    -- The body that `activate` hands to `call_soon`.
    unfoldable pub activate_in_loop : Conn → Option Conn
    activate_in_loop t = do
      t' ← run_cb p.connection_made_cb t
      reset_timeout (set_state activated (resume_reading t'))

    -- `send(data, len)` in the loop's thread: its body, unless there is nothing to send.
    unfoldable pub send_in_loop : List ℕ → Conn → Option Conn
    send_in_loop bs t = if length bs == 0 then some t else (do
      t1 ← reset_timeout t
      fed ← feed_wbuffer t1.wbuffer bs
      let t2 = resume_writing (record t1 { wbuffer = fed.0 })
      if ltb t2.write_highlevel (size t2.wbuffer) then run_cb p.pause_writing_cb t2 else some t2)

    -- `Transport::default_channel_protocol`, and the events of the channel with it.
    abbrev pub channel_callbacks : Callbacks Conn
    channel_callbacks = record {
      read_cb = some handle_onread;
      write_cb = some handle_onwrite;
      close_cb = some handle_onclose;
      error_cb = some handle_onerror;
    }

    unfoldable pub handle_event : Events → Conn → Option Conn
    handle_event =
        handle_events (λ t. t.channel) (λ ch t. record t { channel = ch }) channel_callbacks
