-- ===== src/EventLoop.antt =====
-- The class `EventLoop` of src/net/eventloop/ThreadingEventLoop.h and ThreadingEventLoop.cpp, on its
-- task queue and its timers. Callbacks are names; what they do is a parameter. `within` says whether a
-- call comes from the loop's own thread. `none` is a fault, or fuel that has run out.
pub mod Closing
pub mod Ending
pub mod Owner
use netyo.Prelude.{
  ℕ, zero, suc, ◌+◌, Bool, true, false, ◌&&◌, not, Option, none, some, if◌then◌else◌, ltb, ◌>>=◌,
}
use netyo.Task.{TaskQueue, push}
use netyo.Timer.{Timer, TimerQueue, make_timer, add_timer_in_loop}

-- The fields of `EventLoop` but for its timers.
pub record EventLoop (W : Type 0) : Type 0 where
  pub taskq : TaskQueue W
  pub events_handling : Bool
  pub close : Bool
  pub closed : Bool
  pub current_active_channel : Option ℕ

module _ {W : Type 0} (call : ℕ → TaskQueue W → TaskQueue W) where
  -- `EventLoop(name)`
  abbrev pub new_loop : TaskQueue W → EventLoop W
  new_loop q = record {
    taskq = q;
    events_handling = false;
    close = false;
    closed = false;
    current_active_channel = none;
  }

  unfoldable pub call_soon : Bool → ℕ → EventLoop W → Option (EventLoop W)
  call_soon within cb l =
      if within && not l.close
      then some (record l { taskq = call cb l.taskq })
      else if not l.closed
      then (push cb l.taskq >>= λ q. some (record l { taskq = q }))
      else some l

  -- `close()`, where `noop` is the callback that does nothing.
  unfoldable pub close_loop : ℕ → Bool → EventLoop W → Option (EventLoop W)
  close_loop noop within l =
      if l.close then some l else call_soon within noop (record l { close = true })

  -- `handle_event(pdata, event)`, where `handle` is the channel's `handle_events`.
  unfoldable pub handle_event :
      (ℕ → ℕ → EventLoop W → Option (EventLoop W)) → ℕ → ℕ → EventLoop W → Option (EventLoop W)
  handle_event handle pdata event l = do
    l' ← handle pdata event (record l { current_active_channel = some pdata })
    some (record l' { current_active_channel = none })

  -- `run()`, where `select` is what the selector does, with the handlers that it calls.
  unfoldable pub run_loop :
      (EventLoop W → Option (EventLoop W)) → ℕ → EventLoop W → Option (EventLoop W)
  run_loop select zero l = none
  run_loop select (suc fuel) l =
      let rest = (do
        l' ← select (record l { events_handling = true })
        run_loop select fuel (record l' { events_handling = false })) in
      if l.close then some (record l { closed = true }) else rest

-- `call_at`, `call_later` and `call_every` in the loop's thread. The clock stands still during a call.
module _ {W : Type 0} (pointer_lt : Timer → Timer → Bool) where
  unfoldable pub call_at : ℕ → ℕ → TimerQueue W → TimerQueue W
  unfolding make_timer
  call_at cb time q =
      let (t, q') = make_timer cb time 0 q in
      if ltb q.clock time then add_timer_in_loop pointer_lt t q' else q

  unfoldable pub call_later : ℕ → ℕ → TimerQueue W → TimerQueue W
  call_later cb delay q = call_at cb (q.clock + delay) q

  unfoldable pub call_every : ℕ → ℕ → TimerQueue W → TimerQueue W
  unfolding make_timer
  call_every cb interval q =
      let (t, q') = make_timer cb (q.clock + interval) interval q in
      add_timer_in_loop pointer_lt t q'
