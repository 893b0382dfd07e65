-- ===== src/Pool/Race.antt =====
-- `EventLoopThread::close` of src/net/eventloop/ThreadingEventLoop.cpp in one thread, and the end of
-- `start_loop` in the other, a shared access at a time.
pub mod Outcome
use netyo.Prelude.{
  ℕ, Bool, true, false, ◌||◌, not, Option, none, some, List, [], ◌∷◌, ◌++◌, if◌then◌else◌, ◌>>=◌,
}
use netyo.Pool.{LoopThread}

-- Where the loop's thread stands: in `run`, behind it, behind `this->loop = nullptr`, or at its end,
-- where the loop, a local variable, has been destroyed.
pub data ThreadAt : Type 0 where
  running leaving cleared ended : ThreadAt

-- Where the closing thread stands: before `_close = true`, before the `call_soon` of `EventLoop::close`,
-- before the test of `join`, in the `join` of the thread, before `loop = nullptr`, or at the end.
pub data CloserAt : Type 0 where
  closing waking testing joining clearing done : CloserAt

pub record Race : Type 0 where
  pub thread : ThreadAt
  pub closer : CloserAt
  pub told : Bool
  pub is_null : Bool
  pub joined : Bool

abbrev pub is_ended : ThreadAt → Bool
is_ended running = false
is_ended leaving = false
is_ended cleared = false
is_ended ended = true

-- A step of the loop's thread, which stays in `run` until the loop has been told to close.
unfoldable pub thread_step : Race → Race
thread_step r = elim r.thread [
  | running ↦ if r.told then record r { thread = leaving } else r
  | leaving ↦ record r { thread = cleared; is_null = true }
  | cleared ↦ record r { thread = ended }
  | ended ↦ r
]

-- A step of the closing thread, which waits in `join`; `none` is a call of a loop that has been
-- destroyed.
unfoldable pub closer_step : Race → Option Race
closer_step r = elim r.closer [
  | closing ↦ some (record r { closer = waking; told = true })
  | waking ↦ if is_ended r.thread then none else some (record r { closer = testing })
  | testing ↦ some (record r { closer = if r.is_null then clearing else joining })
  | joining ↦ some (if is_ended r.thread then record r { closer = clearing; joined = true } else r)
  | clearing ↦ some (record r { closer = done; is_null = true })
  | done ↦ some r
]

-- A run of both, where `true` is a step of the loop's thread.
unfoldable pub race : List Bool → Race → Option Race
unfolding thread_step closer_step
race [] r = some r
race (b ∷ bs) r = let next = if b then some (thread_step r) else closer_step r in next >>= race bs

-- A thread that runs, and is to be closed.
abbrev pub at_start : Race
at_start = record {
  thread = running;
  closer = closing;
  told = false;
  is_null = false;
  joined = false;
}

-- The fields of the `EventLoopThread`, whose loop is `l`.
abbrev pub thread_of : ℕ → Race → LoopThread
thread_of l r = record {
  loop = if r.is_null then none else some l;
  told = r.told;
  joined = r.joined;
}
