-- ===== src/Timer.antt =====
-- The classes `Timer` and `TimerQueue` of src/net/eventloop/TimerQueue.h and TimerQueue.cpp. Times are
-- in nanoseconds of the steady clock. The priority queue is a list in the order in which its entries
-- are at the top; of equal times the one inserted first, which the source leaves open. What
-- `run_in_loop` is given runs in the loop's thread, and is a definition of its own, ending in
-- `_in_loop`.
pub mod Arming
pub mod Due
pub mod Expiry
use netyo.Prelude.{
  ℕ, zero, suc, ◌+◌, ◌-◌, ◌*◌, ◌/◌, ◌%◌, Bool, true, false, Option, none, some, List, [], ◌∷◌,
  if◌then◌else◌, ltb, ◌==◌, ◌||◌, ◌>>=◌, length,
}

-- `Timer`. The callback is a name: what it does is a parameter of the operations that run it.
pub record Timer : Type 0 where
  pub when : ℕ
  pub id : ℕ
  pub interval : ℕ
  pub callback : ℕ

-- The fields of `TimerQueue`, the counter `Timer::num_timers`, what `timer_fd` is set to (seconds and
-- nanoseconds), the clock, and the rest of the program.
pub record TimerQueue (W : Type 0) : Type 0 where
  pub valid_timers : ℕ → Bool
  pub timers : List Timer
  pub num_timers : ℕ
  pub timer_fd : Option (ℕ × ℕ)
  pub clock : ℕ
  pub world : W

abbrev pub is_repeat : Timer → Bool
is_repeat t = ltb 0 t.interval

-- `timers.push`, by `Cmp`.
unfoldable pub push : Timer → List Timer → List Timer
push t [] = t ∷ []
push t (u ∷ us) = if ltb t.when u.when then t ∷ u ∷ us else u ∷ push t us

abbrev pub millisecond : ℕ
millisecond = 1_000_000

-- The number of milliseconds, and the two parts, that `write_timer_fd` sets.
unfoldable pub remain_ms : ℕ → ℕ → ℕ
remain_ms now expire_time =
    if ltb (now + 1500 * millisecond) expire_time then (expire_time - now) / millisecond else 1500

unfoldable pub timer_spec : ℕ → ℕ × ℕ
timer_spec ms = let sec = ms / 1000 in (sec, (ms * millisecond) % (sec * 1_000_000_000))

module _ {W : Type 0} where
  unfoldable pub write_timer_fd : ℕ → TimerQueue W → TimerQueue W
  unfolding remain_ms timer_spec
  write_timer_fd expire_time q = record q {
    timer_fd = some (timer_spec (remain_ms q.clock expire_time));
  }

  unfoldable pub insert : Timer → TimerQueue W → TimerQueue W
  insert t q = record q {
    valid_timers = λ k. if k == t.id then true else q.valid_timers k;
    timers = push t q.timers;
  }

  unfoldable pub erase : ℕ → TimerQueue W → TimerQueue W
  erase id q = record q { valid_timers = λ k. if k == id then false else q.valid_timers k }

  -- `write_timer_fd` at the top, if there is one.
  unfoldable pub rearm : TimerQueue W → TimerQueue W
  rearm q = elim q.timers [ [] ↦ q | t ∷ ts ↦ write_timer_fd t.when q ]

  -- `remove_timer`.
  unfoldable pub remove_timer_in_loop : ℕ → TimerQueue W → TimerQueue W
  remove_timer_in_loop = erase

  -- `add_timer`: the timer that is made, and the insertion. `pointer_lt` orders the timers by where they
  -- lie in memory, which is how the source compares them.
  unfoldable pub make_timer : ℕ → ℕ → ℕ → TimerQueue W → Timer × TimerQueue W
  make_timer callback time interval q = (
    record { when = time; id = q.num_timers; interval = interval; callback = callback },
    record q { num_timers = q.num_timers + 1 },
  )

  unfoldable pub add_timer_in_loop : (Timer → Timer → Bool) → Timer → TimerQueue W → TimerQueue W
  add_timer_in_loop pointer_lt t q =
      let first : Bool = elim q.timers [ [] ↦ true | u ∷ us ↦ pointer_lt t u ] in
      insert t (if first then write_timer_fd t.when q else q)

  module _ (call : ℕ → TimerQueue W → TimerQueue W) where
    -- `Timer::run`, with the timer that it leaves.
    unfoldable pub run : Timer → TimerQueue W → Timer × TimerQueue W
    run t q =
        let q' = call t.callback q in
        (if is_repeat t then record t { when = q'.clock + t.interval } else t, q')

    -- The body of the loop of `handle_exprired`, for a timer that has been popped.
    unfoldable pub expire : Timer → TimerQueue W → TimerQueue W
    unfolding run insert erase
    expire t q =
        if q.valid_timers t.id
        then (let (t', q') = run t q in if is_repeat t then insert t' q' else erase t.id q')
        else q

    -- The loop, on fuel; `none` means that the fuel ran out.
    unfoldable pub expire_loop : ℕ → ℕ → TimerQueue W → Option (TimerQueue W)
    expire_loop zero now q = none
    expire_loop (suc fuel) now q = elim q.timers [
      | [] ↦ some q
      | t ∷ ts ↦
          let rest = expire_loop fuel now (expire t (record q { timers = ts })) in
          if ltb t.when now then rest else some q
    ]

    -- `handle_exprired`: each round takes a timer that is due, and a callback adds none that is.
    unfoldable pub handle_exprired : TimerQueue W → Option (TimerQueue W)
    handle_exprired q = expire_loop (length q.timers + 1) q.clock q >>= λ q'. some (rearm q')
