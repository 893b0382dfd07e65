-- ===== src/Tests/Loops.antt =====
-- The loop's parts, of src/net/eventloop and src/net/TimingWheel.h, at small inputs.
use netyo.Prelude.{
  map, ℕ, zero, suc, ◌+◌, ◌*◌, ◌≤◌, ◌<◌, ◌≡◌, List, [], ◌∷◌, ◌++◌, arith, get_or, if◌then◌else◌,
  ◌==◌, replicate, ◌⊎◌, some, none, ◌>>=◌, true, false, refl, ◌≢◌,
}
use netyo.Ring.{Ring}
use netyo.Mpsc.{new_queue, exchange, link, dequeue}
use netyo.Task.{TaskQueue, new_task_queue, push, handle_wakeup, write_event_fd}
use netyo.Task.Running.{quiet, push_all, push_all-handle_wakeup}
use netyo.Task.Wakeup.{Loop, here, next, enter, idle_loop, Awake, LoopReach-Awake}
use netyo.Timer.{Timer, TimerQueue, remain_ms, timer_spec, millisecond, handle_exprired}
use netyo.Timer.Arming.{timer_spec_bounds}
use netyo.Timer.Due.{due, IsSorted, handle_exprired-due}
use netyo.Timer.Expiry as Expiry
use netyo.EventLoop.{EventLoop, new_loop, close_loop, run_loop}
use netyo.EventLoop.Closing.{closed_while_waiting, close-run_loop}
use netyo.Pool.{Pool, start_thread}
use netyo.Ring.Entries.{IsValid}
use netyo.Wheel.{Bucket, Entry, plain, TimingWheel, insert_slot, insert_in_loop}
use netyo.Wheel.Far.{innermost, insert_in_loop-last}
use netyo.Pool.{LoopThread, close_threads}
use netyo.Wheel.Early.{filling, insert_slot-filling}
use netyo.Wheel.Near.{turn}

-- A task notes its name.
abbrev note : ℕ → List ℕ → List ℕ
note f w = w ++ f ∷ []

push_all-handle_wakeup_example :
    (q : TaskQueue (List ℕ)) × ((push_all (4 ∷ 5 ∷ []) (new_task_queue [])
        >>= handle_wakeup (quiet note) 3)
      ≡ some q)
    × (q.world ≡ 4 ∷ 5 ∷ [])
    × (q.wakeup ≡ 0)
    × (dequeue q.tasks ≡ some (q.tasks, none))
push_all-handle_wakeup_example = push_all-handle_wakeup note (4 ∷ 5 ∷ []) []

-- A thread has exchanged the head of the queue and not linked its task.
abbrev entered_loop : Loop
entered_loop = record idle_loop {
  threads = record {
    queue = (exchange 7 new_queue).0;
    waiting = λ k. if k == 0 then some 1 else none;
    put = 7 ∷ [];
    taken = [];
  };
}

LoopReach-Awake_example : Awake entered_loop
unfolding exchange
LoopReach-Awake_example = LoopReach-Awake entered_loop (next here (enter 7)) (omega arith)

-- Three seconds and a half.
timer_spec_bounds_example :
    let ms = remain_ms 5 (3500 * millisecond + 5) in
    let (sec, nsec) = timer_spec ms in
    (sec * 1_000_000_000 + nsec ≡ ms * millisecond)
    × (nsec < 1_000_000_000)
    × (1500 ≤ ms)
    × (3500 * millisecond + 5 < 5 + (ms + 1) * millisecond)
    × ((3500 * millisecond + 5 ≤ 5 + 1500 * millisecond)
        ⊎ (5 + ms * millisecond ≤ 3500 * millisecond + 5))
timer_spec_bounds_example = timer_spec_bounds 5 (3500 * millisecond + 5)

-- Timer 0 has been removed, timer 1 repeats, timer 2 is not due.
abbrev three_timers : List Timer
three_timers =
    record { when = 3; id = 0; interval = 0; callback = 10 }
    ∷ record { when = 4; id = 1; interval = 50; callback = 11 }
    ∷ record { when = 90; id = 2; interval = 0; callback = 12 }
    ∷ []

abbrev some_timers : TimerQueue (List ℕ)
some_timers = record {
  valid_timers = λ k. if k == 0 then false else true;
  timers = three_timers;
  num_timers = 3;
  timer_fd = none;
  clock = 20;
  world = [];
}

handle_exprired-due_example :
    (q : TimerQueue (List ℕ)) × (handle_exprired (λ f q. q) some_timers ≡ some q)
    × IsSorted q.timers
    × (due 20 q.timers ≡ 0)
handle_exprired-due_example =
    handle_exprired-due (λ f q. q) (λ f now n q h. h) some_timers (omega arith)

one_not_zero : suc zero ≢ zero
one_not_zero = omega arith

handle_exprired-runs_example :
    (q : TimerQueue (List ℕ)) × (handle_exprired (Expiry.quiet note (λ f. 1)) some_timers ≡ some q)
    × (q.world ≡ 11 ∷ [])
handle_exprired-runs_example =
    Expiry.handle_exprired-runs note (λ f. 1) some_timers ((one_not_zero, tt), (tt, tt))

-- The queue that two pushes leave.
abbrev two_tasks : TaskQueue (List ℕ)
two_tasks = record {
  tasks = record {
    heap =
        some (record { data_ptr = none; next = some 1 })
        ∷ some (record { data_ptr = some 4; next = some 2 })
        ∷ some (record { data_ptr = some 5; next = none })
        ∷ [];
    head = 2;
    tail = 0;
  };
  wakeup = 2;
  world = [];
}

two_tasks-pushed : push_all (4 ∷ 5 ∷ []) (new_task_queue []) ≡ some two_tasks
unfolding push_all push exchange link write_event_fd
two_tasks-pushed = refl

close-run_loop_example :
    ((l : EventLoop (List ℕ)) × ((close_loop (quiet note) 9 false (new_loop (quiet note) two_tasks)
          >>= run_loop (quiet note) (closed_while_waiting note 9 4) 2)
        ≡ some l)
      × (l.closed ≡ true)
      × (l.taskq.world ≡ []))
    × ((l : EventLoop (List ℕ)) × (run_loop
            (quiet note)
            (closed_while_waiting note 9 4)
            2
            (new_loop (quiet note) two_tasks)
          ≡ some l)
        × (l.closed ≡ true)
        × (l.taskq.world ≡ 4 ∷ 5 ∷ 9 ∷ []))
close-run_loop_example = close-run_loop note 9 (4 ∷ 5 ∷ []) [] two_tasks two_tasks-pushed

abbrev three_threads : Pool
three_threads = record {
  thread_num = 3;
  threads = start_thread 20 ∷ start_thread 21 ∷ start_thread 22 ∷ [];
  thread_index = 0;
}

-- Two wheels of two buckets.
abbrev small_wheel : Ring Bucket
small_wheel = record { vec = [] ∷ [] ∷ [] ∷ []; lo = 0; hi = 2 }

abbrev two_wheels : TimingWheel
two_wheels = record {
  wheels = small_wheel ∷ small_wheel ∷ [];
  curtick = 0;
  tick_interval = 10;
  nwheel = 2;
}

insert_in_loop-last_example :
    (e' : Entry) × (innermost e' ≡ plain 1)
    × (insert_in_loop 250 (plain 1) two_wheels ≡ (
        insert_slot 1 99 e' two_wheels.wheels >>= λ ws. some (record two_wheels { wheels = ws })))
unfolding innermost
insert_in_loop-last_example =
    insert_in_loop-last 250 (plain 1) two_wheels (omega arith) (omega arith) (omega arith)

small_wheel-IsValid : IsValid small_wheel
small_wheel-IsValid = omega arith

-- The second thread has ended before the pool is closed, and is not joined.
three_threads-closed :
    (close_threads (λ i. i == 1) three_threads.threads >>= λ us.
    some (map (λ (t : LoopThread). t.joined) us))
    ≡ some (true ∷ false ∷ true ∷ [])
unfolding start_thread close_threads netyo.Pool.close_thread
three_threads-closed = refl

insert_slot-filling_example :
    (s g : Ring Bucket) × (insert_slot 0 2 (plain 5) (filling (replicate 9 []) 1 ∷ [])
      ≡ some (s ∷ []))
    × (turn 3 s ≡ some g)
    × (get_or g.vec 2 [] ≡ [])
insert_slot-filling_example =
    insert_slot-filling 1 3 3 (replicate 9 []) [] (plain 5) (omega arith) (omega arith)
      (omega arith)
