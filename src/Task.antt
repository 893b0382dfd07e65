-- ===== src/Task.antt =====
-- The class `TaskQueue` of src/net/eventloop/TaskQueue.h and TaskQueue.cpp: tasks that any thread adds
-- to a `MpscQueue` and the loop's thread runs, and the `eventfd` that wakes the loop. A task is a name;
-- what it does is a parameter. `none` is a fault in the queue, or fuel that has run out.
pub mod Wakeup
pub mod Running
use netyo.Prelude.{ℕ, zero, suc, ◌+◌, Option, none, some, List, [], ◌∷◌, ◌>>=◌}
use netyo.Mpsc.{MpscQueue, new_queue, exchange, link, dequeue}

-- The fields of `TaskQueue` that change, the counter of `wakeup_fd`, and the rest of the program.
pub record TaskQueue (W : Type 0) : Type 0 where
  pub tasks : MpscQueue ℕ
  pub wakeup : ℕ
  pub world : W

module _ {W : Type 0} where
  -- `TaskQueue(…)`: no task, and a counter of 0.
  abbrev pub new_task_queue : W → TaskQueue W
  new_task_queue w = record { tasks = new_queue; wakeup = 0; world = w }

  -- A write of 1 to the counter, and a read, which takes all of it.
  unfoldable pub write_event_fd : TaskQueue W → TaskQueue W
  write_event_fd q = record q { wakeup = q.wakeup + 1 }

  unfoldable pub read_event_fd : TaskQueue W → TaskQueue W
  read_event_fd q = record q { wakeup = 0 }

  -- `push(cb)`, with no other thread between its steps.
  unfoldable pub push : ℕ → TaskQueue W → Option (TaskQueue W)
  unfolding write_event_fd
  push cb q = do
    let (entered, prevhead, node) = exchange cb q.tasks
    tasks ← link prevhead node entered
    some (write_event_fd (record q { tasks = tasks }))

  module _ (call : ℕ → TaskQueue W → TaskQueue W) where
    -- The loop of `handle_wakeup`.
    unfoldable pub run_tasks : ℕ → TaskQueue W → Option (TaskQueue W)
    run_tasks zero q = none
    run_tasks (suc fuel) q = do
      taken ← dequeue q.tasks
      let q' = record q { tasks = taken.0 }
      elim taken.1 [ none ↦ some q' | some func ↦ run_tasks fuel (call func q') ]

    unfoldable pub handle_wakeup : ℕ → TaskQueue W → Option (TaskQueue W)
    unfolding read_event_fd
    handle_wakeup fuel q = run_tasks fuel (read_event_fd q)
