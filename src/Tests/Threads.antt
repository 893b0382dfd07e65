-- ===== src/Tests/Threads.antt =====
-- The threads of src/net/eventloop/ThreadingEventLoop.cpp at small inputs.
use netyo.Prelude.{
  ℕ, refl, inr, ◌≡◌, List, [], ◌∷◌, Bool, true, false, Option, some, none, ◌>>=◌, ◌⊎◌, replicate,
}
use netyo.Task.{TaskQueue, new_task_queue, handle_wakeup}
use netyo.Task.Running.{quiet, push_all}
use netyo.EventLoop.{EventLoop, new_loop}
use netyo.EventLoop.Ending.{Farewells, destroy_loop, Leaves, destroy_loop-Leaves}
use netyo.EventLoop.Owner.{
  Event, creates, deletes, Process, created, create, delete, serve, serve_all, at_first, HasOne,
  HasNone, serve_all-HasOne,
}
use netyo.Pool.Race.{Race, race, at_start}
use netyo.Pool.Race.Outcome.{to_the_end, IsOver, close-outcomes}
use netyo.Wheel.{plain, TimingWheel}
use netyo.Wheel.Handed.{insertion, insert_all, insert_all-handle_wakeup}

close-outcomes_example :
    ((race (false ∷ to_the_end) at_start ≡ none)
      ⊎ ((u : Race) × (race (false ∷ to_the_end) at_start ≡ some u) × IsOver 20 u))
    × ((cs : List Bool) × (race cs at_start ≡ none))
    × ((cs : List Bool) × (u : Race) × (race cs at_start ≡ some u)
        × IsOver 20 u
        × (u.joined ≡ true))
    × ((cs : List Bool) × (u : Race) × (race cs at_start ≡ some u)
        × IsOver 20 u
        × (u.joined ≡ false))
close-outcomes_example = close-outcomes 20 (false ∷ [])

abbrev one_wheel : TimingWheel
one_wheel = record {
  wheels = record { vec = replicate 100 []; lo = 0; hi = 99 } ∷ [];
  curtick = 99;
  tick_interval = 1;
  nwheel = 1;
}

abbrev wheel_loop : EventLoop (Option TimingWheel)
wheel_loop = new_loop (quiet (insertion (λ f. f) plain)) (new_task_queue (some one_wheel))

insert_all-handle_wakeup_example :
    (q : TaskQueue (Option TimingWheel)) × ((insert_all (λ f. f) plain false (3 ∷ 4 ∷ []) wheel_loop
        >>= λ m. handle_wakeup (quiet (insertion (λ f. f) plain)) 3 m.taskq)
      ≡ some q)
    × (insert_all (λ f. f) plain true (3 ∷ 4 ∷ []) wheel_loop
        ≡ some (record wheel_loop { taskq = record wheel_loop.taskq { world = q.world } }))
    × (insert_all (λ f. f) plain false (3 ∷ 4 ∷ []) (record wheel_loop { closed = true })
        ≡ some (record wheel_loop { closed = true }))
insert_all-handle_wakeup_example = insert_all-handle_wakeup (λ f. f) plain (3 ∷ 4 ∷ []) one_wheel

-- A loop of thread 1 that thread 3 deletes, and one of thread 2.
abbrev three_events : List Event
three_events = creates 1 ∷ creates 2 ∷ deletes 3 0 ∷ []

abbrev two_made : Process
two_made = delete 3 0 (created 2 (created 1 at_first))

three_events-made : serve_all three_events at_first ≡ some two_made
unfolding serve_all serve create
three_events-made = refl

serve_all-HasOne_example : HasOne 1 two_made ⊎ HasNone 1 three_events two_made
serve_all-HasOne_example = serve_all-HasOne three_events two_made 1 three_events-made

-- The world is the tasks that have run.
abbrev idle_loop : EventLoop (List ℕ)
idle_loop = new_loop (quiet λ f w. f ∷ w) (new_task_queue [])

abbrev three_tasks : Farewells
three_tasks = record { noop = 7; close_timer_fd = 8; close_wakeup_fd = 9 }

no_task-pushed : push_all [] (new_task_queue []) ≡ some idle_loop.taskq
unfolding push_all
no_task-pushed = refl

destroy_loop-Leaves_example :
    (m : EventLoop (List ℕ)) × (destroy_loop (quiet λ f w. f ∷ w) three_tasks true idle_loop
      ≡ some m)
    × Leaves (quiet λ f w. f ∷ w) three_tasks [] [] idle_loop m
destroy_loop-Leaves_example =
    destroy_loop-Leaves (quiet λ f w. f ∷ w) three_tasks true [] [] idle_loop (inr no_task-pushed)
