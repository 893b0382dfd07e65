-- ===== src/Task/Wakeup.antt =====
-- The wakeups of src/net/eventloop/TaskQueue.cpp under all interleavings of the threads that push with
-- the loop's thread.
use netyo.Prelude.{
  ℕ, suc, ◌+◌, ◌<◌, ◌≡◌, [], ◌∷◌, ◌++◌, arith, length, if◌then◌else◌, ◌==◌, dec_lt, some, none,
  true, false, refl, inl, inr, Bool,
}
use netyo.Mpsc.{MpscQueue, exchange, link, dequeue}
use netyo.Mpsc.Threads.{World, exchanging, linking, dequeuing, IsOrdered, exchanged}
use netyo.Mpsc.Fifo.{dequeue-advanced, tail-IsReady, Step-IsOrdered}
use netyo.Mpsc.Answer.{start, start-IsOrdered}
use netyo.Task.{TaskQueue, write_event_fd, read_event_fd}

-- The threads of the `MpscQueue`, the counter of `wakeup_fd`, the number of threads that have linked
-- their task and have still to write to it, and whether the loop is in `handle_wakeup`.
pub record Loop : Type 0 where
  pub threads : World {A = ℕ} 0
  pub wakeup : ℕ
  pub writing : ℕ
  pub handling : Bool

-- The counter after a write or a read of it.
abbrev pub counter : (TaskQueue (Unit {0}) → TaskQueue (Unit {0})) → Loop → ℕ
counter f l = (f (record { tasks = l.threads.queue; wakeup = l.wakeup; world = tt })).wakeup

-- The steps of `push` and of `handle_wakeup`; the loop handles a counter that is not 0.
pub data LoopStep (l : Loop) : Loop → Type 0 where
  enter : (f : ℕ) → LoopStep l (record l { threads = exchanged 0 f l.threads })
  join :
      (p n : ℕ) (q : MpscQueue ℕ)
      → l.threads.waiting p ≡ some n
      → link p n l.threads.queue ≡ some q
      → LoopStep l (record l {
        threads = record l.threads {
          queue = q;
          waiting = λ k. if k == p then none else l.threads.waiting k;
        };
        writing = l.writing + 1;
      })
  write :
      (n : ℕ)
      → l.writing ≡ suc n
      → LoopStep l (record l { writing = n; wakeup = counter write_event_fd l })
  wake :
      l.handling ≡ false
      → 0 < l.wakeup
      → LoopStep l (record l { wakeup = counter read_event_fd l; handling = true })
  take_task :
      (q : MpscQueue ℕ) (f : ℕ)
      → l.handling ≡ true
      → dequeue l.threads.queue ≡ some (q, some f)
      → LoopStep l
          (record l { threads = record l.threads { queue = q; taken = l.threads.taken ++ f ∷ [] } })
  finish :
      (q : MpscQueue ℕ)
      → l.handling ≡ true
      → dequeue l.threads.queue ≡ some (q, none)
      → LoopStep l (record l { handling = false })

pub data LoopReach (l : Loop) : Loop → Type 0 where
  here : LoopReach l l
  next : {m n : Loop} → LoopReach l m → LoopStep m n → LoopReach l n

-- The loop will look at the queue again: it is at it, a wakeup is there or will be written.
pub data Awake (l : Loop) : Type 0 where
  in_handler : l.handling ≡ true → Awake l
  woken : 0 < l.wakeup → Awake l
  to_write : 0 < l.writing → Awake l
  to_link : (n : ℕ) → l.threads.waiting l.threads.queue.tail ≡ some n → Awake l

pub record IsSound (l : Loop) : Type 0 where
  pub ordered : IsOrdered 0 l.threads
  pub awake : l.threads.queue.tail < l.threads.queue.head → Awake l

-- No task and no thread at work.
abbrev pub idle_loop : Loop
idle_loop = record { threads = start 0; wakeup = 0; writing = 0; handling = false }

enter-Awake :
    (f : ℕ) (l : Loop) → IsSound l → Awake (record l { threads = exchanged 0 f l.threads })
unfolding exchange
enter-Awake f l h = elim (dec_lt l.threads.queue.tail l.threads.queue.head) [
  | no n ↦
      let last : l.threads.queue.tail ≡ l.threads.queue.head = omega (arith, n, h.ordered.behind) in
      to_link (length l.threads.queue.heap) (ground (arith, last))
  | yes p ↦ elim (h.awake p) [
    | in_handler e ↦ in_handler e
    | woken e ↦ woken e
    | to_write e ↦ to_write e
    | to_link n e ↦ to_link n (ground (arith, p, e))
  ]
]

LoopStep-IsSound : (l m : Loop) → LoopStep l m → IsSound l → IsSound m
unfolding write_event_fd
LoopStep-IsSound l _ (enter f) h = record {
  ordered = Step-IsOrdered 0 l.threads _ (exchanging f) h.ordered;
  awake = λ p. enter-Awake f l h;
}
LoopStep-IsSound l _ (join p n q w e) h = record {
  ordered = Step-IsOrdered 0 l.threads _ (linking p n q w e) h.ordered;
  awake = λ _. to_write (omega arith);
}
LoopStep-IsSound l _ (write n e) h = record {
  ordered = h.ordered;
  awake = λ p. woken (omega arith);
}
LoopStep-IsSound l _ (wake e p) h = record { ordered = h.ordered; awake = λ _. in_handler refl }
LoopStep-IsSound l _ (take_task q f b e) h = record {
  ordered = Step-IsOrdered 0 l.threads _ (dequeuing q f e) h.ordered;
  awake = λ _. in_handler b;
}
LoopStep-IsSound l _ (finish q b e) h = record {
  ordered = h.ordered;
  awake = λ p. elim (tail-IsReady 0 l.threads h.ordered) [
    | inl r ↦ let g = dequeue-advanced 0 l.threads h.ordered r in absurd (cc)
    | inr (inl (n, w)) ↦ to_link n w
    | inr (inr same) ↦ absurd (omega (arith, p, same))
  ];
}

LoopReach-IsSound : (l m : Loop) → LoopReach l m → IsSound l → IsSound m
LoopReach-IsSound l m here h = h
LoopReach-IsSound l m (next {m = n} r s) h = LoopStep-IsSound n m s (LoopReach-IsSound l n r h)

-- Whatever the threads have done since the queue was new, in any order of their steps: while a task
-- has been put and not taken, the loop is in `handle_wakeup`, or the counter is not 0, or a thread that
-- has put a task has still to write to the counter.
pub LoopReach-Awake :
    (l : Loop) → LoopReach idle_loop l → l.threads.queue.tail < l.threads.queue.head → Awake l
LoopReach-Awake l r p =
    (LoopReach-IsSound idle_loop l r
        (record { ordered = start-IsOrdered 0; awake = λ q. absurd (omega (arith, q)) })).awake
      p
