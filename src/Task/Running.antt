-- ===== src/Task/Running.antt =====
-- `push` and `handle_wakeup` of src/net/eventloop/TaskQueue.cpp together.
use netyo.Prelude.{
  ℕ, zero, suc, ◌+◌, ◌≤◌, ◌<◌, ◌≡◌, ◌∙◌, sym, ap, List, [], ◌∷◌, ◌++◌, arith, length, get_or,
  if◌then◌else◌, ◌==◌, drop, append_assoc, drop-all, append-nil, ◌⊎◌, some, none, ◌>>=◌, Option,
  refl, inl, inr,
}
use netyo.Mpsc.{exchange, dequeue}
use netyo.Mpsc.Threads.{
  World, IsOrdered, exchanged, exchanged-IsOrdered, linked, link-linked, linked-IsOrdered,
}
use netyo.Mpsc.Fifo.{advanced, advanced-IsOrdered, dequeue-advanced, dequeue-nothing, tail-IsReady}
use netyo.Mpsc.Answer.{start, start-IsOrdered}
use netyo.Task.{TaskQueue, new_task_queue, push, run_tasks, handle_wakeup, read_event_fd}

abbrev Threads : Type 0
Threads = World {A = ℕ} 0

-- No producer is between its steps.
abbrev IsCalm : Threads → Type 0
IsCalm t = (k : ℕ) → t.waiting k ≡ none

-- The tasks that have been put and not taken.
abbrev left : Threads → List ℕ
left t = drop t.queue.tail t.put

drop_next : (n : ℕ) (xs : List ℕ) → n < length xs → drop n xs ≡ get_or xs n 0 ∷ drop (n + 1) xs
drop_next n [] h = absurd (omega (arith, h))
drop_next zero (x ∷ xs) h = refl
drop_next (suc n) (x ∷ xs) h =
    let e : suc n + 1 ≡ suc (n + 1) = omega arith in rw e (drop_next n xs (omega (arith, h)))

drop_snoc :
    (n : ℕ) (xs : List ℕ) (x : ℕ) → n ≤ length xs → drop n (xs ++ x ∷ []) ≡ drop n xs ++ x ∷ []
drop_snoc zero xs x h = refl
drop_snoc (suc n) [] x h = absurd (omega (arith, h))
drop_snoc (suc n) (y ∷ xs) x h = drop_snoc n xs x (omega (arith, h))

left-none :
    (t : Threads)
    → IsOrdered 0 t
    → IsCalm t
    → ((n : ℕ) × (t.waiting t.queue.tail ≡ some n)) ⊎ (t.queue.tail ≡ t.queue.head)
    → left t ≡ []
left-none t h c (inl (n, e)) = cc (c t.queue.tail)
left-none t h c (inr e) = drop-all t.queue.tail t.put (omega (arith, e, h.count))

-- The threads after a `push` that no other thread interrupts.
abbrev pushed : ℕ → Threads → Threads
pushed f t =
    let u : Threads = exchanged 0 f t in
    record u {
      queue = linked 0 u t.queue.head;
      waiting = λ k. if k == t.queue.head then none else u.waiting k;
    }

pushed-IsOrdered :
    (f : ℕ) (t : Threads)
    → IsOrdered 0 t
    → IsCalm t
    → IsOrdered 0 (pushed f t) × IsCalm (pushed f t) × (left (pushed f t) ≡ left t ++ f ∷ [])
unfolding exchange
pushed-IsOrdered f t h c =
    let u : Threads = exchanged 0 f t in
    let entered : u.waiting t.queue.head ≡ some (length t.queue.heap) = ground arith in
    (
      linked-IsOrdered 0 u t.queue.head (length t.queue.heap) (exchanged-IsOrdered 0 f t h) entered,
      λ k. ground (arith, c k),
      drop_snoc t.queue.tail t.put f (omega (arith, h.behind, h.count)),
    )

module _ {W : Type 0} where
  abbrev queue_of : Threads → ℕ → W → TaskQueue W
  queue_of t n w = record { tasks = t.queue; wakeup = n; world = w }

  push-pushed :
      (f n : ℕ) (t : Threads) (w : W)
      → IsOrdered 0 t
      → push f (queue_of t n w) ≡ some (queue_of (pushed f t) (n + 1) w)
  unfolding push exchange
  push-pushed f n t w h =
      let u : Threads = exchanged 0 f t in
      let entered : u.waiting t.queue.head ≡ some (length t.queue.heap) = ground arith in
      rw (link-linked 0 u t.queue.head (length t.queue.heap) (exchanged-IsOrdered 0 f t h) entered)
        refl

  -- `push` of each of a list of tasks.
  unfoldable pub push_all : List ℕ → TaskQueue W → Option (TaskQueue W)
  push_all [] q = some q
  push_all (f ∷ fs) q = push f q >>= push_all fs

  -- Tasks that change the rest of the program alone.
  module _ (act : ℕ → W → W) where
    abbrev pub quiet : ℕ → TaskQueue W → TaskQueue W
    quiet f q = record q { world = act f q.world }

    abbrev pub run_all : List ℕ → W → W
    run_all [] w = w
    run_all (f ∷ fs) w = run_all fs (act f w)

    run_tasks-left :
        (fuel n : ℕ) (t : Threads) (w : W)
        → IsOrdered 0 t
        → IsCalm t
        → length (left t) < fuel
        → (q : TaskQueue W) × (run_tasks quiet fuel (queue_of t n w) ≡ some q)
          × (q.world ≡ run_all (left t) w)
          × (q.wakeup ≡ n)
          × (dequeue q.tasks ≡ some (q.tasks, none))
    unfolding run_tasks
    run_tasks-left zero n t w h c f = absurd (omega (arith, f))
    run_tasks-left (suc fuel) n t w h c f = elim (tail-IsReady 0 t h) [
      | inr nothing ↦
          let e = dequeue-nothing 0 t h nothing in
          (
            queue_of t n w,
            rw e refl,
            ap (λ l. run_all l w) (sym (left-none t h c nothing)),
            refl,
            e,
          )
      | inl r ↦
          let v : ℕ = get_or t.put t.queue.tail 0 in
          let u : Threads = record t { queue = advanced 0 t; taken = t.taken ++ v ∷ [] } in
          let more : left t ≡ v ∷ left u =
            drop_next t.queue.tail t.put (omega (arith, h.count, r.0)) in
          let (q, d, a, b, z) =
            run_tasks-left fuel n u (act v w) (advanced-IsOrdered 0 t h r) c
              (omega (arith, f, ap length more)) in
          (q, rw (dequeue-advanced 0 t h r) d, a ∙ ap (λ l. run_all l w) (sym more), b, z)
    ]

    push_all-left :
        (fs : List ℕ) (n : ℕ) (t : Threads) (w : W)
        → IsOrdered 0 t
        → IsCalm t
        → (u : Threads) × (push_all fs (queue_of t n w) ≡ some (queue_of u (n + length fs) w))
          × IsOrdered 0 u
          × IsCalm u
          × (left u ≡ left t ++ fs)
    unfolding push_all
    push_all-left [] n t w h c =
        (t, ap (λ k. some (queue_of t k w)) (omega arith), h, c, sym (append-nil (left t)))
    push_all-left (f ∷ fs) n t w h c =
        let (h', c', l) = pushed-IsOrdered f t h c in
        let (u, e, i, j, m) = push_all-left fs (n + 1) (pushed f t) w h' c' in
        (
          u,
          rw (push-pushed f n t w h) (e ∙ ap (λ k. some (queue_of u k w)) (omega arith)),
          i,
          j,
          m ∙ ap (λ k. k ++ fs) l ∙ append_assoc (left t) (f ∷ []) fs,
        )

    -- Tasks that are pushed one after the other to a new queue, and change neither the queue nor the
    -- counter, are all run by the next `handle_wakeup`, each once and in their order; the counter is
    -- then 0 and no task is left.
    pub push_all-handle_wakeup :
        (fs : List ℕ) (w : W)
        → (q : TaskQueue W) × ((push_all fs (new_task_queue w)
              >>= handle_wakeup quiet (length fs + 1))
            ≡ some q)
          × (q.world ≡ run_all fs w)
          × (q.wakeup ≡ 0)
          × (dequeue q.tasks ≡ some (q.tasks, none))
    unfolding handle_wakeup read_event_fd
    push_all-handle_wakeup fs w =
        let (t, e, h, c, l) = push_all-left fs 0 (start 0) w (start-IsOrdered 0) (λ k. refl) in
        let (q, d, a, b, z) =
          run_tasks-left (length fs + 1) 0 t w h c (omega (arith, ap length l)) in
        (q, rw e d, a ∙ ap (λ k. run_all k w) l, b, z)
