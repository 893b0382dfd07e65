-- ===== src/EventLoop/Ending.antt =====
-- The destructor of `EventLoop` (src/net/eventloop/ThreadingEventLoop.cpp) with those of its timers and
-- its task queue (src/net/eventloop/TimerQueue.cpp and TaskQueue.cpp), which give the loop a callback
-- that is to close their descriptor. The tasks that are left then go with the `MpscQueue`.
use netyo.Prelude.{
  ℕ, ◌≡◌, ◌∙◌, sym, ap, List, [], ◌∷◌, ◌++◌, Bool, true, false, Option, some, ◌>>=◌, Option-cases,
  refl, inl, inr, ◌⊎◌, arith, Bool-cases, append_assoc,
}
use netyo.Task.{TaskQueue, new_task_queue, push}
use netyo.Task.Running.{push_all, push_all-handle_wakeup}
use netyo.EventLoop.{EventLoop, call_soon, close_loop}
use netyo.EventLoop.Closing.{push_all-snoc, push_all-world}

-- The callbacks: the one of `close`, and those that close `timer_fd` and `wakeup_fd`.
pub record Farewells : Type 0 where
  pub noop : ℕ
  pub close_timer_fd : ℕ
  pub close_wakeup_fd : ℕ

module _ {W : Type 0} (call : ℕ → TaskQueue W → TaskQueue W) (f : Farewells) where
  -- `~TimerQueue()` and `~TaskQueue()`: `run_in_loop` is `call_soon` of the loop.
  unfoldable pub end_timerq : Bool → EventLoop W → Option (EventLoop W)
  end_timerq within l = call_soon call within f.close_timer_fd l

  unfoldable pub end_taskq : Bool → EventLoop W → Option (EventLoop W)
  end_taskq within l = call_soon call within f.close_wakeup_fd l

  -- `~EventLoop()`, and then its members, the last one first.
  unfoldable pub destroy_loop : Bool → EventLoop W → Option (EventLoop W)
  unfolding end_timerq end_taskq
  destroy_loop within l =
      close_loop call f.noop within l >>= λ m. end_timerq within m >>= λ n. end_taskq within n

  call_soon-closed :
      (within : Bool) (cb : ℕ) (l : EventLoop W)
      → l.close ≡ true
      → l.closed ≡ true
      → call_soon call within cb l ≡ some l
  unfolding call_soon
  call_soon-closed within cb l h k = ground (arith, h, k)

  call_soon-waits :
      (within : Bool) (cb : ℕ) (l : EventLoop W) (q : TaskQueue W)
      → l.close ≡ true
      → l.closed ≡ false
      → push cb l.taskq ≡ some q
      → call_soon call within cb l ≡ some (record l { taskq = q })
  unfolding call_soon
  call_soon-waits within cb l q h k e = elim (Bool-cases within) [
    | inl b ↦ rw (b, h, k, e) refl
    | inr b ↦ rw (b, k, e) refl
  ]

  -- A task more for a queue that tasks have been pushed to.
  push_all-more :
      (fs : List ℕ) (cb : ℕ) (w : W) (q : TaskQueue W)
      → push_all fs (new_task_queue w) ≡ some q
      → (r : TaskQueue W) × (push cb q ≡ some r)
        × (push_all (fs ++ cb ∷ []) (new_task_queue w) ≡ some r)
  push_all-more fs cb w q e =
      let more = push_all-snoc fs cb (new_task_queue w) ∙ ap (λ m. m >>= push cb) e in
      let (_, d, _, _, _) = push_all-handle_wakeup (λ g v. v) (fs ++ cb ∷ []) w in
      elim (Option-cases (push cb q)) [
        | inl n ↦ absurd (ground (arith, n, more, d))
        | inr (r, p) ↦ (r, p, more ∙ p)
      ]

  -- The callbacks that the destructors give to a loop, by whether it has been closed before.
  abbrev pub last_tasks : Bool → List ℕ
  last_tasks true = f.close_timer_fd ∷ f.close_wakeup_fd ∷ []
  last_tasks false = f.noop ∷ f.close_timer_fd ∷ f.close_wakeup_fd ∷ []

  -- What the destructor leaves: nothing has run, and the callbacks wait if the loop has not ended.
  abbrev pub Leaves : List ℕ → W → EventLoop W → EventLoop W → Type 0
  Leaves fs w l m =
      (m.taskq.world ≡ l.taskq.world)
      × (((l.closed ≡ true) × (m.taskq ≡ l.taskq))
          ⊎ ((l.closed ≡ false)
              × (push_all (fs ++ last_tasks l.close) (new_task_queue w) ≡ some m.taskq)))

  members_wait :
      (within : Bool) (fs : List ℕ) (w : W) (l : EventLoop W)
      → l.close ≡ true
      → l.closed ≡ false
      → push_all fs (new_task_queue w) ≡ some l.taskq
      → (m : EventLoop W) × ((end_timerq within l >>= λ n. end_taskq within n) ≡ some m)
        × (push_all (fs ++ last_tasks true) (new_task_queue w) ≡ some m.taskq)
  unfolding end_timerq end_taskq
  members_wait within fs w l h k e =
      let (q, p, e1) = push_all-more fs f.close_timer_fd w l.taskq e in
      let (r, u, e2) = push_all-more (fs ++ f.close_timer_fd ∷ []) f.close_wakeup_fd w q e1 in
      (
        record l { taskq = r },
        rw (call_soon-waits within f.close_timer_fd l q h k p)
            (call_soon-waits within f.close_wakeup_fd (record l { taskq = q }) r h k u),
        ap (λ gs. push_all gs (new_task_queue w))
              (sym (append_assoc fs (f.close_timer_fd ∷ []) (f.close_wakeup_fd ∷ [])))
            ∙ e2,
      )

  destroy_open :
      (within : Bool) (fs : List ℕ) (w : W) (l : EventLoop W)
      → l.closed ≡ false
      → push_all fs (new_task_queue w) ≡ some l.taskq
      → (m : EventLoop W) × (destroy_loop within l ≡ some m)
        × (push_all (fs ++ last_tasks l.close) (new_task_queue w) ≡ some m.taskq)
  unfolding destroy_loop close_loop
  destroy_open within fs w l k e =
      let told : EventLoop W = record l { close = true } in
      elim (Bool-cases l.close) [
        | inl h ↦ let (m, d, g) = members_wait within fs w told refl k e in (m, rw h d, rw h g)
        | inr h ↦
            let (q, p, e1) = push_all-more fs f.noop w l.taskq e in
            let (m, d, g) =
              members_wait within (fs ++ f.noop ∷ []) w (record told { taskq = q }) refl k e1 in
            (
              m,
              rw (h, call_soon-waits within f.noop told q refl k p) d,
              rw h (
                  ap (λ gs. push_all gs (new_task_queue w))
                    (sym (append_assoc fs (f.noop ∷ []) (last_tasks true)))
                  ∙ g),
            )
      ]

  destroy_ended :
      (within : Bool) (l : EventLoop W)
      → l.closed ≡ true
      → destroy_loop within l ≡ some (record l { close = true })
  unfolding destroy_loop close_loop end_timerq end_taskq
  destroy_ended within l k =
      let told : EventLoop W = record l { close = true } in
      let stays : (cb : ℕ) → call_soon call within cb told ≡ some told =
        λ cb. call_soon-closed within cb told refl k in
      elim (Bool-cases l.close) [
        | inl h ↦ rw (h, stays f.close_timer_fd) (stays f.close_wakeup_fd)
        | inr h ↦ rw (h, stays f.noop, stays f.close_timer_fd) (stays f.close_wakeup_fd)
      ]

  -- The destructor of a loop, in any thread, whose run has ended, or whose queue tasks have been pushed
  -- to since it was new: it does not fault and runs no callback, so that neither `timer_fd` nor
  -- `wakeup_fd` is closed. If the loop has ended the callbacks are dropped. Otherwise they are left in
  -- the queue behind the other tasks, after that of `close` if the loop had not been closed.
  pub destroy_loop-Leaves :
      (within : Bool) (fs : List ℕ) (w : W) (l : EventLoop W)
      → (l.closed ≡ true) ⊎ (push_all fs (new_task_queue w) ≡ some l.taskq)
      → (m : EventLoop W) × (destroy_loop within l ≡ some m) × Leaves fs w l m
  destroy_loop-Leaves within fs w l h = elim (Bool-cases l.closed) [
    | inl k ↦ (record l { close = true }, destroy_ended within l k, (refl, inl (k, refl)))
    | inr k ↦ elim h [
      | inl c ↦ absurd (ground (arith, c, k))
      | inr e ↦
          let (m, d, g) = destroy_open within fs w l k e in
          (
            m,
            d,
            (
              push_all-world (fs ++ last_tasks l.close) (new_task_queue w) m.taskq g
                  ∙ sym (push_all-world fs (new_task_queue w) l.taskq e),
              inr (k, g),
            ),
          )
    ]
  ]
