-- ===== src/Wheel/Handed.antt =====
-- `TimingWheel::insert` of src/net/TimingWheel.h, from the loop's thread and from others, by which the
-- insertion is handed to the loop (src/net/eventloop/ThreadingEventLoop.h).
use netyo.Prelude.{
  ℕ, ◌+◌, ◌≡◌, ◌∙◌, sym, ap, List, [], ◌∷◌, length, Bool, true, false, Option, some, ◌>>=◌,
  if◌then◌else◌, refl, Option-cases, inl, inr, arith, not,
}
use netyo.Task.{TaskQueue, new_task_queue, push, handle_wakeup}
use netyo.Task.Running.{quiet, run_all, push_all, push_all-handle_wakeup}
use netyo.EventLoop.{EventLoop, new_loop, call_soon}
use netyo.Wheel.{Entry, TimingWheel, insert_in_loop}

-- A task is the number of an insertion, with its delay and its entry.
module _ (delay_of : ℕ → ℕ) (entry_of : ℕ → Entry) where
  -- The wheel after the insertion, unless there has been a fault.
  abbrev pub insertion : ℕ → Option TimingWheel → Option TimingWheel
  insertion f w = w >>= insert_in_loop (delay_of f) (entry_of f)

  -- `insert(delay, spentry)`; `within` says whether the caller is the loop's thread.
  unfoldable pub insert :
      Bool → ℕ → EventLoop (Option TimingWheel) → Option (EventLoop (Option TimingWheel))
  unfolding call_soon
  insert within f l =
      if within
      then some (record l { taskq = record l.taskq { world = insertion f l.taskq.world } })
      else call_soon (quiet insertion) false f l

  unfoldable pub insert_all :
      Bool → List ℕ → EventLoop (Option TimingWheel) → Option (EventLoop (Option TimingWheel))
  unfolding insert
  insert_all within [] l = some l
  insert_all within (f ∷ fs) l = insert within f l >>= insert_all within fs

  insert_all-within :
      (fs : List ℕ) (l : EventLoop (Option TimingWheel))
      → insert_all true fs l
        ≡ some (record l { taskq = record l.taskq { world = run_all insertion fs l.taskq.world } })
  unfolding insert_all
  insert_all-within [] l = refl
  insert_all-within (f ∷ fs) l =
      insert_all-within fs
        (record l { taskq = record l.taskq { world = insertion f l.taskq.world } })

  insert-push :
      (f : ℕ) (l : EventLoop (Option TimingWheel))
      → l.closed ≡ false
      → insert false f l ≡ (push f l.taskq >>= λ q. some (record l { taskq = q }))
  unfolding insert
  insert-push f l h = ap (λ b. if not b then handed else some l) h
    where
      handed : Option (EventLoop (Option TimingWheel))
      handed = push f l.taskq >>= λ q. some (record l { taskq = q })

  insert_all-push :
      (fs : List ℕ) (l : EventLoop (Option TimingWheel))
      → l.closed ≡ false
      → insert_all false fs l ≡ (push_all fs l.taskq >>= λ q. some (record l { taskq = q }))
  unfolding insert_all push_all
  insert_all-push [] l h = refl
  insert_all-push (f ∷ fs) l h =
      ap (λ m. m >>= insert_all false fs) (insert-push f l h)
      ∙ (elim (Option-cases (push f l.taskq)) [
        | inl n ↦ rw n refl
        | inr (q, d) ↦ rw d (insert_all-push fs (record l { taskq = q }) h)
      ])

  insert_all-closed :
      (fs : List ℕ) (l : EventLoop (Option TimingWheel))
      → l.closed ≡ true
      → insert_all false fs l ≡ some l
  unfolding insert_all insert
  insert_all-closed [] l h = refl
  insert_all-closed (f ∷ fs) l h =
      ap (λ m. m >>= insert_all false fs)
        (ap (λ b. if not b then (push f l.taskq >>= λ q. some (record l { taskq = q })) else some l)
          h)
      ∙ insert_all-closed fs l h

  -- The entries that other threads insert through a new loop are in the wheel after the next
  -- `handle_wakeup`, which leaves the wheel that the same insertions in the loop's thread leave; a loop
  -- that has ended drops them.
  pub insert_all-handle_wakeup :
      (fs : List ℕ) (w : TimingWheel)
      → let l = new_loop (quiet insertion) (new_task_queue (some w)) in
        (q : TaskQueue (Option TimingWheel)) × ((insert_all false fs l >>= λ m.
        handle_wakeup (quiet insertion) (length fs + 1) m.taskq)
          ≡ some q)
        × (insert_all true fs l ≡ some (record l { taskq = record l.taskq { world = q.world } }))
        × (insert_all false fs (record l { closed = true }) ≡ some (record l { closed = true }))
  insert_all-handle_wakeup fs w =
      let l = new_loop (quiet insertion) (new_task_queue (some w)) in
      let (q, e, world, _, _) = push_all-handle_wakeup insertion fs (some w) in
      (
        q,
        rw (insert_all-push fs l refl) (elim (Option-cases (push_all fs l.taskq)) [
          | inl n ↦ absurd (ground (arith, n, e))
          | inr (u, d) ↦ rw d (rw d at e)
        ]),
        insert_all-within fs l
            ∙ ap (λ v. some (record l { taskq = record l.taskq { world = v } })) (sym world),
        insert_all-closed fs (record l { closed = true }) refl,
      )
