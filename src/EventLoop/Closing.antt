-- ===== src/EventLoop/Closing.antt =====
-- The end of a loop of src/net/eventloop/ThreadingEventLoop.cpp, and the tasks that it has been given.
use netyo.Prelude.{
  ℕ, ◌+◌, ◌≡◌, ◌∙◌, sym, ap, List, [], ◌∷◌, ◌++◌, arith, length, length-append, Option-cases, some,
  ◌>>=◌, Option, true, false, refl, inl, inr, subst,
}
use netyo.Task.{TaskQueue, new_task_queue, push, handle_wakeup}
use netyo.Task.Running.{quiet, run_all, push_all, push_all-handle_wakeup}
use netyo.EventLoop.{EventLoop, new_loop, call_soon, close_loop, run_loop}

module _ {W : Type 0} where
  push-world : (f : ℕ) (q q' : TaskQueue W) → push f q ≡ some q' → q'.world ≡ q.world
  unfolding push
  push-world f q q' e = ground (arith, e)

  pub push_all-world :
      (fs : List ℕ) (q q' : TaskQueue W) → push_all fs q ≡ some q' → q'.world ≡ q.world
  unfolding push_all
  push_all-world [] q q' e = ground (arith, e)
  push_all-world (f ∷ fs) q q' e = elim (Option-cases (push f q)) [
    | inl n ↦ absurd (cc)
    | inr (u, d) ↦ push_all-world fs u q' (rw d at e) ∙ push-world f q u d
  ]

  pub push_all-snoc :
      (fs : List ℕ) (f : ℕ) (q : TaskQueue W)
      → push_all (fs ++ f ∷ []) q ≡ (push_all fs q >>= push f)
  unfolding push_all
  push_all-snoc [] f q = elim (Option-cases (push f q)) [
    | inl n ↦ rw n refl
    | inr (u, d) ↦ rw d refl
  ]
  push_all-snoc (g ∷ fs) f q = elim (Option-cases (push g q)) [
    | inl n ↦ rw n refl
    | inr (u, d) ↦ rw d (push_all-snoc fs f u)
  ]

module _ {W : Type 0} (act : ℕ → W → W) (noop : ℕ) where
  -- A selector that waits while another thread closes the loop, and then reports the descriptor of the
  -- task queue.
  abbrev pub closed_while_waiting : ℕ → EventLoop W → Option (EventLoop W)
  closed_while_waiting fuel l = close_loop (quiet act) noop false l >>= λ m.
      handle_wakeup (quiet act) fuel m.taskq >>= λ q. some (record m { taskq = q })

  -- A loop that other threads have given the tasks `fs` and that one of them then closes, before its
  -- thread tests `_close`, ends with none of the tasks run. If it is closed while its thread waits in
  -- the selector, it runs all of them in their order, then the callback of `close`, and ends.
  pub close-run_loop :
      (fs : List ℕ) (w : W) (q : TaskQueue W)
      → push_all fs (new_task_queue w) ≡ some q
      → ((l : EventLoop W) × ((close_loop (quiet act) noop false (new_loop (quiet act) q)
              >>= run_loop (quiet act) (closed_while_waiting (length fs + 2)) 2)
            ≡ some l)
          × (l.closed ≡ true)
          × (l.taskq.world ≡ w))
        × ((l : EventLoop W) × (run_loop
                (quiet act)
                (closed_while_waiting (length fs + 2))
                2
                (new_loop (quiet act) q)
              ≡ some l)
            × (l.closed ≡ true)
            × (l.taskq.world ≡ run_all act (fs ++ noop ∷ []) w))
  unfolding run_loop close_loop call_soon
  close-run_loop fs w q e =
      let (r, d, a, _, _) = push_all-handle_wakeup act (fs ++ noop ∷ []) w in
      let all : (push noop q >>= handle_wakeup (quiet act) (length (fs ++ noop ∷ []) + 1))
          ≡ some r =
        ap (λ m. m >>= handle_wakeup (quiet act) (length (fs ++ noop ∷ []) + 1))
          (sym (push_all-snoc fs noop (new_task_queue w) ∙ ap (λ m. m >>= push noop) e))
        ∙ d in
      let fuel : length (fs ++ noop ∷ []) + 1 ≡ length fs + 2 =
        omega (arith, length-append fs (noop ∷ [])) in
      elim (Option-cases (push noop q)) [
        | inl n ↦ absurd (cc)
        | inr (u, p) ↦
            let same = push-world noop q u p ∙ push_all-world fs (new_task_queue w) q e in
            let ran : handle_wakeup (quiet act) (length (fs ++ noop ∷ []) + 1) u ≡ some r =
              rw p at all in
            let woken : handle_wakeup (quiet act) (length fs + 2) u ≡ some r =
              subst (λ n. handle_wakeup (quiet act) n u ≡ some r) fuel ran in
            let ended : TaskQueue W → EventLoop W =
              λ t. record (new_loop (quiet act) t) { close = true; closed = true } in
            ((ended u, rw p refl, refl, same), (ended r, rw (p, woken) refl, refl, a))
      ]
