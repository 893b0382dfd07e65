-- ===== src/Timer/Expiry.antt =====
-- Which callbacks `handle_exprired` of src/net/eventloop/TimerQueue.cpp runs, where the callbacks leave
-- the queue alone.
use netyo.Prelude.{
  ℕ, zero, suc, ◌+◌, ◌≤◌, ◌<◌, ◌≡◌, ◌∙◌, sym, ap, List, [], ◌∷◌, arith, length, if◌then◌else◌, ltb,
  some, ◌>>=◌, refl, Bool-cases, inl, inr, subst, ◌≢◌, Bool,
}
use netyo.Timer.{
  Timer, TimerQueue, push, insert, erase, run, expire, expire_loop, rearm, write_timer_fd,
  handle_exprired,
}
use netyo.Timer.Due.{loop-none, loop-later, loop-due}

-- The timers at the head of the queue that are due.
abbrev pub due_prefix : ℕ → List Timer → List Timer
due_prefix now [] = []
due_prefix now (t ∷ ts) = if ltb t.when now then t ∷ due_prefix now ts else []

-- No timer of the list has the id.
abbrev pub Absent : ℕ → List Timer → Type 0
Absent i [] = Unit {0}
Absent i (t ∷ ts) = (t.id ≢ i) × Absent i ts

abbrev pub IsDistinct : List Timer → Type 0
IsDistinct [] = Unit {0}
IsDistinct (t ∷ ts) = Absent t.id ts × IsDistinct ts

due_prefix-push :
    (now : ℕ) (t : Timer) (ts : List Timer)
    → now ≤ t.when
    → due_prefix now (push t ts) ≡ due_prefix now ts
unfolding push
due_prefix-push now t [] h = ground arith
due_prefix-push now t (u ∷ us) h = ground (arith, due_prefix-push now t us h)

length-due_prefix : (now : ℕ) (ts : List Timer) → length (due_prefix now ts) ≤ length ts
length-due_prefix now [] = omega arith
length-due_prefix now (t ∷ ts) = ground (arith, length-due_prefix now ts)

-- A callback changes the rest of the program and takes its time.
module _ {W : Type 0} (act : ℕ → W → W) (delay : ℕ → ℕ) where
  abbrev pub quiet : ℕ → TimerQueue W → TimerQueue W
  quiet f q = record q { world = act f q.world; clock = q.clock + delay f }

  -- The callbacks of the valid timers of a list, one after the other.
  abbrev pub run_valid : (ℕ → Bool) → List Timer → W → W
  run_valid valid [] w = w
  run_valid valid (t ∷ ts) w = run_valid valid ts (if valid t.id then act t.callback w else w)

  run_valid-agree :
      (v v' : ℕ → Bool) (i : ℕ) (ts : List Timer) (w : W)
      → ((k : ℕ) → k ≢ i → v k ≡ v' k)
      → Absent i ts
      → run_valid v ts w ≡ run_valid v' ts w
  run_valid-agree v v' i [] w h a = refl
  run_valid-agree v v' i (t ∷ ts) w h a =
      rw (h t.id a.0) (run_valid-agree v v' i ts (if v' t.id then act t.callback w else w) h a.1)

  -- What the body of the loop makes of the queue.
  expire-valid :
      (t : Timer) (q : TimerQueue W) (k : ℕ)
      → k ≢ t.id
      → (expire quiet t q).valid_timers k ≡ q.valid_timers k
  unfolding expire run insert erase
  expire-valid t q k n = ground (arith, n)

  expire-world :
      (t : Timer) (q : TimerQueue W)
      → (expire quiet t q).world ≡ (if q.valid_timers t.id then act t.callback q.world else q.world)
  unfolding expire run insert erase
  expire-world t q = ground arith

  expire-clock : (t : Timer) (q : TimerQueue W) → q.clock ≤ (expire quiet t q).clock
  unfolding expire run insert erase
  expire-clock t q = ground arith

  expire-due_prefix :
      (t : Timer) (now : ℕ) (q : TimerQueue W)
      → now ≤ q.clock
      → due_prefix now (expire quiet t q).timers ≡ due_prefix now q.timers
  unfolding expire run insert erase
  expire-due_prefix t now q h = ground (
    arith,
    due_prefix-push now (record t { when = q.clock + delay t.callback + t.interval }) q.timers,
  )

  loop-runs :
      (fuel now : ℕ) (q : TimerQueue W) (ts : List Timer)
      → q.timers ≡ ts
      → now ≤ q.clock
      → length (due_prefix now ts) < fuel
      → IsDistinct (due_prefix now ts)
      → (q' : TimerQueue W) × (expire_loop quiet fuel now q ≡ some q')
        × (q'.world ≡ run_valid q.valid_timers (due_prefix now ts) q.world)
  loop-runs zero now q ts e c f n = absurd (omega (arith, f))
  loop-runs (suc fuel) now q [] e c f n = (q, loop-none quiet fuel now q e, refl)
  loop-runs (suc fuel) now q (t ∷ ts) e c f n = elim (Bool-cases (ltb t.when now)) [
    | inr later ↦ (q, loop-later quiet fuel now q t ts e later, rw later refl)
    | inl old ↦
        let whole : due_prefix now (t ∷ ts) ≡ t ∷ due_prefix now ts = rw old refl in
        let apart : IsDistinct (t ∷ due_prefix now ts) = subst IsDistinct whole n in
        let popped : TimerQueue W = record q { timers = ts } in
        let q1 : TimerQueue W = expire quiet t popped in
        let same : due_prefix now q1.timers ≡ due_prefix now ts =
          expire-due_prefix t now popped c in
        let (q', d, w) =
          loop-runs fuel now q1 q1.timers refl (omega (arith, c, expire-clock t popped))
            (subst (λ l. length l < fuel) (sym same) (omega (arith, f, ap length whole)))
            (subst IsDistinct (sym same) apart.1) in
        (
          q',
          loop-due quiet fuel now q t ts e old ∙ d,
          w
              ∙ ap (λ l. run_valid q1.valid_timers l q1.world) same
              ∙ run_valid-agree q1.valid_timers q.valid_timers t.id (due_prefix now ts) q1.world
                  (expire-valid t popped) apart.0
              ∙ ap (run_valid q.valid_timers (due_prefix now ts)) (expire-world t popped)
              ∙ ap (λ l. run_valid q.valid_timers l q.world) (sym whole),
        )
  ]

  rearm-world : (q : TimerQueue W) (ts : List Timer) → q.timers ≡ ts → (rearm q).world ≡ q.world
  unfolding rearm write_timer_fd
  rearm-world q [] e = rw (e, rearm) refl
  rearm-world q (t ∷ ts) e = rw (e, rearm) refl

  -- Where the callbacks do not change the queue and the timers at its head that are due have different
  -- ids, `handle_exprired` ends, and of these timers it has run those that have not been removed, each
  -- once and in the order of the queue, and nothing else.
  pub handle_exprired-runs :
      (q : TimerQueue W)
      → IsDistinct (due_prefix q.clock q.timers)
      → (q' : TimerQueue W) × (handle_exprired quiet q ≡ some q')
        × (q'.world ≡ run_valid q.valid_timers (due_prefix q.clock q.timers) q.world)
  unfolding handle_exprired
  handle_exprired-runs q n =
      let (q', e, w) =
        loop-runs (length q.timers + 1) q.clock q q.timers refl (omega arith)
          (omega (arith, length-due_prefix q.clock q.timers)) n in
      (rearm q', ap (λ m. m >>= λ x. some (rearm x)) e, rearm-world q' q'.timers refl ∙ w)
