-- ===== src/Timer/Due.antt =====
-- The timers of src/net/eventloop/TimerQueue.cpp that are due, and the end of the loop of
-- `handle_exprired`.
use netyo.Prelude.{
  ℕ, zero, suc, ◌+◌, ◌-◌, ◌≤◌, ◌<◌, ◌≡◌, ◌∙◌, sym, ap, List, [], ◌∷◌, arith, length, if◌then◌else◌,
  ltb, some, ◌>>=◌, true, false, refl, Bool-cases, inl, inr, subst,
}
use netyo.Timer.{
  Timer, TimerQueue, is_repeat, push, insert, erase, run, expire, expire_loop, rearm,
  write_timer_fd, handle_exprired,
}

-- The number of timers that are due at a time.
unfoldable pub due : ℕ → List Timer → ℕ
due now [] = 0
due now (t ∷ ts) = (if ltb t.when now then 1 else 0) + due now ts

-- No timer is due before `n`; the timers stand in the order of their times.
abbrev pub Above : ℕ → List Timer → Type 0
Above n [] = Unit {0}
Above n (t ∷ ts) = (n ≤ t.when) × Above n ts

abbrev pub IsSorted : List Timer → Type 0
IsSorted [] = Unit {0}
IsSorted (t ∷ ts) = Above t.when ts × IsSorted ts

Above-weaken : (m n : ℕ) (ts : List Timer) → m ≤ n → Above n ts → Above m ts
Above-weaken m n [] h a = tt
Above-weaken m n (t ∷ ts) h a = (omega (arith, a.0), Above-weaken m n ts h a.1)

due-Above : (now n : ℕ) (ts : List Timer) → now ≤ n → Above n ts → due now ts ≡ 0
unfolding due
due-Above now n [] h a = refl
due-Above now n (t ∷ ts) h a = ground (arith, due-Above now n ts h a.1)

pub due-le-length : (now : ℕ) (ts : List Timer) → due now ts ≤ length ts
unfolding due
due-le-length now [] = omega arith
due-le-length now (t ∷ ts) = ground (arith, due-le-length now ts)

pub due-push :
    (now : ℕ) (t : Timer) (ts : List Timer)
    → due now (push t ts) ≡ due now ts + (if ltb t.when now then 1 else 0)
unfolding due push
due-push now t [] = ground arith
due-push now t (u ∷ us) = ground (arith, due-push now t us)

push-Above : (n : ℕ) (t : Timer) (ts : List Timer) → n ≤ t.when → Above n ts → Above n (push t ts)
unfolding push
push-Above n t [] h a = (h, tt)
push-Above n t (u ∷ us) h a = elim (Bool-cases (ltb t.when u.when)) [
  | inl q ↦ rw q (h, a)
  | inr q ↦ rw q (a.0, push-Above n t us h a.1)
]

pub push-IsSorted : (t : Timer) (ts : List Timer) → IsSorted ts → IsSorted (push t ts)
unfolding push
push-IsSorted t [] s = (tt, tt)
push-IsSorted t (u ∷ us) s = elim (Bool-cases (ltb t.when u.when)) [
  | inl q ↦
      let le : t.when ≤ u.when = ground arith in
      rw q ((le, Above-weaken t.when u.when us le s.0), s)
  | inr q ↦ rw q (push-Above u.when t us (ground arith) s.0, push-IsSorted t us s.1)
]

pub due_cons :
    (now : ℕ) (t : Timer) (ts : List Timer)
    → due now (t ∷ ts) ≡ (if ltb t.when now then 1 else 0) + due now ts
unfolding due
due_cons now t ts = refl

due-none : (now : ℕ) (l : List Timer) → l ≡ [] → due now l ≡ 0
unfolding due
due-none now l e = ap (due now) e

-- Where the first of the timers is not due, none is.
due-later :
    (now : ℕ) (l : List Timer) (t : Timer) (ts : List Timer)
    → l ≡ t ∷ ts
    → IsSorted l
    → ltb t.when now ≡ false
    → due now l ≡ 0
due-later now l t ts e s h =
    let all : IsSorted (t ∷ ts) = subst IsSorted e s in
    let le : now ≤ t.when = ground (arith, h) in
    ap (due now) e
    ∙ due-Above now now (t ∷ ts) (omega arith) (le, Above-weaken now t.when ts le all.0)

module _ {W : Type 0} where
  module _ (call : ℕ → TimerQueue W → TimerQueue W) where
    pub loop-none :
        (fuel now : ℕ) (q : TimerQueue W)
        → q.timers ≡ []
        → expire_loop call (suc fuel) now q ≡ some q
    unfolding expire_loop
    loop-none fuel now q e = ground (arith, e)

    pub loop-later :
        (fuel now : ℕ) (q : TimerQueue W) (t : Timer) (ts : List Timer)
        → q.timers ≡ t ∷ ts
        → ltb t.when now ≡ false
        → expire_loop call (suc fuel) now q ≡ some q
    unfolding expire_loop
    loop-later fuel now q t ts e h = ground (arith, e, h)

    pub loop-due :
        (fuel now : ℕ) (q : TimerQueue W) (t : Timer) (ts : List Timer)
        → q.timers ≡ t ∷ ts
        → ltb t.when now ≡ true
        → expire_loop call (suc fuel) now q
          ≡ expire_loop call fuel now (expire call t (record q { timers = ts }))
    unfolding expire_loop
    loop-due fuel now q t ts e h = ground (arith, e, h)

  -- A queue in order, at a time `now` that has come, with at most `n` timers due then.
  pub record IsQueue (now n : ℕ) (q : TimerQueue W) : Type 0 where
    pub sorted : IsSorted q.timers
    pub reached : now ≤ q.clock
    pub at_most : due now q.timers ≤ n

  pub rearm-timers :
      (q : TimerQueue W) (ts : List Timer) → q.timers ≡ ts → (rearm q).timers ≡ q.timers
  unfolding rearm write_timer_fd
  rearm-timers q [] e = rw (e, rearm) e
  rearm-timers q (t ∷ ts) e = rw (e, rearm) e

  -- The callbacks keep the queue in order, and add no timer that is due: `call_at`, `call_later` and
  -- `call_every` add timers for a later time only.
  abbrev pub IsTame : (ℕ → TimerQueue W → TimerQueue W) → Type 0
  IsTame call = (f now n : ℕ) (q : TimerQueue W) → IsQueue now n q → IsQueue now n (call f q)

  module _ (call : ℕ → TimerQueue W → TimerQueue W) (tame : IsTame call) where
    expire-IsQueue :
        (t : Timer) (now n : ℕ) (q : TimerQueue W)
        → IsQueue now n q
        → IsQueue now n (expire call t q)
    unfolding expire run insert erase
    expire-IsQueue t now n q h =
        let c = tame t.callback now n q h in
        elim (Bool-cases (q.valid_timers t.id)) [
          | inr e ↦ simp e h
          | inl e ↦ elim (Bool-cases (is_repeat t)) [
            | inr r ↦
                simp (e, r) (record { sorted = c.sorted; reached = c.reached; at_most = c.at_most })
            | inl r ↦
                let again : Timer = record t { when = (call t.callback q).clock + t.interval } in
                simp (e, r)
                  (record {
                    sorted = push-IsSorted again (call t.callback q).timers c.sorted;
                    reached = c.reached;
                    at_most = ground (
                      arith,
                      due-push now again (call t.callback q).timers,
                      c.at_most,
                      c.reached,
                    );
                  })
          ]
        ]

    expire_loop-due :
        (fuel now n : ℕ) (q : TimerQueue W) (ts : List Timer)
        → q.timers ≡ ts
        → IsQueue now n q
        → n < fuel
        → (q' : TimerQueue W) × (expire_loop call fuel now q ≡ some q') × IsQueue now 0 q'
    expire_loop-due zero now n q ts e h f = absurd (omega (arith, f))
    expire_loop-due (suc fuel) now n q [] e h f = (
      q,
      loop-none call fuel now q e,
      record {
        sorted = h.sorted;
        reached = h.reached;
        at_most = omega (arith, due-none now q.timers e);
      },
    )
    expire_loop-due (suc fuel) now n q (t ∷ ts) e h f = elim (Bool-cases (ltb t.when now)) [
      | inr later ↦ (
        q,
        loop-later call fuel now q t ts e later,
        record {
          sorted = h.sorted;
          reached = h.reached;
          at_most = omega (arith, due-later now q.timers t ts e h.sorted later);
        },
      )
      | inl old ↦
          let count : due now ts + 1 ≤ n =
            ground (arith, h.at_most, ap (due now) e, due_cons now t ts, old) in
          let all : IsSorted (t ∷ ts) = subst IsSorted e h.sorted in
          let popped : IsQueue now (n - 1) (record q { timers = ts }) = record {
            sorted = all.1;
            reached = h.reached;
            at_most = omega (arith, count);
          } in
          let (q', d, i) =
            expire_loop-due fuel now (n - 1) (expire call t (record q { timers = ts })) _ refl
              (expire-IsQueue t now (n - 1) (record q { timers = ts }) popped)
              (omega (arith, count, f)) in
          (q', loop-due call fuel now q t ts e old ∙ d, i)
    ]

    -- `handle_exprired` ends, if the callbacks of the timers keep the queue in order and add none that
    -- is due: of the timers that were due when it started none is left, and the queue is in order.
    pub handle_exprired-due :
        (q : TimerQueue W)
        → IsSorted q.timers
        → (q' : TimerQueue W) × (handle_exprired call q ≡ some q')
          × IsSorted q'.timers
          × (due q.clock q'.timers ≡ 0)
    unfolding handle_exprired
    handle_exprired-due q s =
        let bound = due-le-length q.clock q.timers in
        let start : IsQueue q.clock (length q.timers) q = record {
          sorted = s;
          reached = omega arith;
          at_most = bound;
        } in
        let (q', e, i) =
          expire_loop-due (length q.timers + 1) q.clock (length q.timers) q q.timers refl start
            (omega arith) in
        let same = sym (rearm-timers q' q'.timers refl) in
        (
          rearm q',
          ap (λ m. m >>= λ x. some (rearm x)) e,
          subst IsSorted same i.sorted,
          subst (λ l. due q.clock l ≡ 0) same (omega (arith, i.at_most)),
        )
