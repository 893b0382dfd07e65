-- ===== src/Pool/Race/Outcome.antt =====
-- How a `close` of a thread of src/net/eventloop/ThreadingEventLoop.cpp can end.
use netyo.Prelude.{
  ℕ, Bool, true, false, ◌||◌, not, Option, none, some, List, [], ◌∷◌, ◌++◌, ◌≡◌, ◌⊎◌, inl, inr,
  refl, arith, ap, Option-cases, sym, subst,
}
use netyo.Pool.{start_thread, close_thread}
use netyo.Pool.Race.{
  ThreadAt, running, leaving, cleared, ended, CloserAt, closing, waking, testing, joining, clearing,
  done, Race, is_ended, thread_step, closer_step, race, at_start, thread_of,
}

abbrev is_running : ThreadAt → Bool
is_running running = true
is_running leaving = false
is_running cleared = false
is_running ended = false

-- `this->loop = nullptr` has been done in the loop's thread.
abbrev has_cleared : ThreadAt → Bool
has_cleared running = false
has_cleared leaving = false
has_cleared cleared = true
has_cleared ended = true

abbrev is_first : CloserAt → Bool
is_first closing = true
is_first waking = false
is_first testing = false
is_first joining = false
is_first clearing = false
is_first done = false

abbrev pub is_done : CloserAt → Bool
is_done closing = false
is_done waking = false
is_done testing = false
is_done joining = false
is_done clearing = false
is_done done = true

-- The closing thread is behind `join`.
abbrev is_late : CloserAt → Bool
is_late closing = false
is_late waking = false
is_late testing = false
is_late joining = false
is_late clearing = true
is_late done = true

record IsSound (r : Race) : Type 0 where
  pub told_is : r.told ≡ not (is_first r.closer)
  pub null_is : r.is_null ≡ (has_cleared r.thread || is_done r.closer)
  pub asked : (is_running r.thread || r.told) ≡ true
  pub waited : (not r.joined || is_ended r.thread) ≡ true
  pub late : (not r.joined || is_late r.closer) ≡ true
  pub passed : (not (is_late r.closer) || has_cleared r.thread) ≡ true

thread_step-IsSound :
    (t : ThreadAt) (k : CloserAt) (told is_null joined : Bool)
    → let r : Race = record {
      thread = t;
      closer = k;
      told = told;
      is_null = is_null;
      joined = joined;
    } in
      IsSound r → IsSound (thread_step r)
unfolding thread_step
thread_step-IsSound running k told is_null joined h = ground arith
thread_step-IsSound leaving k told is_null joined h = ground arith
thread_step-IsSound cleared k told is_null joined h = ground arith
thread_step-IsSound ended k told is_null joined h = h

closer_step-IsSound :
    (t : ThreadAt) (k : CloserAt) (told is_null joined : Bool)
    → let r : Race = record {
      thread = t;
      closer = k;
      told = told;
      is_null = is_null;
      joined = joined;
    } in
      IsSound r → (closer_step r ≡ none) ⊎ ((u : Race) × (closer_step r ≡ some u) × IsSound u)
unfolding closer_step
closer_step-IsSound t closing told is_null joined h = inr (_, refl, ground arith)
closer_step-IsSound ended waking told is_null joined h = inl refl
closer_step-IsSound running waking told is_null joined h = inr (_, refl, ground arith)
closer_step-IsSound leaving waking told is_null joined h = inr (_, refl, ground arith)
closer_step-IsSound cleared waking told is_null joined h = inr (_, refl, ground arith)
closer_step-IsSound t testing told true joined h = inr (_, refl, ground arith)
closer_step-IsSound t testing told false joined h = inr (_, refl, ground arith)
closer_step-IsSound ended joining told is_null joined h = inr (_, refl, ground arith)
closer_step-IsSound running joining told is_null joined h = inr (_, refl, h)
closer_step-IsSound leaving joining told is_null joined h = inr (_, refl, h)
closer_step-IsSound cleared joining told is_null joined h = inr (_, refl, h)
closer_step-IsSound t clearing told is_null joined h = inr (_, refl, ground arith)
closer_step-IsSound t done told is_null joined h = inr (_, refl, h)

race-IsSound :
    (bs : List Bool) (r : Race)
    → IsSound r
    → (race bs r ≡ none) ⊎ ((u : Race) × (race bs r ≡ some u) × IsSound u)
unfolding race
race-IsSound [] r h = inr (r, refl, h)
race-IsSound (true ∷ bs) r h =
    race-IsSound bs (thread_step r)
      (thread_step-IsSound r.thread r.closer r.told r.is_null r.joined h)
race-IsSound (false ∷ bs) r h =
    elim (closer_step-IsSound r.thread r.closer r.told r.is_null r.joined h) [
      | inl e ↦ inl (rw e refl)
      | inr (u, e, s) ↦ rw e (race-IsSound bs u s)
    ]

-- Steps after which both threads are at their ends.
abbrev pub to_the_end : List Bool
to_the_end = false ∷ false ∷ true ∷ true ∷ true ∷ false ∷ false ∷ false ∷ []

race-append : (bs cs : List Bool) (r u : Race) → race bs r ≡ some u → race (bs ++ cs) r ≡ race cs u
unfolding race
race-append [] cs r u e = let same : r ≡ u = cc in ap (race cs) same
race-append (true ∷ bs) cs r u e = race-append bs cs (thread_step r) u e
race-append (false ∷ bs) cs r u e = elim (Option-cases (closer_step r)) [
  | inl n ↦ absurd (ground (arith, n, e))
  | inr (v, d) ↦ rw d (race-append bs cs v u (rw d at e))
]

race_append_none : (bs cs : List Bool) (r : Race) → race bs r ≡ none → race (bs ++ cs) r ≡ none
unfolding race
race_append_none [] cs r e = absurd (ground (arith, e))
race_append_none (true ∷ bs) cs r e = race_append_none bs cs (thread_step r) e
race_append_none (false ∷ bs) cs r e = elim (Option-cases (closer_step r)) [
  | inl n ↦ rw n refl
  | inr (v, d) ↦ rw d (race_append_none bs cs v (rw d at e))
]

-- What a `close` has come to at its end.
abbrev pub IsOver : ℕ → Race → Type 0
IsOver l r =
    (r.closer ≡ done)
    × (r.thread ≡ ended)
    × (close_thread (not r.joined) (start_thread l) ≡ some (thread_of l r))

abbrev Ends : ℕ → Option Race → Type 0
Ends l none = Unit
Ends l (some r) = IsOver l r

-- The state that the positions of the two threads determine, but for the join.
abbrev race_at : ThreadAt → CloserAt → Bool → Race
race_at t k joined = record {
  thread = t;
  closer = k;
  told = not (is_first k);
  is_null = has_cleared t || is_done k;
  joined = joined;
}

race_at-Ends :
    (l : ℕ) (t : ThreadAt) (k : CloserAt) (joined : Bool)
    → IsSound (race_at t k joined)
    → Ends l (race to_the_end (race_at t k joined))
unfolding race close_thread start_thread
race_at-Ends l running closing false h = ground arith
race_at-Ends l _ _ _ h = ground arith

race_at-IsSound : (r : Race) → IsSound r → race_at r.thread r.closer r.joined ≡ r
race_at-IsSound r h = λ i. record {
  thread = r.thread;
  closer = r.closer;
  told = sym h.told_is i;
  is_null = sym h.null_is i;
  joined = r.joined;
}

Ends-cases :
    (l : ℕ) (m : Option Race) → Ends l m → (m ≡ none) ⊎ ((u : Race) × (m ≡ some u) × IsOver l u)
Ends-cases l none h = inl refl
Ends-cases l (some r) h = inr (r, refl, h)

at_start-IsSound : IsSound at_start
at_start-IsSound = ground arith

-- However the steps of the two threads follow one another: the closing thread calls a loop that has
-- been destroyed, or both threads can still come to their ends, and nothing is waited for in vain; the
-- `EventLoopThread` is then as `close_thread` leaves it, with a thread that is joined or not. Each of
-- the three happens in some order of the steps.
pub close-outcomes :
    (l : ℕ) (bs : List Bool)
    → ((race (bs ++ to_the_end) at_start ≡ none)
        ⊎ ((u : Race) × (race (bs ++ to_the_end) at_start ≡ some u) × IsOver l u))
      × ((cs : List Bool) × (race cs at_start ≡ none))
      × ((cs : List Bool) × (u : Race) × (race cs at_start ≡ some u)
          × IsOver l u
          × (u.joined ≡ true))
      × ((cs : List Bool) × (u : Race) × (race cs at_start ≡ some u)
          × IsOver l u
          × (u.joined ≡ false))
unfolding race close_thread start_thread
close-outcomes l bs = (
  elim (race-IsSound bs at_start at_start-IsSound) [
    | inl e ↦ inl (race_append_none bs to_the_end at_start e)
    | inr (u, e, h) ↦
        let ends : Ends l (race to_the_end u) =
          subst (λ r. Ends l (race to_the_end r)) (race_at-IsSound u h)
            (race_at-Ends l u.thread u.closer u.joined
              (subst IsSound (sym (race_at-IsSound u h)) h)) in
        rw (race-append bs to_the_end at_start u e) (Ends-cases l (race to_the_end u) ends)
  ],
  (false ∷ true ∷ true ∷ true ∷ false ∷ [], refl),
  (
    false ∷ false ∷ false ∷ true ∷ true ∷ true ∷ false ∷ false ∷ [],
    _,
    refl,
    (refl, refl, refl),
    refl,
  ),
  (false ∷ false ∷ true ∷ true ∷ true ∷ false ∷ false ∷ [], _, refl, (refl, refl, refl), refl),
)
