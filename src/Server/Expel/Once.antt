-- ===== src/Server/Expel/Once.antt =====
-- Which connections of the server of src/net/Server.h are closed for their timeouts.
use netyo.Prelude.{
  ℕ, Bool, ◌||◌, ◌==◌, map, ◌+◌, ◌≡◌, ◌∙◌, sym, ap, List, [], ◌∷◌, ◌++◌, ◌⊎◌, inl, inr, arith,
  length, drop, if◌then◌else◌, ltb, ℕ_discrete, some, true, Bool-cases, refl, subst, ◌≢◌,
}
use netyo.Epoll.{Epoll}
use netyo.Posix.{Socket}
use netyo.Transport.{Conn, Protocol, run_cb, closed, force_close}
use netyo.Transport.Close.{given_up, force_close-open, force_close-closed}
use netyo.Transport.Counting.{IsCounted}
use netyo.Server.Tally.{count_for, count_for-append}
use netyo.Server.Countdown.{Event, Countdown, count_down, IsShort, Follows}
use netyo.Server.Countdown.Runs.{serve-Follows}
use netyo.Wheel.{new_wheel}
use netyo.Server.Countdown.Start.{
  new_timeouts, ready_timeouts, no_countdown, first_ticks, serve_all-first_ticks,
}
use netyo.Server.Expel.{
  Turn, event, gives_up, Serving, replaced, end_entries, serve_event, serve_turn, serve_turns,
}

drop-append_length : (xs ys : List ℕ) → drop (length xs) (xs ++ ys) ≡ ys
drop-append_length [] ys = refl
drop-append_length (x ∷ xs) ys = drop-append_length xs ys

-- The turns of the server: their timeouts are short; the countdowns after them, and the connections
-- that have been given up for other reasons.
abbrev pub IsShortTurn : Turn → Type 0
IsShortTurn (event x) = IsShort x
IsShortTurn (gives_up k) = Unit

abbrev pub AllShortTurns : List Turn → Type 0
AllShortTurns [] = Unit
AllShortTurns (x ∷ xs) = IsShortTurn x × AllShortTurns xs

abbrev pub count_turn : Turn → Countdown → Countdown
count_turn (event x) a = count_down x a
count_turn (gives_up k) a = a

abbrev pub count_turns : List Turn → Countdown → Countdown
count_turns [] a = a
count_turns (x ∷ xs) a = count_turns xs (count_turn x a)

abbrev pub gone_after : Turn → (ℕ → Bool) → ℕ → Bool
gone_after (event x) gone k = gone k
gone_after (gives_up n) gone k = (k == n) || gone k

abbrev pub gone_after_all : List Turn → (ℕ → Bool) → ℕ → Bool
gone_after_all [] gone = gone
gone_after_all (x ∷ xs) gone = gone_after_all xs (gone_after x gone)

module _ (e : Epoll) (c : Socket) where
  -- `connection_lost_cb` does not fault, and neither opens the connection again nor gives it up.
  abbrev pub IsFinal : Protocol e c → Type 0
  IsFinal p =
      (t : Conn e c)
      → closed e c t ≡ true
      → (u : Conn e c) × (run_cb e c p.connection_lost_cb t ≡ some u)
        × (closed e c u ≡ true)
        × (u.lost ≡ t.lost)

  -- A connection is closed if `n` of its entries have ended, not 0.
  pub record Closes (n : ℕ) (t u : Conn e c) : Type 0 where
    pub shut : closed e c u ≡ (if ltb 0 n then true else closed e c t)
    pub counted : IsCounted e c u
    pub untouched : (closed e c u ≡ true) ⊎ (u ≡ t)

  Closes-none : (t : Conn e c) → IsCounted e c t → Closes 0 t t
  Closes-none t h = record { shut = refl; counted = h; untouched = inr refl }

  replaced-cases :
      (n k : ℕ) (t : Conn e c) (conns : ℕ → Conn e c)
      → ((k ≡ n) × (replaced e c n t conns k ≡ t))
        ⊎ ((k ≢ n) × (replaced e c n t conns k ≡ conns k))
  replaced-cases n k t conns = elim (ℕ_discrete k n) [
    | yes z ↦ inl (z, ground (arith, z))
    | no z ↦ inr (z, ground (arith, z))
  ]

  replaced-IsCounted :
      (n : ℕ) (t : Conn e c) (conns : ℕ → Conn e c)
      → IsCounted e c t
      → ((k : ℕ) → IsCounted e c (conns k))
      → (k : ℕ) → IsCounted e c (replaced e c n t conns k)
  replaced-IsCounted n t conns h all k = elim (replaced-cases n k t conns) [
    | inl (z, q) ↦ subst (IsCounted e c) (sym q) h
    | inr (z, q) ↦ subst (IsCounted e c) (sym q) (all k)
  ]

  -- One more entry ends, of the connection that has become `t`.
  Closes-cons :
      (conn_of : ℕ → ℕ) (x k : ℕ) (xs : List ℕ) (t u : Conn e c) (conns : ℕ → Conn e c)
      → closed e c t ≡ true
      → Closes (count_for conn_of k xs) (replaced e c (conn_of x) t conns k) u
      → Closes (count_for conn_of k (x ∷ xs)) (conns k) u
  unfolding count_for
  Closes-cons conn_of x k xs t u conns shut h = elim (replaced-cases (conn_of x) k t conns) [
    | inl (z, q) ↦
        let all : closed e c u ≡ true = h.shut ∙ ground (arith, ap (closed e c) q, shut) in
        record { shut = all ∙ ground (arith, z); counted = h.counted; untouched = inl all }
    | inr (z, q) ↦ record {
      shut = h.shut ∙ ground (arith, ap (closed e c) q, z);
      counted = h.counted;
      untouched = elim h.untouched [ inl a ↦ inl a | inr b ↦ inr (b ∙ q) ];
    }
  ]

  module _ (p : Protocol e c) (final : IsFinal p) where
    force_close-Closes :
        (t : Conn e c)
        → IsCounted e c t
        → (u : Conn e c) × (force_close e c p t ≡ some u) × (closed e c u ≡ true) × IsCounted e c u
    force_close-Closes t h = elim (Bool-cases (closed e c t)) [
      | inl q ↦ (t, force_close-closed e c p t q, q, h)
      | inr q ↦
          let (u, d, shut, same) = final (given_up e c t) refl in
          let none_lost : t.lost ≡ 0 = rw q at h in
          let once : u.lost ≡ 1 = same ∙ omega (arith, none_lost) in
          (u, force_close-open e c p t q ∙ d, shut, rw shut once)
    ]

    pub end_entries-Closes :
        (conn_of : ℕ → ℕ) (xs : List ℕ) (conns : ℕ → Conn e c)
        → ((k : ℕ) → IsCounted e c (conns k))
        → (after : ℕ → Conn e c) × (end_entries e c p conn_of xs conns ≡ some after)
          × ((k : ℕ) → Closes (count_for conn_of k xs) (conns k) (after k))
    unfolding end_entries count_for
    end_entries-Closes conn_of [] conns h = (conns, refl, λ k. Closes-none (conns k) (h k))
    end_entries-Closes conn_of (x ∷ xs) conns h =
        let n : ℕ = conn_of x in
        let (t, d, shut, counted) = force_close-Closes (conns n) (h n) in
        let (after, f, g) =
          end_entries-Closes conn_of xs (replaced e c n t conns)
            (replaced-IsCounted n t conns counted h) in
        (after, rw d f, λ k. Closes-cons conn_of x k xs t (after k) conns shut (g k))

  -- The server keeps to the countdowns, and the connections that are closed are those of which one has
  -- run out, and others that are gone.
  pub record Keeps (gone : ℕ → Bool) (v : Serving e c) (a : Countdown) : Type 0 where
    pub follows : Follows v.timeouts a
    pub shut : (k : ℕ) → closed e c (v.conns k) ≡ (gone k || ltb 0 (a.closed k))
    pub counted : (k : ℕ) → IsCounted e c (v.conns k)

  module _ (p : Protocol e c) (final : IsFinal p) where
    serve_event-Keeps :
        (gone : ℕ → Bool) (x : Event) (v : Serving e c) (a : Countdown)
        → Keeps gone v a
        → IsShort x
        → (v' : Serving e c) × (serve_event e c p x v ≡ some v')
          × Keeps gone v' (count_down x a)
          × ((k : ℕ) → (closed e c (v'.conns k) ≡ true) ⊎ (v'.conns k ≡ v.conns k))
    unfolding serve_event
    serve_event-Keeps gone x v a h short =
        let (s, d, f, more) = serve-Follows x v.timeouts a h.follows short in
        let new = more.new in
        let (after, q, g) = end_entries-Closes p final s.entry_conn new v.conns h.counted in
        let found : drop (length v.timeouts.force_closed) s.force_closed ≡ new =
          ap (drop (length v.timeouts.force_closed)) more.grown
          ∙ drop-append_length v.timeouts.force_closed new in
        (
          record { timeouts = s; conns = after },
          rw (d, found, q) refl,
          record {
            follows = f;
            shut = λ k.
                let sum : (count_down x a).closed k ≡ a.closed k + count_for s.entry_conn k new =
                  sym (f.closed k)
                  ∙ ap (count_for s.entry_conn k) more.grown
                  ∙ count_for-append s.entry_conn k v.timeouts.force_closed new
                  ∙ ap (λ n. n + count_for s.entry_conn k new) (more.before k) in
                (g k).shut ∙ ground (arith, h.shut k, sum);
            counted = λ k. (g k).counted;
          },
          λ k. (g k).untouched,
        )

    serve_turn-Keeps :
        (gone : ℕ → Bool) (x : Turn) (v : Serving e c) (a : Countdown)
        → Keeps gone v a
        → IsShortTurn x
        → (v' : Serving e c) × (serve_turn e c p x v ≡ some v')
          × Keeps (gone_after x gone) v' (count_turn x a)
          × ((k : ℕ) → (closed e c (v'.conns k) ≡ true) ⊎ (v'.conns k ≡ v.conns k))
    unfolding serve_turn
    serve_turn-Keeps gone (event x) v a h short = serve_event-Keeps gone x v a h short
    serve_turn-Keeps gone (gives_up n) v a h short =
        let (t, d, shut, counted) = force_close-Closes p final (v.conns n) (h.counted n) in
        (
          record v { conns = replaced e c n t v.conns },
          rw d refl,
          record {
            follows = h.follows;
            shut = λ k. elim (replaced-cases n k t v.conns) [
              | inl (z, q) ↦ ap (closed e c) q ∙ shut ∙ ground (arith, z)
              | inr (z, q) ↦ ap (closed e c) q ∙ h.shut k ∙ ground (arith, z)
            ];
            counted = replaced-IsCounted n t v.conns counted h.counted;
          },
          λ k. elim (replaced-cases n k t v.conns) [
            | inl (z, q) ↦ inl (ap (closed e c) q ∙ shut)
            | inr (z, q) ↦ inr q
          ],
        )

    serve_turns-Keeps :
        (gone : ℕ → Bool) (xs : List Turn) (v : Serving e c) (a : Countdown)
        → Keeps gone v a
        → AllShortTurns xs
        → (v' : Serving e c) × (serve_turns e c p xs v ≡ some v')
          × Keeps (gone_after_all xs gone) v' (count_turns xs a)
          × ((k : ℕ) → (closed e c (v'.conns k) ≡ true) ⊎ (v'.conns k ≡ v.conns k))
    unfolding serve_turns
    serve_turns-Keeps gone [] v a h short = (v, refl, h, λ k. inr refl)
    serve_turns-Keeps gone (x ∷ xs) v a h short =
        let (u, d, f, g) = serve_turn-Keeps gone x v a h short.0 in
        let (v', q, k, r) = serve_turns-Keeps (gone_after x gone) xs u (count_turn x a) f short.1 in
        (
          v',
          rw d q,
          k,
          λ i. elim (r i) [
            | inl shut ↦ inl shut
            | inr same ↦ elim (g i) [
              | inl old ↦ inl (ap (closed e c) same ∙ old)
              | inr kept ↦ inr (same ∙ kept)
            ]
          ],
        )

    turns-ready :
        (xs : List Turn) (conns : ℕ → Conn e c)
        → serve_turns e c p
            (map event first_ticks ++ xs)
            (record { timeouts = new_timeouts; conns = conns })
          ≡ serve_turns e c p xs (record { timeouts = ready_timeouts; conns = conns })
    unfolding serve_turns serve_turn serve_event netyo.Server.Countdown.serve new_wheel
        netyo.Server.Timeouts.tick_connections netyo.Wheel.tick netyo.FixedRing.push_back
        netyo.FixedRing.evict_front end_entries
    turns-ready xs conns = refl

    -- In a new server that nothing happens to in its first 99 ticks, and from then on in any order of
    -- new connections, ticks, resets of timeouts from 1 to 99 ticks, removals, and ends of connections
    -- for other reasons, where `connection_lost_cb` neither faults nor opens its connection again nor
    -- gives it up: nothing faults, and at the end the connections that are closed are those whose
    -- countdown has run out or that were given up otherwise, or were closed at the start. Each has been
    -- given up once, and the others are as they were.
    pub serve_turns-started :
        (xs : List Turn) (conns : ℕ → Conn e c)
        → ((k : ℕ) → IsCounted e c (conns k))
        → AllShortTurns xs
        → (v : Serving e c) × (serve_turns e c p
              (map event first_ticks ++ xs)
              (record { timeouts = new_timeouts; conns = conns })
            ≡ some v)
          × Keeps (gone_after_all xs (λ k. closed e c (conns k))) v (count_turns xs no_countdown)
          × ((k : ℕ) → (closed e c (v.conns k) ≡ true) ⊎ (v.conns k ≡ conns k))
    serve_turns-started xs conns counted short =
        let h : Keeps (λ k. closed e c (conns k))
            (record { timeouts = ready_timeouts; conns = conns }) no_countdown =
          record {
            follows = (serve_all-first_ticks []).1;
            shut = λ k. ground arith;
            counted = counted;
          } in
        let (v, d, k, r) =
          serve_turns-Keeps (λ k. closed e c (conns k)) xs
            (record { timeouts = ready_timeouts; conns = conns }) no_countdown h short in
        (v, turns-ready xs conns ∙ d, k, r)
