-- ===== src/Server/Teardown/Outcome.antt =====
-- What the destruction of the server of src/net/Server.h does to its connections.
use netyo.Prelude.{
  ℕ, ◌≡◌, ◌∙◌, sym, ap, List, [], ◌∷◌, ◌⊎◌, inl, inr, arith, if◌then◌else◌, ltb, ◌<◌, ℕ_discrete,
  some, none, true, false, Bool-cases, refl, subst, Option, fun_ext, dec_lt, zero, suc, Bool,
}
use netyo.Epoll.{Epoll}
use netyo.Posix.{Socket}
use netyo.Wheel.Leasing.{alive-remaining}
use netyo.Transport.{Conn, Protocol, closed, run_cb}
use netyo.Transport.Counting.{IsCounted}
use netyo.Transport.Close.{given_up, force_close-open, force_close-closed}
use netyo.Server.Timeouts.{Timeouts, is_some}
use netyo.Server.Tally.{count, count-ended, count_for}
use netyo.Server.Countdown.{Countdown, Follows}
use netyo.Server.Countdown.Ticks.{count_for-tested}
use netyo.Server.Expel.{Serving, replaced}
use netyo.Server.Expel.Once.{IsFinal, Closes, end_entries-Closes}
use netyo.Server.Teardown.{
  entries_left, in_table, thrown, destroy_conn, destroy_conns, destroy_server,
}

-- A connection has an entry left if there are ticks left to it, and else none.
entries_left-left :
    (k : ℕ) (s : Timeouts) (a : Countdown)
    → Follows s a
    → count_for s.entry_conn k (entries_left s) ≡ (if ltb 0 (a.left k) then 1 else 0)
entries_left-left k s a h =
    count_for-tested (λ n. ltb 0 n) refl k (s.connections k) s a _ h
      (λ i u. rw (alive-remaining i s.num_entries s.timing_wheel h.watched.running) refl) refl
    ∙ ap (λ n. if ltb 0 n then 1 else 0) (h.left k)

in_table-known :
    (k : ℕ) (s : Timeouts) (a : Countdown)
    → Follows s a
    → count k (in_table s) ≡ (if a.known k then 1 else 0)
in_table-known k s a h =
    count-ended k s.num_connections (λ k. is_some (s.connections k))
    ∙ (elim (dec_lt k s.num_connections) [
      | yes u ↦ ground (arith, u, h.known k)
      | no u ↦
          let gone : s.connections k ≡ none = h.numbered k (omega (arith, u)) in
          ground (arith, u, ap is_some gone, h.known k)
    ])

stays_open :
    (n : ℕ) (b u : Bool) → u ≡ (if ltb 0 n then true else b) → u ≡ false → (n ≡ 0) × (b ≡ false)
stays_open zero b u h q = (refl, sym h ∙ q)
stays_open (suc n) b u h q = absurd (ground (arith, h, q))

is_shut : (n : ℕ) (b u : Bool) → u ≡ (if ltb 0 n then true else b) → u ≡ true → (0 < n) ⊎ (b ≡ true)
is_shut zero b u h q = inr (sym h ∙ q)
is_shut (suc n) b u h q = inl (omega arith)

module _ (e : Epoll) (c : Socket) where
  replaced_same : (k : ℕ) (conns : ℕ → Conn e c) → replaced e c k (conns k) conns ≡ conns
  replaced_same k conns = fun_ext λ i. elim (ℕ_discrete i k) [
    | yes z ↦ ground (arith, z, ap conns z)
    | no z ↦ ground (arith, z)
  ]

  module _ (p : Protocol e c) (raises : thrown e c p.connection_lost_cb ≡ some (λ t. none)) where
    destroy_conn-closed : (t : Conn e c) → closed e c t ≡ true → destroy_conn e c p t ≡ some t
    unfolding destroy_conn
    destroy_conn-closed t h = force_close-closed e c _ t h

    destroy_conn-open : (t : Conn e c) → closed e c t ≡ false → destroy_conn e c p t ≡ none
    unfolding destroy_conn
    destroy_conn-open t h =
        force_close-open e c _ t h ∙ ap (λ cb. run_cb e c cb (given_up e c t)) raises

    destroy_conns-cases :
        (ks : List ℕ) (conns : ℕ → Conn e c)
        → ((destroy_conns e c p ks conns ≡ some conns)
            × ((k : ℕ) → (count k ks ≡ 0) ⊎ (closed e c (conns k) ≡ true)))
          ⊎ ((k : ℕ) × (0 < count k ks)
              × (closed e c (conns k) ≡ false)
              × (destroy_conns e c p ks conns ≡ none))
    unfolding destroy_conns count
    destroy_conns-cases [] conns = inl (refl, λ k. inl refl)
    destroy_conns-cases (k ∷ ks) conns = elim (Bool-cases (closed e c (conns k))) [
      | inr q ↦ inr (k, ground arith, q, rw (destroy_conn-open (conns k) q) refl)
      | inl q ↦
          let same : destroy_conns e c p (k ∷ ks) conns ≡ destroy_conns e c p ks conns =
            rw (destroy_conn-closed (conns k) q)
              (ap (destroy_conns e c p ks) (replaced_same k conns)) in
          elim (destroy_conns-cases ks conns) [
            | inl (d, all) ↦ inl (
              same ∙ d,
              λ i. elim (ℕ_discrete k i) [
                | yes z ↦ inr (subst (λ n. closed e c (conns n) ≡ true) z q)
                | no z ↦ elim (all i) [ inl n ↦ inl (ground (arith, z, n)) | inr o ↦ inr o ]
              ],
            )
            | inr (i, n, o, d) ↦ inr (i, ground (arith, n), o, same ∙ d)
          ]
    ]

  -- A connection after its entries have ended.
  ended-shut :
      (k : ℕ) (v : Serving e c) (a : Countdown) (u : Conn e c)
      → Follows v.timeouts a
      → Closes e c (count_for v.timeouts.entry_conn k (entries_left v.timeouts)) (v.conns k) u
      → closed e c u ≡ (if ltb 0 (a.left k) then true else closed e c (v.conns k))
  ended-shut k v a u h g = g.shut ∙ ground (arith, entries_left-left k v.timeouts a h)

  -- The end of a server that follows the countdowns, as one does after 99 ticks in which nothing happens
  -- and any events with timeouts from 1 to 99 ticks; its connections have been given up once if they are
  -- closed, for whatever reason, and else never. `connection_lost_cb` is set, as the constructor leaves
  -- it, and neither faults nor opens its connection again nor gives it up. Either the connections in the
  -- table are all closed after it, those with ticks left by the end of their entry; or one of them is
  -- open and has no ticks left, as when its timeout was never set, and its destructor throws, which ends
  -- the program.
  pub destroy_server-outcome :
      (p : Protocol e c) (f : Conn e c → Option (Conn e c)) (v : Serving e c) (a : Countdown)
      → p.connection_lost_cb ≡ some f
      → IsFinal e c p
      → Follows v.timeouts a
      → ((k : ℕ) → IsCounted e c (v.conns k))
      → ((after : ℕ → Conn e c) × (destroy_server e c p v ≡ some after)
          × ((k : ℕ)
              → (a.known k ≡ false)
                ⊎ ((closed e c (after k) ≡ true)
                    × ((0 < a.left k) ⊎ (closed e c (v.conns k) ≡ true)))))
        ⊎ ((k : ℕ) × (a.known k ≡ true)
            × (a.left k ≡ 0)
            × (closed e c (v.conns k) ≡ false)
            × (destroy_server e c p v ≡ none))
  unfolding destroy_server
  destroy_server-outcome p f v a raises final h counted =
      let s = v.timeouts in
      let (after, d, g) =
        end_entries-Closes e c p final s.entry_conn (entries_left s) v.conns counted in
      let shut = λ (k : ℕ). ended-shut k v a (after k) h (g k) in
      let there = λ (k : ℕ). in_table-known k s a h in
      elim (destroy_conns-cases p (ap (thrown e c) raises) (in_table s) after) [
        | inr (k, n, o, r) ↦
            let (spent, was) = stays_open (a.left k) _ _ (shut k) o in
            inr (k, ground (arith, n, there k), spent, was, rw d r)
        | inl (r, all) ↦ inl (
          after,
          rw d r,
          λ k. elim (Bool-cases (a.known k)) [
            | inr unknown ↦ inl unknown
            | inl known ↦ elim (all k) [
              | inl z ↦ absurd (ground (arith, z, there k, known))
              | inr o ↦ inr (o, is_shut (a.left k) _ _ (shut k) o)
            ]
          ],
        )
      ]
