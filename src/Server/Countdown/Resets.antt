-- ===== src/Server/Countdown/Resets.antt =====
-- A reset of the timeout of a connection of the server of src/net/Server.h, and the countdowns.
use netyo.Prelude.{
  [], append-nil, ◌+◌, ◌⊎◌, ℕ, ◌≤◌, ◌<◌, ◌≡◌, ◌∙◌, sym, ap, arith, dec_lt, ℕ_discrete, Option-cases,
  some, none, Option, true, false, refl, inl, inr, subst, ◌≢◌,
}
use netyo.Wheel.{bucket_size}
use netyo.Wheel.Lease.{remaining}
use netyo.Wheel.Leasing.{first}
use netyo.Server.Timeouts.{Timeouts, is_some, reset_timeout_in_loop}
use netyo.Server.Tally.{count, count_for, count_for-agrees}
use netyo.Server.Renewal.{IsWatched, IsRenewed, lease, reset_timeout-IsRenewed}
use netyo.Server.Countdown.{reset, Countdown, count_down, left_to, Follows, Adds}

lease-left_to : (w : Option ℕ) (s : Timeouts) → left_to (some w) (first s.timing_wheel) ≡ lease w s
lease-left_to none s = refl
lease-left_to (some e) s = refl

-- The entries of two connections differ.
renewed-apart :
    (c d e k : ℕ) (w : Option ℕ) (s s' : Timeouts)
    → IsWatched s
    → IsRenewed c d w s s' e
    → k ≢ c
    → s.connections k ≢ some (some e)
renewed-apart c d e k w s s' h r ne q =
    let (mine, old) = h.linked k e q in ne (sym mine ∙ sym (r.owners e old) ∙ r.made_for)

left_to-other :
    (c d e k : ℕ) (w : Option ℕ) (x : Option (Option ℕ)) (s s' : Timeouts)
    → IsWatched s
    → IsRenewed c d w s s' e
    → k ≢ c
    → s.connections k ≡ x
    → left_to x (first s'.timing_wheel) ≡ left_to x (first s.timing_wheel)
left_to-other c d e k w none s s' h r ne q = refl
left_to-other c d e k w (some none) s s' h r ne q = refl
left_to-other c d e k w (some (some i)) s s' h r ne q =
    r.others i λ z. renewed-apart c d e k w s s' h r ne (q ∙ ap (λ j. some (some j)) z)

-- Every entry but the one of the connection is an old one.
renewed-old : {n m : ℕ} (i e : ℕ) → (m ≡ n) ⊎ ((m ≡ n + 1) × (e ≡ n)) → i < m → i ≢ e → i < n
renewed-old i e (inl p) u z = omega (arith, u, p)
renewed-old i e (inr (p, l)) u z = omega (arith, u, p, l, z)

renewed-only :
    (c d e i : ℕ) (w : Option ℕ) (s s' : Timeouts) (a : Countdown)
    → Follows s a
    → s.connections c ≡ some w
    → IsRenewed c d w s s' e
    → i < s'.num_entries
    → is_some (s'.connections (s'.entry_conn i)) ≡ true
    → 0 < remaining i (first s'.timing_wheel)
    → s'.connections (s'.entry_conn i) ≡ some (some i)
renewed-only c d e i w s s' a h con r u q p = elim (ℕ_discrete i e) [
  | yes z ↦
      ap s'.connections (ap s'.entry_conn z ∙ r.made_for)
      ∙ r.known
      ∙ ap (λ j. some (some j)) (sym z)
  | no z ↦
      let old : i < s.num_entries = renewed-old i e r.made u z in
      let owner = r.owners i old in
      let ticks : 0 < remaining i (first s.timing_wheel) = omega (arith, p, r.others i z) in
      elim (ℕ_discrete (s.entry_conn i) c) [
        | yes y ↦
            let there : is_some (s.connections (s.entry_conn i)) ≡ true =
              ap (λ k. is_some (s.connections k)) y ∙ ap is_some con in
            let linked : s.connections c ≡ some (some i) =
              ap s.connections (sym y) ∙ h.only i old there ticks in
            let same : w ≡ some i = ground (arith, sym con ∙ linked) in
            elim r.same [
              | inl m ↦ absurd (z (ground (arith, sym same ∙ m)))
              | inr m ↦ absurd (omega (arith, ticks, sym (ap (λ v. lease v s) same) ∙ m))
            ]
        | no y ↦
            let kept : s'.connections (s'.entry_conn i) ≡ s.connections (s.entry_conn i) =
              ap s'.connections owner ∙ r.table (s.entry_conn i) ∙ ground (arith, y) in
            kept ∙ h.only i old (sym (ap is_some kept) ∙ q) ticks
      ]
]

-- The entries that have ended are those of the same connections.
renewed-before :
    (c d e : ℕ) (w : Option ℕ) (s s' : Timeouts) (a : Countdown)
    → Follows s a
    → IsRenewed c d w s s' e
    → (k : ℕ) → count_for s'.entry_conn k s.force_closed ≡ a.closed k
renewed-before c d e w s s' a h r k =
    count_for-agrees s.entry_conn s'.entry_conn k s.force_closed (λ i.
      elim (dec_lt i s.num_entries) [
        | yes u ↦ inr (r.owners i u)
        | no u ↦ inl (h.unmade i (omega (arith, u)))
      ])
    ∙ h.closed k

renewed-Follows :
    (c d e : ℕ) (w : Option ℕ) (s s' : Timeouts) (a : Countdown)
    → Follows s a
    → s.connections c ≡ some w
    → IsRenewed c d w s s' e
    → Follows s' (count_down (reset c d) a)
unfolding count_down
renewed-Follows c d e w s s' a h con r =
    let here : a.known c ≡ true = sym (h.known c) ∙ ap is_some con in
    let had : lease w s ≡ a.left c =
      sym (lease-left_to w s) ∙ ap (λ x. left_to x (first s.timing_wheel)) (sym con) ∙ h.left c in
    record {
      watched = record {
        running = r.running;
        wide = r.kept ∙ h.watched.wide;
        linked = λ k i q. elim (ℕ_discrete k c) [
          | yes z ↦
              let same : i ≡ e = ground (arith, sym q ∙ r.table k, z) in
              (ap s'.entry_conn same ∙ r.made_for ∙ sym z, omega (arith, same, r.below))
          | no z ↦
              let (mine, old) = h.watched.linked k i (ground (arith, r.table k, q, z)) in
              (r.owners i old ∙ mine, omega (arith, old, r.made))
        ];
      };
      known = λ k. elim (ℕ_discrete k c) [
        | yes z ↦ ap is_some (r.table k) ∙ ground (arith, z) ∙ sym here ∙ ap a.known (sym z)
        | no z ↦ ap is_some (r.table k) ∙ ground (arith, z) ∙ h.known k
      ];
      left = λ k. elim (ℕ_discrete k c) [
        | yes z ↦
            ap (λ x. left_to x (first s'.timing_wheel)) (ap s'.connections z ∙ r.known)
            ∙ r.left
            ∙ ground (arith, had, here, z)
        | no z ↦
            ap (λ x. left_to x (first s'.timing_wheel)) (r.table k ∙ ground (arith, z))
            ∙ left_to-other c d e k w (s.connections k) s s' h.watched r z refl
            ∙ h.left k
            ∙ ground (arith, z)
      ];
      closed = λ k. ap (count_for s'.entry_conn k) r.still ∙ renewed-before c d e w s s' a h r k;
      only = λ i u q p. renewed-only c d e i w s s' a h con r u q p;
      unmade = λ i u. ap (count i) r.still ∙ h.unmade i (omega (arith, u, r.made));
      made = r.same_connections ∙ h.made;
      numbered = λ k u.
          let old = h.numbered k (omega (arith, u, r.same_connections)) in
          elim (ℕ_discrete k c) [
            | yes z ↦ absurd (ground (arith, con, sym (ap s.connections z) ∙ old))
            | no z ↦ r.table k ∙ ground (arith, z, old)
          ];
      owned = λ i u. elim (ℕ_discrete i e) [
        | yes z ↦ elim (dec_lt c s.num_connections) [
          | yes l ↦ omega (arith, ap s'.entry_conn z, r.made_for, l, r.same_connections)
          | no l ↦
              let none_there = h.numbered c (omega (arith, l)) in
              absurd (ground (arith, sym con ∙ none_there))
        ]
        | no z ↦
            let old : i < s.num_entries = renewed-old i e r.made u z in
            omega (arith, r.owners i old, h.owned i old, r.same_connections)
      ];
    }

count_down_unknown : (c d : ℕ) (a : Countdown) → a.known c ≡ false → count_down (reset c d) a ≡ a
unfolding count_down
count_down_unknown c d a z = rw z refl

pub reset-Follows :
    (c d : ℕ) (s : Timeouts) (a : Countdown)
    → Follows s a
    → 1 ≤ d
    → d < bucket_size
    → (s' : Timeouts) × (reset_timeout_in_loop c d s ≡ some s')
      × Follows s' (count_down (reset c d) a)
      × Adds s s' a
unfolding reset_timeout_in_loop
reset-Follows c d s a h one max = elim (Option-cases (s.connections c)) [
  | inl z ↦
      let none_known : a.known c ≡ false = sym (h.known c) ∙ ap is_some z in
      (
        s,
        rw (reset_timeout_in_loop, z) refl,
        subst (Follows s) (sym (count_down_unknown c d a none_known)) h,
        record { new = []; grown = sym (append-nil s.force_closed); before = h.closed },
      )
  | inr (w, q) ↦
      let (e, s', i, r) = reset_timeout-IsRenewed c d w s h.watched q one max in
      (
        s',
        i,
        renewed-Follows c d e w s s' a h q r,
        record {
          new = [];
          grown = r.still ∙ sym (append-nil s.force_closed);
          before = renewed-before c d e w s s' a h r;
        },
      )
]
