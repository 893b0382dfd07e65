-- ===== src/Server/Countdown/Ticks.antt =====
-- A tick of the wheel in the server of src/net/Server.h, and the countdowns.
use netyo.Prelude.{
  ℕ, ◌-◌, ◌<◌, ◌≡◌, ◌∙◌, sym, ap, arith, if◌then◌else◌, ◌==◌, some, none, Option, true, refl, ◌&&◌,
  Bool, false, ℕ_discrete,
}
use netyo.Prelude.{not}
use netyo.Ring.{Ring}
use netyo.Wheel.{Bucket}
use netyo.Wheel.Lease.{remaining, alive}
use netyo.Wheel.Leasing.{first, alive-remaining, tick-IsRunning}
use netyo.Server.Timeouts.{Timeouts, is_some, ended, lapse, tick_connections}
use netyo.Server.Tally.{count-append, count-ended, count_for, count_for-append, count_for-ended}
use netyo.Server.Countdown.{tick, Countdown, count_down, left_to, Follows, Adds}

left_to-ticked :
    (w : Option (Option ℕ)) (r g : Ring Bucket)
    → ((e : ℕ) → remaining e g ≡ remaining e r - 1)
    → left_to w g ≡ left_to w r - 1
left_to-ticked none r g h = refl
left_to-ticked (some none) r g h = refl
left_to-ticked (some (some e)) r g h = h e

-- The test by which entries end, by the ticks that were left to them.
abbrev pub Ends : (ℕ → Bool) → Timeouts → (ℕ → Bool) → Type 0
Ends q s p =
    (i : ℕ)
    → i < s.num_entries
    → p i ≡ (q (remaining i (first s.timing_wheel)) && is_some (s.connections (s.entry_conn i)))

module _ (q : ℕ → Bool) (never : q 0 ≡ false) where
  ended-linked :
      (c i : ℕ) (s : Timeouts) (a : Countdown) (p : ℕ → Bool)
      → Follows s a
      → Ends q s p
      → i < s.num_entries
      → p i ≡ true
      → s.entry_conn i ≡ c
      → s.connections c ≡ some (some i)
  ended-linked c i s a p h test u t z =
      let both = sym (test i u) ∙ t in
      let there : is_some (s.connections (s.entry_conn i)) ≡ true = ground (arith, both) in
      let some_left : 0 < remaining i (first s.timing_wheel) =
        elim (ℕ_discrete (remaining i (first s.timing_wheel)) 0) [
          | yes n ↦ absurd (ground (arith, both, ap q n, never))
          | no n ↦ omega (arith, n)
        ] in
      ap s.connections (sym z) ∙ h.only i u there some_left

  -- How many of the entries of a connection end: one if the test holds for its ticks, and else none.
  pub count_for-tested :
      (c : ℕ) (w : Option (Option ℕ)) (s : Timeouts) (a : Countdown) (p : ℕ → Bool)
      → Follows s a
      → Ends q s p
      → s.connections c ≡ w
      → count_for s.entry_conn c (ended s.num_entries p)
        ≡ (if q (left_to w (first s.timing_wheel)) then 1 else 0)
  count_for-tested c none s a p h test con =
      count_for-ended s.entry_conn c s.num_entries s.num_entries p
        (λ i u t z. absurd (ground (arith, sym con ∙ ended-linked c i s a p h test u t z)))
      ∙ ground (arith, never)
  count_for-tested c (some none) s a p h test con =
      count_for-ended s.entry_conn c s.num_entries s.num_entries p
        (λ i u t z. absurd (ground (arith, sym con ∙ ended-linked c i s a p h test u t z)))
      ∙ ground (arith, never)
  count_for-tested c (some (some e)) s a p h test con =
      let (mine, old) = h.watched.linked c e con in
      let there : is_some (s.connections (s.entry_conn e)) ≡ true =
        ap (λ k. is_some (s.connections k)) mine ∙ ap is_some con in
      count_for-ended s.entry_conn c e s.num_entries p
        (λ i u t z. ground (arith, sym con ∙ ended-linked c i s a p h test u t z))
      ∙ ground (arith, mine, old, there, test e old)

pub tick-Follows :
    (s : Timeouts) (a : Countdown)
    → Follows s a
    → (s' : Timeouts) × (tick_connections s ≡ some s')
      × Follows s' (count_down tick a)
      × Adds s s' a
unfolding tick_connections lapse count_down
tick-Follows s a h =
    let n : ℕ = s.num_entries in
    let (w, d, r, left, long) = tick-IsRunning n s.timing_wheel h.watched.running in
    let p : ℕ → Bool = λ e.
      alive e s.timing_wheel.wheels
      && not (alive e w.wheels)
      && is_some (s.connections (s.entry_conn e)) in
    let last : Ends (λ n. n == 1) s p = λ i u.
      let old = alive-remaining i n s.timing_wheel h.watched.running in
      let now = alive-remaining i n w r in rw (old, now, left i) (ground arith) in
    (
      lapse w s,
      rw d refl,
      record {
        watched = record { running = r; wide = long ∙ h.watched.wide; linked = h.watched.linked };
        known = h.known;
        left = λ c.
            left_to-ticked (s.connections c) (first s.timing_wheel) (first w) left
            ∙ ap (λ k. k - 1) (h.left c);
        closed = λ c.
            count_for-append s.entry_conn c s.force_closed (ended n p)
            ∙ ground (
              arith,
              h.closed c,
              h.left c,
              count_for-tested (λ n. n == 1) refl c (s.connections c) s a p h last refl,
            );
        only = λ e u q pos. h.only e u q (ground (arith, left e, pos));
        unmade = λ e u.
            count-append e s.force_closed (ended n p)
            ∙ ground (arith, h.unmade e u, count-ended e n p, u);
        made = h.made;
        numbered = h.numbered;
        owned = h.owned;
      },
      record { new = ended n p; grown = refl; before = h.closed },
    )
