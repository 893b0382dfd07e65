-- ===== src/Server/Idle.antt =====
-- When the server of src/net/Server.h closes an idle connection.
use netyo.Prelude.{
  ℕ, zero, suc, ◌+◌, ◌≤◌, ◌<◌, ◌≡◌, ◌∙◌, ap, arith, if◌then◌else◌, leb, ltb, ◌⊎◌, some, ◌>>=◌,
  Option, true, refl, ◌&&◌, Bool,
}
use netyo.Prelude.{not}
use netyo.Wheel.{bucket_size}
use netyo.Wheel.Lease.{alive, remaining}
use netyo.Wheel.Leasing.{IsRunning, first, alive-remaining, tick-IsRunning}
use netyo.Server.Timeouts.{Timeouts, is_some, ended, lapse, tick_connections, reset_timeout_in_loop}
use netyo.Server.Renewal.{IsWatched, lease, reset_timeout-IsRenewed}
use netyo.Server.Tally.{count, count-append, count-ended}

-- `k` ticks.
unfoldable pub tick_times : ℕ → Timeouts → Option Timeouts
tick_times zero s = some s
tick_times (suc k) s = tick_connections s >>= tick_times k

tick_times-count :
    (k e : ℕ) (s : Timeouts)
    → IsRunning s.num_entries s.timing_wheel
    → e < s.num_entries
    → is_some (s.connections (s.entry_conn e)) ≡ true
    → let m = remaining e (first s.timing_wheel) in
      (s' : Timeouts) × (tick_times k s ≡ some s')
      × (s'.connections ≡ s.connections)
      × (count e s'.force_closed ≡ count e s.force_closed + (if ltb 0 m && leb m k then 1 else 0))
unfolding tick_times tick_connections lapse
tick_times-count zero e s h lt con = (s, refl, refl, ground arith)
tick_times-count (suc k) e s h lt con =
    let (w, d, r, left, _) = tick-IsRunning s.num_entries s.timing_wheel h in
    let (s', t, c, n) = tick_times-count k e (lapse w s) r lt con in
    let old = alive-remaining e s.num_entries s.timing_wheel h in
    let now = alive-remaining e s.num_entries w r in
    let p : ℕ → Bool = λ e.
      alive e s.timing_wheel.wheels
      && not (alive e w.wheels)
      && is_some (s.connections (s.entry_conn e)) in
    let ends : p e ≡ (
        ltb 0 (remaining e (first s.timing_wheel)) && not (ltb 0 (remaining e (first w))) && true) =
      rw (old, now, con) refl in
    (
      s',
      rw d t,
      c,
      ground (
        arith,
        n,
        count-append e s.force_closed (ended s.num_entries p),
        count-ended e s.num_entries p,
        ends,
        left e,
        lt,
      ),
    )

-- In a server whose timing wheel has gone round once and holds nothing beyond its first wheel, a
-- connection whose timeout `d`, from 1 to 99, is reset has an entry from then on, the one that it had
-- if ticks were left to that. After `k` ticks with no other reset the end of this entry has closed the
-- connection once if `k` is at least `d` and at least the ticks that were left, and has not closed it
-- otherwise. Nothing faults.
pub reset_timeout-force_closed :
    (c d k : ℕ) (w : Option ℕ) (s : Timeouts)
    → IsWatched s
    → s.connections c ≡ some w
    → 1 ≤ d
    → d < bucket_size
    → (e : ℕ) × (s' : Timeouts) × ((reset_timeout_in_loop c d s >>= tick_times k) ≡ some s')
      × (s'.connections c ≡ some (some e))
      × ((w ≡ some e) ⊎ (lease w s ≡ 0))
      × (count e s'.force_closed
          ≡ count e s.force_closed + (if leb d k && leb (lease w s) k then 1 else 0))
reset_timeout-force_closed c d k w s h con one max =
    let (e, u, i, r) = reset_timeout-IsRenewed c d w s h con one max in
    let there : is_some (u.connections (u.entry_conn e)) ≡ true =
      ap (λ j. is_some (u.connections j)) r.made_for ∙ ap is_some r.known in
    let (s', t, same, n) = tick_times-count k e u r.running r.below there in
    (
      e,
      s',
      rw i t,
      ap (λ f. f c) same ∙ r.known,
      r.same,
      n ∙ ground (arith, r.left, ap (count e) r.still, one),
    )
