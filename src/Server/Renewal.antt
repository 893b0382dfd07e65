-- ===== src/Server/Renewal.antt =====
-- What a reset of the timeout of a connection changes in the server of src/net/Server.h.
use netyo.Prelude.{
  ℕ, ◌+◌, ◌≤◌, ◌<◌, ◌≡◌, ◌∙◌, ap, [], ◌∷◌, arith, get_or, if◌then◌else◌, ltb, ◌==◌, ℕ_discrete, ◌⊎◌,
  some, none, Option, true, false, refl, Bool-cases, inl, inr,
}
use netyo.Prelude.{◌≢◌}
use netyo.Ring.{vsize, size, slot}
use netyo.Wheel.{plain, put_back, Bucket, TimingWheel, bucket_size}
use netyo.Wheel.Lease.{bucket_at, holds, alive, last_below-nothing, remaining}
use netyo.Wheel.Ticking.{Ours}
use netyo.Wheel.Leasing.{IsRunning, first, alive-remaining}
use netyo.Wheel.Inserting.{insert_in_loop-IsRunning}
use netyo.Server.Timeouts.{Timeouts, start_timeout, reset_timeout_in_loop}

Ours-weaken : (n : ℕ) (b : Bucket) → Ours n b → Ours (n + 1) b
Ours-weaken n [] h = tt
Ours-weaken n (plain m ∷ es) h = (omega (arith, h.0), Ours-weaken n es h.1)
Ours-weaken n (put_back i p e ∷ es) h = absurd h

holds-Ours : (n : ℕ) (b : Bucket) → Ours n b → holds n b ≡ false
holds-Ours n [] h = refl
holds-Ours n (plain m ∷ es) h = ground (arith, h.0, holds-Ours n es h.1)
holds-Ours n (put_back i p e ∷ es) h = absurd h

IsRunning-weaken : (n : ℕ) (w : TimingWheel) → IsRunning n w → IsRunning (n + 1) w
IsRunning-weaken n w h = record {
  counted = h.counted;
  ready = record {
    some_wheel = h.ready.some_wheel;
    first = record {
      valid = h.ready.first.valid;
      full_size = h.ready.first.full_size;
      free = h.ready.first.free;
      ours = λ i. Ours-weaken n (get_or (first w).vec i []) (h.ready.first.ours i);
    };
    others = h.ready.others;
  };
}

-- No tick is left to an entry that is not there.
remaining_new : (n : ℕ) (w : TimingWheel) → IsRunning n w → remaining n (first w) ≡ 0
unfolding remaining
remaining_new n w h =
    last_below-nothing (λ k. holds n (bucket_at (first w) k)) (vsize (first w))
      λ k u. holds-Ours n (bucket_at (first w) k) (h.ready.first.ours (slot (first w) k))

-- The server's wheel runs, with 100 buckets in its first wheel, and the entries of the connections are
-- those that were made for them.
pub record IsWatched (s : Timeouts) : Type 0 where
  pub running : IsRunning s.num_entries s.timing_wheel
  pub wide : vsize (first s.timing_wheel) ≡ bucket_size
  pub linked :
      (c e : ℕ) → s.connections c ≡ some (some e) → (s.entry_conn e ≡ c) × (e < s.num_entries)

-- The ticks that are left to the entry of a connection.
abbrev pub lease : Option ℕ → Timeouts → ℕ
lease none s = 0
lease (some e) s = remaining e (first s.timing_wheel)

-- What a reset leaves: the entry of the connection, with the ticks that are left to it.
pub record IsRenewed (c d : ℕ) (w : Option ℕ) (s s' : Timeouts) (e : ℕ) : Type 0 where
  pub running : IsRunning s'.num_entries s'.timing_wheel
  pub known : s'.connections c ≡ some (some e)
  pub made_for : s'.entry_conn e ≡ c
  pub below : e < s'.num_entries
  pub left : remaining e (first s'.timing_wheel) ≡ (if ltb (lease w s) d then d else lease w s)
  pub same : (w ≡ some e) ⊎ (lease w s ≡ 0)
  pub still : s'.force_closed ≡ s.force_closed
  pub kept : vsize (first s'.timing_wheel) ≡ vsize (first s.timing_wheel)
  pub others :
      (i : ℕ) → i ≢ e → remaining i (first s'.timing_wheel) ≡ remaining i (first s.timing_wheel)
  pub table : (k : ℕ) → s'.connections k ≡ (if k == c then some (some e) else s.connections k)
  pub owners : (i : ℕ) → i < s.num_entries → s'.entry_conn i ≡ s.entry_conn i
  pub same_connections : s'.num_connections ≡ s.num_connections
  pub made :
      (s'.num_entries ≡ s.num_entries)
      ⊎ ((s'.num_entries ≡ s.num_entries + 1) × (e ≡ s.num_entries))

start_timeout-IsRenewed :
    (c d : ℕ) (w : Option ℕ) (s : Timeouts)
    → IsWatched s
    → lease w s ≡ 0
    → 1 ≤ d
    → d < bucket_size
    → (e : ℕ) × (s' : Timeouts) × (start_timeout c d s ≡ some s') × IsRenewed c d w s s' e
unfolding start_timeout
start_timeout-IsRenewed c d w s h z one max =
    let n : ℕ = s.num_entries in
    let long : size (first s.timing_wheel) + 1 ≡ bucket_size =
      h.running.ready.first.full_size ∙ h.wide in
    let (v, i, r, left, kept, others) =
      insert_in_loop-IsRunning (n + 1) n d s.timing_wheel
        (IsRunning-weaken n s.timing_wheel h.running) (omega arith) one (omega (arith, long, max))
        (omega (arith, max)) in
    let new = remaining_new n s.timing_wheel h.running in
    let all : remaining n (first v) ≡ d = left ∙ ground (arith, new, one) in
    let lives : alive n v.wheels ≡ true =
      alive-remaining n (n + 1) v r ∙ ground (arith, all, one) in
    (
      n,
      record s {
        connections = λ k. if k == c then some (some n) else s.connections k;
        entry_conn = λ k. if k == n then c else s.entry_conn k;
        num_entries = n + 1;
        timing_wheel = v;
        force_closed = s.force_closed;
      },
      rw (i, lives) refl,
      record {
        running = r;
        known = ground arith;
        made_for = ground arith;
        below = omega arith;
        left = all ∙ ground (arith, z, one);
        same = inr z;
        still = refl;
        kept = kept;
        others = others;
        table = λ k. refl;
        owners = λ i u. ground (arith, u);
        same_connections = refl;
        made = inr (refl, refl);
      },
    )

pub reset_timeout-IsRenewed :
    (c d : ℕ) (w : Option ℕ) (s : Timeouts)
    → IsWatched s
    → s.connections c ≡ some w
    → 1 ≤ d
    → d < bucket_size
    → (e : ℕ) × (s' : Timeouts) × (reset_timeout_in_loop c d s ≡ some s') × IsRenewed c d w s s' e
unfolding reset_timeout_in_loop
reset_timeout-IsRenewed c d none s h con one max =
    let (e, s', i, r) = start_timeout-IsRenewed c d none s h refl one max in
    (e, s', rw (con, reset_timeout_in_loop) i, r)
reset_timeout-IsRenewed c d (some e) s h con one max =
    let n : ℕ = s.num_entries in
    let long : size (first s.timing_wheel) + 1 ≡ bucket_size =
      h.running.ready.first.full_size ∙ h.wide in
    let lives = alive-remaining e n s.timing_wheel h.running in
    let (mine, old) = h.linked c e con in
    elim (Bool-cases (alive e s.timing_wheel.wheels)) [
      | inl a ↦
          let (v, i, r, left, kept, others) =
            insert_in_loop-IsRunning n e d s.timing_wheel h.running old one
              (omega (arith, long, max)) (omega (arith, max)) in
          (
            e,
            record s { timing_wheel = v },
            rw (con, reset_timeout_in_loop, a, i) refl,
            record {
              running = r;
              known = con;
              made_for = mine;
              below = old;
              left = left;
              same = inl refl;
              still = refl;
              kept = kept;
              others = others;
              table = λ k. elim (ℕ_discrete k c) [
                | yes z ↦ ap s.connections z ∙ con ∙ ground (arith, z)
                | no z ↦ ground (arith, z)
              ];
              owners = λ i u. refl;
              same_connections = refl;
              made = inl refl;
            },
          )
      | inr a ↦
          let none_left : remaining e (first s.timing_wheel) ≡ 0 = ground (arith, lives, a) in
          let (e', s', i, r) = start_timeout-IsRenewed c d (some e) s h none_left one max in
          (e', s', rw (con, reset_timeout_in_loop, a) i, r)
    ]
