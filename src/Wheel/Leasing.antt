-- ===== src/Wheel/Leasing.antt =====
-- Ticks of a timing wheel of src/net/TimingWheel.h, by the ticks that are left to an entry.
use netyo.Prelude.{
  ℕ, suc, ◌+◌, ◌-◌, ◌*◌, ◌≤◌, ◌<◌, ◌≡◌, ◌∙◌, sym, ap, [], ◌∷◌, arith, length, get_or, if◌then◌else◌,
  leb, ltb, ◌==◌, overwrite, get_or-overwrite, length-overwrite, some, true, false, refl, subst,
  ◌&&◌,
}
use netyo.Prelude.{◌%◌}
use netyo.Ring.{Ring, vsize, slot}
use netyo.Wheel.{Bucket, Wheels, TimingWheel, bucket_size, tick_from, tick}
use netyo.Wheel.Lease.{bucket_at, holds, alive, last_below-nothing, remaining, any_below-remaining}
use netyo.Wheel.Ticking.{
  empty_wheel, wheel_at, IsBlank, IsFull, IsReady, pushed, ticked, pushed_full, pushed_at,
  ticked-IsFull, size-ticked, remaining-ticked, tick_from-others,
}

-- What holds of a wheel between two calls: the numbers of its entries are below `n`.
pub record IsRunning (n : ℕ) (w : TimingWheel) : Type 0 where
  pub counted : w.nwheel ≡ length w.wheels
  pub ready : IsReady n w.wheels

abbrev pub first : TimingWheel → Ring Bucket
first w = wheel_at w.wheels 0

remaining-IsBlank : (e : ℕ) (r : Ring Bucket) → IsBlank r → remaining e r ≡ 0
unfolding remaining
remaining-IsBlank e r b =
    last_below-nothing (λ k. holds e (bucket_at r k)) (vsize r)
      λ k h. ap (holds e) (b.nothing (slot r k))

alive-blank :
    (e : ℕ) (ws : Wheels) → ((j : ℕ) → j < length ws → IsBlank (wheel_at ws j)) → alive e ws ≡ false
unfolding alive
alive-blank e [] h = refl
alive-blank e (r ∷ rs) h =
    rw (any_below-remaining e r, remaining-IsBlank e r (h 0 (omega arith)))
      (alive-blank e rs λ j u. h (suc j) (omega arith))

alive-ready :
    (e n : ℕ) (ws : Wheels) → IsReady n ws → alive e ws ≡ ltb 0 (remaining e (wheel_at ws 0))
unfolding alive
alive-ready e n [] h = absurd (omega (arith, h.some_wheel))
alive-ready e n (r ∷ rs) h =
    rw
      (
        any_below-remaining e r,
        alive-blank e rs λ j u. h.others (suc j) (omega arith) (omega arith),
      )
      (ground arith)

-- An entry has not expired while ticks are left to it.
pub alive-remaining :
    (e n : ℕ) (w : TimingWheel) → IsRunning n w → alive e w.wheels ≡ ltb 0 (remaining e (first w))
alive-remaining e n w h = alive-ready e n w.wheels h.ready

tick_from-IsReady :
    (n m t : ℕ) (ws : Wheels)
    → length ws ≡ suc m
    → IsReady n ws
    → (ws' : Wheels) × (tick_from (suc m) 0 1 t ws ≡ some ws')
      × (length ws' ≡ length ws)
      × IsReady n ws'
      × ((e : ℕ) → remaining e (wheel_at ws' 0) ≡ remaining e (wheel_at ws 0) - 1)
      × (vsize (wheel_at ws' 0) ≡ vsize (wheel_at ws 0))
unfolding tick_from
tick_from-IsReady n m t ws l h =
    let f : Ring Bucket = wheel_at ws 0 in
    let b : IsFull n f = h.first in
    let ws1 : Wheels = overwrite ws 0 (pushed f ∷ []) in
    let long : length ws1 ≡ length ws = length-overwrite ws 0 (pushed f ∷ []) in
    let always : (t % 1 == 0) ≡ true = ground arith in
    let reads : (j : ℕ)
        → wheel_at ws1 j ≡ (
            if leb 0 j && ltb j (0 + 1)
            then get_or (pushed f ∷ []) (j - 0) empty_wheel
            else wheel_at ws j) =
      λ j. get_or-overwrite ws 0 (pushed f ∷ []) j empty_wheel (omega (arith, h.some_wheel)) in
    let blank : (j : ℕ) → 1 ≤ j → j < length ws1 → IsBlank (wheel_at ws1 j) = λ j one u.
      let same : wheel_at ws1 j ≡ wheel_at ws j = reads j ∙ ground (arith, one) in
      rw same (h.others j one (omega (arith, u, long))) in
    let (ws', d, l', z, q) =
      tick_from-others m (0 + 1) (1 * bucket_size) t ws1 (omega arith) (omega (arith, long, l))
        blank in
    let now : wheel_at ws' 0 ≡ ticked f = z ∙ reads 0 ∙ pushed_full f b.full_size in
    (
      ws',
      rw (always, pushed_at n 0 ws h.some_wheel b.valid b.ours) d,
      l' ∙ long,
      record {
        some_wheel = omega (arith, l', long, h.some_wheel);
        first = subst (IsFull n) (sym now) (ticked-IsFull n f b);
        others = q;
      },
      λ e. ap (remaining e) now ∙ remaining-ticked e n f b,
      ap vsize now ∙ (size-ticked f b.valid b.full_size).2,
    )

-- A tick takes one from what is left to each entry, keeps the number of buckets, and does not fault.
pub tick-IsRunning :
    (n : ℕ) (w : TimingWheel)
    → IsRunning n w
    → (w' : TimingWheel) × (tick w ≡ some w')
      × IsRunning n w'
      × ((e : ℕ) → remaining e (first w') ≡ remaining e (first w) - 1)
      × (vsize (first w') ≡ vsize (first w))
unfolding tick
tick-IsRunning n w h =
    let m : ℕ = length w.wheels - 1 in
    let l : length w.wheels ≡ suc m = omega (arith, h.ready.some_wheel) in
    let (ws', d, same, r, left, long) = tick_from-IsReady n m (w.curtick + 1) w.wheels l h.ready in
    let all : tick_from w.nwheel 0 1 (w.curtick + 1) w.wheels ≡ some ws' =
      ap (λ k. tick_from k 0 1 (w.curtick + 1) w.wheels) (h.counted ∙ l) ∙ d in
    (
      record w { wheels = ws'; curtick = w.curtick + 1 },
      rw all refl,
      record { counted = h.counted ∙ sym same; ready = r },
      left,
      long,
    )
