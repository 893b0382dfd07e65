-- ===== src/Timer/Arming.antt =====
-- What `write_timer_fd` of src/net/eventloop/TimerQueue.cpp sets the timer to.
use netyo.Prelude.{◌⊎◌, inl, inr, ◌%◌, ◌/◌, ℕ, ◌+◌, ◌*◌, ◌≤◌, ◌<◌, ◌≡◌, ◌∙◌, sym, ap, arith, dec_lt}
use netyo.Timer.{millisecond, remain_ms, timer_spec}

-- Half a second or more over whole seconds: the remainder by the seconds is what is left of the last
-- second.
spec_parts :
    (sec r : ℕ)
    → 1 ≤ sec
    → r < 1000
    → ((1000 * sec + r) * millisecond) % (sec * 1_000_000_000) ≡ r * millisecond
spec_parts sec r h k =
    let n : ℕ = sec * 1_000_000_000 in
    let e : (1000 * sec + r) * millisecond ≡ n + r * millisecond = omega arith in
    let small : r * millisecond < n = omega arith in rw e (grind (arith, small))

-- The parts of a setting of 1000 ms or more.
spec_exact : (ms : ℕ) → 1000 ≤ ms → (timer_spec ms).1 ≡ (ms % 1000) * millisecond
unfolding timer_spec
spec_exact ms h =
    let e : 1000 * (ms / 1000) + ms % 1000 ≡ ms = omega arith in
    ap (λ m. (m * millisecond) % ((ms / 1000) * 1_000_000_000)) (sym e)
    ∙ spec_parts (ms / 1000) (ms % 1000) (omega arith) (omega arith)

remain_ms_bounds :
    (now expire_time : ℕ)
    → (1500 ≤ remain_ms now expire_time)
      × (expire_time < now + (remain_ms now expire_time + 1) * millisecond)
      × ((expire_time ≤ now + 1500 * millisecond)
          ⊎ (now + remain_ms now expire_time * millisecond ≤ expire_time))
unfolding remain_ms
remain_ms_bounds now expire_time = elim (dec_lt (now + 1500 * millisecond) expire_time) [
  | yes h ↦ (ground arith, ground arith, inr (ground arith))
  | no h ↦ (ground arith, ground arith, inl (omega (arith, h)))
]

-- `write_timer_fd` sets the timer to the milliseconds that it has computed, in whole seconds and less
-- than one second more; these are at least 1500, at least the whole milliseconds up to the expiry, and
-- no more than that where the expiry is further away than 1500 ms.
pub timer_spec_bounds :
    (now expire_time : ℕ)
    → let ms = remain_ms now expire_time in
      let (sec, nsec) = timer_spec ms in
      (sec * 1_000_000_000 + nsec ≡ ms * millisecond)
      × (nsec < 1_000_000_000)
      × (1500 ≤ ms)
      × (expire_time < now + (ms + 1) * millisecond)
      × ((expire_time ≤ now + 1500 * millisecond) ⊎ (now + ms * millisecond ≤ expire_time))
unfolding timer_spec
timer_spec_bounds now expire_time =
    let ms = remain_ms now expire_time in
    let (least, far, near) = remain_ms_bounds now expire_time in
    let part : (timer_spec ms).1 ≡ (ms % 1000) * millisecond =
      spec_exact ms (omega (arith, least)) in
    (omega (arith, part), omega (arith, part), least, far, near)
