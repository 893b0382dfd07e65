-- ===== src/Wheel/Far.antt =====
-- Where `insert_in_loop` of src/net/TimingWheel.h puts an entry whose delay is more than a wheel holds.
use netyo.Prelude.{
  ℕ, zero, suc, ◌+◌, ◌-◌, ◌*◌, ◌≤◌, ◌<◌, ◌≡◌, ◌∙◌, sym, ap, arith, leb, ltb, ◌==◌, some, ◌>>=◌,
  true, false, refl,
}
use netyo.Prelude.{◌%◌, ◌^◌}
use netyo.Wheel.{
  plain, Entry, put_back, Wheels, TimingWheel, bucket_size, insert_slot, insert_from,
  insert_in_loop, next_delay,
}

first_delay :
    (delay : ℕ)
    → bucket_size < delay
    → delay < 2 ^ 64
    → next_delay delay 1 ≡ delay - (delay - 1) % bucket_size
unfolding next_delay
first_delay delay h b = omega arith

same_delay :
    (delay base : ℕ)
    → delay < 2 ^ 64
    → (delay - 1) % bucket_size ≡ 0
    → next_delay delay base ≡ delay
unfolding next_delay
same_delay delay base b m = rw m (omega arith)

insert_from-one :
    (i base delay : ℕ) (e : Entry) (ws : Wheels)
    → bucket_size < delay
    → insert_from 1 i base delay e ws ≡ insert_slot i 99 e ws
unfolding insert_from
insert_from-one i base delay e ws h =
    let some_delay : (delay == 0) ≡ false = ground arith in
    let long : leb delay bucket_size ≡ false = ground arith in rw (some_delay, long) refl

insert_from-more :
    (n i base delay : ℕ) (e : Entry) (ws : Wheels)
    → bucket_size < delay
    → insert_from (suc (suc n)) i base delay e ws
      ≡ insert_from
          (suc n)
          (i + 1)
          (base * bucket_size)
          (next_delay delay base)
          (put_back i ((delay - 1) % bucket_size) e)
          ws
unfolding insert_from
insert_from-more n i base delay e ws h =
    let some_delay : (delay == 0) ≡ false = ground arith in
    let long : leb delay bucket_size ≡ false = ground arith in
    let wheels_left : ltb 0 (suc n) ≡ true = ground arith in rw (some_delay, long, wheels_left) refl

-- The entry that is put back in the end.
unfoldable pub innermost : Entry → Entry
innermost (plain n) = plain n
innermost (put_back i p e) = innermost e

-- A delay that is one more than a multiple of 100 stays what it is.
stays :
    (n i base delay : ℕ) (e : Entry) (ws : Wheels)
    → bucket_size < delay
    → delay < 2 ^ 64
    → (delay - 1) % bucket_size ≡ 0
    → (e' : Entry) × (innermost e' ≡ innermost e)
      × (insert_from (suc n) i base delay e ws ≡ insert_slot (i + n) 99 e' ws)
unfolding innermost
stays zero i base delay e ws h b m =
    let here : i ≡ i + 0 = omega arith in
    (e, refl, insert_from-one i base delay e ws h ∙ ap (λ k. insert_slot k 99 e ws) here)
stays (suc n) i base delay e ws h b m =
    let e1 : Entry = put_back i ((delay - 1) % bucket_size) e in
    let (e', same, d) = stays n (i + 1) (base * bucket_size) delay e1 ws h b m in
    let there : i + 1 + n ≡ i + suc n = omega arith in
    (
      e',
      same,
      insert_from-more n i base delay e ws h
          ∙ ap (λ k. insert_from (suc n) (i + 1) (base * bucket_size) k e1 ws)
              (same_delay delay base b m)
          ∙ d
          ∙ ap (λ k. insert_slot k 99 e' ws) there,
    )

insert_from-last :
    (n delay : ℕ) (e : Entry) (ws : Wheels)
    → bucket_size < delay
    → delay < 2 ^ 64
    → (e' : Entry) × (innermost e' ≡ innermost e)
      × (insert_from (suc (suc n)) 0 1 delay e ws ≡ insert_slot (suc n) 99 e' ws)
unfolding innermost
insert_from-last n delay e ws h b =
    let e1 : Entry = put_back 0 ((delay - 1) % bucket_size) e in
    let next = first_delay delay h b in
    let (e', same, d) =
      stays n 1 (1 * bucket_size) (next_delay delay 1) e1 ws (omega (arith, next))
        (omega (arith, next)) (omega (arith, next)) in
    let there : 1 + n ≡ suc n = omega arith in
    (e', same, insert_from-more n 0 1 delay e ws h ∙ d ∙ ap (λ k. insert_slot k 99 e' ws) there)

-- In a timing wheel of two wheels or more, every entry with a delay of more than 100 goes into the last
-- bucket of the last wheel, whatever its delay is, and is what is put back from there in the end.
pub insert_in_loop-last :
    (delay : ℕ) (e : Entry) (w : TimingWheel)
    → 2 ≤ w.nwheel
    → bucket_size < delay
    → delay < 2 ^ 64
    → (e' : Entry) × (innermost e' ≡ innermost e)
      × (insert_in_loop delay e w
          ≡ (insert_slot (w.nwheel - 1) 99 e' w.wheels >>= λ ws. some (record w { wheels = ws })))
unfolding insert_in_loop
insert_in_loop-last delay e w n h b =
    let (e', same, d) = insert_from-last (w.nwheel - 2) delay e w.wheels h b in
    let size : suc (suc (w.nwheel - 2)) ≡ w.nwheel = omega arith in
    let last : suc (w.nwheel - 2) ≡ w.nwheel - 1 = omega arith in
    let all : insert_from w.nwheel 0 1 delay e w.wheels
        ≡ insert_slot (w.nwheel - 1) 99 e' w.wheels =
      ap (λ k. insert_from k 0 1 delay e w.wheels) (sym size)
      ∙ d
      ∙ ap (λ k. insert_slot k 99 e' w.wheels) last in
    (e', same, ap (λ m. m >>= λ ws. some (record w { wheels = ws })) all)
