-- ===== src/Wheel/Early.antt =====
-- The first round of a wheel of src/net/TimingWheel.h, before it is full.
use netyo.Prelude.{
  ℕ, zero, suc, ◌+◌, ◌-◌, ◌≤◌, ◌<◌, ◌≡◌, ◌∙◌, ap, List, [], ◌∷◌, arith, length, get_or,
  if◌then◌else◌, leb, ltb, overwrite, get_or-overwrite, length-overwrite, some, ◌&&◌,
}
use netyo.Prelude.{lt→ltb, le→leb, ◌&&◌}
use netyo.Prelude.Int.{pos}
use netyo.Ring.{Ring, full, mod_index, read_at, write_at}
use netyo.Ring.Entries.{IsValid}
use netyo.FixedRing.{push_back}
use netyo.FixedRing.Window.{push_back-appended}
use netyo.Wheel.{Entry, Bucket, Wheels, insert_slot}
use netyo.Wheel.Near.{turn, overwrite_nothing}

-- A wheel after `t` ticks of its first round.
abbrev pub filling : List Bucket → ℕ → Ring Bucket
filling bs t = record { vec = bs; lo = 0; hi = t }

push_back-filling :
    (bs : List Bucket) (t : ℕ)
    → t + 1 < length bs
    → push_back [] (filling bs t) [] ≡ some (filling (overwrite bs t ([] ∷ [])) (t + 1))
unfolding full
push_back-filling bs t h =
    let v : IsValid (filling bs t) = omega (arith, h) in
    push_back-appended [] (filling bs t) [] v ∙ ground (arith, h)

turn-filling :
    (k t : ℕ) (bs : List Bucket)
    → t + k < length bs
    → (cs : List Bucket) × (turn k (filling bs t) ≡ some (filling cs (t + k)))
      × ((i : ℕ) → get_or cs i [] ≡ (if leb t i && ltb i (t + k) then [] else get_or bs i []))
unfolding turn
turn-filling zero t bs h = (bs, ground arith, λ i. ground arith)
turn-filling (suc k) t bs h =
    let one : t + 1 < length bs = omega (arith, h) in
    let (cs, d, at) =
      turn-filling k (t + 1) (overwrite bs t ([] ∷ []))
        (omega (arith, h, length-overwrite bs t ([] ∷ []))) in
    let far : t + 1 + k ≡ t + suc k = omega arith in
    (
      cs,
      rw (push_back-filling bs t one) (d ∙ ap (λ n. some (filling cs n)) far),
      λ i. at i ∙ ground (arith, get_or-overwrite bs t ([] ∷ []) i [], one),
    )

-- In a wheel that has made `t` ticks since it was new and does not fill up in the next `k`, an entry
-- that is inserted with a delay from 1 to the number of buckets is dropped by the tick number `delay`
-- of the wheel, which is `delay - t` ticks after its insertion, and is not dropped at all if that tick
-- is past.
pub insert_slot-filling :
    (t k delay : ℕ) (bs : List Bucket) (ws : Wheels) (e : Entry)
    → t + k < length bs
    → 1 ≤ delay
    → delay ≤ length bs
    → (s g : Ring Bucket) × (insert_slot 0 (delay - 1) e (filling bs t ∷ ws) ≡ some (s ∷ ws))
      × (turn k s ≡ some g)
      × (get_or g.vec (delay - 1) []
          ≡ (if leb (t + 1) delay && leb delay (t + k) then [] else e ∷ get_or bs (delay - 1) []))
unfolding insert_slot mod_index read_at write_at
insert_slot-filling t k delay bs ws e h one le =
    let p : ℕ = delay - 1 in
    let inside : p < length bs = omega (arith, one, le) in
    let bucket : Bucket = e ∷ get_or bs p [] in
    let cs : List Bucket = overwrite bs p (bucket ∷ []) in
    let long : length cs ≡ length bs = length-overwrite bs p (bucket ∷ []) in
    let here : mod_index (length bs) (pos (0 + p)) ≡ p = ground (arith, inside) in
    let (gs, d, at) = turn-filling k t cs (omega (arith, h, long)) in
    (
      filling cs t,
      filling gs (t + k),
      rw (here, lt→ltb p (length bs) inside, le→leb (p + 1) (length bs) (omega (arith, inside)))
          (ap (λ l. some (filling cs t ∷ l)) (overwrite_nothing ws)),
      d,
      at p ∙ ground (arith, get_or-overwrite bs p (bucket ∷ []) p [], inside, one),
    )
