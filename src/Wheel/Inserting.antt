-- ===== src/Wheel/Inserting.antt =====
-- Insertions into a timing wheel of src/net/TimingWheel.h, by the ticks that are left to an entry.
use netyo.Prelude.{
  ℕ, suc, ◌+◌, ◌-◌, ◌≤◌, ◌<◌, ◌≡◌, ◌∙◌, sym, ap, [], ◌∷◌, arith, length, get_or, if◌then◌else◌, leb,
  ltb, ◌==◌, get_or-overwrite, length-overwrite, ℕ_discrete, some, true, false, refl, subst, Bool,
}
use netyo.Prelude.{le→leb}
use netyo.Ring.{Ring, vsize, size, slot}
use netyo.Ring.Entries.{IsValid}
use netyo.Wheel.{
  Entry, plain, Bucket, Wheels, TimingWheel, bucket_size, insert_slot, insert_from, insert_in_loop,
}
use netyo.Wheel.Near.{with_entry, insert_slot-with_entry}
use netyo.Wheel.Lease.{bucket_at, holds, last_below, last_below_added, remaining}
use netyo.Wheel.Ticking.{wheel_at, IsBlank, IsFull, IsReady}
use netyo.Prelude.{◌≢◌}
use netyo.Wheel.Lease.{last_below_ext}
use netyo.Wheel.Leasing.{IsRunning, first}

bucket_at-with_entry :
    (r : Ring Bucket) (p : ℕ) (x : Entry) (k : ℕ)
    → IsValid r
    → p < size r
    → k < vsize r
    → bucket_at (with_entry r p x) k ≡ (if k == p then x ∷ bucket_at r p else bucket_at r k)
bucket_at-with_entry r p x k v h u = ground (
  arith,
  get_or-overwrite r.vec (slot r p) ((x ∷ get_or r.vec (slot r p) []) ∷ []) (slot r k) [],
  length-overwrite r.vec (slot r p) ((x ∷ get_or r.vec (slot r p) []) ∷ []),
)

with_entry-IsFull :
    (n e p : ℕ) (r : Ring Bucket)
    → IsFull n r
    → e < n
    → p < size r
    → IsFull n (with_entry r p (plain e)) × (vsize (with_entry r p (plain e)) ≡ vsize r)
with_entry-IsFull n e p r b lt h =
    let bucket : Bucket = plain e ∷ bucket_at r p in
    let long = length-overwrite r.vec (slot r p) (bucket ∷ []) in
    let v : IsValid (with_entry r p (plain e)) = ground (arith, long, b.valid) in
    let same : size (with_entry r p (plain e)) ≡ size r = ground (arith, long) in
    let fits : slot r p + 1 ≤ vsize r = ground (arith, b.valid) in
    (
      record {
        valid = v;
        full_size = omega (arith, long, same, b.full_size);
        free =
            ap (bucket_at (with_entry r p (plain e))) same
            ∙ bucket_at-with_entry r p (plain e) (size r) b.valid h (omega (arith, b.full_size))
            ∙ ground (arith, h, b.free);
        ours = λ i. elim (ℕ_discrete i (slot r p)) [
          | yes z ↦
              let there : get_or (with_entry r p (plain e)).vec i [] ≡ bucket =
                get_or-overwrite r.vec (slot r p) (bucket ∷ []) i [] fits ∙ ground (arith, z) in
              rw there (lt, b.ours (slot r p))
          | no z ↦
              let there : get_or (with_entry r p (plain e)).vec i [] ≡ get_or r.vec i [] =
                get_or-overwrite r.vec (slot r p) (bucket ∷ []) i [] fits ∙ ground (arith, z) in
              rw there (b.ours i)
        ];
      },
      long,
    )

remaining-with_entry :
    (n e d : ℕ) (r : Ring Bucket)
    → IsFull n r
    → 1 ≤ d
    → d ≤ size r
    → remaining e (with_entry r (d - 1) (plain e))
      ≡ (if ltb (remaining e r) d then d else remaining e r)
unfolding remaining
remaining-with_entry n e d r b one le =
    let g : Ring Bucket = with_entry r (d - 1) (plain e) in
    let p : ℕ → Bool = λ k. holds e (bucket_at r k) in
    let q : ℕ → Bool = λ k. holds e (bucket_at g k) in
    let long : vsize g ≡ vsize r =
      length-overwrite r.vec (slot r (d - 1)) ((plain e ∷ bucket_at r (d - 1)) ∷ []) in
    let fits : leb d (vsize r) ≡ true = ground (arith, b.full_size) in
    ap (last_below q) long
    ∙ last_below_added p q d (vsize r)
        (λ k u.
          let moved =
            ap (holds e)
              (bucket_at-with_entry r (d - 1) (plain e) k b.valid (omega (arith, one, le)) u) in
          elim (ℕ_discrete (k + 1) d) [
            | yes z ↦ moved ∙ ground (arith, z)
            | no z ↦ moved ∙ ground (arith, z, one)
          ])
        one
    ∙ rw fits refl

-- The ticks that are left to the other entries stay.
remaining-other :
    (n e i p : ℕ) (r : Ring Bucket)
    → IsFull n r
    → p < size r
    → i ≢ e
    → remaining i (with_entry r p (plain e)) ≡ remaining i r
unfolding remaining
remaining-other n e i p r b h ne =
    let g : Ring Bucket = with_entry r p (plain e) in
    let long : vsize g ≡ vsize r =
      length-overwrite r.vec (slot r p) ((plain e ∷ bucket_at r p) ∷ []) in
    ap (last_below λ k. holds i (bucket_at g k)) long
    ∙ last_below_ext (λ k. holds i (bucket_at r k)) (λ k. holds i (bucket_at g k)) (vsize r)
        λ k u.
          let moved = ap (holds i) (bucket_at-with_entry r p (plain e) k b.valid h u) in
          elim (ℕ_discrete k p) [
            | yes z ↦ moved ∙ ground (arith, z, ne)
            | no z ↦ moved ∙ ground (arith, z)
          ]

insert_slot-IsReady :
    (n e d : ℕ) (ws : Wheels)
    → IsReady n ws
    → e < n
    → 1 ≤ d
    → d ≤ size (wheel_at ws 0)
    → (ws' : Wheels) × (insert_slot 0 (d - 1) (plain e) ws ≡ some ws')
      × (length ws' ≡ length ws)
      × IsReady n ws'
      × (remaining e (wheel_at ws' 0)
          ≡ (if ltb (remaining e (wheel_at ws 0)) d then d else remaining e (wheel_at ws 0)))
      × (vsize (wheel_at ws' 0) ≡ vsize (wheel_at ws 0))
      × ((i : ℕ) → i ≢ e → remaining i (wheel_at ws' 0) ≡ remaining i (wheel_at ws 0))
insert_slot-IsReady n e d [] h lt one le = absurd (omega (arith, h.some_wheel))
insert_slot-IsReady n e d (r ∷ rs) h lt one le =
    let inside : d - 1 < size r = omega (arith, one, le) in
    (
      with_entry r (d - 1) (plain e) ∷ rs,
      insert_slot-with_entry r rs (d - 1) (plain e) h.first.valid inside,
      refl,
      record {
        some_wheel = h.some_wheel;
        first = (with_entry-IsFull n e (d - 1) r h.first lt inside).0;
        others = λ j one u. elim (ℕ_discrete j 0) [
          | yes z ↦ absurd (omega (arith, z, one))
          | no z ↦
              let s : suc (j - 1) ≡ j = omega (arith, one) in
              subst (λ k. IsBlank (wheel_at (with_entry r (d - 1) (plain e) ∷ rs) k)) s
                (h.others (suc (j - 1)) (omega arith) (omega (arith, s, u)))
        ];
      },
      remaining-with_entry n e d r h.first one le,
      (with_entry-IsFull n e (d - 1) r h.first lt inside).1,
      λ i ne. remaining-other n e i (d - 1) r h.first inside ne,
    )

-- An insertion with a delay that the first wheel has buckets for gives the entry that many ticks, or
-- leaves it more, leaves the other entries what they have, and does not fault.
pub insert_in_loop-IsRunning :
    (n e d : ℕ) (w : TimingWheel)
    → IsRunning n w
    → e < n
    → 1 ≤ d
    → d ≤ size (first w)
    → d ≤ bucket_size
    → (w' : TimingWheel) × (insert_in_loop d (plain e) w ≡ some w')
      × IsRunning n w'
      × (remaining e (first w')
          ≡ (if ltb (remaining e (first w)) d then d else remaining e (first w)))
      × (vsize (first w') ≡ vsize (first w))
      × ((i : ℕ) → i ≢ e → remaining i (first w') ≡ remaining i (first w))
unfolding insert_in_loop
insert_in_loop-IsRunning n e d w h lt one le max =
    let m : ℕ = length w.wheels - 1 in
    let l : w.nwheel ≡ suc m = omega (arith, h.counted, h.ready.some_wheel) in
    let (ws', s, same, r, left, long, others) =
      insert_slot-IsReady n e d w.wheels h.ready lt one le in
    let some_delay : (d == 0) ≡ false = ground (arith, one) in
    let here : insert_from (suc m) 0 1 d (plain e) w.wheels ≡ some ws' =
      unfold insert_from in rw (some_delay, le→leb d bucket_size max) s in
    let all : insert_from w.nwheel 0 1 d (plain e) w.wheels ≡ some ws' =
      ap (λ k. insert_from k 0 1 d (plain e) w.wheels) l ∙ here in
    (
      record w { wheels = ws' },
      rw all refl,
      record { counted = h.counted ∙ sym same; ready = r },
      left,
      long,
      others,
    )
