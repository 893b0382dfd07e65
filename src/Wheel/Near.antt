-- ===== src/Wheel/Near.antt =====
-- How long an entry of src/net/TimingWheel.h stays in the wheel that it has been inserted into.
use netyo.Prelude.{
  ℕ, zero, suc, ◌+◌, ◌-◌, ◌≤◌, ◌<◌, ◌≡◌, ◌∙◌, sym, ap, List, [], ◌∷◌, ◌++◌, arith, length, get_or,
  overwrite, get_or-overwrite, length-overwrite, length-append, get_or-append, replicate, drop,
  length-drop, get_or-drop, append_assoc, dec_lt, drop-nil, append-nil, ◌⊎◌, some, ◌>>=◌, Option,
  refl, inl, inr,
}
use netyo.Prelude.{lt→ltb, le→leb}
use netyo.Ring.{Ring, vsize, size, slot, capacity, contents, mod_index, read_at, write_at}
use netyo.Ring.Entries.{IsValid, contents_ext, get_or-contents, length-contents}
use netyo.FixedRing.{push_back}
use netyo.FixedRing.Window.{push_back-window}
use netyo.Wheel.{Entry, Bucket, Wheels, insert_slot}

pub overwrite_nothing : {A : Type 0} (xs : List A) → overwrite xs 0 [] ≡ xs
overwrite_nothing [] = refl
overwrite_nothing (x ∷ xs) = refl

-- What `k` ticks do to the buckets of a wheel.
unfoldable pub turn : ℕ → Ring Bucket → Option (Ring Bucket)
turn zero r = some r
turn (suc k) r = push_back [] r [] >>= turn k

-- A list with an entry added to its bucket `p`.
abbrev pub added_at : List Bucket → ℕ → Entry → List Bucket
added_at bs p e = overwrite bs p ((e ∷ get_or bs p []) ∷ [])

drop_within : (k : ℕ) (xs ys : List Bucket) → k ≤ length xs → drop k (xs ++ ys) ≡ drop k xs ++ ys
drop_within zero xs ys h = refl
drop_within (suc k) [] ys h = absurd (omega (arith, h))
drop_within (suc k) (x ∷ xs) ys h = drop_within k xs ys (omega (arith, h))

drop-drop_one : (k : ℕ) (xs : List Bucket) → drop k (drop 1 xs) ≡ drop (suc k) xs
drop-drop_one k [] = drop-nil Bucket k
drop-drop_one k (x ∷ xs) = refl

turn-full :
    (k : ℕ) (r : Ring Bucket)
    → IsValid r
    → size r + 1 ≡ vsize r
    → k ≤ size r
    → (g : Ring Bucket) × (turn k r ≡ some g)
      × (contents [] g ≡ drop k (contents [] r) ++ replicate k [])
unfolding turn
turn-full zero r v f h = (r, refl, sym (append-nil (contents [] r)))
turn-full (suc k) r v f h =
    let (r1, e, v1, cap, c) = push_back-window [] r [] v in
    let one : size r + 1 - capacity r ≡ 1 = omega (arith, f) in
    let c1 : contents [] r1 ≡ drop 1 (contents [] r) ++ [] ∷ [] =
      c ∙ ap (λ n. drop n (contents [] r) ++ [] ∷ []) one in
    let long : length (drop 1 (contents [] r)) + 1 ≡ size r =
      omega (arith, length-drop 1 (contents [] r), length-contents [] r, h) in
    let same : size r1 ≡ size r = omega (
      arith,
      ap length c1,
      length-append (drop 1 (contents [] r)) ([] ∷ []),
      long,
      length-contents [] r1,
    ) in
    let (g, d, z) =
      turn-full k r1 v1 (omega (arith, same, cap, f, v.room, v1.room)) (omega (arith, same, h)) in
    (
      g,
      rw e d,
      z
          ∙ ap (λ l. drop k l ++ replicate k []) c1
          ∙ ap (λ l. l ++ replicate k [])
              (drop_within k (drop 1 (contents [] r)) ([] ∷ []) (omega (arith, long, h))
                ∙ ap (λ l. l ++ [] ∷ []) (drop-drop_one k (contents [] r)))
          ∙ append_assoc (drop (suc k) (contents [] r)) ([] ∷ []) (replicate k []),
    )

-- The ring with an entry in the bucket `p` from its start.
abbrev pub with_entry : Ring Bucket → ℕ → Entry → Ring Bucket
with_entry r p e = record r {
  vec = overwrite r.vec (slot r p) ((e ∷ get_or r.vec (slot r p) []) ∷ []);
}

pub insert_slot-with_entry :
    (r : Ring Bucket) (ws : Wheels) (p : ℕ) (e : Entry)
    → IsValid r
    → p < size r
    → insert_slot 0 p e (r ∷ ws) ≡ some (with_entry r p e ∷ ws)
unfolding insert_slot mod_index read_at write_at
insert_slot-with_entry r ws p e v h =
    let inside : slot r p < vsize r = ground arith in
    rw (lt→ltb (slot r p) (vsize r) inside, le→leb (slot r p + 1) (vsize r) (omega (arith, inside)))
      (ap (λ l. some (with_entry r p e ∷ l)) (overwrite_nothing ws))

contents-with_entry :
    (r : Ring Bucket) (p : ℕ) (e : Entry)
    → IsValid r
    → p < size r
    → IsValid (with_entry r p e)
      × (vsize (with_entry r p e) ≡ vsize r)
      × (contents [] (with_entry r p e) ≡ added_at (contents [] r) p e)
contents-with_entry r p e v h =
    let bucket : Bucket = e ∷ get_or r.vec (slot r p) [] in
    let inside : slot r p + 1 ≤ vsize r = ground arith in
    let long = length-overwrite r.vec (slot r p) (bucket ∷ []) in
    (
      ground (arith, long),
      ground (arith, long),
      contents_ext [] (with_entry r p e) (added_at (contents [] r) p e)
          (ground (
            arith,
            long,
            length-contents [] r,
            length-overwrite (contents [] r) p ((e ∷ get_or (contents [] r) p []) ∷ []),
          ))
          λ k q. ground (
            arith,
            long,
            inside,
            length-contents [] r,
            get_or-overwrite r.vec (slot r p) (bucket ∷ []) (slot r k) [],
            get_or-overwrite (contents [] r) p ((e ∷ get_or (contents [] r) p []) ∷ []) k [],
            get_or-contents [] r k,
            get_or-contents [] r p,
          ),
    )

drop-overwrite :
    (k p : ℕ) (xs : List Bucket) (b : Bucket) → p < k → drop k (overwrite xs p (b ∷ [])) ≡ drop k xs
drop-overwrite zero p xs b h = absurd (omega (arith, h))
drop-overwrite (suc k) p [] b h = refl
drop-overwrite (suc k) zero (x ∷ xs) b h = ap (drop k) (overwrite_nothing xs)
drop-overwrite (suc k) (suc p) (x ∷ xs) b h = drop-overwrite k p xs b (omega (arith, h))

-- In a full first wheel an entry that is inserted with a delay from 1 to the number of its buckets
-- goes into the bucket `delay - 1`, and `k` ticks drop the first `k` buckets and nothing else: the entry
-- is in its bucket after fewer ticks than its delay, and is dropped with the last of them.
pub insert_slot-turn :
    (k delay : ℕ) (r : Ring Bucket) (ws : Wheels) (e : Entry)
    → IsValid r
    → size r + 1 ≡ vsize r
    → 1 ≤ delay
    → delay ≤ size r
    → k ≤ delay
    → (s g : Ring Bucket) × (insert_slot 0 (delay - 1) e (r ∷ ws) ≡ some (s ∷ ws))
      × (turn k s ≡ some g)
      × (contents [] g ≡ drop k (added_at (contents [] r) (delay - 1) e) ++ replicate k [])
      × ((k < delay)
            × (get_or (contents [] g) (delay - 1 - k) []
                ≡ e ∷ get_or (contents [] r) (delay - 1) [])
          ⊎ (k ≡ delay) × (contents [] g ≡ drop k (contents [] r) ++ replicate k []))
insert_slot-turn k delay r ws e v f one le h =
    let p : ℕ = delay - 1 in
    let xs : List Bucket = contents [] r in
    let bucket : Bucket = e ∷ get_or xs p [] in
    let inside : p < size r = omega (arith, one, le) in
    let (i, same, c) = contents-with_entry r p e v inside in
    let long : size (with_entry r p e) ≡ size r = omega (
      arith,
      ap length c,
      length-overwrite xs p (bucket ∷ []),
      length-contents [] r,
      length-contents [] (with_entry r p e),
      inside,
    ) in
    let (g, d, z) =
      turn-full k (with_entry r p e) i (omega (arith, same, long, f))
        (omega (arith, long, le, h)) in
    let all : contents [] g ≡ drop k (added_at xs p e) ++ replicate k [] =
      z ∙ ap (λ l. drop k l ++ replicate k []) c in
    (
      with_entry r p e,
      g,
      insert_slot-with_entry r ws p e v inside,
      d,
      all,
      elim (dec_lt k delay) [
        | yes early ↦ inl (
          early,
          ap (λ l. get_or l (p - k) []) all
              ∙ ground (
                arith,
                get_or-append (drop k (added_at xs p e)) (replicate k []) (p - k) [],
                get_or-drop k (added_at xs p e) (p - k) [],
                get_or-overwrite xs p (bucket ∷ []) p [],
                length-drop k (added_at xs p e),
                length-overwrite xs p (bucket ∷ []),
                length-contents [] r,
                inside,
                early,
              ),
        )
        | no n ↦
            let now : k ≡ delay = omega (arith, n, h) in
            inr (
              now,
              all
                  ∙ ap (λ l. l ++ replicate k [])
                      (drop-overwrite k p xs bucket (omega (arith, now, one))),
            )
      ],
    )
