-- ===== src/Buffer/Append.antt =====
-- `feed_wbuffer` of `Buffer` (src/net/Buffer.h) where the copies stay within the vector.
use netyo.Prelude.{
  take-all, drop-all, ℕ, zero, suc, ◌+◌, ◌-◌, ◌≤◌, ◌<◌, ◌≡◌, ◌∙◌, sym, ap, List, [], ◌∷◌, ◌++◌,
  arith, length, if◌then◌else◌, leb, overwrite, length-overwrite, take, length-take, length-drop,
  append-nil, ◌⊎◌, some, refl, min,
}
use netyo.Prelude.Int.{pos}
use netyo.Ring.{
  mod_index, reserve, size, Ring, vsize, size, contents, ensure_space, mod_index, write_at, reserve,
}
use netyo.Ring.Entries.{IsValid}
use netyo.Ring.Reserve.{grown, grown-room, grown-indices, contents-grown}
use netyo.Buffer.{copy_in, feed_wbuffer}
use netyo.Buffer.Pour.{poured, HasRoom, poured-IsValid, contents-poured}

overwrite-nil : (xs : List ℕ) (i : ℕ) → overwrite xs i [] ≡ xs
overwrite-nil [] i = refl
overwrite-nil (x ∷ xs) zero = refl
overwrite-nil (x ∷ xs) (suc i) = ap (λ l. x ∷ l) (overwrite-nil xs i)

take-zero : (xs : List ℕ) (n : ℕ) → n ≡ 0 → take n xs ≡ []
take-zero xs n e = rw e

-- The bytes that `feed_wbuffer` puts before the end of the vector.
abbrev pub first_piece : Ring ℕ → ℕ → ℕ
first_piece g n = if leb g.hi g.lo then n else min (vsize g - g.hi) n

copy_in-poured :
    (g : Ring ℕ) (bs : List ℕ)
    → IsValid g
    → HasRoom g (first_piece g (length bs)) (length bs)
    → copy_in g bs ≡ some (poured g (first_piece g (length bs)) bs).vec
unfolding copy_in write_at
copy_in-poured g bs v h = ground (
  arith,
  take-all (length bs) bs,
  drop-all (length bs) bs,
  drop-all (min (vsize g - g.hi) (length bs)) bs,
  take-zero bs (min (vsize g - g.hi) (length bs)),
  overwrite-nil g.vec g.hi,
  overwrite-nil (overwrite g.vec g.hi (take (first_piece g (length bs)) bs)) 0,
  length-take (first_piece g (length bs)) bs,
  length-drop (first_piece g (length bs)) bs,
  length-overwrite g.vec g.hi (take (first_piece g (length bs)) bs),
)

-- Where `feed_wbuffer` works as it is meant to: the contents lie in one piece that ends behind `lo`,
-- or no growth is needed and a copy in one piece stays within the vector.
abbrev pub CanAppend : Ring ℕ → ℕ → Type 0
CanAppend r n =
    (r.lo < r.hi) ⊎ ((size r + n < vsize r) × (r.hi + n ≤ vsize r)) ⊎ ((r.lo ≡ 0) × (r.hi ≡ 0))

abbrev pub with_room : Ring ℕ → ℕ → Ring ℕ
with_room r n = if leb r.lo r.hi then grown 0 r (size r + n) else r

ensure_space-with_room :
    (r : Ring ℕ) (n : ℕ) → CanAppend r n → ensure_space 0 r n ≡ some (with_room r n)
unfolding ensure_space reserve
ensure_space-with_room r n h = ground arith

with_room-HasRoom :
    (r : Ring ℕ) (n : ℕ)
    → IsValid r
    → CanAppend r n
    → IsValid (with_room r n) × HasRoom (with_room r n) (first_piece (with_room r n) n) n
with_room-HasRoom r n v h =
    ground (arith, grown-room 0 r (size r + n) v, grown-indices 0 r (size r + n))

contents-with_room : (r : Ring ℕ) (n : ℕ) → IsValid r → contents 0 (with_room r n) ≡ contents 0 r
contents-with_room r n v = ground (arith, contents-grown 0 r (size r + n) v)

feed_wbuffer-step :
    (r g : Ring ℕ) (bs vec : List ℕ)
    → 0 < length bs
    → ensure_space 0 r (length bs) ≡ some g
    → copy_in g bs ≡ some vec
    → feed_wbuffer r bs
      ≡ some (record g { vec = vec; hi = mod_index (vsize g) (pos (g.hi + length bs)) }, length bs)
unfolding feed_wbuffer
feed_wbuffer-step r g bs vec h e f = ground arith

pub feed_wbuffer-poured :
    (r : Ring ℕ) (bs : List ℕ)
    → IsValid r
    → CanAppend r (length bs)
    → 0 < length bs
    → let g = with_room r (length bs) in
      feed_wbuffer r bs ≡ some (poured g (first_piece g (length bs)) bs, length bs)
feed_wbuffer-poured r bs v h p =
    let (w, room) = with_room-HasRoom r (length bs) v h in
    feed_wbuffer-step r (with_room r (length bs)) bs _ p (ensure_space-with_room r (length bs) h)
      (copy_in-poured (with_room r (length bs)) bs w room)

-- Where the contents of a valid buffer lie in one piece, or its vector has room for the new bytes and
-- they reach no further than the end of the vector from `hi`, or both indices are 0, `feed_wbuffer`
-- ends without a fault, takes every byte, keeps the buffer valid, and puts the bytes, in their order,
-- behind what the buffer held.
pub feed_wbuffer-append :
    (r : Ring ℕ) (bs : List ℕ)
    → IsValid r
    → CanAppend r (length bs)
    → (g : Ring ℕ) × (feed_wbuffer r bs ≡ some (g, length bs))
      × IsValid g
      × (contents 0 g ≡ contents 0 r ++ bs)
unfolding feed_wbuffer
feed_wbuffer-append r [] v h = (r, refl, v, sym (append-nil (contents 0 r)))
feed_wbuffer-append r (b ∷ bs) v h =
    let n : ℕ = length (b ∷ bs) in
    let g : Ring ℕ = with_room r n in
    let (w, room) = with_room-HasRoom r n v h in
    (
      poured g (first_piece g n) (b ∷ bs),
      feed_wbuffer-poured r (b ∷ bs) v h (omega arith),
      poured-IsValid g (first_piece g n) (b ∷ bs) w room,
      contents-poured g (first_piece g n) (b ∷ bs) w room
          ∙ ap (λ xs. xs ++ b ∷ bs) (contents-with_room r n v),
    )
