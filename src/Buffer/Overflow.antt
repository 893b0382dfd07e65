-- ===== src/Buffer/Overflow.antt =====
-- Where `feed_wbuffer` of `Buffer` (src/net/Buffer.h) writes past the end of the vector.
use netyo.Prelude.{
  ℕ, ◌+◌, ◌≤◌, ◌<◌, ◌≡◌, ◌∙◌, sym, ap, List, arith, length, some, none, refl, inr, subst,
}
use netyo.Ring.{Ring, vsize, size, ensure_space, mod_index, write_at, new_ring}
use netyo.Ring.Entries.{IsValid}
use netyo.Ring.Reserve.{grown, reserve-grown, grown-indices, length-resize}
use netyo.Posix.{Socket}
use netyo.Buffer.{copy_in, feed_wbuffer, drain_wbuffer, Drained}
use netyo.Buffer.Pour.{length-spread}
use netyo.Buffer.Append.{with_room, feed_wbuffer-poured}
use netyo.Buffer.Drain.{Outcome, progress, refused, cut_short, drain_wbuffer-Outcome}

feed_wbuffer-fault :
    (r g : Ring ℕ) (bs : List ℕ)
    → 0 < length bs
    → ensure_space 0 r (length bs) ≡ some g
    → copy_in g bs ≡ none
    → feed_wbuffer r bs ≡ none
unfolding feed_wbuffer
feed_wbuffer-fault r g bs p e f = ground arith

copy_in-fault :
    (g : Ring ℕ) (bs : List ℕ) → g.hi ≤ g.lo → vsize g < g.hi + length bs → copy_in g bs ≡ none
unfolding copy_in write_at
copy_in-fault g bs h p = ground arith

-- An empty buffer whose indices stand at 2 or more, so near the end of the vector that the new bytes
-- do not fit behind `hi`: `feed_wbuffer` writes past the end, whether or not the vector grows first.
feed_wbuffer-overflow :
    (r : Ring ℕ) (bs : List ℕ)
    → IsValid r
    → r.lo ≡ r.hi
    → 2 ≤ r.hi
    → vsize r < r.hi + length bs
    → feed_wbuffer r bs ≡ none
feed_wbuffer-overflow r bs v e two past =
    feed_wbuffer-fault r (grown 0 r (size r + length bs)) bs (omega arith)
      (unfold ensure_space in (reserve-grown 0 r (size r + length bs) (omega arith)))
      (copy_in-fault (grown 0 r (size r + length bs)) bs
        (omega (arith, grown-indices 0 r (size r + length bs)))
        (ground (arith, length-resize 0 r.vec (size r + length bs + 1))))

new_ring-IsValid : IsValid (new_ring {A = ℕ} 0)
unfolding new_ring
new_ring-IsValid = omega arith

-- A first send of 7 bytes or more leaves a vector with one byte to spare.
first_send :
    (bs : List ℕ) (r : Ring ℕ)
    → 7 ≤ length bs
    → feed_wbuffer (new_ring 0) bs ≡ some (r, length bs)
    → IsValid r × (r.lo ≡ 0) × (r.hi ≡ length bs) × (vsize r ≡ length bs + 1)
unfolding new_ring mod_index
first_send bs r h e = ground (
  arith,
  feed_wbuffer-poured (new_ring 0) bs new_ring-IsValid (inr (inr (refl, refl))),
  length-spread (with_room (new_ring 0) (length bs)).vec 0 (length bs) bs,
  length-resize 0 (new_ring {A = ℕ} 0).vec (length bs + 1),
)

some_eq : {m n : ℕ} → some m ≡ some n → m ≡ n
some_eq e = cc

size-zero : (r : Ring ℕ) → IsValid r → size r ≡ 0 → r.lo ≡ r.hi
size-zero r v e = ground arith

empty_at_hi :
    (c : Socket) (k : c.State) (r : Ring ℕ) (out : Drained c)
    → Outcome c k r out
    → out.2 ≡ some 0
    → IsValid out.1 × (out.1.vec ≡ r.vec) × (out.1.hi ≡ r.hi) × (out.1.lo ≡ out.1.hi)
empty_at_hi c k r out (progress m e (p, q) v s _ _) f =
    (v, p, q, size-zero out.1 v (omega (arith, s, some_eq (sym e ∙ f))))
empty_at_hi c k r out (refused e _ _) f = cc
empty_at_hi c k r out (cut_short e _ _ _) f = cc

-- A new buffer takes 7 bytes or more, and `drain_wbuffer` then sends them all: the next
-- `feed_wbuffer` of 2 bytes or more writes past the end of the vector.
pub second_send-overflow :
    (c : Socket) (k k' : c.State) (bs cs : List ℕ) (r r' : Ring ℕ)
    → 7 ≤ length bs
    → 2 ≤ length cs
    → feed_wbuffer (new_ring 0) bs ≡ some (r, length bs)
    → drain_wbuffer c k r ≡ some (k', r', some 0)
    → feed_wbuffer r' cs ≡ none
second_send-overflow c k k' bs cs r r' h g e f =
    let (v, lo, hi, s) = first_send bs r h e in
    let (out, d, o) = drain_wbuffer-Outcome c k r v in
    let same : out ≡ (k', r', some 0) = cc in
    let (v', p, q, l) = empty_at_hi c k r (k', r', some 0) (subst (Outcome c k r) same o) refl in
    feed_wbuffer-overflow r' cs v' l (omega (arith, q, hi)) (omega (arith, ap length p, s, q, hi))
