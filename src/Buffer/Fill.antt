-- ===== src/Buffer/Fill.antt =====
-- `feed_rbuffer` of `Buffer` (src/net/Buffer.h): it ends, and what it adds to a buffer whose contents
-- start at the index 0.
use netyo.Prelude.{
  ℕ, zero, suc, ◌+◌, ◌-◌, ◌*◌, ◌≤◌, ◌<◌, ◌≡◌, ◌∙◌, sym, ap, List, [], ◌∷◌, ◌++◌, arith, length,
  if◌then◌else◌, leb, length-overwrite, length-append, take, length-take, length-drop, append_assoc,
  dec_lt, append-nil, ◌⊎◌, some, none, Option, refl, Bool-cases, inl, inr, ◌/◌,
}
use netyo.Ring.{Ring, vsize, size, capacity, contents, mod_index, write_at, expand}
use netyo.Ring.Entries.{IsValid}
use netyo.Ring.Reserve.{grown, reserve-grown, grown-room, grown-indices, contents-grown}
use netyo.Ring.Wrapped.{reserve_forgets}
use netyo.Posix.{Socket}
use netyo.Buffer.{make_space, free_spans, scatter, feed_loop, feed_rbuffer}
use netyo.Buffer.Pour.{length-spread, poured, contents-poured}

-- The vector after `make_space`, where the contents start at 0.
abbrev spaced : Ring ℕ → Ring ℕ
spaced r = if leb (capacity r - size r) (capacity r / 4) then grown 0 r (2 * capacity r) else r

make_space-spaced : (r : Ring ℕ) → IsValid r → r.lo ≤ r.hi → make_space r ≡ some (spaced r)
unfolding make_space expand
make_space-spaced r v h = ground (arith, reserve-grown 0 r (2 * capacity r))

spaced-IsValid :
    (r : Ring ℕ) → IsValid r → IsValid (spaced r) × ((spaced r).lo ≡ r.lo) × ((spaced r).hi ≡ r.hi)
spaced-IsValid r v =
    ground (arith, grown-room 0 r (2 * capacity r) v, grown-indices 0 r (2 * capacity r))

contents-spaced : (r : Ring ℕ) → IsValid r → r.lo ≤ r.hi → contents 0 (spaced r) ≡ contents 0 r
contents-spaced r v h = ground (arith, contents-grown 0 r (2 * capacity r) v)

-- `make_space` never faults, and keeps contents that start at 0.
make_space-total :
    (r : Ring ℕ)
    → IsValid r
    → (g : Ring ℕ) × (make_space r ≡ some g)
      × IsValid g
      × (r.lo ≡ 0 → (g.lo ≡ 0) × (contents 0 g ≡ contents 0 r))
make_space-total r v = elim (dec_lt r.hi r.lo) [
  | no h ↦
      let flat : r.lo ≤ r.hi = omega (arith, h) in
      let (i, lo, _) = spaced-IsValid r v in
      (spaced r, make_space-spaced r v flat, i, λ e. (lo ∙ e, contents-spaced r v flat))
  | yes w ↦
      let (g, e, i, _, _) = reserve_forgets 0 r (2 * capacity r) v w (omega arith) (omega arith) in
      elim (Bool-cases (leb (capacity r - size r) (capacity r / 4))) [
        | inl p ↦
            (g, unfold make_space expand in (ground (arith, p, e)), i, λ z. absurd (omega arith))
        | inr p ↦ (r, unfold make_space in (ground (arith, p)), v, λ z. absurd (omega arith))
      ]
]

-- The two spans are free bytes of the vector.
pub free_spans_bounds :
    (g : Ring ℕ)
    → IsValid g
    → (g.hi + (free_spans g).0 < vsize g)
      × ((free_spans g).1 ≤ g.lo)
      × ((free_spans g).0 + (free_spans g).1 < vsize g)
unfolding free_spans
free_spans_bounds g v = ground arith

free_spans_at_zero : (g : Ring ℕ) → IsValid g → g.lo ≡ 0 → (free_spans g).1 ≡ 0
unfolding free_spans
free_spans_at_zero g v e = ground arith

pub scatter_lem :
    (g : Ring ℕ) (m : ℕ) (bs : List ℕ)
    → IsValid g
    → g.hi + m < vsize g
    → length bs < vsize g
    → (scatter g m bs ≡ some (poured g m bs)) × IsValid (poured g m bs)
unfolding scatter write_at mod_index
scatter_lem g m bs v h k = ground (
  arith,
  length-take m bs,
  length-drop m bs,
  length-overwrite g.vec g.hi (take m bs),
  length-spread g.vec g.hi m bs,
)

poured_at_zero :
    (r g : Ring ℕ) (bs : List ℕ)
    → IsValid g
    → (r.lo ≡ 0 → (g.lo ≡ 0) × (contents 0 g ≡ contents 0 r))
    → length bs ≤ (free_spans g).0 + (free_spans g).1
    → r.lo ≡ 0
    → let s = poured g (free_spans g).0 bs in (s.lo ≡ 0) × (contents 0 s ≡ contents 0 r ++ bs)
poured_at_zero r g bs v keep short z =
    let (lo, e) = keep z in
    let (hi_in, _, _) = free_spans_bounds g v in
    let none_left = free_spans_at_zero g v lo in
    (
      lo,
      contents-poured g (free_spans g).0 bs v (record {
        free = ground (arith, lo, hi_in, none_left, short);
        piece = omega (arith, hi_in);
        turn = inl (omega (arith, none_left, short));
      })
          ∙ ap (λ xs. xs ++ bs) e,
    )

module _ (c : Socket) where
  open c use {State, readv, unread, readv_some, readv_none}

  -- What the loop has done, begun at the connection `k`, the buffer `r` and the count `total`: the
  -- bytes that it took have been counted, and where the contents started at 0 they stand behind them.
  pub record Filled (k : State) (r : Ring ℕ) (total : ℕ) (out : State × Ring ℕ × ℕ) : Type 0 where
    pub bytes : List ℕ
    pub valid : IsValid out.1
    pub taken : unread k ≡ bytes ++ unread out.0
    pub count : out.2 ≡ total + length bytes
    pub behind : r.lo ≡ 0 → (out.1.lo ≡ 0) × (contents 0 out.1 ≡ contents 0 r ++ bytes)

  abbrev asked : Ring ℕ → ℕ
  asked g = (free_spans g).0 + (free_spans g).1

  loop-none :
      (fuel : ℕ) (k : State) (r g : Ring ℕ) (total : ℕ)
      → make_space r ≡ some g
      → (readv k (asked g)).1 ≡ none
      → feed_loop c (suc fuel) k r total ≡ some ((readv k (asked g)).0, g, total)
  unfolding feed_loop
  loop-none fuel k r g total e f = ground arith

  loop-end :
      (fuel : ℕ) (k : State) (r g : Ring ℕ) (total : ℕ)
      → make_space r ≡ some g
      → (readv k (asked g)).1 ≡ some []
      → feed_loop c (suc fuel) k r total ≡ some ((readv k (asked g)).0, g, total)
  unfolding feed_loop
  loop-end fuel k r g total e f = ground arith

  loop-more :
      (fuel : ℕ) (k : State) (r g s : Ring ℕ) (total b : ℕ) (bs : List ℕ)
      → make_space r ≡ some g
      → (readv k (asked g)).1 ≡ some (b ∷ bs)
      → scatter g (free_spans g).0 (b ∷ bs) ≡ some s
      → feed_loop c (suc fuel) k r total
        ≡ feed_loop c fuel (readv k (asked g)).0 s (total + length (b ∷ bs))
  unfolding feed_loop
  loop-more fuel k r g s total b bs e f h = ground arith

  Read-cases :
      (o : Option (List ℕ))
      → (o ≡ none) ⊎ (o ≡ some []) ⊎ ((b : ℕ) × (bs : List ℕ) × (o ≡ some (b ∷ bs)))
  Read-cases none = inl refl
  Read-cases (some []) = inr (inl refl)
  Read-cases (some (b ∷ bs)) = inr (inr (b, bs, refl))

  -- A round that takes nothing is the last.
  last_round :
      (k k' : State) (r g : Ring ℕ) (total : ℕ)
      → IsValid g
      → (r.lo ≡ 0 → (g.lo ≡ 0) × (contents 0 g ≡ contents 0 r))
      → unread k' ≡ unread k
      → Filled k r total (k', g, total)
  last_round k k' r g total v h e = record {
    bytes = [];
    valid = v;
    taken = sym e;
    count = omega arith;
    behind = λ z. ((h z).0, (h z).1 ∙ sym (append-nil (contents 0 r)));
  }

  -- The bytes of a round, and what the later rounds do.
  one_more :
      (k k' : State) (r g s : Ring ℕ) (total : ℕ) (bs : List ℕ) (out : State × Ring ℕ × ℕ)
      → unread k ≡ bs ++ unread k'
      → (r.lo ≡ 0 → (s.lo ≡ 0) × (contents 0 s ≡ contents 0 r ++ bs))
      → Filled k' s (total + length bs) out
      → Filled k r total out
  one_more k k' r g s total bs out e h f = record {
    bytes = bs ++ f.bytes;
    valid = f.valid;
    taken = e ∙ ap (λ xs. bs ++ xs) f.taken ∙ sym (append_assoc bs f.bytes (unread out.0));
    count = omega (arith, f.count, length-append bs f.bytes);
    behind = λ z.
        let (lo, q) = h z in
        let (lo', q') = f.behind lo in
        (lo', q' ∙ ap (λ xs. xs ++ f.bytes) q ∙ append_assoc (contents 0 r) bs f.bytes);
  }

  pub feed_loop-Filled :
      (fuel : ℕ) (k : State) (r : Ring ℕ) (total : ℕ)
      → length (unread k) < fuel
      → IsValid r
      → (out : State × Ring ℕ × ℕ) × (feed_loop c fuel k r total ≡ some out) × Filled k r total out
  feed_loop-Filled zero k r total h v = elim h [ ]
  feed_loop-Filled (suc fuel) k r total h v =
      let (g, e, i, keep) = make_space-total r v in
      elim (Read-cases (readv k (asked g)).1) [
        | inl f ↦ (
          ((readv k (asked g)).0, g, total),
          loop-none fuel k r g total e f,
          last_round k _ r g total i keep (readv_none k (asked g) f),
        )
        | inr (inl f) ↦ (
          ((readv k (asked g)).0, g, total),
          loop-end fuel k r g total e f,
          last_round k _ r g total i keep (sym (readv_some k (asked g) [] f).1),
        )
        | inr (inr (b, bs, f)) ↦
            let (short, split) = readv_some k (asked g) (b ∷ bs) f in
            let (hi_in, _, room) = free_spans_bounds g i in
            let (s, w) = scatter_lem g (free_spans g).0 (b ∷ bs) i hi_in (omega arith) in
            let k' = (readv k (asked g)).0 in
            let t = poured g (free_spans g).0 (b ∷ bs) in
            let less : length (unread k') < fuel =
              omega (arith, ap length split, length-append (b ∷ bs) (unread k')) in
            let (out, d, o) = feed_loop-Filled fuel k' t (total + length (b ∷ bs)) less w in
            (
              out,
              loop-more fuel k r g t total b bs e f s ∙ d,
              one_more k k' r g t total (b ∷ bs) out split
                  (poured_at_zero r g (b ∷ bs) i keep short) o,
            )
      ]

  -- `feed_rbuffer` ends without a fault on every valid buffer, whatever the socket answers, as long as
  -- the bytes that arrive are finitely many; it returns the number of bytes that it took from the
  -- socket, and keeps the buffer valid. Where the contents start at the index 0 the bytes stand
  -- behind them, in the order of their arrival.
  pub feed_rbuffer-Filled :
      (k : State) (r : Ring ℕ)
      → IsValid r
      → (out : State × Ring ℕ × ℕ) × (feed_rbuffer c k r ≡ some out) × Filled k r 0 out
  unfolding feed_rbuffer
  feed_rbuffer-Filled k r v = feed_loop-Filled (length (unread k) + 1) k r 0 (omega arith) v
