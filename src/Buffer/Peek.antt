-- ===== src/Buffer/Peek.antt =====
-- `drain_rbuffer` of `Buffer` (src/net/Buffer.h): what it copies to the caller.
use netyo.Prelude.Int.{pos, to_int}
use netyo.Prelude.{
  ◌^◌, ◌>>=◌, ltb, ◌&&◌, Bool-cases, if◌then◌else◌, ℕ, ◌+◌, ◌-◌, ◌≤◌, ◌<◌, ◌≡◌, ◌∙◌, sym, ap, [],
  ◌++◌, arith, length, take, drop, length-take, dec_lt, ℕ_discrete, take-nil, take-append-take,
  take-all, append-nil, ◌⊎◌, some, refl, inl, inr, min, ◌≢◌,
}
use netyo.Ring.{Ring, vsize, size, contents}
use netyo.Ring.Entries.{IsValid, length-contents}
use netyo.Buffer.{read_span, drain_rbuffer}
use netyo.Buffer.Spans.{first_span, second_span}

read_first :
    (r : Ring ℕ) (n : ℕ)
    → IsValid r
    → n ≤ size r
    → r.lo + n ≤ vsize r
    → read_span r.vec r.lo n ≡ some (take n (contents 0 r))
unfolding read_span
read_first r n v h fits = ground (arith, first_span 0 r n v h fits)

read_second :
    (r : Ring ℕ) (m n : ℕ)
    → IsValid r
    → m ≡ vsize r - r.lo
    → m + n ≤ size r
    → r.hi < r.lo
    → read_span r.vec 0 n ≡ some (take n (drop m (contents 0 r)))
unfolding read_span
read_second r m n v e h w = ground (arith, second_span 0 r m n v e h)

take-min : (n : ℕ) (r : Ring ℕ) → take (min n (size r)) (contents 0 r) ≡ take n (contents 0 r)
take-min n r = elim (dec_lt n (size r)) [
  | yes p ↦ ap (λ k. take k (contents 0 r)) (omega (arith, p))
  | no p ↦
      take-all (min n (size r)) (contents 0 r) (omega (arith, p, length-contents 0 r))
      ∙ sym (take-all n (contents 0 r) (omega (arith, p, length-contents 0 r)))
]

nothing_copied :
    (r : Ring ℕ) (n : ℕ)
    → (n ≡ 0) ⊎ (size r ≡ 0)
    → (take n (contents 0 r) ≡ []) × (min n (size r) ≡ 0)
nothing_copied r n (inl e) = (rw e, omega arith)
nothing_copied r n (inr e) =
    let none_left : contents 0 r ≡ [] =
      sym (take-all 0 (contents 0 r) (omega (arith, e, length-contents 0 r))) in
    (rw none_left (take-nil ℕ n), omega (arith, e))

peek_nothing : (r : Ring ℕ) (n : ℕ) → (n ≡ 0) ⊎ (size r ≡ 0) → drain_rbuffer r n ≡ some ([], 0)
unfolding drain_rbuffer
peek_nothing r n h = ground arith

peek_nothing-take :
    (r : Ring ℕ) (n : ℕ)
    → (n ≡ 0) ⊎ (size r ≡ 0)
    → drain_rbuffer r n ≡ some (take n (contents 0 r), min n (size r))
peek_nothing-take r n h = let (e, f) = nothing_copied r n h in rw (e, f) (peek_nothing r n h)

peek_one_piece :
    (r : Ring ℕ) (n : ℕ)
    → IsValid r
    → n ≢ 0
    → size r ≢ 0
    → r.lo ≤ r.hi
    → drain_rbuffer r n ≡ some (take n (contents 0 r), min n (size r))
unfolding drain_rbuffer
peek_one_piece r n v p q h = ground (arith, read_first r (min n (size r)) v, take-min n r)

to_int-small : (n : ℕ) → n < 2 ^ 31 → to_int n ≡ pos n
unfolding to_int
to_int-small n h = ground (arith, h)

-- The copy of contents that go round the end, where `len1` is no more than an `int` holds.
peek_wrapped :
    (r : Ring ℕ) (n m : ℕ)
    → m ≡ vsize r - r.lo
    → m < 2 ^ 31
    → n ≢ 0
    → size r ≢ 0
    → r.hi < r.lo
    → drain_rbuffer r n ≡ (do
      as1 ← read_span r.vec r.lo m
      as2 ← if ltb 0 (min n (size r) - m) then read_span r.vec 0 (min n (size r) - m) else some []
      some (as1 ++ as2, min n (size r)))
unfolding drain_rbuffer
peek_wrapped r n m e i p q w =
    let len1 : to_int (vsize r - r.lo) ≡ pos m =
      to_int-small (vsize r - r.lo) (omega (arith, e, i)) ∙ ap pos (sym e) in
    rw len1 (ground (arith, p, q, w))

-- The two pieces of a longer copy make up what is asked for.
peek_two_pieces :
    (r : Ring ℕ) (n m : ℕ)
    → IsValid r
    → m ≡ vsize r - r.lo
    → m < 2 ^ 31
    → n ≢ 0
    → r.hi < r.lo
    → m ≤ n
    → drain_rbuffer r n
      ≡ some (
        take m (contents 0 r) ++ take (min n (size r) - m) (drop m (contents 0 r)),
        min n (size r),
      )
peek_two_pieces r n m v e i p w h = rw (peek_wrapped r n m e i p (λ z. ground (arith, v, w, z)) w) (
    ground (
      arith,
      read_first r m v,
      read_second r m (min n (size r) - m) v e,
      ap (λ k. take k (drop m (contents 0 r))) {x = min n (size r) - m} {y = 0},
    ))

peek_wrapped-take :
    (r : Ring ℕ) (n : ℕ)
    → IsValid r
    → vsize r - r.lo < 2 ^ 31
    → n ≢ 0
    → r.hi < r.lo
    → vsize r - r.lo ≤ n
    → drain_rbuffer r n ≡ some (take n (contents 0 r), min n (size r))
peek_wrapped-take r n v i p w h =
    let m : ℕ = vsize r - r.lo in
    let all : m + (min n (size r) - m) ≡ min n (size r) = ground arith in
    rw (
      peek_two_pieces r n m v refl i p w h,
      take-append-take m (min n (size r) - m),
      all,
      take-min n r,
    )

-- `drain_rbuffer` copies the first `len` bytes of a valid buffer, or all it holds if these are fewer,
-- and returns their number, unless the contents go round the end of the vector and `len` is less than
-- what lies before the end.
pub drain_rbuffer-take :
    (r : Ring ℕ) (n : ℕ)
    → IsValid r
    → vsize r - r.lo < 2 ^ 31
    → (n < vsize r - r.lo → r.lo ≤ r.hi)
    → drain_rbuffer r n ≡ some (take n (contents 0 r), min n (size r))
drain_rbuffer-take r n v i h = elim (ℕ_discrete n 0) [
  | yes e ↦ peek_nothing-take r n (inl e)
  | no p ↦ elim (ℕ_discrete (size r) 0) [
    | yes e ↦ peek_nothing-take r n (inr e)
    | no q ↦ elim (dec_lt r.hi r.lo) [
      | no w ↦ peek_one_piece r n v p q (omega (arith, w))
      | yes w ↦ peek_wrapped-take r n v i p w (grind (arith, w, h))
    ]
  ]
]

-- Where the contents go round the end and `len` is positive and less than what lies before the end,
-- all of that is copied: more bytes than the caller has room for, and more than are returned.
pub drain_rbuffer-overrun :
    (r : Ring ℕ) (n : ℕ)
    → IsValid r
    → vsize r - r.lo < 2 ^ 31
    → r.hi < r.lo
    → 0 < n
    → n < vsize r - r.lo
    → (drain_rbuffer r n ≡ some (take (vsize r - r.lo) (contents 0 r), n))
      × (n < length (take (vsize r - r.lo) (contents 0 r)))
drain_rbuffer-overrun r n v i w p q =
    rw
      (peek_wrapped r n (vsize r - r.lo) refl i (λ z. omega (arith, z, p))
        (λ z. ground (arith, v, w, z)) w)
      (ground (
        arith,
        read_first r (vsize r - r.lo) v,
        length-take (vsize r - r.lo) (contents 0 r),
        length-contents 0 r,
        append-nil (take (vsize r - r.lo) (contents 0 r)),
      ))

-- The number of bytes that are asked for or, where the contents go round the end and this is positive
-- and less than what lies before the end, all of that.
abbrev pub copied : Ring ℕ → ℕ → ℕ
copied r n = let m = vsize r - r.lo in if ltb r.hi r.lo && ltb 0 n && ltb n m then m else n

-- On a valid buffer with less than 2^31 bytes from `lo` to the end of its vector, as an `int` holds,
-- `drain_rbuffer` does not fault and returns `len`, or the size if that is less. It
-- copies the first `len` bytes of the contents, or all if they are fewer; but where the contents go
-- round the end and `len` is positive and less than what lies before the end, it copies all of that.
pub drain_rbuffer-copied :
    (r : Ring ℕ) (n : ℕ)
    → IsValid r
    → vsize r - r.lo < 2 ^ 31
    → drain_rbuffer r n ≡ some (take (copied r n) (contents 0 r), min n (size r))
drain_rbuffer-copied r n v i =
    elim (Bool-cases (ltb r.hi r.lo && ltb 0 n && ltb n (vsize r - r.lo))) [
      | inl q ↦ rw q (
          ground (
            arith,
            q,
            drain_rbuffer-overrun r n v i (ground (arith, q)) (ground (arith, q))
                (ground (arith, q)),
          ))
      | inr q ↦ rw q (elim (ℕ_discrete n 0) [
        | yes e ↦ peek_nothing-take r n (inl e)
        | no p ↦ drain_rbuffer-take r n v i λ h. ground (arith, q, p, h)
      ])
    ]
