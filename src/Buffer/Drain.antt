-- ===== src/Buffer/Drain.antt =====
-- `drain_wbuffer` of `Buffer` (src/net/Buffer.h): what reaches the socket and what stays.
use netyo.Prelude.{
  ℕ, ◌+◌, ◌-◌, ◌≤◌, ◌<◌, ◌≡◌, ◌∙◌, sym, ap, List, ◌++◌, arith, take, drop, length-take,
  append_assoc, dec_lt, ℕ_discrete, Option-cases, take-take, take-nil, drop-nil, take-append-take,
  append-nil, ◌⊎◌, some, none, refl, inl, inr,
}
use netyo.Ring.{Ring, vsize, size, contents}
use netyo.Ring.Entries.{IsValid}
use netyo.Posix.{Socket}
use netyo.Buffer.{Drained, drained, drain_first, drain_second, drain_wbuffer}
use netyo.Buffer.Writes.{
  advanced-IsValid, contents-advanced, contents-nil, first-none, first-some, second-end,
  second-none, second-some, read_first, read_second,
}

module _ (c : Socket) where
  open c use {State, write, sent, write_some, write_none}

  -- What a call of `drain_wbuffer` may come to, at a connection `k` and a buffer `r`.
  pub data Outcome (k : State) (r : Ring ℕ) (out : Drained c) : Type 0 where
    -- It returns the number of bytes that are left; the others have been sent, in their order.
    progress :
        (m : ℕ)
        → out.2 ≡ some m
        → (out.1.vec ≡ r.vec) × (out.1.hi ≡ r.hi)
        → IsValid out.1
        → m ≡ size out.1
        → sent out.0 ≡ sent k ++ take (size r - m) (contents 0 r)
        → contents 0 out.1 ≡ drop (size r - m) (contents 0 r)
        → Outcome k r out
    -- It fails at the first write: nothing has been sent and the buffer is unchanged.
    refused : out.2 ≡ none → out.1 ≡ r → sent out.0 ≡ sent k → Outcome k r out
    -- It fails at the second write: the buffer is unchanged, but what lay before the end of the vector
    -- has been sent.
    cut_short :
        out.2 ≡ none
        → out.1 ≡ r
        → r.hi < r.lo
        → sent out.0 ≡ sent k ++ take (vsize r - r.lo) (contents 0 r)
        → Outcome k r out

  -- `n` bytes have been sent since `k`, and the call ends with them.
  drained-Outcome :
      (k k' : State) (r : Ring ℕ) (n : ℕ)
      → IsValid r
      → n ≤ size r
      → sent k' ≡ sent k ++ take n (contents 0 r)
      → Outcome k r (drained c r k' n)
  unfolding drained
  drained-Outcome k k' r n v h e =
      let back : size r - (size r - n) ≡ n = omega arith in
      progress (size r - n) refl (refl, refl) (advanced-IsValid r n v h).0
        (sym (advanced-IsValid r n v h).1) (rw back e) (rw back (contents-advanced r n v h))

  -- The first write alone.
  after_first :
      (k : State) (r : Ring ℕ) (len1 n : ℕ)
      → IsValid r
      → len1 ≤ size r
      → (write k (take len1 (contents 0 r))).1 ≡ some n
      → (n ≤ len1) × (sent (write k (take len1 (contents 0 r))).0 ≡ sent k ++ take n (contents 0 r))
  after_first k r len1 n v h e =
      let (p, q) = write_some k (take len1 (contents 0 r)) n e in
      let short : n ≤ len1 = omega (arith, p, length-take len1 (contents 0 r)) in
      (short, q ∙ ap (λ xs. sent k ++ xs) (take-take n len1 (contents 0 r) short))

  one_piece :
      (k : State) (r : Ring ℕ)
      → IsValid r
      → r.lo < r.hi
      → (out : Drained c) × (drain_first c r (r.hi - r.lo) 0 k ≡ some out) × Outcome k r out
  one_piece k r v h =
      let len1 : ℕ = r.hi - r.lo in
      let bs : List ℕ = take len1 (contents 0 r) in
      let read = read_first c r len1 v (ground arith) (omega arith) in
      elim (Option-cases (write k bs).1) [
        | inl e ↦ (
          ((write k bs).0, r, none),
          first-none c k r len1 0 bs (omega arith) read e,
          refused refl refl (write_none k bs e),
        )
        | inr (n, e) ↦
            let (short, s) = after_first k r len1 n v (ground arith) e in
            (
              drained c r (write k bs).0 n,
              first-some c k r len1 0 bs n (omega arith) read e
                  ∙ second-end c (write k bs).0 r len1 0 n (inr refl),
              drained-Outcome k (write k bs).0 r n v (ground (arith, short)) s,
            )
      ]

  -- The second write, once the first has taken all that lies before the end.
  two_pieces :
      (k k' : State) (r : Ring ℕ)
      → IsValid r
      → r.hi < r.lo
      → 0 < r.hi
      → sent k' ≡ sent k ++ take (vsize r - r.lo) (contents 0 r)
      → (out : Drained c) × (drain_second c r (vsize r - r.lo) r.hi k' (vsize r - r.lo) ≡ some out)
        × Outcome k r out
  two_pieces k k' r v w p s =
      let m : ℕ = vsize r - r.lo in
      let bs : List ℕ = take r.hi (drop m (contents 0 r)) in
      elim (Option-cases (write k' bs).1) [
        | inl e ↦ (
          ((write k' bs).0, r, none),
          second-none c k' r m r.hi bs p (read_second c r v w) e,
          cut_short refl refl w (write_none k' bs e ∙ s),
        )
        | inr (n, e) ↦
            let (l, q) = write_some k' bs n e in
            let short : n ≤ r.hi = omega (arith, l, length-take r.hi (drop m (contents 0 r))) in
            (
              drained c r (write k' bs).0 (m + n),
              second-some c k' r m r.hi bs n p (read_second c r v w) e,
              drained-Outcome k (write k' bs).0 r (m + n) v (ground (arith, short)) (
                  q
                  ∙ rw (s, take-take n r.hi (drop m (contents 0 r)) short, append_assoc)
                      (ap (λ xs. sent k ++ xs) (take-append-take m n (contents 0 r)))),
            )
      ]

  stop_after :
      (k k' : State) (r : Ring ℕ) (n : ℕ)
      → IsValid r
      → n ≤ size r
      → sent k' ≡ sent k ++ take n (contents 0 r)
      → ((n ≡ vsize r - r.lo → ⊥) ⊎ (r.hi ≡ 0))
      → (out : Drained c) × (drain_second c r (vsize r - r.lo) r.hi k' n ≡ some out)
        × Outcome k r out
  stop_after k k' r n v short s h = (
    drained c r k' n,
    second-end c k' r (vsize r - r.lo) r.hi n h,
    drained-Outcome k k' r n v short s,
  )

  -- What follows a first write of `n` bytes.
  after_write :
      (k k' : State) (r : Ring ℕ) (n : ℕ)
      → IsValid r
      → r.hi < r.lo
      → n ≤ vsize r - r.lo
      → sent k' ≡ sent k ++ take n (contents 0 r)
      → (out : Drained c) × (drain_second c r (vsize r - r.lo) r.hi k' n ≡ some out)
        × Outcome k r out
  after_write k k' r n v w short s =
      let m : ℕ = vsize r - r.lo in
      let stop = stop_after k k' r n v (ground (arith, short)) s in
      elim (dec_lt 0 r.hi) [
        | no p ↦ stop (inr (omega (arith, p)))
        | yes p ↦ elim (ℕ_discrete n m) [
          | no q ↦ stop (inl q)
          | yes q ↦ rw q (two_pieces k k' r v w p (s ∙ ap (λ l. sent k ++ take l (contents 0 r)) q))
        ]
      ]

  round_the_end :
      (k : State) (r : Ring ℕ)
      → IsValid r
      → r.hi < r.lo
      → (out : Drained c) × (drain_first c r (vsize r - r.lo) r.hi k ≡ some out) × Outcome k r out
  round_the_end k r v w =
      let m : ℕ = vsize r - r.lo in
      let bs : List ℕ = take m (contents 0 r) in
      let read = read_first c r m v (ground arith) (omega arith) in
      elim (Option-cases (write k bs).1) [
        | inl e ↦ (
          ((write k bs).0, r, none),
          first-none c k r m r.hi bs (omega arith) read e,
          refused refl refl (write_none k bs e),
        )
        | inr (n, e) ↦
            let (short, s) = after_first k r m n v (ground arith) e in
            let (out, d, o) = after_write k (write k bs).0 r n v w short s in
            (out, first-some c k r m r.hi bs n (omega arith) read e ∙ d, o)
      ]

  -- `drain_wbuffer` ends without a fault on every valid buffer and every answer of the socket. It
  -- returns the number of bytes left, after sending the others in order and dropping them; or it fails
  -- with the buffer unchanged, and then nothing has been sent unless the second write failed.
  pub drain_wbuffer-Outcome :
      (k : State) (r : Ring ℕ)
      → IsValid r
      → (out : Drained c) × (drain_wbuffer c k r ≡ some out) × Outcome k r out
  unfolding drain_wbuffer
  drain_wbuffer-Outcome k r v = elim (dec_lt r.lo r.hi) [
    | yes h ↦ let (out, d, o) = one_piece k r v h in (out, ground (arith, d), o)
    | no h ↦ elim (ℕ_discrete r.lo r.hi) [
      | yes e ↦ (
        (k, r, some 0),
        ground arith,
        progress 0 refl (refl, refl) v (ground arith)
            (rw (contents-nil r e, take-nil ℕ (size r - 0)) (sym (append-nil (sent k))))
            (rw (contents-nil r e) (sym (drop-nil ℕ (size r - 0)))),
      )
      | no ne ↦ let (out, d, o) = round_the_end k r v (omega arith) in (out, ground (arith, d), o)
    ]
  ]
