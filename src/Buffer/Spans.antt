-- ===== src/Buffer/Spans.antt =====
-- The pieces of the vector that hold the contents of a `Buffer` (src/net/Buffer.h), before the end of
-- the vector and after it.
use netyo.Prelude.{
  ℕ, ◌+◌, ◌-◌, ◌≤◌, ◌<◌, ◌≡◌, arith, length, take, drop, length-take, length-drop, get_or-take,
  get_or-drop, list_ext,
}
use netyo.Ring.{Ring, vsize, size, contents}
use netyo.Ring.Entries.{IsValid, get_or-contents, length-contents}

module _ {A : Type 0} (d : A) where
  -- What lies in one piece before the end.
  pub first_span :
      (r : Ring A) (n : ℕ)
      → IsValid r
      → n ≤ size r
      → r.lo + n ≤ vsize r
      → take n (drop r.lo r.vec) ≡ take n (contents d r)
  first_span r n v h fits =
      list_ext d (take n (drop r.lo r.vec)) (take n (contents d r))
        (omega (arith, lengths, length-take n (contents d r), length-contents d r))
        λ k p.
          let q : k < n = omega (arith, lengths) in
          ground (
            arith,
            q,
            get_or-take n (drop r.lo r.vec) k d,
            get_or-drop r.lo r.vec k d,
            get_or-take n (contents d r) k d,
            get_or-contents d r k,
          )
    where
      lengths : length (take n (drop r.lo r.vec)) ≡ n
      lengths = omega (arith, length-take n (drop r.lo r.vec), length-drop r.lo r.vec)

  -- What lies after the end, behind the `m` entries before it.
  pub second_span :
      (r : Ring A) (m n : ℕ)
      → IsValid r
      → m ≡ vsize r - r.lo
      → m + n ≤ size r
      → take n r.vec ≡ take n (drop m (contents d r))
  second_span r m n v e h =
      list_ext d (take n r.vec) (take n (drop m (contents d r)))
        (omega (
          arith,
          lengths,
          length-take n (drop m (contents d r)),
          length-drop m (contents d r),
          length-contents d r,
        ))
        λ k p.
          let q : k < n = omega (arith, lengths) in
          ground (
            arith,
            q,
            get_or-take n r.vec k d,
            get_or-take n (drop m (contents d r)) k d,
            get_or-drop m (contents d r) k d,
            get_or-contents d r (m + k),
          )
    where
      lengths : length (take n r.vec) ≡ n
      lengths = ground (arith, length-take n r.vec)
