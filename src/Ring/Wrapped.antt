-- ===== src/Ring/Wrapped.antt =====
-- `reserve` of `RingBuffer` (src/net/Buffer.h) at a buffer whose contents go round the end of the
-- vector: the part after the wrap is copied over the part before it.
use netyo.Prelude.{
  ◌⊎◌, inl, inr, dec_lt, ℕ_discrete, sym, ◌∙◌, ℕ, ◌+◌, ◌-◌, ◌≤◌, ◌<◌, ◌≡◌, List, arith, length,
  overwrite, get_or-overwrite, length-overwrite, take, drop, length-take, length-drop, get_or-take,
  get_or-drop, some, none,
}
use netyo.Ring.{Ring, vsize, contents, reserve, resize}
use netyo.Ring.Entries.{IsValid, contents_ext, get_or-contents, length-contents}
use netyo.Ring.Reserve.{length-resize, get_or-resize}

module _ {A : Type 0} (d : A) where
  -- The part after the wrap.
  abbrev pub second_part : Ring A → List A
  second_part r = take r.hi r.vec

  abbrev moved : Ring A → ℕ → Ring A
  moved r len =
      let v = resize d r.vec (len + 1) in
      record { vec = overwrite v r.lo (take r.hi v); lo = r.lo; hi = r.lo + r.hi }

  abbrev moved_bytes : Ring A → ℕ → List A
  moved_bytes r len = take r.hi (resize d r.vec (len + 1))

  length-moved_bytes :
      (r : Ring A) (len : ℕ) → IsValid r → vsize r ≤ len → length (moved_bytes r len) ≡ r.hi
  length-moved_bytes r len v h =
      omega (arith, length-take r.hi (resize d r.vec (len + 1)), length-resize d r.vec (len + 1))

  reserve-moved :
      (r : Ring A) (len : ℕ)
      → IsValid r
      → r.hi < r.lo
      → vsize r ≤ len
      → r.lo + r.hi ≤ len + 1
      → reserve d r len ≡ some (moved r len)
  unfolding reserve
  reserve-moved r len v w n fits =
      ground (arith, length-moved_bytes r len, length-resize d r.vec (len + 1))

  reserve-overrun :
      (r : Ring A) (len : ℕ)
      → IsValid r
      → r.hi < r.lo
      → vsize r ≤ len
      → len + 1 < r.lo + r.hi
      → reserve d r len ≡ none
  unfolding reserve
  reserve-overrun r len v w n over =
      ground (arith, length-moved_bytes r len, length-resize d r.vec (len + 1))

  contents-moved :
      (r : Ring A) (len : ℕ)
      → IsValid r
      → r.hi < r.lo
      → vsize r ≤ len
      → r.lo + r.hi ≤ len
      → contents d (moved r len) ≡ drop (vsize r - r.lo) (contents d r)
  contents-moved r len v w n fits =
      contents_ext d (moved r len) (drop (vsize r - r.lo) (contents d r))
        (ground (arith, sizes, length-drop (vsize r - r.lo) (contents d r), length-contents d r))
        λ k p. ground (
          arith,
          sizes,
          get_or-overwrite (resize d r.vec (len + 1)) r.lo (moved_bytes r len) (r.lo + k) d,
          length-moved_bytes r len v n,
          length-resize d r.vec (len + 1),
          get_or-take r.hi (resize d r.vec (len + 1)) k d,
          get_or-resize d r.vec (len + 1) k,
          get_or-drop (vsize r - r.lo) (contents d r) k d,
          get_or-contents d r (vsize r - r.lo + k),
        )
    where
      sizes : vsize (moved r len) ≡ len + 1
      sizes = omega (
        arith,
        length-overwrite (resize d r.vec (len + 1)) r.lo (moved_bytes r len),
        length-resize d r.vec (len + 1),
      )

  pub reserve_forgets :
      (r : Ring A) (len : ℕ)
      → IsValid r
      → r.hi < r.lo
      → vsize r ≤ len
      → r.lo + r.hi ≤ len
      → (g : Ring A) × (reserve d r len ≡ some g)
        × IsValid g
        × (vsize g ≡ len + 1)
        × (contents d g ≡ drop (vsize r - r.lo) (contents d r))
  reserve_forgets r len v w n fits = (
    moved r len,
    reserve-moved r len v w n (omega arith),
    omega (arith, sizes),
    sizes,
    contents-moved r len v w n fits,
  )
    where
      sizes : vsize (moved r len) ≡ len + 1
      sizes = omega (
        arith,
        length-overwrite (resize d r.vec (len + 1)) r.lo (moved_bytes r len),
        length-resize d r.vec (len + 1),
      )

  -- Where the contents go round the end and the vector has to grow, `reserve` does one of three things,
  -- by where the copy of the second part, to `lo`, ends. If it ends before the last slot, the oldest
  -- entries, those before the wrap, are forgotten and the others kept. If it ends with the last slot,
  -- `hi` is left past the vector. If it ends later, it writes out of bounds.
  pub reserve-wrapped :
      (r : Ring A) (len : ℕ)
      → IsValid r
      → r.hi < r.lo
      → vsize r ≤ len
      → ((r.lo + r.hi ≤ len)
          × ((g : Ring A) × (reserve d r len ≡ some g)
              × IsValid g
              × (vsize g ≡ len + 1)
              × (contents d g ≡ drop (vsize r - r.lo) (contents d r))))
        ⊎ ((r.lo + r.hi ≡ len + 1)
            × ((g : Ring A) × (reserve d r len ≡ some g) × (vsize g ≡ len + 1) × (g.hi ≡ vsize g)))
        ⊎ ((len + 1 < r.lo + r.hi) × (reserve d r len ≡ none))
  reserve-wrapped r len v w n = elim (dec_lt len (r.lo + r.hi)) [
    | no f ↦ inl (omega (arith, f), reserve_forgets r len v w n (omega (arith, f)))
    | yes f ↦ elim (ℕ_discrete (r.lo + r.hi) (len + 1)) [
      | yes e ↦
          let long : vsize (moved r len) ≡ len + 1 =
            length-overwrite (resize d r.vec (len + 1)) r.lo (moved_bytes r len)
            ∙ length-resize d r.vec (len + 1) (omega arith) in
          inr (
            inl
              (e, (moved r len, reserve-moved r len v w n (omega (arith, e)), long, e ∙ sym long)))
      | no o ↦
          let past : len + 1 < r.lo + r.hi = omega (arith, f, o) in
          inr (inr (past, reserve-overrun r len v w n past))
    ]
  ]
