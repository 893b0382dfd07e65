-- ===== src/Ring/Traverse.antt =====
-- What the iterators of `RingBuffer` (src/net/Buffer.h) read and write.
use netyo.Prelude.{
  >>=-assoc, ℕ, zero, suc, ◌+◌, ◌-◌, ◌<◌, ◌≡◌, ◌∙◌, ap, List, [], ◌∷◌, arith, get_or, if◌then◌else◌,
  leb, length-overwrite, ℕ_discrete, Option-cases, get_or-cons, some, none, ◌>>=◌, Option, refl,
  Bool-cases, inl, inr, ◌≢◌,
}
use netyo.Prelude.Int.{pos}
use netyo.Ring.{
  Ring, vsize, size, contents, full, expand, grow, push_back, mod_index, read_at, write_at,
}
use netyo.Ring.Entries.{IsValid, contents_ext, get_or-contents, length-contents}
use netyo.Ring.Iterator.{
  Index, own, ref_lo, ref_hi, begin, end, reader, writer, increment, differs, deref, store,
}

module _ {A : Type 0} (d : A) where
  -- One pass, as a caller makes it: `for (; first != last; ++first) out.push_back(*first)`, on fuel.
  unfoldable pub pass : ℕ → Ring A → Index → Index → Option (List A × Ring A)
  pass zero r first last = none
  pass (suc fuel) r first last =
      let rest = (do
        v ← deref d r first
        let (r', first') = increment r first
        out ← pass fuel r' first' last
        some (v ∷ out.0, out.1)) in
      if differs r first last then rest else some ([], r)

  -- The ring from an index on, and from the next one.
  abbrev from : Ring A → ℕ → Ring A
  from r i = record r { lo = i }

  abbrev rest_of : Ring A → Ring A
  rest_of r = from r (if leb (vsize r) (r.lo + 1) then r.lo + 1 - vsize r else r.lo + 1)

  rest_of-IsValid :
      (r : Ring A) → IsValid r → r.lo ≢ r.hi → IsValid (rest_of r) × (size (rest_of r) + 1 ≡ size r)
  rest_of-IsValid r v n = ground arith

  contents-rest_of :
      (r : Ring A)
      → IsValid r
      → r.lo ≢ r.hi
      → contents d r ≡ get_or r.vec r.lo d ∷ contents d (rest_of r)
  contents-rest_of r v n =
      contents_ext d r (get_or r.vec r.lo d ∷ contents d (rest_of r))
        (omega (arith, rest_of-IsValid r v n, length-contents d (rest_of r)))
        λ k p. ground (
          arith,
          rest_of-IsValid r v n,
          get_or-cons (get_or r.vec r.lo d) (contents d (rest_of r)) k d,
          get_or-contents d (rest_of r) (k - 1),
        )

  contents-none : (r : Ring A) → r.lo ≡ r.hi → contents d r ≡ []
  contents-none r e = contents_ext d r [] (ground (arith, e)) λ k p. ground (arith, e, p)

  pass-peek :
      (fuel : ℕ) (r : Ring A) (i : ℕ)
      → IsValid (from r i)
      → size (from r i) < fuel
      → pass fuel r (own i) (own r.hi) ≡ some (contents d (from r i), r)
  unfolding pass deref increment read_at mod_index
  pass-peek zero r i v h = absurd (omega arith)
  pass-peek (suc fuel) r i v h = elim (ℕ_discrete i r.hi) [
    | yes e ↦ ground (arith, contents-none (from r i) e)
    | no n ↦ ground (
      arith,
      rest_of-IsValid (from r i) v n,
      contents-rest_of (from r i) v n,
      pass-peek fuel r (rest_of (from r i)).lo,
    )
  ]

  pass-read :
      (fuel : ℕ) (r : Ring A)
      → IsValid r
      → size r < fuel
      → pass fuel r ref_lo ref_hi ≡ some (contents d r, from r r.hi)
  unfolding pass deref increment read_at mod_index
  pass-read zero r v h = absurd (omega arith)
  pass-read (suc fuel) r v h = elim (ℕ_discrete r.lo r.hi) [
    | yes e ↦ ground (arith, contents-none r e)
    | no n ↦
        ground (arith, rest_of-IsValid r v n, contents-rest_of r v n, pass-read fuel (rest_of r))
  ]

  store_at_hi :
      (g : Ring A) (v : A)
      → (write_at g.vec g.hi (v ∷ []) >>= λ vec.
          some (record g { vec = vec }) >>= λ w. some (increment w ref_hi).0)
        ≡ (write_at g.vec g.hi (v ∷ []) >>= λ vec.
            some (record g { vec = vec; hi = mod_index (vsize g) (pos (g.hi + 1)) }))
  unfolding increment write_at mod_index
  store_at_hi g v = ground (arith, length-overwrite g.vec g.hi (v ∷ []))

  -- An assignment through the iterator of `writer()` and an increment of it do what `push_back` does,
  -- on every ring, faults included.
  store-increment :
      (r : Ring A) (v : A)
      → (store d r writer.0 v >>= λ g. some (increment g writer.0).0) ≡ push_back d r v
  unfolding store push_back grow
  store-increment r v = simp >>=-assoc (elim (Bool-cases (full r)) [
    | inl q ↦ elim (Option-cases (expand d r)) [
      | inl e ↦ rw (q, e) refl
      | inr (g, e) ↦ rw (q, e) (store_at_hi g v)
    ]
    | inr q ↦ rw q (store_at_hi r v)
  ])

  -- A pass from `begin()` to `end()` over a valid ring, and one over the pair of `reader()`, end without
  -- a fault and give the contents. The first leaves the ring as it is; the second leaves it empty, and
  -- a second pass over the same pair then gives nothing. An assignment through the iterator of
  -- `writer()` and an increment of it do what `push_back` does, faults included.
  pub pass-contents :
      (r : Ring A) (v : A)
      → IsValid r
      → let fuel = size r + 1 in
        (pass fuel r (begin r) (end r) ≡ some (contents d r, r))
        × (pass fuel r reader.0 reader.1 ≡ some (contents d r, from r r.hi))
        × (pass fuel (from r r.hi) reader.0 reader.1 ≡ some ([], from r r.hi))
        × ((store d r writer.0 v >>= λ g. some (increment g writer.0).0) ≡ push_back d r v)
  pass-contents r v i = (
    pass-peek (size r + 1) r r.lo i (omega arith),
    pass-read (size r + 1) r i (omega arith),
    pass-read (size r + 1) (from r r.hi) (omega (arith, i)) (ground arith)
        ∙ ap (λ l. some (l, from r r.hi)) (contents-none (from r r.hi) refl),
    store-increment r v,
  )
