-- ===== src/Buffer/Hole.antt =====
-- `feed_rbuffer` of `Buffer` (src/net/Buffer.h) where a read goes round the end of the vector.
use netyo.Prelude.{
  ℕ, ◌+◌, ◌-◌, ◌≤◌, ◌<◌, ◌≡◌, ◌∙◌, sym, List, ◌∷◌, ◌++◌, arith, length, get_or, if◌then◌else◌, ltb,
  length-append, get_or-append, take, drop, length-take, length-drop, get_or-take, get_or-drop,
  dec_lt, ℕ_discrete, get_or-cons, some,
}
use netyo.Ring.{Ring, vsize, size, slot, contents, mod_index}
use netyo.Ring.Entries.{IsValid, contents_ext, get_or-contents, length-contents}
use netyo.Buffer.{free_spans, scatter}
use netyo.Buffer.Pour.{length-spread, get_or-spread, poured}
use netyo.Buffer.Fill.{scatter_lem}

free_spans_flat :
    (g : Ring ℕ)
    → IsValid g
    → g.lo ≤ g.hi
    → ((free_spans g).0 ≡ vsize g - g.hi - 1) × ((free_spans g).1 ≡ g.lo)
unfolding free_spans
free_spans_flat g v h = ground arith

-- What the buffer holds after a read: the first bytes, one stale byte, and the others but the last.
abbrev pub with_hole : Ring ℕ → List ℕ → List ℕ
with_hole g bs =
    let m = vsize g - g.hi - 1 in
    contents 0 g
    ++ (take m bs ++ get_or g.vec (vsize g - 1) 0 ∷ take (length bs - m - 1) (drop m bs))

module _ (g : Ring ℕ) (m : ℕ) (bs : List ℕ) (v : IsValid g) (e : g.hi + m + 1 ≡ vsize g)
    (lo : g.lo ≤ g.hi) (over : m < length bs) (fits : length bs ≤ m + g.lo) where
  size_after : size (poured g m bs) ≡ size g + length bs
  unfolding mod_index
  size_after = ground (arith, length-spread g.vec g.hi m bs)

  hole_tail : List ℕ
  hole_tail = get_or g.vec (vsize g - 1) 0 ∷ take (length bs - m - 1) (drop m bs)

  entry_before :
      (k : ℕ)
      → k < size g
      → get_or (poured g m bs).vec (slot (poured g m bs) k) 0 ≡ get_or g.vec (slot g k) 0
  entry_before k p =
      ground (arith, length-spread g.vec g.hi m bs, get_or-spread g.vec g.hi m bs (slot g k))

  entry_first :
      (k : ℕ)
      → k < m
      → get_or (poured g m bs).vec (slot (poured g m bs) (size g + k)) 0 ≡ get_or bs k 0
  entry_first k p =
      ground (arith, length-spread g.vec g.hi m bs, get_or-spread g.vec g.hi m bs (g.hi + k))

  entry_stale :
      get_or (poured g m bs).vec (slot (poured g m bs) (size g + m)) 0
      ≡ get_or g.vec (vsize g - 1) 0
  entry_stale =
      ground (arith, length-spread g.vec g.hi m bs, get_or-spread g.vec g.hi m bs (vsize g - 1))

  entry_rest :
      (k : ℕ)
      → k + 1 < length bs - m + 0
      → get_or (poured g m bs).vec (slot (poured g m bs) (size g + m + 1 + k)) 0
        ≡ get_or bs (m + k) 0
  entry_rest k p = ground (arith, length-spread g.vec g.hi m bs, get_or-spread g.vec g.hi m bs k)

  get_or-hole :
      (k : ℕ)
      → k < length bs
      → get_or (take m bs ++ hole_tail) k 0 ≡ (
          if ltb k m
          then get_or bs k 0
          else if ltb m k
          then get_or bs (k - 1) 0
          else get_or g.vec (vsize g - 1) 0)
  unfolding hole_tail
  get_or-hole k p = ground (
    arith,
    get_or-append (take m bs) hole_tail k 0,
    length-take m bs,
    get_or-take m bs k 0,
    get_or-cons (get_or g.vec (vsize g - 1) 0) (take (length bs - m - 1) (drop m bs)) (k - m) 0,
    get_or-take (length bs - m - 1) (drop m bs) (k - m - 1) 0,
    get_or-drop m bs (k - m - 1) 0,
  )

  length-hole : length (take m bs ++ hole_tail) ≡ length bs
  unfolding hole_tail
  length-hole = omega (
    arith,
    length-append (take m bs) hole_tail,
    length-take m bs,
    length-take (length bs - m - 1) (drop m bs),
    length-drop m bs,
  )

  entry_after :
      (k : ℕ)
      → k < length bs
      → get_or (poured g m bs).vec (slot (poured g m bs) (size g + k)) 0
        ≡ get_or (take m bs ++ hole_tail) k 0
  entry_after k p = elim (dec_lt k m) [
    | yes q ↦ entry_first k q ∙ sym (ground (arith, get_or-hole k p))
    | no q ↦ elim (ℕ_discrete k m) [
      | yes r ↦ rw r (entry_stale ∙ sym (ground (arith, get_or-hole m over)))
      | no r ↦
          let j : ℕ = k - m - 1 in
          let here : size g + m + 1 + j ≡ size g + k = omega (arith, q, r) in
          let there : m + j ≡ k - 1 = omega (arith, q, r) in
          rw (← here) (
            entry_rest j (omega (arith, p, q, r))
            ∙ rw there (sym (ground (arith, get_or-hole k p))))
    ]
  ]

  contents-hole : contents 0 (poured g m bs) ≡ contents 0 g ++ (take m bs ++ hole_tail)
  contents-hole =
      contents_ext 0 (poured g m bs) (contents 0 g ++ (take m bs ++ hole_tail))
        (omega (
          arith,
          size_after,
          length-append (contents 0 g) (take m bs ++ hole_tail),
          length-hole,
          length-contents 0 g,
        ))
        λ k p. ground (
          arith,
          size_after,
          entry_before k,
          entry_after (k - size g),
          get_or-append (contents 0 g) (take m bs ++ hole_tail) k 0,
          length-contents 0 g,
          get_or-contents 0 g k,
        )

-- A buffer whose contents lie in one piece that does not start at the index 0: a read of more bytes
-- than the piece up to the end takes puts the byte that stood in the last slot of the vector among
-- the new ones, and loses the last of them.
pub scatter-hole :
    (g : Ring ℕ) (bs : List ℕ)
    → IsValid g
    → g.lo ≤ g.hi
    → vsize g - g.hi - 1 < length bs
    → length bs ≤ (free_spans g).0 + (free_spans g).1
    → (s : Ring ℕ) × (scatter g (free_spans g).0 bs ≡ some s)
      × IsValid s
      × (contents 0 s ≡ with_hole g bs)
unfolding hole_tail
scatter-hole g bs v h over fits =
    let m : ℕ = vsize g - g.hi - 1 in
    let (e, f) = free_spans_flat g v h in
    let (p, w) = scatter_lem g m bs v (omega arith) (omega (arith, e, f, fits)) in
    (
      poured g m bs,
      rw e p,
      w,
      contents-hole g m bs v (omega arith) h over (omega (arith, e, f, fits)),
    )
