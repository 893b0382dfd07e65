-- ===== src/Ring/Loss.antt =====
-- What `push_back` of `RingBuffer` (src/net/Buffer.h) does to a full buffer whose contents go round
-- the end of the vector.
use netyo.Prelude.{
  ◌⊎◌, inl, inr, dec_lt, false, Bool-cases, ◌+◌, ◌-◌, ◌*◌, ◌≤◌, ◌<◌, ◌≡◌, ◌∙◌, sym, ap, [], ◌∷◌,
  ◌++◌, arith, length, drop, length-drop, some, true,
}
use netyo.Ring.{
  Ring, reserve, vsize, size, contents, push_back, full, grow, expand, capacity, write_at,
  mod_index,
}
use netyo.Ring.Entries.{IsValid, length-contents}
use netyo.Ring.Push.{appended, contents-appended, push_back-contents}
use netyo.Ring.Wrapped.{reserve_forgets}

module _ {A : Type 0} (d : A) where
  push_back-grown :
      (r g : Ring A) (v : A)
      → IsValid r
      → full r ≡ true
      → expand d r ≡ some g
      → IsValid g
      → size g + 1 < vsize g
      → push_back d r v ≡ some (appended d g v)
  unfolding push_back grow write_at mod_index
  push_back-grown r g v i f e j free = rw f (rw e (ground arith))

  -- What the push makes of the vector `g` that `reserve` left.
  push_after_loss :
      (r g : Ring A) (v : A)
      → IsValid r
      → full r ≡ true
      → r.hi < r.lo
      → reserve d r (2 * capacity r) ≡ some g
      → IsValid g
      → vsize g ≡ 2 * capacity r + 1
      → contents d g ≡ drop (vsize r - r.lo) (contents d r)
      → (push_back d r v ≡ some (appended d g v))
        × (contents d (appended d g v) ≡ drop (vsize r - r.lo) (contents d r) ++ v ∷ [])
  unfolding expand
  push_after_loss r g v i f w e j s c = (
    push_back-grown r g v i f (ground arith) j free,
    contents-appended d g v j free ∙ ap (λ xs. xs ++ v ∷ []) c,
  )
    where
      left : size g ≡ size r - (vsize r - r.lo)
      left =
          sym (length-contents d g)
          ∙ ap length c
          ∙ length-drop (vsize r - r.lo) (contents d r)
          ∙ ap (λ n. n - (vsize r - r.lo)) (length-contents d r)

      free : size g + 1 < vsize g
      free = rw (left, s) (ground arith)

  full-lo : (r : Ring A) → IsValid r → full r ≡ true → r.hi < r.lo → r.lo ≤ r.hi + 1
  unfolding full
  full-lo r i f w = ground arith

  push_back_forgets :
      (r : Ring A) (v : A)
      → IsValid r
      → full r ≡ true
      → r.hi < r.lo
      → (g : Ring A) × (push_back d r v ≡ some g)
        × (contents d g ≡ drop (vsize r - r.lo) (contents d r) ++ v ∷ [])
  push_back_forgets r v i f w =
      let (g, e, j, s, c) =
        reserve_forgets d r (2 * capacity r) i w (omega arith) (omega (arith, full-lo r i f w)) in
      let (p, q) = push_after_loss r g v i f w e j s c in (appended d g v, p, q)

  -- On every valid buffer `push_back` does one of two things. If the buffer is not full, or its contents
  -- do not go round the end of the vector, it puts the entry behind the others and keeps the buffer
  -- valid. If it is full and its contents go round the end, `push_back` loses the entries that lie before
  -- the end: what is left is the rest and the new entry.
  pub pushes-contents :
      (r : Ring A) (v : A)
      → IsValid r
      → (((full r ≡ false) ⊎ (r.lo ≤ r.hi))
          × ((g : Ring A) × (push_back d r v ≡ some g)
              × IsValid g
              × (contents d g ≡ contents d r ++ v ∷ [])))
        ⊎ ((full r ≡ true)
            × (r.hi < r.lo)
            × ((g : Ring A) × (push_back d r v ≡ some g)
                × (contents d g ≡ drop (vsize r - r.lo) (contents d r) ++ v ∷ [])))
  pushes-contents r v i = elim (Bool-cases (full r)) [
    | inr f ↦ inl (inl f, push_back-contents d r v i (λ e. absurd cc))
    | inl f ↦ elim (dec_lt r.hi r.lo) [
      | no n ↦
          let one_piece : r.lo ≤ r.hi = omega (arith, n) in
          inl (inr one_piece, push_back-contents d r v i (λ e. one_piece))
      | yes w ↦ inr (f, w, push_back_forgets r v i f w)
    ]
  ]
