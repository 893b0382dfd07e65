-- ===== src/FixedRing/Holes.antt =====
-- `pop_back` of `FixedRingBuffer` (src/net/Buffer.h), which clears another slot than the one it
-- leaves.
use netyo.Prelude.{
  true, false, ◌⊎◌, inl, inr, ℕ_discrete, ◌==◌, ap, ◌∙◌, tabulate, ℕ, zero, suc, ◌-◌, ◌≤◌, ◌<◌, ◌≡◌,
  List, [], ◌∷◌, ◌++◌, arith, length, get_or, if◌then◌else◌, leb, ltb, overwrite, get_or-overwrite,
  length-overwrite, length-append, take, length-take, get_or-take, some, none, ◌>>=◌, refl, ◌≢◌,
}
use netyo.Ring.{Ring, vsize, size, slot, contents, mod_index, write_at, full}
use netyo.Ring.Entries.{IsValid, contents_ext, get_or-contents, length-contents}
use netyo.FixedRing.{pop_back, write_index, push_back, evict_front}

module _ {A : Type 0} (d : A) where
  -- The slot before the new `hi`, cleared.
  abbrev holed : Ring A → Ring A
  holed r =
      let h = if leb 1 r.hi then r.hi - 1 else vsize r - 1 in
      record { vec = overwrite r.vec (h - 1) (d ∷ []); lo = r.lo; hi = h }

  holed-IsValid :
      (r : Ring A) → IsValid r → 0 < size r → IsValid (holed r) × (size (holed r) ≡ size r - 1)
  holed-IsValid r v h = ground (arith, length-overwrite r.vec ((holed r).hi - 1) (d ∷ []))

  pop_back-holed : (r : Ring A) → IsValid r → 0 < size r → r.hi ≢ 1 → pop_back d r ≡ some (holed r)
  unfolding pop_back write_index write_at mod_index
  pop_back-holed r v h n = ground arith

  get_or-at_end :
      (xs : List A) (k : ℕ)
      → get_or (xs ++ d ∷ []) k d ≡ (if ltb k (length xs) then get_or xs k d else d)
  get_or-at_end [] zero = refl
  get_or-at_end [] (suc k) = ground arith
  get_or-at_end (x ∷ xs) zero = ground arith
  get_or-at_end (x ∷ xs) (suc k) = ground (arith, get_or-at_end xs k)

  contents-holed :
      (r : Ring A)
      → IsValid r
      → 2 ≤ size r
      → r.hi ≢ 1
      → contents d (holed r) ≡ take (size r - 2) (contents d r) ++ d ∷ []
  contents-holed r v h n =
      contents_ext d (holed r) (take (size r - 2) (contents d r) ++ d ∷ [])
        (omega (
          arith,
          holed-IsValid r v (omega arith),
          length-contents d r,
          length-append (take (size r - 2) (contents d r)) (d ∷ []),
          length-take (size r - 2) (contents d r),
        ))
        λ k p. ground (
          arith,
          holed-IsValid r v (omega arith),
          get_or-overwrite r.vec ((holed r).hi - 1) (d ∷ []) (slot (holed r) k) d,
          get_or-at_end (take (size r - 2) (contents d r)) k,
          get_or-take (size r - 2) (contents d r) k d,
          length-take (size r - 2) (contents d r),
          length-contents d r,
          get_or-contents d r k,
        )

  push_back-pop_back :
      (r : Ring A) (v : A)
      → IsValid r
      → r.lo ≡ 0
      → r.hi ≡ 0
      → (push_back d r v >>= pop_back d) ≡ none
  unfolding push_back evict_front full pop_back write_index write_at mod_index
  push_back-pop_back r v i p q = ground (arith, length-overwrite r.vec 0 (v ∷ []))

  -- `pop_back` on a valid ring that is not empty writes before the vector if `hi` is 1. Otherwise it
  -- removes the newest entry, and sets the one before it, which stays, to `T()`, if there is one.
  pub pop_back-outcome :
      (r : Ring A)
      → IsValid r
      → 1 ≤ size r
      → ((r.hi ≡ 1) × (pop_back d r ≡ none))
        ⊎ ((r.hi ≢ 1)
            × ((g : Ring A) × (pop_back d r ≡ some g)
                × IsValid g
                × (contents d g
                    ≡ (if size r == 1 then [] else take (size r - 2) (contents d r) ++ d ∷ []))))
  unfolding pop_back write_index write_at mod_index contents
  pop_back-outcome r v h = elim (ℕ_discrete r.hi 1) [
    | yes e ↦ inl (e, ground (arith, e))
    | no n ↦
        let (i, s) = holed-IsValid r v h in
        inr (
          n,
          (
            holed r,
            pop_back-holed r v h n,
            i,
            elim (ℕ_discrete (size r) 1) [
              | yes one ↦
                  let gone : size (holed r) ≡ 0 = omega (arith, s, one) in
                  let test : (size r == 1) ≡ true = ground (arith, one) in
                  ap (λ k. tabulate k (λ j. get_or (holed r).vec (slot (holed r) j) d)) gone
                  ∙ rw test refl
              | no more ↦
                  let test : (size r == 1) ≡ false = ground (arith, more) in
                  contents-holed r v (omega (arith, h, more)) n ∙ rw test refl
            ],
          ),
        )
  ]
