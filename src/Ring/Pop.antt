-- ===== src/Ring/Pop.antt =====
-- `pop_front`, `pop_back` and the reads of `RingBuffer` (src/net/Buffer.h).
use netyo.Prelude.{
  ℕ, ◌+◌, ◌-◌, ◌<◌, ◌≡◌, arith, get_or, take, drop, length-take, length-drop, get_or-take,
  get_or-drop, some, ◌≤◌, ◌⊎◌, inl, inr, dec_lt,
}
use netyo.Ring.{Ring, size, slot, contents, pop_front, pop_back, at, read_at, mod_index}
use netyo.Ring.Entries.{IsValid, contents_ext, get_or-contents, length-contents}

pub pop_front-IsValid : {A : Type 0} (r : Ring A) → IsValid r → IsValid (pop_front r)
unfolding pop_front mod_index
pop_front-IsValid r v = ground arith

pub pop_back-IsValid : {A : Type 0} (r : Ring A) → IsValid r → IsValid (pop_back r)
unfolding pop_back mod_index
pop_back-IsValid r v = ground arith

pub size-pop_front : {A : Type 0} (r : Ring A) → IsValid r → size (pop_front r) ≡ size r - 1
unfolding pop_front mod_index
size-pop_front r v = ground arith

pub size-pop_back : {A : Type 0} (r : Ring A) → IsValid r → size (pop_back r) ≡ size r - 1
unfolding pop_back mod_index
size-pop_back r v = ground arith

module _ {A : Type 0} (d : A) where
  slot-pop_front :
      (r : Ring A) (k : ℕ)
      → IsValid r
      → k + 1 < size r
      → get_or (pop_front r).vec (slot (pop_front r) k) d ≡ get_or r.vec (slot r (k + 1)) d
  unfolding pop_front mod_index
  slot-pop_front r k v h = ground arith

  slot-pop_back :
      (r : Ring A) (k : ℕ)
      → IsValid r
      → get_or (pop_back r).vec (slot (pop_back r) k) d ≡ get_or r.vec (slot r k) d
  unfolding pop_back mod_index
  slot-pop_back r k v = ground arith

  -- `pop_front` removes the oldest entry, and leaves an empty buffer as it is.
  pub contents-pop_front :
      (r : Ring A) → IsValid r → contents d (pop_front r) ≡ drop 1 (contents d r)
  contents-pop_front r v =
      contents_ext d (pop_front r) (drop 1 (contents d r))
        (omega (arith, size-pop_front r v, length-contents d r, length-drop 1 (contents d r)))
        λ k p. ground (
          arith,
          size-pop_front r v,
          slot-pop_front r k v,
          get_or-drop 1 (contents d r) k d,
          get_or-contents d r (1 + k),
        )

  -- `pop_back` removes the newest entry, and leaves an empty buffer as it is.
  pub contents-pop_back :
      (r : Ring A) → IsValid r → contents d (pop_back r) ≡ take (size r - 1) (contents d r)
  contents-pop_back r v =
      contents_ext d (pop_back r) (take (size r - 1) (contents d r))
        (omega
          (arith, size-pop_back r v, length-contents d r, length-take (size r - 1) (contents d r)))
        λ k p. ground (
          arith,
          size-pop_back r v,
          slot-pop_back r k v,
          get_or-take (size r - 1) (contents d r) k d,
          get_or-contents d r k,
        )

  -- `operator[]` reads the entry at its index, wherever it lies in the vector.
  pub at-contents :
      (r : Ring A) (k : ℕ) → IsValid r → k < size r → at d r k ≡ some (get_or (contents d r) k d)
  unfolding at read_at mod_index
  at-contents r k v h = ground (arith, get_or-contents d r k)

  -- On a valid ring `pop_front` removes the oldest entry and `pop_back` the newest, and both leave an
  -- empty ring as it is; the ring stays valid. For an index `k` that is not past the contents,
  -- `operator[]` reads the entry at `k`.
  pub pops-contents :
      (r : Ring A) (k : ℕ)
      → IsValid r
      → (contents d (pop_front r) ≡ drop 1 (contents d r))
        × (contents d (pop_back r) ≡ take (size r - 1) (contents d r))
        × IsValid (pop_front r)
        × IsValid (pop_back r)
        × ((size r ≤ k) ⊎ (at d r k ≡ some (get_or (contents d r) k d)))
  pops-contents r k v = (
    contents-pop_front r v,
    contents-pop_back r v,
    pop_front-IsValid r v,
    pop_back-IsValid r v,
    elim (dec_lt k (size r)) [ yes h ↦ inr (at-contents r k v h) | no h ↦ inl (omega (arith, h)) ],
  )
