-- ===== src/FixedRing.antt =====
-- The class template `FixedRingBuffer` of src/net/Buffer.h: a ring that never grows. A push on a full
-- ring overwrites an entry, and the slots that are left are set to `T()`, here `d`. `none` is a fault:
-- an access outside the vector.
pub mod Window
pub mod Holes
use netyo.Prelude.{ℕ, ◌+◌, ◌-◌, Option, none, some, List, [], ◌∷◌, if◌then◌else◌, ◌==◌, ◌>>=◌}
use netyo.Prelude.Int.{ℤ, pos, negsuc, sub_ℕ}
use netyo.Ring.{Ring, vsize, size, full, mod_index, write_at}

module _ {ℓ} {A : Type ℓ} (d : A) where
  -- `vec[i] = v` at an index that may be negative.
  unfoldable pub write_index : List A → ℤ → A → Option (List A)
  unfolding write_at
  write_index xs (pos i) v = write_at xs i (v ∷ [])
  write_index xs (negsuc i) v = none

  unfoldable pub pop_front : Ring A → Option (Ring A)
  unfolding write_at mod_index
  pop_front r = if size r == 0 then some r else (do
    vec ← write_at r.vec r.lo (d ∷ [])
    some (record r { vec = vec; lo = mod_index (vsize r) (pos (r.lo + 1)) }))

  unfoldable pub pop_back : Ring A → Option (Ring A)
  unfolding write_index mod_index
  pop_back r = if size r == 0 then some r else (do
    let hi = mod_index (vsize r) (sub_ℕ r.hi 1)
    vec ← write_index r.vec (sub_ℕ hi 1) d
    some (record r { vec = vec; hi = hi }))

  -- What `push_back` does first on a full ring.
  unfoldable pub evict_front : Ring A → Option (Ring A)
  unfolding write_at mod_index full
  evict_front r =
      if full r
      then (do
        vec ← write_at r.vec r.lo (d ∷ [])
        some (record r { vec = vec; lo = mod_index (vsize r) (pos (r.lo + 1)) }))
      else some r

  unfoldable pub push_back : Ring A → A → Option (Ring A)
  push_back r v = do
    g ← evict_front r
    vec ← write_at g.vec g.hi (v ∷ [])
    some (record g { vec = vec; hi = mod_index (vsize g) (pos (g.hi + 1)) })
