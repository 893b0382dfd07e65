-- ===== src/Ring.antt =====
-- The class template `RingBuffer` of src/net/Buffer.h, over the vector that backs it.
-- `lo` and `hi` are `ssize_t` in the source. No operation that ends without a fault makes them
-- negative, so they are numbers here; sizes stay below 2^62, where `ssize_t` does not wrap.
-- `none` is a fault: an access outside the vector, or an allocation that throws.
pub mod Entries
pub mod Reserve
pub mod Wrapped
pub mod Push
pub mod Pop
pub mod Loss
pub mod Iterator
pub mod Traverse
use netyo.Prelude.{
  ℕ, ◌+◌, ◌-◌, ◌*◌, Bool, Option, none, some, List, [], ◌∷◌, if◌then◌else◌, leb, ltb, ◌==◌, length,
  get_or, take, replicate, tabulate, overwrite, ◌++◌, ◌>>=◌,
}
use netyo.Prelude.Int.{ℤ, pos, negsuc, sub_ℕ}

-- The fields of `RingBuffer`.
pub record Ring {ℓ} (A : Type ℓ) : Type ℓ where
  pub vec : List A
  pub lo : ℕ
  pub hi : ℕ

-- `MOD`, of a vector of size `s`. (The source gives -1 at a negative index of an empty vector,
-- which is outside of it, as 0 is.)
unfoldable pub mod_index : ℕ → ℤ → ℕ
mod_index s (pos i) = if leb s i then i - s else i
mod_index s (negsuc i) = s - 1

module _ {ℓ} {A : Type ℓ} where
  -- `vec[i]`, `vec[i] = v` and `memcpy` or `copy` to `vec.data() + i`, with the check that the
  -- source leaves out.
  unfoldable pub read_at : List A → ℕ → A → Option A
  read_at xs i d = if ltb i (length xs) then some (get_or xs i d) else none

  unfoldable pub write_at : List A → ℕ → List A → Option (List A)
  write_at xs i bs = if leb (i + length bs) (length xs) then some (overwrite xs i bs) else none

  -- `vsize`, `size`, `capacity`, `empty`, `full`.
  abbrev pub vsize : Ring A → ℕ
  vsize r = length r.vec

  abbrev pub size : Ring A → ℕ
  size r = if leb r.lo r.hi then r.hi - r.lo else vsize r - (r.lo - r.hi)

  abbrev pub capacity : Ring A → ℕ
  capacity r = vsize r - 1

  unfoldable pub empty : Ring A → Bool
  empty r = size r == 0

  -- `capacity()` is -1 at an empty vector, so the test is made on the numbers plus one.
  unfoldable pub full : Ring A → Bool
  full r = size r + 1 == vsize r

  -- `RingBuffer(count, value)`
  unfoldable pub with_count : ℕ → A → Ring A
  with_count count v = record {
    vec = replicate (if leb count 7 then 7 else count) v;
    lo = 0;
    hi = 0;
  }

  -- `RingBuffer(first, last)`
  unfoldable pub of_range : List A → Ring A
  of_range xs = record { vec = xs; lo = 0; hi = length xs }

  -- `*this = other`
  unfoldable pub assign : Ring A → Ring A → Ring A
  assign this other = record this { vec = other.vec; lo = other.lo }

  unfoldable pub pop_front : Ring A → Ring A
  unfolding mod_index
  pop_front r = if size r == 0 then r else record r { lo = mod_index (vsize r) (pos (r.lo + 1)) }

  unfoldable pub pop_back : Ring A → Ring A
  unfolding mod_index
  pop_back r = if size r == 0 then r else record r { hi = mod_index (vsize r) (sub_ℕ r.hi 1) }

  -- The index in the vector of the entry `k`.
  abbrev pub slot : Ring A → ℕ → ℕ
  slot r k = let j = r.lo + k in if leb (vsize r) j then j - vsize r else j

-- The operations that make values of `T` are given `d`, its `T()`.
module _ {ℓ} {A : Type ℓ} (d : A) where
  -- `RingBuffer()`
  unfoldable pub new_ring : Ring A
  new_ring = record { vec = replicate 7 d; lo = 0; hi = 0 }

  -- `vec.resize(n)` to a size that is not smaller.
  abbrev pub resize : List A → ℕ → List A
  resize xs n = xs ++ replicate (n - length xs) d

  unfoldable pub reserve : Ring A → ℕ → Option (Ring A)
  unfolding write_at
  reserve r len =
      let v = resize r.vec (len + 1) in
      if leb (len + 1) (vsize r)
      then some r
      else if leb r.lo r.hi
      then some (record r { vec = v })
      else (write_at v r.lo (take r.hi v) >>= λ v'. some (record r { vec = v'; hi = r.lo + r.hi }))

  -- At an empty vector the argument is -2, and `resize` throws.
  unfoldable pub expand : Ring A → Option (Ring A)
  expand r = if vsize r == 0 then none else reserve r (2 * capacity r)

  unfoldable pub ensure_space : Ring A → ℕ → Option (Ring A)
  ensure_space r len = reserve r (size r + len)

  -- `operator[]`
  unfoldable pub at : Ring A → ℕ → Option A
  unfolding read_at mod_index
  at r i = read_at r.vec (mod_index (vsize r) (pos (r.lo + i))) d

  -- `if (full()) expand();`
  unfoldable pub grow : Ring A → Option (Ring A)
  grow r = if full r then expand r else some r

  unfoldable pub push_back : Ring A → A → Option (Ring A)
  push_back r v = do
    g ← grow r
    vec ← write_at g.vec g.hi (v ∷ [])
    some (record g { vec = vec; hi = mod_index (vsize g) (pos (g.hi + 1)) })

  -- What a buffer holds, oldest first: the entries at the indices 0 to `size() - 1`.
  unfoldable pub contents : Ring A → List A
  contents r = tabulate (size r) (λ k. get_or r.vec (slot r k) d)
