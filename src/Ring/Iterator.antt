-- ===== src/Ring/Iterator.antt =====
-- The iterators of `RingBuffer` (src/net/Buffer.h). A peeking iterator holds an index of its own; a
-- reading or writing one holds a reference to `lo` or to `hi` of its buffer. The buffer that the
-- iterator points to is passed and returned beside it.
use netyo.Prelude.{ℕ, ◌+◌, [], ◌∷◌, if◌then◌else◌, ◌==◌, some, ◌>>=◌, Option, Bool}
use netyo.Prelude.{not}
use netyo.Prelude.Int.{pos, sub_ℕ}
use netyo.Ring.{Ring, vsize, full, expand, mod_index, read_at, write_at}

-- `index_type`: a value, or a reference to a field of the buffer.
pub data Index : Type 0 where
  own : ℕ → Index
  ref_lo ref_hi : Index

-- The pairs of `reader()` and `writer()`.
abbrev pub reader : Index × Index
reader = (ref_lo, ref_hi)

abbrev pub writer : Index × Index
writer = (ref_hi, ref_lo)

module _ {ℓ} {A : Type ℓ} where
  -- The value of the iterator's `lo`, and an assignment to it.
  abbrev pub position : Ring A → Index → ℕ
  position r (own i) = i
  position r ref_lo = r.lo
  position r ref_hi = r.hi

  abbrev pub assign_position : Ring A → Index → ℕ → Ring A × Index
  assign_position r (own i) n = (r, own n)
  assign_position r ref_lo n = (record r { lo = n }, ref_lo)
  assign_position r ref_hi n = (record r { hi = n }, ref_hi)

  -- `begin` and `end`.
  abbrev pub begin : Ring A → Index
  begin r = own r.lo

  abbrev pub end : Ring A → Index
  end r = own r.hi

  -- `++it`, `--it` and `it += diff`. (`it++` gives a copy of the iterator and makes the same move.)
  unfoldable pub increment : Ring A → Index → Ring A × Index
  unfolding mod_index
  increment r it = assign_position r it (mod_index (vsize r) (pos (position r it + 1)))

  unfoldable pub decrement : Ring A → Index → Ring A × Index
  unfolding mod_index
  decrement r it = assign_position r it (mod_index (vsize r) (sub_ℕ (position r it) 1))

  unfoldable pub advance : Ring A → Index → ℕ → Ring A × Index
  unfolding mod_index
  advance r it diff = assign_position r it (mod_index (vsize r) (pos (position r it + diff)))

  -- `it != other`
  abbrev pub differs : Ring A → Index → Index → Bool
  differs r it other = not (position r it == position r other)

module _ {ℓ} {A : Type ℓ} (d : A) where
  -- `*it` of an iterator that reads.
  unfoldable pub deref : Ring A → Index → Option A
  unfolding read_at
  deref r it = read_at r.vec (position r it) d

  -- `it = val`, which `*it = val` is for an iterator that writes.
  unfoldable pub store : Ring A → Index → A → Option (Ring A)
  store r it val = do
    g ← if full r then expand d r else some r
    vec ← write_at g.vec (position g it) (val ∷ [])
    some (record g { vec = vec })
