-- ===== src/Buffer.antt =====
-- The class `Buffer` of src/net/Buffer.h, a `RingBuffer<char>` that moves bytes between a socket and
-- the program. A byte is a number that is moved and never computed with.
pub mod Spans
pub mod Pour
pub mod Append
pub mod Overflow
pub mod Writes
pub mod Drain
pub mod Resend
pub mod Peek
pub mod Fill
pub mod Hole
use netyo.Prelude.{
  ℕ, zero, suc, ◌+◌, ◌-◌, ◌/◌, ◌%◌, ◌^◌, Bool, true, false, Option, none, some, List, [], ◌∷◌, ◌++◌,
  if◌then◌else◌, leb, ltb, ◌==◌, ◌||◌, ◌&&◌, not, min, length, take, drop, ◌>>=◌,
}
use netyo.Prelude.Int.{pos, negsuc, to_int}
use netyo.Posix.{Socket}
use netyo.Ring.{Ring, vsize, size, capacity, mod_index, write_at, expand, ensure_space}

-- `n` bytes of the vector from the index `i` on, as `write` and `memcpy` read them.
unfoldable pub read_span : List ℕ → ℕ → ℕ → Option (List ℕ)
read_span xs i n = if leb (i + n) (length xs) then some (take n (drop i xs)) else none

-- The copies of `feed_wbuffer`: in one piece where `hi <= lo`, else up to the end of the vector and
-- then from its start.
unfoldable pub copy_in : Ring ℕ → List ℕ → Option (List ℕ)
copy_in g bs =
    let len1 = min (vsize g - g.hi) (length bs) in
    if leb g.hi g.lo then write_at g.vec g.hi bs else (do
      v ← if len1 == 0 then some g.vec else write_at g.vec g.hi (take len1 bs)
      if ltb 0 (length bs - len1) then write_at v 0 (drop len1 bs) else some v)

-- `feed_wbuffer(data, len)`: the buffer, and the number of bytes taken.
unfoldable pub feed_wbuffer : Ring ℕ → List ℕ → Option (Ring ℕ × ℕ)
feed_wbuffer r bs = if length bs == 0 then some (r, 0) else (do
  g ← ensure_space 0 r (length bs)
  vec ← copy_in g bs
  some (record g { vec = vec; hi = mod_index (vsize g) (pos (g.hi + length bs)) }, length bs))

-- `drain_rbuffer(data, len)`: the bytes that are copied to `data`, and the number returned. The
-- buffer is not changed. `len1` is an `int`; a copy of a negative length is a fault.
unfoldable pub drain_rbuffer : Ring ℕ → ℕ → Option (List ℕ × ℕ)
drain_rbuffer r n =
    let len = min n (size r) in
    if n == 0 || size r == 0
    then some ([], 0)
    else if leb r.lo r.hi
    then (do bs ← read_span r.vec r.lo len; some (bs, len))
    else (elim (to_int (vsize r - r.lo)) [
      | negsuc n ↦ none
      | pos len1 ↦ (do
        as1 ← read_span r.vec r.lo len1
        as2 ← if ltb 0 (len - len1) then read_span r.vec 0 (len - len1) else some []
        some (as1 ++ as2, len))
    ])

-- `if (capacity() - size() <= (capacity() >> 2)) expand();`
unfoldable pub make_space : Ring ℕ → Option (Ring ℕ)
make_space r = if leb (capacity r - size r) (capacity r / 4) then expand 0 r else some r

-- The lengths of the two `iovec`s, the second in `size_t`.
unfoldable pub free_spans : Ring ℕ → ℕ × ℕ
free_spans r =
    let len1 = if leb r.lo r.hi then vsize r - r.hi else r.lo - r.hi in
    let len2 = if leb r.lo r.hi then r.lo else 0 in
    if ltb 0 len1 then (len1 - 1, len2) else (len1, (len2 + (2 ^ 64 - 1)) % 2 ^ 64)

-- What `readv` does to the vector with the bytes that it gives, and the move of `hi`.
unfoldable pub scatter : Ring ℕ → ℕ → List ℕ → Option (Ring ℕ)
scatter r len1 bs = do
  v ← write_at r.vec r.hi (take len1 bs)
  w ← write_at v 0 (drop len1 bs)
  some (record r { vec = w; hi = mod_index (vsize r) (pos (r.hi + length bs)) })

module _ (c : Socket) where
  open c use {State, readv, write}

  -- `drain_wbuffer(fd)`: the connection, the buffer and the number returned, `none` for a negative
  -- one.
  abbrev pub Drained : Type 0
  Drained = State × Ring ℕ × Option ℕ

  -- `lo = MOD(lo + bytes_drain); return remain_size - bytes_drain;`
  unfoldable pub drained : Ring ℕ → State → ℕ → Drained
  drained r k n = (k, record r { lo = mod_index (vsize r) (pos (r.lo + n)) }, some (size r - n))

  -- The second `write`, after `wn` bytes, and what follows it.
  unfoldable pub drain_second : Ring ℕ → ℕ → ℕ → State → ℕ → Option Drained
  drain_second r len1 len2 k wn =
      if wn == len1 && not (len2 == 0)
      then (do
        bs ← read_span r.vec 0 len2
        let (k', res) = write k bs
        elim res [ none ↦ some (k', r, none) | some n ↦ some (drained r k' (wn + n)) ])
      else some (drained r k wn)

  unfoldable pub drain_first : Ring ℕ → ℕ → ℕ → State → Option Drained
  drain_first r len1 len2 k = if len1 == 0 then drain_second r len1 len2 k 0 else (do
    bs ← read_span r.vec r.lo len1
    let (k', res) = write k bs
    elim res [ none ↦ some (k', r, none) | some n ↦ drain_second r len1 len2 k' n ])

  unfoldable pub drain_wbuffer : State → Ring ℕ → Option Drained
  drain_wbuffer k r =
      if size r == 0
      then some (k, r, some 0)
      else if ltb r.lo r.hi
      then drain_first r (r.hi - r.lo) 0 k
      else drain_first r (vsize r - r.lo) r.hi k

  -- The loop of `feed_rbuffer`, on fuel; `none` is a fault or a loop that needs more fuel.
  unfoldable pub feed_loop : ℕ → State → Ring ℕ → ℕ → Option (State × Ring ℕ × ℕ)
  feed_loop zero k r total = none
  feed_loop (suc fuel) k r total = do
    g ← make_space r
    let (len1, len2) = free_spans g
    let (k', res) = readv k (len1 + len2)
    elim res [
      | none ↦ some (k', g, total)
      | some [] ↦ some (k', g, total)
      | some (b ∷ bs) ↦ do
        s ← scatter g len1 (b ∷ bs)
        feed_loop fuel k' s (total + length (b ∷ bs))
    ]

  -- `feed_rbuffer(fd)`: every round but the last takes a byte, so the bytes that arrive bound the
  -- rounds.
  unfoldable pub feed_rbuffer : State → Ring ℕ → Option (State × Ring ℕ × ℕ)
  feed_rbuffer k r = feed_loop (length (c.unread k) + 1) k r 0
