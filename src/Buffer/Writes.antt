-- ===== src/Buffer/Writes.antt =====
-- The pieces of `drain_wbuffer` of `Buffer` (src/net/Buffer.h), each on every answer of the socket.
use netyo.Prelude.{
  ℕ, ◌+◌, ◌-◌, ◌≤◌, ◌<◌, ◌≡◌, List, [], arith, take, drop, length-drop, get_or-drop, ◌⊎◌, some,
  none, refl,
}
use netyo.Prelude.Int.{pos}
use netyo.Ring.{Ring, vsize, size, slot, contents, mod_index}
use netyo.Ring.Entries.{IsValid, contents_ext, get_or-contents, length-contents}
use netyo.Posix.{Socket}
use netyo.Buffer.{read_span, drained, drain_first, drain_second}
use netyo.Buffer.Spans.{first_span, second_span}

abbrev pub advanced : Ring ℕ → ℕ → Ring ℕ
advanced r n = record r { lo = mod_index (vsize r) (pos (r.lo + n)) }

module _ (r : Ring ℕ) (n : ℕ) (v : IsValid r) (h : n ≤ size r) where
  pub advanced-IsValid : IsValid (advanced r n) × (size (advanced r n) ≡ size r - n)
  unfolding mod_index
  advanced-IsValid = ground arith

  slot-advanced : (k : ℕ) → k < size r - n → slot (advanced r n) k ≡ slot r (n + k)
  unfolding mod_index
  slot-advanced k p = ground arith

  pub contents-advanced : contents 0 (advanced r n) ≡ drop n (contents 0 r)
  contents-advanced =
      contents_ext 0 (advanced r n) (drop n (contents 0 r))
        (omega (arith, advanced-IsValid, length-contents 0 r, length-drop n (contents 0 r)))
        λ k p. ground (
          arith,
          advanced-IsValid,
          slot-advanced k,
          get_or-drop n (contents 0 r) k 0,
          get_or-contents 0 r (n + k),
        )

pub contents-nil : (r : Ring ℕ) → r.lo ≡ r.hi → contents 0 r ≡ []
contents-nil r e = contents_ext 0 r [] (ground arith) λ k p. absurd (ground arith)

module _ (c : Socket) where
  open c use {State, write}

  pub first-none :
      (k : State) (r : Ring ℕ) (len1 len2 : ℕ) (bs : List ℕ)
      → 0 < len1
      → read_span r.vec r.lo len1 ≡ some bs
      → (write k bs).1 ≡ none
      → drain_first c r len1 len2 k ≡ some ((write k bs).0, r, none)
  unfolding drain_first
  first-none k r len1 len2 bs p e f = ground arith

  pub first-some :
      (k : State) (r : Ring ℕ) (len1 len2 : ℕ) (bs : List ℕ) (n : ℕ)
      → 0 < len1
      → read_span r.vec r.lo len1 ≡ some bs
      → (write k bs).1 ≡ some n
      → drain_first c r len1 len2 k ≡ drain_second c r len1 len2 (write k bs).0 n
  unfolding drain_first
  first-some k r len1 len2 bs n p e f = ground arith

  pub second-end :
      (k : State) (r : Ring ℕ) (len1 len2 n : ℕ)
      → ((n ≡ len1 → ⊥) ⊎ (len2 ≡ 0))
      → drain_second c r len1 len2 k n ≡ some (drained c r k n)
  unfolding drain_second
  second-end k r len1 len2 n h = ground arith

  pub second-none :
      (k : State) (r : Ring ℕ) (len1 len2 : ℕ) (bs : List ℕ)
      → 0 < len2
      → read_span r.vec 0 len2 ≡ some bs
      → (write k bs).1 ≡ none
      → drain_second c r len1 len2 k len1 ≡ some ((write k bs).0, r, none)
  unfolding drain_second
  second-none k r len1 len2 bs p e f = ground arith

  pub second-some :
      (k : State) (r : Ring ℕ) (len1 len2 : ℕ) (bs : List ℕ) (n : ℕ)
      → 0 < len2
      → read_span r.vec 0 len2 ≡ some bs
      → (write k bs).1 ≡ some n
      → drain_second c r len1 len2 k len1 ≡ some (drained c r (write k bs).0 (len1 + n))
  unfolding drain_second
  second-some k r len1 len2 bs n p e f = ground arith

  pub read_first :
      (r : Ring ℕ) (n : ℕ)
      → IsValid r
      → n ≤ size r
      → r.lo + n ≤ vsize r
      → read_span r.vec r.lo n ≡ some (take n (contents 0 r))
  unfolding read_span
  read_first r n v h fits = ground (arith, first_span 0 r n v h fits)

  pub read_second :
      (r : Ring ℕ)
      → IsValid r
      → r.hi < r.lo
      → read_span r.vec 0 r.hi ≡ some (take r.hi (drop (vsize r - r.lo) (contents 0 r)))
  unfolding read_span
  read_second r v w = ground (arith, second_span 0 r (vsize r - r.lo) r.hi v refl)
