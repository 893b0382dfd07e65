-- ===== src/Ring/Reserve.antt =====
-- `reserve` and `expand` of `RingBuffer` (src/net/Buffer.h), by the side of the wrap the contents
-- lie on.
use netyo.Prelude.{
  ℕ, ◌+◌, ◌-◌, ◌≤◌, ◌<◌, ◌≡◌, List, arith, length, get_or, if◌then◌else◌, leb, length-append,
  get_or-append, length-replicate, get_or-replicate, get_or-eq_default, replicate, some,
}
use netyo.Ring.{Ring, vsize, slot, contents, reserve, resize}
use netyo.Ring.Entries.{IsValid, contents_ext, get_or-contents, length-contents}

module _ {A : Type 0} (d : A) where
  pub length-resize : (xs : List A) (n : ℕ) → length xs ≤ n → length (resize d xs n) ≡ n
  length-resize xs n h =
      omega
        (arith, length-append xs (replicate (n - length xs) d), length-replicate (n - length xs) d)

  -- The new entries hold `d`, which is also what is read past the end.
  pub get_or-resize : (xs : List A) (n k : ℕ) → get_or (resize d xs n) k d ≡ get_or xs k d
  get_or-resize xs n k = ground (
    arith,
    get_or-append xs (replicate (n - length xs) d) k d,
    get_or-replicate (n - length xs) d (k - length xs),
    get_or-eq_default xs k d,
  )

  -- The buffer after `reserve` where its contents do not go round the end of the vector.
  abbrev pub grown : Ring A → ℕ → Ring A
  grown r len = if leb (len + 1) (vsize r) then r else record r { vec = resize d r.vec (len + 1) }

  pub reserve-grown : (r : Ring A) (len : ℕ) → r.lo ≤ r.hi → reserve d r len ≡ some (grown r len)
  unfolding reserve
  reserve-grown r len h = ground arith

  pub grown-room :
      (r : Ring A) (len : ℕ)
      → IsValid r
      → IsValid (grown r len) × (len < vsize (grown r len)) × (vsize r ≤ vsize (grown r len))
  grown-room r len v = ground (arith, length-resize r.vec (len + 1))

  pub grown-indices : (r : Ring A) (len : ℕ) → ((grown r len).lo ≡ r.lo) × ((grown r len).hi ≡ r.hi)
  grown-indices r len = ground arith

  get_or-grown : (r : Ring A) (len k : ℕ) → get_or (grown r len).vec k d ≡ get_or r.vec k d
  get_or-grown r len k = ground (arith, get_or-resize r.vec (len + 1) k)

  pub contents-grown :
      (r : Ring A) (len : ℕ) → IsValid r → r.lo ≤ r.hi → contents d (grown r len) ≡ contents d r
  contents-grown r len v h =
      contents_ext d (grown r len) (contents d r)
        (ground (arith, length-contents d r, grown-indices r len))
        λ k p. ground (
          arith,
          get_or-grown r len (slot r k),
          grown-indices r len,
          grown-room r len v,
          get_or-contents d r k,
        )
