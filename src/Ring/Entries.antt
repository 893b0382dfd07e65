-- ===== src/Ring/Entries.antt =====
-- The contents of a `RingBuffer` (src/net/Buffer.h), entry by entry.
use netyo.Prelude.{
  ℕ, ◌≤◌, ◌<◌, ◌≡◌, ◌∙◌, List, arith, length, get_or, length-tabulate, get_or-tabulate, list_ext,
}
use netyo.Ring.{Ring, vsize, size, slot, contents}

-- Both indices are in the vector, and the vector has room for an entry.
pub record IsValid {ℓ} {A : Type ℓ} (r : Ring A) : Type 0 where
  pub room : 2 ≤ vsize r
  pub lo_in : r.lo < vsize r
  pub hi_in : r.hi < vsize r

-- One slot is always free.
pub size-lt-vsize : {A : Type 0} (r : Ring A) → IsValid r → size r < vsize r
size-lt-vsize r v = ground arith

module _ {A : Type 0} (d : A) where
  pub length-contents : (r : Ring A) → length (contents d r) ≡ size r
  unfolding contents
  length-contents r = length-tabulate (size r) _

  pub get_or-contents :
      (r : Ring A) (k : ℕ) → k < size r → get_or (contents d r) k d ≡ get_or r.vec (slot r k) d
  unfolding contents
  get_or-contents r k h = get_or-tabulate (size r) _ k d h

  -- A list is the contents if it has their number and each of them.
  pub contents_ext :
      (r : Ring A) (xs : List A)
      → size r ≡ length xs
      → ((k : ℕ) → k < size r → get_or r.vec (slot r k) d ≡ get_or xs k d)
      → contents d r ≡ xs
  contents_ext r xs e h =
      list_ext d (contents d r) xs (length-contents r ∙ e) λ k p.
        let q : k < size r = omega (arith, length-contents r) in get_or-contents r k q ∙ h k q
