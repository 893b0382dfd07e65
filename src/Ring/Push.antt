-- ===== src/Ring/Push.antt =====
-- `push_back` of `RingBuffer` (src/net/Buffer.h), with the growth before them.
use netyo.Prelude.{
  ◌+◌, ◌-◌, ◌*◌, ◌≤◌, ◌<◌, ◌≡◌, ◌∙◌, ap, [], ◌∷◌, ◌++◌, arith, if◌then◌else◌, leb, overwrite,
  get_or-overwrite, length-overwrite, length-append, get_or-append, some, true,
}
use netyo.Ring.{
  Ring, vsize, size, slot, contents, full, capacity, expand, grow, push_back, mod_index, write_at,
}
use netyo.Ring.Entries.{IsValid, contents_ext, get_or-contents, length-contents}
use netyo.Ring.Reserve.{grown, reserve-grown, grown-room, grown-indices, contents-grown}

module _ {A : Type 0} (d : A) where
  -- One entry written at `hi`, which moves on.
  abbrev pub appended : Ring A → A → Ring A
  appended r v = record {
    vec = overwrite r.vec r.hi (v ∷ []);
    lo = r.lo;
    hi = if leb (vsize r) (r.hi + 1) then r.hi + 1 - vsize r else r.hi + 1;
  }

  pub appended-IsValid : (r : Ring A) (v : A) → IsValid r → IsValid (appended r v)
  appended-IsValid r v i = ground (arith, length-overwrite r.vec r.hi (v ∷ []))

  size-appended :
      (r : Ring A) (v : A) → IsValid r → size r + 1 < vsize r → size (appended r v) ≡ size r + 1
  size-appended r v i free = ground (arith, length-overwrite r.vec r.hi (v ∷ []))

  pub contents-appended :
      (r : Ring A) (v : A)
      → IsValid r
      → size r + 1 < vsize r
      → contents d (appended r v) ≡ contents d r ++ (v ∷ [])
  contents-appended r v i free =
      contents_ext d (appended r v) (contents d r ++ (v ∷ []))
        (omega (
          arith,
          size-appended r v i free,
          length-append (contents d r) (v ∷ []),
          length-contents d r,
        ))
        λ k p. ground (
          arith,
          size-appended r v i free,
          length-overwrite r.vec r.hi (v ∷ []),
          get_or-overwrite r.vec r.hi (v ∷ []) (slot r k) d,
          get_or-append (contents d r) (v ∷ []) k d,
          length-contents d r,
          get_or-contents d r k,
        )

  -- The buffer after the growth that a push may make first.
  abbrev pub roomy : Ring A → Ring A
  roomy r = if full r then grown d r (2 * capacity r) else r

  grow-roomy : (r : Ring A) → IsValid r → (full r ≡ true → r.lo ≤ r.hi) → grow d r ≡ some (roomy r)
  unfolding grow expand
  grow-roomy r v h = ground (arith, reserve-grown d r (2 * capacity r))

  roomy-room :
      (r : Ring A)
      → IsValid r
      → (full r ≡ true → r.lo ≤ r.hi)
      → IsValid (roomy r) × (size (roomy r) + 1 < vsize (roomy r))
  unfolding full
  roomy-room r v h =
      ground (arith, grown-room d r (2 * capacity r) v, grown-indices d r (2 * capacity r))

  contents-roomy :
      (r : Ring A) → IsValid r → (full r ≡ true → r.lo ≤ r.hi) → contents d (roomy r) ≡ contents d r
  contents-roomy r v h = ground (arith, contents-grown d r (2 * capacity r))

  push_back-appended :
      (r : Ring A) (v : A)
      → IsValid r
      → (full r ≡ true → r.lo ≤ r.hi)
      → push_back d r v ≡ some (appended (roomy r) v)
  unfolding push_back write_at mod_index
  push_back-appended r v i h = rw (grow-roomy r i h) (ground (arith, roomy-room r i h))

  pub push_back-contents :
      (r : Ring A) (v : A)
      → IsValid r
      → (full r ≡ true → r.lo ≤ r.hi)
      → (g : Ring A) × (push_back d r v ≡ some g)
        × IsValid g
        × (contents d g ≡ contents d r ++ v ∷ [])
  push_back-contents r v i h = (
    appended (roomy r) v,
    push_back-appended r v i h,
    appended-IsValid (roomy r) v (roomy-room r i h).0,
    contents-appended (roomy r) v (roomy-room r i h).0 (roomy-room r i h).1
        ∙ ap (λ xs. xs ++ v ∷ []) (contents-roomy r i h),
  )
