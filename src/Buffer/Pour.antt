-- ===== src/Buffer/Pour.antt =====
-- A run of bytes written behind the contents of a `Buffer` (src/net/Buffer.h) in two pieces, at `hi`
-- and at the start of the vector.
use netyo.Prelude.{
  ℕ, ◌+◌, ◌-◌, ◌≤◌, ◌<◌, ◌≡◌, List, ◌++◌, arith, length, get_or, if◌then◌else◌, leb, ltb, overwrite,
  get_or-overwrite, length-overwrite, length-append, get_or-append, take, drop, length-take,
  length-drop, get_or-take, get_or-drop, ◌⊎◌, min, ◌&&◌,
}
use netyo.Prelude.Int.{pos}
use netyo.Ring.{Ring, vsize, size, slot, contents, mod_index}
use netyo.Ring.Entries.{IsValid, contents_ext, get_or-contents, length-contents}

-- The first `m` of the bytes go to the index `i`, the others to the start.
abbrev pub spread : List ℕ → ℕ → ℕ → List ℕ → List ℕ
spread vec i m bs = overwrite (overwrite vec i (take m bs)) 0 (drop m bs)

pub length-spread : (vec : List ℕ) (i m : ℕ) (bs : List ℕ) → length (spread vec i m bs) ≡ length vec
length-spread vec i m bs = omega (
  arith,
  length-overwrite (overwrite vec i (take m bs)) 0 (drop m bs),
  length-overwrite vec i (take m bs),
)

pub get_or-spread :
    (vec : List ℕ) (i m : ℕ) (bs : List ℕ) (j : ℕ)
    → i + min m (length bs) ≤ length vec
    → length bs - m ≤ i
    → get_or (spread vec i m bs) j 0 ≡ (
        if ltb j (length bs - m)
        then get_or bs (m + j) 0
        else if leb i j && ltb j (i + min m (length bs))
        then get_or bs (j - i) 0
        else get_or vec j 0)
get_or-spread vec i m bs j h k = ground (
  arith,
  get_or-overwrite (overwrite vec i (take m bs)) 0 (drop m bs) j 0,
  get_or-overwrite vec i (take m bs) j 0,
  length-overwrite vec i (take m bs),
  length-take m bs,
  length-drop m bs,
  get_or-drop m bs j 0,
  get_or-take m bs (j - i) 0,
)

abbrev pub poured : Ring ℕ → ℕ → List ℕ → Ring ℕ
poured g m bs = record {
  vec = spread g.vec g.hi m bs;
  lo = g.lo;
  hi = mod_index (vsize g) (pos (g.hi + length bs));
}

-- The bytes leave a slot free, and reach the start only from the end of the vector.
pub record HasRoom (g : Ring ℕ) (m : ℕ) (n : ℕ) : Type 0 where
  pub free : size g + n < vsize g
  pub piece : g.hi + min m n ≤ vsize g
  pub turn : (n ≤ m) ⊎ (g.hi + m ≡ vsize g)

module _ (g : Ring ℕ) (m : ℕ) (bs : List ℕ) (v : IsValid g) (h : HasRoom g m (length bs)) where
  pub poured-IsValid : IsValid (poured g m bs)
  unfolding mod_index
  poured-IsValid = ground (arith, length-spread g.vec g.hi m bs)

  pub size-poured : size (poured g m bs) ≡ size g + length bs
  unfolding mod_index
  size-poured = ground (arith, length-spread g.vec g.hi m bs)

  old_entry :
      (k : ℕ)
      → k < size g
      → get_or (poured g m bs).vec (slot (poured g m bs) k) 0 ≡ get_or g.vec (slot g k) 0
  old_entry k p =
      ground (arith, length-spread g.vec g.hi m bs, get_or-spread g.vec g.hi m bs (slot g k))

  new_entry :
      (k : ℕ)
      → size g ≤ k
      → k < size g + length bs
      → get_or (poured g m bs).vec (slot (poured g m bs) k) 0 ≡ get_or bs (k - size g) 0
  new_entry k p q =
      ground (arith, length-spread g.vec g.hi m bs, get_or-spread g.vec g.hi m bs (slot g k))

  pub contents-poured : contents 0 (poured g m bs) ≡ contents 0 g ++ bs
  contents-poured =
      contents_ext 0 (poured g m bs) (contents 0 g ++ bs)
        (omega (arith, size-poured, length-append (contents 0 g) bs, length-contents 0 g))
        λ k p. ground (
          arith,
          size-poured,
          old_entry k,
          new_entry k,
          get_or-append (contents 0 g) bs k 0,
          length-contents 0 g,
          get_or-contents 0 g k,
        )
