-- ===== src/FixedRing/Window.antt =====
-- `push_back` and `pop_front` of `FixedRingBuffer` (src/net/Buffer.h): the ring as a window on the
-- entries that were pushed.
use netyo.Prelude.{
  Option, List, ◌+◌, ◌-◌, ◌<◌, ◌≡◌, ◌∙◌, ap, [], ◌∷◌, ◌++◌, arith, if◌then◌else◌, leb, overwrite,
  get_or-overwrite, length-overwrite, drop, length-drop, get_or-drop, ℕ_discrete, some, refl,
}
use netyo.Ring.{Ring, vsize, size, slot, contents, capacity, full, mod_index, write_at}
use netyo.Ring.Entries.{IsValid, contents_ext, get_or-contents, length-contents}
use netyo.Ring.Push.{appended, appended-IsValid, contents-appended}
use netyo.FixedRing.{pop_front, evict_front, push_back}

module _ {A : Type 0} (d : A) where
  -- The oldest entry cleared and removed.
  abbrev pub front_cleared : Ring A → Ring A
  front_cleared r = record {
    vec = overwrite r.vec r.lo (d ∷ []);
    lo = if leb (vsize r) (r.lo + 1) then r.lo + 1 - vsize r else r.lo + 1;
    hi = r.hi;
  }

  front_cleared-IsValid :
      (r : Ring A)
      → IsValid r
      → 0 < size r
      → IsValid (front_cleared r)
        × (vsize (front_cleared r) ≡ vsize r)
        × (size (front_cleared r) ≡ size r - 1)
  front_cleared-IsValid r v h = ground (arith, length-overwrite r.vec r.lo (d ∷ []))

  contents-front_cleared :
      (r : Ring A) → IsValid r → 0 < size r → contents d (front_cleared r) ≡ drop 1 (contents d r)
  contents-front_cleared r v h =
      contents_ext d (front_cleared r) (drop 1 (contents d r))
        (omega
          (arith, front_cleared-IsValid r v h, length-contents d r, length-drop 1 (contents d r)))
        λ k p. ground (
          arith,
          front_cleared-IsValid r v h,
          get_or-overwrite r.vec r.lo (d ∷ []) (slot (front_cleared r) k) d,
          get_or-drop 1 (contents d r) k d,
          get_or-contents d r (1 + k),
        )

  -- `pop_front` on a valid ring does not fault, and removes the oldest entry, if there is one.
  pub pop_front-drop :
      (r : Ring A)
      → IsValid r
      → (g : Ring A) × (pop_front d r ≡ some g)
        × IsValid g
        × (vsize g ≡ vsize r)
        × (contents d g ≡ drop 1 (contents d r))
  unfolding pop_front write_at mod_index
  pop_front-drop r v = elim (ℕ_discrete (size r) 0) [
    | yes e ↦ (
      r,
      ground arith,
      v,
      refl,
      contents_ext d r (drop 1 (contents d r))
          (omega (arith, e, length-drop 1 (contents d r), length-contents d r))
          λ k p. ground (arith, e, p),
    )
    | no n ↦
        let h : 0 < size r = omega (arith, n) in
        let (i, s, _) = front_cleared-IsValid r v h in
        (front_cleared r, ground arith, i, s, contents-front_cleared r v h)
  ]

  evict_front-cleared :
      (r : Ring A) → IsValid r → evict_front d r ≡ some (if full r then front_cleared r else r)
  unfolding evict_front full write_at mod_index
  evict_front-cleared r v = ground arith

  -- What is left for a push: room for one entry, and the newest of the entries.
  pub front_room :
      (r : Ring A)
      → IsValid r
      → let g = if full r then front_cleared r else r in
        IsValid g
        × (vsize g ≡ vsize r)
        × (size g + 1 < vsize g)
        × (contents d g ≡ drop (size r + 1 - capacity r) (contents d r))
  unfolding full
  front_room r v = elim (ℕ_discrete (size r + 1) (vsize r)) [
    | yes e ↦
        let h : 0 < size r = omega (arith, e, v.room) in
        ground (arith, front_cleared-IsValid r v h, contents-front_cleared r v h)
    | no n ↦ ground (arith, v)
  ]

  pub push_back-appended :
      (r : Ring A) (v : A)
      → IsValid r
      → push_back d r v ≡ some (appended d (if full r then front_cleared r else r) v)
  unfolding push_back write_at mod_index
  push_back-appended r v i = rw (evict_front-cleared r i) (ground (arith, front_room r i))

  -- `push_back` on a valid ring does not fault and does not change its capacity; the ring then holds
  -- the newest of the old entries, one less than the capacity at most, and the new one behind them.
  pub push_back-window :
      (r : Ring A) (v : A)
      → IsValid r
      → (g : Ring A) × (push_back d r v ≡ some g)
        × IsValid g
        × (capacity g ≡ capacity r)
        × (contents d g ≡ drop (size r + 1 - capacity r) (contents d r) ++ v ∷ [])
  push_back-window r v i =
      let g = if full r then front_cleared r else r in
      let (j, s, room, c) = front_room r i in
      (
        appended d g v,
        push_back-appended r v i,
        appended-IsValid d g v j,
        omega (arith, s, length-overwrite g.vec g.hi (v ∷ []), j.hi_in),
        contents-appended d g v j room ∙ ap (λ xs. xs ++ v ∷ []) c,
      )

  -- What an operation of the ring comes to: it does not fault, it leaves a valid ring of the same
  -- capacity, and that ring holds the entries.
  abbrev pub Leaves : Ring A → Option (Ring A) → List A → Type 0
  Leaves r m xs =
      (g : Ring A) × (m ≡ some g) × IsValid g × (capacity g ≡ capacity r) × (contents d g ≡ xs)

  -- On a valid ring `push_back` and `pop_front` do not fault, keep it valid and do not change its
  -- capacity. `push_back` keeps the newest of the old entries, one less than the capacity at most, with
  -- the new entry behind them; `pop_front` removes the oldest entry, if there is one.
  pub operations-Leaves :
      (r : Ring A) (v : A)
      → IsValid r
      → Leaves r (push_back d r v) (drop (size r + 1 - capacity r) (contents d r) ++ v ∷ [])
        × Leaves r (pop_front d r) (drop 1 (contents d r))
  operations-Leaves r v i =
      let (g, e, j, s, c) = pop_front-drop r i in
      (push_back-window r v i, (g, e, j, ap (λ n. n - 1) s, c))
