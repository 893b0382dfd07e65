-- ===== src/Wheel/Lease.antt =====
-- How many ticks are left to an entry of src/net/TimingWheel.h, by the buckets that hold it.
use netyo.Prelude.{
  ℕ, zero, suc, ◌+◌, ◌-◌, ◌≤◌, ◌<◌, ◌≡◌, ◌∙◌, [], ◌∷◌, arith, get_or, if◌then◌else◌, leb, ltb, ◌==◌,
  true, false, refl, Bool-cases, inl, inr, Bool,
}
use netyo.Prelude.{◌||◌, List}
use netyo.Ring.{Ring, vsize, slot}
use netyo.Wheel.{Entry, plain, put_back, Bucket}

-- The bucket `k` of a wheel, from its oldest on; the last of them is the free slot.
abbrev pub bucket_at : Ring Bucket → ℕ → Bucket
bucket_at r k = get_or r.vec (slot r k) []

-- The entry `e` is the one, or is put back by it in the end.
abbrev pub within : ℕ → Entry → Bool
within e (plain n) = n == e
within e (put_back i p x) = within e x

abbrev pub holds : ℕ → Bucket → Bool
holds e [] = false
holds e (x ∷ xs) = within e x || holds e xs

-- One more than the last index below `n` at which a test holds, or 0.
unfoldable pub last_below : (ℕ → Bool) → ℕ → ℕ
last_below p zero = 0
last_below p (suc n) = if p n then suc n else last_below p n

unfoldable pub any_below : (ℕ → Bool) → ℕ → Bool
any_below p zero = false
any_below p (suc n) = p n || any_below p n

pub any_below-last_below : (p : ℕ → Bool) (n : ℕ) → any_below p n ≡ ltb 0 (last_below p n)
unfolding any_below last_below
any_below-last_below p zero = refl
any_below-last_below p (suc n) = elim (Bool-cases (p n)) [
  | inl h ↦ rw h (ground arith)
  | inr h ↦ rw h (any_below-last_below p n)
]

last_below-le : (p : ℕ → Bool) (n : ℕ) → last_below p n ≤ n
unfolding last_below
last_below-le p zero = omega arith
last_below-le p (suc n) = ground (arith, last_below-le p n)

pub last_below-nothing :
    (p : ℕ → Bool) (n : ℕ) → ((k : ℕ) → k < n → p k ≡ false) → last_below p n ≡ 0
unfolding last_below
last_below-nothing p zero h = refl
last_below-nothing p (suc n) h =
    rw (h n (omega arith)) (last_below-nothing p n λ k q. h k (omega arith))

pub last_below_ext :
    (p q : ℕ → Bool) (n : ℕ) → ((k : ℕ) → k < n → q k ≡ p k) → last_below q n ≡ last_below p n
unfolding last_below
last_below_ext p q zero h = refl
last_below_ext p q (suc n) h =
    rw (h n (omega arith), last_below_ext p q n λ k u. h k (omega arith)) refl

last_below-moved :
    (p q : ℕ → Bool) (n m : ℕ)
    → ((k : ℕ) → k < n → q k ≡ (if ltb (k + 1) n then p (k + 1) else false))
    → m + 1 ≤ n
    → last_below q m ≡ last_below p (suc m) - 1
unfolding last_below
last_below-moved p q n zero h le = ground arith
last_below-moved p q n (suc m) h le =
    let same : q m ≡ p (suc m) = h m (omega arith) ∙ ground arith in
    elim (Bool-cases (p (suc m))) [
      | inl e ↦ rw (same, e) (ground arith)
      | inr e ↦ rw (same, e) (last_below-moved p q n m h (omega arith))
    ]

-- All indices but the last have moved down by one, and nothing is at the last.
pub last_below_shift :
    (p q : ℕ → Bool) (n : ℕ)
    → ((k : ℕ) → k < n → q k ≡ (if ltb (k + 1) n then p (k + 1) else false))
    → last_below q n ≡ last_below p n - 1
unfolding last_below
last_below_shift p q zero h = refl
last_below_shift p q (suc n) h =
    let last : q n ≡ false = h n (omega arith) ∙ ground arith in
    rw last (last_below-moved p q (suc n) n h (omega arith))

-- One index has been added.
pub last_below_added :
    (p q : ℕ → Bool) (d n : ℕ)
    → ((k : ℕ) → k < n → q k ≡ (if k + 1 == d then true else p k))
    → 1 ≤ d
    → last_below q n
      ≡ (if leb d n then if ltb (last_below p n) d then d else last_below p n else last_below p n)
unfolding last_below
last_below_added p q d zero h one = ground arith
last_below_added p q d (suc n) h one = ground (
  arith,
  h n (omega arith),
  last_below-le p n,
  last_below_added p q d n (λ k u. h k (omega arith)) one,
)

-- The ticks that are left to the entry `e` in a wheel.
unfoldable pub remaining : ℕ → Ring Bucket → ℕ
unfolding last_below
remaining e r = last_below (λ k. holds e (bucket_at r k)) (vsize r)

-- Some bucket of some wheel holds the entry, so that its weak pointers have not expired.
unfoldable pub alive : ℕ → List (Ring Bucket) → Bool
unfolding any_below
alive e [] = false
alive e (r ∷ rs) = any_below (λ k. holds e (bucket_at r k)) (vsize r) || alive e rs

pub any_below-remaining :
    (e : ℕ) (r : Ring Bucket)
    → any_below (λ k. holds e (bucket_at r k)) (vsize r) ≡ ltb 0 (remaining e r)
unfolding remaining
any_below-remaining e r = any_below-last_below (λ k. holds e (bucket_at r k)) (vsize r)
