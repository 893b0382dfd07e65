-- ===== src/Wheel/Ticking.antt =====
-- Ticks of a timing wheel of src/net/TimingWheel.h whose first wheel has gone round once and whose other
-- wheels are empty, and insertions into its first wheel.
use netyo.Prelude.{
  ℕ, zero, suc, ◌+◌, ◌-◌, ◌*◌, ◌≤◌, ◌<◌, ◌≡◌, ◌∙◌, ap, [], ◌∷◌, ◌++◌, arith, length, get_or,
  if◌then◌else◌, leb, ltb, ◌==◌, overwrite, get_or-overwrite, length-overwrite, ℕ_discrete, ◌⊎◌,
  some, ◌>>=◌, true, false, refl, Bool-cases, inl, inr, subst, ◌&&◌, Bool,
}
use netyo.Prelude.{◌%◌, get_elem?, get_elem?-get_or}
use netyo.Ring.{Ring, vsize, size, slot, full}
use netyo.Ring.Entries.{IsValid}
use netyo.Ring.Push.{appended, appended-IsValid}
use netyo.FixedRing.{push_back}
use netyo.FixedRing.Window.{push_back-appended, front_cleared, front_room}
use netyo.Wheel.{plain, put_back, Bucket, Wheels, bucket_size, dropped, release, tick_from}
use netyo.Wheel.Lease.{bucket_at, holds, last_below, last_below_shift, remaining}

-- A bucket of entries that were inserted by callers, with numbers below `n`.
abbrev pub Ours : ℕ → Bucket → Type 0
Ours n [] = Unit {0}
Ours n (plain m ∷ es) = (m < n) × Ours n es
Ours n (put_back i p e ∷ es) = ⊥

abbrev pub empty_wheel : Ring Bucket
empty_wheel = record { vec = []; lo = 0; hi = 0 }

abbrev pub wheel_at : Wheels → ℕ → Ring Bucket
wheel_at ws j = get_or ws j empty_wheel

pub record IsBlank (r : Ring Bucket) : Type 0 where
  pub valid : IsValid r
  pub nothing : (i : ℕ) → get_or r.vec i [] ≡ []

pub record IsFull (n : ℕ) (r : Ring Bucket) : Type 0 where
  pub valid : IsValid r
  pub full_size : size r + 1 ≡ vsize r
  pub free : bucket_at r (size r) ≡ []
  pub ours : (i : ℕ) → Ours n (get_or r.vec i [])

pub record IsReady (n : ℕ) (ws : Wheels) : Type 0 where
  pub some_wheel : 1 ≤ length ws
  pub first : IsFull n (wheel_at ws 0)
  pub others : (j : ℕ) → 1 ≤ j → j < length ws → IsBlank (wheel_at ws j)

abbrev pub pushed : Ring Bucket → Ring Bucket
pushed r = appended [] (if full r then front_cleared [] r else r) []

push_back-pushed : (r : Ring Bucket) → IsValid r → push_back [] r [] ≡ some (pushed r)
push_back-pushed r v = push_back-appended [] r [] v

-- What a push leaves in the slots.
get_or-pushed :
    (r : Ring Bucket) (i : ℕ)
    → IsValid r
    → (get_or (pushed r).vec i [] ≡ []) ⊎ (get_or (pushed r).vec i [] ≡ get_or r.vec i [])
unfolding full
get_or-pushed r i v = ground (
  arith,
  get_or-overwrite r.vec r.lo ([] ∷ []) i [],
  get_or-overwrite r.vec r.hi ([] ∷ []) i [],
  get_or-overwrite (overwrite r.vec r.lo ([] ∷ [])) r.hi ([] ∷ []) i [],
  length-overwrite r.vec r.lo ([] ∷ []),
)

pushed-IsBlank : (r : Ring Bucket) → IsBlank r → IsBlank (pushed r)
pushed-IsBlank r b = record {
  valid =
      appended-IsValid [] (if full r then front_cleared [] r else r) [] (front_room [] r b.valid).0;
  nothing = λ i. elim (get_or-pushed r i b.valid) [ inl e ↦ e | inr e ↦ e ∙ b.nothing i ];
}

-- A push on a full wheel.
abbrev pub ticked : Ring Bucket → Ring Bucket
ticked r = appended [] (front_cleared [] r) []

pub pushed_full : (r : Ring Bucket) → size r + 1 ≡ vsize r → pushed r ≡ ticked r
unfolding full
pushed_full r f =
    let e : full r ≡ true = ground arith in
    ap (λ b. appended [] (if b then front_cleared [] r else r) []) e

bucket_at-ticked :
    (r : Ring Bucket) (k : ℕ)
    → IsValid r
    → size r + 1 ≡ vsize r
    → k < vsize r
    → bucket_at (ticked r) k ≡ (if ltb (k + 1) (size r) then bucket_at r (k + 1) else [])
bucket_at-ticked r k v f h = ground (
  arith,
  get_or-overwrite r.vec r.lo ([] ∷ []) (slot (ticked r) k) [],
  get_or-overwrite (overwrite r.vec r.lo ([] ∷ [])) r.hi ([] ∷ []) (slot (ticked r) k) [],
  length-overwrite r.vec r.lo ([] ∷ []),
  length-overwrite (overwrite r.vec r.lo ([] ∷ [])) r.hi ([] ∷ []),
)

pub size-ticked :
    (r : Ring Bucket)
    → IsValid r
    → size r + 1 ≡ vsize r
    → IsValid (ticked r) × (size (ticked r) ≡ size r) × (vsize (ticked r) ≡ vsize r)
size-ticked r v f = ground (
  arith,
  length-overwrite r.vec r.lo ([] ∷ []),
  length-overwrite (overwrite r.vec r.lo ([] ∷ [])) r.hi ([] ∷ []),
)

pub ticked-IsFull : (n : ℕ) (r : Ring Bucket) → IsFull n r → IsFull n (ticked r)
ticked-IsFull n r b =
    let (v, s, l) = size-ticked r b.valid b.full_size in
    let same = pushed_full r b.full_size in
    record {
      valid = v;
      full_size = omega (arith, s, l, b.full_size);
      free =
          bucket_at-ticked r (size (ticked r)) b.valid b.full_size (omega (arith, s, b.full_size))
          ∙ ground (arith, s);
      ours = λ i.
          elim (subst (λ g. (get_or g.vec i [] ≡ []) ⊎ (get_or g.vec i [] ≡ get_or r.vec i [])) same
            (get_or-pushed r i b.valid)) [ inl e ↦ rw e tt | inr e ↦ rw e (b.ours i) ];
    }

pub remaining-ticked :
    (e n : ℕ) (r : Ring Bucket) → IsFull n r → remaining e (ticked r) ≡ remaining e r - 1
unfolding remaining
remaining-ticked e n r b =
    let (_, _, l) = size-ticked r b.valid b.full_size in
    let p : ℕ → Bool = λ k. holds e (bucket_at r k) in
    let q : ℕ → Bool = λ k. holds e (bucket_at (ticked r) k) in
    ap (last_below q) l
    ∙ last_below_shift p q (vsize r) λ k u.
      let moved = ap (holds e) (bucket_at-ticked r k b.valid b.full_size u) in
      elim (ℕ_discrete (k + 1) (size r)) [
        | yes same ↦
            let none_there : p (k + 1) ≡ false = ap p same ∙ ap (holds e) b.free in
            moved ∙ ground (arith, none_there, b.full_size, same)
        | no other ↦ moved ∙ ground (arith, b.full_size, other, u)
      ]

release-Ours : (n : ℕ) (b : Bucket) (ws : Wheels) → Ours n b → release b ws ≡ some ws
unfolding release
release-Ours n [] ws h = refl
release-Ours n (plain m ∷ es) ws h = release-Ours n es ws h.1
release-Ours n (put_back i p e ∷ es) ws h = absurd h

Ours-append : (n : ℕ) (b c : Bucket) → Ours n b → Ours n c → Ours n (b ++ c)
Ours-append n [] c h g = g
Ours-append n (plain m ∷ es) c h g = (h.0, Ours-append n es c h.1 g)
Ours-append n (put_back i p e ∷ es) c h g = absurd h

dropped-Ours :
    (n : ℕ) (r : Ring Bucket) → ((i : ℕ) → Ours n (get_or r.vec i [])) → Ours n (dropped r)
dropped-Ours n r h = elim (Bool-cases (full r)) [
  | inl f ↦ rw f (Ours-append n (get_or r.vec r.lo []) (get_or r.vec r.hi []) (h r.lo) (h r.hi))
  | inr f ↦ rw f (h r.hi)
]

-- A tick of one wheel that holds no entry that is put back.
pub pushed_at :
    (n j : ℕ) (ws : Wheels)
    → j < length ws
    → IsValid (wheel_at ws j)
    → ((i : ℕ) → Ours n (get_or (wheel_at ws j).vec i []))
    → (do
      r ← get_elem? ws j
      r' ← push_back [] r []
      release (dropped r) (overwrite ws j (r' ∷ [])))
      ≡ some (overwrite ws j (pushed (wheel_at ws j) ∷ []))
pushed_at n j ws h v ours =
    rw (get_elem?-get_or ws j empty_wheel h, push_back-pushed (wheel_at ws j) v)
      (release-Ours n (dropped (wheel_at ws j)) (overwrite ws j (pushed (wheel_at ws j) ∷ []))
        (dropped-Ours n (wheel_at ws j) ours))

-- The wheels from `i` on hold nothing; the other wheels stay as they are.
pub tick_from-others :
    (n i base t : ℕ) (ws : Wheels)
    → 1 ≤ i
    → i + n ≡ length ws
    → ((j : ℕ) → 1 ≤ j → j < length ws → IsBlank (wheel_at ws j))
    → (ws' : Wheels) × (tick_from n i base t ws ≡ some ws')
      × (length ws' ≡ length ws)
      × (wheel_at ws' 0 ≡ wheel_at ws 0)
      × ((j : ℕ) → 1 ≤ j → j < length ws' → IsBlank (wheel_at ws' j))
unfolding tick_from
tick_from-others zero i base t ws h l blank = (ws, refl, refl, refl, blank)
tick_from-others (suc n) i base t ws h l blank =
    let inside : i < length ws = omega (arith, l) in
    let b : IsBlank (wheel_at ws i) = blank i h inside in
    let ws1 : Wheels = overwrite ws i (pushed (wheel_at ws i) ∷ []) in
    let long : length ws1 ≡ length ws = length-overwrite ws i (pushed (wheel_at ws i) ∷ []) in
    let reads : (j : ℕ)
        → wheel_at ws1 j ≡ (
            if leb i j && ltb j (i + 1)
            then get_or (pushed (wheel_at ws i) ∷ []) (j - i) empty_wheel
            else wheel_at ws j) =
      λ j.
        get_or-overwrite ws i (pushed (wheel_at ws i) ∷ []) j empty_wheel (omega (arith, inside)) in
    let blank1 : (j : ℕ) → 1 ≤ j → j < length ws1 → IsBlank (wheel_at ws1 j) = λ j one u.
      elim (ℕ_discrete j i) [
        | yes e ↦
            let there : wheel_at ws1 j ≡ pushed (wheel_at ws i) = reads j ∙ ground (arith, e) in
            rw there (pushed-IsBlank (wheel_at ws i) b)
        | no o ↦
            let there : wheel_at ws1 j ≡ wheel_at ws j = reads j ∙ ground (arith, o) in
            rw there (blank j one (omega (arith, long, u)))
      ] in
    elim (Bool-cases (t % base == 0)) [
      | inl e ↦
          let (ws', d, l', z, q) =
            tick_from-others n (i + 1) (base * bucket_size) t ws1 (omega arith)
              (omega (arith, l, long)) blank1 in
          (
            ws',
            rw (e, pushed_at 0 i ws inside b.valid (λ k. rw (b.nothing k) tt)) d,
            l' ∙ long,
            z ∙ reads 0 ∙ ground (arith, h),
            q,
          )
      | inr e ↦
          let (ws', d, l', z, q) =
            tick_from-others n (i + 1) (base * bucket_size) t ws (omega arith) (omega (arith, l))
              blank in
          (ws', rw e d, l', z, q)
    ]
