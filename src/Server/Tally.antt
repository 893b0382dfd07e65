-- ===== src/Server/Tally.antt =====
-- How often an entry, or a connection, is among the entries that the server of src/net/Server.h has
-- written down.
use netyo.Prelude.{
  ℕ, zero, suc, ◌+◌, ◌<◌, ◌≡◌, ap, List, [], ◌∷◌, ◌++◌, arith, if◌then◌else◌, ltb, ◌==◌, ℕ_discrete,
  ◌⊎◌, true, refl, ◌&&◌, Bool,
}
use netyo.Server.Timeouts.{ended}
use netyo.Prelude.{◌≢◌, ◌⊎◌, inl, inr, Bool-cases}

unfoldable pub count : ℕ → List ℕ → ℕ
count e [] = 0
count e (x ∷ xs) = if x == e then count e xs + 1 else count e xs

pub count-append : (e : ℕ) (xs ys : List ℕ) → count e (xs ++ ys) ≡ count e xs + count e ys
unfolding count
count-append e [] ys = omega arith
count-append e (x ∷ xs) ys = ground (arith, count-append e xs ys)

pub count-ended : (e n : ℕ) (p : ℕ → Bool) → count e (ended n p) ≡ (if ltb e n && p e then 1 else 0)
unfolding count ended
count-ended e zero p = ground arith
count-ended e (suc n) p = elim (ℕ_discrete n e) [
  | yes q ↦ let same : p n ≡ p e = ap p q in ground (arith, q, same, count-ended e n p)
  | no q ↦ ground (arith, q, count-ended e n p)
]

-- How many of the entries were made for the connection `c`.
unfoldable pub count_for : (ℕ → ℕ) → ℕ → List ℕ → ℕ
count_for f c [] = 0
count_for f c (x ∷ xs) = if f x == c then count_for f c xs + 1 else count_for f c xs

pub count_for-append :
    (f : ℕ → ℕ) (c : ℕ) (xs ys : List ℕ)
    → count_for f c (xs ++ ys) ≡ count_for f c xs + count_for f c ys
unfolding count_for
count_for-append f c [] ys = omega arith
count_for-append f c (x ∷ xs) ys = ground (arith, count_for-append f c xs ys)

-- It does not depend on what other entries were made for.
pub count_for-agrees :
    (f g : ℕ → ℕ) (c : ℕ) (xs : List ℕ)
    → ((e : ℕ) → (count e xs ≡ 0) ⊎ (g e ≡ f e))
    → count_for g c xs ≡ count_for f c xs
unfolding count_for count
count_for-agrees f g c [] h = refl
count_for-agrees f g c (x ∷ xs) h =
    let here : g x ≡ f x = elim (h x) [ inl z ↦ absurd (ground (arith, z)) | inr z ↦ z ] in
    let rest =
      count_for-agrees f g c xs
        λ e. elim (h e) [ inl z ↦ inl (ground (arith, z)) | inr z ↦ inr z ] in
    rw (here, rest) refl

-- If no entry but `e` ended for the connection, it is there once or not at all.
pub count_for-ended :
    (f : ℕ → ℕ) (c e n : ℕ) (p : ℕ → Bool)
    → ((i : ℕ) → i < n → p i ≡ true → f i ≡ c → i ≡ e)
    → count_for f c (ended n p) ≡ (if ltb e n && (p e && (f e == c)) then 1 else 0)
unfolding count_for ended
count_for-ended f c e zero p h = ground arith
count_for-ended f c e (suc n) p h =
    let rest = count_for-ended f c e n p λ i u. h i (omega (arith, u)) in
    elim (ℕ_discrete n e) [
      | yes z ↦
          let same : p n ≡ p e = ap p z in
          let made : f n ≡ f e = ap f z in ground (arith, z, same, made, rest)
      | no z ↦ elim (Bool-cases (p n)) [
        | inl a ↦
            let other : f n ≢ c = λ m. z (h n (omega arith) a m) in
            ground (arith, z, a, other, rest)
        | inr a ↦ ground (arith, z, a, rest)
      ]
    ]
