-- ===== src/Prelude/Lists.antt =====
-- Lists measured and indexed by native numbers, under the library's names, and equality of lists
-- by length and entries.
use Prim.Native.Nat.{ℕ, zero, suc, ◌+◌, ◌-◌, ◌<◌, ◌≤◌, min}
use mathlib.Core.Path.{◌≡◌, refl, ap, ap₂}
use mathlib.Core.Bool.{false, true, ◌&&◌}
use mathlib.Core.Option.{Option, none, some}
use mathlib.Core.List.{List, [], ◌∷◌, ◌++◌}
use native.Mathlib.Omega.{arith}
use netyo.Prelude.Tests.{ltb, leb, if◌then◌else◌}

empty_span : (i j : ℕ) → (leb i j && ltb j (i + 0)) ≡ false
empty_span i j = ground arith

positive : (k : ℕ) → ltb 0 (suc k) ≡ true
positive k = ground arith

suc_minus : (k : ℕ) → suc k - 1 ≡ k
suc_minus k = omega arith

span_zero : (j n : ℕ) → (leb 0 (suc j) && ltb (suc j) (0 + suc n)) ≡ (leb 0 j && ltb j (0 + n))
span_zero j n = ground arith

span_suc :
    (i j n : ℕ) → (leb (suc i) (suc j) && ltb (suc j) (suc i + n)) ≡ (leb i j && ltb j (i + n))
span_suc i j n = ground arith

minus_suc : (m n : ℕ) → suc m - suc n ≡ m - n
minus_suc m n = omega arith

minus_zero : (n : ℕ) → n - 0 ≡ n
minus_zero n = omega arith

module _ {ℓ} {A : Type ℓ} where
  abbrev pub length : List A → ℕ
  length [] = 0
  length (x ∷ xs) = suc (length xs)

  abbrev pub get_or : List A → ℕ → A → A
  get_or [] i d = d
  get_or (x ∷ xs) zero d = x
  get_or (x ∷ xs) (suc i) d = get_or xs i d

  abbrev pub get_elem? : List A → ℕ → Option A
  get_elem? [] i = none
  get_elem? (x ∷ xs) zero = some x
  get_elem? (x ∷ xs) (suc i) = get_elem? xs i

  abbrev pub take : ℕ → List A → List A
  take zero xs = []
  take (suc n) [] = []
  take (suc n) (x ∷ xs) = x ∷ take n xs

  abbrev pub drop : ℕ → List A → List A
  drop zero xs = xs
  drop (suc n) [] = []
  drop (suc n) (x ∷ xs) = drop n xs

  abbrev pub replicate : ℕ → A → List A
  replicate zero a = []
  replicate (suc n) a = a ∷ replicate n a

  -- The entries `f 0`, …, `f (n - 1)`.
  abbrev pub tabulate : ℕ → (ℕ → A) → List A
  tabulate zero f = []
  tabulate (suc n) f = f 0 ∷ tabulate n (λ k. f (suc k))

  -- `bs` over the entries from index `i` on; what would fall past the end is left out.
  abbrev pub overwrite : List A → ℕ → List A → List A
  overwrite [] i bs = []
  overwrite (x ∷ xs) zero [] = x ∷ xs
  overwrite (x ∷ xs) zero (b ∷ bs) = b ∷ overwrite xs zero bs
  overwrite (x ∷ xs) (suc i) bs = x ∷ overwrite xs i bs

  pub get_elem?-get_or :
      (xs : List A) (k : ℕ) (d : A) → k < length xs → get_elem? xs k ≡ some (get_or xs k d)
  get_elem?-get_or [] k d h = absurd (omega (arith, h))
  get_elem?-get_or (x ∷ xs) zero d h = refl
  get_elem?-get_or (x ∷ xs) (suc k) d h = get_elem?-get_or xs k d (omega arith)

  pub length-append : (xs ys : List A) → length (xs ++ ys) ≡ length xs + length ys
  length-append [] ys = omega arith
  length-append (x ∷ xs) ys = omega (arith, length-append xs ys)

  pub length-take : (n : ℕ) (xs : List A) → length (take n xs) ≡ min n (length xs)
  length-take zero xs = omega arith
  length-take (suc n) [] = omega arith
  length-take (suc n) (x ∷ xs) = omega (arith, length-take n xs)

  pub length-drop : (n : ℕ) (xs : List A) → length (drop n xs) ≡ length xs - n
  length-drop zero xs = omega arith
  length-drop (suc n) [] = omega arith
  length-drop (suc n) (x ∷ xs) = omega (arith, length-drop n xs)

  pub length-replicate : (n : ℕ) (a : A) → length (replicate n a) ≡ n
  length-replicate zero a = refl
  length-replicate (suc n) a = ap suc (length-replicate n a)

  pub length-tabulate : (n : ℕ) (f : ℕ → A) → length (tabulate n f) ≡ n
  length-tabulate zero f = refl
  length-tabulate (suc n) f = ap suc (length-tabulate n (λ k. f (suc k)))

  pub length-overwrite :
      (xs : List A) (i : ℕ) (bs : List A) → length (overwrite xs i bs) ≡ length xs
  length-overwrite [] i bs = refl
  length-overwrite (x ∷ xs) zero [] = refl
  length-overwrite (x ∷ xs) zero (b ∷ bs) = ap suc (length-overwrite xs zero bs)
  length-overwrite (x ∷ xs) (suc i) bs = ap suc (length-overwrite xs i bs)

  -- The default is read past the end.
  pub get_or-eq_default : (xs : List A) (k : ℕ) (d : A) → length xs ≤ k → get_or xs k d ≡ d
  get_or-eq_default [] k d h = refl
  get_or-eq_default (x ∷ xs) zero d h = absurd (omega arith)
  get_or-eq_default (x ∷ xs) (suc k) d h = get_or-eq_default xs k d (omega arith)

  pub get_or-append :
      (xs ys : List A) (k : ℕ) (d : A)
      → get_or (xs ++ ys) k d
        ≡ (if ltb k (length xs) then get_or xs k d else get_or ys (k - length xs) d)
  get_or-append [] ys k d = ground arith
  get_or-append (x ∷ xs) ys zero d = ground arith
  get_or-append (x ∷ xs) ys (suc k) d = ground (arith, get_or-append xs ys k d)

  pub get_or-cons :
      (x : A) (xs : List A) (k : ℕ) (d : A)
      → get_or (x ∷ xs) k d ≡ (if ltb 0 k then get_or xs (k - 1) d else x)
  get_or-cons x xs zero d = refl
  get_or-cons x xs (suc k) d = rw (suc_minus k, positive k)

  pub get_or-take :
      (n : ℕ) (xs : List A) (k : ℕ) (d : A) → k < n → get_or (take n xs) k d ≡ get_or xs k d
  get_or-take zero xs k d h = elim h [ ]
  get_or-take (suc n) [] k d h = refl
  get_or-take (suc n) (x ∷ xs) zero d h = refl
  get_or-take (suc n) (x ∷ xs) (suc k) d h = get_or-take n xs k d (omega arith)

  pub get_or-drop :
      (n : ℕ) (xs : List A) (k : ℕ) (d : A) → get_or (drop n xs) k d ≡ get_or xs (n + k) d
  get_or-drop zero xs k d = ground arith
  get_or-drop (suc n) [] k d = refl
  get_or-drop (suc n) (x ∷ xs) k d = ground (arith, get_or-drop n xs k d)

  pub get_or-replicate : (n : ℕ) (d : A) (k : ℕ) → get_or (replicate n d) k d ≡ d
  get_or-replicate zero d k = refl
  get_or-replicate (suc n) d zero = refl
  get_or-replicate (suc n) d (suc k) = get_or-replicate n d k

  pub get_or-tabulate :
      (n : ℕ) (f : ℕ → A) (k : ℕ) (d : A) → k < n → get_or (tabulate n f) k d ≡ f k
  get_or-tabulate zero f k d h = elim h [ ]
  get_or-tabulate (suc n) f zero d h = refl
  get_or-tabulate (suc n) f (suc k) d h = get_or-tabulate n (λ k. f (suc k)) k d (omega arith)

  pub get_or-overwrite :
      (xs : List A) (i : ℕ) (bs : List A) (j : ℕ) (d : A)
      → i + length bs ≤ length xs
      → get_or (overwrite xs i bs) j d
        ≡ (if leb i j && ltb j (i + length bs) then get_or bs (j - i) d else get_or xs j d)
  get_or-overwrite [] i [] j d h = rw (empty_span i j)
  get_or-overwrite [] i (b ∷ bs) j d h = absurd (omega arith)
  get_or-overwrite (x ∷ xs) zero [] j d h = rw (empty_span 0 j)
  get_or-overwrite (x ∷ xs) zero (b ∷ bs) zero d h = ground arith
  get_or-overwrite (x ∷ xs) zero (b ∷ bs) (suc j) d h =
      rw (span_zero j (length bs), minus_zero (suc j))
        (rw (minus_zero j) at (get_or-overwrite xs zero bs j d (omega arith)))
  get_or-overwrite (x ∷ xs) (suc i) bs zero d h = ground arith
  get_or-overwrite (x ∷ xs) (suc i) bs (suc j) d h =
      rw (span_suc i j (length bs), minus_suc j i) (get_or-overwrite xs i bs j d (omega arith))

pub take-nil {ℓ} : (A : Type ℓ) (n : ℕ) → take {A = A} n [] ≡ []
take-nil A zero = refl
take-nil A (suc n) = refl

pub drop-nil {ℓ} : (A : Type ℓ) (n : ℕ) → drop {A = A} n [] ≡ []
drop-nil A zero = refl
drop-nil A (suc n) = refl

module _ {ℓ} {A : Type ℓ} where
  pub take-append-drop : (n : ℕ) (xs : List A) → take n xs ++ drop n xs ≡ xs
  take-append-drop zero xs = refl
  take-append-drop (suc n) [] = refl
  take-append-drop (suc n) (x ∷ xs) = ap (λ l. x ∷ l) (take-append-drop n xs)

  pub take-take : (m n : ℕ) (xs : List A) → m ≤ n → take m (take n xs) ≡ take m xs
  take-take zero n xs h = refl
  take-take (suc m) zero xs h = elim h [ ]
  take-take (suc m) (suc n) [] h = refl
  take-take (suc m) (suc n) (x ∷ xs) h = ap (λ l. x ∷ l) (take-take m n xs (omega arith))

  pub take-append-take : (m n : ℕ) (xs : List A) → take m xs ++ take n (drop m xs) ≡ take (m + n) xs
  take-append-take zero n xs = ap (λ k. take k xs) (omega arith)
  take-append-take (suc m) n [] = rw (take-nil A n, take-nil A (suc m + n))
  take-append-take (suc m) n (x ∷ xs) =
      let e : suc m + n ≡ suc (m + n) = omega arith in
      rw e (ap (λ l. x ∷ l) (take-append-take m n xs))

  pub take-all : (n : ℕ) (xs : List A) → length xs ≤ n → take n xs ≡ xs
  take-all zero [] h = refl
  take-all zero (x ∷ xs) h = elim h [ ]
  take-all (suc n) [] h = refl
  take-all (suc n) (x ∷ xs) h = ap (λ l. x ∷ l) (take-all n xs (omega arith))

  pub drop-all : (n : ℕ) (xs : List A) → length xs ≤ n → drop n xs ≡ []
  drop-all zero [] h = refl
  drop-all zero (x ∷ xs) h = elim h [ ]
  drop-all (suc n) [] h = refl
  drop-all (suc n) (x ∷ xs) h = drop-all n xs (omega arith)

  -- Lists of one length with the same entries are equal.
  pub list_ext :
      (d : A) (xs ys : List A)
      → length xs ≡ length ys
      → ((k : ℕ) → k < length xs → get_or xs k d ≡ get_or ys k d)
      → xs ≡ ys
  list_ext d [] [] e h = refl
  list_ext d [] (y ∷ ys) e h = absurd (omega arith)
  list_ext d (x ∷ xs) [] e h = absurd (omega arith)
  list_ext d (x ∷ xs) (y ∷ ys) e h =
      ap₂ ◌∷◌ (h 0 (omega arith)) (list_ext d xs ys (omega arith) (λ k p. h (suc k) (omega arith)))
