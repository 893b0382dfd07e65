-- ===== src/Log/Decimal.antt =====
-- The text that `LogStream` of src/utils/Logging.h prints for a number, and the number in it.
use netyo.Prelude.{
  overwrite, ℕ, zero, suc, ◌+◌, ◌-◌, ◌*◌, ◌≤◌, ◌<◌, ◌≡◌, ◌∙◌, ap, List, [], ◌∷◌, ◌++◌, arith,
  length, length-append, dec_lt, some, refl, ◌/◌,
}
use netyo.Prelude.{◌^◌, lt→ltb, le→ltb, le→leb}
use netyo.Prelude.Int.{pos}
use mathlib.Core.List.{reverse, reverse-append}
use netyo.Log.{LogStream, digits_from, print_int}

-- The number that a list of decimal digits stands for, the last digit first and the first digit first.
unfoldable pub value_lsd : List ℕ → ℕ
value_lsd [] = 0
value_lsd (c ∷ cs) = c - 48 + 10 * value_lsd cs

unfoldable pub parse_decimal : ℕ → List ℕ → ℕ
parse_decimal acc [] = acc
parse_decimal acc (c ∷ cs) = parse_decimal (10 * acc + (c - 48)) cs

abbrev pub AllDigits : List ℕ → Type 0
AllDigits [] = Unit {0}
AllDigits (c ∷ cs) = (48 ≤ c) × (c < 58) × AllDigits cs

digits_from-value : (fuel val : ℕ) → val < fuel → value_lsd (digits_from fuel val) ≡ val
unfolding digits_from value_lsd
digits_from-value zero val h = absurd (omega (arith, h))
digits_from-value (suc fuel) val h = elim (dec_lt 0 (val / 10)) [
  | yes p ↦
      rw (lt→ltb 0 (val / 10) p) (omega (arith, digits_from-value fuel (val / 10) (omega arith)))
  | no p ↦ rw (le→ltb 0 (val / 10) (omega (arith, p))) (omega (arith, p))
]

digits_from-AllDigits : (fuel val : ℕ) → AllDigits (digits_from fuel val)
unfolding digits_from
digits_from-AllDigits zero val = tt
digits_from-AllDigits (suc fuel) val = elim (dec_lt 0 (val / 10)) [
  | yes p ↦
      rw (lt→ltb 0 (val / 10) p) (omega arith, omega arith, digits_from-AllDigits fuel (val / 10))
  | no p ↦ rw (le→ltb 0 (val / 10) (omega (arith, p))) (omega arith, omega arith, tt)
]

-- `10 ^ (k + 1)`, and the number of digits of what is less.
limit : ℕ → ℕ
limit zero = 10
limit (suc k) = 10 * limit k

length-digits_from : (fuel val k : ℕ) → val < limit k → length (digits_from fuel val) ≤ k + 1
unfolding digits_from limit
length-digits_from zero val k h = omega arith
length-digits_from (suc fuel) val zero h =
    let last : val / 10 ≡ 0 = omega (arith, h) in rw last (omega arith)
length-digits_from (suc fuel) val (suc k) h =
    let shorter : val / 10 < limit k = omega (arith, h) in
    ground (arith, length-digits_from fuel (val / 10) k shorter)

parse_decimal-append :
    (acc : ℕ) (xs : List ℕ) (c : ℕ)
    → parse_decimal acc (xs ++ c ∷ []) ≡ 10 * parse_decimal acc xs + (c - 48)
unfolding parse_decimal
parse_decimal-append acc [] c = refl
parse_decimal-append acc (x ∷ xs) c = parse_decimal-append (10 * acc + (x - 48)) xs c

parse_decimal-reverse : (cs : List ℕ) → parse_decimal 0 (reverse cs) ≡ value_lsd cs
unfolding value_lsd parse_decimal
parse_decimal-reverse [] = refl
parse_decimal-reverse (c ∷ cs) =
    ap (parse_decimal 0) (reverse-append (c ∷ []) cs)
    ∙ parse_decimal-append 0 (reverse cs) c
    ∙ omega (arith, parse_decimal-reverse cs)

AllDigits-append :
    (xs : List ℕ) (c : ℕ) → AllDigits xs → (48 ≤ c) × (c < 58) → AllDigits (xs ++ c ∷ [])
AllDigits-append [] c a h = (h.0, h.1, tt)
AllDigits-append (x ∷ xs) c a h = (a.0, a.1, AllDigits-append xs c a.2 h)

AllDigits-reverse : (cs : List ℕ) → AllDigits cs → AllDigits (reverse cs)
AllDigits-reverse [] a = tt
AllDigits-reverse (c ∷ cs) a =
    rw (reverse-append (c ∷ []) cs)
      (AllDigits-append (reverse cs) c (AllDigits-reverse cs a.2) (a.0, a.1))

length-reverse : (cs : List ℕ) → length (reverse cs) ≡ length cs
length-reverse [] = refl
length-reverse (c ∷ cs) =
    rw (reverse-append (c ∷ []) cs)
      (omega (arith, length-append (reverse cs) (c ∷ []), length-reverse cs))

-- Where 21 characters are free, the text that is printed for a number below 2^64 is a space and at most
-- 20 decimal digits, from `cur` on, which moves behind them, and read as a decimal number it is that
-- number again.
pub parse_decimal-print_int :
    (val : ℕ) (s : LogStream)
    → val < 2 ^ 64
    → s.cur + 21 ≤ length s.buffer
    → (ds : List ℕ) × (print_int (pos val) s
        ≡ some (record s {
          buffer = overwrite s.buffer s.cur (32 ∷ ds);
          cur = s.cur + (length ds + 1);
        }))
      × AllDigits ds
      × (length ds ≤ 20)
      × (parse_decimal 0 ds ≡ val)
unfolding print_int
parse_decimal-print_int val s b free =
    let cs : List ℕ = digits_from (val + 1) val in
    let short : length cs ≤ 20 =
      length-digits_from (val + 1) val 19 (unfold limit in (omega (arith, b))) in
    let long : length (cs ++ 32 ∷ []) ≡ length (reverse cs) + 1 =
      omega (arith, length-append cs (32 ∷ []), length-reverse cs) in
    let fits : s.cur + length (cs ++ 32 ∷ []) ≤ length s.buffer =
      omega (arith, free, short, long, length-reverse cs) in
    (
      reverse cs,
      rw
          (
            le→leb (s.cur + length (cs ++ 32 ∷ [])) (length s.buffer) fits,
            reverse-append cs (32 ∷ []),
            long,
          )
          refl,
      AllDigits-reverse cs (digits_from-AllDigits (val + 1) val),
      omega (arith, length-reverse cs, short),
      parse_decimal-reverse cs ∙ digits_from-value (val + 1) val (omega arith),
    )
