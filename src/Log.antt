-- ===== src/Log.antt =====
-- The printing of numbers by `LogStream` of src/utils/Logging.h, into a buffer of 4000 characters.
-- Characters are their codes. `none` is an access outside an array.
pub mod Decimal
pub mod Floats
use netyo.Prelude.{
  ℕ, zero, suc, ◌+◌, ◌*◌, ◌/◌, ◌%◌, Option, none, some, List, [], ◌∷◌, ◌++◌, if◌then◌else◌, ◌==◌,
  leb, ltb, ◌>>=◌, length, overwrite, take, ◌||◌, ◌^◌, ◌-◌,
}
use netyo.Prelude.Int.{ℤ, pos, negsuc}
use mathlib.Core.List.{reverse}

-- `buffer` and `double_buffer`, which all streams share, and the place in `buffer` that is written next.
pub record LogStream : Type 0 where
  pub buffer : List ℕ
  pub double_buffer : List ℕ
  pub cur : ℕ

abbrev pub fsize : ℕ
fsize = 4000

-- `digits[lsd]`
abbrev pub digit : ℕ → ℕ
digit lsd = 48 + lsd

-- The characters that the loop writes, on fuel: it goes on while the value is positive.
unfoldable pub digits_from : ℕ → ℕ → List ℕ
digits_from zero val = []
digits_from (suc fuel) val =
    let rest = digits_from fuel (val / 10) in
    digit (val % 10) ∷ (if ltb 0 (val / 10) then rest else [])

-- What is written for a value before it is reversed. A value of -10 or less has a remainder that is
-- negative or 0, and its quotient ends the loop.
unfoldable pub characters : ℤ → Option (List ℕ)
unfolding digits_from
characters (pos val) = some (digits_from (val + 1) val ++ 32 ∷ [])
characters (negsuc n) =
    let val = n + 1 in if val % 10 == 0 then some (digit 0 ∷ 45 ∷ 32 ∷ []) else none

-- `operator<<(val)` of an integer
unfoldable pub print_int : ℤ → LogStream → Option LogStream
unfolding characters
print_int val s = do
  cs ← characters val
  if leb (s.cur + length cs) (length s.buffer)
      then some
          (record s { buffer = overwrite s.buffer s.cur (reverse cs); cur = s.cur + length cs })
      else none

-- `operator<<(array)` of integers
unfoldable pub print_ints : List ℤ → LogStream → Option LogStream
unfolding print_int
print_ints [] s = some s
print_ints (val ∷ vals) s = print_int val s >>= print_ints vals

-- A difference of two `size_t`s.
abbrev pub difference : ℕ → ℕ → ℕ
difference size cur = (size + (2 ^ 64 - cur)) % 2 ^ 64

abbrev pub pointer_size : ℕ
pointer_size = 8

-- `append(buffer, len)`, where `text` is the array that the parameter `buffer` points to: it hides the
-- buffer of the stream, `sizeof` is that of a pointer, and the text is copied within its own array. A
-- copy of parts that overlap is undefined.
unfoldable pub append : List ℕ → ℕ → LogStream → Option (List ℕ × LogStream)
append text len s =
    if ltb (difference pointer_size s.cur) len
    then if ltb s.cur len || ltb (length text) (s.cur + len)
      then none
      else some (
        overwrite (overwrite text s.cur (take len text)) 0 (32 ∷ []),
        record s { cur = s.cur + (len + 1) },
      )
    else some (text, s)

-- `operator<<(val)` of a floating point number. `printed` is all that `snprintf` makes of it, of which it
-- stores 14 characters and a 0; it returns the length of all.
unfoldable pub print_float : List ℕ → LogStream → Option LogStream
unfolding append
print_float printed s =
    let len = length printed in
    let made = record s {
      double_buffer = overwrite s.double_buffer 0 (take 14 printed ++ 0 ∷ []);
    } in
    if ltb (difference fsize s.cur) len
    then (append made.double_buffer len made >>= λ out.
        some (record out.1 { double_buffer = out.0 }))
    else some made
