-- ===== src/Log/Floats.antt =====
-- Floating point numbers and texts given to `LogStream` of src/utils/Logging.h.
use netyo.Prelude.{
  none, ◌⊎◌, inl, inr, Bool-cases, ltb, ◌||◌, ℕ, ◌+◌, ◌≤◌, ◌≡◌, List, [], ◌∷◌, ◌++◌, some, length,
  overwrite, take, arith, refl,
}
use netyo.Log.{LogStream, fsize, pointer_size, difference, append, print_float}

-- `append`, where it does not fault, leaves the buffer of the stream as it is, whatever text it is
-- given. No floating point number is ever printed: `operator<<` does not fault and leaves the buffer
-- and `cur` as they are, wherever `cur` is in the buffer, if `snprintf` makes at most 30 characters.
pub append-print_float :
    (text : List ℕ) (len : ℕ) (printed : List ℕ) (s : LogStream)
    → length printed ≤ 30
    → s.cur ≤ fsize
    → ((append text len s ≡ none)
        ⊎ ((t : List ℕ) × (u : LogStream) × (append text len s ≡ some (t, u))
            × (u.buffer ≡ s.buffer)))
      × (print_float printed s
          ≡ some (record s {
            double_buffer = overwrite s.double_buffer 0 (take 14 printed ++ 0 ∷ []);
          }))
unfolding print_float append
append-print_float text len printed s short within = (
  elim (Bool-cases (ltb (difference pointer_size s.cur) len)) [
    | inl a ↦ elim (Bool-cases (ltb s.cur len || ltb (length text) (s.cur + len))) [
      | inl b ↦ inl (rw (a, b) refl)
      | inr b ↦ inr (
        overwrite (overwrite text s.cur (take len text)) 0 (32 ∷ []),
        record s { cur = s.cur + (len + 1) },
        rw (a, b) refl,
        refl,
      )
    ]
    | inr a ↦ inr (text, s, rw a refl, refl)
  ],
  ground arith,
)
