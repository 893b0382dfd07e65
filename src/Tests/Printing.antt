-- ===== src/Tests/Printing.antt =====
-- The printing of src/utils/Logging.h at small inputs.
use netyo.Prelude.{
  ℕ, ◌+◌, ◌≤◌, ◌≡◌, List, [], ◌∷◌, arith, length, replicate, overwrite, ◌⊎◌, some, none,
}
use netyo.Prelude.Int.{pos}
use netyo.Log.{LogStream, print_int, append, print_float}
use netyo.Log.Decimal.{AllDigits, parse_decimal, parse_decimal-print_int}
use netyo.Log.Floats.{append-print_float}

abbrev empty_stream : LogStream
empty_stream = record { buffer = replicate 40 0; double_buffer = replicate 100 0; cur = 5 }

parse_decimal-print_int_example :
    (ds : List ℕ) × (print_int (pos 305) empty_stream
      ≡ some (record empty_stream {
        buffer = overwrite (replicate 40 0) 5 (32 ∷ ds);
        cur = 5 + (length ds + 1);
      }))
    × AllDigits ds
    × (length ds ≤ 20)
    × (parse_decimal 0 ds ≡ 305)
parse_decimal-print_int_example =
    parse_decimal-print_int 305 empty_stream (omega arith) (omega arith)

append-print_float_example :
    ((append (65 ∷ 66 ∷ 67 ∷ 68 ∷ []) 4 empty_stream ≡ none)
      ⊎ ((t : List ℕ) × (u : LogStream) × (append (65 ∷ 66 ∷ 67 ∷ 68 ∷ []) 4 empty_stream
            ≡ some (t, u))
          × (u.buffer ≡ replicate 40 0)))
    × (print_float (49 ∷ 46 ∷ 53 ∷ []) empty_stream
        ≡ some (record empty_stream {
          double_buffer = overwrite (replicate 100 0) 0 (49 ∷ 46 ∷ 53 ∷ 0 ∷ []);
        }))
append-print_float_example =
    append-print_float (65 ∷ 66 ∷ 67 ∷ 68 ∷ []) 4 (49 ∷ 46 ∷ 53 ∷ []) empty_stream (omega arith)
      (omega arith)
