-- ===== src/Prelude/Int.antt =====
-- The integers that a signed index or a system call's result stands for, over the native numbers.
use Prim.Native.Nat.{ℕ, ◌-◌, ◌%◌, ◌^◌}
use netyo.Prelude.Tests.{leb, ltb, if◌then◌else◌}

-- `negsuc n` is -(n + 1).
pub data ℤ : Type 0 where
  pos : ℕ → ℤ
  negsuc : ℕ → ℤ

-- a - b, as an integer.
abbrev pub sub_ℕ : ℕ → ℕ → ℤ
sub_ℕ a b = if leb b a then pos (a - b) else negsuc (b - a - 1)

-- What a conversion to `int` makes of a number: its value to 32 bits, with a sign.
unfoldable pub to_int : ℕ → ℤ
to_int n = let w = n % 2 ^ 32 in if ltb w (2 ^ 31) then pos w else negsuc (2 ^ 32 - w - 1)
