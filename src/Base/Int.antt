-- ===== src/Base/Int.antt =====
-- Signed integers over the native numbers, and their two's complement words.
use Prim.Native.Nat.{ℕ, suc, ◌-◌, ◌^◌, ◌<◌}
use ran_online.Base.Tests.{ltb, if◌then◌else◌}

-- `negsuc n` is -(n + 1).
pub data ℤ : Type 0 where
  pos : ℕ → ℤ
  negsuc : ℕ → ℤ

-- The word of `w` bits that holds an integer: `static_cast` to an unsigned type.
abbrev pub to_word : ℕ → ℤ → ℕ
to_word w (pos n) = n
to_word w (negsuc n) = 2 ^ w - suc n

-- The integer that a word of `suc w` bits stands for.
abbrev pub of_word : ℕ → ℕ → ℤ
of_word w n = if ltb n (2 ^ w) then pos n else negsuc (2 ^ suc w - suc n)

-- The values of an `intN_t`, with `w` bits besides the sign.
abbrev pub IsInt : ℕ → ℤ → Type 0
IsInt w (pos n) = n < 2 ^ w
IsInt w (negsuc n) = n < 2 ^ w
