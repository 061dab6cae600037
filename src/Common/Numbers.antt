-- ===== src/Common/Numbers.antt =====
-- Numbers of JavaScript, where the code tests them.
use Prim.Native.Nat.{ℕ}

-- A safe integer of at least 0, or any other value.
pub data Number : Type 0 where
  nat : ℕ → Number
  other : Number

-- `Number.MAX_SAFE_INTEGER`
abbrev pub max_safe_integer : ℕ
max_safe_integer = 9007199254740991
