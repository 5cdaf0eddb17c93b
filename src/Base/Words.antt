-- ===== src/Base/Words.antt =====
-- Unsigned machine words: a value is a plain number, and each operation writes its wrap out.
use Prim.Native.Nat.{ℕ, ◌+◌, ◌-◌, ◌%◌, ◌^◌}

abbrev pub u32 : ℕ → ℕ
u32 n = n % 2 ^ 32

abbrev pub u16 : ℕ → ℕ
u16 n = n % 2 ^ 16

abbrev pub u8 : ℕ → ℕ
u8 n = n % 2 ^ 8

-- `a - b` on Uint32 operands below 2 ^ 32
abbrev pub sub32 : ℕ → ℕ → ℕ
sub32 a b = (a + 2 ^ 32 - b) % 2 ^ 32

-- `a + b` on Uint32
abbrev pub add32 : ℕ → ℕ → ℕ
add32 a b = (a + b) % 2 ^ 32

-- `++a` on Uint32
abbrev pub succ32 : ℕ → ℕ
succ32 a = (a + 1) % 2 ^ 32
