-- ===== src/Base/Word.antt =====
-- Unsigned words of 8, 16 and 32 bits: `size_t`, `uintptr_t` and `unsigned long` have 32 here.
use Prim.Native.Nat.{ℕ, ◌+◌, ◌-◌, ◌*◌, ◌%◌}

abbrev pub u8 : ℕ → ℕ
u8 x = x % 256

abbrev pub u16 : ℕ → ℕ
u16 x = x % 65536

abbrev pub u32 : ℕ → ℕ
u32 x = x % 4294967296

-- Addition, subtraction and multiplication as the machine does them.
abbrev pub add32 : ℕ → ℕ → ℕ
add32 a b = u32 (a + b)

-- The operands are below 2^32, so the sum does not stop at 0.
abbrev pub sub32 : ℕ → ℕ → ℕ
sub32 a b = u32 (a + 4294967296 - b)

abbrev pub mul32 : ℕ → ℕ → ℕ
mul32 a b = u32 (a * b)
