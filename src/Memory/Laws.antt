-- ===== src/Memory/Laws.antt =====
-- Reads after writes of memory words.
use studix.Base.{ℕ, ◌+◌, ◌≤◌, ◌<◌, ◌≡◌, ◌⊎◌, arith, u32}
use studix.Memory.{Memory, load32, store32}

-- The two words share no byte.
abbrev pub Apart : ℕ → ℕ → Type 0
Apart a b = (a + 4 ≤ b) ⊎ (b + 4 ≤ a)

-- The four bytes of a word decide it.
pub load32-same :
    (m m' : Memory) (a : ℕ) → ((x : ℕ) → a ≤ x → x < a + 4 → m' x ≡ m x) → load32 m' a ≡ load32 m a
unfolding load32
load32-same m m' a same = omega (
  arith,
  same a (omega arith) (omega arith),
  same (a + 1) (omega arith) (omega arith),
  same (a + 2) (omega arith) (omega arith),
  same (a + 3) (omega arith) (omega arith),
)

pub load32-lt : (m : Memory) (a : ℕ) → load32 m a < 4294967296
unfolding load32
load32-lt m a = omega arith

pub store32_outside : (m : Memory) (a v x : ℕ) → (x < a) ⊎ (a + 4 ≤ x) → store32 m a v x ≡ m x
unfolding store32
store32_outside m a v x h = ground arith

pub load32-store32_wrap : (m : Memory) (a v : ℕ) → load32 (store32 m a v) a ≡ u32 v
unfolding store32 load32
load32-store32_wrap m a v = ground arith

pub load32-store32 : (m : Memory) (a v : ℕ) → v < 4294967296 → load32 (store32 m a v) a ≡ v
load32-store32 m a v h = omega (arith, load32-store32_wrap m a v)

pub load32-store32-Apart :
    (m : Memory) (a v b : ℕ) → Apart a b → load32 (store32 m a v) b ≡ load32 m b
unfolding load32
load32-store32-Apart m a v b h = ground (
  arith,
  store32_outside m a v b,
  store32_outside m a v (b + 1),
  store32_outside m a v (b + 2),
  store32_outside m a v (b + 3),
)
