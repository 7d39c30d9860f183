-- ===== src/Memory.antt =====
-- The memory that the kernel sees: a byte at each address. Addresses are plain numbers, which the
-- code wraps where it computes with them. Which physical frame a page is mapped to, and faults on
-- pages that are not mapped, are not part of it.
pub mod Laws
pub mod Fields
use studix.Base.{ℕ, ◌+◌, ◌*◌, ◌/◌, u8, ◌==◌, if◌then◌else◌}

abbrev pub Memory : Type 0
Memory = ℕ → ℕ

-- *(uint8_t *)a
abbrev pub load8 : Memory → ℕ → ℕ
load8 m a = u8 (m a)

-- *(uint8_t *)a = v
unfoldable pub store8 : Memory → ℕ → ℕ → Memory
store8 m a v x = if x == a then u8 v else m x

-- *(uint32_t *)a, least significant byte first
unfoldable pub load32 : Memory → ℕ → ℕ
load32 m a =
    load8 m a + 256 * load8 m (a + 1) + 65536 * load8 m (a + 2) + 16777216 * load8 m (a + 3)

-- *(uint32_t *)a = v
unfoldable pub store32 : Memory → ℕ → ℕ → Memory
unfolding store8
store32 m a v =
    store8 (store8 (store8 (store8 m a v) (a + 1) (v / 256)) (a + 2) (v / 65536)) (a + 3)
      (v / 16777216)
