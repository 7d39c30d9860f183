-- ===== src/Paging/Align.antt =====
-- Rounding an address up to a page.
use studix.Base.{ℕ, ◌+◌, ◌%◌, ◌≤◌, ◌<◌, ◌≡◌, true, arith, ◌==◌, bit_and_fff}
use studix.Paging.{aligned, align_up}

pub aligned-mod : (ptr : ℕ) → aligned ptr ≡ (ptr % 4096 == 0)
unfolding aligned
aligned-mod ptr = ground (arith, bit_and_fff ptr)

-- Up to the last page boundary, align_up gives the least aligned address that is not below its
-- argument.
pub align_up-least :
    (ptr : ℕ)
    → ptr ≤ 4294963200
    → (aligned (align_up ptr) ≡ true)
      × (ptr ≤ align_up ptr)
      × ((q : ℕ) → ptr ≤ q → aligned q ≡ true → align_up ptr ≤ q)
unfolding align_up
align_up-least ptr h = (
  ground (arith, aligned-mod ptr, aligned-mod (align_up ptr)),
  ground (arith, aligned-mod ptr),
  λ q le a. ground (arith, aligned-mod ptr, aligned-mod q),
)

pub align_up-lt : (ptr : ℕ) → ptr ≤ 4294963200 → align_up ptr < ptr + 4096
unfolding align_up
align_up-lt ptr h = ground (arith, aligned-mod ptr)

-- Above the last page boundary align_up wraps to 0.
pub align_up_wraps : (ptr : ℕ) → 4294963200 < ptr → ptr < 4294967296 → align_up ptr ≡ 0
unfolding align_up
align_up_wraps ptr lo hi = ground (arith, aligned-mod ptr)
