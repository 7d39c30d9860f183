-- ===== src/Base/Bits.antt =====
-- Single bits of words at variables, from the digit recursion that the native operations stand for.
use Prim.Native.Nat.{
  ℕ, zero, suc, ◌+◌, ◌-◌, ◌*◌, ◌/◌, ◌%◌, ◌^◌, ◌≤◌, ◌<◌, min, max, bit_and, bit_or, digits,
  bit_and-bitwise, bit_or-bitwise,
}
use mathlib.Core.Path.{◌≡◌, refl, ap, sym, ◌∙◌}
use studix.Base.Tests.{◌==◌, if◌then◌else◌}
use native.Mathlib.Omega.{arith}
use native.Mathlib.Nat.{pow-suc}

-- The count only has to reach the first number: any two that do give the same digits.
module _ (base : ℕ → ℕ) (op : ℕ → ℕ → ℕ) where
  settled : (b a m n : ℕ) → (a ≤ m) × (a ≤ n) → digits base op n a b ≡ digits base op m a b
  settled b zero zero zero h = refl
  settled b zero zero (suc n) h = refl
  settled b zero (suc m) zero h = refl
  settled b zero (suc m) (suc n) h = refl
  settled b (suc a) zero n h = absurd (omega arith)
  settled b (suc a) (suc m) zero h = absurd (omega arith)
  settled b (suc a) (suc m) (suc n) h =
      ap (λ t. t * 2 + op (suc a % 2) (b % 2))
        (settled (b / 2) (suc a / 2) m n (omega arith, omega arith))

  unroll :
      (a b : ℕ)
      → digits base op (suc a) (suc a) b
        ≡ digits base op (suc a / 2) (suc a / 2) (b / 2) * 2 + op (suc a % 2) (b % 2)
  unroll a b =
      ap (λ t. t * 2 + op (suc a % 2) (b % 2))
        (settled (b / 2) (suc a / 2) (suc a / 2) a (omega arith, omega arith))

pub bit_and_step : (a b : ℕ) → bit_and a b ≡ bit_and (a / 2) (b / 2) * 2 + min (a % 2) (b % 2)
bit_and_step zero b = omega (bit_and-bitwise 0 (b / 2), bit_and-bitwise 0 b, arith)
bit_and_step (suc a) b =
    bit_and-bitwise (suc a) b
    ∙ unroll (λ b. zero) min a b
    ∙ ap (λ t. t * 2 + min (suc a % 2) (b % 2)) (sym (bit_and-bitwise (suc a / 2) (b / 2)))

pub bit_or_step : (a b : ℕ) → bit_or a b ≡ bit_or (a / 2) (b / 2) * 2 + max (a % 2) (b % 2)
bit_or_step zero b = omega (bit_or-bitwise 0 (b / 2), bit_or-bitwise 0 b, arith)
bit_or_step (suc a) b =
    bit_or-bitwise (suc a) b
    ∙ unroll (λ b. b) max a b
    ∙ ap (λ t. t * 2 + max (suc a % 2) (b % 2)) (sym (bit_or-bitwise (suc a / 2) (b / 2)))

-- The digit at place k.
abbrev pub bit : ℕ → ℕ → ℕ
bit zero w = w % 2
bit (suc k) w = bit k (w / 2)

pub bit-zero : (k : ℕ) → bit k 0 ≡ 0
bit-zero zero = refl
bit-zero (suc k) = bit-zero k

pub bit-lt : (k w : ℕ) → bit k w < 2
bit-lt zero w = omega arith
bit-lt (suc k) w = bit-lt k (w / 2)

half_and : (a b : ℕ) → bit_and a b / 2 ≡ bit_and (a / 2) (b / 2)
half_and a b = omega (arith, bit_and_step a b)

half_or : (a b : ℕ) → bit_or a b / 2 ≡ bit_or (a / 2) (b / 2)
half_or a b = omega (arith, bit_or_step a b)

pub bit-and : (k a b : ℕ) → bit k (bit_and a b) ≡ min (bit k a) (bit k b)
bit-and zero a b = omega (arith, bit_and_step a b)
bit-and (suc k) a b = rw (half_and a b) (bit-and k (a / 2) (b / 2))

pub bit-or : (k a b : ℕ) → bit k (bit_or a b) ≡ max (bit k a) (bit k b)
bit-or zero a b = omega (arith, bit_or_step a b)
bit-or (suc k) a b = rw (half_or a b) (bit-or k (a / 2) (b / 2))

half_pow : (j : ℕ) → 2 ^ suc j / 2 ≡ 2 ^ j
half_pow j = omega (arith, pow-suc 2 j)

pow_even : (j : ℕ) → 2 ^ suc j % 2 ≡ 0
pow_even j = omega (arith, pow-suc 2 j)

pub bit-pow : (k j : ℕ) → bit k (2 ^ j) ≡ (if k == j then 1 else 0)
bit-pow zero zero = refl
bit-pow zero (suc j) = ground (arith, pow_even j)
bit-pow (suc k) zero = ground (arith, bit-zero k)
bit-pow (suc k) (suc j) = rw (half_pow j) (ground (arith, bit-pow k j))

pub pow-pos : (j : ℕ) → 0 < 2 ^ j
pow-pos zero = omega arith
pow-pos (suc j) = omega (arith, pow-suc 2 j, pow-pos j)

and_zero : (n a : ℕ) → a ≤ n → bit_and a 0 ≡ 0
and_zero n zero h = omega (arith, bit_and-bitwise 0 0)
and_zero zero (suc a) h = absurd (omega arith)
and_zero (suc n) (suc a) h =
    omega (arith, bit_and_step (suc a) 0, and_zero n (suc a / 2) (omega arith))

-- w & (1 << j) keeps the one digit.
pub and-pow : (j w : ℕ) → bit_and w (2 ^ j) ≡ bit j w * 2 ^ j
and-pow zero w = omega (arith, bit_and_step w 1, and_zero (w / 2) (w / 2) (omega arith))
and-pow (suc j) w =
    let half : bit_and (w / 2) (2 ^ suc j / 2) ≡ bit j (w / 2) * 2 ^ j =
      rw (half_pow j) (and-pow j (w / 2)) in
    omega (
      arith,
      half,
      bit_and_step w (2 ^ suc j),
      pow_even j,
      ap (λ (t : ℕ). bit j (w / 2) * t) (pow-suc 2 j),
    )

pub pow-le : {j n : ℕ} → j < n → 2 ^ suc j ≤ 2 ^ n
pow-le {j} {n = zero} h = absurd (omega arith)
pow-le {j = zero} {n = suc n} h = omega (arith, pow-suc 2 n, pow-pos n)
pow-le {j = suc j} {n = suc n} h =
    omega (arith, pow-suc 2 n, pow-suc 2 (suc j), pow-le {j = j} {n = n} (omega arith))

-- n ones
pub bit-ones : (n k : ℕ) → k < n → bit k (2 ^ n - 1) ≡ 1
bit-ones zero k h = absurd (omega arith)
bit-ones (suc n) zero h = omega (arith, pow-suc 2 n, pow-pos n)
bit-ones (suc n) (suc k) h =
    let half : (2 ^ suc n - 1) / 2 ≡ 2 ^ n - 1 = omega (arith, pow-suc 2 n, pow-pos n) in
    rw half (bit-ones n k (omega arith))

-- n ones but for the one at place j: what ~(1 << j) is in an n-bit word.
pub bit_mask : (n k j : ℕ) → k < n → j < n → bit k (2 ^ n - 1 - 2 ^ j) ≡ (if k == j then 0 else 1)
bit_mask zero k j p q = absurd (omega arith)
bit_mask (suc n) zero zero p q = omega (arith, pow-suc 2 n, pow-pos n)
bit_mask (suc n) zero (suc j) p q =
    ground (arith, pow-suc 2 n, pow-suc 2 j, pow-pos n, pow-le {j = suc j} {n = suc n} q)
bit_mask (suc n) (suc k) zero p q =
    let half : (2 ^ suc n - 1 - 1) / 2 ≡ 2 ^ n - 1 = omega (arith, pow-suc 2 n, pow-pos n) in
    rw half (ground (arith, bit-ones n k (omega arith)))
bit_mask (suc n) (suc k) (suc j) p q =
    let half : (2 ^ suc n - 1 - 2 ^ suc j) / 2 ≡ 2 ^ n - 1 - 2 ^ j = omega (
      arith,
      pow-suc 2 n,
      pow-suc 2 j,
      pow-pos n,
      pow-le {j = j} {n = n} (omega arith),
      pow-pos j,
    ) in
    rw half (ground (arith, bit_mask n k j (omega arith) (omega arith)))

-- The n lowest digits; at a numeral n, `omega` shows that this is the remainder by 2^n.
abbrev pub low_digits : ℕ → ℕ → ℕ
low_digits zero w = 0
low_digits (suc n) w = low_digits n (w / 2) * 2 + w % 2

pub bit_and-ones : (n w : ℕ) → bit_and w (2 ^ n - 1) ≡ low_digits n w
bit_and-ones zero w = omega (arith, and_zero w w (omega arith))
bit_and-ones (suc n) w =
    let ones : (2 ^ suc n - 1) / 2 ≡ 2 ^ n - 1 = omega (arith, pow-suc 2 n, pow-pos n) in
    let half : bit_and (w / 2) ((2 ^ suc n - 1) / 2) ≡ low_digits n (w / 2) =
      rw ones (bit_and-ones n (w / 2)) in
    omega (arith, half, pow-suc 2 n, pow-pos n, bit_and_step w (2 ^ suc n - 1))

pub bit_and_fff : (w : ℕ) → bit_and w 0xfff ≡ w % 4096
bit_and_fff w = omega (arith, bit_and-ones 12 w)

pub bit_and-le : (n a b : ℕ) → a ≤ n → bit_and a b ≤ a
bit_and-le n zero b h = omega (arith, bit_and-bitwise 0 b)
bit_and-le zero (suc a) b h = absurd (omega arith)
bit_and-le (suc n) (suc a) b h =
    omega (arith, bit_and_step (suc a) b, bit_and-le n (suc a / 2) (b / 2) (omega arith))

pub bit_or-lt : (n a b : ℕ) → a < 2 ^ n → b < 2 ^ n → bit_or a b < 2 ^ n
bit_or-lt zero zero zero p q = omega (arith, bit_or-bitwise 0 0)
bit_or-lt zero (suc a) b p q = absurd (omega arith)
bit_or-lt zero zero (suc b) p q = absurd (omega arith)
bit_or-lt (suc n) a b p q = omega (
  arith,
  pow-suc 2 n,
  bit_or_step a b,
  bit_or-lt n (a / 2) (b / 2) (omega (arith, pow-suc 2 n)) (omega (arith, pow-suc 2 n)),
)

pub pow-lt : {j n : ℕ} → j < n → 2 ^ j < 2 ^ n
pow-lt {j} {n} h = omega (arith, pow-le {j = j} {n = n} h, pow-suc 2 j, pow-pos j)
