-- ===== src/Gdt/Fields.antt =====
-- What the processor reads out of a descriptor that set_gdt_entry packed.
use Prim.Native.Nat.{bit_or-bitwise}
use studix.Base.{
  ℕ, ◌+◌, ◌*◌, ◌/◌, ◌%◌, ◌<◌, ◌≡◌, ◌≢◌, arith, true, bit_and, bit_or, bit_or_step, bit_and_step,
  bit_and-ones, ◌==◌,
}
use studix.Gdt.{GdtEntry, GdtEntries, set_gdt_entry}

-- The base address, the limit and the four flags, put together again.
abbrev pub segment_base : GdtEntry → ℕ
segment_base e = e.base_low + 65536 * e.base_mid + 16777216 * e.base_high

abbrev pub segment_limit : GdtEntry → ℕ
segment_limit e = e.limit_low + 65536 * (e.gran % 16)

abbrev pub segment_flags : GdtEntry → ℕ
segment_flags e = e.gran / 16

high_nibble : (w : ℕ) → w < 256 → bit_and w 0xf0 ≡ 16 * (w / 16)
high_nibble w h = omega (
  arith,
  bit_and_step w 0xf0,
  bit_and_step (w / 2) 0x78,
  bit_and_step (w / 2 / 2) 0x3c,
  bit_and_step (w / 2 / 2 / 2) 0x1e,
  bit_and-ones 4 (w / 2 / 2 / 2 / 2),
)

no_digits : (a b : ℕ) → a ≡ 0 → bit_or a b ≡ b
no_digits a b h = rw h (bit_or-bitwise 0 b)

join_nibbles : (a q : ℕ) → a < 16 → bit_or a (16 * q) ≡ a + 16 * q
join_nibbles a q h = omega (
  arith,
  bit_or_step a (16 * q),
  bit_or_step (a / 2) (16 * q / 2),
  bit_or_step (a / 2 / 2) (16 * q / 2 / 2),
  bit_or_step (a / 2 / 2 / 2) (16 * q / 2 / 2 / 2),
  no_digits (a / 2 / 2 / 2 / 2) (16 * q / 2 / 2 / 2 / 2) (omega arith),
)

-- The parts that a descriptor has: base, limit, flags and access byte.
abbrev pub Describes : (base limit flags access : ℕ) → GdtEntry → Type 0
Describes base limit flags access e =
    (segment_base e ≡ base)
    × (segment_limit e ≡ limit)
    × (segment_flags e ≡ flags)
    × (e.access ≡ access)

granularity :
    (limit gran : ℕ)
    → gran < 256
    → bit_or (bit_and (limit / 65536) 0xf) (bit_and gran 0xf0)
      ≡ limit / 65536 % 16 + 16 * (gran / 16)
granularity limit gran h =
    let low : bit_and (limit / 65536) 0xf ≡ limit / 65536 % 16 =
      omega (arith, bit_and-ones 4 (limit / 65536)) in
    rw low (rw (high_nibble gran h) (join_nibbles (limit / 65536 % 16) (gran / 16) (omega arith)))

-- The descriptor at place i has the base and the access byte that it was given, the low twenty digits
-- of the limit and the high four of the granularity; the other places keep theirs. The base is
-- below 2^32, the two bytes below 2^8.
pub set_gdt_entry-Describes :
    (entries : GdtEntries) (i base limit access gran j : ℕ)
    → base < 4294967296
    → access < 256
    → gran < 256
    → Describes base
        (limit % 1048576)
        (gran / 16)
        access
        (set_gdt_entry entries i base limit access gran i)
      × (j ≢ i → set_gdt_entry entries i base limit access gran j ≡ entries j)
unfolding set_gdt_entry
set_gdt_entry-Describes entries i base limit access gran j p q r =
    let here : (i == i) ≡ true = ground arith in
    let low : bit_and base 0xffff ≡ base % 65536 = omega (arith, bit_and-ones 16 base) in
    let mid : bit_and (base / 65536) 0xff ≡ base / 65536 % 256 =
      omega (arith, bit_and-ones 8 (base / 65536)) in
    let end : bit_and limit 0xffff ≡ limit % 65536 = omega (arith, bit_and-ones 16 limit) in
    let grain = granularity limit gran r in
    (
      rw here
          (omega (arith, low, mid), omega (arith, end, grain), omega (arith, grain), omega arith),
      λ away. ground arith,
    )
