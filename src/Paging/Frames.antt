-- ===== src/Paging/Frames.antt =====
-- The bitset of frames: which frame a set or a clear changes.
use studix.Base.{
  ℕ, ◌-◌, ◌/◌, ◌%◌, ◌^◌, ◌<◌, ◌≡◌, ◌≢◌, inl, inr, arith, ◌==◌, if◌then◌else◌, bit, bit-or, bit-and,
  bit-pow, bit_mask, bit-lt, bit_or, bit_and, Bool-cases, ==_iff, pow-lt, bit_or-lt, bit_and-le,
}
use native.Mathlib.Nat.{le_refl}
use studix.Memory.{Memory, load32, store32}
use studix.Memory.Laws.{load32-store32, load32-store32-Apart, load32-lt}
use studix.Paging.{frame_word, set_frame, clear_frame}

-- Frame n is taken (1) or free (0).
abbrev pub frame_bit : Memory → ℕ → ℕ → ℕ
frame_bit m frames n = bit (n % 32) (load32 m (frame_word frames (n / 32)))

-- A frame is found again by its word and its place there.
frame_eq : (a b : ℕ) → a / 32 ≡ b / 32 → a % 32 ≡ b % 32 → a ≡ b
frame_eq a b p q = omega arith

-- A word of the bitset is written with a value that fits: what each frame's bit then is.
frame_bit-store32 :
    (m : Memory) (frames i w n : ℕ)
    → w < 4294967296
    → frame_bit (store32 m (frame_word frames i) w) frames n
      ≡ (if n / 32 == i then bit (n % 32) w else frame_bit m frames n)
frame_bit-store32 m frames i w n h = elim (Bool-cases (n / 32 == i)) [
  | inl e ↦
      let e' : n / 32 ≡ i = (==_iff (n / 32) i).0 e in
      rw (e, e', load32-store32 m (frame_word frames i) w h)
  | inr e ↦
      let ne : n / 32 ≢ i = ground arith in
      rw (
        e,
        load32-store32-Apart m (frame_word frames i) w (frame_word frames (n / 32)) (ground arith),
      )
]

-- set_frame takes the frame of its address and no other.
pub set_frame-frame_bit :
    (m : Memory) (frames addr n : ℕ)
    → frame_bit (set_frame m frames addr) frames n
      ≡ (if n == addr / 4096 then 1 else frame_bit m frames n)
unfolding set_frame
set_frame-frame_bit m frames addr n =
    let f = addr / 4096 in
    let w = load32 m (frame_word frames (f / 32)) in
    ground (
      arith,
      frame_bit-store32 m frames (f / 32) (bit_or w (2 ^ (f % 32))) n (
          bit_or-lt 32 w (2 ^ (f % 32)) (load32-lt m (frame_word frames (f / 32)))
            (pow-lt {j = f % 32} {n = 32} (omega arith))),
      bit-or (n % 32) w (2 ^ (f % 32)),
      bit-pow (n % 32) (f % 32),
      bit-lt (n % 32) w,
    )

-- clear_frame frees the frame of its address and no other.
pub clear_frame-frame_bit :
    (m : Memory) (frames addr n : ℕ)
    → frame_bit (clear_frame m frames addr) frames n
      ≡ (if n == addr / 4096 then 0 else frame_bit m frames n)
unfolding clear_frame
clear_frame-frame_bit m frames addr n =
    let f = addr / 4096 in
    let w = load32 m (frame_word frames (f / 32)) in
    ground (
      arith,
      frame_bit-store32 m frames (f / 32) (bit_and w (2 ^ 32 - 1 - 2 ^ (f % 32))) n (fits f w),
      bit-and (n % 32) w (2 ^ 32 - 1 - 2 ^ (f % 32)),
      bit_mask 32 (n % 32) (f % 32) (omega arith) (omega arith),
      bit-lt (n % 32) w,
    )
  where
    fits :
        (f w : ℕ)
        → bit_and (load32 m (frame_word frames (f / 32))) (2 ^ 32 - 1 - 2 ^ (f % 32)) < 4294967296
    fits f w = omega (
      arith,
      load32-lt m (frame_word frames (f / 32)),
      bit_and-le _ (load32 m (frame_word frames (f / 32))) (2 ^ 32 - 1 - 2 ^ (f % 32)) (le_refl _),
    )
