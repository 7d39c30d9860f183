-- ===== src/Paging/First.antt =====
-- The search for a free frame.
use studix.Base.{
  ℕ, zero, suc, ◌+◌, ◌-◌, ◌*◌, ◌/◌, ◌%◌, ◌^◌, ◌≤◌, ◌<◌, ◌≡◌, ◌⊎◌, inl, inr, arith, ◌==◌, bit,
  bit_and, and-pow, pow-pos, bit-lt, bit-ones, ◌∙◌, subst, Option, none, some, Bool-cases, ==_iff,
}
use studix.Memory.{Memory, load32}
use native.Mathlib.Decide.{dec_lt}
use studix.Paging.{frame_word, first_clear, first_frame_loop, first_frame}
use studix.Paging.Frames.{frame_bit}

-- The test `word & (1 << j)` reads bit j.
test_bit : (j w : ℕ) → (bit_and w (2 ^ j) == 0) ≡ (bit j w == 0)
test_bit j w = grind (arith, and-pow j w, pow-pos j, bit-lt j w)

-- What the inner loop returns from bit j on.
abbrev FirstClear : ℕ → (left j : ℕ) → Option ℕ → Type 0
FirstClear w left j none = (b : ℕ) → j ≤ b → b < j + left → bit b w ≡ 1
FirstClear w left j (some r) =
    (j ≤ r) × (r < j + left) × (bit r w ≡ 0) × ((b : ℕ) → j ≤ b → b < r → bit b w ≡ 1)

FirstClear-next :
    (w left j : ℕ) (o : Option ℕ)
    → bit j w ≡ 1
    → FirstClear w left (j + 1) o
    → FirstClear w (suc left) j o
FirstClear-next w left j none here h = λ b lo hi. grind (arith, h b)
FirstClear-next w left j (some r) here h =
    (omega arith, omega arith, h.2, λ b lo hi. grind (arith, h.3 b))

first_clear_lem : (left j w : ℕ) → FirstClear w left j (first_clear left j w)
unfolding first_clear
first_clear_lem zero j w = λ b lo hi. absurd (omega arith)
first_clear_lem (suc left) j w = elim (Bool-cases (bit j w == 0)) [
  | inl e ↦
      rw (test_bit j w, e)
        (omega arith, omega arith, (==_iff (bit j w) 0).0 e, λ b lo hi. absurd (omega arith))
  | inr e ↦
      rw (test_bit j w, e)
        (FirstClear-next w left j (first_clear left (j + 1) w) (ground (arith, bit-lt j w))
          (first_clear_lem left (j + 1) w))
]

-- The bits of a word of ones are all set.
full_bits : (b w : ℕ) → b < 32 → w ≡ 0xffffffff → bit b w ≡ 1
full_bits b w h e = rw e (bit-ones 32 b h)

-- All the frames from i * 32 up to n are taken.
abbrev pub TakenFrom : Memory → (frames lo hi : ℕ) → Type 0
TakenFrom m frames lo hi = (n : ℕ) → lo ≤ n → n < hi → frame_bit m frames n ≡ 1

-- r is the first free frame at or above lo and below hi.
abbrev pub IsFirstFree : Memory → (frames lo hi r : ℕ) → Type 0
IsFirstFree m frames lo hi r =
    (lo ≤ r) × (r < hi) × (frame_bit m frames r ≡ 0) × TakenFrom m frames lo r

-- The two ways in which the search can end.
abbrev pub Found : Memory → (frames lo hi r : ℕ) → Type 0
Found m frames lo hi r = IsFirstFree m frames lo hi r ⊎ ((r * 32 ≡ hi) × TakenFrom m frames lo hi)

-- A word whose 32 frames are taken is passed over.
Found-next :
    (m : Memory) (frames i hi r : ℕ)
    → TakenFrom m frames (i * 32) (i * 32 + 32)
    → Found m frames ((i + 1) * 32) hi r
    → Found m frames (i * 32) hi r
Found-next m frames i hi r t (inl (lo, up, free, taken)) = inl (
  omega arith,
  up,
  free,
  λ n p q. elim (dec_lt n (i * 32 + 32)) [ yes a ↦ t n p a | no a ↦ taken n (omega arith) q ],
)
Found-next m frames i hi r t (inr (e, taken)) =
    inr (
      e,
      λ n p q. elim (dec_lt n (i * 32 + 32)) [ yes a ↦ t n p a | no a ↦ taken n (omega arith) q ],
    )

-- The bits of word i are its frames.
word_bits :
    (m : Memory) (frames i n : ℕ)
    → i * 32 ≤ n
    → n < i * 32 + 32
    → frame_bit m frames n ≡ bit (n - i * 32) (load32 m (frame_word frames i))
word_bits m frames i n lo hi =
    let q : n / 32 ≡ i = omega arith in let r : n % 32 ≡ n - i * 32 = omega arith in rw (q, r)

Found-word :
    (m : Memory) (frames i left : ℕ) (o : Option ℕ) (next : ℕ)
    → FirstClear (load32 m (frame_word frames i)) 32 0 o
    → Found m frames ((i + 1) * 32) ((i + suc left) * 32) next
    → Found m frames (i * 32) ((i + suc left) * 32) (elim o [ none ↦ next | some j ↦ i * 32 + j ])
Found-word m frames i left none next c h =
    Found-next m frames i _ next
      (λ n p q. word_bits m frames i n p q ∙ c (n - i * 32) (omega arith) (omega arith)) h
Found-word m frames i left (some j) next c h = inl (
  omega arith,
  omega arith,
  word_bits m frames i (i * 32 + j) (omega arith) (omega arith)
      ∙ (let e : i * 32 + j - i * 32 ≡ j = omega arith in rw e c.2),
  λ n p q. word_bits m frames i n p (omega arith) ∙ c.3 (n - i * 32) (omega arith) (omega arith),
)

first_frame_loop-Found :
    (m : Memory) (frames left i : ℕ)
    → Found m frames (i * 32) ((i + left) * 32) (first_frame_loop m frames left i)
unfolding first_frame_loop
first_frame_loop-Found m frames zero i = inr (omega arith, λ n p q. absurd (omega arith))
first_frame_loop-Found m frames (suc left) i =
    let w = load32 m (frame_word frames i) in
    let rest : Found m frames ((i + 1) * 32) ((i + suc left) * 32)
        (first_frame_loop m frames left (i + 1)) =
      (let e : (i + 1 + left) * 32 ≡ (i + suc left) * 32 = omega arith in
        subst (λ h. Found m frames ((i + 1) * 32) h (first_frame_loop m frames left (i + 1))) e
          (first_frame_loop-Found m frames left (i + 1))) in
    elim (Bool-cases (w == 0xffffffff)) [
      | inl e ↦ rw e (
          Found-next m frames i _ _
            (λ n p q.
              word_bits m frames i n p q
              ∙ full_bits (n - i * 32) w (omega arith) ((==_iff w 0xffffffff).0 e))
            rest)
      | inr e ↦
          rw e (Found-word m frames i left (first_clear 32 0 w) _ (first_clear_lem 32 0 w) rest)
    ]

-- Among the frames of the whole words of the bitset, first_frame returns the first free one. If all
-- of them are taken it returns the number of those words, which is the number of a taken frame.
pub first_frame-Found :
    (m : Memory) (frames num_frames : ℕ)
    → Found m frames 0 (num_frames / 32 * 32) (first_frame m frames num_frames)
unfolding first_frame
first_frame-Found m frames num_frames =
    let n : 0 + num_frames / 32 ≡ num_frames / 32 = omega arith in
    subst (λ h. Found m frames 0 (h * 32) (first_frame_loop m frames (num_frames / 32) 0)) n
      (first_frame_loop-Found m frames (num_frames / 32) 0)

pub first_frame-le :
    (m : Memory) (frames num_frames : ℕ) → first_frame m frames num_frames ≤ num_frames
first_frame-le m frames num_frames = elim (first_frame-Found m frames num_frames) [
  | inl f ↦ omega arith
  | inr f ↦ omega arith
]

pub first_frame_full :
    (m : Memory) (frames num_frames : ℕ)
    → TakenFrom m frames 0 (num_frames / 32 * 32)
    → first_frame m frames num_frames ≡ num_frames / 32
first_frame_full m frames num_frames taken = elim (first_frame-Found m frames num_frames) [
  | inl f ↦ absurd (omega (arith, taken (first_frame m frames num_frames) (omega arith) f.1, f.2))
  | inr f ↦ omega arith
]

pub first_frame_free :
    (m : Memory) (frames num_frames n : ℕ)
    → n < num_frames / 32 * 32
    → frame_bit m frames n ≡ 0
    → IsFirstFree m frames 0 (num_frames / 32 * 32) (first_frame m frames num_frames)
first_frame_free m frames num_frames n h free = elim (first_frame-Found m frames num_frames) [
  | inl f ↦ f
  | inr f ↦ absurd (omega (arith, f.1 n (omega arith) h, free))
]
