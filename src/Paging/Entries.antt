-- ===== src/Paging/Entries.antt =====
-- Giving a page a frame and taking it back.
use studix.Base.{
  ℕ, ◌+◌, ◌*◌, ◌/◌, ◌%◌, ◌^◌, ◌≤◌, ◌<◌, ◌≡◌, ◌≢◌, ◌⊎◌, Bool, true, false, not, arith, ◌==◌,
  if◌then◌else◌, ok, stop, panicked, Returns, Returns-mono, ◌∙◌, ap, mul32, bit,
}
use studix.Memory.{Memory, load32, store32}
use studix.Memory.Laws.{load32-store32, load32-store32-Apart}
use studix.Kernel.{Kernel}
use studix.Paging.{
  frame_word, set_frame, clear_frame, first_frame, entry_frame, fill_entry, clear_entry_frame,
  bool_bit, alloc_frame, free_frame,
}
use studix.Paging.Frames.{frame_bit, set_frame-frame_bit, clear_frame-frame_bit}
use studix.Paging.First.{TakenFrom, IsFirstFree, first_frame-le, first_frame_full, first_frame_free}

-- The entry lies outside the words of the bitset.
abbrev pub OutsideBitset : Kernel → ℕ → Type 0
OutsideBitset k page = (page + 4 ≤ k.frames) ⊎ (k.frames + 4 * (k.num_frames / 32) ≤ page)

-- The panic of alloc_frame is never reached: the search does not return -1.
alloc_frame-ne-panicked :
    (k : Kernel) (page : ℕ) (kernel writeable : Bool)
    → k.num_frames < 0xffffffff
    → alloc_frame k page kernel writeable ≢ stop panicked
unfolding alloc_frame
alloc_frame-ne-panicked k page kernel writeable h e =
    ground (arith, first_frame-le k.mem k.frames k.num_frames)

fill_entry-lt :
    (w rw_ user frame : ℕ) → rw_ < 2 → user < 2 → fill_entry w rw_ user frame < 4294967296
unfolding fill_entry
fill_entry-lt w rw_ user frame p q = omega arith

entry_frame-fill_entry :
    (w rw_ user frame : ℕ)
    → rw_ < 2
    → user < 2
    → frame < 2 ^ 20
    → entry_frame (fill_entry w rw_ user frame) ≡ frame
unfolding fill_entry entry_frame
entry_frame-fill_entry w rw_ user frame p q h = omega arith

bool_bit-lt : (b : Bool) → bool_bit b < 2
bool_bit-lt true = omega arith
bool_bit-lt false = omega arith

-- alloc_frame on an entry that has no frame.
pub alloc_frame_new :
    (k : Kernel) (page : ℕ) (kernel writeable : Bool)
    → k.num_frames < 0xffffffff
    → page ≢ 0
    → entry_frame (load32 k.mem page) ≡ 0
    → let r = first_frame k.mem k.frames k.num_frames in
      let m = set_frame k.mem k.frames (mul32 r 4096) in
      alloc_frame k page kernel writeable
      ≡ ok (record k {
        mem =
            store32 m page
              (fill_entry (load32 m page) (bool_bit writeable) (bool_bit (not kernel)) r);
      })
unfolding alloc_frame
alloc_frame_new k page kernel writeable h ne e =
    ground (arith, first_frame-le k.mem k.frames k.num_frames)

-- A write to the entry leaves the bitset.
frame_bit-entry :
    (k : Kernel) (m : Memory) (page w n : ℕ)
    → OutsideBitset k page
    → n < k.num_frames / 32 * 32
    → frame_bit (store32 m page w) k.frames n ≡ frame_bit m k.frames n
frame_bit-entry k m page w n out h =
    ap (bit (n % 32)) (load32-store32-Apart m page w (frame_word k.frames (n / 32)) (omega arith))

entry-after :
    (m : Memory) (page r : ℕ) (kernel writeable : Bool)
    → r < 2 ^ 20
    → entry_frame (
        load32
          (store32 m page
            (fill_entry (load32 m page) (bool_bit writeable) (bool_bit (not kernel)) r))
          page)
      ≡ r
entry-after m page r kernel writeable h =
    let w = bool_bit-lt writeable in
    let u = bool_bit-lt (not kernel) in
    ap entry_frame (load32-store32 m page _ (fill_entry-lt (load32 m page) _ _ r w u))
    ∙ entry_frame-fill_entry (load32 m page) _ _ r w u h

-- What alloc_frame leaves: the entry holds frame r, and of the bits of the bitset that of r is set
-- and the others are as before.
abbrev pub Allocated : Kernel → (page r : ℕ) → Kernel → Type 0
Allocated k page r k' =
    (entry_frame (load32 k'.mem page) ≡ r)
    × ((n : ℕ)
        → n < k.num_frames / 32 * 32
        → frame_bit k'.mem k.frames n ≡ (if n == r then 1 else frame_bit k.mem k.frames n))

alloc_frame-Allocated :
    (k : Kernel) (page : ℕ) (kernel writeable : Bool)
    → k.num_frames < 2 ^ 20
    → page ≢ 0
    → OutsideBitset k page
    → entry_frame (load32 k.mem page) ≡ 0
    → Returns
        (Allocated k page (first_frame k.mem k.frames k.num_frames))
        (alloc_frame k page kernel writeable)
alloc_frame-Allocated k page kernel writeable few ne out e =
    let r = first_frame k.mem k.frames k.num_frames in
    let small : r ≤ k.num_frames = first_frame-le k.mem k.frames k.num_frames in
    let m = set_frame k.mem k.frames (mul32 r 4096) in
    let at : mul32 r 4096 / 4096 ≡ r = omega arith in
    rw (alloc_frame_new k page kernel writeable (omega arith) ne e) (
      entry-after m page r kernel writeable (omega arith),
      λ n h.
          frame_bit-entry k m page _ n out h
          ∙ set_frame-frame_bit k.mem k.frames (mul32 r 4096) n
          ∙ ap (λ t. if n == t then 1 else frame_bit k.mem k.frames n) at,
    )

-- With a frame free, alloc_frame gives an entry that has none the first free frame and marks that
-- frame and no other as taken. The entry must not lie in the bitset.
pub alloc_frame-IsFirstFree :
    (k : Kernel) (page : ℕ) (kernel writeable : Bool) (n : ℕ)
    → k.num_frames < 2 ^ 20
    → page ≢ 0
    → OutsideBitset k page
    → entry_frame (load32 k.mem page) ≡ 0
    → n < k.num_frames / 32 * 32
    → frame_bit k.mem k.frames n ≡ 0
    → (r : ℕ) × IsFirstFree k.mem k.frames 0 (k.num_frames / 32 * 32) r
      × Returns (Allocated k page r) (alloc_frame k page kernel writeable)
alloc_frame-IsFirstFree k page kernel writeable n few ne out e h free = (
  first_frame k.mem k.frames k.num_frames,
  first_frame_free k.mem k.frames k.num_frames n h free,
  alloc_frame-Allocated k page kernel writeable few ne out e,
)

-- With every frame taken, alloc_frame neither panics nor fails: it gives the entry frame
-- num_frames / 32, which is taken already, and the bitset stays full.
alloc_frame_full :
    (k : Kernel) (page : ℕ) (kernel writeable : Bool)
    → k.num_frames < 2 ^ 20
    → page ≢ 0
    → OutsideBitset k page
    → entry_frame (load32 k.mem page) ≡ 0
    → TakenFrom k.mem k.frames 0 (k.num_frames / 32 * 32)
    → Returns
        (λ k'.
          (entry_frame (load32 k'.mem page) ≡ k.num_frames / 32)
          × TakenFrom k'.mem k.frames 0 (k.num_frames / 32 * 32))
        (alloc_frame k page kernel writeable)
alloc_frame_full k page kernel writeable few ne out e taken =
    Returns-mono (alloc_frame k page kernel writeable)
      (λ k' a. (
        a.0 ∙ first_frame_full k.mem k.frames k.num_frames taken,
        λ n lo hi. ground (arith, a.1 n hi, taken n lo hi),
      ))
      (alloc_frame-Allocated k page kernel writeable few ne out e)

free_frame_eq :
    (k : Kernel) (page : ℕ)
    → page ≢ 0
    → entry_frame (load32 k.mem page) ≢ 0
    → let m = clear_frame k.mem k.frames (entry_frame (load32 k.mem page)) in
      free_frame k page ≡ ok (record k { mem = store32 m page (clear_entry_frame (load32 m page)) })
unfolding free_frame
free_frame_eq k page ne nz = ground arith

clear_entry_frame-zero : (w : ℕ) → entry_frame (clear_entry_frame w) ≡ 0
unfolding entry_frame clear_entry_frame
clear_entry_frame-zero w = omega arith

clear_entry_frame-lt : (w : ℕ) → clear_entry_frame w < 4294967296
unfolding clear_entry_frame
clear_entry_frame-lt w = omega arith

-- free_frame empties the entry, but of a frame f other than 0 it leaves the bit as it was, and clears
-- that of frame f / 4096 instead: the frame is lost to first_frame.
pub free_frame_keeps_frame :
    (k : Kernel) (page f : ℕ)
    → page ≢ 0
    → OutsideBitset k page
    → entry_frame (load32 k.mem page) ≡ f
    → f ≢ 0
    → Returns
        (λ k'.
          (entry_frame (load32 k'.mem page) ≡ 0)
          × ((n : ℕ)
              → n < k.num_frames / 32 * 32
              → frame_bit k'.mem k.frames n
                ≡ (if n == f / 4096 then 0 else frame_bit k.mem k.frames n)))
        (free_frame k page)
free_frame_keeps_frame k page f ne out e nz =
    let g = entry_frame (load32 k.mem page) in
    let m = clear_frame k.mem k.frames g in
    rw (free_frame_eq k page ne (omega arith)) (
      ap entry_frame (load32-store32 m page _ (clear_entry_frame-lt (load32 m page)))
          ∙ clear_entry_frame-zero (load32 m page),
      λ n h.
          frame_bit-entry k m page _ n out h
          ∙ clear_frame-frame_bit k.mem k.frames g n
          ∙ ap (λ t. if n == t / 4096 then 0 else frame_bit k.mem k.frames n) e,
    )
