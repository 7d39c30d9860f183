-- ===== src/Paging/Tests.antt =====
-- A bitset of frames at 4096, a page entry at 8192, and the theorems about page.c there.
use studix.Base.{
  ℕ, ◌/◌, ◌%◌, ◌<◌, ◌≡◌, refl, true, false, arith, none, Returns, ◌==◌, leb, ltb, ◌&&◌,
  if◌then◌else◌, bit-ones,
}
use studix.Memory.{Memory, load32}
use studix.Kernel.{Kernel, Heap}
use studix.Paging.{align_up, first_frame, entry_frame, alloc_frame, free_frame}
use studix.Paging.Align.{align_up_wraps}
use studix.Paging.Frames.{frame_bit}
use studix.Paging.First.{TakenFrom, IsFirstFree}
use studix.Paging.Entries.{Allocated, alloc_frame-IsFirstFree, free_frame_keeps_frame}

-- 33 frames are taken; the entry at 8196 has frame 5.
abbrev bitset : Memory
bitset x =
    if leb 4096 x && ltb x 4100 then 255 else if x == 4100 then 1 else if x == 8197 then 80 else 0

abbrev no_heap : Heap
no_heap = record {
  index = record { array = 0; size = 0; max_size = 0; comparer = none };
  start_addr = 0;
  end_addr = 0;
  max_addr = 0;
  supervisor = false;
  readonly = false;
}

abbrev sixty_four : Kernel
sixty_four = record {
  mem = bitset;
  placement_addr = 65536;
  kheap = false;
  heap = no_heap;
  kernel_dir = 16384;
  curr_dir = 16384;
  frames = 4096;
  num_frames = 64;
}

abbrev thirty_two : Kernel
thirty_two = record sixty_four { num_frames = 32 }

align_up_wraps_example : align_up 4294967000 ≡ 0
align_up_wraps_example = align_up_wraps 4294967000 (omega arith) (omega arith)

first_frame-bitset : first_frame bitset 4096 64 ≡ 33
unfolding first_frame load32
first_frame-bitset = refl

alloc_frame-IsFirstFree_example :
    (r : ℕ) × IsFirstFree bitset 4096 0 64 r
    × Returns (Allocated sixty_four 8192 r) (alloc_frame sixty_four 8192 false true)
unfolding load32 entry_frame
alloc_frame-IsFirstFree_example =
    alloc_frame-IsFirstFree sixty_four 8192 false true 40 (omega arith) (omega arith) (omega arith)
      refl (omega arith) refl

all_taken : TakenFrom bitset 4096 0 32
unfolding load32
all_taken n lo hi =
    let first : n / 32 ≡ 0 = omega arith in rw first (bit-ones 32 (n % 32) (omega arith))

-- The entry at 8196 keeps frame 5 taken after it is freed, and frame 0 is given away.
free_frame_keeps_frame_example :
    Returns
      (λ k'.
        (entry_frame (load32 k'.mem 8196) ≡ 0)
        × ((n : ℕ)
            → n < 64
            → frame_bit k'.mem 4096 n ≡ (if n == 5 / 4096 then 0 else frame_bit bitset 4096 n)))
      (free_frame sixty_four 8196)
unfolding load32 entry_frame
free_frame_keeps_frame_example =
    free_frame_keeps_frame sixty_four 8196 5 (omega arith) (omega arith) refl (omega arith)
