-- ===== src/Alloc/Tests.antt =====
-- A heap with one hole of 500 bytes at 2000, its index at 1000, and the theorems about alloc.c there.
use studix.Base.{◌≢◌, refl, true, false, arith, some, Returns}
use studix.Memory.{Memory, load32, store32}
use studix.Kernel.{Kernel}
use studix.Heap.{header_comparer, make_header, make_footer}
use studix.Heap.Search.{indexed}
use studix.Alloc.{alloc, free}
use studix.Alloc.Take.{Taken}
use studix.Alloc.Request.{IsIndex, IsFirstFit, IsPlaced, alloc-Taken}
use studix.Alloc.Freed.{IsAlone, Freed, free-Freed, alloc-LooksLikeBlock}
use studix.Alloc.Give.{LooksLikeBlock}

abbrev one_hole : Memory
unfolding store32 make_header make_footer
one_hole = store32 (make_footer (make_header (λ x. 0) 2000 500 true) 2492 2000) 1000 2000

abbrev kernel : Kernel
kernel = record {
  mem = one_hole;
  placement_addr = 0;
  kheap = true;
  heap = record {
    index = record { array = 1000; size = 1; max_size = 16; comparer = some header_comparer };
    start_addr = 2000;
    end_addr = 2500;
    max_addr = 100000;
    supervisor = false;
    readonly = false;
  };
  kernel_dir = 0;
  curr_dir = 0;
  frames = 0;
  num_frames = 0;
}

kernel-IsIndex : IsIndex kernel header_comparer
kernel-IsIndex = record { compares = refl; room = omega arith }

kernel-IsFirstFit : IsFirstFit kernel 100 0
unfolding one_hole load32
kernel-IsFirstFit = (omega arith, omega arith, λ j below. absurd (omega arith))

kernel-IsPlaced : IsPlaced kernel 0
unfolding one_hole load32
kernel-IsPlaced = (omega arith, omega arith, omega arith)

alloc-Taken_example : Returns (Taken kernel (indexed kernel 0) 100) (alloc 3 kernel 100 false)
alloc-Taken_example =
    alloc-Taken 2 kernel 100 0 header_comparer kernel-IsIndex (omega arith) kernel-IsFirstFit
      kernel-IsPlaced

alloc-LooksLikeBlock_example :
    Returns (λ (k', ptr). (ptr ≢ 0) × LooksLikeBlock k' ptr) (alloc 3 kernel 100 false)
alloc-LooksLikeBlock_example =
    alloc-LooksLikeBlock 2 kernel 100 0 header_comparer kernel-IsIndex (omega arith)
      kernel-IsFirstFit kernel-IsPlaced

-- A block in use at 2000, in a heap that goes on behind it.
abbrev one_block : Memory
unfolding store32 make_header make_footer
one_block = make_footer (make_header (λ x. 0) 2000 500 false) 2492 2000

abbrev in_use : Kernel
in_use = record kernel {
  mem = one_block;
  heap = record (kernel.heap) {
    index = record { array = 1000; size = 0; max_size = 16; comparer = some header_comparer };
    end_addr = 3000;
  };
}

in_use-IsAlone : IsAlone in_use 2000 500
unfolding one_block load32
in_use-IsAlone = record {
  block = record {
    header = record { magic = refl; kind = refl; extent = refl };
    footer = record { magic = refl; leads = refl };
  };
  large = omega arith;
  low = omega arith;
  high = omega arith;
  no_left = omega arith;
  no_right = refl;
  inner = omega arith;
}

free-Freed_example : Returns (Freed header_comparer in_use 2000 500) (free in_use 2012)
free-Freed_example =
    free-Freed in_use 2000 500 header_comparer in_use-IsAlone refl (omega arith) (omega arith)
