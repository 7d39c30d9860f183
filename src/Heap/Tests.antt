-- ===== src/Heap/Tests.antt =====
-- A heap with one hole of 500 bytes at 2000, its index at 1000, and the theorems about heap.c there.
use studix.Base.{◌≡◌, refl, true, false, some, ok}
use studix.Memory.{Memory, load32, store32}
use studix.OrderedArray.{ordered_array_lookup}
use studix.Kernel.{Kernel, Heap}
use studix.Heap.{header_comparer, make_header, make_footer, find_smallest_hole}

abbrev one_hole : Memory
unfolding store32 make_header make_footer
one_hole = store32 (make_footer (make_header (λ x. 0) 2000 500 true) 2492 2000) 1000 2000

abbrev heap : Heap
heap = record {
  index = record { array = 1000; size = 1; max_size = 16; comparer = some header_comparer };
  start_addr = 2000;
  end_addr = 2500;
  max_addr = 100000;
  supervisor = false;
  readonly = false;
}

abbrev kernel : Kernel
kernel = record {
  mem = one_hole;
  placement_addr = 0;
  kheap = true;
  heap = heap;
  kernel_dir = 0;
  curr_dir = 0;
  frames = 0;
  num_frames = 0;
}

found : find_smallest_hole kernel 120 false ≡ ok (some 0)
unfolding find_smallest_hole one_hole load32 ordered_array_lookup
found = refl
