-- ===== src/Kmalloc/Tests.antt =====
-- The placement allocator at a concrete address.
use studix.Base.{refl, true, false, arith, none, Returns, stop, undefined}
use studix.Kernel.{Kernel}
use studix.Kmalloc.{HeapAlloc, kmalloc_aux}
use studix.Kmalloc.Placement.{Placed, kmalloc_aux-Placed}

abbrev no_alloc : HeapAlloc
no_alloc k size align = stop undefined

abbrev early : Kernel
early = record {
  mem = λ x. 0;
  placement_addr = 1048577;
  kheap = false;
  heap = record {
    index = record { array = 0; size = 0; max_size = 0; comparer = none };
    start_addr = 0;
    end_addr = 0;
    max_addr = 0;
    supervisor = false;
    readonly = false;
  };
  kernel_dir = 0;
  curr_dir = 0;
  frames = 0;
  num_frames = 0;
}

kmalloc_aux-Placed_example :
    Returns (Placed early 4096 true true) (kmalloc_aux no_alloc early 4096 true true)
kmalloc_aux-Placed_example = kmalloc_aux-Placed no_alloc early 4096 true true refl (omega arith)
