-- ===== src/InitPaging/Tests.antt =====
-- A kernel without a heap, in memory that is full of ones and in memory that is empty.
use studix.Base.{
  ℕ, ◌+◌, ◌*◌, ◌%◌, ◌≤◌, ◌<◌, ◌≡◌, ◌↔◌, refl, arith, false, none, stop, undefined, Returns, ◌>>=◌,
  if◌then◌else◌,
}
use studix.Strings.Bytes.{within}
use studix.Kernel.{Kernel}
use studix.Paging.{bit_index}
use studix.Kmalloc.{HeapAlloc}
use studix.InitPaging.{init_bitset, init_directory, init_paging}
use studix.InitPaging.Bitset.{init_directory-init_bitset}
use studix.InitPaging.Ready.{Ready, init_paging-Ready}

abbrev no_heap : HeapAlloc
no_heap k size align = stop undefined

abbrev kernel : ℕ → Kernel
kernel byte = record {
  mem = λ x. byte;
  placement_addr = 1100800;
  kheap = false;
  heap = record {
    index = record { array = 0; size = 0; max_size = 0; comparer = none };
    start_addr = 0;
    end_addr = 0;
    max_addr = 0;
    supervisor = false;
    readonly = false;
  };
  kernel_dir = 1048576;
  curr_dir = 1048576;
  frames = 0;
  num_frames = 0;
}

init_directory-init_bitset_example :
    Returns
      (λ k'.
        (k'.frames ≡ 1100800)
        × (4 * bit_index (k'.num_frames) ≡ 2048)
        × ((x : ℕ) → x < k'.kernel_dir → k'.mem x ≡ (if within 1100800 512 x then 0 else 255))
        × ((k'.kernel_dir < k'.frames + 4 * bit_index (k'.num_frames))
            ↔ ((2048 < 1100800 % 4096) × (1100800 % 4096 ≤ 3584))))
      (init_bitset no_heap (kernel 255) >>= init_directory no_heap)
init_directory-init_bitset_example =
    init_directory-init_bitset no_heap (kernel 255) refl (omega arith)

init_paging-Ready_example :
    (n : ℕ) × Returns (Ready (kernel 255) n) (init_paging no_heap 1025 (kernel 255))
init_paging-Ready_example =
    init_paging-Ready no_heap 1024 (kernel 255) refl (omega arith) (omega arith)
