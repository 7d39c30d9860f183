-- ===== src/Kernel.antt =====
-- The state that the memory management keeps: the globals of src/mem/*.c, and the struct Heap of
-- src/include/heap.h. There is one heap, so the struct stands in the state and not in memory.
use studix.Base.{ℕ, Bool}
use studix.Memory.{Memory}
use studix.OrderedArray.{OrderedArray}

pub record Heap : Type 0 where
  pub index : OrderedArray
  pub start_addr : ℕ
  pub end_addr : ℕ
  pub max_addr : ℕ
  pub supervisor : Bool
  pub readonly : Bool

-- `kheap` is whether the pointer kheap leads to `heap`; before that it is NULL.
pub record Kernel : Type 0 where
  pub mem : Memory
  pub placement_addr : ℕ
  pub kheap : Bool
  pub heap : Heap
  pub kernel_dir : ℕ
  pub curr_dir : ℕ
  pub frames : ℕ
  pub num_frames : ℕ

-- The #define lines of page.h and heap.h, and the sizes of the packed structs.
abbrev pub page_size : ℕ
page_size = 4096

abbrev pub heap_start : ℕ
heap_start = 0xc0000000

abbrev pub heap_init_size : ℕ
heap_init_size = 0x100000

abbrev pub heap_min_size : ℕ
heap_min_size = 0x70000

abbrev pub heap_max_size : ℕ
heap_max_size = 0xffff000

abbrev pub heap_index_size : ℕ
heap_index_size = 0x20000

abbrev pub heap_magic : ℕ
heap_magic = 0xbeefaced
