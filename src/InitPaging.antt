-- ===== src/InitPaging.antt =====
-- init_paging of src/mem/page.c, with the steps that it takes as functions of their own. The loads of
-- control registers in switch_page_dir are left out, and so is the handler that it registers.
pub mod Bitset
pub mod Reserve
pub mod Table
pub mod Filled
pub mod Loops
pub mod Steps
pub mod Mapped
pub mod Ready
mod Tests
use studix.Base.{
  ℕ, zero, suc, ◌+◌, ◌/◌, true, false, Result, ok, stop, fuel, ◌>>=◌, ltb, not, if◌then◌else◌,
  add32,
}
use studix.Memory.{Memory}
use studix.Strings.{memset}
use studix.Kernel.{Kernel, page_size, heap_start, heap_init_size, heap_max_size}
use studix.Paging.{bit_index, alloc_frame, get_page}
use studix.Heap.{create_heap}
use studix.Kmalloc.{HeapAlloc, kmalloc, kmalloc_a, kmalloc_ap}

abbrev pub phys_mem_size : ℕ
phys_mem_size = 0x4000000

abbrev pub sizeof_page_dir : ℕ
sizeof_page_dir = 8196

abbrev pub heap_init_end : ℕ
heap_init_end = heap_start + heap_init_size

-- The bitset of frames.
unfoldable pub init_bitset : HeapAlloc → Kernel → Result Kernel
init_bitset alloc k = do
  let num_frames = phys_mem_size / page_size
  (k', frames) ← kmalloc alloc (record k { num_frames = num_frames }) (bit_index num_frames)
  ok (record k' { frames = frames; mem = memset k'.mem frames 0 (bit_index num_frames) })

-- The page directory.
unfoldable pub init_directory : HeapAlloc → Kernel → Result Kernel
init_directory alloc k = do
  (k', dir) ← kmalloc_a alloc k sizeof_page_dir
  ok (record k' { kernel_dir = dir; curr_dir = dir; mem = memset k'.mem dir 0 sizeof_page_dir })

-- The loop that makes the tables of the heap's pages, from address i on.
unfoldable pub reserve_loop : HeapAlloc → (f i : ℕ) → Kernel → Result Kernel
reserve_loop alloc zero i k = stop fuel
reserve_loop alloc (suc f) i k =
    let rest = λ (k' : Kernel). reserve_loop alloc f (add32 i page_size) k' in
    if not (ltb i heap_init_end)
    then ok k
    else do (k', page) ← get_page (kmalloc_ap alloc) k i true k.kernel_dir; rest k'

-- alloc_frame(get_page(i, true, kernel_dir), false, false)
unfoldable pub map_page : HeapAlloc → (i : ℕ) → Kernel → Result Kernel
map_page alloc i k = do
  (k', page) ← get_page (kmalloc_ap alloc) k i true k.kernel_dir
  alloc_frame k' page false false

-- The loop over the pages in use and one more; making a table moves its end.
unfoldable pub identity_loop : HeapAlloc → (f i : ℕ) → Kernel → Result Kernel
identity_loop alloc zero i k = stop fuel
identity_loop alloc (suc f) i k =
    let rest = λ (k' : Kernel). identity_loop alloc f (add32 i page_size) k' in
    if not (ltb i (add32 k.placement_addr page_size)) then ok k else map_page alloc i k >>= rest

-- The loop that gives frames to the heap's pages.
unfoldable pub heap_loop : HeapAlloc → (f i : ℕ) → Kernel → Result Kernel
heap_loop alloc zero i k = stop fuel
heap_loop alloc (suc f) i k =
    let rest = λ (k' : Kernel). heap_loop alloc f (add32 i page_size) k' in
    if not (ltb i heap_init_end) then ok k else map_page alloc i k >>= rest

-- What init_paging does before it loads the directory: 257 rounds suffice for the heap's 256 pages.
unfoldable pub map_pages : HeapAlloc → (f : ℕ) → Kernel → Result Kernel
map_pages alloc f k = do
  k1 ← init_bitset alloc k
  k2 ← init_directory alloc k1
  k3 ← reserve_loop alloc 257 heap_start k2
  k4 ← identity_loop alloc f 0 k3
  heap_loop alloc 257 heap_start k4

unfoldable pub init_paging : HeapAlloc → (f : ℕ) → Kernel → Result Kernel
init_paging alloc f k = do
  k5 ← map_pages alloc f k
  let k6 = record k5 { curr_dir = k5.kernel_dir }
  (k7, heap) ←
      create_heap (kmalloc alloc) k6 heap_start heap_init_end (add32 heap_start heap_max_size) false
        false
  ok (record k7 { kheap = true; heap = heap })
