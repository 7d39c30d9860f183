-- ===== src/Kmalloc.antt =====
-- src/mem/kmalloc.c: the placement allocator that serves until the heap exists, and the entry points.
-- The heap's `alloc` is an argument: it allocates page tables by kmalloc_ap, and so calls back.
mod Tests
pub mod Placement
use studix.Base.{
  ℕ, ◌+◌, ◌*◌, Bool, true, false, Result, ok, stop, undefined, ◌>>=◌, ◌==◌, if◌then◌else◌, add32,
  u32, bit_and,
}
use studix.Memory.{load32}
use studix.Kernel.{Kernel, page_size}
use studix.Paging.{align_up, get_page, entry_frame}
use studix.Heap.{no_kmalloc_ap}

-- The state that an allocation leaves, and the address.
abbrev pub HeapAlloc : Type 0
HeapAlloc = Kernel → ℕ → Bool → Result (Kernel × ℕ)

-- *phys, from the entry of the page that holds the address.
physical_of : Kernel → ℕ → Result (Kernel × ℕ × ℕ)
unfolding entry_frame get_page
physical_of k addr = do
  (k', page) ← get_page no_kmalloc_ap k addr false k.kernel_dir
  if page == 0
      then stop undefined
      else ok (k', addr, add32 (entry_frame (load32 k'.mem page) * page_size) (bit_and addr 0xfff))

-- `phys` is whether the pointer is given; where it is not, the last result is 0.
unfoldable pub kmalloc_aux : HeapAlloc → Kernel → ℕ → (align phys : Bool) → Result (Kernel × ℕ × ℕ)
unfolding physical_of
kmalloc_aux alloc k size align phys =
    let placed = if align then align_up k.placement_addr else k.placement_addr in
    let heap_case : Result (Kernel × ℕ × ℕ) = (do
      (k', addr) ← alloc k size align
      if phys then physical_of k' addr else ok (k', addr, 0)) in
    if k.kheap
    then heap_case
    else ok (record k { placement_addr = add32 placed size }, placed, if phys then placed else 0)

unfoldable pub kmalloc : HeapAlloc → Kernel → ℕ → Result (Kernel × ℕ)
unfolding kmalloc_aux
kmalloc alloc k size = do (k', addr, phys) ← kmalloc_aux alloc k size false false; ok (k', addr)

unfoldable pub kmalloc_a : HeapAlloc → Kernel → ℕ → Result (Kernel × ℕ)
unfolding kmalloc_aux
kmalloc_a alloc k size = do (k', addr, phys) ← kmalloc_aux alloc k size true false; ok (k', addr)

unfoldable pub kmalloc_p : HeapAlloc → Kernel → ℕ → Result (Kernel × ℕ × ℕ)
unfolding kmalloc_aux
kmalloc_p alloc k size = kmalloc_aux alloc k size false true

unfoldable pub kmalloc_ap : HeapAlloc → Kernel → ℕ → Result (Kernel × ℕ × ℕ)
unfolding kmalloc_aux
kmalloc_ap alloc k size = kmalloc_aux alloc k size true true
