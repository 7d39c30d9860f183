-- ===== src/Kmalloc/Placement.antt =====
-- The placement allocator, before the heap exists.
use studix.Base.{ℕ, ◌+◌, ◌≤◌, ◌<◌, ◌≡◌, Bool, true, false, arith, Returns, refl}
use studix.Kernel.{Kernel}
use studix.Paging.{aligned}
use studix.Paging.Align.{align_up-least, align_up-lt}
use studix.Kmalloc.{HeapAlloc, kmalloc_aux}

-- A block of the given size that lies between the old and the new placement address.
abbrev pub Placed : Kernel → (size : ℕ) → (align phys : Bool) → Kernel × ℕ × ℕ → Type 0
Placed k size align phys (k', addr, p) =
    (k.placement_addr ≤ addr)
    × (addr + size ≡ k'.placement_addr)
    × (align ≡ true → aligned addr ≡ true)
    × (phys ≡ true → p ≡ addr)
    × (k'.mem ≡ k.mem)

-- Before the heap exists, kmalloc and its variants return a block behind all those handed out before,
-- aligned if that is asked for and with its own address for the physical one, and touch no
-- memory. The block and a page of slack must lie below 2^32.
pub kmalloc_aux-Placed :
    (alloc : HeapAlloc) (k : Kernel) (size : ℕ) (align phys : Bool)
    → k.kheap ≡ false
    → k.placement_addr + 4096 + size < 4294967296
    → Returns (Placed k size align phys) (kmalloc_aux alloc k size align phys)
unfolding kmalloc_aux
kmalloc_aux-Placed alloc k size align phys none room =
    let up = align_up-least k.placement_addr (omega arith) in
    let near = align_up-lt k.placement_addr (omega arith) in
    rw none (ground arith, ground arith, ground arith, ground arith, refl)
