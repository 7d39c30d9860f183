-- ===== src/Boot/First.antt =====
-- The first allocation of the kernel: init_paging, and kmalloc on the heap that it makes.
use studix.Base.{
  ℕ, suc, ◌+◌, ◌≤◌, ◌≡◌, refl, ap, false, true, arith, ok, stop, Result, ◌>>=◌, Returns,
  Returns-bind, Returns-mono, ◌∙◌,
}
use studix.Kernel.{Kernel, heap_start}
use studix.Heap.{size_of, header_comparer}
use studix.Heap.Blocks.{IsBlock}
use studix.Heap.Search.{indexed}
use studix.Kmalloc.{HeapAlloc, kmalloc}
use studix.Alloc.{alloc, block_size}
use studix.Alloc.Take.{Taken, RestIsHole}
use studix.Alloc.Request.{IsFirstFit, alloc-Taken}
use studix.InitPaging.{init_paging}
use studix.InitPaging.Ready.{Ready, init_paging-Ready}

strip :
    (r : Result (Kernel × ℕ))
    → ((r >>= λ (k, addr). ok (k, addr, 0)) >>= λ ((k, addr, phys) : Kernel × ℕ × ℕ). ok (k, addr))
      ≡ r
strip (ok x) = refl
strip (stop s) = refl

-- Once the heap exists, kmalloc is alloc.
pub kmalloc-alloc :
    (heap_alloc : HeapAlloc) (k : Kernel) (size : ℕ)
    → k.kheap ≡ true
    → kmalloc heap_alloc k size ≡ heap_alloc k size false
unfolding kmalloc
kmalloc-alloc heap_alloc k size there =
    rw there (strip (heap_alloc (record k { kheap = true }) size false))

-- A block of total bytes at the heap's start that holds size bytes, what is left of the 512 KiB a hole.
abbrev pub FirstBlock : (size : ℕ) → Kernel × ℕ → Type 0
FirstBlock size (k, ptr) =
    let total = block_size 0x80000 size in
    (ptr ≡ heap_start + 0x8000c)
    × (size + 20 ≤ total)
    × (total ≤ 0x80000)
    × IsBlock k.mem (heap_start + 0x80000) total false
    × RestIsHole k.mem (heap_start + 0x80000) 0x80000 total

Taken-FirstBlock :
    (k : Kernel) (h size : ℕ) (r : Kernel × ℕ)
    → h ≡ heap_start + 0x80000
    → size_of k.mem h ≡ 0x80000
    → Taken k h size r
    → FirstBlock size r
Taken-FirstBlock k h size r at extent taken =
    let (place, holds, within, block, rest, ends) = (rw (extent, at) at taken) in
    (place, holds, within, block, rest)

alloc-FirstBlock :
    (g size n : ℕ) (k k' : Kernel)
    → size + 20 ≤ 0x80000
    → Ready k n k'
    → Returns (FirstBlock size) (kmalloc (alloc (suc g)) k' size)
alloc-FirstBlock g size n k k' fits ready =
    let extent : size_of k'.mem (indexed k' 0) ≡ 0x80000 =
      ap (size_of k'.mem) ready.entry ∙ ready.hole.extent in
    let first : IsFirstFit k' size 0 =
      (omega (arith, ready.single), omega (arith, extent), λ j below. absurd (omega arith)) in
    rw (kmalloc-alloc (alloc (suc g)) k' size ready.kheap) (
      Returns-mono (alloc (suc g) k' size false)
        (λ r. Taken-FirstBlock k' (indexed k' 0) size r ready.entry extent)
        (alloc-Taken g k' size 0 header_comparer ready.index (omega arith) first ready.usable))

-- Before the heap exists, with the placement address at least 32 KiB below 4 MiB, init_paging and the
-- first kmalloc, of at most 512 KiB less the 20 bytes of a header and a footer, return. The address is
-- that behind the header of the heap's first block; there is a block in use there that holds the
-- request, with a header and a footer, and what it leaves of the 512 KiB is a hole of its own.
pub kmalloc-init_paging :
    (f g size : ℕ) (k : Kernel)
    → k.kheap ≡ false
    → k.placement_addr + 32768 ≤ 4194304
    → 1024 ≤ f
    → size + 20 ≤ 0x80000
    → Returns
        (FirstBlock size)
        (init_paging (alloc (suc g)) (suc f) k >>= λ k'. kmalloc (alloc (suc g)) k' size)
kmalloc-init_paging f g size k none small rounds fits =
    let (n, ready) = init_paging-Ready (alloc (suc g)) f k none small rounds in
    Returns-bind (FirstBlock size) (init_paging (alloc (suc g)) (suc f) k) _ ready
      λ k'. alloc-FirstBlock g size n k k' fits
