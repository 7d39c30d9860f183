-- ===== src/Boot/Leftover.antt =====
-- What the index of the heap holds after the kernel's first allocation.
use studix.Base.{
  ℕ, suc, ◌+◌, ◌-◌, ◌≤◌, ◌≡◌, ap, ap₂, false, arith, ◌>>=◌, Returns, Returns-bind, Returns-mono,
  ◌∙◌,
}
use studix.Memory.{load32}
use studix.Memory.Laws.{load32-same}
use studix.OrderedArray.{slot}
use studix.OrderedArray.Contents.{contents}
use studix.Kernel.{Kernel, heap_start}
use studix.Heap.{size_of}
use studix.Heap.Search.{indexed}
use studix.Kmalloc.{kmalloc}
use studix.Alloc.{alloc, alloc_at}
use studix.Alloc.Request.{IsFirstFit, alloc-alloc_at}
use studix.Alloc.Leftover.{leftover, alloc_at-leftover}
use studix.InitPaging.{init_paging}
use studix.InitPaging.Ready.{Ready, init_paging-Ready}
use studix.Boot.First.{kmalloc-alloc}

-- The index, where the word at address 8 is `word`, after size bytes have been allocated.
abbrev pub HasLeftover : (word size : ℕ) → Kernel × ℕ → Type 0
HasLeftover word size (k, ptr) =
    contents k.mem k.heap.index
    ≡ leftover word (heap_start + 0x80000 + (size + 20)) (0x80000 - (size + 20))

alloc-HasLeftover :
    (g size n : ℕ) (k k' : Kernel)
    → size + 40 ≤ 0x80000
    → 12 ≤ k.placement_addr
    → Ready k n k'
    → Returns (HasLeftover (load32 k.mem 8) size) (kmalloc (alloc (suc g)) k' size)
alloc-HasLeftover g size n k k' fits low ready =
    let extent : size_of k'.mem (indexed k' 0) ≡ 0x80000 =
      ap (size_of k'.mem) ready.entry ∙ ready.hole.extent in
    let first : IsFirstFit k' size 0 =
      (omega (arith, ready.single), omega (arith, extent), λ j below. absurd (omega arith)) in
    let found = alloc-alloc_at g k' size 0 (omega arith) first in
    let word : load32 k'.mem 8 ≡ load32 k.mem 8 =
      load32-same k.mem k'.mem 8 λ x lo hi. ready.same x (omega arith) in
    let spare : load32 k'.mem (slot k'.heap.index.array 1) ≡ 0 =
      ap (λ a. load32 k'.mem (slot a 1)) ready.array ∙ ready.spare in
    rw (kmalloc-alloc (alloc (suc g)) k' size ready.kheap, found)
      (Returns-mono (alloc_at k' size false 0)
        (λ r e.
          e
          ∙ ap
              (λ w.
                leftover w (indexed k' 0 + (size + 20))
                  (size_of k'.mem (indexed k' 0) - (size + 20)))
              word
          ∙ ap₂ (λ h s. leftover (load32 k.mem 8) (h + (size + 20)) (s - (size + 20))) ready.entry
              extent)
        (alloc_at-leftover k' size ready.index.compares ready.single spare
          (omega (arith, ready.array)) (omega (arith, ready.array, ready.entry))
          (omega (arith, ready.entry, extent)) (omega (arith, extent))))

-- Before the heap exists, with the placement address from 12 up to 32 KiB below 4 MiB, init_paging and
-- the first kmalloc, of at most 512 KiB less 40 bytes, return. The index of the heap then holds two null
-- pointers beside the one hole that is left. They stand before the hole where the word at address 8,
-- which the comparer takes for the size of a hole at address 0, is smaller than the hole, and behind it
-- otherwise.
pub kmalloc-leftover :
    (f g size : ℕ) (k : Kernel)
    → k.kheap ≡ false
    → 12 ≤ k.placement_addr
    → k.placement_addr + 32768 ≤ 4194304
    → 1024 ≤ f
    → size + 40 ≤ 0x80000
    → Returns
        (HasLeftover (load32 k.mem 8) size)
        (init_paging (alloc (suc g)) (suc f) k >>= λ k'. kmalloc (alloc (suc g)) k' size)
kmalloc-leftover f g size k none low small rounds fits =
    let (n, ready) = init_paging-Ready (alloc (suc g)) f k none small rounds in
    Returns-bind (HasLeftover (load32 k.mem 8) size) (init_paging (alloc (suc g)) (suc f) k) _ ready
      λ k'. alloc-HasLeftover g size n k k' fits low
