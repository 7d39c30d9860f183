-- ===== src/InitPaging/Ready.antt =====
-- The heap that init_paging makes on top of the page tables.
use studix.Base.{
  ℕ, suc, ◌+◌, ◌*◌, ◌/◌, ◌%◌, ◌≤◌, ◌<◌, ◌≡◌, refl, ap, false, true, arith, ok, ◌>>=◌, Returns,
  Returns-bind, sym, ◌∙◌, add32, bit, bit_or,
}
use studix.Memory.{load32}
use studix.Memory.Laws.{load32-same}
use studix.Kernel.{Kernel, heap_start, heap_max_size}
use studix.Paging.{aligned, table_slot, physical_slot, page_slot}
use studix.Heap.{header_comparer, create_heap}
use studix.Heap.Blocks.{IsHeader}
use studix.Heap.Search.{indexed}
use studix.Heap.Fresh.{
  fresh_memory, fresh_heap, create_heap-fresh_heap, load32-fresh_memory, fresh_memory_empty,
  fresh_memory-IsHeader, fresh_memory_below,
}
use studix.Kmalloc.{HeapAlloc, kmalloc}
use studix.Alloc.Request.{IsIndex, IsPlaced}
use studix.InitPaging.{heap_init_end, map_pages, init_paging}
use studix.InitPaging.Filled.{page_entry, TakenBelow}
use studix.InitPaging.Steps.{load32_zeros}
use studix.OrderedArray.{slot}
use studix.InitPaging.Mapped.{Mapped, HasPhysical, entry_of, map_pages-Mapped}

-- The heap is one hole behind its index, the n pages in use have the frames of their own number, and
-- the heap's pages the frames that follow.
pub record Ready (k : Kernel) (n : ℕ) (k' : Kernel) : Type 0 where
  pub kheap : k'.kheap ≡ true
  pub index : IsIndex k' header_comparer
  pub usable : IsPlaced k' 0
  pub single : k'.heap.index.size ≡ 1
  pub entry : indexed k' 0 ≡ heap_start + 0x80000
  pub hole : IsHeader (k'.mem) (heap_start + 0x80000) 0x80000 true
  pub array : k'.heap.index.array ≡ heap_start
  pub spare : load32 (k'.mem) (slot heap_start 1) ≡ 0
  pub ends : k'.heap.end_addr ≡ heap_init_end
  pub placed : k'.placement_addr ≤ n * 4096
  pub identity : (i : ℕ) → i < n → entry_of k' i ≡ page_entry i
  pub heap : (i : ℕ) → i < 256 → entry_of k' (768 * 1024 + i) ≡ page_entry (n + i)
  pub physical : HasPhysical k' 0 × HasPhysical k' 768
  pub taken : TakenBelow (k'.mem) (k'.frames) (n + 256)
  pub same : (x : ℕ) → x < k.placement_addr → k'.mem x ≡ k.mem x

-- The kernel with the struct Heap at the placement address, and the heap.
with_heap : Kernel → Kernel
with_heap k = record k {
  placement_addr = k.placement_addr + 32;
  curr_dir = k.kernel_dir;
  kheap = true;
  mem = fresh_memory (k.mem) heap_start heap_init_end;
  heap = fresh_heap heap_start heap_init_end (heap_start + heap_max_size) false false;
}

kept : (k : Kernel) (x : ℕ) → x < heap_start → (with_heap k).mem x ≡ k.mem x
unfolding with_heap
kept k x lt = fresh_memory_below (k.mem) heap_start heap_init_end (omega arith) (omega arith) x lt

-- Making the heap leaves the page tables.
entry_of-with_heap :
    (k : Kernel) (page d : ℕ)
    → page / 1024 ≡ d
    → d < 1024
    → k.kernel_dir + 8196 ≤ k.placement_addr
    → load32 (k.mem) (table_slot (k.kernel_dir) d) + 4096 ≤ k.placement_addr
    → k.placement_addr ≤ heap_start
    → entry_of (with_heap k) page ≡ entry_of k page
entry_of-with_heap k page d index place dir table low =
    let slot : load32 ((with_heap k).mem) (table_slot (k.kernel_dir) d)
        ≡ load32 (k.mem) (table_slot (k.kernel_dir) d) =
      load32-same (k.mem) ((with_heap k).mem) (table_slot (k.kernel_dir) d)
        λ x lo hi. kept k x (omega arith) in
    unfold with_heap in
    rw (index, slot)
      (load32-same (k.mem) ((with_heap k).mem)
        (page_slot (load32 (k.mem) (table_slot (k.kernel_dir) d)) (page % 1024))
        λ x lo hi. kept k x (omega arith))

HasPhysical-with_heap :
    (k : Kernel) (d : ℕ)
    → d < 1024
    → k.kernel_dir + 8196 ≤ k.placement_addr
    → k.placement_addr ≤ heap_start
    → HasPhysical k d
    → HasPhysical (with_heap k) d
unfolding with_heap
HasPhysical-with_heap k d place dir low p =
    load32-same (k.mem) ((with_heap k).mem) (physical_slot (k.kernel_dir) d)
      (λ x lo hi. kept k x (omega arith))
    ∙ p
    ∙ ap (λ w. bit_or w 7)
        (sym (
          load32-same (k.mem) ((with_heap k).mem) (table_slot (k.kernel_dir) d)
            λ x lo hi. kept k x (omega arith)))

-- The one entry of the index leads to the hole.
with_heap-IsPlaced : (k : Kernel) → IsPlaced (with_heap k) 0
unfolding with_heap
with_heap-IsPlaced k =
    let slot = load32-fresh_memory (k.mem) heap_start heap_init_end (omega arith) (omega arith) in
    let hole = fresh_memory-IsHeader (k.mem) heap_start heap_init_end (omega arith) (omega arith) in
    rw (slot, hole.extent) (omega arith)

with_heap-Ready :
    (k k' : Kernel) (n : ℕ)
    → k.placement_addr < heap_start
    → Mapped k n k'
    → Ready k n (with_heap k')
unfolding with_heap
with_heap-Ready k k' n small
      (end, few, none, (bits, dir, low, high), p, p', identity, heap, taken, same) =
    record {
      kheap = refl;
      index = record { compares = refl; room = omega arith };
      usable = with_heap-IsPlaced k';
      single = refl;
      entry = load32-fresh_memory (k'.mem) heap_start heap_init_end (omega arith) (omega arith);
      hole = fresh_memory-IsHeader (k'.mem) heap_start heap_init_end (omega arith) (omega arith);
      array = refl;
      spare = load32_zeros ((with_heap k').mem) (slot heap_start 1) λ x lo hi.
          fresh_memory_empty (k'.mem) heap_start heap_init_end (omega arith) (omega arith) x
            (omega arith) (omega arith);
      ends = refl;
      placed = omega arith;
      identity = λ i lt.
          entry_of-with_heap k' i 0 (omega arith) (omega arith) dir low (omega arith)
          ∙ identity i lt;
      heap = λ i lt.
          entry_of-with_heap k' (768 * 1024 + i) 768 (omega arith) (omega arith) dir high
            (omega arith)
          ∙ heap i lt;
      physical = (
        HasPhysical-with_heap k' 0 (omega arith) dir (omega arith) p,
        HasPhysical-with_heap k' 768 (omega arith) dir (omega arith) p',
      );
      taken = λ x lt.
          ap (bit (x % 32)) (
            load32-same (k'.mem) ((with_heap k').mem) (k'.frames + 4 * (x / 32))
              λ y lo hi. kept k' y (omega arith))
          ∙ taken x lt;
      same = λ x lt. kept k' x (omega arith) ∙ same x lt;
    }

-- The last steps of init_paging.
create_heap-with_heap :
    (alloc : HeapAlloc) (k : Kernel)
    → k.kheap ≡ false
    → k.placement_addr < heap_start
    → (create_heap
          (kmalloc alloc)
          (record k { curr_dir = k.kernel_dir })
          heap_start
          heap_init_end
          (add32 heap_start heap_max_size)
          false
          false
        >>= λ (k', h). ok (record k' { kheap = true; heap = h }))
      ≡ ok (with_heap k)
unfolding with_heap kmalloc aligned
create_heap-with_heap alloc k none small =
    let sum : add32 (k.placement_addr) 32 ≡ k.placement_addr + 32 = omega arith in
    let k' = record k { curr_dir = k.kernel_dir } in
    let placed : kmalloc alloc k' 32
        ≡ ok (record k' { placement_addr = k.placement_addr + 32 }, k.placement_addr) =
      rw (none, sum) refl in
    let made =
      create_heap-fresh_heap (kmalloc alloc) k'
        (record k' { placement_addr = k.placement_addr + 32 }) (k.placement_addr) heap_start
        heap_init_end (heap_start + heap_max_size) false false placed refl refl (omega arith)
        (omega arith) in
    rw made refl

-- Before the heap exists, with the placement address at least 32 KiB below 4 MiB, init_paging returns,
-- for which 1025 rounds of the loop over the pages in use suffice. The heap is then there, as one hole
-- of 512 KiB behind its index. The n pages in use, which reach beyond all that was placed, have the
-- frames of their own number; the heap's 256 pages have the frames that follow; all these entries are
-- present, for the user and not writeable, and the directory has the physical addresses of their two
-- tables; of the first 4096 frames these are taken and no other. What lay below the placement address
-- is as it was.
pub init_paging-Ready :
    (alloc : HeapAlloc) (f : ℕ) (k : Kernel)
    → k.kheap ≡ false
    → k.placement_addr + 32768 ≤ 4194304
    → 1024 ≤ f
    → (n : ℕ) × Returns (Ready k n) (init_paging alloc (suc f) k)
unfolding init_paging
init_paging-Ready alloc f k none small rounds =
    let (n, mapped) = map_pages-Mapped alloc f k none small rounds in
    (
      n,
      Returns-bind (Ready k n) (map_pages alloc (suc f) k) _ mapped λ k' m.
          rw (create_heap-with_heap alloc k' (m.2 ∙ none) (omega (arith, m)))
            (with_heap-Ready k k' n (omega arith) m),
    )
