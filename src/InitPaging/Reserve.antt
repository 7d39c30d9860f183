-- ===== src/InitPaging/Reserve.antt =====
-- The loop that makes the tables of the heap's pages.
use studix.Base.{
  ℕ, zero, suc, ◌+◌, ◌*◌, ◌%◌, ◌≤◌, ◌<◌, ◌≡◌, ◌≢◌, refl, inl, inr, false, arith, ok, Returns, add32,
  ltb, bit_or, Bool-cases,
}
use studix.Memory.{load32}
use studix.Kernel.{Kernel, heap_start}
use studix.Paging.{align_up, table_slot, physical_slot}
use studix.Kmalloc.{HeapAlloc}
use studix.InitPaging.{reserve_loop, heap_init_end}
use studix.InitPaging.Bitset.{align_up_lem}
use studix.InitPaging.Table.{
  get_page_there, get_page_new, with_new_table, load32-with_table, with_table_physical,
  with_table_empty,
}

-- With the table there, the loop changes nothing.
reserve_rest :
    (alloc : HeapAlloc) (f i : ℕ) (k : Kernel)
    → heap_start ≤ i
    → i ≤ heap_init_end
    → heap_init_end ≤ i + 4096 * f
    → i % 4096 ≡ 0
    → load32 (k.mem) (table_slot (k.kernel_dir) 768) ≢ 0
    → reserve_loop alloc (suc f) i k ≡ ok k
unfolding reserve_loop
reserve_rest alloc zero i k low high end page there =
    let done : ltb i heap_init_end ≡ false = ground arith in rw done
reserve_rest alloc (suc f) i k low high end page there = elim (Bool-cases (ltb i heap_init_end)) [
  | inl more ↦
      let lt : i < heap_init_end = ground arith in
      let next : add32 i 4096 ≡ i + 4096 = omega arith in
      let found = get_page_there alloc k i 768 _ (omega arith) refl there in
      rw (more, found, next)
        (reserve_rest alloc f (i + 4096) k (omega arith) (omega arith) (omega arith) (omega arith)
          there)
  | inr done ↦ rw done
]

-- The first round makes the table, at t.
pub reserve_loop-with_new_table :
    (alloc : HeapAlloc) (k : Kernel) (t : ℕ)
    → k.kheap ≡ false
    → load32 (k.mem) (table_slot (k.kernel_dir) 768) ≡ 0
    → align_up (k.placement_addr) ≡ t
    → k.kernel_dir + 8196 ≤ t
    → t + 4096 < 4294967296
    → reserve_loop alloc 257 heap_start k ≡ ok (with_new_table k 768 t)
unfolding reserve_loop
reserve_loop-with_new_table alloc k t none empty at behind top =
    let made = get_page_new alloc k heap_start 768 t none refl (omega arith) empty at behind top in
    let slot = load32-with_table (k.mem) (k.kernel_dir) 768 t (omega arith) behind (omega arith) in
    rw made (
      reserve_rest alloc 255 (heap_start + 4096) (with_new_table k 768 t) (omega arith)
        (omega arith) (omega arith) (omega arith) λ e. omega (arith, e, slot))

module _ (alloc : HeapAlloc) (k : Kernel) where
  -- The table that is made.
  abbrev new_table : ℕ
  new_table = align_up (k.placement_addr)

  -- Its slot in the directory leads to it, the physical slot says that it is present, and it is empty.
  abbrev Reserved : Kernel → Type 0
  Reserved k' =
      (k'.placement_addr ≡ new_table + 4096)
      × (load32 (k'.mem) (table_slot (k.kernel_dir) 768) ≡ new_table)
      × (load32 (k'.mem) (physical_slot (k.kernel_dir) 768) ≡ bit_or new_table 7)
      × ((x : ℕ) → new_table ≤ x → x < new_table + 4096 → k'.mem x ≡ 0)

  -- Where the directory has no table for the heap's pages yet and lies below the placement address, the
  -- loop over the heap's pages returns within its rounds. It makes one table, at the next page boundary:
  -- the slot of the directory leads to it, the physical slot says that it is present, and all its
  -- entries are empty.
  reserve_loop-Reserved :
      k.kheap ≡ false
      → load32 (k.mem) (table_slot (k.kernel_dir) 768) ≡ 0
      → k.kernel_dir + 8196 ≤ k.placement_addr
      → k.placement_addr + 16384 < 4294967296
      → Returns Reserved (reserve_loop alloc 257 heap_start k)
  reserve_loop-Reserved none empty behind small =
      let place = align_up_lem (k.placement_addr) (omega arith) in
      let above : k.placement_addr ≤ new_table = ground (arith, place) in
      let near : new_table < k.placement_addr + 4096 = ground (arith, place) in
      let low : 768 < 1024 = omega arith in
      let beside : k.kernel_dir + 8196 ≤ new_table = omega arith in
      let top : new_table < 4294967296 = omega arith in
      rw (reserve_loop-with_new_table alloc k new_table none empty refl beside (omega arith)) (
        refl,
        load32-with_table (k.mem) (k.kernel_dir) 768 new_table low beside top,
        with_table_physical (k.mem) (k.kernel_dir) 768 new_table low beside top,
        with_table_empty (k.mem) (k.kernel_dir) 768 new_table low beside top,
      )
