-- ===== src/InitPaging/Mapped.antt =====
-- The page tables that init_paging leaves.
use studix.Base.{
  ℕ, Returns, ◌+◌, ◌*◌, ◌/◌, ◌%◌, ◌≤◌, ◌<◌, ◌≡◌, ◌⊎◌, refl, ap, ◌∙◌, false, true, arith, bit_or,
  ◌>>=◌, suc,
}
use studix.Memory.{Memory, load32}
use studix.Memory.Laws.{load32-same}
use studix.Strings.{memset}
use studix.Strings.Bytes.{within, memset-within}
use studix.Kernel.{Kernel, heap_start}
use studix.Paging.{align_up, table_slot, physical_slot, page_slot}
use studix.Kmalloc.{HeapAlloc}
use studix.InitPaging.{identity_loop, heap_loop, map_pages}
use studix.InitPaging.Bitset.{align_up_lem}
use studix.InitPaging.Table.{
  load32-with_table, with_table_physical, with_table_empty, with_table_outside, with_new_table,
}
use studix.InitPaging.Reserve.{reserve_loop-with_new_table}
use studix.InitPaging.Filled.{InOrder, Filled, TakenBelow, page_entry}
use studix.InitPaging.Loops.{identity_loop-FillsTo, heap_loop-FillsTo}
use studix.InitPaging.Steps.{
  with_bitset, with_directory, init_bitset-with_bitset, init_directory-with_directory,
  identity_loop-with_new_table, load32_zeros, TakenBelow-zeros,
}

-- Page number `page` of the address space, as the directory has it.
abbrev pub entry_of : Kernel → (page : ℕ) → ℕ
entry_of k page =
    load32 (k.mem)
      (page_slot (load32 (k.mem) (table_slot (k.kernel_dir) (page / 1024))) (page % 1024))

-- The place of the directory that the processor reads has the address of table d, which is present,
-- writeable and for the user.
abbrev pub HasPhysical : Kernel → (d : ℕ) → Type 0
HasPhysical k d =
    load32 (k.mem) (physical_slot (k.kernel_dir) d)
    ≡ bit_or (load32 (k.mem) (table_slot (k.kernel_dir) d)) 7

-- The cleared words of the bitset, the directory and its two tables end at addr.
abbrev pub LiesBelow : Kernel → (addr : ℕ) → Type 0
LiesBelow k addr =
    (k.frames + 512 ≤ addr)
    × (k.kernel_dir + 8196 ≤ addr)
    × (load32 (k.mem) (table_slot (k.kernel_dir) 0) + 4096 ≤ addr)
    × (load32 (k.mem) (table_slot (k.kernel_dir) 768) + 4096 ≤ addr)

-- What init_paging leaves before the heap is made, of the kernel k before it: n pages are in use.
abbrev pub Mapped : Kernel → (n : ℕ) → Kernel → Type 0
Mapped k n k' =
    (k'.placement_addr + 4096 ≡ n * 4096)
    × (n ≤ 1024)
    × (k'.kheap ≡ k.kheap)
    × LiesBelow k' (k'.placement_addr)
    × HasPhysical k' 0
    × HasPhysical k' 768
    × ((i : ℕ) → i < n → entry_of k' i ≡ page_entry i)
    × ((i : ℕ) → i < 256 → entry_of k' (768 * 1024 + i) ≡ page_entry (n + i))
    × TakenBelow (k'.mem) (k'.frames) (n + 256)
    × ((x : ℕ) → x < k.placement_addr → k'.mem x ≡ k.mem x)

-- The kernel before the loops that give out frames: the directory at dir, the heap's table behind it,
-- then that of the pages in use.
module _ (k : Kernel) (dir t : ℕ) (near : k.placement_addr + 512 ≤ dir) (behind : dir + 8196 ≤ t)
    (top : t + 16384 < 4294967296) where
  k1 : Kernel
  k1 = with_directory (with_bitset k) dir

  k2 : Kernel
  k2 = with_new_table k1 768 t

  pub k3 : Kernel
  k3 = with_new_table k2 0 (t + 4096)

  -- Of the memory behind them, all is as the bitset and the directory left it.
  k2_outside :
      (x : ℕ)
      → (x < table_slot dir 768) ⊎ (table_slot dir 768 + 4 ≤ x)
      → (x < physical_slot dir 768) ⊎ (physical_slot dir 768 + 4 ≤ x)
      → (x < t) ⊎ (t + 4096 ≤ x)
      → k2.mem x ≡ k1.mem x
  unfolding k2 k1
  k2_outside x slot physical off =
      with_table_outside (k1.mem) dir 768 t (omega arith) behind (omega arith) x slot physical off

  k1_cleared : (x : ℕ) → k.placement_addr ≤ x → x < k.placement_addr + 512 → k1.mem x ≡ 0
  unfolding k1
  k1_cleared x lo hi =
      let no : within dir 8196 x ≡ false = ground arith in
      let yes : within (k.placement_addr) 512 x ≡ true = ground arith in
      memset-within (memset (k.mem) (k.placement_addr) 0 512) dir 0 8196 x
      ∙ rw no (memset-within (k.mem) (k.placement_addr) 0 512 x ∙ rw yes refl)

  k1_directory : (x : ℕ) → dir ≤ x → x < dir + 8196 → k1.mem x ≡ 0
  unfolding k1
  k1_directory x lo hi =
      let yes : within dir 8196 x ≡ true = ground arith in
      memset-within (memset (k.mem) (k.placement_addr) 0 512) dir 0 8196 x ∙ rw yes refl

  k1_below : (x : ℕ) → x < k.placement_addr → k1.mem x ≡ k.mem x
  unfolding k1
  k1_below x lt =
      let no : within dir 8196 x ≡ false = ground arith in
      let no' : within (k.placement_addr) 512 x ≡ false = ground arith in
      memset-within (memset (k.mem) (k.placement_addr) 0 512) dir 0 8196 x
      ∙ rw no (memset-within (k.mem) (k.placement_addr) 0 512 x ∙ rw no' refl)

  k3_outside :
      (x : ℕ)
      → (x < table_slot dir 0) ⊎ (table_slot dir 0 + 4 ≤ x)
      → (x < physical_slot dir 0) ⊎ (physical_slot dir 0 + 4 ≤ x)
      → (x < t + 4096) ⊎ (t + 8192 ≤ x)
      → k3.mem x ≡ k2.mem x
  unfolding k3 k2 k1
  k3_outside x slot physical off =
      with_table_outside (k2.mem) dir 0 (t + 4096) (omega arith) (omega arith) (omega arith) x slot
        physical (omega arith)

  k3_below : (x : ℕ) → x < dir → k3.mem x ≡ k1.mem x
  k3_below x lt =
      k3_outside x (omega arith) (omega arith) (omega arith)
      ∙ k2_outside x (omega arith) (omega arith) (omega arith)

  pub heap_slot : load32 (k3.mem) (table_slot dir 768) ≡ t
  unfolding k2 k1
  heap_slot =
      load32-same (k2.mem) (k3.mem) (table_slot dir 768)
        (λ x lo hi. k3_outside x (omega arith) (omega arith) (omega arith))
      ∙ load32-with_table (k1.mem) dir 768 t (omega arith) behind (omega arith)

  heap_physical : load32 (k3.mem) (physical_slot dir 768) ≡ bit_or t 7
  unfolding k2 k1
  heap_physical =
      load32-same (k2.mem) (k3.mem) (physical_slot dir 768)
        (λ x lo hi. k3_outside x (omega arith) (omega arith) (omega arith))
      ∙ with_table_physical (k1.mem) dir 768 t (omega arith) behind (omega arith)

  heap_table : (x : ℕ) → t ≤ x → x < t + 4096 → k3.mem x ≡ 0
  unfolding k2 k1
  heap_table x lo hi =
      k3_outside x (omega arith) (omega arith) (omega arith)
      ∙ with_table_empty (k1.mem) dir 768 t (omega arith) behind (omega arith) x lo hi

  no_table : load32 (k2.mem) (table_slot dir 0) ≡ 0
  no_table = load32_zeros (k2.mem) (table_slot dir 0) λ x lo hi.
      k2_outside x (omega arith) (omega arith) (omega arith)
      ∙ k1_directory x (omega arith) (omega arith)

  identity_InOrder : InOrder k3 0 (t + 4096) 0
  unfolding k3 k2 k1
  identity_InOrder = (
    refl,
    near,
    omega arith,
    omega arith,
    omega arith,
    omega arith,
    load32-with_table (k2.mem) dir 0 (t + 4096) (omega arith) (omega arith) (omega arith),
  )

  identity_Filled : Filled k3 0 (t + 4096) 0 0 (k3.mem)
  unfolding k3 k2 k1
  identity_Filled = (
    TakenBelow-zeros (k3.mem) (k.placement_addr)
        λ x lo hi. k3_below x (omega arith) ∙ k1_cleared x lo hi,
    λ i lt. absurd (omega arith),
    λ i lo hi. load32_zeros (k3.mem) (page_slot (t + 4096) i) λ x above below.
        with_table_empty (k2.mem) dir 0 (t + 4096) (omega arith) (omega arith) (omega arith) x
          (omega arith) (omega arith),
    λ x out. refl,
  )

  -- Once the pages in use have frames, the heap's table is still there and empty.
  heap_InOrder :
      (n : ℕ) (m : Memory) → Filled k3 0 (t + 4096) 0 n m → InOrder (record k3 { mem = m }) 768 t n
  unfolding k3 k2 k1
  heap_InOrder n m (taken, full, empty, same) = (
    refl,
    near,
    omega arith,
    behind,
    omega arith,
    omega arith,
    load32-same (k3.mem) m (table_slot dir 768) (λ x lo hi. same x (omega arith, omega arith))
        ∙ heap_slot,
  )

  heap_Filled :
      (n : ℕ) (m : Memory)
      → Filled k3 0 (t + 4096) 0 n m
      → Filled (record k3 { mem = m }) 768 t n 0 m
  unfolding k3 k2 k1
  heap_Filled n m (taken, full, empty, same) = (
    λ x lt. let e : n + 0 ≡ 0 + n = omega arith in rw e (taken x lt),
    λ i lt. absurd (omega arith),
    λ i lo hi. load32_zeros m (page_slot t i) λ x above below.
        same x (omega arith, omega arith) ∙ heap_table x (omega arith) (omega arith),
    λ x out. refl,
  )

  -- Both loops done.
  k5-Mapped :
      (n : ℕ) (m m' : Memory)
      → n ≤ 1024
      → t + 12288 ≡ n * 4096
      → Filled k3 0 (t + 4096) 0 n m
      → Filled (record k3 { mem = m }) 768 t n 256 m'
      → Mapped k n (record k3 { mem = m' })
  unfolding k3 k2 k1
  k5-Mapped n m m' few end (taken, full, empty, same) (taken', full', empty', same') =
      let slot : load32 m' (table_slot dir 0) ≡ t + 4096 =
        load32-same m m' (table_slot dir 0) (λ x lo hi. same' x (omega arith, omega arith))
        ∙ load32-same (k3.mem) m (table_slot dir 0) (λ x lo hi. same x (omega arith, omega arith))
        ∙ identity_InOrder.6 in
      let slot' : load32 m' (table_slot dir 768) ≡ t =
        load32-same m m' (table_slot dir 768) (λ x lo hi. same' x (omega arith, omega arith))
        ∙ (heap_InOrder n m (taken, full, empty, same)).6 in
      let physical : load32 m' (physical_slot dir 0) ≡ bit_or (t + 4096) 7 =
        load32-same m m' (physical_slot dir 0) (λ x lo hi. same' x (omega arith, omega arith))
        ∙ load32-same (k3.mem) m (physical_slot dir 0)
            (λ x lo hi. same x (omega arith, omega arith))
        ∙ with_table_physical (k2.mem) dir 0 (t + 4096) (omega arith) (omega arith) (omega arith) in
      let physical' : load32 m' (physical_slot dir 768) ≡ bit_or t 7 =
        load32-same m m' (physical_slot dir 768) (λ x lo hi. same' x (omega arith, omega arith))
        ∙ load32-same (k3.mem) m (physical_slot dir 768)
            (λ x lo hi. same x (omega arith, omega arith))
        ∙ heap_physical in
      (
        omega arith,
        few,
        refl,
        (omega arith, omega arith, omega (arith, slot), omega (arith, slot')),
        physical ∙ rw slot refl,
        physical' ∙ rw slot' refl,
        λ i lt.
            let index : i / 1024 ≡ 0 = omega arith in
            let offset : i % 1024 ≡ i = omega arith in
            let same_page : 0 + i ≡ i = omega arith in
            rw (index, slot, offset)
              (load32-same m m' (page_slot (t + 4096) i)
                  (λ x lo hi. same' x (omega arith, omega arith))
                ∙ full i lt
                ∙ ap page_entry same_page),
        λ i lt.
            let index : (768 * 1024 + i) / 1024 ≡ 768 = omega arith in
            let offset : (768 * 1024 + i) % 1024 ≡ i = omega arith in
            rw (index, slot', offset) (full' i lt),
        taken',
        λ x lt.
            same' x (omega arith, omega arith)
            ∙ same x (omega arith, omega arith)
            ∙ k3_below x (omega arith)
            ∙ k1_below x lt,
      )

  -- The loops that give out frames.
  loops-Mapped :
      (alloc : HeapAlloc) (f n : ℕ)
      → k.kheap ≡ false
      → align_up (t + 4096) ≡ t + 4096
      → t + 12288 ≡ n * 4096
      → n ≤ 1024
      → 1024 ≤ f
      → Returns (Mapped k n) (identity_loop alloc (suc f) 0 k2 >>= heap_loop alloc 257 heap_start)
  unfolding k3 k2 k1
  loops-Mapped alloc f n none even end few rounds =
      let made =
        identity_loop-with_new_table alloc f k2 (t + 4096) none no_table even (omega arith)
          (omega arith) (omega arith) in
      let (m, filled, e) =
        identity_loop-FillsTo alloc k3 (t + 4096) n f 0 (k3.mem) identity_InOrder (omega arith) few
          (omega arith) (omega arith) identity_Filled in
      let (m', filled', e') =
        heap_loop-FillsTo alloc (record k3 { mem = m }) t n 256 0 m (heap_InOrder n m filled)
          (omega arith) (omega arith) (omega arith) (heap_Filled n m filled) in
      rw (made, e, e') (k5-Mapped n m m' few end filled filled')

  -- The directory has no table yet.
  no_heap_table : load32 (k1.mem) (table_slot dir 768) ≡ 0
  no_heap_table =
      load32_zeros (k1.mem) (table_slot dir 768)
        λ x lo hi. k1_directory x (omega arith) (omega arith)

-- The steps up to the loading of the directory, from the placement address of k on.
pub map_pages-Mapped :
    (alloc : HeapAlloc) (f : ℕ) (k : Kernel)
    → k.kheap ≡ false
    → k.placement_addr + 32768 ≤ 4194304
    → 1024 ≤ f
    → (n : ℕ) × Returns (Mapped k n) (map_pages alloc (suc f) k)
unfolding map_pages k3 k2 k1
map_pages-Mapped alloc f k none small rounds =
    let p = k.placement_addr in
    let dir = align_up (p + 512) in
    let t = align_up (dir + 8196) in
    let n = t / 4096 + 3 in
    let place = align_up_lem (p + 512) (omega arith) in
    let near : p + 512 ≤ dir = ground (arith, place) in
    let near' : dir < p + 512 + 4096 = ground (arith, place) in
    let place' = align_up_lem (dir + 8196) (omega arith) in
    let behind : dir + 8196 ≤ t = ground (arith, place') in
    let behind' : t < dir + 8196 + 4096 = ground (arith, place') in
    let even : t % 4096 ≡ 0 = ground (arith, place') in
    let top : t + 16384 < 4294967296 = omega arith in
    let end : t + 12288 ≡ n * 4096 = omega arith in
    let bitset = init_bitset-with_bitset alloc k none (omega arith) in
    let directory =
      init_directory-with_directory alloc (with_bitset k) dir none refl (omega arith) in
    let reserved =
      reserve_loop-with_new_table alloc (k1 k dir t near behind top) t none
        (no_heap_table k dir t near behind top) refl behind (omega arith) in
    let aligned' = align_up_lem (t + 4096) (omega arith) in
    let loops =
      loops-Mapped k dir t near behind top alloc f n none (ground (arith, aligned')) end
        (omega arith) rounds in
    (n, rw (bitset, directory, reserved) loops)
