-- ===== src/InitPaging/Table.antt =====
-- get_page where the table is there, and where the directory has none yet and the heap does not exist:
-- the table that it makes.
use studix.Base.{
  ℕ, ◌+◌, ◌/◌, ◌%◌, ◌≤◌, ◌<◌, ◌≡◌, ◌≢◌, ◌==◌, ◌⊎◌, refl, ◌∙◌, false, true, arith, ok, add32, bit_or,
  bit_or-lt,
}
use studix.Memory.{Memory, load32, store32}
use studix.Memory.Laws.{load32-same, load32-store32, load32-store32-Apart, store32_outside}
use studix.Strings.{memset}
use studix.Strings.Bytes.{within, memset-within}
use studix.Kernel.{Kernel}
use studix.Paging.{align_up, get_page, table_slot, physical_slot, page_slot}
use studix.Kmalloc.{HeapAlloc, kmalloc_ap}

-- The page of an address whose table is there.
pub get_page_there :
    (alloc : HeapAlloc) (k : Kernel) (i d t : ℕ)
    → i / 4096 / 1024 ≡ d
    → load32 (k.mem) (table_slot (k.kernel_dir) d) ≡ t
    → t ≢ 0
    → get_page (kmalloc_ap alloc) k i true (k.kernel_dir) ≡ ok (k, page_slot t (i / 4096 % 1024))
unfolding get_page
get_page_there alloc k i d t index table there =
    let set : (t == 0) ≡ false = ground (arith, there) in rw (index, table, set)

-- Place d of the directory leads to an empty table at t.
unfoldable pub with_table : Memory → (dir d t : ℕ) → Memory
with_table m dir d t =
    store32 (memset (store32 m (table_slot dir d) t) t 0 4096) (physical_slot dir d) (bit_or t 7)

-- The directory ends before the table.
module _ (m : Memory) (dir d t : ℕ) (place : d < 1024) (behind : dir + 8196 ≤ t)
    (top : t < 4294967296) where
  m1 : Memory
  m1 = store32 m (table_slot dir d) t

  pub load32-with_table : load32 (with_table m dir d t) (table_slot dir d) ≡ t
  unfolding with_table m1
  load32-with_table =
      load32-store32-Apart (memset m1 t 0 4096) (physical_slot dir d) (bit_or t 7)
        (table_slot dir d) (omega arith)
      ∙ load32-same m1 (memset m1 t 0 4096) (table_slot dir d) (λ x lo hi.
        let no : within t 4096 x ≡ false = ground arith in memset-within m1 t 0 4096 x ∙ rw no refl)
      ∙ load32-store32 m (table_slot dir d) t top

  pub with_table_physical : load32 (with_table m dir d t) (physical_slot dir d) ≡ bit_or t 7
  unfolding with_table
  with_table_physical =
      load32-store32 _ (physical_slot dir d) (bit_or t 7) (bit_or-lt 32 t 7 top (omega arith))

  pub with_table_empty : (x : ℕ) → t ≤ x → x < t + 4096 → with_table m dir d t x ≡ 0
  unfolding with_table m1
  with_table_empty x lo hi =
      let yes : within t 4096 x ≡ true = ground arith in
      store32_outside _ (physical_slot dir d) (bit_or t 7) x (omega arith)
      ∙ memset-within m1 t 0 4096 x
      ∙ rw yes refl

  pub with_table_outside :
      (x : ℕ)
      → (x < table_slot dir d) ⊎ (table_slot dir d + 4 ≤ x)
      → (x < physical_slot dir d) ⊎ (physical_slot dir d + 4 ≤ x)
      → (x < t) ⊎ (t + 4096 ≤ x)
      → with_table m dir d t x ≡ m x
  unfolding with_table m1
  with_table_outside x slot physical off =
      let no : within t 4096 x ≡ false = ground arith in
      store32_outside _ (physical_slot dir d) (bit_or t 7) x physical
      ∙ memset-within m1 t 0 4096 x
      ∙ rw no (store32_outside m (table_slot dir d) t x slot)

-- The kernel with a table at t, the next page boundary, for place d.
abbrev pub with_new_table : Kernel → (d t : ℕ) → Kernel
with_new_table k d t = record k {
  placement_addr = t + 4096;
  mem = with_table (k.mem) (k.kernel_dir) d t;
}

pub get_page_new :
    (alloc : HeapAlloc) (k : Kernel) (i d t : ℕ)
    → k.kheap ≡ false
    → i / 4096 / 1024 ≡ d
    → d < 1024
    → load32 (k.mem) (table_slot (k.kernel_dir) d) ≡ 0
    → align_up (k.placement_addr) ≡ t
    → k.kernel_dir + 8196 ≤ t
    → t + 4096 < 4294967296
    → get_page (kmalloc_ap alloc) k i true (k.kernel_dir)
      ≡ ok (with_new_table k d t, page_slot t (i / 4096 % 1024))
unfolding get_page kmalloc_ap with_table
get_page_new alloc k i d t none index place empty at behind top =
    let sum : add32 t 4096 ≡ t + 4096 = omega arith in
    let first : load32 (store32 (k.mem) (table_slot (k.kernel_dir) d) t)
          (table_slot (k.kernel_dir) d)
        ≡ t =
      load32-store32 (k.mem) (table_slot (k.kernel_dir) d) t (omega arith) in
    let slot = load32-with_table (k.mem) (k.kernel_dir) d t place behind (omega arith) in
    rw (index, empty, none, at, first, sum) (rw slot refl)
