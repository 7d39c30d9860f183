-- ===== src/InitPaging/Steps.antt =====
-- The steps of init_paging before frames are given out: where the bitset, the directory and the first
-- table of the pages in use are placed.
use studix.Base.{
  ℕ, ◌+◌, ◌*◌, ◌/◌, ◌%◌, ◌≤◌, ◌<◌, ◌≡◌, refl, ◌∙◌, false, true, arith, ok, add32, bit-zero, ltb,
  suc,
}
use studix.Memory.{Memory, load32}
use studix.Memory.Laws.{load32-same}
use studix.Strings.{memset}
use studix.Kernel.{Kernel}
use studix.Paging.{align_up, table_slot}
use studix.Kmalloc.{HeapAlloc, kmalloc, kmalloc_a}
use studix.InitPaging.{init_bitset, init_directory, map_page, identity_loop}
use studix.InitPaging.Table.{load32-with_table, with_new_table, get_page_there, get_page_new}
use studix.InitPaging.Filled.{TakenBelow}

-- The kernel with its bitset at the placement address, and with its directory at dir.
abbrev pub with_bitset : Kernel → Kernel
with_bitset k = record k {
  placement_addr = k.placement_addr + 512;
  frames = k.placement_addr;
  num_frames = 16384;
  mem = memset (k.mem) (k.placement_addr) 0 512;
}

abbrev pub with_directory : Kernel → (dir : ℕ) → Kernel
with_directory k dir = record k {
  placement_addr = dir + 8196;
  kernel_dir = dir;
  curr_dir = dir;
  mem = memset (k.mem) dir 0 8196;
}

pub init_bitset-with_bitset :
    (alloc : HeapAlloc) (k : Kernel)
    → k.kheap ≡ false
    → k.placement_addr + 512 < 4294967296
    → init_bitset alloc k ≡ ok (with_bitset k)
unfolding init_bitset kmalloc
init_bitset-with_bitset alloc k none small =
    let sum : add32 (k.placement_addr) 512 ≡ k.placement_addr + 512 = omega arith in
    rw (none, sum) refl

pub init_directory-with_directory :
    (alloc : HeapAlloc) (k : Kernel) (dir : ℕ)
    → k.kheap ≡ false
    → align_up (k.placement_addr) ≡ dir
    → dir + 8196 < 4294967296
    → init_directory alloc k ≡ ok (with_directory k dir)
unfolding init_directory kmalloc_a
init_directory-with_directory alloc k dir none at small =
    let sum : add32 dir 8196 ≡ dir + 8196 = omega arith in rw (none, at, sum) refl

-- The first round of the loop over the pages in use makes their table.
pub identity_loop-with_new_table :
    (alloc : HeapAlloc) (f : ℕ) (k : Kernel) (t : ℕ)
    → k.kheap ≡ false
    → load32 (k.mem) (table_slot (k.kernel_dir) 0) ≡ 0
    → align_up (k.placement_addr) ≡ t
    → k.kernel_dir + 8196 ≤ t
    → t + 8192 < 4294967296
    → k.placement_addr ≤ t
    → identity_loop alloc (suc f) 0 k ≡ identity_loop alloc (suc f) 0 (with_new_table k 0 t)
unfolding identity_loop map_page
identity_loop-with_new_table alloc f k t none empty at behind top low =
    let k' = with_new_table k 0 t in
    let made = get_page_new alloc k 0 0 t none refl (omega arith) empty at behind (omega arith) in
    let slot = load32-with_table (k.mem) (k.kernel_dir) 0 t (omega arith) behind (omega arith) in
    let there = get_page_there alloc k' 0 0 t refl slot (omega arith) in
    let more : ltb 0 (add32 (k.placement_addr) 4096) ≡ true = ground arith in
    let more' : ltb 0 (add32 (t + 4096) 4096) ≡ true = ground arith in
    rw (more, more', made, there) refl

pub load32_zeros : (m : Memory) (a : ℕ) → ((x : ℕ) → a ≤ x → x < a + 4 → m x ≡ 0) → load32 m a ≡ 0
load32_zeros m a zeros = load32-same (λ x. 0) m a zeros ∙ unfold load32 in refl

-- Where the bitset is cleared, no frame is taken.
pub TakenBelow-zeros :
    (m : Memory) (frames : ℕ)
    → ((x : ℕ) → frames ≤ x → x < frames + 512 → m x ≡ 0)
    → TakenBelow m frames 0
TakenBelow-zeros m frames zeros x lt =
    rw (load32_zeros m (frames + 4 * (x / 32)) λ y lo hi. zeros y (omega arith) (omega arith))
      (bit-zero (x % 32) ∙ (let no : ltb x 0 ≡ false = ground arith in rw no refl))
