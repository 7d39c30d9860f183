-- ===== src/InitPaging/Bitset.antt =====
-- Where the bitset of frames and the page directory come to lie.
use studix.Base.{
  ℕ, ◌+◌, ◌-◌, ◌*◌, ◌%◌, ◌≤◌, ◌<◌, ◌≡◌, ◌↔◌, refl, ◌∙◌, false, arith, Returns, ◌>>=◌, bit_and_fff,
  add32, ◌==◌, if◌then◌else◌,
}
use studix.Strings.{memset}
use studix.Strings.Bytes.{within, memset-within}
use studix.Kernel.{Kernel}
use studix.Paging.{aligned, align_up, bit_index}
use studix.Kmalloc.{HeapAlloc, kmalloc, kmalloc_a}
use studix.InitPaging.{init_bitset, init_directory}

-- The next multiple of 4096.
pub align_up_lem :
    (p : ℕ)
    → p + 4096 < 4294967296
    → align_up p ≡ (if p % 4096 == 0 then p else p - p % 4096 + 4096)
unfolding align_up aligned
align_up_lem p small = ground (arith, bit_and_fff p)

-- Before the heap exists, a bitset of 16384 frames, which takes 2048 bytes, is given 512 bytes at the
-- placement address, and only those are cleared: of the words behind them, which say what the memory
-- said, the directory that is placed next covers some exactly if the placement address lies more than
-- 2048 and at most 3584 bytes behind the start of its page.
pub init_directory-init_bitset :
    (alloc : HeapAlloc) (k : Kernel)
    → k.kheap ≡ false
    → k.placement_addr + 16384 < 4294967296
    → Returns
        (λ k'.
          (k'.frames ≡ k.placement_addr)
          × (4 * bit_index (k'.num_frames) ≡ 2048)
          × ((x : ℕ)
              → x < k'.kernel_dir
              → k'.mem x ≡ (if within (k.placement_addr) 512 x then 0 else k.mem x))
          × ((k'.kernel_dir < k'.frames + 4 * bit_index (k'.num_frames))
              ↔ ((2048 < k.placement_addr % 4096) × (k.placement_addr % 4096 ≤ 3584))))
        (init_bitset alloc k >>= init_directory alloc)
unfolding init_bitset init_directory kmalloc kmalloc_a
init_directory-init_bitset alloc k none small =
    let p = k.placement_addr in
    let sum : add32 p 512 ≡ p + 512 = omega arith in
    let dir = align_up_lem (p + 512) (omega arith) in
    let m = memset (k.mem) p 0 512 in
    let place : ((align_up (p + 512) < p + 2048) ↔ ((2048 < p % 4096) × (p % 4096 ≤ 3584))) =
      (λ h. ground (arith, dir), λ h. ground (arith, dir)) in
    rw (none, sum)
      (
        refl,
        refl,
        (λ x lt.
            let outside : within (align_up (p + 512)) 8196 x ≡ false = ground arith in
            memset-within m (align_up (p + 512)) 0 8196 x
            ∙ rw outside (memset-within (k.mem) p 0 512 x)),
        place,
      )
