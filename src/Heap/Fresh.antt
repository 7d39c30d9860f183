-- ===== src/Heap/Fresh.antt =====
-- create_heap: the heap that it makes is one hole.
use studix.Base.{
  ℕ, ◌+◌, ◌-◌, ◌≤◌, ◌<◌, ◌≡◌, refl, inl, true, false, Bool, some, arith, ok, Result, add32, sub32,
  ◌∙◌,
}
use studix.Memory.{Memory, load32, store32}
use studix.Memory.Laws.{load32-store32, store32_outside}
use studix.Strings.{memset}
use studix.Strings.Bytes.{within, memset-within}
use studix.OrderedArray.{slot, place_ordered_array}
use studix.OrderedArray.Insert.{ordered_array_insert_first}
use studix.Kernel.{Kernel, Heap}
use studix.Paging.{aligned}
use studix.Heap.{make_header, header_comparer, create_heap}
use studix.Heap.Blocks.{IsHeader, IsHeader-Agree, make_header-IsHeader, make_header_outside}

-- The memory: an index at start with one entry, which leads to a hole that takes the rest up to end.
unfoldable pub fresh_memory : Memory → (start end : ℕ) → Memory
fresh_memory m start end =
    store32
      (make_header (memset m start 0 0x80000) (start + 0x80000) (end - (start + 0x80000)) true)
      (slot start 0) (start + 0x80000)

abbrev pub fresh_heap : (start end max : ℕ) → (supervisor readonly : Bool) → Heap
fresh_heap start end max supervisor readonly = record {
  index = record { array = start; size = 1; max_size = 0x20000; comparer = some header_comparer };
  start_addr = start + 0x80000;
  end_addr = end;
  max_addr = max;
  supervisor = supervisor;
  readonly = readonly;
}

pub create_heap-fresh_heap :
    (kmalloc : Kernel → ℕ → Result (Kernel × ℕ)) (k k' : Kernel) (p start end max : ℕ)
    (supervisor readonly : Bool)
    → kmalloc k 32 ≡ ok (k', p)
    → aligned start ≡ true
    → aligned end ≡ true
    → start + 0x80000 ≤ end
    → end < 4294967296
    → create_heap kmalloc k start end max supervisor readonly
      ≡ ok (
        record k' { mem = fresh_memory (k'.mem) start end },
        fresh_heap start end max supervisor readonly,
      )
unfolding create_heap place_ordered_array fresh_memory
create_heap-fresh_heap kmalloc k k' p start end max supervisor readonly e a a' fits top =
    let behind : add32 start 0x80000 ≡ start + 0x80000 = omega arith in
    let size : sub32 end (start + 0x80000) ≡ end - (start + 0x80000) = omega arith in
    let m =
      make_header (memset (k'.mem) start 0 0x80000) (start + 0x80000) (end - (start + 0x80000))
        true in
    rw
      (
        e,
        a,
        a',
        behind,
        size,
        ordered_array_insert_first m start 0x20000 (start + 0x80000) header_comparer,
      )
      refl

module _ (m : Memory) (start end : ℕ) (fits : start + 0x80000 ≤ end) (top : end < 4294967296) where
  m1 : Memory
  m1 = make_header (memset m start 0 0x80000) (start + 0x80000) (end - (start + 0x80000)) true

  pub load32-fresh_memory : load32 (fresh_memory m start end) (slot start 0) ≡ start + 0x80000
  unfolding fresh_memory
  load32-fresh_memory = load32-store32 _ (slot start 0) (start + 0x80000) (omega arith)

  pub fresh_memory-IsHeader :
      IsHeader (fresh_memory m start end) (start + 0x80000) (end - (start + 0x80000)) true
  unfolding fresh_memory m1
  fresh_memory-IsHeader =
      IsHeader-Agree m1 (fresh_memory m start end) (start + 0x80000) (end - (start + 0x80000)) true
        (λ x lo hi. store32_outside m1 (slot start 0) (start + 0x80000) x (omega arith))
        (make_header-IsHeader (memset m start 0 0x80000) (start + 0x80000) (end - (start + 0x80000))
          true (omega arith))

  -- The other slots of the index are empty.
  pub fresh_memory_empty :
      (x : ℕ) → start + 4 ≤ x → x < start + 0x80000 → fresh_memory m start end x ≡ 0
  unfolding fresh_memory m1
  fresh_memory_empty x lo hi =
      let yes : within start 0x80000 x ≡ true = ground arith in
      store32_outside m1 (slot start 0) (start + 0x80000) x (omega arith)
      ∙ make_header_outside (memset m start 0 0x80000) (start + 0x80000) (end - (start + 0x80000))
          true x (inl hi)
      ∙ memset-within m start 0 0x80000 x
      ∙ rw yes refl

  pub fresh_memory_below : (x : ℕ) → x < start → fresh_memory m start end x ≡ m x
  unfolding fresh_memory m1
  fresh_memory_below x lt =
      let no : within start 0x80000 x ≡ false = ground arith in
      store32_outside m1 (slot start 0) (start + 0x80000) x (omega arith)
      ∙ make_header_outside (memset m start 0 0x80000) (start + 0x80000) (end - (start + 0x80000))
          true x (inl (omega arith))
      ∙ memset-within m start 0 0x80000 x
      ∙ rw no refl
