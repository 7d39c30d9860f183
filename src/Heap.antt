-- ===== src/Heap.antt =====
-- src/mem/heap.c and src/include/heap.h: blocks with a header and a footer, holes, and the growth
-- and shrinking of the heap by pages. The functions work on the one heap of the state. print_block
-- only prints.
pub mod Blocks
pub mod Search
pub mod Fresh
mod Tests
use studix.Base.{
  ℕ, zero, suc, ◌+◌, ◌-◌, ◌*◌, ◌/◌, ◌%◌, Bool, true, false, not, Option, none, some, Result, ok,
  stop, fuel, ◌>>=◌, ◌>>◌, assert, ltb, leb, ◌==◌, if◌then◌else◌, add32, sub32, mul32,
}
use studix.Memory.{Memory, load8, load32, store8, store32}
use studix.OrderedArray.{
  OrderedArray, place_ordered_array, ordered_array_insert, ordered_array_lookup,
}
use studix.Kernel.{Heap, Kernel, page_size, heap_index_size, heap_magic, heap_min_size}
use studix.Paging.{aligned, align_up, KmallocAp, get_page, alloc_frame, free_frame, bool_bit}

-- A header has magic at 0, is_hole at 4 and size at 8; a footer has magic at 0 and header at 4.
abbrev pub sizeof_header : ℕ
sizeof_header = 12

abbrev pub sizeof_footer : ℕ
sizeof_footer = 8

abbrev pub magic_of : Memory → ℕ → ℕ
magic_of m p = load32 m p

abbrev pub is_hole : Memory → ℕ → Bool
is_hole m header = not (load8 m (header + 4) == 0)

abbrev pub size_of : Memory → ℕ → ℕ
size_of m header = load32 m (header + 8)

abbrev pub header_of : Memory → ℕ → ℕ
header_of m footer = load32 m (footer + 4)

unfoldable pub set_size : Memory → ℕ → ℕ → Memory
set_size m header size = store32 m (header + 8) size

unfoldable pub header_comparer : Memory → ℕ → ℕ → Bool
header_comparer m a b = ltb (size_of m a) (size_of m b)

-- The header is the address loc.
unfoldable pub make_header : Memory → (loc size : ℕ) → Bool → Memory
make_header m loc size hole =
    store8 (store32 (store32 m (loc + 8) size) loc heap_magic) (loc + 4) (bool_bit hole)

unfoldable pub make_footer : Memory → (loc header : ℕ) → Memory
make_footer m loc header = store32 (store32 m (loc + 4) header) loc heap_magic

unfoldable pub assoc_footer : Memory → ℕ → ℕ
assoc_footer m header = sub32 (add32 header (size_of m header)) sizeof_footer

unfoldable pub header_for : ℕ → ℕ
header_for ptr = sub32 ptr sizeof_header

-- How far the first aligned place for data lies behind the one that the header at loc has.
unfoldable pub align_offset : ℕ → ℕ
align_offset loc =
    let first = add32 loc sizeof_header in
    if not (aligned first) then page_size - first % page_size else 0

-- The two tests of the loop of find_smallest_hole; the subtraction wraps.
unfoldable pub hole_fits : Memory → (header size : ℕ) → Bool → Bool
unfolding align_offset
hole_fits m header size align =
    if align
    then leb size (sub32 (size_of m header) (align_offset header))
    else leb size (size_of m header)

find_hole_loop : Kernel → (size : ℕ) → Bool → (left i : ℕ) → Result (Option ℕ)
find_hole_loop k size align zero i = ok none
find_hole_loop k size align (suc left) i =
    let next = find_hole_loop k size align left (i + 1) in
    do
      header ← ordered_array_lookup k.mem k.heap.index i
      if hole_fits k.mem header size align then ok (some i) else next

-- `none` is the -1.
unfoldable pub find_smallest_hole : Kernel → ℕ → Bool → Result (Option ℕ)
unfolding find_hole_loop hole_fits
find_smallest_hole k size align = find_hole_loop k size align k.heap.index.size 0

find_header_loop : Kernel → (header left i : ℕ) → Result (Option ℕ)
find_header_loop k header zero i = ok none
find_header_loop k header (suc left) i =
    let next = find_header_loop k header left (i + 1) in
    do h ← ordered_array_lookup k.mem k.heap.index i; if h == header then ok (some i) else next

unfoldable pub find_header_index : Kernel → ℕ → Result (Option ℕ)
unfolding find_header_loop
find_header_index k header = find_header_loop k header k.heap.index.size 0

-- `kmalloc` is given as its result; the value of align_up(start) is not used by the source.
unfoldable pub create_heap :
    (Kernel → ℕ → Result (Kernel × ℕ))
    → Kernel
    → (start end max : ℕ) → (supervisor readonly : Bool) → Result (Kernel × Heap)
unfolding make_header
create_heap kmalloc k start end max supervisor readonly = do
  (k', heap_ptr) ← kmalloc k 32
  assert (aligned start)
  assert (aligned end)
  let (m1, index) = place_ordered_array k'.mem start heap_index_size (some header_comparer)
  let start' = add32 start (mul32 4 heap_index_size)
  let m2 = make_header m1 start' (sub32 end start') true
  (m3, index') ← ordered_array_insert m2 index start'
  ok (
    record k' { mem = m3 },
    record {
      index = index';
      start_addr = start';
      end_addr = end;
      max_addr = max;
      supervisor = supervisor;
      readonly = readonly;
    },
  )

-- The loop of expand over the new pages, from offset i on.
expand_loop : KmallocAp → (f i new_size : ℕ) → Kernel → Result Kernel
expand_loop kmalloc_ap zero i new_size k = stop fuel
expand_loop kmalloc_ap (suc f) i new_size k =
    let rest = expand_loop kmalloc_ap f (add32 i page_size) new_size in
    if not (ltb i new_size) then ok k else do
      (k1, page) ← get_page kmalloc_ap k (add32 k.heap.start_addr i) true k.kernel_dir
      k2 ← alloc_frame k1 page k1.heap.supervisor k1.heap.readonly
      rest k2

-- The rounds that the loops of expand and contract can take, and one for their last test.
abbrev pub resize_fuel : (from to : ℕ) → ℕ
resize_fuel from to = (to - from) / page_size + 2

unfoldable pub expand : KmallocAp → Kernel → ℕ → Result Kernel
unfolding expand_loop
expand kmalloc_ap k new_size = do
  assert (ltb k.heap.end_addr (add32 k.heap.start_addr new_size))
  let size = align_up new_size
  assert (leb (add32 k.heap.start_addr size) k.heap.max_addr)
  let old_size = sub32 k.heap.end_addr k.heap.start_addr
  k' ← expand_loop kmalloc_ap (resize_fuel old_size size) old_size size k
  ok (record k' { heap = record (k'.heap) { end_addr = add32 k'.heap.start_addr size } })

-- get_page without a table to make does not allocate.
abbrev pub no_kmalloc_ap : KmallocAp
no_kmalloc_ap k size = stop fuel

contract_loop : (f i new_size : ℕ) → Kernel → Result Kernel
contract_loop zero i new_size k = stop fuel
contract_loop (suc f) i new_size k =
    let rest = contract_loop f (sub32 i page_size) new_size in
    if not (ltb new_size i) then ok k else do
      (k1, page) ← get_page no_kmalloc_ap k (add32 k.heap.start_addr i) false k.kernel_dir
      k2 ← free_frame k1 page
      rest k2

unfoldable pub contract : Kernel → ℕ → Result (Kernel × ℕ)
unfolding contract_loop
contract k new_size = do
  assert (ltb (add32 k.heap.start_addr new_size) k.heap.end_addr)
  let up = align_up new_size
  let size = if ltb up heap_min_size then heap_min_size else up
  let old_size = sub32 k.heap.end_addr k.heap.start_addr
  k' ← contract_loop (resize_fuel size old_size) (sub32 old_size page_size) size k
  ok (record k' { heap = record (k'.heap) { end_addr = add32 k'.heap.start_addr size } }, size)
