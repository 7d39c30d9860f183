-- ===== src/Alloc.antt =====
-- src/mem/alloc.c: taking blocks from the holes of the heap and giving them back.
pub mod Take
pub mod Give
pub mod Request
pub mod Leftover
pub mod Freed
mod Tests
use studix.Base.{
  ℕ, zero, suc, ◌+◌, ◌-◌, ◌*◌, Bool, true, false, not, ◌&&◌, Option, none, some, Result, ok, stop,
  assertion, fuel, ◌>>=◌, ◌>>◌, assert, ltb, leb, ◌==◌, if◌then◌else◌, add32, sub32, bit_and,
}
use studix.Memory.{Memory, load32, store8, store32}
use studix.OrderedArray.{ordered_array_insert, ordered_array_lookup, ordered_array_remove}
use studix.Kernel.{Heap, Kernel, page_size, heap_magic}
use studix.Paging.{aligned, KmallocAp}
use studix.Kmalloc.{HeapAlloc, kmalloc_ap}
use studix.Heap.{
  sizeof_header, sizeof_footer, magic_of, is_hole, size_of, header_of, set_size, make_header,
  make_footer, assoc_footer, header_for, find_smallest_hole, find_header_index, expand, contract,
}

-- The last loop of make_space: `count` is header_index + 1.
pub last_header_loop : Kernel → (left i value count : ℕ) → Result ℕ
last_header_loop k zero i value count = ok count
last_header_loop k (suc left) i value count =
    let more = last_header_loop k left (i + 1) in
    do
      tmp ← ordered_array_lookup k.mem k.heap.index i
      if ltb value tmp then more tmp (count + 1) else more value count

-- Heap operations that leave the index to the array's own functions.
pub index_insert : Kernel → ℕ → Result Kernel
index_insert k header = do
  (m, index) ← ordered_array_insert k.mem k.heap.index header
  ok (record k { mem = m; heap = record (k.heap) { index = index } })

pub index_remove : Kernel → ℕ → Kernel
index_remove k i =
    let (m, index) = ordered_array_remove k.mem k.heap.index i in
    record k { mem = m; heap = record (k.heap) { index = index } }

pub heap_length : Kernel → ℕ
heap_length k = sub32 k.heap.end_addr k.heap.start_addr

unfoldable pub make_space : KmallocAp → Kernel → ℕ → Result Kernel
unfolding last_header_loop index_insert heap_length
make_space kap k needed_size = do
  let old_end_addr = k.heap.end_addr
  let old_length = heap_length k
  k1 ← expand kap k (add32 old_length needed_size)
  let grown = sub32 (heap_length k1) old_length
  count ← last_header_loop k1 k1.heap.index.size 0 0 0
  if count == 0
      then (do
        let m1 = make_header k1.mem old_end_addr grown true
        let m2 =
            make_footer m1 (sub32 (add32 old_end_addr (size_of m1 old_end_addr)) sizeof_footer)
              old_end_addr
        index_insert (record k1 { mem = m2 }) old_end_addr)
      else (do
        header ← ordered_array_lookup k1.mem k1.heap.index (count - 1)
        let m1 = set_size k1.mem header (add32 (size_of k1.mem header) grown)
        ok (record k1 { mem = make_footer m1 (assoc_footer m1 header) header }))

-- The size of the block to make: the whole hole, if the rest would be too small for one.
unfoldable pub block_size : (hole_size size : ℕ) → ℕ
block_size hole_size size =
    let total = add32 size (sizeof_header + sizeof_footer) in
    if ltb (sub32 hole_size total) (sizeof_header + sizeof_footer) then hole_size else total

-- Where the block starts: behind a new hole that fills the gap up to an aligned place, or at the
-- hole's own place, which then leaves the index. Also the size that is left there.
pub carve : Kernel → (i pos hole_size : ℕ) → Bool → Kernel × ℕ × ℕ
unfolding index_remove
carve k i pos hole_size align =
    let new_loc = sub32 (sub32 (add32 pos page_size) (bit_and pos 0xfff)) sizeof_header in
    let m1 = make_header k.mem pos (sub32 new_loc pos) true in
    let m2 = make_footer m1 (sub32 new_loc sizeof_footer) pos in
    if align && not (aligned (add32 pos sizeof_header))
    then (record k { mem = m2 }, new_loc, sub32 hole_size (size_of m2 pos))
    else (index_remove k i, pos, hole_size)

-- The hole behind the block, where there is room for one.
pub split_rest : Kernel → (pos hole_size total : ℕ) → Result Kernel
unfolding index_insert
split_rest k pos hole_size total =
    let rest = add32 pos total in
    let m1 = make_header k.mem rest (sub32 hole_size total) true in
    let footer = assoc_footer m1 rest in
    let m2 =
      if ltb (add32 footer sizeof_footer) k.heap.end_addr then make_footer m1 footer rest else m1 in
    if ltb total hole_size then index_insert (record k { mem = m2 }) rest else ok k

-- What alloc does once it has found the hole at place i of the index.
unfoldable pub alloc_at : Kernel → (size : ℕ) → Bool → (i : ℕ) → Result (Kernel × ℕ)
unfolding carve split_rest block_size
alloc_at k size align i = do
  header ← ordered_array_lookup k.mem k.heap.index i
  let total = block_size (size_of k.mem header) size
  let (k1, pos, left) = carve k i header (size_of k.mem header) align
  let m1 = make_header k1.mem pos total false
  let m2 = make_footer m1 (sub32 (add32 pos total) sizeof_footer) pos
  k2 ← split_rest (record k1 { mem = m2 }) pos left total
  ok (k2, add32 pos sizeof_header)

-- The call of itself after make_space, and the calls that the page tables need, take fuel.
unfoldable pub alloc : ℕ → HeapAlloc
unfolding alloc_at make_space kmalloc_ap
alloc zero k size align = stop fuel
alloc (suc f) k size align =
    let again = λ (k' : Kernel). alloc f k' size align in
    let kap = kmalloc_ap (λ (k' : Kernel). alloc f k') in
    do
      found ← find_smallest_hole k (add32 size (sizeof_header + sizeof_footer)) align
      elim found [
        | none ↦ make_space kap k (add32 size (sizeof_header + sizeof_footer)) >>= again
        | some i ↦ alloc_at k size align i
      ]

-- The place that is looked at for a footer is twelve bytes before the header; the results are
-- the memory and the header of the block that is left.
unfoldable pub unify_left : Memory → (header footer : ℕ) → Memory × ℕ
unify_left m header footer =
    let potential_footer = sub32 header sizeof_header in
    let left = header_of m potential_footer in
    let m1 = store32 m (footer + 4) left in
    if (magic_of m potential_footer == heap_magic) && is_hole m left
    then (set_size m1 left (add32 (size_of m1 left) (size_of m header)), left)
    else (m, header)

unfoldable pub unify_right : Kernel → (header footer : ℕ) → Result (Kernel × ℕ)
unfolding index_remove
unify_right k header footer =
    let right = add32 footer sizeof_footer in
    let m1 = set_size k.mem header (add32 (size_of k.mem header) (size_of k.mem right)) in
    let k1 = record k { mem = m1 } in
    if (magic_of k.mem right == heap_magic) && is_hole k.mem right
    then (do
      i ← find_header_index k1 right
      elim i [
        | none ↦ stop assertion
        | some i ↦ ok (index_remove k1 i, sub32 (add32 right (size_of m1 right)) sizeof_footer)
      ])
    else ok (k, footer)

-- The shrinking of the heap where the hole reaches its end.
pub shrink : Kernel → (header footer : ℕ) → Result Kernel
unfolding heap_length index_remove
shrink k header footer =
    let old_length = heap_length k in
    if not (add32 footer sizeof_footer == k.heap.end_addr) then ok k else do
      (k1, new_length) ← contract k (sub32 header k.heap.start_addr)
      let lost = sub32 old_length new_length
      if ltb lost (size_of k1.mem header)
          then (do
            let m1 = set_size k1.mem header (sub32 (size_of k1.mem header) lost)
            ok (record k1 { mem = make_footer m1 (assoc_footer m1 header) header }))
          else (do
            i ← find_header_index k1 header
            ok (elim i [ none ↦ k1 | some i ↦ index_remove k1 i ]))

unfoldable pub free : Kernel → ℕ → Result Kernel
free k ptr =
    let orig_header = header_for ptr in
    let footer = assoc_footer k.mem orig_header in
    if ptr == 0 then ok k else do
      assert (header_of k.mem footer == orig_header)
      assert (magic_of k.mem orig_header == heap_magic)
      assert (magic_of k.mem footer == heap_magic)
      let (m1, header) = unify_left (store8 k.mem (orig_header + 4) 1) orig_header footer
      (k2, footer') ← unify_right (record k { mem = m1 }) header footer
      k3 ← shrink k2 header footer'
      if header == orig_header then index_insert k3 header else ok k3
