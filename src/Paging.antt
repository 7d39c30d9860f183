-- ===== src/Paging.antt =====
-- src/mem/page.c and src/include/page.h: alignment, the bitset of frames, page entries and the page
-- directory. The page fault handler and the loads of control registers are left out.
pub mod Align
pub mod Frames
pub mod First
pub mod Entries
mod Tests
use studix.Base.{
  ℕ, zero, suc, ◌+◌, ◌-◌, ◌*◌, ◌/◌, ◌%◌, ◌^◌, bit_and, bit_or, Bool, true, false, not, Option, none,
  some, Result, ok, stop, panicked, undefined, ◌>>=◌, ◌>>◌, ltb, ◌==◌, if◌then◌else◌, add32, mul32,
  u32,
}
use studix.Memory.{Memory, load32, store32}
use studix.Strings.{memset}
use studix.Kernel.{Kernel, page_size}

unfoldable pub aligned : ℕ → Bool
aligned ptr = bit_and ptr 0xfff == 0

unfoldable pub align_up : ℕ → ℕ
unfolding aligned
align_up ptr = if not (aligned ptr) then add32 (ptr - ptr % page_size) page_size else ptr

-- BIT_INDEX and BIT_OFFSET
abbrev pub bit_index : ℕ → ℕ
bit_index a = a / 32

abbrev pub bit_offset : ℕ → ℕ
bit_offset a = a % 32

-- &frames[i]
abbrev pub frame_word : ℕ → ℕ → ℕ
frame_word frames i = frames + 4 * i

unfoldable pub set_frame : Memory → ℕ → ℕ → Memory
set_frame m frames frame_addr =
    let frame = frame_addr / page_size in
    let word = frame_word frames (bit_index frame) in
    store32 m word (bit_or (load32 m word) (2 ^ bit_offset frame))

-- ~(1 << offset) in 32 bits
unfoldable pub clear_frame : Memory → ℕ → ℕ → Memory
clear_frame m frames frame_addr =
    let frame = frame_addr / page_size in
    let word = frame_word frames (bit_index frame) in
    store32 m word (bit_and (load32 m word) (2 ^ 32 - 1 - 2 ^ bit_offset frame))

-- The inner loop of first_frame: the first of the `left` bits from j on that is not set.
first_clear : (left j word : ℕ) → Option ℕ
first_clear zero j word = none
first_clear (suc left) j word =
    let next = first_clear left (j + 1) word in if bit_and word (2 ^ j) == 0 then some j else next

-- The outer loop, with `left` words to go.
first_frame_loop : Memory → ℕ → (left i : ℕ) → ℕ
unfolding first_clear
first_frame_loop m frames zero i = i
first_frame_loop m frames (suc left) i =
    let next = first_frame_loop m frames left (i + 1) in
    let word = load32 m (frame_word frames i) in
    if word == 0xffffffff
    then next
    else elim (first_clear 32 0 word) [ none ↦ next | some j ↦ i * 32 + j ]

unfoldable pub first_frame : Memory → (frames num_frames : ℕ) → ℕ
unfolding first_frame_loop
first_frame m frames num_frames = first_frame_loop m frames (bit_index num_frames) 0

-- The bit fields of a Page_entry, in the order in which the compiler lays them out from bit 0 on.
unfoldable pub entry_frame : ℕ → ℕ
entry_frame w = w / 4096

-- present = 1, rw, user and frame are given; accessed, dirty and unused are kept.
unfoldable pub fill_entry : ℕ → (rw user frame : ℕ) → ℕ
fill_entry w rw_ user frame = 1 + 2 * rw_ + 4 * user + (w % 4096 - w % 8) + 4096 * (frame % 2 ^ 20)

unfoldable pub clear_entry_frame : ℕ → ℕ
clear_entry_frame w = w % 4096

abbrev pub bool_bit : Bool → ℕ
bool_bit b = if b then 1 else 0

-- `page` is the address of the entry; NULL is not one.
unfoldable pub alloc_frame : Kernel → (page : ℕ) → (kernel writeable : Bool) → Result Kernel
unfolding first_frame set_frame entry_frame fill_entry
alloc_frame k page kernel writeable =
    let index = first_frame k.mem k.frames k.num_frames in
    let m = set_frame k.mem k.frames (mul32 index page_size) in
    let w = fill_entry (load32 m page) (bool_bit writeable) (bool_bit (not kernel)) index in
    if page == 0
    then stop undefined
    else if not (entry_frame (load32 k.mem page) == 0)
    then ok k
    else if index == 0xffffffff
    then stop panicked
    else ok (record k { mem = store32 m page w })

-- The frame number is passed on where clear_frame wants an address.
unfoldable pub free_frame : Kernel → (page : ℕ) → Result Kernel
unfolding clear_frame entry_frame clear_entry_frame
free_frame k page =
    let frame = entry_frame (load32 k.mem page) in
    let m = clear_frame k.mem k.frames frame in
    if page == 0
    then stop undefined
    else if frame == 0
    then ok k
    else ok (record k { mem = store32 m page (clear_entry_frame (load32 m page)) })

-- kmalloc_ap: the state it leaves, the address and the physical address.
abbrev pub KmallocAp : Type 0
KmallocAp = Kernel → ℕ → Result (Kernel × ℕ × ℕ)

-- &dir->tables[i] and &dir->tables_physical[i]
abbrev pub table_slot : ℕ → ℕ → ℕ
table_slot dir i = dir + 4 * i

abbrev pub physical_slot : ℕ → ℕ → ℕ
physical_slot dir i = dir + 4096 + 4 * i

-- &dir->tables[index]->pages[i]
abbrev pub page_slot : ℕ → ℕ → ℕ
page_slot table i = table + 4 * i

-- NULL is 0.
unfoldable pub get_page : KmallocAp → Kernel → (addr : ℕ) → Bool → (dir : ℕ) → Result (Kernel × ℕ)
get_page kmalloc_ap k addr make_table dir =
    let page = addr / page_size in
    let index = page / 1024 in
    let table = load32 k.mem (table_slot dir index) in
    if not (table == 0)
    then ok (k, page_slot table (page % 1024))
    else if not make_table
    then ok (k, 0)
    else do
      (k', fresh, phys_addr) ← kmalloc_ap k page_size
      let m1 = store32 k'.mem (table_slot dir index) fresh
      let m2 = memset m1 (load32 m1 (table_slot dir index)) 0 page_size
      let m3 = store32 m2 (physical_slot dir index) (bit_or phys_addr 7)
      ok (record k' { mem = m3 }, page_slot (load32 m3 (table_slot dir index)) (page % 1024))
