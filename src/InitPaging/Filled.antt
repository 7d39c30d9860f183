-- ===== src/InitPaging/Filled.antt =====
-- One page of a table that is there is given a frame: the body of the two loops of init_paging.
use studix.Base.{
  ℕ, ◌+◌, ◌*◌, ◌/◌, ◌%◌, ◌≤◌, ◌<◌, ◌≡◌, ◌≢◌, ◌⊎◌, refl, ap, ◌∙◌, false, true, arith, ok, ltb,
  if◌then◌else◌, mul32, bit, Result,
}
use native.Mathlib.Decide.{dec_lt}
use studix.Memory.{Memory, load32, store32}
use studix.Memory.Laws.{load32-same, load32-store32, load32-store32-Apart, store32_outside}
use studix.Kernel.{Kernel}
use studix.Paging.{
  first_frame, set_frame, frame_word, fill_entry, entry_frame, alloc_frame, get_page, table_slot,
  page_slot,
}
use studix.Paging.Frames.{frame_bit, set_frame-frame_bit}
use studix.Paging.First.{first_frame_free}
use studix.Paging.Entries.{alloc_frame_new}
use studix.Kmalloc.{HeapAlloc, kmalloc_ap}
use studix.InitPaging.{map_page}
use studix.InitPaging.Table.{get_page_there}

-- The entry of a page for user mode that is present and not to be written.
abbrev pub page_entry : ℕ → ℕ
page_entry frame = 5 + 4096 * frame

-- Where the frames below n are taken and the others are free, as far as the bitset was cleared, n is
-- the first free one.
abbrev pub TakenBelow : Memory → (frames n : ℕ) → Type 0
TakenBelow m frames n = (x : ℕ) → x < 4096 → frame_bit m frames x ≡ (if ltb x n then 1 else 0)

first_frame-TakenBelow :
    (m : Memory) (frames n : ℕ) → n < 4096 → TakenBelow m frames n → first_frame m frames 16384 ≡ n
first_frame-TakenBelow m frames n lt taken =
    let r = first_frame m frames 16384 in
    let free : frame_bit m frames n ≡ 0 = ground (arith, taken n lt) in
    let first = first_frame_free m frames 16384 n (omega arith) free in
    let up : r ≤ n = ground (arith, first.3 n, free) in ground (arith, taken r, first.2)

TakenBelow-set_frame :
    (m : Memory) (frames n : ℕ)
    → n < 4096
    → TakenBelow m frames n
    → TakenBelow (set_frame m frames (mul32 n 4096)) frames (n + 1)
TakenBelow-set_frame m frames n lt taken x small =
    let at : mul32 n 4096 / 4096 ≡ n = omega arith in
    ground (arith, set_frame-frame_bit m frames (mul32 n 4096) x, taken x small)

-- Taking one of the first 4096 frames writes to the first 512 bytes of the bitset.
set_frame_outside :
    (m : Memory) (frames n x : ℕ)
    → n < 4096
    → (x < frames) ⊎ (frames + 512 ≤ x)
    → set_frame m frames (mul32 n 4096) x ≡ m x
unfolding set_frame
set_frame_outside m frames n x lt out = store32_outside m _ _ x (omega arith)

fill_entry-page_entry : (f : ℕ) → f < 1048576 → fill_entry 0 0 1 f ≡ page_entry f
unfolding fill_entry
fill_entry-page_entry f lt = omega arith

-- alloc_frame on an empty entry, where the first free frame is known.
alloc_frame-page_entry :
    (k : Kernel) (page n : ℕ)
    → k.num_frames ≡ 16384
    → page ≢ 0
    → n < 4096
    → (page + 4 ≤ k.frames) ⊎ (k.frames + 512 ≤ page)
    → load32 (k.mem) page ≡ 0
    → TakenBelow (k.mem) (k.frames) n
    → alloc_frame k page false false
      ≡ ok (record k {
        mem = store32 (set_frame (k.mem) (k.frames) (mul32 n 4096)) page (page_entry n);
      })
alloc_frame-page_entry k page n num ne lt out empty taken =
    let m = set_frame (k.mem) (k.frames) (mul32 n 4096) in
    let first : first_frame (k.mem) (k.frames) (k.num_frames) ≡ n =
      rw num (first_frame-TakenBelow (k.mem) (k.frames) n lt taken) in
    let none : entry_frame (load32 (k.mem) page) ≡ 0 = rw empty (unfold entry_frame in refl) in
    let zero' : load32 m page ≡ 0 =
      load32-same (k.mem) m page
        (λ x lo hi. set_frame_outside (k.mem) (k.frames) n x lt (omega arith))
      ∙ empty in
    let entry : fill_entry (load32 m page) 0 1 n ≡ page_entry n =
      ap (λ w. fill_entry w 0 1 n) zero' ∙ fill_entry-page_entry n (omega arith) in
    alloc_frame_new k page false false (omega arith) ne none
    ∙ ap
        (λ r. ok (record k {
          mem =
              store32 (set_frame (k.mem) (k.frames) (mul32 r 4096)) page
                (fill_entry (load32 (set_frame (k.mem) (k.frames) (mul32 r 4096)) page) 0 1 r);
        }))
        first
    ∙ ap (λ w. ok (record k { mem = store32 m page w })) entry

-- The kernel k whose directory leads from place d to table t; the table's pages are given the frames
-- from b on.
module _ (k : Kernel) (d t b : ℕ) where
  -- The bitset, the directory and the table follow each other.
  abbrev pub InOrder : Type 0
  InOrder =
      (k.num_frames ≡ 16384)
      × (k.frames + 512 ≤ k.kernel_dir)
      × (k.frames + 2048 ≤ t)
      × (k.kernel_dir + 8196 ≤ t)
      × (t + 4096 < 4294967296)
      × (d < 1024)
      × (load32 (k.mem) (table_slot (k.kernel_dir) d) ≡ t)

  -- The address is neither in the words of the bitset that are written nor in the table.
  abbrev pub Elsewhere : ℕ → Type 0
  Elsewhere x = ((x < k.frames) ⊎ (k.frames + 512 ≤ x)) × ((x < t) ⊎ (t + 4096 ≤ x))

  -- The first j pages of the table have frames, one after the other, and nothing else has changed.
  abbrev pub Filled : (j : ℕ) → Memory → Type 0
  Filled j m =
      TakenBelow m (k.frames) (b + j)
      × ((i : ℕ) → i < j → load32 m (page_slot t i) ≡ page_entry (b + i))
      × ((i : ℕ) → j ≤ i → i < 1024 → load32 m (page_slot t i) ≡ 0)
      × ((x : ℕ) → Elsewhere x → m x ≡ k.mem x)

  -- The memory after one page more.
  next : (j : ℕ) → Memory → Memory
  next j m =
      store32 (set_frame m (k.frames) (mul32 (b + j) 4096)) (page_slot t j) (page_entry (b + j))

  next_outside :
      (j : ℕ) (m : Memory) (x : ℕ)
      → b + j < 4096
      → (x < k.frames) ⊎ (k.frames + 512 ≤ x)
      → (x < page_slot t j) ⊎ (page_slot t j + 4 ≤ x)
      → next j m x ≡ m x
  unfolding next
  next_outside j m x lt out apart =
      store32_outside (set_frame m (k.frames) (mul32 (b + j) 4096)) (page_slot t j) _ x apart
      ∙ set_frame_outside m (k.frames) (b + j) x lt out

  next-Filled :
      (j : ℕ) (m : Memory)
      → InOrder
      → j < 1024
      → b + j < 4096
      → Filled j m
      → Filled (j + 1) (next j m)
  next-Filled j m (num, low, words, behind, top, place, leads) lt room (taken, full, empty, same) =
      (
        λ x small.
            let sum : b + (j + 1) ≡ b + j + 1 = omega arith in
            unfold next in
            ap (bit (x % 32)) (
              load32-store32-Apart (set_frame m (k.frames) (mul32 (b + j) 4096)) (page_slot t j) _
                (frame_word (k.frames) (x / 32)) (omega arith))
            ∙ TakenBelow-set_frame m (k.frames) (b + j) room taken x small
            ∙ rw sum refl,
        λ i below. elim (dec_lt i j) [
          | yes before ↦
              load32-same m (next j m) (page_slot t i)
                (λ x lo hi. next_outside j m x room (omega arith) (omega arith))
              ∙ full i before
          | no last ↦
              let e : i ≡ j = omega arith in
              rw e (
                unfold next in
                load32-store32 (set_frame m (k.frames) (mul32 (b + j) 4096)) (page_slot t j) _
                  (omega arith))
        ],
        λ i above top'.
            load32-same m (next j m) (page_slot t i)
              (λ x lo hi. next_outside j m x room (omega arith) (omega arith))
            ∙ empty i (omega arith) top',
        λ x (out, off). next_outside j m x room out (omega arith) ∙ same x (out, off),
      )

  -- The first j pages have frames in the memory that is left.
  abbrev pub FillsTo : (j : ℕ) → Result Kernel → Type 0
  FillsTo j r = (m : Memory) × Filled j m × (r ≡ ok (record k { mem = m }))

  -- map_page on the next page of the table.
  pub map_page-FillsTo :
      (alloc : HeapAlloc) (j : ℕ) (m : Memory)
      → InOrder
      → j < 1024
      → b + j < 4096
      → Filled j m
      → FillsTo (j + 1) (map_page alloc ((d * 1024 + j) * 4096) (record k { mem = m }))
  unfolding map_page
  map_page-FillsTo alloc j m order lt room filled =
      let (num, low, words, behind, top, place, leads) = order in
      let (taken, full, empty, same) = filled in
      let k' = record k { mem = m } in
      let i = (d * 1024 + j) * 4096 in
      let index : i / 4096 / 1024 ≡ d = omega arith in
      let offset : i / 4096 % 1024 ≡ j = omega arith in
      let slot : load32 m (table_slot (k.kernel_dir) d) ≡ t =
        load32-same (k.mem) m (table_slot (k.kernel_dir) d)
          (λ x lo hi. same x (omega arith, omega arith))
        ∙ leads in
      let page : get_page (kmalloc_ap alloc) k' i true (k.kernel_dir) ≡ ok (k', page_slot t j) =
        get_page_there alloc k' i d t index slot (omega arith) ∙ rw offset refl in
      let new =
        alloc_frame-page_entry k' (page_slot t j) (b + j) num (omega arith) room (omega arith)
          (empty j (omega arith) lt) taken in
      (next j m, next-Filled j m order lt room filled, rw page (unfold next in new))
