-- ===== src/Alloc/Leftover.antt =====
-- What the index holds when the only hole has been taken in part.
use studix.Base.{
  ℕ, ◌+◌, ◌-◌, ◌≤◌, ◌<◌, ◌≡◌, refl, ap, inr, false, arith, Returns, Returns-bind, ◌∙◌, List, [],
  ◌∷◌, ltb, if◌then◌else◌, some, add32, sub32, subst, Bool-cases, inl,
}
use studix.Memory.{Memory, load32}
use studix.Memory.Laws.{load32-same}
use studix.OrderedArray.{slot, ordered_array_insert}
use studix.OrderedArray.Contents.{contents}
use studix.OrderedArray.Insert.{insert_by, ordered_array_insert-insert_by}
use studix.OrderedArray.Remove.{ordered_array_remove_only}
use studix.OrderedArray.Outside.{ordered_array_remove_outside}
use studix.Kernel.{Kernel}
use studix.Heap.{size_of, header_comparer, make_header, make_footer}
use studix.Heap.Blocks.{make_header_outside, make_footer_outside}
use studix.Heap.Search.{indexed}
use studix.Alloc.{index_insert, index_remove, block_size, alloc_at}
use studix.Alloc.Take.{
  alloc_at_plain, split_rest_more, rest_memory, rest_memory_lem, index_remove_shape,
}

-- Two null pointers and the rest of the hole, where the word at 8 stands for the size of a header at
-- the null pointer.
abbrev pub leftover : (word rest size : ℕ) → List ℕ
leftover word rest size = if ltb word size then 0 ∷ 0 ∷ rest ∷ [] else rest ∷ 0 ∷ 0 ∷ []

insert_by-leftover :
    (m : Memory) (rest size : ℕ)
    → size_of m rest ≡ size
    → insert_by (header_comparer m) rest (0 ∷ 0 ∷ []) ≡ leftover (load32 m 8) rest size
unfolding insert_by header_comparer
insert_by-leftover m rest size e = elim (Bool-cases (ltb (load32 m 8) size)) [
  | inl b ↦ rw (e, b) refl
  | inr b ↦ rw (e, b) refl
]

-- Inserting the rest into an index of two null pointers.
index_insert-leftover :
    (k : Kernel) (rest size : ℕ)
    → k.heap.index.comparer ≡ some header_comparer
    → k.heap.index.size ≡ 2
    → load32 (k.mem) (slot (k.heap.index.array) 0) ≡ 0
    → load32 (k.mem) (slot (k.heap.index.array) 1) ≡ 0
    → rest < 4294967296
    → size_of (k.mem) rest ≡ size
    → Returns
        (λ k'. contents (k'.mem) (k'.heap.index) ≡ leftover (load32 (k.mem) 8) rest size)
        (index_insert k rest)
unfolding index_insert
index_insert-leftover k rest size c two first second lt e =
    let before : contents (k.mem) (k.heap.index) ≡ 0 ∷ 0 ∷ [] = rw (two, first, second) refl in
    Returns-bind _ (ordered_array_insert (k.mem) (k.heap.index) rest) _
      (ordered_array_insert-insert_by (k.mem) (k.heap.index) header_comparer rest c lt
        (omega (arith, two)))
      λ r (after, array, comparer).
        after
        ∙ ap (insert_by (header_comparer (k.mem)) rest) before
        ∙ insert_by-leftover (k.mem) rest size e

-- Behind the index, [12, array) is left, and so is what lies below.
module _ (k : Kernel) (size : ℕ) (compares : k.heap.index.comparer ≡ some header_comparer)
    (single : k.heap.index.size ≡ 1) (spare : load32 (k.mem) (slot (k.heap.index.array) 1) ≡ 0)
    (low : 12 ≤ k.heap.index.array) (above : k.heap.index.array + 12 ≤ indexed k 0)
    (high : indexed k 0 + size_of (k.mem) (indexed k 0) ≤ 4294967296)
    (fits : size + 40 ≤ size_of (k.mem) (indexed k 0)) where
  h : ℕ
  h = indexed k 0

  hole_size : ℕ
  hole_size = size_of (k.mem) h

  total : ℕ
  total = block_size hole_size size

  total_lem : (size + 20 ≤ total) × (total + 20 ≤ hole_size)
  unfolding total hole_size h block_size
  total_lem = ground arith

  -- The memory with the block, and with the header of the rest.
  m2 : Memory
  m2 = make_footer (make_header ((index_remove k 0).mem) h total false) (sub32 (add32 h total) 8) h

  k2 : Kernel
  k2 = record (index_remove k 0) { mem = m2 }

  m3 : Memory
  m3 = rest_memory k2 (h + total) (hole_size - total)

  -- Below the hole only the index was written.
  m3_below : (x : ℕ) → x < h → m3 x ≡ (index_remove k 0).mem x
  unfolding m3 k2 m2 h hole_size
  m3_below x lt =
      let bounds = total_lem in
      (rest_memory_lem k2 (h + total) (hole_size - total) (omega arith) (omega arith)
          (omega arith)).1
        x (omega arith)
      ∙ make_footer_outside (make_header ((index_remove k 0).mem) h total false)
          (sub32 (add32 h total) 8) h x (omega arith)
      ∙ make_header_outside ((index_remove k 0).mem) h total false x (inl lt)

  removed_low : (x : ℕ) → x < k.heap.index.array → (index_remove k 0).mem x ≡ k.mem x
  unfolding index_remove
  removed_low x lt = ordered_array_remove_outside (k.mem) (k.heap.index) 0 x (omega arith) (inl lt)

  word_kept : load32 m3 8 ≡ load32 (k.mem) 8
  unfolding h
  word_kept =
      load32-same (k.mem) m3 8 λ x lo hi. m3_below x (omega arith) ∙ removed_low x (omega arith)

  slots_empty :
      (load32 m3 (slot (k.heap.index.array) 0) ≡ 0) × (load32 m3 (slot (k.heap.index.array) 1) ≡ 0)
  unfolding h index_remove
  slots_empty =
      let only = ordered_array_remove_only (k.mem) (k.heap.index) single in
      (
        load32-same ((index_remove k 0).mem) m3 (slot (k.heap.index.array) 0)
              (λ x lo hi. m3_below x (omega arith))
            ∙ only.0
            ∙ spare,
        load32-same ((index_remove k 0).mem) m3 (slot (k.heap.index.array) 1)
              (λ x lo hi. m3_below x (omega arith))
            ∙ only.1
            ∙ spare,
      )

  index_insert-m3 :
      Returns
        (λ k'.
          contents (k'.mem) (k'.heap.index)
          ≡ leftover (load32 (k.mem) 8) (h + total) (hole_size - total))
        (index_insert (record k2 { mem = m3 }) (h + total))
  unfolding k2 hole_size h
  index_insert-m3 =
      let bounds = total_lem in
      let shape = index_remove_shape k 0 in
      let at : k2.heap.index.array ≡ k.heap.index.array = shape.0 in
      let header =
        (rest_memory_lem k2 (h + total) (hole_size - total) (omega arith) (omega arith)
          (omega arith)).0 in
      subst
        (λ w.
          Returns
            (λ k'. contents (k'.mem) (k'.heap.index) ≡ leftover w (h + total) (hole_size - total))
            (index_insert (record k2 { mem = m3 }) (h + total)))
        word_kept
        (index_insert-leftover (record k2 { mem = m3 }) (h + total) (hole_size - total)
          (shape.1 ∙ compares) (omega (arith, shape, single))
          (ap (λ a. load32 m3 (slot a 0)) at ∙ slots_empty.0)
          (ap (λ a. load32 m3 (slot a 1)) at ∙ slots_empty.1) (omega arith)
          (unfold m3 in header.extent))

  alloc_at_split :
      Returns
        (λ (k', ptr).
          contents (k'.mem) (k'.heap.index)
          ≡ leftover (load32 (k.mem) 8) (h + total) (hole_size - total))
        (alloc_at k size false 0)
  unfolding h hole_size total k2 m2 m3
  alloc_at_split =
      let bounds = total_lem in
      let split = split_rest_more k2 h hole_size total bounds.1 high (omega arith) in
      rw (alloc_at_plain k size 0 (omega arith), split)
        (Returns-bind _ (index_insert (record k2 { mem = m3 }) (h + total)) _ index_insert-m3
          λ k' e. e)

  -- The block takes the request with its header and footer and nothing more.
  pub alloc_at-leftover :
      Returns
        (λ (k', ptr).
          contents (k'.mem) (k'.heap.index)
          ≡ leftover
              (load32 (k.mem) 8)
              (indexed k 0 + (size + 20))
              (size_of (k.mem) (indexed k 0) - (size + 20)))
        (alloc_at k size false 0)
  unfolding h hole_size total
  alloc_at-leftover =
      let exact : block_size (size_of (k.mem) (indexed k 0)) size ≡ size + 20 =
        unfold block_size in ground arith in
      subst
        (λ n.
          Returns
            (λ ((k', ptr) : Kernel × ℕ).
              contents (k'.mem) (k'.heap.index)
              ≡ leftover (load32 (k.mem) 8) (indexed k 0 + n) (size_of (k.mem) (indexed k 0) - n))
            (alloc_at k size false 0))
        exact alloc_at_split
