-- ===== src/Alloc/Take.antt =====
-- What alloc does with the hole that it has found.
use studix.Base.{
  ℕ, ◌+◌, ◌-◌, ◌*◌, ◌≤◌, ◌<◌, ◌≡◌, ◌⊎◌, inl, inr, refl, true, false, arith, ◌∙◌, sym, subst, some,
  ok, ◌>>=◌, Returns, Returns-mono, Returns-bind, Bool-cases, ltb, lt→ltb, u32, add32, sub32,
  if◌then◌else◌,
}
use studix.Memory.{Memory}
use studix.Memory.Laws.{load32-lt}
use studix.OrderedArray.{Comparer, ordered_array_insert}
use studix.OrderedArray.Outside.{
  ordered_array_insert_outside, ordered_array_remove_outside, ordered_array_remove_shape,
}
use studix.Kernel.{Kernel}
use studix.Heap.{size_of, make_header, make_footer, assoc_footer}
use studix.Heap.Blocks.{
  Agree, IsHeader, IsBlock, IsHeader-Agree, IsBlock-Agree, make_footer-IsBlock,
  make_header-IsHeader, make_header_outside, make_footer_outside, assoc_footer-IsHeader,
}
use studix.Heap.Search.{indexed, lookup_lt}
use studix.Alloc.{index_insert, index_remove, block_size, carve, split_rest, alloc_at}

-- The block is large enough for the request, and either takes the whole hole or leaves a rest with
-- room for a header and a footer.
pub block_size_bounds :
    (hole_size size : ℕ)
    → size + 20 ≤ hole_size
    → hole_size < 4294967296
    → (size + 20 ≤ block_size hole_size size)
      × ((block_size hole_size size ≡ hole_size) ⊎ (block_size hole_size size + 20 ≤ hole_size))
unfolding block_size
block_size_bounds hole_size size fits lt = ground arith

-- The index has a comparer, room in its size for two more, and lies below addr with its slots.
pub record IndexBelow (k : Kernel) (addr : ℕ) (c : Comparer) : Type 0 where
  pub compares : k.heap.index.comparer ≡ some c
  pub room : k.heap.index.size + 2 < 4294967296
  pub below : k.heap.index.array + 4 * (k.heap.index.size + 2) ≤ addr

-- Memory from addr on is as before, and so are the ends of the heap.
pub record KeepsFrom (addr : ℕ) (k k' : Kernel) : Type 0 where
  pub same : (x : ℕ) → addr ≤ x → k'.mem x ≡ k.mem x
  pub ends : k'.heap.end_addr ≡ k.heap.end_addr

index_remove-KeepsFrom :
    (k : Kernel) (i addr : ℕ) (c : Comparer)
    → i < k.heap.index.size
    → IndexBelow k addr c
    → KeepsFrom addr k (index_remove k i)
unfolding index_remove
index_remove-KeepsFrom k i addr c h b = record {
  same = λ x le. ordered_array_remove_outside k.mem k.heap.index i x (omega arith) (omega arith);
  ends = refl;
}

index_insert-KeepsFrom :
    (k : Kernel) (header addr : ℕ) (c : Comparer)
    → k.heap.index.comparer ≡ some c
    → k.heap.index.array + 4 * (k.heap.index.size + 1) ≤ addr
    → Returns (KeepsFrom addr k) (index_insert k header)
unfolding index_insert
index_insert-KeepsFrom k header addr c e below =
    Returns-bind (KeepsFrom addr k) (ordered_array_insert k.mem k.heap.index header) _
      (ordered_array_insert_outside k.mem k.heap.index c header e)
      λ r p. record { same = λ x le. p.0 x (omega arith); ends = refl }

-- Where the block ends before the hole does, the rest becomes a hole with a header of its own.
abbrev pub RestIsHole : Memory → (h hole_size total : ℕ) → Type 0
RestIsHole m h hole_size total =
    (total ≡ hole_size) ⊎ IsHeader m (h + total) (hole_size - total) true

-- Of a memory that agrees with m from addr on.
Agree-KeepsFrom : (k k' : Kernel) (addr hi : ℕ) → KeepsFrom addr k k' → Agree addr hi k.mem k'.mem
Agree-KeepsFrom k k' addr hi f x lo lt = f.same x lo

-- split_rest leaves the block [h, h + total) and makes the rest a hole.
abbrev Split : Kernel → (h hole_size total : ℕ) → Kernel → Type 0
Split k h hole_size total k' =
    Agree h (h + total) k.mem k'.mem
    × RestIsHole k'.mem h hole_size total
    × (k'.heap.end_addr ≡ k.heap.end_addr)

-- The header and, unless it would reach the end of the heap, the footer of the rest.
pub rest_memory : Kernel → (rest size : ℕ) → Memory
rest_memory k rest size =
    let m1 = make_header k.mem rest size true in
    let footer = assoc_footer m1 rest in
    if ltb (add32 footer 8) k.heap.end_addr then make_footer m1 footer rest else m1

pub rest_memory_lem :
    (k : Kernel) (rest size : ℕ)
    → 20 ≤ size
    → rest + size ≤ 4294967296
    → 0 < rest
    → IsHeader (rest_memory k rest size) rest size true
      × ((x : ℕ) → x < rest → rest_memory k rest size x ≡ k.mem x)
unfolding rest_memory
rest_memory_lem k rest size le fits pos =
    let m1 = make_header k.mem rest size true in
    let made : IsHeader m1 rest size true =
      make_header-IsHeader k.mem rest size true (omega arith) in
    let f : assoc_footer m1 rest ≡ rest + size - 8 =
      assoc_footer-IsHeader m1 rest size true made le fits in
    elim (Bool-cases (ltb (add32 (assoc_footer m1 rest) 8) k.heap.end_addr)) [
      | inl e ↦ rw e (
        IsHeader-Agree m1 (make_footer m1 (assoc_footer m1 rest) rest) rest size true
            (λ x p q. make_footer_outside m1 (assoc_footer m1 rest) rest x (omega arith)) made,
        λ x lt.
            make_footer_outside m1 (assoc_footer m1 rest) rest x (omega arith)
            ∙ make_header_outside k.mem rest size true x (inl lt),
      )
      | inr e ↦ rw e (made, λ x lt. make_header_outside k.mem rest size true x (inl lt))
    ]

pub split_rest_more :
    (k : Kernel) (h hole_size total : ℕ)
    → total + 20 ≤ hole_size
    → h + hole_size ≤ 4294967296
    → 0 < h
    → split_rest k h hole_size total
      ≡ index_insert (record k { mem = rest_memory k (h + total) (hole_size - total) }) (h + total)
unfolding split_rest rest_memory
split_rest_more k h hole_size total le fits pos =
    let at : add32 h total ≡ h + total = omega arith in
    let size : sub32 hole_size total ≡ hole_size - total = omega arith in
    rw (lt→ltb total hole_size (omega arith), at, size)

split_rest_none :
    (k : Kernel) (h hole_size total : ℕ) → total ≡ hole_size → split_rest k h hole_size total ≡ ok k
unfolding split_rest
split_rest_none k h hole_size total e = ground arith

split_rest-Split :
    (k : Kernel) (h hole_size total : ℕ) (c : Comparer)
    → k.heap.index.comparer ≡ some c
    → k.heap.index.array + 4 * (k.heap.index.size + 1) ≤ h
    → 0 < h
    → h + hole_size ≤ 4294967296
    → (total ≡ hole_size) ⊎ (total + 20 ≤ hole_size)
    → Returns (Split k h hole_size total) (split_rest k h hole_size total)
split_rest-Split k h hole_size total c e below pos fits (inl whole) =
    subst (Returns (Split k h hole_size total)) (sym (split_rest_none k h hole_size total whole))
      (λ x lo hi. refl, inl whole, refl)
split_rest-Split k h hole_size total c e below pos fits (inr part) =
    let m = rest_memory k (h + total) (hole_size - total) in
    let made =
      rest_memory_lem k (h + total) (hole_size - total) (omega arith) (omega arith) (omega arith) in
    subst (Returns (Split k h hole_size total))
      (sym (split_rest_more k h hole_size total part fits pos))
      (Returns-mono (index_insert (record k { mem = m }) (h + total))
        (λ k' f. (
          λ x lo hi. f.same x lo ∙ made.1 x hi,
          inr (
              IsHeader-Agree m k'.mem (h + total) (hole_size - total) true
                (λ x lo hi. f.same x (omega arith)) made.0),
          f.ends,
        ))
        (index_insert-KeepsFrom (record k { mem = m }) (h + total) h c e below))

-- What a successful allocation of `size` bytes from the hole at h leaves.
abbrev pub Taken : Kernel → (h size : ℕ) → Kernel × ℕ → Type 0
Taken k h size (k', ptr) =
    let hole_size = size_of k.mem h in
    let total = block_size hole_size size in
    (ptr ≡ h + 12)
    × (size + 20 ≤ total)
    × (total ≤ hole_size)
    × IsBlock k'.mem h total false
    × RestIsHole k'.mem h hole_size total
    × (k'.heap.end_addr ≡ k.heap.end_addr)

-- The hole at place i is large enough, lies above the index, and ends below 2^32.
abbrev pub IsUsableHole : Kernel → (size i : ℕ) → Type 0
IsUsableHole k size i =
    let h = indexed k i in
    (i < k.heap.index.size)
    × (size + 20 ≤ size_of k.mem h)
    × (h + size_of k.mem h ≤ 4294967296)
    × (k.heap.index.array + 4 * (k.heap.index.size + 2) ≤ h)

carve_plain :
    (k : Kernel) (i pos hole_size : ℕ)
    → carve k i pos hole_size false ≡ (index_remove k i, pos, hole_size)
unfolding carve
carve_plain k i pos hole_size = refl

pub alloc_at_plain :
    (k : Kernel) (size i : ℕ)
    → i < k.heap.index.size
    → let h = indexed k i in
      let hole_size = size_of k.mem h in
      let total = block_size hole_size size in
      let k1 = index_remove k i in
      let m1 = make_header k1.mem h total false in
      let m2 = make_footer m1 (sub32 (add32 h total) 8) h in
      alloc_at k size false i
      ≡ (split_rest (record k1 { mem = m2 }) h hole_size total >>= λ k2. ok (k2, add32 h 12))
unfolding alloc_at carve
alloc_at_plain k size i h = rw (lookup_lt k.mem k.heap.index i h)

pub index_remove_shape :
    (k : Kernel) (i : ℕ)
    → let a = k.heap.index in
      let a' = (index_remove k i).heap.index in
      (a'.array ≡ a.array) × (a'.comparer ≡ a.comparer) × (a'.size ≡ u32 (a.size + 1))
unfolding index_remove
index_remove_shape k i = ordered_array_remove_shape k.mem k.heap.index i

-- Without alignment, taking a hole that is large enough returns the address behind its header. There is
-- then a block there, in use, with a header and a footer, that holds the request; it is no larger than
-- the hole, what it leaves of the hole is a hole of its own, and the heap's end stays.
pub alloc_at-Taken :
    (k : Kernel) (size i : ℕ) (c : Comparer)
    → k.heap.index.comparer ≡ some c
    → k.heap.index.size + 2 < 4294967296
    → 0 < indexed k i
    → IsUsableHole k size i
    → Returns (Taken k (indexed k i) size) (alloc_at k size false i)
alloc_at-Taken k size i c e room pos (inside, fits, high, below) =
    let h = indexed k i in
    let hole_size = size_of k.mem h in
    let total = block_size hole_size size in
    let k1 = index_remove k i in
    let shape = index_remove_shape k i in
    let m1 = make_header k1.mem h total false in
    let f : sub32 (add32 h total) 8 ≡ h + total - 8 = omega (arith, bounds) in
    let m2 = make_footer m1 (sub32 (add32 h total) 8) h in
    let block : IsBlock m2 h total false =
      subst (λ a. IsBlock (make_footer m1 a h) h total false) (sym f)
        (make_footer-IsBlock k1.mem h total false pos (omega (arith, bounds))
          (omega (arith, bounds))) in
    subst (Returns (Taken k h size)) (sym (alloc_at_plain k size i inside)) (
      Returns-bind (Taken k h size) (split_rest (record k1 { mem = m2 }) h hole_size total)
        (λ k2. ok (k2, add32 h 12))
        (split_rest-Split (record k1 { mem = m2 }) h hole_size total c (shape.1 ∙ e)
          (omega (arith, shape)) pos high bounds.1)
        (λ k2 (same, rest, ends). (
          omega (arith, bounds),
          bounds.0,
          omega (arith, bounds),
          IsBlock-Agree m2 k2.mem h total false (omega (arith, bounds)) same block,
          rest,
          ends ∙ removed_ends,
        )))
  where
    bounds :
        (size + 20 ≤ block_size (size_of k.mem (indexed k i)) size)
        × ((block_size (size_of k.mem (indexed k i)) size ≡ size_of k.mem (indexed k i))
            ⊎ (block_size (size_of k.mem (indexed k i)) size + 20 ≤ size_of k.mem (indexed k i)))
    bounds =
        block_size_bounds (size_of k.mem (indexed k i)) size fits
          (load32-lt k.mem (indexed k i + 8))

    removed_ends : (index_remove k i).heap.end_addr ≡ k.heap.end_addr
    removed_ends = unfold index_remove in refl
