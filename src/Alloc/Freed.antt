-- ===== src/Alloc/Freed.antt =====
-- free, where nothing is merged; and what alloc hands out to it.
use studix.Base.{
  ℕ, zero, suc, ◌+◌, ◌-◌, ◌*◌, ◌%◌, ◌≤◌, ◌<◌, ◌≡◌, ◌≢◌, ◌⊎◌, refl, ap, ap₂, ◌∙◌, true, false, ◌&&◌,
  not, arith, ◌∷◌, some, Result, ok, stop, Returns, Returns-mono, Returns-bind, ◌==◌, add32, sub32,
}
use studix.Memory.{Memory, load32, store8}
use studix.Memory.Laws.{load32-same}
use studix.OrderedArray.{Comparer, ordered_array_insert, slot}
use studix.OrderedArray.Contents.{items, contents}
use studix.OrderedArray.Insert.{insert_by, ordered_array_insert-insert_by}
use studix.OrderedArray.Outside.{ordered_array_insert_outside}
use studix.Kernel.{Kernel, heap_magic}
use studix.Heap.{magic_of, is_hole, size_of, header_of, assoc_footer, header_for}
use studix.Heap.Blocks.{IsBlock, IsBlock-Agree, IsFooter-Agree, assoc_footer-IsHeader}
use studix.Heap.Search.{indexed}
use studix.Alloc.{alloc, free, unify_left, unify_right, shrink, index_insert, block_size}
use studix.Alloc.Request.{IsIndex, IsFirstFit, IsPlaced, alloc-Taken}
use studix.Alloc.Give.{LooksLikeBlock}

-- The memory in which the block at h is marked as a hole.
abbrev pub marked : Kernel → ℕ → Memory
marked k h = store8 k.mem (h + 4) 1

store8_away : (m : Memory) (a v x : ℕ) → x ≢ a → store8 m a v x ≡ m x
unfolding store8
store8_away m a v x ne = ground (arith, ne)

marked-IsBlock :
    (k : Kernel) (h size : ℕ)
    → 20 ≤ size
    → IsBlock k.mem h size false
    → IsBlock (marked k h) h size true
marked-IsBlock k h size le b = record {
  header = record {
    magic =
        load32-same k.mem (marked k h) h (λ x lo hi. store8_away k.mem (h + 4) 1 x (omega arith))
        ∙ b.header.magic;
    kind = unfold store8 in ground arith;
    extent =
        load32-same k.mem (marked k h) (h + 8)
          (λ x lo hi. store8_away k.mem (h + 4) 1 x (omega arith))
        ∙ b.header.extent;
  };
  footer =
      IsFooter-Agree k.mem (marked k h) (h + size - 8) h
        (λ x lo hi. store8_away k.mem (h + 4) 1 x (omega arith)) b.footer;
}

-- A block in use at h, with no footer twelve bytes before it, no hole behind it, and not at the end of
-- the heap.
pub record IsAlone (k : Kernel) (h size : ℕ) : Type 0 where
  pub block : IsBlock k.mem h size false
  pub large : 20 ≤ size
  pub low : 12 ≤ h
  pub high : h + size < 4294967296
  pub no_left : load32 k.mem (h - 12) ≢ heap_magic
  pub no_right : ((magic_of k.mem (h + size) == heap_magic) && is_hole k.mem (h + size)) ≡ false
  pub inner : h + size ≢ k.heap.end_addr

module _ (k : Kernel) (h size : ℕ) (alone : IsAlone k h size) where
  no_unify_left : (footer : ℕ) → unify_left (marked k h) h footer ≡ (marked k h, h)
  unfolding unify_left
  no_unify_left footer =
      let low = alone.low in
      let high = alone.high in
      let at : sub32 h 12 ≡ h - 12 = omega arith in
      let kept : load32 (marked k h) (h - 12) ≡ load32 k.mem (h - 12) =
        load32-same k.mem (marked k h) (h - 12)
          (λ x lo hi. store8_away k.mem (h + 4) 1 x (omega arith)) in
      let no : (load32 (marked k h) (h - 12) == heap_magic) ≡ false =
        ground (arith, alone.no_left, kept) in
      rw (at, no)

  no_unify_right :
      unify_right (record k { mem = marked k h }) h (h + size - 8)
      ≡ ok (record k { mem = marked k h }, h + size - 8)
  unfolding unify_right
  no_unify_right =
      let large = alone.large in
      let high = alone.high in
      let at : add32 (h + size - 8) 8 ≡ h + size = omega arith in
      let magic : magic_of (marked k h) (h + size) ≡ magic_of k.mem (h + size) =
        load32-same k.mem (marked k h) (h + size)
          (λ x lo hi. store8_away k.mem (h + 4) 1 x (omega arith)) in
      let kind : is_hole (marked k h) (h + size) ≡ is_hole k.mem (h + size) =
        ap (λ b. not (b % 256 == 0)) (store8_away k.mem (h + 4) 1 (h + size + 4) (omega arith)) in
      rw (at, magic, kind, alone.no_right)

  no_shrink :
      shrink (record k { mem = marked k h }) h (h + size - 8) ≡ ok (record k { mem = marked k h })
  unfolding shrink
  no_shrink =
      let large = alone.large in
      let high = alone.high in
      let at : add32 (h + size - 8) 8 ≡ h + size = omega arith in
      let inside : (h + size == k.heap.end_addr) ≡ false = ground (arith, alone.inner) in
      rw (at, inside)

  free_lem : free k (h + 12) ≡ index_insert (record k { mem = marked k h }) h
  unfolding free
  free_lem =
      let b = alone.block in
      let header : header_for (h + 12) ≡ h = unfold header_for in omega (arith, alone.high) in
      let footer =
        assoc_footer-IsHeader k.mem h size false b.header alone.large (omega (arith, alone.high)) in
      let leads : (header_of k.mem (h + size - 8) == h) ≡ true = ground (arith, b.footer.leads) in
      let front : (magic_of k.mem h == heap_magic) ≡ true = ground (arith, b.header.magic) in
      let back : (magic_of k.mem (h + size - 8) == heap_magic) ≡ true =
        ground (arith, b.footer.magic) in
      let given : (h + 12 == 0) ≡ false = ground arith in
      let same : (h == h) ≡ true = ground arith in
      rw (
        given,
        header,
        footer,
        leads,
        front,
        back,
        no_unify_left (h + size - 8),
        no_unify_right,
        no_shrink,
        same,
      )

-- Both of two postconditions.
Returns-both :
    {A : Type 0} (P Q : A → Type 0) (r : Result A)
    → Returns P r
    → Returns Q r
    → Returns (λ a. P a × Q a) r
Returns-both P Q (ok a) p q = (p, q)
Returns-both P Q (stop e) p q = p

-- The index says the same where its slots do.
items-same :
    (m m' : Memory) (base i n : ℕ)
    → ((x : ℕ) → x < base + 4 * (i + n) → m' x ≡ m x)
    → items m' base i n ≡ items m base i n
items-same m m' base i zero same = refl
items-same m m' base i (suc n) same =
    ap₂ ◌∷◌ (load32-same m m' (slot base i) (λ x lo hi. same x (omega arith)))
      (items-same m m' base (i + 1) n (λ x lt. same x (omega arith)))

-- What free leaves of a heap with the block at h.
abbrev pub Freed : Comparer → Kernel → (h size : ℕ) → Kernel → Type 0
Freed c k h size k' =
    IsBlock k'.mem h size true
    × (contents k'.mem k'.heap.index ≡ insert_by (c (marked k h)) h (contents k.mem k.heap.index))
    × (k'.heap.end_addr ≡ k.heap.end_addr)
    × ((x : ℕ)
        → (x < k.heap.index.array) ⊎ (k.heap.index.array + 4 * (k.heap.index.size + 1) ≤ x)
        → x ≢ h + 4
        → k'.mem x ≡ k.mem x)

-- A block in use, with no footer of a neighbour where free looks for one, no hole behind it, and not at
-- the end of the heap: free returns, the block is a hole with the header and the footer that it had, the
-- index holds it besides what it held, at the place that the comparer gives it, and nothing else in
-- memory has changed. The index lies below the block, with room for one more.
pub free-Freed :
    (k : Kernel) (h size : ℕ) (c : Comparer)
    → IsAlone k h size
    → k.heap.index.comparer ≡ some c
    → k.heap.index.size + 1 < 4294967296
    → k.heap.index.array + 4 * (k.heap.index.size + 1) ≤ h
    → Returns (Freed c k h size) (free k (h + 12))
unfolding index_insert
free-Freed k h size c alone compares room below =
    let high = alone.high in
    let index = k.heap.index in
    let m = marked k h in
    let inserted =
      Returns-both _ _ (ordered_array_insert m index h)
        (ordered_array_insert-insert_by m index c h compares (omega arith) room)
        (ordered_array_insert_outside m index c h compares) in
    let same_items : contents m index ≡ contents k.mem index =
      items-same k.mem m (index.array) 0 (index.size)
        (λ x lt. store8_away k.mem (h + 4) 1 x (omega arith)) in
    rw (free_lem k h size alone) (
      Returns-bind (Freed c k h size) (ordered_array_insert m index h) _ inserted
        λ (m', index') ((items, array, comparer), (outside, array', size')). (
          IsBlock-Agree m m' h size true alone.large (λ x lo hi. outside x (omega arith))
              (marked-IsBlock k h size alone.large alone.block),
          items ∙ ap (insert_by (c m) h) same_items,
          refl,
          λ x out ne. outside x (omega arith) ∙ store8_away k.mem (h + 4) 1 x (omega arith),
        ))

-- Where an index, with a comparer and with room for two more, has entries whose size holds an unaligned
-- request, and the first of them is a hole above the index that ends below 2^32 (and not a null
-- pointer), what alloc hands out passes the checks that free makes of it.
pub alloc-LooksLikeBlock :
    (f : ℕ) (k : Kernel) (size i : ℕ) (c : Comparer)
    → IsIndex k c
    → size + 20 < 4294967296
    → IsFirstFit k size i
    → IsPlaced k i
    → Returns (λ (k', ptr). (ptr ≢ 0) × LooksLikeBlock k' ptr) (alloc (suc f) k size false)
alloc-LooksLikeBlock f k size i c index lt first placed =
    Returns-mono (alloc (suc f) k size false)
      (λ (k', ptr) (at, holds, within, block, rest, ends).
        let h = indexed k i in
        let total = block_size (size_of k.mem h) size in
        let header : header_for ptr ≡ h = unfold header_for in omega (arith, at, placed) in
        let footer : assoc_footer k'.mem h ≡ h + total - 8 =
          assoc_footer-IsHeader k'.mem h total false block.header (omega (arith, holds))
            (omega (arith, placed, within)) in
        (
          omega (arith, at),
          rw (header, footer) (block.footer.leads, block.header.magic, block.footer.magic),
        ))
      (alloc-Taken f k size i c index lt first placed)
