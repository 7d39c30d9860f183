-- ===== src/Alloc/Request.antt =====
-- alloc as a whole, where a hole is large enough.
use studix.Base.{
  ℕ, suc, ◌+◌, ◌*◌, ◌≤◌, ◌<◌, ◌≡◌, refl, Bool, true, false, arith, Option, none, some, ok, stop,
  Result, Returns, ap, ◌∙◌, leb, add32, sym, subst,
}
use studix.OrderedArray.{Comparer}
use studix.Kernel.{Kernel}
use studix.Heap.{size_of, hole_fits, find_smallest_hole}
use studix.Heap.Search.{indexed, FirstPlace, find_smallest_hole-FirstPlace}
use studix.Alloc.{alloc, alloc_at}
use studix.Alloc.Take.{Taken, alloc_at-Taken}

-- The index has a comparer and room for two more.
pub record IsIndex (k : Kernel) (c : Comparer) : Type 0 where
  pub compares : k.heap.index.comparer ≡ some c
  pub room : k.heap.index.size + 2 < 4294967296

-- Entry i leads to a hole above the index, and not to NULL; the hole ends below 2^32.
abbrev pub IsPlaced : Kernel → (i : ℕ) → Type 0
IsPlaced k i =
    (0 < indexed k i)
    × (indexed k i + size_of k.mem (indexed k i) ≤ 4294967296)
    × (k.heap.index.array + 4 * (k.heap.index.size + 2) ≤ indexed k i)

-- A hole that holds size bytes with a header and a footer.
abbrev pub Holds : Kernel → (size i : ℕ) → Type 0
Holds k size i = size + 20 ≤ size_of k.mem (indexed k i)

-- The first place in the index whose hole holds the request.
abbrev pub IsFirstFit : Kernel → (size i : ℕ) → Type 0
IsFirstFit k size i =
    (i < k.heap.index.size)
    × Holds k size i
    × ((j : ℕ) → j < i → size_of k.mem (indexed k j) < size + 20)

alloc_found :
    (f : ℕ) (k : Kernel) (size i : ℕ) (align : Bool)
    → find_smallest_hole k (add32 size 20) align ≡ ok (some i)
    → alloc (suc f) k size align ≡ alloc_at k size align i
unfolding alloc
alloc_found f k size i align e = rw e

fits_plain :
    (k : Kernel) (size i : ℕ) (b : Bool)
    → size + 20 < 4294967296
    → hole_fits k.mem (indexed k i) (add32 size 20) false ≡ b
    → leb (size + 20) (size_of k.mem (indexed k i)) ≡ b
unfolding hole_fits
fits_plain k size i b lt e = ground arith

-- The search ends at the first fit, if there is a fit at all.
found_first :
    (k : Kernel) (size j : ℕ) (r : Result (Option ℕ))
    → size + 20 < 4294967296
    → j < k.heap.index.size
    → Holds k size j
    → Returns
        (FirstPlace (λ j. hole_fits k.mem (indexed k j) (add32 size 20) false) 0 k.heap.index.size)
        r
    → (i : ℕ) × (r ≡ ok (some i)) × IsFirstFit k size i
found_first k size j (ok none) lt in_index fits p =
    absurd (ground (arith, fits_plain k size j false lt (p j (omega arith) in_index)))
found_first k size j (ok (some i)) lt in_index fits p = (
  i,
  refl,
  (
    p.1,
    ground (arith, fits_plain k size i true lt p.2),
    λ n below. ground (arith, fits_plain k size n false lt (p.3 n (omega arith) below)),
  ),
)
found_first k size j (stop s) lt in_index fits p = absurd p

-- alloc then works on that hole.
pub alloc-alloc_at :
    (f : ℕ) (k : Kernel) (size i : ℕ)
    → size + 20 < 4294967296
    → IsFirstFit k size i
    → alloc (suc f) k size false ≡ alloc_at k size false i
alloc-alloc_at f k size i lt (inside, holds, least) =
    let (j, found, (inside', holds', least')) =
      found_first k size i (find_smallest_hole k (add32 size 20) false) lt inside holds
        (find_smallest_hole-FirstPlace k (add32 size 20) false) in
    let same : j ≡ i = ground (arith, least j, least' i) in
    alloc_found f k size j false found ∙ ap (alloc_at k size false) same

-- Where an index, with a comparer and with room for two more, has entries whose size holds an unaligned
-- request, and the first of them is a hole above the index that ends below 2^32, alloc needs no further
-- space: it takes that hole, and returns the address behind its header. There is then a block there, in
-- use, with a header and a footer, that holds the request; it is no larger than the hole, what it leaves
-- of the hole is a hole of its own, and the heap's end stays. A null pointer in the index counts as an
-- entry too, with the word at 8 for its size; where that holds the request before a hole does, nothing
-- is said.
pub alloc-Taken :
    (f : ℕ) (k : Kernel) (size i : ℕ) (c : Comparer)
    → IsIndex k c
    → size + 20 < 4294967296
    → IsFirstFit k size i
    → IsPlaced k i
    → Returns (Taken k (indexed k i) size) (alloc (suc f) k size false)
alloc-Taken f k size i c index lt first (pos, high, below) =
    subst (Returns (Taken k (indexed k i) size)) (sym (alloc-alloc_at f k size i lt first))
      (alloc_at-Taken k size i c index.compares index.room pos (first.0, first.1, high, below))
