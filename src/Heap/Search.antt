-- ===== src/Heap/Search.antt =====
-- The searches through the index of the heap.
use studix.Base.{
  ℕ, zero, suc, ◌+◌, ◌≤◌, ◌<◌, ◌≡◌, inl, inr, refl, Bool, true, false, arith, ◌==◌, lt→ltb, leb,
  Option, some, none, ok, Returns, Returns-mono, Bool-cases,
}
use studix.Memory.{Memory, load32}
use studix.Memory.Laws.{load32-lt}
use studix.OrderedArray.{OrderedArray, slot, ordered_array_lookup}
use studix.Kernel.{Kernel}
use studix.Heap.{
  size_of, align_offset, hole_fits, find_hole_loop, find_smallest_hole, find_header_loop,
  find_header_index,
}

-- The header that entry i of the index leads to.
abbrev pub indexed : Kernel → ℕ → ℕ
indexed k i = load32 k.mem (slot k.heap.index.array i)

pub lookup_lt :
    (m : Memory) (a : OrderedArray) (i : ℕ)
    → i < a.size
    → ordered_array_lookup m a i ≡ ok (load32 m (slot a.array i))
unfolding ordered_array_lookup
lookup_lt m a i h = rw (lt→ltb i a.size h)

-- The first place from lo on and below hi that passes the test, if there is one.
abbrev pub FirstPlace : (ℕ → Bool) → (lo hi : ℕ) → Option ℕ → Type 0
FirstPlace p lo hi none = (j : ℕ) → lo ≤ j → j < hi → p j ≡ false
FirstPlace p lo hi (some i) =
    (lo ≤ i) × (i < hi) × (p i ≡ true) × ((j : ℕ) → lo ≤ j → j < i → p j ≡ false)

FirstPlace-next :
    (p : ℕ → Bool) (lo hi : ℕ) (o : Option ℕ)
    → p lo ≡ false
    → FirstPlace p (lo + 1) hi o
    → FirstPlace p lo hi o
FirstPlace-next p lo hi none e h = λ j q r. elim (Bool-cases (j == lo)) [
  | inl at ↦ let same : j ≡ lo = ground arith in rw same e
  | inr past ↦ h j (ground arith) r
]
FirstPlace-next p lo hi (some i) e h = (
  omega arith,
  h.1,
  h.2,
  λ j q r. elim (Bool-cases (j == lo)) [
    | inl at ↦ let same : j ≡ lo = ground arith in rw same e
    | inr past ↦ h.3 j (ground arith) r
  ],
)

find_hole_loop-FirstPlace :
    (k : Kernel) (size : ℕ) (align : Bool) (left i : ℕ)
    → i + left ≡ k.heap.index.size
    → Returns
        (FirstPlace (λ j. hole_fits k.mem (indexed k j) size align) i (i + left))
        (find_hole_loop k size align left i)
unfolding find_hole_loop
find_hole_loop-FirstPlace k size align zero i e = λ j lo hi. absurd (omega arith)
find_hole_loop-FirstPlace k size align (suc left) i e =
    let rest = find_hole_loop-FirstPlace k size align left (i + 1) (omega arith) in
    let n : i + 1 + left ≡ i + suc left = omega arith in
    rw (lookup_lt k.mem k.heap.index i (omega arith))
      (elim (Bool-cases (hole_fits k.mem (indexed k i) size align)) [
        | inl fits ↦ rw fits (omega arith, omega arith, fits, λ j lo hi. absurd (omega arith))
        | inr more ↦ rw more (
            Returns-mono (find_hole_loop k size align left (i + 1))
              (λ o h. FirstPlace-next _ i (i + suc left) o more (rw n at h)) rest)
      ])

-- find_smallest_hole returns the place of the first header in the index that passes its test, and -1
-- exactly when none does.
pub find_smallest_hole-FirstPlace :
    (k : Kernel) (size : ℕ) (align : Bool)
    → Returns
        (FirstPlace (λ j. hole_fits k.mem (indexed k j) size align) 0 k.heap.index.size)
        (find_smallest_hole k size align)
unfolding find_smallest_hole
find_smallest_hole-FirstPlace k size align =
    let n : 0 + k.heap.index.size ≡ k.heap.index.size = omega arith in
    rw n at (find_hole_loop-FirstPlace k size align k.heap.index.size 0 n)

find_header_loop-FirstPlace :
    (k : Kernel) (header left i : ℕ)
    → i + left ≡ k.heap.index.size
    → Returns
        (FirstPlace (λ j. indexed k j == header) i (i + left))
        (find_header_loop k header left i)
unfolding find_header_loop
find_header_loop-FirstPlace k header zero i e = λ j lo hi. absurd (omega arith)
find_header_loop-FirstPlace k header (suc left) i e =
    let rest = find_header_loop-FirstPlace k header left (i + 1) (omega arith) in
    let n : i + 1 + left ≡ i + suc left = omega arith in
    rw (lookup_lt k.mem k.heap.index i (omega arith)) (elim (Bool-cases (indexed k i == header)) [
      | inl same ↦ rw same (omega arith, omega arith, same, λ j lo hi. absurd (omega arith))
      | inr more ↦ rw more (
          Returns-mono (find_header_loop k header left (i + 1))
            (λ o h. FirstPlace-next _ i (i + suc left) o more (rw n at h)) rest)
    ])

-- find_header_index returns the first place of the header in the index, and -1 exactly when it
-- is not there.
pub find_header_index-FirstPlace :
    (k : Kernel) (header : ℕ)
    → Returns
        (FirstPlace (λ j. indexed k j == header) 0 k.heap.index.size)
        (find_header_index k header)
unfolding find_header_index
find_header_index-FirstPlace k header =
    let n : 0 + k.heap.index.size ≡ k.heap.index.size = omega arith in
    rw n at (find_header_loop-FirstPlace k header k.heap.index.size 0 n)

-- Without alignment the test is that the hole is large enough. With it, a hole that is larger than the
-- bytes skipped must hold the block behind them.
pub hole_fits_exact :
    (m : Memory) (h size : ℕ)
    → align_offset h ≤ size_of m h
    → (hole_fits m h size false ≡ leb size (size_of m h))
      × (hole_fits m h size true ≡ leb (size + align_offset h) (size_of m h))
unfolding hole_fits
hole_fits_exact m h size le = (refl, ground (arith, load32-lt m (h + 8)))

-- A hole that is smaller than the bytes to be skipped passes the test of an aligned request, whatever
-- its size up to 2^32 - 4096, since the subtraction wraps.
hole_fits_wraps :
    (m : Memory) (h size : ℕ)
    → size_of m h < align_offset h
    → size ≤ 4294963200
    → hole_fits m h size true ≡ true
unfolding hole_fits align_offset
hole_fits_wraps m h size lt le = ground arith
