-- ===== src/OrderedArray/Remove.antt =====
-- Removal, and the growth of the array by it.
use studix.Base.{ℕ, zero, suc, ◌+◌, ◌-◌, ◌<◌, ◌≡◌, refl, List, [], ◌∷◌, arith, ap₂, ap, ◌∙◌, sym}
use studix.Memory.{Memory, load32, store32}
use studix.Memory.Laws.{load32-store32, load32-store32-Apart, load32-lt}
use studix.OrderedArray.{OrderedArray, slot, shift_back, ordered_array_remove}
use studix.OrderedArray.Contents.{items, items-store32}

shift_back_below :
    (base left i : ℕ) (m : Memory) (k : ℕ)
    → k < i
    → load32 (shift_back base left i m) (slot base k) ≡ load32 m (slot base k)
unfolding shift_back
shift_back_below base zero i m k h = refl
shift_back_below base (suc left) i m k h =
    shift_back_below base left (i + 1) (store32 m (slot base i) (load32 m (slot base (i + 1)))) k
      (omega arith)
    ∙ load32-store32-Apart m (slot base i) (load32 m (slot base (i + 1))) (slot base k)
        (omega arith)

-- Slots i to i + left - 1 take what stood one further on.
shift_back-items :
    (base left i : ℕ) (m : Memory)
    → items (shift_back base left i m) base i left ≡ items m base (i + 1) left
unfolding shift_back
shift_back-items base zero i m = refl
shift_back-items base (suc left) i m =
    let v = load32 m (slot base (i + 1)) in
    let m1 = store32 m (slot base i) v in
    ap₂ ◌∷◌
      (shift_back_below base left (i + 1) m1 i (omega arith)
        ∙ load32-store32 m (slot base i) v (load32-lt m (slot base (i + 1))))
      (shift_back-items base left (i + 1) m1
        ∙ items-store32 m base (i + 1 + 1) left i v (omega arith))

-- The list without its entry at place i.
unfoldable pub delete_at : ℕ → List ℕ → List ℕ
delete_at i [] = []
delete_at zero (x ∷ xs) = xs
delete_at (suc i) (x ∷ xs) = x ∷ delete_at i xs

-- The first k slots stay, and those behind them move down by one.
remove_from :
    (m : Memory) (base k i left : ℕ)
    → items (shift_back base left (i + k) m) base i (k + left)
      ≡ delete_at k (items m base i (suc (k + left)))
unfolding delete_at
remove_from m base zero i left =
    let e : i + 0 ≡ i = omega arith in
    let n : 0 + left ≡ left = omega arith in
    ap₂ (λ j n. items (shift_back base left j m) base i n) e n
    ∙ shift_back-items base left i m
    ∙ ap (λ n. items m base (i + 1) n) (sym n)
remove_from m base (suc k) i left =
    let e : i + suc k ≡ i + 1 + k = omega arith in
    let n : suc k + left ≡ suc (k + left) = omega arith in
    ap (λ n. items (shift_back base left (i + suc k) m) base i n) n
    ∙ ap₂ ◌∷◌ (shift_back_below base left (i + suc k) m i (omega arith)) (
        ap (λ j. items (shift_back base left j m) base (i + 1) (k + left)) e
        ∙ remove_from m base k (i + 1) left)
    ∙ ap (λ n. delete_at (suc k) (items m base i (suc n))) (sym n)

-- ordered_array_remove drops the entry at place i and moves those behind it down by one, the slot
-- behind the last among them. The array it leaves counts one item more than before, not one fewer.
pub ordered_array_remove-delete_at :
    (m : Memory) (a : OrderedArray) (i : ℕ)
    → i < a.size
    → a.size + 1 < 4294967296
    → let (m', a') = ordered_array_remove m a i in
      (items m' a.array 0 a.size ≡ delete_at i (items m a.array 0 (suc a.size)))
      × (a'.size ≡ a.size + 1)
      × (a'.array ≡ a.array)
unfolding ordered_array_remove
ordered_array_remove-delete_at m a i h room =
    let n : i + (a.size - i) ≡ a.size = omega arith in
    let j : 0 + i ≡ i = omega arith in
    (
      ap₂ (λ k n. items (shift_back a.array (a.size - i) k m) a.array 0 n) (sym j) (sym n)
          ∙ remove_from m a.array i 0 (a.size - i)
          ∙ ap (λ n. delete_at i (items m a.array 0 (suc n))) n,
      omega arith,
      refl,
    )

-- Removing the only entry copies what stands behind it into its slot.
pub ordered_array_remove_only :
    (m : Memory) (a : OrderedArray)
    → a.size ≡ 1
    → let m' = (ordered_array_remove m a 0).0 in
      (load32 m' (slot a.array 0) ≡ load32 m (slot a.array 1))
      × (load32 m' (slot a.array 1) ≡ load32 m (slot a.array 1))
unfolding ordered_array_remove shift_back
ordered_array_remove_only m a single =
    let next = load32 m (slot a.array 1) in
    rw single (
      load32-store32 m (slot a.array 0) next (load32-lt m (slot a.array 1)),
      load32-store32-Apart m (slot a.array 0) next (slot a.array 1) (omega arith),
    )
