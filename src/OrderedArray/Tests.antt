-- ===== src/OrderedArray/Tests.antt =====
-- An array of pointers at address 1000, and the theorems about ordered arrays there.
use studix.Base.{ℕ, ◌≡◌, refl, true, false, arith, [], ◌∷◌, some, Returns, ◌==◌, if◌then◌else◌}
use studix.Memory.{Memory, load32, store32}
use studix.OrderedArray.{OrderedArray, std_comparer, ordered_array_insert, ordered_array_remove}
use studix.OrderedArray.Contents.{items, contents}
use studix.OrderedArray.Insert.{
  insert_by, IsSorted, ordered_array_insert-insert_by, ordered_array_insert-IsSorted,
}
use studix.OrderedArray.Remove.{delete_at, ordered_array_remove-delete_at}

-- The slots hold 20, 40 and 60, and 80 stands behind them.
abbrev filled : Memory
filled x =
    if x == 1000
    then 20
    else if x == 1004
    then 40
    else if x == 1008
    then 60
    else if x == 1012
    then 80
    else 0

abbrev three : OrderedArray
three = record { array = 1000; size = 3; max_size = 8; comparer = some std_comparer }

contents-three : contents filled three ≡ 20 ∷ 40 ∷ 60 ∷ []
unfolding load32
contents-three = refl

ordered_array_insert-insert_by_example :
    Returns
      (λ (m', a').
        (contents m' a' ≡ insert_by (std_comparer filled) 50 (contents filled three))
        × (a'.array ≡ 1000)
        × (a'.comparer ≡ some std_comparer))
      (ordered_array_insert filled three 50)
ordered_array_insert-insert_by_example =
    ordered_array_insert-insert_by filled three std_comparer 50 refl (omega arith) (omega arith)

inserted : insert_by (std_comparer filled) 50 (20 ∷ 40 ∷ 60 ∷ []) ≡ 20 ∷ 40 ∷ 50 ∷ 60 ∷ []
unfolding insert_by std_comparer
inserted = refl

std_comparer_asym : (x y : ℕ) → std_comparer filled x y ≡ true → std_comparer filled y x ≡ false
unfolding std_comparer
std_comparer_asym x y h = ground arith

ordered_array_insert-IsSorted_example :
    Returns
      (λ (m', a'). IsSorted (std_comparer filled) (contents m' a'))
      (ordered_array_insert filled three 50)
unfolding std_comparer load32
ordered_array_insert-IsSorted_example =
    ordered_array_insert-IsSorted filled three std_comparer 50 refl (omega arith) (omega arith)
      std_comparer_asym (refl, (refl, tt))

ordered_array_remove-delete_at_example :
    let (m', a') = ordered_array_remove filled three 1 in
    (items m' 1000 0 3 ≡ delete_at 1 (items filled 1000 0 4)) × (a'.size ≡ 4) × (a'.array ≡ 1000)
ordered_array_remove-delete_at_example =
    ordered_array_remove-delete_at filled three 1 (omega arith) (omega arith)

removed : items (ordered_array_remove filled three 1).0 1000 0 3 ≡ 20 ∷ 60 ∷ 80 ∷ []
unfolding ordered_array_remove load32 store32
removed = refl
