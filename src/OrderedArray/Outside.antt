-- ===== src/OrderedArray/Outside.antt =====
-- What the operations on an ordered array leave alone: all memory outside its slots.
use studix.Base.{
  ℕ, zero, suc, ◌+◌, ◌-◌, ◌*◌, ◌≤◌, ◌<◌, ◌≡◌, ◌⊎◌, refl, arith, ◌∙◌, Bool-cases, inl, inr, ◌==◌,
  some, Returns, u32,
}
use studix.Memory.{Memory, load32, store32}
use studix.Memory.Laws.{store32_outside}
use studix.OrderedArray.{
  OrderedArray, slot, Comparer, insert_position, insert_at, ordered_array_insert, shift_back,
  ordered_array_remove,
}
use studix.OrderedArray.Insert.{shift_along_outside, insert_position_bounds}

-- x is no byte of the n slots of the array at base.
abbrev pub OutsideSlots : (base n x : ℕ) → Type 0
OutsideSlots base n x = (x < base) ⊎ (base + 4 * n ≤ x)

insert_at_outside :
    (m : Memory) (a : OrderedArray) (item i x : ℕ)
    → i ≤ a.size
    → OutsideSlots a.array (a.size + 1) x
    → insert_at m a item i x ≡ m x
unfolding insert_at
insert_at_outside m a item i x le out =
    let first = store32_outside m (slot a.array i) item x (omega arith) in
    elim (Bool-cases (i == a.size)) [
      | inl e ↦ rw e first
      | inr e ↦ rw e (
          shift_along_outside a.array (a.size - i) i (load32 m (slot a.array i))
            (store32 m (slot a.array i) item) x (omega arith)
          ∙ first)
    ]

-- ordered_array_insert writes no byte outside the slots that the array has afterwards.
pub ordered_array_insert_outside :
    (m : Memory) (a : OrderedArray) (c : Comparer) (item : ℕ)
    → a.comparer ≡ some c
    → Returns
        (λ (m', a').
          ((x : ℕ) → OutsideSlots a.array (a.size + 1) x → m' x ≡ m x)
          × (a'.array ≡ a.array)
          × (a'.size ≡ u32 (a.size + 1)))
        (ordered_array_insert m a item)
unfolding ordered_array_insert
ordered_array_insert_outside m a c item e = rw e (
  λ x out.
      insert_at_outside m a item (insert_position c m a.array item a.size 0) x
        (omega (arith, insert_position_bounds c m a.array item a.size 0)) out,
  refl,
  refl,
)

shift_back_outside :
    (base left i : ℕ) (m : Memory) (x : ℕ)
    → OutsideSlots base (i + left) x
    → shift_back base left i m x ≡ m x
unfolding shift_back
shift_back_outside base zero i m x out = refl
shift_back_outside base (suc left) i m x out =
    shift_back_outside base left (i + 1) (store32 m (slot base i) (load32 m (slot base (i + 1)))) x
      (omega arith)
    ∙ store32_outside m (slot base i) (load32 m (slot base (i + 1))) x (omega arith)

-- ordered_array_remove writes no byte outside the slots that the array had.
pub ordered_array_remove_outside :
    (m : Memory) (a : OrderedArray) (i x : ℕ)
    → i ≤ a.size
    → OutsideSlots a.array a.size x
    → (ordered_array_remove m a i).0 x ≡ m x
unfolding ordered_array_remove
ordered_array_remove_outside m a i x le out =
    shift_back_outside a.array (a.size - i) i m x (omega arith)

pub ordered_array_remove_shape :
    (m : Memory) (a : OrderedArray) (i : ℕ)
    → let a' = (ordered_array_remove m a i).1 in
      (a'.array ≡ a.array) × (a'.comparer ≡ a.comparer) × (a'.size ≡ u32 (a.size + 1))
unfolding ordered_array_remove
ordered_array_remove_shape m a i = (refl, refl, refl)
