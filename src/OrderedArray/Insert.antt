-- ===== src/OrderedArray/Insert.antt =====
-- Insertion against insertion into a list.
use studix.Base.{
  ℕ, zero, suc, ◌+◌, ◌-◌, ◌≤◌, ◌<◌, ◌≡◌, ◌⊎◌, refl, List, [], ◌∷◌, arith, ap₂, ap, ◌∙◌, sym, Bool,
  true, false, some, ok, if◌then◌else◌, ◌==◌, Returns, inl, inr, Bool-cases, subst, u32,
  Returns-mono,
}
use studix.Memory.{Memory, load32, store32}
use studix.Memory.Laws.{load32-store32, load32-store32-Apart, load32-lt, store32_outside}
use studix.OrderedArray.{
  OrderedArray, slot, Comparer, insert_position, shift_along, insert_at, ordered_array_insert,
}
use studix.OrderedArray.Contents.{items, contents, items-store32}

-- Only the slots i + 1 to i + left are written.
pub shift_along_outside :
    (base left i tmp : ℕ) (m : Memory) (x : ℕ)
    → (x < slot base (i + 1)) ⊎ (slot base (i + 1 + left) ≤ x)
    → shift_along base left i tmp m x ≡ m x
unfolding shift_along
shift_along_outside base zero i tmp m x h = refl
shift_along_outside base (suc left) i tmp m x h =
    shift_along_outside base left (i + 1) (load32 m (slot base (i + 1)))
      (store32 m (slot base (i + 1)) tmp) x (omega arith)
    ∙ store32_outside m (slot base (i + 1)) tmp x (omega arith)

shift_along_below :
    (base left i tmp : ℕ) (m : Memory) (k : ℕ)
    → k ≤ i
    → load32 (shift_along base left i tmp m) (slot base k) ≡ load32 m (slot base k)
unfolding shift_along
shift_along_below base zero i tmp m k h = refl
shift_along_below base (suc left) i tmp m k h =
    shift_along_below base left (i + 1) (load32 m (slot base (i + 1)))
      (store32 m (slot base (i + 1)) tmp) k (omega arith)
    ∙ load32-store32-Apart m (slot base (i + 1)) tmp (slot base k) (omega arith)

-- The rest of the array moves up by one slot, behind `tmp`.
shift_along-items :
    (base left i tmp : ℕ) (m : Memory)
    → tmp < 4294967296
    → items (shift_along base (suc left) i tmp m) base (i + 1) (suc left)
      ≡ tmp ∷ items m base (i + 1) left
unfolding shift_along
shift_along-items base zero i tmp m h =
    ap (λ v. v ∷ []) (load32-store32 m (slot base (i + 1)) tmp h)
shift_along-items base (suc k) i tmp m h =
    let next = load32 m (slot base (i + 1)) in
    let m1 = store32 m (slot base (i + 1)) tmp in
    ap₂ ◌∷◌
      (shift_along_below base (suc k) (i + 1) next m1 (i + 1) (omega arith)
        ∙ load32-store32 m (slot base (i + 1)) tmp h)
      (shift_along-items base k (i + 1) next m1 (load32-lt m (slot base (i + 1)))
        ∙ ap (λ (l : List ℕ). next ∷ l)
            (items-store32 m base (i + 1 + 1) k (i + 1) tmp (omega arith)))

-- Insertion before the first item that does not come before x.
unfoldable pub insert_by : (ℕ → ℕ → Bool) → ℕ → List ℕ → List ℕ
insert_by before x [] = x ∷ []
insert_by before x (y ∷ ys) = if before y x then y ∷ insert_by before x ys else x ∷ y ∷ ys

pub insert_position_bounds :
    (c : Comparer) (m : Memory) (base item left i : ℕ)
    → (i ≤ insert_position c m base item left i) × (insert_position c m base item left i ≤ i + left)
unfolding insert_position
insert_position_bounds c m base item zero i = omega arith
insert_position_bounds c m base item (suc left) i =
    ground (arith, insert_position_bounds c m base item left (i + 1))

-- Slots below the position keep their items.
insert_at_below :
    (m : Memory) (a : OrderedArray) (item i k : ℕ)
    → k < i
    → load32 (insert_at m a item i) (slot a.array k) ≡ load32 m (slot a.array k)
unfolding insert_at
insert_at_below m a item i k h =
    let first = load32-store32-Apart m (slot a.array i) item (slot a.array k) (omega arith) in
    elim (Bool-cases (i == a.size)) [
      | inl e ↦ rw e first
      | inr e ↦ rw e (
          shift_along_below a.array (a.size - i) i (load32 m (slot a.array i))
            (store32 m (slot a.array i) item) k (omega arith)
          ∙ first)
    ]

insert_at_shift :
    (m : Memory) (a : OrderedArray) (item i left : ℕ)
    → i + suc left ≡ a.size
    → insert_at m a item i
      ≡ shift_along a.array
          (suc left)
          i
          (load32 m (slot a.array i))
          (store32 m (slot a.array i) item)
unfolding insert_at
insert_at_shift m a item i left e =
    let later : (i == a.size) ≡ false = ground arith in
    let rounds : a.size - i ≡ suc left = omega arith in rw (later, rounds)

-- At a slot before the end the item is put there and the others move up behind it.
insert_at_middle :
    (m : Memory) (a : OrderedArray) (item i left : ℕ)
    → i + suc left ≡ a.size
    → item < 4294967296
    → items (insert_at m a item i) a.array i (suc (suc left)) ≡ item ∷ items m a.array i (suc left)
insert_at_middle m a item i left e h =
    let base = a.array in
    let m1 = store32 m (slot base i) item in
    let old = load32 m (slot base i) in
    ap (λ m'. items m' base i (suc (suc left))) (insert_at_shift m a item i left e)
    ∙ ap₂ ◌∷◌
        (shift_along_below base (suc left) i old m1 i (omega arith)
          ∙ load32-store32 m (slot base i) item h)
        (shift_along-items base left i old m1 (load32-lt m (slot base i))
          ∙ ap (λ (l : List ℕ). old ∷ l) (items-store32 m base (i + 1) left i item (omega arith)))

insert_at_end :
    (m : Memory) (a : OrderedArray) (item : ℕ)
    → item < 4294967296
    → items (insert_at m a item a.size) a.array a.size 1 ≡ item ∷ []
unfolding insert_at
insert_at_end m a item h =
    let last : (a.size == a.size) ≡ true = ground arith in
    rw last (ap (λ v. v ∷ []) (load32-store32 m (slot a.array a.size) item h))

insert_position_next :
    (c : Comparer) (m : Memory) (base item left i : ℕ)
    → c m (load32 m (slot base i)) item ≡ true
    → insert_position c m base item (suc left) i ≡ insert_position c m base item left (i + 1)
unfolding insert_position
insert_position_next c m base item left i h = rw h

insert_position_here :
    (c : Comparer) (m : Memory) (base item left i : ℕ)
    → c m (load32 m (slot base i)) item ≡ false
    → insert_position c m base item (suc left) i ≡ i
unfolding insert_position
insert_position_here c m base item left i h = rw h

insert_by_next :
    (before : ℕ → ℕ → Bool) (x y : ℕ) (ys : List ℕ)
    → before y x ≡ true
    → insert_by before x (y ∷ ys) ≡ y ∷ insert_by before x ys
unfolding insert_by
insert_by_next before x y ys h = rw h

insert_by_here :
    (before : ℕ → ℕ → Bool) (x y : ℕ) (ys : List ℕ)
    → before y x ≡ false
    → insert_by before x (y ∷ ys) ≡ x ∷ y ∷ ys
unfolding insert_by
insert_by_here before x y ys h = rw h

insert_from :
    (c : Comparer) (m : Memory) (a : OrderedArray) (item left i : ℕ)
    → i + left ≡ a.size
    → item < 4294967296
    → items (insert_at m a item (insert_position c m a.array item left i)) a.array i (suc left)
      ≡ insert_by (c m) item (items m a.array i left)
unfolding insert_position insert_by
insert_from c m a item zero i e h =
    let e' : i ≡ a.size = omega arith in
    ap (λ j. items (insert_at m a item j) a.array j 1) e' ∙ insert_at_end m a item h
insert_from c m a item (suc left) i e h = elim (Bool-cases (c m (load32 m (slot a.array i)) item)) [
  | inl before ↦
      let j = insert_position c m a.array item left (i + 1) in
      ap (λ k. items (insert_at m a item k) a.array i (suc (suc left)))
        (insert_position_next c m a.array item left i before)
      ∙ ap₂ ◌∷◌
          (insert_at_below m a item j i
            (omega (arith, insert_position_bounds c m a.array item left (i + 1))))
          (insert_from c m a item left (i + 1) (omega arith) h)
      ∙ sym (insert_by_next (c m) item _ _ before)
  | inr stays ↦
      ap (λ k. items (insert_at m a item k) a.array i (suc (suc left)))
        (insert_position_here c m a.array item left i stays)
      ∙ insert_at_middle m a item i left e h
      ∙ sym (insert_by_here (c m) item _ _ stays)
]

-- With room for one more in a 32-bit size, ordered_array_insert returns, and the array then holds the
-- list that insertion before the first item not before the new one gives.
pub ordered_array_insert-insert_by :
    (m : Memory) (a : OrderedArray) (c : Comparer) (item : ℕ)
    → a.comparer ≡ some c
    → item < 4294967296
    → a.size + 1 < 4294967296
    → Returns
        (λ (m', a').
          (contents m' a' ≡ insert_by (c m) item (contents m a))
          × (a'.array ≡ a.array)
          × (a'.comparer ≡ a.comparer))
        (ordered_array_insert m a item)
unfolding ordered_array_insert
ordered_array_insert-insert_by m a c item e h room =
    let grown : u32 (a.size + 1) ≡ suc a.size = omega arith in
    rw e (rw grown (insert_from c m a item a.size 0 (omega arith) h), refl, refl)

-- No two neighbours stand in the wrong order.
abbrev pub IsSorted : (ℕ → ℕ → Bool) → List ℕ → Type 0
IsSorted before [] = Unit {0}
IsSorted before (x ∷ []) = Unit {0}
IsSorted before (x ∷ y ∷ ys) = (before y x ≡ false) × IsSorted before (y ∷ ys)

-- Putting x behind y does not disturb the order, wherever among ys it goes.
insert_by-cons-IsSorted :
    (before : ℕ → ℕ → Bool) (x y : ℕ) (ys : List ℕ)
    → (before y x ≡ true → before x y ≡ false)
    → before y x ≡ true
    → IsSorted before (y ∷ ys)
    → IsSorted before (insert_by before x ys)
    → IsSorted before (y ∷ insert_by before x ys)
unfolding insert_by
insert_by-cons-IsSorted before x y [] asym b s r = (asym b, tt)
insert_by-cons-IsSorted before x y (z ∷ zs) asym b s r = elim (Bool-cases (before z x)) [
  | inl e ↦ rw e (s.0, rw e at r)
  | inr e ↦ rw e (asym b, rw e at r)
]

IsSorted-tail :
    (before : ℕ → ℕ → Bool) (y : ℕ) (ys : List ℕ) → IsSorted before (y ∷ ys) → IsSorted before ys
IsSorted-tail before y [] s = tt
IsSorted-tail before y (z ∷ zs) s = s.1

-- If no two items come before each other, insertion into a sorted list keeps it sorted.
pub insert_by-IsSorted :
    (before : ℕ → ℕ → Bool) (x : ℕ) (ys : List ℕ)
    → ((a b : ℕ) → before a b ≡ true → before b a ≡ false)
    → IsSorted before ys
    → IsSorted before (insert_by before x ys)
unfolding insert_by
insert_by-IsSorted before x [] asym s = tt
insert_by-IsSorted before x (y ∷ ys) asym s = elim (Bool-cases (before y x)) [
  | inl e ↦ rw e (
      insert_by-cons-IsSorted before x y ys (asym y x) e s
        (insert_by-IsSorted before x ys asym (IsSorted-tail before y ys s)))
  | inr e ↦ rw e (e, s)
]

-- An array in the comparer's order is in that order after ordered_array_insert, if the comparer never
-- holds both ways. The order is that of the memory before the insertion.
pub ordered_array_insert-IsSorted :
    (m : Memory) (a : OrderedArray) (c : Comparer) (item : ℕ)
    → a.comparer ≡ some c
    → item < 4294967296
    → a.size + 1 < 4294967296
    → ((x y : ℕ) → c m x y ≡ true → c m y x ≡ false)
    → IsSorted (c m) (contents m a)
    → Returns (λ (m', a'). IsSorted (c m) (contents m' a')) (ordered_array_insert m a item)
ordered_array_insert-IsSorted m a c item e h room asym s =
    Returns-mono (ordered_array_insert m a item)
      (λ r p.
        subst (IsSorted (c m)) (sym p.0) (insert_by-IsSorted (c m) item (contents m a) asym s))
      (ordered_array_insert-insert_by m a c item e h room)

-- The first item of an array goes to its first slot.
pub ordered_array_insert_first :
    (m : Memory) (base max item : ℕ) (c : Comparer)
    → ordered_array_insert m
        record { array = base; size = 0; max_size = max; comparer = some c }
        item
      ≡ ok (
        store32 m (slot base 0) item,
        record { array = base; size = 1; max_size = max; comparer = some c },
      )
unfolding ordered_array_insert insert_position insert_at
ordered_array_insert_first m base max item c = refl
