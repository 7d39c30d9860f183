-- ===== src/OrderedArray.antt =====
-- src/misc/ordered_array.c and src/include/ordered_array.h: an array of pointers in memory, kept in
-- order by a comparer. The heap's index is one. The array's room is `max_size`, which no operation
-- looks at.
pub mod Contents
pub mod Insert
pub mod Remove
pub mod Outside
mod Tests
use studix.Base.{
  ℕ, zero, suc, ◌+◌, ◌-◌, ◌*◌, Bool, Option, none, some, Result, ok, stop, assertion, assert, ◌>>=◌,
  ◌>>◌, ltb, ◌==◌, if◌then◌else◌, add32, mul32,
}
use studix.Memory.{Memory, load32, store32}
use studix.Strings.{memset}

-- A comparer reads the memory that the pointers lead to.
abbrev pub Comparer : Type 0
Comparer = Memory → ℕ → ℕ → Bool

-- The comparer is `none` where the pointer is NULL.
pub record OrderedArray : Type 0 where
  pub array : ℕ
  pub size : ℕ
  pub max_size : ℕ
  pub comparer : Option Comparer

unfoldable pub std_comparer : Comparer
std_comparer m a b = ltb a b

-- &array[i]; a pointer has four bytes
abbrev pub slot : ℕ → ℕ → ℕ
slot base i = base + 4 * i

unfoldable pub place_ordered_array : Memory → ℕ → ℕ → Option Comparer → Memory × OrderedArray
place_ordered_array m addr max_size comparer = (
  memset m addr 0 (mul32 max_size 4),
  record { array = addr; size = 0; max_size = max_size; comparer = comparer },
)

-- `kmalloc` is given as its result: the memory that it leaves and the address that it returns.
unfoldable pub create_ordered_array :
    (ℕ → Result (Memory × ℕ)) → ℕ → Option Comparer → Result (Memory × OrderedArray)
unfolding place_ordered_array
create_ordered_array kmalloc max_size comparer = do
  (m, addr) ← kmalloc (mul32 max_size 4)
  ok (place_ordered_array m addr max_size comparer)

-- The first loop of the insertion, `left` slots before the end.
pub insert_position : Comparer → Memory → ℕ → ℕ → (left i : ℕ) → ℕ
insert_position c m base item zero i = i
insert_position c m base item (suc left) i =
    let next = insert_position c m base item left (i + 1) in
    if c m (load32 m (slot base i)) item then next else i

-- The second loop, which moves everything along from slot i on.
pub shift_along : ℕ → (left i tmp : ℕ) → Memory → Memory
shift_along base zero i tmp m = m
shift_along base (suc left) i tmp m =
    shift_along base left (i + 1) (load32 m (slot base (i + 1))) (store32 m (slot base (i + 1)) tmp)

pub insert_at : Memory → OrderedArray → ℕ → ℕ → Memory
unfolding shift_along
insert_at m a item i =
    if i == a.size
    then store32 m (slot a.array i) item
    else shift_along a.array (a.size - i) i (load32 m (slot a.array i))
        (store32 m (slot a.array i) item)

unfoldable pub ordered_array_insert : Memory → OrderedArray → ℕ → Result (Memory × OrderedArray)
unfolding insert_position insert_at
ordered_array_insert m a item = elim a.comparer [
  | none ↦ stop assertion
  | some c ↦ ok (
    insert_at m a item (insert_position c m a.array item a.size 0),
    record a { size = add32 a.size 1 },
  )
]

unfoldable pub ordered_array_lookup : Memory → OrderedArray → ℕ → Result ℕ
ordered_array_lookup m a i = do assert (ltb i a.size); ok (load32 m (slot a.array i))

-- The loop of the removal, `left` slots before the end.
pub shift_back : ℕ → (left i : ℕ) → Memory → Memory
shift_back base zero i m = m
shift_back base (suc left) i m =
    shift_back base left (i + 1) (store32 m (slot base i) (load32 m (slot base (i + 1))))

-- The size grows here too.
unfoldable pub ordered_array_remove : Memory → OrderedArray → ℕ → Memory × OrderedArray
unfolding shift_back
ordered_array_remove m a i =
    (shift_back a.array (a.size - i) i m, record a { size = add32 a.size 1 })
