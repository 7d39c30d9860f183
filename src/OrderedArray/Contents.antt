-- ===== src/OrderedArray/Contents.antt =====
-- What an ordered array holds, as a list.
use studix.Base.{ℕ, zero, suc, ◌+◌, ◌≤◌, ◌<◌, ◌≡◌, ◌⊎◌, refl, List, [], ◌∷◌, arith, length, ap₂}
use studix.Memory.{Memory, load32, store32}
use studix.Memory.Laws.{load32-store32-Apart}
use studix.OrderedArray.{OrderedArray, slot}

-- The n pointers from slot i on.
abbrev pub items : Memory → ℕ → (i n : ℕ) → List ℕ
items m base i zero = []
items m base i (suc n) = load32 m (slot base i) ∷ items m base (i + 1) n

abbrev pub contents : Memory → OrderedArray → List ℕ
contents m a = items m a.array 0 a.size

pub length-items : (m : Memory) (base i n : ℕ) → length (items m base i n) ≡ n
length-items m base i zero = refl
length-items m base i (suc n) = omega (arith, length-items m base (i + 1) n)

-- A write to a slot outside the range leaves the items.
pub items-store32 :
    (m : Memory) (base i n k v : ℕ)
    → (k < i) ⊎ (i + n ≤ k)
    → items (store32 m (slot base k) v) base i n ≡ items m base i n
items-store32 m base i zero k v h = refl
items-store32 m base i (suc n) k v h =
    ap₂ ◌∷◌ (load32-store32-Apart m (slot base k) v (slot base i) (omega arith))
      (items-store32 m base (i + 1) n k v (omega arith))
