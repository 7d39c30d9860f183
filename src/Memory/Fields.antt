-- ===== src/Memory/Fields.antt =====
-- The fields of a struct, stored one after the other: words at multiples of 4.
use studix.Base.{
  ℕ, ◌+◌, ◌*◌, ◌≤◌, ◌≡◌, ◌⊎◌, inl, inr, refl, ap, subst, sym, ◌∙◌, List, [], ◌∷◌, arith, u32, ◌==◌,
  if◌then◌else◌, Bool-cases, ==_iff, Bool, true, ◌&&◌, leb, ltb, ◌<◌,
}
use studix.Memory.{Memory, load32, store32}
use studix.Memory.Laws.{load32-store32_wrap, load32-store32-Apart, store32_outside}

-- Word q of the struct at `base` gets its value, for each of the pairs in order.
abbrev pub store_fields : (base : ℕ) → List (ℕ × ℕ) → Memory → Memory
store_fields base [] m = m
store_fields base ((q, v) ∷ fields) m = store_fields base fields (store32 m (base + 4 * q) v)

-- The value that word q has in the end, where it is d to begin with.
abbrev pub field : List (ℕ × ℕ) → (q d : ℕ) → ℕ
field [] q d = d
field ((q', v) ∷ fields) q d = field fields q (if q' == q then u32 v else d)

-- All the words lie between lo and hi.
abbrev pub all_between : (lo hi : ℕ) → List (ℕ × ℕ) → Bool
all_between lo hi [] = true
all_between lo hi ((q, v) ∷ fields) = leb lo q && ltb q hi && all_between lo hi fields

one_field :
    (m : Memory) (base q' v q : ℕ)
    → load32 (store32 m (base + 4 * q') v) (base + 4 * q)
      ≡ (if q' == q then u32 v else load32 m (base + 4 * q))
one_field m base q' v q = elim (Bool-cases (q' == q)) [
  | inl same ↦
      let e : q' ≡ q = (==_iff q' q).0 same in
      rw (same) (
        subst (λ i. load32 (store32 m (base + 4 * i) v) (base + 4 * q) ≡ u32 v) (sym e)
          (load32-store32_wrap m (base + 4 * q) v))
  | inr other ↦ rw (other) (load32-store32-Apart m (base + 4 * q') v (base + 4 * q) ground arith)
]

pub load32-store_fields :
    (base : ℕ) (fields : List (ℕ × ℕ)) (m : Memory) (q : ℕ)
    → load32 (store_fields base fields m) (base + 4 * q) ≡ field fields q (load32 m (base + 4 * q))
load32-store_fields base [] m q = refl
load32-store_fields base ((q', v) ∷ fields) m q =
    load32-store_fields base fields (store32 m (base + 4 * q') v) q
    ∙ ap (λ d. field fields q d) (one_field m base q' v q)

pub store_fields_outside :
    (base : ℕ) (fields : List (ℕ × ℕ)) (m : Memory) (lo hi x : ℕ)
    → all_between lo hi fields ≡ true
    → x < base + 4 * lo ⊎ (base + 4 * hi ≤ x)
    → store_fields base fields m x ≡ m x
store_fields_outside base [] m lo hi x b away = refl
store_fields_outside base ((q, v) ∷ fields) m lo hi x b away =
    let here : (leb lo q && ltb q hi) ≡ true = ground arith in
    let rest : all_between lo hi fields ≡ true = ground arith in
    let low : lo ≤ q = ground arith in
    let high : q < hi = ground arith in
    store_fields_outside base fields (store32 m (base + 4 * q) v) lo hi x rest away
    ∙ store32_outside m (base + 4 * q) v x (omega arith)
