-- ===== src/Strings/Text.antt =====
-- strlen, strcpy and strcmp on terminated texts.
use mathlib.Core.Path.{subst}
use studix.Base.{
  ℕ, zero, suc, ◌+◌, ◌<◌, ◌≡◌, ◌≢◌, ◌∙◌, ap, refl, List, [], ◌∷◌, ◌↔◌, arith, length, ok, ℤ, pos,
  negsuc, if◌then◌else◌,
}
use studix.Memory.{Memory, load8}
use studix.Strings.{strlen_loop, strlen, char_lt, strcmp_loop, strcmp}

-- The bytes xs, none of them 0, stand from a on, and a 0 behind them.
abbrev pub IsText : Memory → ℕ → List ℕ → Type 0
IsText m a [] = load8 m a ≡ 0
IsText m a (x ∷ xs) = (load8 m a ≡ x) × (x ≢ 0) × IsText m (a + 1) xs

IsText-step :
    (m : Memory) (s i : ℕ) (xs : List ℕ) → IsText m (s + i + 1) xs → IsText m (s + (i + 1)) xs
IsText-step m s i xs h =
    let e : s + i + 1 ≡ s + (i + 1) = omega arith in subst (λ a. IsText m a xs) e h

strlen_loop_lem :
    (f len str : ℕ) (m : Memory) (xs : List ℕ)
    → IsText m (str + len) xs
    → length xs < f
    → strlen_loop f len str m ≡ ok (len + length xs + 1)
unfolding strlen_loop
strlen_loop_lem zero len str m xs t h = absurd (omega arith)
strlen_loop_lem (suc f) len str m [] t h = ground arith
strlen_loop_lem (suc f) len str m (x ∷ xs) t h =
    ground
      (arith, strlen_loop_lem f (len + 1) str m xs (IsText-step m str len xs t.2) (omega arith))

IsText-start : (m : Memory) (s : ℕ) (xs : List ℕ) → IsText m s xs → IsText m (s + 0) xs
IsText-start m s xs t = let e : s ≡ s + 0 = omega arith in subst (λ a. IsText m a xs) e t

-- On a text strlen ends, and returns one more than the number of bytes before the terminator.
pub strlen-length :
    (f : ℕ) (m : Memory) (str : ℕ) (xs : List ℕ)
    → IsText m str xs
    → length xs < f
    → strlen f m str ≡ ok (length xs + 1)
unfolding strlen
strlen-length f m str xs t h =
    ground (arith, strlen_loop_lem f 0 str m xs (IsText-start m str xs t) h)

-- What three-way comparison of texts means: the order of the first bytes that differ, as signed
-- numbers, and a proper prefix first unless the byte behind it is negative.
abbrev pub first_difference : List ℕ → List ℕ → ℤ
first_difference [] [] = pos 0
first_difference [] (y ∷ ys) = if char_lt 0 y then negsuc 0 else pos 1
first_difference (x ∷ xs) [] = if char_lt x 0 then negsuc 0 else pos 1
first_difference (x ∷ xs) (y ∷ ys) =
    if char_lt x y then negsuc 0 else if char_lt y x then pos 1 else first_difference xs ys

strcmp_loop_lem :
    (f i s1 s2 : ℕ) (m : Memory) (xs ys : List ℕ)
    → IsText m (s1 + i) xs
    → IsText m (s2 + i) ys
    → length xs < f
    → strcmp_loop f i s1 s2 m ≡ ok (first_difference xs ys)
unfolding strcmp_loop
strcmp_loop_lem zero i s1 s2 m xs ys t u h = absurd (omega arith)
strcmp_loop_lem (suc f) i s1 s2 m [] [] t u h = ground arith
strcmp_loop_lem (suc f) i s1 s2 m [] (y ∷ ys) t u h = ground arith
strcmp_loop_lem (suc f) i s1 s2 m (x ∷ xs) [] t u h = ground arith
strcmp_loop_lem (suc f) i s1 s2 m (x ∷ xs) (y ∷ ys) t u h = ground (
  arith,
  strcmp_loop_lem f (i + 1) s1 s2 m xs ys (IsText-step m s1 i xs t.2) (IsText-step m s2 i ys u.2)
      (omega arith),
)

-- On texts strcmp ends with the sign that the first difference decides.
pub strcmp-first_difference :
    (f : ℕ) (m : Memory) (s1 s2 : ℕ) (xs ys : List ℕ)
    → IsText m s1 xs
    → IsText m s2 ys
    → length xs < f
    → strcmp f m s1 s2 ≡ ok (first_difference xs ys)
unfolding strcmp
strcmp-first_difference f m s1 s2 xs ys t u h =
    strcmp_loop_lem f 0 s1 s2 m xs ys (IsText-start m s1 xs t) (IsText-start m s2 ys u) h

-- Bytes of a text.
abbrev pub AllBytes : List ℕ → Type 0
AllBytes [] = Unit {0}
AllBytes (x ∷ xs) = (x < 256) × AllBytes xs

pub IsText-AllBytes : (m : Memory) (a : ℕ) (xs : List ℕ) → IsText m a xs → AllBytes xs
IsText-AllBytes m a [] t = tt
IsText-AllBytes m a (x ∷ xs) t = (omega arith, IsText-AllBytes m (a + 1) xs t.2)

abbrev pub AllNonzero : List ℕ → Type 0
AllNonzero [] = Unit {0}
AllNonzero (x ∷ xs) = (x ≢ 0) × AllNonzero xs

first_difference_zero :
    (xs ys : List ℕ)
    → AllBytes xs
    → AllBytes ys
    → AllNonzero xs
    → AllNonzero ys
    → first_difference xs ys ≡ pos 0
    → xs ≡ ys
first_difference_zero [] [] p q n k h = refl
first_difference_zero [] (y ∷ ys) p q n k h = ground arith
first_difference_zero (x ∷ xs) [] p q n k h = ground arith
first_difference_zero (x ∷ xs) (y ∷ ys) p q n k h =
    ground (arith, first_difference_zero xs ys p.1 q.1 n.1 k.1)

IsText-AllNonzero : (m : Memory) (a : ℕ) (xs : List ℕ) → IsText m a xs → AllNonzero xs
IsText-AllNonzero m a [] t = tt
IsText-AllNonzero m a (x ∷ xs) t = (t.1, IsText-AllNonzero m (a + 1) xs t.2)

first_difference_self : (xs : List ℕ) → first_difference xs xs ≡ pos 0
first_difference_self [] = refl
first_difference_self (x ∷ xs) = ground (arith, first_difference_self xs)

-- strcmp returns 0 on two texts exactly when they are the same text.
pub strcmp-eq_iff :
    (f : ℕ) (m : Memory) (s1 s2 : ℕ) (xs ys : List ℕ)
    → IsText m s1 xs
    → IsText m s2 ys
    → length xs < f
    → (strcmp f m s1 s2 ≡ ok (pos 0)) ↔ (xs ≡ ys)
strcmp-eq_iff f m s1 s2 xs ys t u h = (
  λ e.
      first_difference_zero xs ys (IsText-AllBytes m s1 xs t) (IsText-AllBytes m s2 ys u)
        (IsText-AllNonzero m s1 xs t) (IsText-AllNonzero m s2 ys u)
        (cc (strcmp-first_difference f m s1 s2 xs ys t u h)),
  λ e. strcmp-first_difference f m s1 s2 xs ys t u h ∙ rw e (ap ok (first_difference_self ys)),
)
