-- ===== src/Printf/Digits.antt =====
-- The digits that term_print_decu and term_print_hex print.
use studix.Base.{
  ℕ, zero, suc, ◌+◌, ◌-◌, ◌*◌, ◌/◌, ◌%◌, ◌^◌, ◌≤◌, ◌<◌, ◌≡◌, arith, refl, List, [], ◌∷◌, Result, ok,
  stop, fuel, Returns, ltb, ◌==◌, if◌then◌else◌, mul32, ap, subst, sym, ap₂, Bool-cases, inl, inr,
  length, ◌∙◌, ◌>>=◌,
}
use native.Mathlib.Nat.{pow-suc, mod-eq_of_lt, mod-add-div', div-div-eq-div-mul}
use studix.Printf.{divisor_loop, digits_loop, term_print_decu}

endless : (f divisor : ℕ) → divisor < 4294967296 → divisor_loop f divisor 4294967295 ≡ stop fuel
unfolding divisor_loop
endless zero divisor h = refl
endless (suc f) divisor h = ground (arith, endless f (mul32 divisor 10) (omega arith))

-- term_print_decu never returns for the greatest word: no divisor of 32 bits is above it.
pub term_print_decu-endless : (f : ℕ) → term_print_decu f 4294967295 ≡ stop fuel
unfolding term_print_decu
term_print_decu-endless f =
    ap
      (λ (r : Result ℕ).
        r >>= λ above. ok (digits_loop 10 (if above / 10 == 0 then 1 else above / 10) 4294967295))
      (endless f 1 (omega arith))

-- The digit that a character stands for, in either case.
abbrev pub digit_of : ℕ → ℕ
digit_of c = if ltb c 58 then c - 48 else if ltb c 97 then c - 55 else c - 87

-- The number that a text stands for, read on from `acc`.
abbrev pub number_in : (base acc : ℕ) → List ℕ → ℕ
number_in base acc [] = acc
number_in base acc (c ∷ cs) = number_in base (acc * base + digit_of c) cs

pub distribute : (a b p n : ℕ) → (a * n + b) * p ≡ a * (p * n) + b * p
distribute a b p n = grind arith

-- One more digit.
pub next_place : (x p n : ℕ) → x % (p * n) ≡ x / p % n * p + x % p
next_place x p n =
    let parts : x / p / n * n + x / p % n ≡ x / p = omega (arith, mod-add-div' (x / p) n) in
    omega (
      arith,
      mod-add-div' x p,
      mod-add-div' x (p * n),
      ap (λ (t : ℕ). t * (p * n)) (div-div-eq-div-mul x p n),
      ap (λ (t : ℕ). t * p) parts,
      distribute (x / p / n) (x / p % n) p n,
    )

digit_of_decimal : (d : ℕ) → d < 10 → digit_of (d + b'0') ≡ d
digit_of_decimal d h = ground arith

ten_pow-pos : (k : ℕ) → 0 < 10 ^ k
ten_pow-pos zero = omega arith
ten_pow-pos (suc k) = omega (arith, pow-suc 10 k, ten_pow-pos k)

digits_loop_more :
    (f d x : ℕ) → 0 < d → digits_loop (suc f) d x ≡ (x / d % 10 + b'0') ∷ digits_loop f (d / 10) x
unfolding digits_loop
digits_loop_more f d x h = ground arith

digits_loop_none : (f x : ℕ) → digits_loop f 0 x ≡ []
unfolding digits_loop
digits_loop_none zero x = refl
digits_loop_none (suc f) x = refl

times_ten : (k : ℕ) → 10 ^ suc k ≡ 10 ^ k * 10
times_ten k = omega (arith, pow-suc 10 k)

digits_loop-number_in :
    (k f acc x : ℕ)
    → k ≤ f
    → number_in 10 acc (digits_loop (suc f) (10 ^ k) x) ≡ acc * 10 ^ suc k + x % 10 ^ suc k
digits_loop-number_in zero f acc x h =
    ap (number_in 10 acc) (
      digits_loop_more f 1 x (omega arith)
      ∙ ap (λ rest. (x / 1 % 10 + b'0') ∷ rest) (digits_loop_none f x))
    ∙ omega (arith, digit_of_decimal (x / 1 % 10) (omega arith))
digits_loop-number_in (suc k) zero acc x h = absurd (omega arith)
digits_loop-number_in (suc k) (suc f) acc x h =
    let p = 10 ^ suc k in
    let e = x / p % 10 in
    let less : p / 10 ≡ 10 ^ k = omega (arith, pow-suc 10 k) in
    let digit = digit_of_decimal e (omega arith) in
    ap (number_in 10 acc) (digits_loop_more (suc f) p x (ten_pow-pos (suc k)))
    ∙ ap₂ (λ t d. number_in 10 (acc * 10 + t) (digits_loop (suc f) d x)) digit less
    ∙ digits_loop-number_in k f (acc * 10 + e) x (omega arith)
    ∙ omega (
      arith,
      next_place x p 10,
      distribute acc e p 10,
      ap (λ (t : ℕ). acc * t) (times_ten (suc k)),
      ap (λ (t : ℕ). x % t) (times_ten (suc k)),
    )

-- How many digits a number below 10^9 has; 0 has none.
abbrev pub digit_count : ℕ → ℕ
digit_count x =
    if ltb x 1
    then 0
    else if ltb x 10
    then 1
    else if ltb x 100
    then 2
    else if ltb x 1000
    then 3
    else if ltb x 10000
    then 4
    else if ltb x 100000
    then 5
    else if ltb x 1000000
    then 6
    else if ltb x 10000000
    then 7
    else if ltb x 100000000
    then 8
    else 9

divisor_loop-digit_count : (x : ℕ) → x < 1000000000 → divisor_loop 10 1 x ≡ ok (10 ^ digit_count x)
unfolding divisor_loop
divisor_loop-digit_count x h = ground arith

digit_below_next_pow : (x : ℕ) → x < 1000000000 → x < 10 ^ digit_count x
digit_below_next_pow x h = ground arith

digit_count-le : (x : ℕ) → digit_count x ≤ 9
digit_count-le x = ground arith

-- All characters are digits.
abbrev pub AllDecimal : List ℕ → Type 0
AllDecimal [] = Unit
AllDecimal (c ∷ cs) = (b'0' ≤ c) × (c ≤ b'9') × AllDecimal cs

digits_loop-AllDecimal : (f d x : ℕ) → AllDecimal (digits_loop f d x)
unfolding digits_loop
digits_loop-AllDecimal zero d x = tt
digits_loop-AllDecimal (suc f) d x = elim (Bool-cases (d == 0)) [
  | inl e ↦ rw e tt
  | inr e ↦ rw e (omega arith, omega arith, digits_loop-AllDecimal f (d / 10) x)
]

length-digits_loop : (k f x : ℕ) → k ≤ f → length (digits_loop (suc f) (10 ^ k) x) ≡ suc k
length-digits_loop zero f x h =
    ap length (digits_loop_more f 1 x (omega arith))
    ∙ ap (λ rest. length (0 ∷ rest)) (digits_loop_none f x)
length-digits_loop (suc k) zero x h = absurd (omega arith)
length-digits_loop (suc k) (suc f) x h =
    let less : 10 ^ suc k / 10 ≡ 10 ^ k = omega (arith, pow-suc 10 k) in
    ap length (digits_loop_more (suc f) (10 ^ suc k) x (ten_pow-pos (suc k)))
    ∙ ap (λ d. length (0 ∷ digits_loop (suc f) d x)) less
    ∙ ap suc (length-digits_loop k f x (omega arith))

first_divisor : (k : ℕ) → (if 10 ^ k / 10 == 0 then 1 else 10 ^ k / 10) ≡ 10 ^ (k - 1)
first_divisor zero = refl
first_divisor (suc k) = ground (arith, pow-suc 10 k, ten_pow-pos k)

-- The decimal digits of x, with no 0 in front but for 0 itself.
abbrev pub PrintsDecimal : ℕ → List ℕ → Type 0
PrintsDecimal x out =
    (number_in 10 0 out ≡ x) × AllDecimal out × (length out ≡ (if x == 0 then 1 else digit_count x))

decimal_digits : (x k : ℕ) → x < 10 ^ suc k → k ≤ 9 → number_in 10 0 (digits_loop 10 (10 ^ k) x) ≡ x
decimal_digits x k h p = digits_loop-number_in k 9 0 x p ∙ omega (arith, mod-eq_of_lt h)

term_print_decu_lem :
    (x : ℕ)
    → x < 1000000000
    → term_print_decu 10 x ≡ ok (digits_loop 10 (10 ^ (digit_count x - 1)) x)
unfolding term_print_decu
term_print_decu_lem x h =
    ap
      (λ (r : Result ℕ).
        r >>= λ above. ok (digits_loop 10 (if above / 10 == 0 then 1 else above / 10) x))
      (divisor_loop-digit_count x h)
    ∙ ap (λ d. ok (digits_loop 10 d x)) (first_divisor (digit_count x))

below_next_pow : (x n : ℕ) → x < 10 ^ n → x < 10 ^ suc (n - 1)
below_next_pow x zero h = omega arith
below_next_pow x (suc n) h =
    let back : suc n - 1 ≡ n = omega arith in subst (λ t. x < 10 ^ suc t) (sym back) h

count_length : (x : ℕ) → suc (digit_count x - 1) ≡ (if x == 0 then 1 else digit_count x)
count_length x = ground arith

-- Below 10^9, term_print_decu returns the decimal digits of its argument.
pub term_print_decu-PrintsDecimal :
    (x : ℕ) → x < 1000000000 → Returns (PrintsDecimal x) (term_print_decu 10 x)
term_print_decu-PrintsDecimal x h =
    let k = digit_count x - 1 in
    let small : k ≤ 9 = omega (arith, digit_count-le x) in
    rw (term_print_decu_lem x h) (
      decimal_digits x k (below_next_pow x (digit_count x) (digit_below_next_pow x h)) small,
      digits_loop-AllDecimal 10 (10 ^ k) x,
      length-digits_loop k 9 x small ∙ count_length x,
    )
