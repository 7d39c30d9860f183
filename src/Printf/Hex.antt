-- ===== src/Printf/Hex.antt =====
-- The digits that term_print_hex prints.
use native.Mathlib.Nat.{pow-suc, mod-eq_of_lt, div-lt_iff_lt-mul}
use studix.Base.{
  ℕ, zero, suc, ◌+◌, ◌*◌, ◌/◌, ◌%◌, ◌^◌, ◌<◌, ◌≡◌, Bool, true, false, Bool-cases, ==_iff, inl, inr,
  arith, refl, ◌==◌, bit_and-ones, ap, ◌∙◌,
}
use studix.Printf.{nibble, first_nibble, hex_digit, hex_loop, term_print_hex}
use studix.Printf.Digits.{digit_of, number_in, next_place, distribute}

hex_digit_lem : (d : ℕ) (upper : Bool) → d < 16 → digit_of (hex_digit d upper) ≡ d
unfolding hex_digit
hex_digit_lem d true h = ground arith
hex_digit_lem d false h = ground arith

four_bits : (i : ℕ) → 2 ^ (4 * i) ≡ 16 ^ i
four_bits zero = refl
four_bits (suc i) =
    let out : 4 * suc i ≡ suc (suc (suc (suc (4 * i)))) = omega arith in
    rw out (
      omega (
        arith,
        pow-suc 16 i,
        pow-suc 2 (4 * i),
        pow-suc 2 (suc (4 * i)),
        pow-suc 2 (suc (suc (4 * i))),
        pow-suc 2 (suc (suc (suc (4 * i)))),
        four_bits i,
      ))

nibble_lem : (x i : ℕ) → nibble x i ≡ x / 16 ^ i % 16
nibble_lem x i = rw (four_bits i) (omega (arith, bit_and-ones 4 (x / 16 ^ i)))

sixteen_pow-pos : (k : ℕ) → 0 < 16 ^ k
sixteen_pow-pos zero = omega arith
sixteen_pow-pos (suc k) = omega (arith, pow-suc 16 k, sixteen_pow-pos k)

times_sixteen : (k : ℕ) → 16 ^ suc k ≡ 16 ^ k * 16
times_sixteen k = omega (arith, pow-suc 16 k)

nibble-digit_of :
    (x i : ℕ) (upper : Bool) → digit_of (hex_digit (nibble x i) upper) ≡ x / 16 ^ i % 16
nibble-digit_of x i upper =
    rw (nibble_lem x i) (hex_digit_lem (x / 16 ^ i % 16) upper (omega arith))

hex_loop-number_in :
    (i acc x : ℕ) (upper : Bool)
    → number_in 16 acc (hex_loop x i upper) ≡ acc * 16 ^ suc i + x % 16 ^ suc i
unfolding hex_loop
hex_loop-number_in zero acc x upper = omega (arith, nibble-digit_of x 0 upper)
hex_loop-number_in (suc i) acc x upper =
    let p = 16 ^ suc i in
    let e = x / p % 16 in
    ap (λ t. number_in 16 (acc * 16 + t) (hex_loop x i upper)) (nibble-digit_of x (suc i) upper)
    ∙ hex_loop-number_in i (acc * 16 + e) x upper
    ∙ omega (
      arith,
      next_place x p 16,
      distribute acc e p 16,
      ap (λ (t : ℕ). acc * t) (times_sixteen (suc i)),
      ap (λ (t : ℕ). x % t) (times_sixteen (suc i)),
    )

-- No digit but zeros stands before the first one printed.
first_nibble-lt : (i x : ℕ) → x < 16 ^ suc i → x < 16 ^ suc (first_nibble x i)
unfolding first_nibble
first_nibble-lt zero x h = h
first_nibble-lt (suc i) x h =
    let p = 16 ^ suc i in
    let digit : x / p < 16 =
      (div-lt_iff_lt-mul {x = x} {y = 16} (sixteen_pow-pos (suc i))).1
        (omega (arith, times_sixteen (suc i))) in
    elim (Bool-cases (nibble x (suc i) == 0)) [
      | inl e ↦ rw e (
          first_nibble-lt i x (
            omega (
              arith,
              (div-lt_iff_lt-mul {x = x} {y = 1} (sixteen_pow-pos (suc i))).0
                  (omega (arith, digit, nibble_lem x (suc i), (==_iff (nibble x (suc i)) 0).0 e)),
            )))
      | inr e ↦ rw e h
    ]

-- The hexadecimal digits of a word, in either case, stand for the word.
pub term_print_hex-number_in :
    (x : ℕ) (upper : Bool) → x < 4294967296 → number_in 16 0 (term_print_hex x upper) ≡ x
unfolding term_print_hex
term_print_hex-number_in x upper h =
    hex_loop-number_in (first_nibble x 7) 0 x upper
    ∙ omega (arith, mod-eq_of_lt (first_nibble-lt 7 x h))
