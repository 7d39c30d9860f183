-- ===== src/Printf/Overflow.antt =====
-- What term_print_decu does with ten digits: the divisor 10^10 has more than 32 bits.
use studix.Base.{ℕ, ◌+◌, ◌/◌, ◌%◌, ◌≤◌, ◌<◌, ◌≡◌, arith, ok, Returns}
use studix.Printf.{divisor_loop, digits_loop, term_print_decu}
use studix.Printf.Digits.{digit_of, number_in}

wrapped_divisor : (x : ℕ) → 1000000000 ≤ x → x < 1410065408 → divisor_loop 11 1 x ≡ ok 1410065408
unfolding divisor_loop
wrapped_divisor x p q = ground arith

decimal : (d : ℕ) → digit_of (d % 10 + b'0') ≤ 9
decimal d = ground arith

nine_digits : (x : ℕ) → number_in 10 0 (digits_loop 10 141006540 x) < 1000000000
unfolding digits_loop
nine_digits x = omega (
  arith,
  decimal (x / 141006540),
  decimal (x / 14100654),
  decimal (x / 1410065),
  decimal (x / 141006),
  decimal (x / 14100),
  decimal (x / 1410),
  decimal (x / 141),
  decimal (x / 14),
  decimal (x / 1),
)

-- Of a number from 10^9 on and below the wrapped divisor, what is printed stands for a smaller number.
pub term_print_decu_wrapped :
    (x : ℕ)
    → 1000000000 ≤ x
    → x < 1410065408
    → Returns (λ out. number_in 10 0 out < 1000000000) (term_print_decu 11 x)
unfolding term_print_decu
term_print_decu_wrapped x p q = rw (wrapped_divisor x p q) (nine_digits x)
