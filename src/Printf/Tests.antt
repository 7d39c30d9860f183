-- ===== src/Printf/Tests.antt =====
-- Printing at concrete numbers and formats.
use studix.Base.{◌≡◌, ok, stop, fuel, Returns, true, [], ◌∷◌, arith, refl}
use studix.Printf.{
  term_print_decu, term_print_dec, term_print_size, term_print_hex, term_printf, word, text,
}
use studix.Printf.Digits.{
  PrintsDecimal, term_print_decu-PrintsDecimal, term_print_decu-endless, number_in,
}
use studix.Printf.Hex.{term_print_hex-number_in}

term_print_decu-PrintsDecimal_example : Returns (PrintsDecimal 40960) (term_print_decu 10 40960)
term_print_decu-PrintsDecimal_example = term_print_decu-PrintsDecimal 40960 (omega arith)

term_print_hex-number_in_example : number_in 16 0 (term_print_hex 0xb8000 true) ≡ 0xb8000
term_print_hex-number_in_example = term_print_hex-number_in 0xb8000 true (omega arith)

term_print_decu-endless_example : term_print_decu 1000 4294967295 ≡ stop fuel
term_print_decu-endless_example = term_print_decu-endless 1000

three_kib : term_print_size 10 3072 ≡ ok (b'3' ∷ b'K' ∷ b'i' ∷ b'B' ∷ [])
unfolding term_print_size
three_kib = refl

below_zero : term_print_dec 10 0xffffffd6 ≡ ok (b'-' ∷ b'4' ∷ b'2' ∷ [])
unfolding term_print_dec
below_zero = refl

formatted :
    term_printf 10
      (b'%' ∷ b's' ∷ b'=' ∷ b'%' ∷ b'p' ∷ b'%' ∷ b'%' ∷ [])
      (text (b'a' ∷ []) ∷ word 0x1f ∷ [])
    ≡ ok (b'a' ∷ b'=' ∷ b'0' ∷ b'x' ∷ b'1' ∷ b'f' ∷ b'%' ∷ [])
unfolding term_printf term_print_hex
formatted = refl
