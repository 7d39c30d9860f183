-- ===== src/Printf.antt =====
-- src/term/term_printf.c: formatted output. A printing function gives the characters that it passes
-- to term_putchar, in order; `unsigned int`, `unsigned long` and size_t have 32 bits.
pub mod Digits
pub mod Hex
pub mod Overflow
mod Format
mod Tests
use studix.Base.{
  ℕ, zero, suc, ◌+◌, ◌-◌, ◌*◌, ◌/◌, ◌%◌, ◌^◌, Bool, true, false, ◌||◌, List, [], ◌∷◌, ◌++◌, Result,
  ok, stop, undefined, fuel, ◌>>=◌, ltb, leb, ◌==◌, if◌then◌else◌, mul32, sub32, u32, bit_and,
}

-- The first loop of term_print_decu: the first divisor above x.
divisor_loop : (f divisor x : ℕ) → Result ℕ
divisor_loop zero divisor x = stop fuel
divisor_loop (suc f) divisor x =
    let rest = divisor_loop f (mul32 divisor 10) x in if leb divisor x then rest else ok divisor

-- The last loop: each round divides a divisor below 2^32 by ten.
pub digits_loop : (f divisor x : ℕ) → List ℕ
digits_loop zero divisor x = []
digits_loop (suc f) divisor x =
    if divisor == 0 then [] else (x / divisor % 10 + b'0') ∷ digits_loop f (divisor / 10) x

unfoldable pub term_print_decu : (f x : ℕ) → Result (List ℕ)
unfolding divisor_loop digits_loop
term_print_decu f x = do
  above ← divisor_loop f 1 x
  let divisor = if above / 10 == 0 then 1 else above / 10
  ok (digits_loop 10 divisor x)

-- A `long` is given as the word that it is in memory.
unfoldable pub term_print_dec : (f x : ℕ) → Result (List ℕ)
unfolding term_print_decu
term_print_dec f x =
    if leb 2147483648 x
    then (term_print_decu f (sub32 0 x) >>= λ out. ok (b'-' ∷ out))
    else term_print_decu f x

-- The loop of term_print_size: how often 2^10 is divided off.
unfoldable pub kib_loop : (f i size : ℕ) → ℕ
kib_loop zero i size = i
kib_loop (suc f) i size =
    let rest = kib_loop f (i + 1) size in if ltb 1024 (size / 2 ^ (10 * i)) then rest else i

-- `prefixes[i]`; a size has at most three.
abbrev pub prefixes : ℕ → ℕ
prefixes zero = b'K'
prefixes (suc zero) = b'M'
prefixes (suc (suc i)) = b'G'

-- After three rounds what is left of 32 bits is below 4, so that the loop has ended.
unfoldable pub term_print_size : (f size : ℕ) → Result (List ℕ)
unfolding term_print_decu kib_loop
term_print_size f size = do
  let i = kib_loop 3 0 size
  out ← term_print_decu f (size / 2 ^ (10 * i))
  ok (out ++ (if ltb 0 i then prefixes (i - 1) ∷ b'i' ∷ b'B' ∷ [] else b'B' ∷ []))

abbrev pub case_diff : ℕ
case_diff = 32

-- (x >> shift) & 0xF, with `shift` four times i.
abbrev pub nibble : (x i : ℕ) → ℕ
nibble x i = bit_and (x / 2 ^ (4 * i)) 0xf

-- The first loop of term_print_hex, in steps of four bits: past the zeros in front.
unfoldable pub first_nibble : (x i : ℕ) → ℕ
first_nibble x zero = zero
first_nibble x (suc i) = if nibble x (suc i) == 0 then first_nibble x i else suc i

unfoldable pub hex_digit : (digit : ℕ) → Bool → ℕ
hex_digit digit upper =
    if ltb digit 10 then b'0' + digit else b'A' + (digit - 10) + (if upper then 0 else case_diff)

-- The second loop, from place i down to 0.
unfoldable pub hex_loop : (x i : ℕ) → Bool → List ℕ
unfolding hex_digit
hex_loop x zero upper = hex_digit (nibble x zero) upper ∷ []
hex_loop x (suc i) upper = hex_digit (nibble x (suc i)) upper ∷ hex_loop x i upper

unfoldable pub term_print_hex : (x : ℕ) → Bool → List ℕ
unfolding first_nibble hex_loop
term_print_hex x upper = hex_loop x (first_nibble x 7) upper

-- What va_arg gives: a word, or the text that a pointer leads to.
pub data Arg : Type 0 where
  word : ℕ → Arg
  text : List ℕ → Arg

-- The next argument as a word; there is none, or it is a pointer, where the code has no meaning.
abbrev pub take_word {ℓ} : {A : Type ℓ} → List Arg → (ℕ → List Arg → Result A) → Result A
take_word [] k = stop undefined
take_word (word x ∷ args) k = k x args
take_word (text s ∷ args) k = stop undefined

abbrev pub take_text {ℓ} : {A : Type ℓ} → List Arg → (List ℕ → List Arg → Result A) → Result A
take_text [] k = stop undefined
take_text (word x ∷ args) k = stop undefined
take_text (text s ∷ args) k = k s args

-- One conversion: what it prints, and the arguments that are left.
unfoldable pub print_arg : (f fmt_type : ℕ) → List Arg → Result (List ℕ × List Arg)
print_arg f c args =
    if c == b'%'
    then ok (b'%' ∷ [], args)
    else if c == b'd'
    then take_word args (λ x rest. term_print_dec f x >>= λ out. ok (out, rest))
    else if (c == b'u') || (c == b'l')
    then take_word args (λ x rest. term_print_decu f x >>= λ out. ok (out, rest))
    else if c == b'x'
    then take_word args (λ x rest. ok (term_print_hex x false, rest))
    else if c == b'X'
    then take_word args (λ x rest. ok (term_print_hex x true, rest))
    else if c == b'b'
    then take_word args (λ x rest. term_print_size f x >>= λ out. ok (out, rest))
    else if c == b'p'
    then take_word args (λ x rest. ok (b'0' ∷ b'x' ∷ term_print_hex x false, rest))
    else if c == b's'
    then take_text args (λ s rest. ok (s, rest))
    else if c == b'c'
    then take_word args (λ x rest. ok (x % 256 ∷ [], rest))
    else ok ([], args)

-- The text of the format, without its terminator. A lone % at its end reads on behind it.
unfoldable pub term_printf : (f : ℕ) → List ℕ → List Arg → Result (List ℕ)
unfolding print_arg
term_printf f [] args = ok []
term_printf f (c ∷ []) args = if c == b'%' then stop undefined else ok (c ∷ [])
term_printf f (c ∷ d ∷ fmt) args =
    let plain = term_printf f (d ∷ fmt) args in
    let converted = λ (rest : List Arg). term_printf f fmt rest in
    if c == b'%'
    then (do (out, rest) ← print_arg f d args; more ← converted rest; ok (out ++ more))
    else plain >>= λ more. ok (c ∷ more)
