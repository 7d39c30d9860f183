-- ===== src/Printf/Format.antt =====
-- The format of term_printf.
use studix.Base.{ℕ, ◌≡◌, ◌≢◌, List, [], ◌∷◌, Result, ok, false, arith, refl, ap, ◌==◌, ◌>>=◌}
use studix.Printf.{Arg, term_printf}

-- No conversion stands in the format.
abbrev pub NoConversion : List ℕ → Type 0
NoConversion [] = Unit
NoConversion (c ∷ fmt) = (c ≢ b'%') × NoConversion fmt

-- A format without a conversion is printed as it is, whatever the arguments.
term_printf_plain :
    (f : ℕ) (fmt : List ℕ) (args : List Arg) → NoConversion fmt → term_printf f fmt args ≡ ok fmt
unfolding term_printf
term_printf_plain f [] args plain = refl
term_printf_plain f (c ∷ []) args (p, plain) = ground arith
term_printf_plain f (c ∷ d ∷ fmt) args (p, plain) =
    let no : (c == b'%') ≡ false = ground arith in
    rw no (
      ap (λ (r : Result (List ℕ)). r >>= λ more. ok (c ∷ more))
        (term_printf_plain f (d ∷ fmt) args plain))
