-- ===== src/Ext2/Names.antt =====
-- The comparison of an entry's name with the one that is looked for.
use studix.Base.{
  ℕ, ◌≡◌, refl, ap₂, ◌∙◌, Bool, true, false, ◌&&◌, arith, List, [], ◌∷◌, ◌==◌, ℤ, pos, negsuc,
}
use studix.Strings.Text.{first_difference, AllBytes, AllNonzero}
use studix.Ext2.{text_of, same_text}

-- Two texts are the same.
abbrev pub text_equal : List ℕ → List ℕ → Bool
text_equal [] [] = true
text_equal [] (y ∷ ys) = false
text_equal (x ∷ xs) [] = false
text_equal (x ∷ xs) (y ∷ ys) = (x == y) && text_equal xs ys

pub text_of_lem : (xs : List ℕ) → AllNonzero xs → text_of xs ≡ xs
text_of_lem [] h = refl
text_of_lem (x ∷ xs) (nonzero, h) =
    let more : (x == 0) ≡ false = ground (arith, nonzero) in rw (more, text_of_lem xs h)

-- The test of strcmp's result.
abbrev equal_sign : ℤ → Bool
equal_sign (pos n) = n == 0
equal_sign (negsuc n) = false

first_difference-text_equal :
    (xs ys : List ℕ)
    → AllBytes xs
    → AllBytes ys
    → AllNonzero xs
    → AllNonzero ys
    → equal_sign (first_difference xs ys) ≡ text_equal xs ys
first_difference-text_equal [] [] b c n m = refl
first_difference-text_equal [] (y ∷ ys) b c n m = ground arith
first_difference-text_equal (x ∷ xs) [] b c n m = ground arith
first_difference-text_equal (x ∷ xs) (y ∷ ys) b c n m =
    ground (arith, first_difference-text_equal xs ys b.1 c.1 n.1 m.1)

-- Names without a byte 0 are compared as they stand.
pub same_text-text_equal :
    (xs ys : List ℕ)
    → AllBytes xs
    → AllBytes ys
    → AllNonzero xs
    → AllNonzero ys
    → same_text xs ys ≡ text_equal xs ys
same_text-text_equal xs ys b c n m =
    ap₂ (λ v w. equal_sign (first_difference v w)) (text_of_lem xs n) (text_of_lem ys m)
    ∙ first_difference-text_equal xs ys b c n m
