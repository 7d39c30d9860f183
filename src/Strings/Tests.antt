-- ===== src/Strings/Tests.antt =====
-- Two texts in memory, and the theorems about string.c there.
use studix.Base.{ℕ, arith, List, [], ◌∷◌, Returns, ◌==◌, if◌then◌else◌}
use studix.Memory.{Memory}
use studix.Strings.{strcpy}
use studix.Strings.Text.{IsText}
use studix.Strings.Copy.{Copied, strcpy-Copied}

-- "hi" at 10 and "ho" at 20; 7 elsewhere.
abbrev texts : Memory
texts x =
    if x == 10
    then b'h'
    else if x == 11
    then b'i'
    else if x == 12
    then 0
    else if x == 20
    then b'h'
    else if x == 21
    then b'o'
    else if x == 22
    then 0
    else 7

abbrev hi : List ℕ
hi = b'h' ∷ b'i' ∷ []

abbrev ho : List ℕ
ho = b'h' ∷ b'o' ∷ []

hi-IsText : IsText texts 10 hi
hi-IsText = omega arith

ho-IsText : IsText texts 20 ho
ho-IsText = omega arith

strcpy-Copied_example : Returns (Copied texts 100 10 2) (strcpy 5 texts 100 10)
strcpy-Copied_example = strcpy-Copied 5 100 10 texts hi hi-IsText (omega arith) (omega arith)
