-- ===== src/MakeInitrd/Writes.antt =====
-- What one write leaves in the output.
use studix.Base.{
  ℕ, zero, suc, ◌+◌, ◌/◌, ◌≤◌, ◌<◌, ◌≡◌, ◌⊎◌, arith, refl, ap, ◌∙◌, subst, List, [], ◌∷◌, ◌++◌,
  length, u8,
}
use studix.MakeInitrd.{Output, put_byte, write, size_bytes, stack_bytes}

pub write-position :
    (out : Output) (xs : List ℕ) → (write out xs).position ≡ out.position + length xs
unfolding write
write-position out [] = omega arith
write-position out (x ∷ xs) = omega (arith, write-position (put_byte out x) xs)

-- The bytes xs stand in b from p on.
abbrev pub Stands : (ℕ → ℕ) → ℕ → List ℕ → Type 0
Stands b p [] = Unit
Stands b p (x ∷ xs) = (b p ≡ u8 x) × Stands b (p + 1) xs

pub write_outside :
    (out : Output) (xs : List ℕ) (i : ℕ)
    → i < out.position ⊎ (out.position + length xs ≤ i)
    → (write out xs).bytes i ≡ out.bytes i
unfolding write
write_outside out [] i h = refl
write_outside out (x ∷ xs) i h = ground (arith, write_outside (put_byte out x) xs i)

pub write-Stands : (out : Output) (xs : List ℕ) → Stands (write out xs).bytes out.position xs
unfolding write
write-Stands out [] = tt
write-Stands out (x ∷ xs) = (
  write_outside (put_byte out x) xs out.position (omega arith) ∙ ground arith,
  write-Stands (put_byte out x) xs,
)

-- Bytes that stand somewhere still do if they have not changed.
pub Stands-mono :
    (b b' : ℕ → ℕ) (p : ℕ) (xs : List ℕ)
    → ((i : ℕ) → p ≤ i → i < p + length xs → b' i ≡ b i)
    → Stands b p xs
    → Stands b' p xs
Stands-mono b b' p [] same h = tt
Stands-mono b b' p (x ∷ xs) same (first, h) = (
  same p (omega arith) (omega arith) ∙ first,
  Stands-mono b b' (p + 1) xs (λ i lo hi. same i (omega arith) (omega arith)) h,
)

pub Stands-append :
    (b : ℕ → ℕ) (p : ℕ) (xs ys : List ℕ)
    → Stands b p (xs ++ ys)
    → Stands b p xs × Stands b (p + length xs) ys
Stands-append b p [] ys h = let e : p ≡ p + 0 = omega arith in (tt, subst (λ q. Stands b q ys) e h)
Stands-append b p (x ∷ xs) ys (first, h) =
    let (left, right) = Stands-append b (p + 1) xs ys h in
    let e : p + 1 + length xs ≡ p + suc (length xs) = omega arith in
    ((first, left), subst (λ q. Stands b q ys) e right)

pub length-size_bytes : (w n : ℕ) → length (size_bytes w n) ≡ w
unfolding size_bytes
length-size_bytes zero n = refl
length-size_bytes (suc w) n = ap suc (length-size_bytes w (n / 256))

pub length-stack_bytes : (stack : ℕ → ℕ) (n i : ℕ) → length (stack_bytes stack n i) ≡ n
unfolding stack_bytes
length-stack_bytes stack zero i = refl
length-stack_bytes stack (suc n) i = ap suc (length-stack_bytes stack n (i + 1))
