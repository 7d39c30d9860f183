-- ===== src/MakeInitrd/Layout.antt =====
-- The headers as the kernel reads them, with numbers of four bytes.
use studix.Base.{ℕ, ◌+◌, ◌-◌, ◌<◌, ◌≡◌, arith, ap, subst, List, ◌∷◌, ◌++◌, length, length-append}
use studix.Memory.{load32}
use studix.MakeInitrd.{header_bytes, size_bytes, stack_bytes}
use studix.MakeInitrd.Writes.{Stands, Stands-append, length-size_bytes, length-stack_bytes}

-- A number that stands in four bytes.
size-load32 : (b : ℕ → ℕ) (p n : ℕ) → n < 4294967296 → Stands b p (size_bytes 4 n) → load32 b p ≡ n
unfolding load32 size_bytes
size-load32 b p n small (b0, (b1, (b2, (b3, end)))) =
    let p2 : p + 1 + 1 ≡ p + 2 = omega arith in
    let p3 : p + 1 + 1 + 1 ≡ p + 3 = omega arith in omega (arith, ap b p2, ap b p3)

module _ (w : ℕ) (stack : ℕ → ℕ) (b : ℕ → ℕ) (p : ℕ) (name : List ℕ) (start size : ℕ) where
  abbrev pub IsHeader : Type 0
  IsHeader = Stands b p (header_bytes w stack name start size)

  -- The two numbers stand behind the room for the name.
  header-fields :
      length name < 128
      → IsHeader
      → Stands b (p + 128) (size_bytes w start) × Stands b (p + 128 + w) (size_bytes w size)
  unfolding header_bytes
  header-fields short h =
      let padding = stack_bytes stack (128 - length name - 1) 0 in
      let named = name ++ 0 ∷ padding in
      let (front, last) = Stands-append b p (named ++ size_bytes w start) (size_bytes w size) h in
      let (top, first) = Stands-append b p named (size_bytes w start) front in
      let room : length named ≡ 128 = omega (
        arith,
        length-append name (0 ∷ padding),
        length-stack_bytes stack (128 - length name - 1) 0,
      ) in
      let behind : p + length (named ++ size_bytes w start) ≡ p + 128 + w =
        omega (arith, room, length-append named (size_bytes w start), length-size_bytes w start) in
      (
        subst (λ n. Stands b (p + n) (size_bytes w start)) room first,
        subst (λ q. Stands b q (size_bytes w size)) behind last,
      )

-- Written where size_t has four bytes, a header has its numbers where the kernel reads them.
pub header-load32 :
    (stack b : ℕ → ℕ) (p : ℕ) (name : List ℕ) (start size : ℕ)
    → length name < 128
    → start < 4294967296
    → size < 4294967296
    → IsHeader 4 stack b p name start size
    → (load32 b (p + 128) ≡ start) × (load32 b (p + 132) ≡ size)
header-load32 stack b p name start size short small few h =
    let (first, last) = header-fields 4 stack b p name start size short h in
    let at : p + 128 + 4 ≡ p + 132 = omega arith in
    (
      size-load32 b (p + 128) start small first,
      size-load32 b (p + 132) size few (subst (λ q. Stands b q (size_bytes 4 size)) at last),
    )

-- Written where size_t has eight bytes, the length that the kernel reads in the first header is the upper
-- half of the start: every file below 4 GiB has length 0.
header-load32_wide :
    (stack b : ℕ → ℕ) (p : ℕ) (name : List ℕ) (start size : ℕ)
    → length name < 128
    → start < 4294967296
    → IsHeader 8 stack b p name start size
    → load32 b (p + 132) ≡ 0
unfolding load32 size_bytes
header-load32_wide stack b p name start size short small h =
    let ((b0, (b1, (b2, (b3, (b4, (b5, (b6, (b7, end)))))))), last) =
      header-fields 8 stack b p name start size short h in
    let p4 : p + 128 + 1 + 1 + 1 + 1 ≡ p + 132 = omega arith in
    let p5 : p + 128 + 1 + 1 + 1 + 1 + 1 ≡ p + 132 + 1 = omega arith in
    let p6 : p + 128 + 1 + 1 + 1 + 1 + 1 + 1 ≡ p + 132 + 2 = omega arith in
    let p7 : p + 128 + 1 + 1 + 1 + 1 + 1 + 1 + 1 ≡ p + 132 + 3 = omega arith in
    omega (arith, ap b p4, ap b p5, ap b p6, ap b p7)
