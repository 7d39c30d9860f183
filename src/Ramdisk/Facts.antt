-- ===== src/Ramdisk/Facts.antt =====
-- What an image says, and that it goes on saying it where its bytes have not changed.
use studix.Base.{ℕ, ◌+◌, ◌-◌, ◌*◌, ◌≤◌, ◌<◌, ◌≡◌, ◌≢◌, arith, List, [], ◌∷◌, ◌++◌, length}
use studix.Strings.Text.{IsText}
use studix.MakeInitrd.{header_bytes, size_bytes, stack_bytes}
use studix.MakeInitrd.Writes.{Stands, Stands-append, Stands-mono}
use studix.MakeInitrd.Image.{IsImage, length-header_bytes}

-- The bytes of a name.
abbrev pub IsName : List ℕ → Type 0
IsName [] = Unit
IsName (x ∷ xs) = (x ≢ 0) × (x < 256) × IsName xs

pub Stands-IsText :
    (b : ℕ → ℕ) (p : ℕ) (xs rest : List ℕ) → IsName xs → Stands b p (xs ++ 0 ∷ rest) → IsText b p xs
Stands-IsText b p [] rest n h = omega (arith, h.0)
Stands-IsText b p (x ∷ xs) rest (nonzero, byte, n) h =
    (omega (arith, h.0), nonzero, Stands-IsText b (p + 1) xs rest n h.1)

-- The name that stands in a header.
pub header-IsText :
    (stack b : ℕ → ℕ) (p : ℕ) (name : List ℕ) (start size : ℕ)
    → IsName name
    → Stands b p (header_bytes 4 stack name start size)
    → IsText b p name
unfolding header_bytes
header-IsText stack b p name start size n h =
    let padding = stack_bytes stack (128 - length name - 1) 0 in
    let named = name ++ 0 ∷ padding in
    let front = (Stands-append b p (named ++ size_bytes 4 start) (size_bytes 4 size) h).0 in
    Stands-IsText b p name padding n (Stands-append b p named (size_bytes 4 start) front).0

-- Where the contents of files that begin at e end.
abbrev pub ends : ℕ → List (List ℕ × List ℕ) → ℕ
ends e [] = e
ends e ((name, contents) ∷ files) = ends (e + length contents) files

pub ends-le : (e : ℕ) (files : List (List ℕ × List ℕ)) → e ≤ ends e files
ends-le e [] = omega arith
ends-le e ((name, contents) ∷ files) = omega (arith, ends-le (e + length contents) files)

-- The names are fit for headers and for nodes.
abbrev pub AllNames : List (List ℕ × List ℕ) → Type 0
AllNames [] = Unit
AllNames ((name, contents) ∷ files) = (length name < 126) × IsName name × AllNames files

pub IsImage-Kept :
    (stack : ℕ → ℕ → ℕ) (b b' : ℕ → ℕ) (files : List (List ℕ × List ℕ)) (p e : ℕ)
    → AllNames files
    → p + 136 * length files ≤ e
    → ((x : ℕ) → p ≤ x → x < ends e files → b' x ≡ b x)
    → IsImage 4 stack b p e files
    → IsImage 4 stack b' p e files
IsImage-Kept stack b b' [] p e names room same h = tt
IsImage-Kept stack b b' ((name, contents) ∷ files) p e (short, n, names) room same
      (header, body, rest) =
    let size = length-header_bytes 4 stack p name e (length contents) (omega arith) in
    let far = ends-le (e + length contents) files in
    (
      Stands-mono b b' p (header_bytes 4 (stack p) name e (length contents))
          (λ x lo hi. same x (omega arith) (omega arith)) header,
      Stands-mono b b' e contents (λ x lo hi. same x (omega arith) (omega arith)) body,
      IsImage-Kept stack b b' files (p + 136) (e + length contents) names (omega arith)
          (λ x lo hi. same x (omega arith) hi) rest,
    )
