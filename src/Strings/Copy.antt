-- ===== src/Strings/Copy.antt =====
-- strcpy on a terminated text.
use studix.Base.{
  ℕ, zero, suc, ◌+◌, ◌-◌, ◌<◌, ◌≡◌, ◌⊎◌, List, [], ◌∷◌, arith, ◌==◌, length, Returns, Returns-mono,
  true, false, if◌then◌else◌,
}
use studix.Memory.{Memory, load8, store8}
use studix.Strings.{strcpy_loop, strcpy}
use studix.Strings.Bytes.{within}
use studix.Strings.Text.{IsText}

IsText-store8 :
    (m : Memory) (a x v : ℕ) (xs : List ℕ)
    → (x < a) ⊎ (a + length xs < x)
    → IsText m a xs
    → IsText (store8 m x v) a xs
unfolding store8
IsText-store8 m a x v [] h t = ground arith
IsText-store8 m a x v (c ∷ xs) h t =
    (ground arith, t.1, IsText-store8 m (a + 1) x v xs (omega arith) t.2)

-- The copy of the k bytes of a text at src: they stand from dest on, a 0 stands at dest + k + 1, and
-- every other address, dest + k among them, is as it was.
abbrev pub Copied : Memory → (dest src k : ℕ) → Memory → Type 0
Copied m dest src k m' =
    (x : ℕ)
    → m' x ≡ (
        if within dest k x
        then load8 m (src + (x - dest))
        else if x == dest + k + 1
        then 0
        else m x)

-- Neither range reaches into the other, counting the byte written behind the copy.
abbrev pub CopyFits : (dest src k : ℕ) → Type 0
CopyFits dest src k = (dest + k + 1 < src) ⊎ (src + k < dest)

Copied-step :
    (m : Memory) (d s k : ℕ) (m' : Memory)
    → CopyFits d s (suc k)
    → Copied (store8 m d (load8 m s)) (d + 1) (s + 1) k m'
    → Copied m d s (suc k) m'
unfolding store8
Copied-step m d s k m' f h x = ground (arith, h x)

strcpy_loop_lem :
    (f i dest src d s : ℕ) (m : Memory) (xs : List ℕ)
    → dest + i ≡ d
    → src + i ≡ s
    → IsText m s xs
    → CopyFits d s (length xs)
    → length xs < f
    → Returns (Copied m d s (length xs)) (strcpy_loop f i dest src m)
unfolding strcpy_loop
strcpy_loop_lem zero i dest src d s m xs p q t c h = absurd (omega arith)
strcpy_loop_lem (suc f) i dest src d s m [] p q t c h =
    let last : dest + (i + 1) ≡ d + 0 + 1 = omega arith in
    let end : (load8 m (src + i) == 0) ≡ true = ground arith in
    rw (end, last) (λ x. unfold store8 in ground arith)
strcpy_loop_lem (suc f) i dest src d s m (x ∷ xs) p q t c h =
    let more : (load8 m (src + i) == 0) ≡ false = ground arith in
    let m' = store8 m (dest + i) (load8 m (src + i)) in
    let text : IsText m' (s + 1) xs =
      IsText-store8 m (s + 1) (dest + i) (load8 m (src + i)) xs (omega arith) t.2 in
    let rest : Returns (Copied m' (d + 1) (s + 1) (length xs)) (strcpy_loop f (i + 1) dest src m') =
      strcpy_loop_lem f (i + 1) dest src (d + 1) (s + 1) m' xs (omega arith) (omega arith) text
        (omega arith) (omega arith) in
    rw more (
      Returns-mono (strcpy_loop f (i + 1) dest src m')
        (λ g h'. Copied-step m d s (length xs) g c (rw (p, q) at h')) rest)

-- A text of k bytes is copied byte by byte and strcpy ends; the terminator is stored one address too
-- far, at dest + k + 1, and the byte at dest + k keeps what stood there.
pub strcpy-Copied :
    (f dest src : ℕ) (m : Memory) (xs : List ℕ)
    → IsText m src xs
    → CopyFits dest src (length xs)
    → length xs < f
    → Returns (Copied m dest src (length xs)) (strcpy f m dest src)
unfolding strcpy
strcpy-Copied f dest src m xs t c h =
    strcpy_loop_lem f 0 dest src dest src m xs (omega arith) (omega arith) t c h
