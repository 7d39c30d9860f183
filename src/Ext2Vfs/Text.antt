-- ===== src/Ext2Vfs/Text.antt =====
-- Texts and bytes in memory.
use studix.Base.{
  ℕ, zero, suc, ◌+◌, ◌-◌, ◌<◌, ◌≡◌, false, arith, List, [], ◌∷◌, length, ok, ◌==◌, if◌then◌else◌,
  u8, leb, Bool-cases, inl, inr, ==_iff, ◌∙◌,
}
use studix.Memory.{Memory, store8}
use studix.Strings.Bytes.{within}
use studix.Strings.Text.{IsText}
use studix.Ext2.{byte_at}
use studix.Ext2Vfs.{text_at, store_text}

pub text_at-IsText :
    (f : ℕ) (m : Memory) (a : ℕ) (xs : List ℕ)
    → IsText m a xs
    → length xs < f
    → text_at f m a ≡ ok xs
unfolding text_at
text_at-IsText zero m a xs t lt = absurd (omega arith)
text_at-IsText (suc f) m a [] t lt = rw t
text_at-IsText (suc f) m a (x ∷ xs) (first, nonzero, t) lt =
    let more : (x == 0) ≡ false = ground arith in
    rw (first, more, text_at-IsText f m (a + 1) xs t (omega arith))

-- The bytes of xs from a on, and every other byte as it was.
pub store_text_lem :
    (m : Memory) (a : ℕ) (xs : List ℕ) (x : ℕ)
    → store_text m a xs x ≡ (if within a (length xs) x then u8 (byte_at xs (x - a)) else m x)
unfolding store_text store8
store_text_lem m a [] x = ground arith
store_text_lem m a (y ∷ ys) x =
    store_text_lem (store8 m a y) (a + 1) ys x ∙ elim (Bool-cases (leb (a + 1) x)) [
      | inl behind ↦ let next : x - a ≡ suc (x - (a + 1)) = ground arith in rw next ground arith
      | inr before ↦ elim (Bool-cases (x == a)) [
        | inl here ↦
            let at : x ≡ a = (==_iff x a).0 here in
            let zeroth : a - a ≡ 0 = omega arith in rw (at, zeroth) ground arith
        | inr other ↦ ground arith
      ]
    ]
