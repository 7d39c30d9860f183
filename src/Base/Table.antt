-- ===== src/Base/Table.antt =====
-- Facts about small numbers, by checking each of them.
use Prim.Native.Nat.{ℕ, zero, suc, ◌<◌}
use mathlib.Core.Path.{◌≡◌, refl, ap, sym, ◌∙◌}
use mathlib.Core.Logic.{inl, inr}
use mathlib.Core.Bool.{Bool, true, false, ◌&&◌}
use studix.Base.Tests.{◌==◌, ==_iff, Bool-cases}
use native.Mathlib.Omega.{arith}

-- Two functions agree at all numbers below n.
abbrev pub agree_below : ℕ → (f g : ℕ → ℕ) → Bool
agree_below zero f g = true
agree_below (suc n) f g = (f n == g n) && agree_below n f g

both : (a b : Bool) → (a && b) ≡ true → (a ≡ true) × (b ≡ true)
both true true h = (h, h)
both true false h = (refl, h)
both false b h = absurd cc

pub by_table : (n : ℕ) (f g : ℕ → ℕ) → agree_below n f g ≡ true → (x : ℕ) → x < n → f x ≡ g x
by_table zero f g h x lt = absurd (omega arith)
by_table (suc n) f g h x lt =
    let (top, rest) = both (f n == g n) (agree_below n f g) h in
    elim (Bool-cases (x == n)) [
      | inl e ↦
          let at : x ≡ n = (==_iff x n).0 e in ap f at ∙ (==_iff (f n) (g n)).0 top ∙ ap g (sym at)
      | inr e ↦ by_table n f g rest x (ground arith)
    ]
