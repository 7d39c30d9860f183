-- ===== src/Base/Outcome.antt =====
-- Code that can stop. ASSERT and PANIC print a message and then loop for ever with interrupts
-- disabled, so nothing follows them; `undefined` is an access that C gives no meaning (an index out
-- of range, a null pointer), `aliased` a write into what a model keeps outside of memory, and `fuel` ends a loop that the model cut short.
use mathlib.Core.Bool.{Bool, true, false}

pub data Stop : Type 0 where
  assertion panicked undefined aliased fuel : Stop

pub data Result {ℓ} (A : Type ℓ) : Type ℓ where
  ok : A → Result A
  stop : Stop → Result A

infixl 5 ◌>>=◌ ◌>>◌
abbrev pub ◌>>=◌ {ℓ κ} : {A : Type ℓ} {B : Type κ} → Result A → (A → Result B) → Result B
ok a >>= f = f a
stop e >>= f = stop e

abbrev pub ◌>>◌ {ℓ} : {B : Type ℓ} → Result (Unit {0}) → Result B → Result B
m >> k = m >>= λ _. k

-- ASSERT(test)
abbrev pub assert : Bool → Result (Unit {0})
assert true = ok tt
assert false = stop assertion

-- What holds of every value that is returned; it also says that one is returned.
abbrev pub Returns : {A : Type 0} → (A → Type 0) → Result A → Type 0
Returns P (ok a) = P a
Returns P (stop e) = ⊥

pub Returns-mono :
    {A : Type 0} {P Q : A → Type 0} (r : Result A)
    → ((a : A) → P a → Q a)
    → Returns P r
    → Returns Q r
Returns-mono (ok a) weaken h = weaken a h
Returns-mono (stop e) weaken h = h

-- Running on from a result that is returned.
pub Returns-bind :
    {A B : Type 0} {P : A → Type 0} (Q : B → Type 0) (r : Result A) (f : A → Result B)
    → Returns P r
    → ((a : A) → P a → Returns Q (f a))
    → Returns Q (r >>= f)
Returns-bind Q (ok a) f h next = next a h
Returns-bind Q (stop e) f h next = absurd h
