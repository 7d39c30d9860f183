-- ===== src/Ps2/Shift.antt =====
-- The shift state of the keyboard.
use studix.Base.{
  ℕ, zero, suc, ◌-◌, ◌≤◌, ◌<◌, ◌≡◌, ◌⊎◌, inl, inr, Bool, true, false, ◌||◌, ◌&&◌, arith, List, [],
  ◌∷◌, length, Result, ok, stop, undefined, Returns, Returns-bind, refl, leb, ltb, ◌==◌,
  if◌then◌else◌, Bool-cases,
}
use studix.Vga.{term_putchar, term_putsn, update_cursor}
use studix.Ps2.{
  Ps2, ps2_handler, show_char, get_char, capitalize, at_index, uppercase_symbols, pressedp,
}

-- Shift is down after the code of a shift key pressed, and up after that of one released.
abbrev pub shift_after : Bool → ℕ → Bool
shift_after shift s =
    if (s == 0x2a) || (s == 0x36) then true else if (s == 0xaa) || (s == 0xb6) then false else shift

at_index-Returns :
    (table : List ℕ) (i : ℕ) → i < length table → Returns (λ c. Unit {0}) (at_index table i)
unfolding at_index
at_index-Returns [] i h = absurd (omega arith)
at_index-Returns (c ∷ table) zero h = tt
at_index-Returns (c ∷ table) (suc i) h = at_index-Returns table i (omega arith)

capitalize-Returns : (c : ℕ) → 39 ≤ c → c ≤ 122 → Returns (λ c'. Unit {0}) (capitalize c)
unfolding capitalize
capitalize-Returns c p q =
    let symbol : ltb c 39 ≡ false = ground arith in
    elim (Bool-cases (leb 97 c && leb c 122)) [
      | inl e ↦ rw e tt
      | inr e ↦ rw e (rw symbol (at_index-Returns uppercase_symbols (c - 39) (ground arith)))
    ]

-- The character of a key can be shown: shift is up, or the character has a place in the table of
-- symbols.
abbrev pub Typable : Ps2 → ℕ → Type 0
Typable k c = k.shift_down ≡ false ⊎ (39 ≤ c) × (c ≤ 122)

shown_as : Ps2 → ℕ → Result ℕ
shown_as k c = if k.shift_down then capitalize c else ok c

shown_as-Returns : (k : Ps2) (c : ℕ) → Typable k c → Returns (λ c'. Unit {0}) (shown_as k c)
unfolding shown_as
shown_as-Returns k c (inl up) = rw up tt
shown_as-Returns k c (inr (p, q)) = elim (Bool-cases k.shift_down) [
  | inl e ↦ rw e (capitalize-Returns c p q)
  | inr e ↦ rw e tt
]

show_char-Returns :
    (k : Ps2) (s c : ℕ)
    → get_char s ≡ ok c
    → Typable k c
    → Returns (λ k'. k'.shift_down ≡ k.shift_down) (show_char k s)
unfolding show_char shown_as
show_char-Returns k s c e h = rw e (
    Returns-bind _ (shown_as k c) _ (shown_as-Returns k c h)
      λ c' u. elim (Bool-cases (pressedp s)) [ inl e ↦ rw e refl | inr e ↦ rw e refl ])

other_code :
    (k : Ps2) (s c : ℕ)
    → (get_char s ≡ ok c) × Typable k c
    → Returns
        (λ k'. k'.shift_down ≡ k.shift_down)
        (if s == 0x1c
          then ok (record k { term = term_putchar k.term 10 })
          else if s == 0x0e
          then ok (record k { term = update_cursor (term_putsn k.term (8 ∷ b' ' ∷ 8 ∷ [])) })
          else show_char k s)
other_code k s c (e, h) = elim (Bool-cases (s == 0x1c)) [
  | inl e1 ↦ rw e1 refl
  | inr e1 ↦ elim (Bool-cases (s == 0x0e)) [
    | inl e2 ↦ rw e1 (rw e2 refl)
    | inr e2 ↦ rw e1 (rw e2 (show_char-Returns k s c e h))
  ]
]

abbrev pub is_shift : ℕ → Bool
is_shift s = ((s == 0x2a) || (s == 0x36)) || ((s == 0xaa) || (s == 0xb6))

-- On the code of a shift key, and on that of a key whose character can be shown, the handler returns;
-- shift is then down after a shift key was pressed, up after one was released, and as before after any
-- other key.
pub ps2_handler-shift_after :
    (k : Ps2) (s c : ℕ)
    → is_shift s ≡ true ⊎ (get_char s ≡ ok c) × Typable k c
    → Returns (λ k'. k'.shift_down ≡ shift_after k.shift_down s) (ps2_handler k s)
unfolding ps2_handler
ps2_handler-shift_after k s c h = elim (Bool-cases ((s == 0x2a) || (s == 0x36))) [
  | inl e1 ↦ rw e1 refl
  | inr e1 ↦ elim (Bool-cases ((s == 0xaa) || (s == 0xb6))) [
    | inl e2 ↦ rw e1 (rw e2 refl)
    | inr e2 ↦ rw e1 (rw e2 (other_code k s c (shown h e1 e2)))
  ]
]
  where
    shown :
        is_shift s ≡ true ⊎ (get_char s ≡ ok c) × Typable k c
        → ((s == 0x2a) || (s == 0x36)) ≡ false
        → ((s == 0xaa) || (s == 0xb6)) ≡ false
        → (get_char s ≡ ok c) × Typable k c
    shown (inl e) e1 e2 = absurd (ground arith)
    shown (inr e) e1 e2 = e

-- With shift down, a key whose character stands before the first of the symbols, as the space bar,
-- makes the handler read before the table.
show_char_before_table :
    (k : Ps2) (s c : ℕ)
    → k.shift_down ≡ true
    → get_char s ≡ ok c
    → c < 39
    → show_char k s ≡ stop undefined
unfolding show_char capitalize
show_char_before_table k s c down e h =
    let letter : (leb 97 c && leb c 122) ≡ false = ground arith in
    let early : ltb c 39 ≡ true = ground arith in rw e (rw down (rw letter (rw early refl)))
