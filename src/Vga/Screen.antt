-- ===== src/Vga/Screen.antt =====
-- Where the cursor of the text screen is, and what a character changes.
use studix.Base.{
  inl, List, [], ◌∷◌, bit_or, bit_or_step, pow-pos, ◌^◌, ℕ, zero, suc, ◌+◌, ◌-◌, ◌*◌, ◌/◌, ◌%◌, ◌≤◌,
  ◌<◌, ◌≡◌, ◌≢◌, ◌⊎◌, Bool, arith, refl, ltb, leb, ◌&&◌, ◌==◌, if◌then◌else◌, ap, ap₂,
}
use native.Mathlib.Nat.{pow-suc, add_comm}
use Prim.Native.Nat.{bit_or-bitwise}
use studix.Vga.{
  term_put_entry, Term, cell, put, make_vga_entry, make_color, copy_row, copy_rows, blank_row,
  term_scroll, update_cursor, new_line, back_space, put_glyph, term_putchar, term_putsn,
}

-- The cursor stands on the screen.
abbrev pub OnScreen : Term → Type 0
OnScreen t = (t.curr_x < 80) × (t.curr_y < 25)

-- z lies in the `left` cells from i on.
abbrev pub among : ℕ → ℕ → ℕ → Bool
among i left z = leb i z && ltb z (i + left)

copy_row_lem :
    (left x y : ℕ) (buffer : ℕ → ℕ) (z : ℕ)
    → x + left ≤ 80
    → y < 25
    → copy_row left x y buffer z ≡ (if among (y * 80 + x) left z then buffer (z + 80) else buffer z)
unfolding copy_row put
copy_row_lem zero x y buffer z p q = ground arith
copy_row_lem (suc left) x y buffer z p q =
    ground (arith, copy_row_lem left (x + 1) y (put buffer (cell x y) (buffer (cell x (y + 1)))) z)

copy_rows_lem :
    (left y : ℕ) (buffer : ℕ → ℕ) (z : ℕ)
    → y + left ≤ 24
    → copy_rows left y buffer z
      ≡ (if among (y * 80) (left * 80) z then buffer (z + 80) else buffer z)
unfolding copy_rows
copy_rows_lem zero y buffer z p = ground arith
copy_rows_lem (suc left) y buffer z p = ground (
  arith,
  copy_rows_lem left (y + 1) (copy_row 80 0 y buffer) z,
  copy_row_lem 80 0 y buffer z,
  copy_row_lem 80 0 y buffer (z + 80),
)

blank_row_lem :
    (left x y color : ℕ) (buffer : ℕ → ℕ) (z : ℕ)
    → x + left ≤ 80
    → y < 25
    → blank_row left x y color buffer z
      ≡ (if among (y * 80 + x) left z then make_vga_entry b' ' color else buffer z)
unfolding blank_row put
blank_row_lem zero x y color buffer z p q = ground arith
blank_row_lem (suc left) x y color buffer z p q = ground (
  arith,
  blank_row_lem left (x + 1) y color (put buffer (cell x y) (make_vga_entry b' ' color)) z,
)

-- A character leaves the cursor on the screen, unless it is a backspace at the top left corner.
pub term_putchar-OnScreen :
    (t : Term) (c : ℕ) → OnScreen t → c ≢ 8 ⊎ 0 < t.curr_x + t.curr_y → OnScreen (term_putchar t c)
unfolding term_putchar new_line back_space put_glyph term_scroll update_cursor
term_putchar-OnScreen t c (p, q) h = ground arith

-- No character of the text is a backspace.
abbrev pub NoBackspace : List ℕ → Type 0
NoBackspace [] = Unit
NoBackspace (c ∷ str) = (c ≢ 8) × NoBackspace str

-- A text without a backspace leaves the cursor on the screen.
term_putsn-OnScreen :
    (t : Term) (str : List ℕ) → OnScreen t → NoBackspace str → OnScreen (term_putsn t str)
unfolding term_putsn
term_putsn-OnScreen t [] h plain = h
term_putsn-OnScreen t (c ∷ str) h (p, plain) =
    term_putsn-OnScreen (term_putchar t c) str (term_putchar-OnScreen t c h (inl p)) plain

-- Scrolling moves every row of the screen but the first up by one, fills the last with black blanks,
-- and changes nothing behind the screen.
pub term_scroll-moved :
    (t : Term) (z : ℕ)
    → (term_scroll t).term_buffer z ≡ (
        if ltb z 1920
        then t.term_buffer (z + 80)
        else if ltb z 2000
        then make_vga_entry b' ' 0
        else t.term_buffer z)
unfolding term_scroll
term_scroll-moved t z =
    let black : make_color 0 0 ≡ 0 = refl in
    ground (
      arith,
      blank_row_lem 80 0 24 0 (copy_rows 24 0 t.term_buffer) z,
      copy_rows_lem 24 0 t.term_buffer z,
    )

-- Four digits at a time: the low ones of the second number are 0.
or_nibble : (a h k : ℕ) → a < 16 → bit_or (a + 16 * h) (16 * k) ≡ a + 16 * bit_or h k
or_nibble a h k p =
    let a0 : (a + 16 * h) / 2 / 2 / 2 / 2 ≡ h = omega arith in
    let k0 : 16 * k / 2 / 2 / 2 / 2 ≡ k = omega arith in
    omega (
      arith,
      bit_or_step (a + 16 * h) (16 * k),
      bit_or_step ((a + 16 * h) / 2) (16 * k / 2),
      bit_or_step ((a + 16 * h) / 2 / 2) (16 * k / 2 / 2),
      bit_or_step ((a + 16 * h) / 2 / 2 / 2) (16 * k / 2 / 2 / 2),
      ap₂ bit_or a0 k0,
    )

or_byte : (a h k : ℕ) → a < 256 → bit_or (a + 256 * h) (256 * k) ≡ a + 256 * bit_or h k
or_byte a h k p =
    let a0 : a + 256 * h ≡ a % 16 + 16 * (a / 16 + 16 * h) = omega arith in
    let k0 : 256 * k ≡ 16 * (16 * k) = omega arith in
    omega (
      arith,
      ap₂ bit_or a0 k0,
      or_nibble (a % 16) (a / 16 + 16 * h) (16 * k) (omega arith),
      or_nibble (a / 16) h k (omega arith),
    )

or_nothing : (k : ℕ) → bit_or 0 k ≡ k
or_nothing k = bit_or-bitwise 0 k

or_ones : (n k : ℕ) → k < 2 ^ n → bit_or (2 ^ n - 1) k ≡ 2 ^ n - 1
or_ones zero k p = omega (arith, or_nothing k)
or_ones (suc n) k p =
    let half : (2 ^ suc n - 1) / 2 ≡ 2 ^ n - 1 = omega (arith, pow-suc 2 n, pow-pos n) in
    let rest : bit_or ((2 ^ suc n - 1) / 2) (k / 2) ≡ 2 ^ n - 1 =
      rw half (or_ones n (k / 2) (omega (arith, pow-suc 2 n))) in
    omega (arith, pow-suc 2 n, pow-pos n, bit_or_step (2 ^ suc n - 1) k, rest)

-- An entry has the character in its low byte and the color in its high one; but a character with its
-- top bit set comes with white on white, whatever the color. Both are below 2^8.
pub make_vga_entry-colored :
    (c color : ℕ)
    → c < 256
    → color < 256
    → make_vga_entry c color ≡ c + 256 * (if ltb c 128 then color else 255)
unfolding make_vga_entry
make_vga_entry-colored c color p q =
    let turn : color * 256 ≡ 256 * color = omega arith in
    let low : bit_or c (color * 256) ≡ c + 256 * color =
      let end : c ≡ c + 256 * 0 = omega arith in
      rw turn (
        omega (
          arith,
          or_byte c 0 color p,
          or_nothing color,
          ap (λ (w : ℕ). bit_or w (256 * color)) end,
        )) in
    let wide : bit_or (0xff00 + c) (color * 256) ≡ c + 256 * 255 = rw turn (
      omega (
        arith,
        or_byte c 255 color p,
        or_ones 8 color q,
        ap (λ (w : ℕ). bit_or w (256 * color)) (add_comm 65280 c),
      )) in
    ground (arith, low, wide)

-- A character that is no control character is shown in the cell of the cursor, and the cursor moves
-- on by one; before the last column no other cell changes.
term_putchar-shown :
    (t : Term) (c z : ℕ)
    → OnScreen t
    → t.curr_x < 79
    → 31 < c
    → (term_putchar t c).term_buffer z
        ≡ (if z == 80 * t.curr_y + t.curr_x then make_vga_entry c t.term_color else t.term_buffer z)
      × ((term_putchar t c).curr_x ≡ t.curr_x + 1)
      × ((term_putchar t c).curr_y ≡ t.curr_y)
unfolding term_putchar put_glyph term_put_entry put
term_putchar-shown t c z (p, q) h glyph = ground arith

-- A backspace at the top left corner takes the cursor off the screen: the next character that is no
-- control character is written to the two bytes before the screen's memory.
back_space_corner :
    (t : Term) (c : ℕ)
    → t.curr_x + t.curr_y ≡ 0
    → 31 < c
    → (term_putchar (term_putchar t 8) c).term_buffer 4294967295 ≡ make_vga_entry c t.term_color
unfolding term_putchar back_space put_glyph term_put_entry put new_line update_cursor
back_space_corner t c h glyph = ground arith
