-- ===== src/Vga.antt =====
-- src/term/vga.c: the text screen of 80 columns and 25 rows.
pub mod Screen
mod Tests
use studix.Base.{
  ℕ, zero, suc, ◌+◌, ◌-◌, ◌*◌, ◌/◌, ◌^◌, List, [], ◌∷◌, ◌++◌, Bool, ltb, ◌==◌, if◌then◌else◌, u8,
  u16, add32, sub32, mul32, bit_and, bit_or,
}

abbrev pub vga_width : ℕ
vga_width = 80

abbrev pub vga_height : ℕ
vga_height = 25

abbrev pub crtc_port : ℕ
crtc_port = 0x3d4

abbrev pub black : ℕ
black = 0

abbrev pub white : ℕ
white = 15

-- The globals of vga.c. `term_buffer` is the memory from 0xB8000 on in units of two bytes, beyond
-- the screen too; `ports` are the calls of outb so far, the port with the byte.
pub record Term : Type 0 where
  pub curr_y : ℕ
  pub curr_x : ℕ
  pub term_buffer : ℕ → ℕ
  pub term_color : ℕ
  pub ports : List (ℕ × ℕ)

unfoldable pub make_color : (fg bg : ℕ) → ℕ
make_color fg bg = u8 (bit_or fg (bg * 2 ^ 4))

-- `char` is signed, so that a byte with its top bit set is extended by ones.
unfoldable pub make_vga_entry : (c color : ℕ) → ℕ
make_vga_entry c color =
    let c16 = if ltb c 128 then c else 0xff00 + c in u16 (bit_or c16 (color * 2 ^ 8))

-- The index y * VGA_WIDTH + x.
abbrev pub cell : (x y : ℕ) → ℕ
cell x y = add32 (mul32 y vga_width) x

-- buffer[i] = w
unfoldable pub put : (ℕ → ℕ) → (i w : ℕ) → ℕ → ℕ
put buffer i w z = if z == i then w else buffer z

unfoldable pub term_put_entry : (ℕ → ℕ) → (c color x y : ℕ) → ℕ → ℕ
unfolding put make_vga_entry
term_put_entry buffer c color x y = put buffer (cell x y) (make_vga_entry c color)

-- `left` columns from x on, in row y.
pub blank_row : (left x y color : ℕ) → (ℕ → ℕ) → ℕ → ℕ
unfolding term_put_entry
blank_row zero x y color buffer = buffer
blank_row (suc left) x y color buffer =
    blank_row left (x + 1) y color (term_put_entry buffer b' ' color x y)

pub blank_rows : (left y color : ℕ) → (ℕ → ℕ) → ℕ → ℕ
blank_rows zero y color buffer = buffer
blank_rows (suc left) y color buffer =
    blank_rows left (y + 1) color (blank_row vga_width 0 y color buffer)

unfoldable pub init_term : Term → Term
unfolding make_color
init_term t =
    let color = make_color white black in
    record t { term_color = color; term_buffer = blank_rows vga_height 0 color t.term_buffer }

unfoldable pub term_set_color : Term → ℕ → Term
term_set_color t color = record t { term_color = color }

unfoldable pub entry_at : (ℕ → ℕ) → (x y : ℕ) → ℕ
entry_at buffer x y = buffer (cell x y)

-- The two loops of term_scroll that move the rows up.
pub copy_row : (left x y : ℕ) → (ℕ → ℕ) → ℕ → ℕ
unfolding put entry_at
copy_row zero x y buffer = buffer
copy_row (suc left) x y buffer =
    copy_row left (x + 1) y (put buffer (cell x y) (entry_at buffer x (y + 1)))

pub copy_rows : (left y : ℕ) → (ℕ → ℕ) → ℕ → ℕ
copy_rows zero y buffer = buffer
copy_rows (suc left) y buffer = copy_rows left (y + 1) (copy_row vga_width 0 y buffer)

unfoldable pub term_scroll : Term → Term
unfolding make_color
term_scroll t =
    let moved = copy_rows (vga_height - 1) 0 t.term_buffer in
    record t {
      term_buffer = blank_row vga_width 0 (vga_height - 1) (make_color black black) moved;
      curr_x = 0;
      curr_y = vga_height - 1;
    }

unfoldable pub update_cursor : Term → Term
update_cursor t =
    let position = u16 (cell t.curr_x t.curr_y) in
    record t {
      ports =
          t.ports
          ++ (crtc_port, 0xf)
            ∷ (crtc_port + 1, bit_and position 0xff)
            ∷ (crtc_port, 0xe)
            ∷ (crtc_port + 1, position / 2 ^ 8)
            ∷ [];
    }

-- term_putchar('\n'), which term_putchar calls at the end of a row.
unfoldable pub new_line : Term → Term
unfolding term_scroll update_cursor
new_line t =
    let down = record t { curr_x = 0; curr_y = add32 t.curr_y 1 } in
    update_cursor (if down.curr_y == vga_height then term_scroll down else down)

-- term_putchar('\b')
unfoldable pub back_space : Term → Term
back_space t =
    if t.curr_x == 0
    then record t { curr_x = vga_width - 1; curr_y = sub32 t.curr_y 1 }
    else record t { curr_x = sub32 t.curr_x 1 }

-- The default case of term_putchar.
unfoldable pub put_glyph : Term → ℕ → Term
unfolding term_put_entry new_line
put_glyph t c =
    let shown = record t {
      term_buffer = term_put_entry t.term_buffer c t.term_color t.curr_x t.curr_y;
      curr_x = add32 t.curr_x 1;
    } in
    if shown.curr_x == vga_width then new_line shown else shown

unfoldable pub term_putchar : Term → ℕ → Term
unfolding new_line back_space put_glyph
term_putchar t c =
    if c == 10
    then new_line t
    else if c == 13
    then record t { curr_x = 0 }
    else if c == 8
    then back_space t
    else put_glyph t c

-- The characters of a text, without its terminator.
unfoldable pub term_putsn : Term → List ℕ → Term
unfolding term_putchar
term_putsn t [] = t
term_putsn t (c ∷ str) = term_putsn (term_putchar t c) str

unfoldable pub term_puts : Term → List ℕ → Term
unfolding term_putsn
term_puts t str = term_putchar (term_putsn t str) 10
