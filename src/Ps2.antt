-- ===== src/Ps2.antt =====
-- src/devices/ps2.c: the keyboard. The scan code that inb returns is an argument of the handler;
-- init_ps2 only registers it.
pub mod Shift
mod Tests
use studix.Base.{
  ℕ, zero, suc, ◌+◌, ◌-◌, Bool, true, false, ◌&&◌, ◌||◌, List, [], ◌∷◌, Result, ok, stop, undefined,
  ◌>>=◌, ltb, leb, ◌==◌, if◌then◌else◌,
}
use studix.Vga.{Term, term_putchar, term_putsn, update_cursor}

-- The shift state, with the screen that the handler writes to.
pub record Ps2 : Type 0 where
  pub shift_down : Bool
  pub term : Term

abbrev pub case_diff : ℕ
case_diff = 32

abbrev pub symbol_start : ℕ
symbol_start = 39

unfoldable pub pressedp : ℕ → Bool
pressedp scancode = leb scancode 0x58

-- With the terminator, which belongs to the array.
abbrev pub scancode_set1 : List ℕ
scancode_set1 =
    0 ∷ 0 ∷ b'1' ∷ b'2' ∷ b'3' ∷ b'4' ∷ b'5' ∷ b'6' ∷ b'7' ∷ b'8' ∷ b'9' ∷ b'0' ∷ b'-' ∷ b'=' ∷ 8
    ∷ 9 ∷ b'q' ∷ b'w' ∷ b'e' ∷ b'r' ∷ b't' ∷ b'y' ∷ b'u' ∷ b'i' ∷ b'o' ∷ b'p' ∷ b'[' ∷ b']' ∷ 0 ∷ 0
    ∷ b'a' ∷ b's' ∷ b'd' ∷ b'f' ∷ b'g' ∷ b'h' ∷ b'j' ∷ b'k' ∷ b'l' ∷ b';' ∷ 39 ∷ b'`' ∷ 0 ∷ 92
    ∷ b'z' ∷ b'x' ∷ b'c' ∷ b'v' ∷ b'b' ∷ b'n' ∷ b'm' ∷ b',' ∷ b'.' ∷ b'/' ∷ 0 ∷ 0 ∷ 0 ∷ b' ' ∷ 0
    ∷ []

-- The line that continues the literal begins with a tab and a space.
abbrev pub uppercase_symbols : List ℕ
uppercase_symbols =
    34 ∷ 0 ∷ 0 ∷ 0 ∷ 0 ∷ b'<' ∷ b'_' ∷ b'>' ∷ b'?' ∷ b')' ∷ b'!' ∷ b'@' ∷ b'#' ∷ b'$' ∷ b'%' ∷ b'^'
    ∷ b'&' ∷ b'*' ∷ b'(' ∷ 0 ∷ b':' ∷ 0 ∷ b'+' ∷ 0 ∷ 0 ∷ 0 ∷ 0 ∷ 0 ∷ 0 ∷ 0 ∷ 0 ∷ 0 ∷ 0 ∷ 0 ∷ 0 ∷ 0
    ∷ 0 ∷ 0 ∷ 0 ∷ 9 ∷ b' ' ∷ 0 ∷ 0 ∷ 0 ∷ 0 ∷ 0 ∷ 0 ∷ 0 ∷ 0 ∷ 0 ∷ 0 ∷ 0 ∷ b'{' ∷ b'|' ∷ b'}' ∷ 0 ∷ 0
    ∷ b'~' ∷ 0 ∷ []

-- table[i]
unfoldable pub at_index : List ℕ → ℕ → Result ℕ
at_index [] i = stop undefined
at_index (c ∷ table) zero = ok c
at_index (c ∷ table) (suc i) = at_index table i

unfoldable pub get_char : ℕ → Result ℕ
unfolding at_index
get_char scancode =
    if leb 0x81 scancode
    then at_index scancode_set1 (scancode - 0x80)
    else at_index scancode_set1 scancode

-- A character below SYMBOL_START has a negative index.
unfoldable pub capitalize : ℕ → Result ℕ
unfolding at_index
capitalize c =
    if leb b'a' c && leb c b'z'
    then ok (c - case_diff)
    else if ltb c symbol_start
    then stop undefined
    else at_index uppercase_symbols (c - symbol_start)

-- The part of the handler behind the switch.
unfoldable pub show_char : Ps2 → ℕ → Result Ps2
unfolding get_char capitalize pressedp term_putchar update_cursor
show_char k s = do
  c ← get_char s
  c' ← (if k.shift_down then capitalize c else ok c)
  ok (if pressedp s then record k { term = update_cursor (term_putchar k.term c') } else k)

unfoldable pub ps2_handler : Ps2 → ℕ → Result Ps2
unfolding show_char term_putchar term_putsn update_cursor
ps2_handler k s =
    if (s == 0x2a) || (s == 0x36)
    then ok (record k { shift_down = true })
    else if (s == 0xaa) || (s == 0xb6)
    then ok (record k { shift_down = false })
    else if s == 0x1c
    then ok (record k { term = term_putchar k.term 10 })
    else if s == 0x0e
    then ok (record k { term = update_cursor (term_putsn k.term (8 ∷ b' ' ∷ 8 ∷ [])) })
    else show_char k s
