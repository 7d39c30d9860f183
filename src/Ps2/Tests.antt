-- ===== src/Ps2/Tests.antt =====
-- Scan codes of the keyboard.
use studix.Base.{◌≡◌, inr, Bool, true, [], ok, Returns, arith, refl}
use studix.Vga.{Term}
use studix.Ps2.{Ps2, ps2_handler, get_char}
use studix.Ps2.Shift.{shift_after, ps2_handler-shift_after}

abbrev screen : Term
screen = record { curr_y = 1; curr_x = 0; term_buffer = λ z. 0; term_color = 15; ports = [] }

abbrev shifted : Bool → Ps2
shifted shift = record { shift_down = shift; term = screen }

key_a : get_char 0x1e ≡ ok b'a'
unfolding get_char
key_a = refl

ps2_handler-shift_after_example :
    Returns (λ k'. k'.shift_down ≡ shift_after true 0x1e) (ps2_handler (shifted true) 0x1e)
ps2_handler-shift_after_example =
    ps2_handler-shift_after (shifted true) 0x1e b'a' (inr (key_a, inr (omega arith, omega arith)))
