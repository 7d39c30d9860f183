-- ===== src/Vga/Tests.antt =====
-- The text screen at concrete characters.
use studix.Base.{ℕ, ◌+◌, ◌≡◌, [], arith, inl, ltb, if◌then◌else◌}
use studix.Vga.{Term, make_vga_entry, term_putchar, term_scroll}
use studix.Vga.Screen.{OnScreen, term_putchar-OnScreen, term_scroll-moved}

abbrev at_cell : (x y : ℕ) → Term
at_cell x y = record { curr_y = y; curr_x = x; term_buffer = λ z. z; term_color = 7; ports = [] }

term_putchar-OnScreen_example : OnScreen (term_putchar (at_cell 79 24) b'a')
term_putchar-OnScreen_example =
    term_putchar-OnScreen (at_cell 79 24) b'a' (omega arith, omega arith) (inl (omega arith))

term_scroll-moved_example :
    (term_scroll (at_cell 5 25)).term_buffer 100
    ≡ (if ltb 100 1920 then 100 + 80 else if ltb 100 2000 then make_vga_entry b' ' 0 else 100)
term_scroll-moved_example = term_scroll-moved (at_cell 5 25) 100
