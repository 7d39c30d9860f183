-- ===== src/Messages/Tests.antt =====
-- Messages as they appear.
use studix.Base.{◌≡◌, refl, ok, codes}
use studix.Printf.{term_printf, print_arg, term_print_dec, term_print_decu, term_print_hex}
use studix.Messages.{assert_message, panic_message, page_fault_message}

failed_assert :
    assert_message 10 (codes "a == c") (codes "main.c") (codes "kernel_main") 86
    ≡ ok (codes "\nFailed assert at main.c, kernel_main:86\n a == c")
unfolding assert_message term_print_dec term_print_decu term_printf print_arg
failed_assert = refl

panicked_at :
    panic_message 10 (codes "Page fault!") (codes "page.c") (codes "page_fault_handler") 168
    ≡ ok (codes "Kernel panic!\npage.c, page_fault_handler:168: Page fault!")
unfolding panic_message term_print_dec term_print_decu term_printf print_arg
panicked_at = refl

-- A write of the kernel to a page that is not there.
write_to_missing :
    page_fault_message 10 0xc0000000 2
    ≡ ok (
        codes
          "Page fault at 0xc0000000\n protection fault\n caused by a read access in kernel mode\n reserved bits were not overwritten\n not caused by instruction fetch\n")
unfolding page_fault_message term_print_hex term_printf print_arg
write_to_missing = refl
