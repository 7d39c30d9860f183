-- ===== src/Messages.antt =====
-- What the kernel prints when it gives up, and on the way: src/misc/assert.c, src/misc/panic.c, the page
-- fault handler of src/mem/page.c, the end of init_ata, and the notices of src/main.c. A message is the
-- characters that are passed to term_putchar; `f` is the fuel of a number.
mod Tests
use studix.Base.{
  ℕ, ◌+◌, ◌%◌, List, [], ◌∷◌, ◌++◌, Bool, not, Result, ok, ◌>>=◌, ◌==◌, if◌then◌else◌, codes,
  bit_and, u8,
}
use studix.Printf.{Arg, word, text, term_printf}
use studix.Pata.{Pata, sel_master, primary_base}

-- After it interrupts are disabled, and a loop without end.
unfoldable pub assert_message :
    (f : ℕ) → (asserted_expr filename func : List ℕ) → (line : ℕ) → Result (List ℕ)
assert_message f asserted_expr filename func line =
    term_printf f (codes "\nFailed assert at %s, %s:%d\n %s")
      (text filename ∷ text func ∷ word line ∷ text asserted_expr ∷ [])

unfoldable pub panic_message :
    (f : ℕ) → (message filename func : List ℕ) → (line : ℕ) → Result (List ℕ)
panic_message f message filename func line =
    term_printf f (codes "Kernel panic!\n%s, %s:%d: %s")
      (text filename ∷ text func ∷ word line ∷ text message ∷ [])

-- `fault_addr` is the register CR2.
unfoldable pub page_fault_message : (f fault_addr err : ℕ) → Result (List ℕ)
page_fault_message f fault_addr err =
    let err' = u8 err in
    let present = bit_and err' 0x01 == 0 in
    let read = not (bit_and err' 0x02 == 0) in
    let user = not (bit_and err' 0x04 == 0) in
    let overwrite = not (bit_and err' 0x08 == 0) in
    let fetch = not (bit_and err' 0x10 == 0) in
    do
      l1 ← term_printf f (codes "Page fault at %p\n") (word fault_addr ∷ [])
      l2 ← term_printf f (codes " %s\n caused by a %s access in %s mode\n") (
          text (if present then codes "protection fault" else codes "page was not found")
          ∷ text (if read then codes "read" else codes "write")
          ∷ text (if user then codes "user" else codes "kernel")
          ∷ [])
      l3 ←
          term_printf f (codes " reserved bits were %soverwritten\n")
            (text (if overwrite then codes "" else codes "not ") ∷ [])
      l4 ←
          term_printf f (codes " %s caused by instruction fetch\n")
            (text (if fetch then codes "was" else codes "not") ∷ [])
      ok (l1 ++ l2 ++ l3 ++ l4)

-- What init_ata prints about the drive that it has selected.
unfoldable pub drive_message : (f : ℕ) → Pata → Result (List ℕ)
drive_message f p =
    if p.sel_base_port == 0 then ok (codes "No drives attached! What's going on?\n") else do
      l1 ← term_printf f (codes "Found a drive!\nSelected drive is the %s on the %s bus\n") (
          text (if p.sel_master_or_slave == sel_master then codes "master" else codes "slave")
          ∷ text (if p.sel_base_port == primary_base then codes "primary" else codes "secondary")
          ∷ [])
      l2 ← term_printf f (codes "Max LBA value is %d\n") (word p.max_sector ∷ [])
      ok (l1 ++ l2)

-- print_time, and then term_puts, before the function is called.
unfoldable pub timer_notify_message : (f uptime : ℕ) → (str : List ℕ) → Result (List ℕ)
timer_notify_message f uptime str = do
  time ← term_printf f (codes "[%lms] ") (word uptime ∷ [])
  ok (time ++ str ++ codes "\n")
