-- ===== src/Lib.antt =====
-- The memory management, the file system and the terminal of a small 32-bit x86 kernel written in C.
--
-- Parts and files
--
-- Base has the shared notation: tests, lists, results of code that can stop, words and single bits.
-- Memory is the memory that all C code below works on: a byte at each address, with reads and
-- writes of bytes and of 32-bit words.
-- Strings is src/lib/string.c.
-- OrderedArray is src/misc/ordered_array.c: an array of pointers in memory with a comparer. The
-- index of the heap is one, compared by the sizes that the headers in memory have.
-- Kernel has the globals of src/mem/*.c and the one struct Heap (src/include/heap.h).
-- Paging is src/mem/page.c: alignment, the bitset of frames, page entries, get_page.
-- InitPaging is init_paging of the same file, which sets these up and makes the heap; InitPaging/Steps to
-- InitPaging/Mapped follow its steps up to the page tables, InitPaging/Ready goes on to the heap.
-- Heap is src/mem/heap.c: headers, footers, the searches through the index, expand and contract.
-- Kmalloc is src/mem/kmalloc.c, with the heap's alloc as an argument.
-- Alloc is src/mem/alloc.c. alloc, make_space, expand, get_page and kmalloc_ap call one another in
-- the source: a new page needs a page table, which is allocated in the heap. The model hands
-- each the function that it calls, and alloc ties the knot.
-- Ext2 is src/fs/ext2.c: superblock, group descriptors, inodes, reading, directories, paths.
-- Ext2/Directory and Ext2/Tree say what a directory and a path are; Ext2/Init is ext2_init_fs.
-- Messages is what the kernel prints when it stops, and on the way: src/misc and others.
-- Gdt is src/cpu_setup/gdt.c: the segment descriptors.
-- Vga is src/term/vga.c: the text screen and its cursor.
-- Printf is src/term/term_printf.c: what a format prints, as the characters passed to term_putchar.
-- Ps2 is src/devices/ps2.c: scan codes, the shift state, and what the keyboard's handler shows.
-- Ports is the machine behind src/devices/dev.c, a parameter of the driver that reads from it.
-- Pata is src/devices/pata.c. Pata/Drive says what a drive does; Pata/Contract shows that the driver
-- then delivers what Ext2 takes a read of sectors to be.
-- Idt is src/cpu_setup/idt.c, Interrupt src/cpu_setup/interrupt.c, Interrupt/Timer src/devices/timer.c.
-- Vfs is src/fs/vfs.c: nodes in memory, and the calls of the functions that they lead to.
-- Ext2Vfs is src/fs/ext2_vfs.c: ext2 behind such nodes. Ext2Vfs/Open opens and reads a file through them.
-- Initrd is src/fs/initrd.c: the initial ramdisk, whose nodes Vfs describes.
-- MakeInitrd is tools/make_initrd.c: the tool that writes the ramdisk's image. Ramdisk puts the tool and
-- the kernel together.
-- Boot is src/main.c: the count of the ramdisk's files, and the steps from the boot loader's data to them.
-- Boot/First and Boot/Leftover follow the memory management through init_paging and the first kmalloc.
--
-- How the models correspond to the code
--
-- A function of the source has the name that it has there, and takes and returns the memory or the
-- state that it changes. Loops are functions of their own. ASSERT, PANIC, accesses that C gives no
-- meaning, writes into what a model keeps outside of memory and fuel that has run out are the five
-- values of Stop; the code has no test for the third and the fourth. `none` stands for an index
-- of -1, and 0 for a null pointer. size_t, uintptr_t and unsigned long have 32 bits, and sums,
-- differences and products wrap where the code computes with them.
--
-- Fuel: the loops of string.c take as many rounds as they are given, and the theorems ask for one more
-- than the text has bytes. expand and contract are given one round for each page and two more.
-- ext2_read is given one round for each byte and one more, and each round copies a byte. The search
-- of a path is given one round more than it has bytes. A search of a directory and alloc take
-- their fuel as an argument. term_print_decu takes ten rounds for nine digits.
--
-- The driver's loops that wait take fuel too, and a drive gives a bound on its waits.
-- init_paging takes 257 rounds for the 256 pages of the heap; 1025 suffice for the pages in use, which
-- end below 4 MiB.
--
-- Not modelled: that the processor translates addresses by the page tables, and faults on pages that are
-- not mapped; the contents of a drive, which are a parameter; assembly; the messages that are not in
-- Messages, Printf or Ext2/Init. An Ext2_file is a value at an address, and ext2_vfs_read stops with
-- `aliased` where its buffer overlaps the place of the Ext2_file or of its buffer for a block. The other
-- buffers that ext2.c allocates and frees are values too, and those calls of kmalloc do not show. The
-- variables of ext2.c (the superblock, the groups, the size of a block) are a value of their own as well,
-- which no write to memory reaches.
pub mod Base
pub mod Memory
pub mod Strings
pub mod OrderedArray
pub mod Kernel
pub mod Paging
pub mod Heap
pub mod Kmalloc
pub mod Alloc
pub mod Ext2
pub mod Boot
pub mod Ext2Vfs
pub mod Gdt
pub mod Idt
pub mod InitPaging
pub mod Initrd
pub mod Interrupt
pub mod MakeInitrd
pub mod Messages
pub mod Pata
pub mod Ports
pub mod Printf
pub mod Ps2
pub mod Ramdisk
pub mod Vfs
pub mod Vga
