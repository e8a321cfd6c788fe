-- ===== src/Lib.antt =====
-- simplyOs: a small kernel for i386 in C.
--
-- The kernel starts from boot.S, copies the memory map of the boot loader (kernel/mm/multiboot.c),
-- builds the bitmap of physical frames from it (kernel/mm/pmm.c), prepares the page tables
-- (kernel/mm/paging.c) and opens a heap on mapped pages (kernel/mm/kheap.c). Text goes to the screen
-- through kernel/arch/i386/tty.c; keys come in by interrupt (kernel/arch/i386/interrupts) through
-- kernel/arch/i386/drivers/keyboard.c to the shell (kernel/arch/i386/shell/shell.c). An exception ends
-- in a report (kernel/mm/page_fault.c). The C library (libc) gives printf and the loops over memory.
--
-- The files, and the code that they model. A function has the name of the C function without its
-- prefix, a record the static variables of a file; a pointer is an address, 0 for NULL.
--   Base        what the modules share: tests, lists, words that wrap, the laws of `&` and `|`
--   Multiboot   kernel/mm/multiboot.c. Physical memory is a function from addresses to bytes;
--               `early_init` gives the state that multiboot_early_init leaves. Map: the entries.
--   Pmm         kernel/mm/pmm.c. The bitmap is a list of bytes. Valid has the invariant, Alloc the
--               two operations, Exclusive sequences of calls; Init is pmm_init, with Init/Spec and
--               Init/Regions for what it makes of each frame, by the code's conversions and by the
--               addresses of the map, Init/Protect for the kernel's own memory, and Init/Limits for
--               addresses of 4 GiB and more.
--   Kheap       kernel/mm/kheap.c. The headers of the blocks are a function from addresses to records
--               (Machine), an access to one that is not mapped is a fault, and the frames and the
--               mapping of pages are the interface `PageSource`, which states what the heap needs of
--               pmm.c and paging.c. Chunks is the heap without addresses, a list of blocks; Chain says
--               that a list in memory stands for one; Split, Free, Release, Fit, Pages, Append and
--               State follow the parts of the code, Malloc, Init, Whole and Client the operations.
--   Keyboard    kernel/arch/i386/drivers/keyboard.c. Ring is the buffer, Queue the handler,
--               Reader the reader, Session both in any order, Modifiers Shift and Caps Lock.
--   Terminal    kernel/arch/i386/tty.c and vga.h. Cells has the loops over the screen, Cursor what a
--               character does, Crtc the cursor of the hardware, Tab the tabs.
--   Libc        libc/string and libc/stdio. Print is printf; Print/Render gives the text that a
--               format stands for.
--   Paging      kernel/mm/paging.c. Physical memory is a function from addresses to words; an access
--               to a page table goes through `translate`, which is what the processor does, and none
--               is a page fault. Walk is the window of the page tables, Lookup paging_get_physical,
--               Update and Pages the change of one entry. Space has the tables and the frames together:
--               a new table (Clear, Table), writes to a frame (Data), paging_map_page on every branch
--               (Map), and the heap's `PageSource` over this component and Pmm (Source), which
--               Kheap/Backed uses.
--   Console     libc/stdio/putchar.c in the kernel: what printf writes goes to the screen. A
--               computation comes to a value, halts with a screen, or is undefined.
--   Interrupts  kernel/arch/i386/interrupts and kernel/io/io.h. Ports is what the code relies on of
--               the two controllers behind the ports, from the data sheet of the 8259A; Pic is their
--               driver, Idt the table of gates, Irq the dispatch with the keyboard driver in it, Route
--               the way of a request to its stub.
--   Gdt         kernel/arch/i386/gdt/gdt.c. Encode has the bytes of a descriptor, Segments the table
--               as the processor reads it.
--   Fault       kernel/mm/page_fault.c and kernel/arch/i386/interrupts/isr.c. Report is the text that
--               is on the screen when the processor halts.
--   Shell       kernel/arch/i386/shell/shell.c. Line is the buffer as a text, Command what a line
--               does, Session the shell as an editor of one line.
--   Kernel      kernel/kernel/kernel.c: the tests of the frames (Frames) and of the page tables
--               (Pages).
--
-- Words: sums and differences of 32-bit values are written out with their wrap-around. Where a
-- difference of ℕ stands, the source's cannot be negative.
--
-- Loops are recursion on the rounds that are left. Fuel stands for the loops without a counter: the
-- walks over the list of blocks have 2^20 rounds, which is more than the blocks of 24 bytes in 16 MiB,
-- and kmalloc has three rounds of its outer loop, of which two are ever used; the theorems show that
-- they end. The tab loop has 80 rounds, one for each column, and strlen has 2^32, one for each address.
--
-- Texts of the source are lists of character codes. The waiting for keys is the list of characters or
-- of scan codes that arrive; at its end the shell waits. The handler of an interrupt is known by its
-- address, and what runs at an address is a parameter, as are the addresses of the assembly stubs.
--
-- Not modelled: kernel_main, the test of the heap, abort, and the assembly (the boot code, the stubs,
-- gdt_flush). A page fault inside the page fault handler or inside the tests is undefined in the model.
-- The invalidation of the processor's cache of translations (invlpg) has no state in the model.
pub mod Base
pub mod Multiboot
pub mod Pmm
pub mod Kheap
pub mod Keyboard
pub mod Terminal
pub mod Libc
pub mod Paging
pub mod Console
pub mod Interrupts
pub mod Gdt
pub mod Fault
pub mod Shell
pub mod Kernel
