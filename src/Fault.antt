-- ===== src/Fault.antt =====
-- kernel/mm/page_fault.c and kernel/arch/i386/interrupts/isr.c: what the processor's exceptions show
-- before the kernel halts.
pub mod Report
mod Tests
use simply_os.Base.{ℕ, bit_and, ltb, ◌==◌, if◌then◌else◌, List, [], ◌∷◌, Option, some, none, get_or}
use simply_os.Base.Text.{codes}
use simply_os.Libc.Print.{Arg, word}
use simply_os.Terminal.{Terminal, vga_entry_color, setcolor, write}
use simply_os.Console.{Outcome, goes, halts, strays, ◌>>=◌, say}
use simply_os.Paging.{get_physical}
use simply_os.Paging
use simply_os.Interrupts.Irq.{Registers}

abbrev pub page_fault_vector : ℕ
page_fault_vector = 14

abbrev pub light_red : ℕ
light_red = 12

abbrev pub black : ℕ
black = 0

pub print_error_code : ℕ → Terminal → Outcome Terminal
print_error_code err t = do
  t ← say (codes "  cause:") [] t
  t ←
      if bit_and err 0x1 == 0
      then say (codes " not-present") [] t
      else say (codes " protection-violation") [] t
  t ← if bit_and err 0x2 == 0 then say (codes " read") [] t else say (codes " write") [] t
  t ← if bit_and err 0x4 == 0 then say (codes " supervisor") [] t else say (codes " user-mode") [] t
  t ← if bit_and err 0x8 == 0 then goes t else say (codes " reserved-bit-set") [] t
  t ← if bit_and err 0x10 == 0 then goes t else say (codes " instruction-fetch") [] t
  say (codes " (err=0x%x)\n") (word err ∷ []) t

-- `none` of `paging_get_physical` is a page fault inside the handler.
pub say_mapping : Option ℕ → Terminal → Outcome Terminal
say_mapping none t = strays
say_mapping (some mapped_phys) t =
    if mapped_phys == 0
    then say (codes "  paging: not mapped in page tables\n") [] t
    else say (codes "  paging: mapped -> phys %p\n") (word mapped_phys ∷ []) t

-- `cr2` is what the register holds; the handler does not come back.
pub page_fault_handler : Paging.Machine → ℕ → Registers → Terminal → Outcome Terminal
page_fault_handler m cr2 regs t = do
  let t = setcolor (vga_entry_color light_red black) t
  t ← say (codes "Page Fault (#%u)\n") (word page_fault_vector ∷ []) t
  t ← say (codes "  CR2 (fault addr): %p\n") (word cr2 ∷ []) t
  t ← print_error_code regs.err_code t
  t ← say (codes "  EIP: %p  CS: 0x%x\n") (word regs.eip ∷ word regs.cs ∷ []) t
  t ←
      say (codes "  EAX: %p  EBX: %p  ECX: %p  EDX: %p\n")
        (word regs.eax ∷ word regs.ebx ∷ word regs.ecx ∷ word regs.edx ∷ []) t
  t ← say_mapping (get_physical cr2 m) t
  halts t

abbrev pub exception_messages : List (List ℕ)
exception_messages =
    codes "Division By Zero"
    ∷ codes "Debug"
    ∷ codes "Non Maskable Interrupt"
    ∷ codes "Breakpoint"
    ∷ codes "Into Detected Overflow"
    ∷ codes "Out of Bounds"
    ∷ codes "Invalid Opcode"
    ∷ codes "No Coprocessor"
    ∷ codes "Double Fault"
    ∷ codes "Coprocessor Segment Overrun"
    ∷ codes "Bad TSS"
    ∷ codes "Segment Not Present"
    ∷ codes "Stack Fault"
    ∷ codes "General Protection Fault"
    ∷ codes "Page Fault"
    ∷ codes "Unknown Interrupt"
    ∷ codes "Coprocessor Fault"
    ∷ codes "Alignment Check"
    ∷ codes "Machine Check"
    ∷ codes "SIMD Floating-Point Exception"
    ∷ codes "Virtualization Exception"
    ∷ codes "Reserved"
    ∷ codes "Reserved"
    ∷ codes "Reserved"
    ∷ codes "Reserved"
    ∷ codes "Reserved"
    ∷ codes "Reserved"
    ∷ codes "Reserved"
    ∷ codes "Reserved"
    ∷ codes "Reserved"
    ∷ codes "Security Exception"
    ∷ codes "Reserved"
    ∷ []

pub exception_handler : Paging.Machine → ℕ → Registers → Terminal → Outcome Terminal
exception_handler m cr2 regs t = do
  t ← if regs.int_no == 14 then page_fault_handler m cr2 regs t else goes t
  let t = write (codes "EXCEPTION! ") (setcolor (vga_entry_color light_red black) t)
  let named = write (get_or exception_messages regs.int_no []) t
  halts (if ltb regs.int_no 32 then named else t)
