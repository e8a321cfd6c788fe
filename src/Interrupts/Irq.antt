-- ===== src/Interrupts/Irq.antt =====
-- kernel/arch/i386/interrupts/irq.c and isr.h: the dispatch of hardware interrupts, and the
-- registration of the keyboard driver with it. A handler is known by its address, 0 for NULL; what
-- runs at an address is a parameter.
pub mod Service
use simply_os.Base.{ℕ, ◌≡◌, Bool, not, ◌&&◌, List, get_or, set, u8, ltb, leb, ◌==◌, if◌then◌else◌}
use simply_os.Interrupts.Ports.{Bus}
use simply_os.Interrupts.Pic.{pic_send_eoi, pic_unmask}
use simply_os.Keyboard
use simply_os.Keyboard.{Keyboard}

-- What the stubs save.
pub record Registers : Type 0 where
  pub gs : ℕ
  pub fs : ℕ
  pub es : ℕ
  pub ds : ℕ
  pub edi : ℕ
  pub esi : ℕ
  pub ebp : ℕ
  pub esp : ℕ
  pub ebx : ℕ
  pub edx : ℕ
  pub ecx : ℕ
  pub eax : ℕ
  pub int_no : ℕ
  pub err_code : ℕ
  pub eip : ℕ
  pub cs : ℕ
  pub eflags : ℕ
  pub useresp : ℕ
  pub ss : ℕ

module _ (b : Bus) where
  -- The table of irq.c, the keyboard driver, and what is behind the ports.
  pub record Machine : Type 0 where
    pub irq_handlers : List ℕ
    pub keyboard : Keyboard
    pub io : b.State

  pub irq_register : ℕ → ℕ → Machine → Machine
  irq_register irq handler m =
      if leb 16 irq then m else (record m { irq_handlers = set m.irq_handlers irq handler })

  pub irq_handler : (ℕ → Registers → Machine → Machine) → Registers → Machine → Machine
  irq_handler run regs m =
      let irq = u8 regs.int_no in
      let handler = get_or m.irq_handlers irq 0 in
      let m = if ltb irq 16 && not (handler == 0) then run handler regs m else m in
      record m { io = pic_send_eoi b irq m.io }

  -- The read of the scan code, and the rest of the handler.
  pub keyboard_irq_handler : Registers → Machine → Machine
  keyboard_irq_handler regs m =
      let (scancode, io) = b.inb 0x60 m.io in
      record m { keyboard = Keyboard.irq_handler m.keyboard scancode; io = io }

  -- The argument is the address of `keyboard_irq_handler`.
  pub keyboard_init : ℕ → Machine → Machine
  keyboard_init handler m =
      let m = irq_register 1 handler (record m { keyboard = Keyboard.init m.keyboard }) in
      record m { io = pic_unmask b 1 m.io }
