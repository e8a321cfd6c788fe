-- ===== src/Interrupts/Irq/Service.antt =====
-- A hardware interrupt from its arrival to its end.
use simply_os.Base.{
  ℕ, ◌≡◌, ◌≢◌, ◌<◌, refl, ◌∙◌, sym, subst, arith, false, not, ◌&&◌, ◌++◌, get_or, length, set,
  get_or-set_self, u8, ltb, ◌==◌, if◌then◌else◌, Bool-cases, inl, inr,
}
use simply_os.Keyboard.Ring.{IsValid, contents}
use simply_os.Keyboard.Queue.{typed_by, contents-irq_handler}
use simply_os.Interrupts.Ports.{Bus, Chips, accept}
use simply_os.Interrupts.Pic.{pic_send_eoi}
use simply_os.Interrupts.Pic.Masks.{IsReady, SetsMask, pic_unmask-SetsMask}
use simply_os.Interrupts.Pic.Remap.{chips-pic_send_eoi}
use simply_os.Interrupts.Irq.{
  Registers, Machine, irq_register, irq_handler, keyboard_irq_handler, keyboard_init,
}

-- Handlers that leave the two controllers alone.
abbrev pub Leaves : (b : Bus) → (ℕ → Registers → Machine b → Machine b) → Type 0
Leaves b run =
    (handler : ℕ) (regs : Registers) (m : Machine b)
    → b.chips (run handler regs m).io ≡ b.chips m.io

-- After the processor took an interrupt of any line, irq_handler, with or without a handler for
-- the line, leaves both controllers as before it, so the line can interrupt again, if the handlers
-- leave the controllers alone.
pub irq_handler-ends :
    (b : Bus) (run : ℕ → Registers → Machine b → Machine b) (regs : Registers) (m : Machine b)
    (at : Chips)
    → Leaves b run
    → b.chips m.io ≡ accept (u8 regs.int_no) at
    → b.chips (irq_handler b run regs m).io ≡ at
unfolding irq_handler
irq_handler-ends b run regs m at leaves taken =
    let irq = u8 regs.int_no in
    let handler = get_or m.irq_handlers irq 0 in
    let served = if ltb irq 16 && not (handler == 0) then run handler regs m else m in
    let kept : b.chips served.io ≡ b.chips m.io =
      elim (Bool-cases (ltb irq 16 && not (handler == 0))) [
        | inl e ↦ rw e (leaves handler regs m)
        | inr e ↦ rw e refl
      ] in
    chips-pic_send_eoi b irq served.io at (kept ∙ taken)

-- The handler of the keyboard leaves them alone.
pub keyboard_irq_handler-chips :
    (b : Bus) (regs : Registers) (m : Machine b)
    → b.chips (keyboard_irq_handler b regs m).io ≡ b.chips m.io
unfolding keyboard_irq_handler
keyboard_irq_handler-chips b regs m = b.chips-inb 0x60 m.io

handlers-keyboard_init :
    (b : Bus) (handler : ℕ) (m : Machine b)
    → length m.irq_handlers ≡ 16
    → get_or (keyboard_init b handler m).irq_handlers 1 0 ≡ handler
unfolding keyboard_init irq_register
handlers-keyboard_init b handler m size =
    get_or-set_self m.irq_handlers 1 handler 0 (omega (arith, size))

-- An interrupt of the keyboard is served: the character of the scan code at the port, if it has one,
-- waits at the end, and both controllers are as before the interrupt was taken.
pub record IsServed (b : Bus) (before after : Machine b) : Type 0 where
  pub typed :
      contents after.keyboard
      ≡ contents before.keyboard ++ typed_by before.keyboard (b.inb 0x60 before.io).0
  pub ended : (at : Chips) → b.chips before.io ≡ accept 1 at → b.chips after.io ≡ at
  pub handlers : after.irq_handlers ≡ before.irq_handlers

module _ (b : Bus) (handler : ℕ) (m : Machine b) where
  -- keyboard_init, with the controllers ready, lets request 1 through and changes no other mask.
  pub keyboard_init-SetsMask :
      IsReady (b.chips m.io)
      → SetsMask 1 false (b.chips m.io) (b.chips (keyboard_init b handler m).io)
  unfolding keyboard_init irq_register
  keyboard_init-SetsMask r = pic_unmask-SetsMask b 1 m.io (omega arith) r

  module _ (run : ℕ → Registers → Machine b → Machine b) (regs : Registers) (now : Machine b) where
    dispatched :
        handler ≢ 0
        → length m.irq_handlers ≡ 16
        → run handler ≡ keyboard_irq_handler b
        → regs.int_no ≡ 1
        → now.irq_handlers ≡ (keyboard_init b handler m).irq_handlers
        → irq_handler b run regs now ≡ (
            let served = keyboard_irq_handler b regs now in
            record served { io = pic_send_eoi b 1 served.io })
    unfolding irq_handler
    dispatched set size runs line handlers =
        let found : get_or now.irq_handlers 1 0 ≡ handler =
          rw handlers (handlers-keyboard_init b handler m size) in
        let some_handler : (handler == 0) ≡ false = ground arith in
        rw (irq_handler, line, found, some_handler, runs) refl

    -- After keyboard_init with a table of 16 handlers, in any state with a valid keyboard and the
    -- handlers that keyboard_init left, and a byte at port 0x60, irq_handler for request 1 adds
    -- the character of the byte, if it has one, to those that wait, ends the interrupt on both
    -- controllers, and keeps the handlers.
    pub irq_handler-IsServed :
        handler ≢ 0
        → length m.irq_handlers ≡ 16
        → run handler ≡ keyboard_irq_handler b
        → regs.int_no ≡ 1
        → now.irq_handlers ≡ (keyboard_init b handler m).irq_handlers
        → IsValid now.keyboard
        → (b.inb 0x60 now.io).0 < 256
        → IsServed b now (irq_handler b run regs now)
    unfolding keyboard_irq_handler
    irq_handler-IsServed set size runs line handlers valid byte =
        subst (IsServed b now) (sym (dispatched set size runs line handlers)) (record {
          typed = contents-irq_handler now.keyboard (b.inb 0x60 now.io).0 valid byte;
          ended = λ at taken. chips-pic_send_eoi b 1 _ at (b.chips-inb 0x60 now.io ∙ taken);
          handlers = refl;
        })
