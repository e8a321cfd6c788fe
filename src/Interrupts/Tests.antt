-- ===== src/Interrupts/Tests.antt =====
-- The interrupt path on a machine that has the two controllers and a scan code at port 0x60.
use simply_os.Base.{
  ◌+◌, ◌*◌, ℕ, ◌≡◌, refl, arith, true, false, ◌==◌, if◌then◌else◌, [], ◌∷◌, replicate,
  length-replicate, none,
}
use simply_os.Interrupts.Ports.{Bus, Chip, Chips, icw3, write, accept}
use simply_os.Interrupts.Pic.{pic_init}
use simply_os.Interrupts.Pic.Remap.{remapped, pic_init-chips}
use simply_os.Interrupts.Idt.{Idt, idt_init, irq_init}
use simply_os.Interrupts.Idt.Gates.{entry, gate}
use simply_os.Interrupts.Irq.{Registers, Machine, irq_handler, keyboard_irq_handler, keyboard_init}
use simply_os.Interrupts.Irq.Service.{
  irq_handler-ends, IsServed, irq_handler-IsServed, keyboard_irq_handler-chips,
}
use simply_os.Interrupts.Route.{vector_of, request-routed}
use simply_os.Keyboard.{Keyboard}
use simply_os.Keyboard.Ring.{IsValid}

abbrev pc : Bus
pc = record {
  State = Chips × ℕ;
  inb =
      λ port s. (if port == 0x21 then s.0.0.mask else if port == 0xA1 then s.0.1.mask else s.1, s);
  outb = λ port value s. (write port value s.0, s.1);
  chips = λ s. s.0;
  chips-outb = λ port value s. refl;
  chips-inb = λ port s. refl;
  master_mask = λ s r. refl;
  slave_mask = λ s r. refl;
}

-- A controller in the middle of its initialisation.
abbrev halfway : Chip
halfway = record {
  phase = icw3;
  level_triggered = false;
  single = false;
  wants_icw4 = false;
  base = 8;
  cascade = 0;
  is_8086 = false;
  auto_eoi = true;
  buffered = false;
  special_nested = false;
  mask = 0;
  in_service = 3 ∷ [];
}

pic_init-chips_example :
    (pic_init pc ((halfway, halfway), 0)).0 ≡ (remapped 32 4 (3 ∷ []), remapped 40 2 (3 ∷ []))
pic_init-chips_example = pic_init-chips pc ((halfway, halfway), 0)

abbrev running : Chips
running = (remapped 32 4 [], remapped 40 2 [])

abbrev table : Idt
table = record {
  entries = replicate 256 (gate 7);
  idtr = record { limit = 0; base = 0 };
  vectors = [];
  loaded = none;
}

request-routed_example :
    entry
      (irq_init (λ i. 0x100200 + i * 16) (idt_init (λ i. 0x100000 + i * 10) 0x5000 table))
      (vector_of (pic_init pc ((halfway, halfway), 0)).0 9)
    ≡ gate (0x100200 + 9 * 16)
request-routed_example =
    request-routed pc ((halfway, halfway), 0) (λ i. 0x100000 + i * 10) (λ i. 0x100200 + i * 16)
      0x5000 table 9 (length-replicate 256 (gate 7)) (omega arith)

abbrev blank : Keyboard
blank = record {
  buffer = replicate 256 0;
  read_pos = 0;
  write_pos = 0;
  left_shift = false;
  right_shift = false;
  caps_lock = false;
  extended = false;
}

blank-IsValid : IsValid blank
blank-IsValid = record {
  buffer_size = length-replicate {A = ℕ} 256 0;
  reads = omega arith;
  writes = omega arith;
}

abbrev before : Machine pc
before = record { irq_handlers = replicate 16 0; keyboard = blank; io = (running, 0) }

abbrev run_any : ℕ → Registers → Machine pc → Machine pc
run_any handler = keyboard_irq_handler pc

abbrev line_1 : Registers
line_1 = record {
  gs = 0;
  fs = 0;
  es = 0;
  ds = 0;
  edi = 0;
  esi = 0;
  ebp = 0;
  esp = 0;
  ebx = 0;
  edx = 0;
  ecx = 0;
  eax = 0;
  int_no = 1;
  err_code = 0;
  eip = 0;
  cs = 8;
  eflags = 0;
  useresp = 0;
  ss = 0;
}

-- The key A is pressed, and the processor took the interrupt.
abbrev at_key : Machine pc
at_key = record {
  irq_handlers = (keyboard_init pc 0x2000 before).irq_handlers;
  keyboard = blank;
  io = (accept 1 running, 0x1E);
}

irq_handler-ends_example : (irq_handler pc run_any line_1 at_key).io.0 ≡ running
irq_handler-ends_example =
    irq_handler-ends pc run_any line_1 at_key running
      (λ handler regs m. keyboard_irq_handler-chips pc regs m) refl

irq_handler-IsServed_example : IsServed pc at_key (irq_handler pc run_any line_1 at_key)
irq_handler-IsServed_example =
    irq_handler-IsServed pc 0x2000 before run_any line_1 at_key (λ e. omega arith)
      (length-replicate {A = ℕ} 16 0) refl refl refl blank-IsValid (omega arith)
