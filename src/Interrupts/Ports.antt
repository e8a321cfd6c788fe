-- ===== src/Interrupts/Ports.antt =====
-- kernel/include/kernel/io/io.h, and what the code relies on of the two 8259A controllers behind
-- the ports, from the data sheet: the initialisation words, the mask and the end of an interrupt.
use simply_os.Base.{ℕ, ◌-◌, ◌/◌, ◌%◌, ◌≡◌, Bool, ◌&&◌, List, [], ◌∷◌, ltb, ◌==◌, if◌then◌else◌}

-- What the next byte on the data port is.
pub data Phase : Type 0 where
  ready icw2 icw3 icw4 : Phase

-- `level_triggered`, `single` and `wants_icw4` are from the first initialisation word, `base` is the
-- vector of line 0 and from the second, `cascade` is the third, and from the fourth come the mode of
-- the processor (8086, or MCS-80), the automatic end of interrupt, the buffered and the special fully
-- nested mode. `mask` has a bit for each line, and `in_service` the lines that are being served, the
-- latest first.
pub record Chip : Type 0 where
  pub phase : Phase
  pub level_triggered : Bool
  pub single : Bool
  pub wants_icw4 : Bool
  pub base : ℕ
  pub cascade : ℕ
  pub is_8086 : Bool
  pub auto_eoi : Bool
  pub buffered : Bool
  pub special_nested : Bool
  pub mask : ℕ
  pub in_service : List ℕ

abbrev pub drop_latest : List ℕ → List ℕ
drop_latest [] = []
drop_latest (line ∷ lines) = lines

-- The first initialisation word clears the mask; without a fourth word to come the functions of that
-- word are off.
abbrev pub begin : ℕ → Chip → Chip
begin value c =
    let wanted = value % 2 == 1 in
    record c {
      phase = icw2;
      level_triggered = value / 8 % 2 == 1;
      single = value / 2 % 2 == 1;
      wants_icw4 = wanted;
      is_8086 = wanted && c.is_8086;
      auto_eoi = wanted && c.auto_eoi;
      buffered = wanted && c.buffered;
      special_nested = wanted && c.special_nested;
      mask = 0;
    }

-- A byte on the command port: bit 4 starts the initialisation, 0x20 ends the latest interrupt.
abbrev pub command : ℕ → Chip → Chip
command value c =
    if value / 16 % 2 == 1
    then begin value c
    else if value == 0x20
    then (record c { in_service = drop_latest c.in_service })
    else c

-- The word after the third, or after the second of a single controller.
abbrev pub last_word : Chip → Phase
last_word c = if c.wants_icw4 then icw4 else ready

abbrev pub data_in : Phase → ℕ → Chip → Chip
data_in ready value c = record c { mask = value }
data_in icw2 value c = record c {
  phase = if c.single then last_word c else icw3;
  base = value - value % 8;
}
data_in icw3 value c = record c { phase = last_word c; cascade = value }
data_in icw4 value c = record c {
  phase = ready;
  is_8086 = value % 2 == 1;
  auto_eoi = value / 2 % 2 == 1;
  buffered = value / 8 % 2 == 1;
  special_nested = value / 16 % 2 == 1;
}

abbrev pub Chips : Type 0
Chips = Chip × Chip

-- A byte on any port; the first chip is the master.
abbrev pub write : ℕ → ℕ → Chips → Chips
write port value (m, s) =
    if port == 0x20
    then (command value m, s)
    else if port == 0x21
    then (data_in m.phase value m, s)
    else if port == 0xA0
    then (m, command value s)
    else if port == 0xA1
    then (m, data_in s.phase value s)
    else (m, s)

-- The processor takes an interrupt, without the automatic end: the line is in service, for a line of
-- the slave also line 2 of the master.
abbrev pub accept : ℕ → Chips → Chips
accept irq (m, s) = if ltb irq 8 then (record m { in_service = irq ∷ m.in_service }, s) else (
  record m { in_service = 2 ∷ m.in_service },
  record s { in_service = (irq - 8) ∷ s.in_service },
)

-- The machine behind `inb` and `outb`, with the controllers in it.
pub record Bus : Type 1 where
  pub State : Type 0
  pub inb : ℕ → State → ℕ × State
  pub outb : ℕ → ℕ → State → State
  pub chips : State → Chips
  pub chips-outb :
      (port value : ℕ) (s : State) → chips (outb port value s) ≡ write port value (chips s)
  pub chips-inb : (port : ℕ) (s : State) → chips (inb port s).1 ≡ chips s
  pub master_mask : (s : State) → (chips s).0.phase ≡ ready → (inb 0x21 s).0 ≡ (chips s).0.mask
  pub slave_mask : (s : State) → (chips s).1.phase ≡ ready → (inb 0xA1 s).0 ≡ (chips s).1.mask

pub io_wait : (b : Bus) → b.State → b.State
io_wait b s = b.outb 0x80 0 s

pub chips-io_wait : (b : Bus) (s : b.State) → b.chips (io_wait b s) ≡ b.chips s
unfolding io_wait
chips-io_wait b s = b.chips-outb 0x80 0 s
