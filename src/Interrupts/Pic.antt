-- ===== src/Interrupts/Pic.antt =====
-- kernel/arch/i386/interrupts/pic.c: the driver of the two interrupt controllers.
pub mod Masks
pub mod Remap
use simply_os.Base.{ℕ, ◌-◌, ◌^◌, ◌≡◌, ltb, leb, if◌then◌else◌, u8, ◌<<<◌, bit_and, bit_or}
use simply_os.Interrupts.Ports.{Bus, io_wait}

abbrev pub pic1_command : ℕ
pic1_command = 0x20

abbrev pub pic1_data : ℕ
pic1_data = 0x21

abbrev pub pic2_command : ℕ
pic2_command = 0xA0

abbrev pub pic2_data : ℕ
pic2_data = 0xA1

abbrev pub pic1_offset : ℕ
pic1_offset = 0x20

abbrev pub pic2_offset : ℕ
pic2_offset = 0x28

abbrev pub icw1_init : ℕ
icw1_init = 0x10

abbrev pub icw1_icw4 : ℕ
icw1_icw4 = 0x01

abbrev pub icw4_8086 : ℕ
icw4_8086 = 0x01

abbrev pub pic_eoi : ℕ
pic_eoi = 0x20

abbrev pub pic_mask_port : ℕ → ℕ
pic_mask_port irq = if ltb irq 8 then pic1_data else pic2_data

abbrev pub pic_irq_line : ℕ → ℕ
pic_irq_line irq = if ltb irq 8 then irq else u8 (irq - 8)

module _ (b : Bus) where
  open b use {State, inb, outb}

  pub pic_init : State → State
  pic_init s =
      let s = io_wait b (outb pic1_command (bit_or icw1_init icw1_icw4) s) in
      let s = io_wait b (outb pic2_command (bit_or icw1_init icw1_icw4) s) in
      let s = io_wait b (outb pic1_data pic1_offset s) in
      let s = io_wait b (outb pic2_data pic2_offset s) in
      let s = io_wait b (outb pic1_data 4 s) in
      let s = io_wait b (outb pic2_data 2 s) in
      let s = io_wait b (outb pic1_data icw4_8086 s) in
      let s = io_wait b (outb pic2_data icw4_8086 s) in outb pic2_data 0xFF (outb pic1_data 0xFF s)

  pub pic_send_eoi : ℕ → State → State
  pic_send_eoi irq s =
      outb pic1_command pic_eoi (if leb 8 irq then outb pic2_command pic_eoi s else s)

  pub pic_mask : ℕ → State → State
  pic_mask irq s =
      let (value, s) = inb (pic_mask_port irq) s in
      outb (pic_mask_port irq) (u8 (bit_or value (1 <<< pic_irq_line irq))) s

  -- `~` of a 32-bit number.
  pub pic_unmask : ℕ → State → State
  pic_unmask irq s =
      let (value, s) = inb (pic_mask_port irq) s in
      outb (pic_mask_port irq) (u8 (bit_and value (2 ^ 32 - 1 - (1 <<< pic_irq_line irq)))) s
