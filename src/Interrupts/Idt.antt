-- ===== src/Interrupts/Idt.antt =====
-- kernel/arch/i386/interrupts/idt.c and `irq_init` of irq.c: the table of interrupt gates. The tables
-- of the stubs, which are assembly, are parameters: the address of each.
pub mod Gates
use simply_os.Base.{
  ℕ, zero, suc, ◌+◌, ◌-◌, ◌*◌, ◌^◌, bit_and, u8, u16, ◌>>>◌, Bool, true, List, Option, some, set,
  fill,
}

pub record IdtEntry : Type 0 where
  pub isr_low : ℕ
  pub kernel_cs : ℕ
  pub reserved : ℕ
  pub attributes : ℕ
  pub isr_high : ℕ

pub record Idtr : Type 0 where
  pub limit : ℕ
  pub base : ℕ

-- The static variables, and the register that `lidt` fills.
pub record Idt : Type 0 where
  pub entries : List IdtEntry
  pub idtr : Idtr
  pub vectors : List Bool
  pub loaded : Option Idtr

abbrev pub idt_max_descriptors : ℕ
idt_max_descriptors = 256

abbrev pub entry_size : ℕ
entry_size = 8

abbrev pub zero_entry : IdtEntry
zero_entry = record { isr_low = 0; kernel_cs = 0; reserved = 0; attributes = 0; isr_high = 0 }

unfoldable pub idt_set_descriptor : ℕ → ℕ → ℕ → Idt → Idt
idt_set_descriptor vector addr flags t =
    let descriptor : IdtEntry = record {
      isr_low = u16 (bit_and addr 0xFFFF);
      kernel_cs = 0x08;
      attributes = flags;
      isr_high = u16 (bit_and (addr >>> 16) 0xFFFF);
      reserved = 0;
    } in
    record t { entries = set t.entries vector descriptor }

-- The loop over the exceptions, with the rounds that are left.
pub set_exceptions : (ℕ → ℕ) → ℕ → ℕ → Idt → Idt
set_exceptions isr_stub_table zero vector t = t
set_exceptions isr_stub_table (suc left) vector t =
    let t = idt_set_descriptor vector (isr_stub_table vector) 0x8E t in
    set_exceptions isr_stub_table left (u8 (vector + 1))
      (record t { vectors = set t.vectors vector true })

-- `address` is where the table stands.
pub idt_init : (ℕ → ℕ) → ℕ → Idt → Idt
idt_init isr_stub_table address t =
    let cleared = record t {
      entries = fill 256 zero_entry t.entries;
      idtr = record { limit = u16 (entry_size * idt_max_descriptors - 1); base = address };
    } in
    let t = set_exceptions isr_stub_table 32 0 cleared in record t { loaded = some t.idtr }

pub set_requests : (ℕ → ℕ) → ℕ → ℕ → Idt → Idt
set_requests irq_stub_table zero i t = t
set_requests irq_stub_table (suc left) i t =
    set_requests irq_stub_table left (u8 (i + 1))
      (idt_set_descriptor (u8 (32 + i)) (irq_stub_table i) 0x8E t)

pub irq_init : (ℕ → ℕ) → Idt → Idt
irq_init irq_stub_table t = set_requests irq_stub_table 16 0 t
