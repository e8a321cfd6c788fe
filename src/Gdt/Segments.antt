-- ===== src/Gdt/Segments.antt =====
-- The table that gdt_init loads, read the way the processor reads it.
use simply_os.Base.{
  ℕ, ◌+◌, ◌-◌, ◌*◌, ◌/◌, ◌%◌, ◌^◌, ◌≡◌, ◌==◌, Bool, true, false, if◌then◌else◌, get_or,
}
use simply_os.Gdt.{Gdt, GdtEntry}

abbrev pub base_of : GdtEntry → ℕ
base_of e = e.base_high * 2 ^ 24 + e.base_middle * 2 ^ 16 + e.base_low

-- The last offset in the segment: the limit counts pages if bit 7 of the granularity is set.
abbrev pub last_offset : GdtEntry → ℕ
last_offset e =
    let limit = e.granularity % 16 * 2 ^ 16 + e.limit_low in
    if e.granularity / 128 % 2 == 1 then limit * 4096 + 4095 else limit

-- A 32-bit segment of the whole address space, present, for one privilege level: code that can be
-- read, or data that can be written.
pub record IsFlat (executable : Bool) (privilege : ℕ) (e : GdtEntry) : Type 0 where
  pub from_zero : base_of e ≡ 0
  pub to_end : last_offset e ≡ 2 ^ 32 - 1
  pub present : (e.access / 128 % 2 == 1) ≡ true
  pub level : e.access / 32 % 4 ≡ privilege
  pub memory : (e.access / 16 % 2 == 1) ≡ true
  pub kind : (e.access / 8 % 2 == 1) ≡ executable
  pub usable : (e.access / 2 % 2 == 1) ≡ true
  pub wide : (e.granularity / 64 % 2 == 1) ≡ true

abbrev pub null_entry : GdtEntry
null_entry = record {
  limit_low = 0;
  base_low = 0;
  base_middle = 0;
  access = 0;
  granularity = 0;
  base_high = 0;
}

-- The table at `address`, by selector.
pub record IsLoaded (address : ℕ) (g : Gdt) : Type 0 where
  pub null : get_or g.entries 0 null_entry ≡ null_entry
  pub kernel_code : IsFlat true 0 (get_or g.entries (0x08 / 8) null_entry)
  pub kernel_data : IsFlat false 0 (get_or g.entries (0x10 / 8) null_entry)
  pub user_code : IsFlat true 3 (get_or g.entries (0x18 / 8) null_entry)
  pub user_data : IsFlat false 3 (get_or g.entries (0x20 / 8) null_entry)
  pub size : g.limit + 1 ≡ 5 * 8
  pub place : g.base ≡ address
  pub done : g.loaded ≡ true
