-- ===== src/Multiboot.antt =====
-- kernel/mm/multiboot.c: the memory map that the boot loader left in low memory, copied before the
-- identity mapping is dropped.
pub mod Map
mod Tests
use simply_os.Base.{
  ℕ, zero, suc, ◌+◌, ◌*◌, ◌^◌, bit_and, Bool, false, not, ◌&&◌, ◌||◌, Option, none, some, List, [],
  ◌∷◌, u32, ltb, ◌==◌, if◌then◌else◌, length,
}

-- `multiboot_mmap_entry_t`; `kind` is the field `type`.
pub record Entry : Type 0 where
  pub addr : ℕ
  pub len : ℕ
  pub kind : ℕ

-- `mb_valid`, `mb_mem_upper_kb`, and `mmap_storage` up to `mmap_entry_count`.
pub record Multiboot : Type 0 where
  pub valid : Bool
  pub mem_upper_kb : ℕ
  pub mmap : List Entry

abbrev pub max_mmap_entries : ℕ
max_mmap_entries = 64

abbrev pub identity_map_limit : ℕ
identity_map_limit = 0x00400000

abbrev pub bootloader_magic : ℕ
bootloader_magic = 0x2BADB002

abbrev pub has_flag : ℕ → ℕ → Bool
has_flag flags mask = not (bit_and flags mask == 0)

-- Physical memory, byte by byte, and the little-endian reads through a cast pointer.
abbrev pub Memory : Type 0
Memory = ℕ → ℕ

unfoldable pub read_u32 : Memory → ℕ → ℕ
read_u32 mem a = mem a + 2 ^ 8 * mem (a + 1) + 2 ^ 16 * mem (a + 2) + 2 ^ 24 * mem (a + 3)

unfoldable pub read_u64 : Memory → ℕ → ℕ
read_u64 mem a = read_u32 mem a + 2 ^ 32 * read_u32 mem (a + 4)

pub ptr_in_identity_map : ℕ → Bool
ptr_in_identity_map phys = not (phys == 0) && ltb phys identity_map_limit

-- `offset += …` for each flag that is set; the sum is at most 60.
pub mmap_fields_offset : ℕ → ℕ
mmap_fields_offset flags =
    4
    + (if has_flag flags 0x01 then 8 else 0)
    + (if has_flag flags 0x02 then 4 else 0)
    + (if has_flag flags 0x04 then 4 else 0)
    + (if has_flag flags 0x08 then 8 else 0)
    + (if has_flag flags 0x10 then 16 else 0)
    + (if has_flag flags 0x20 then 16 else 0)

module _ (mem : Memory) where
  pub parse_mmap_entry : ℕ → Option Entry
  parse_mmap_entry entry_phys =
      if not (ptr_in_identity_map entry_phys)
      then none
      else if ltb (read_u32 mem entry_phys) 20
      then none
      else some (record {
        addr = read_u64 mem (entry_phys + 4);
        len = read_u64 mem (entry_phys + 12);
        kind = read_u32 mem (entry_phys + 20);
      })

  -- The loop at `offset`, with room for so many entries; the result is what it stores from there.
  pub parse_entries : ℕ → ℕ → ℕ → ℕ → List Entry
  parse_entries mmap_addr mmap_length zero offset = []
  parse_entries mmap_addr mmap_length (suc room) offset =
      let entry_phys = u32 (mmap_addr + offset) in
      let rest =
        parse_entries mmap_addr mmap_length room
          (u32 (offset + u32 (read_u32 mem entry_phys + 4))) in
      if ltb offset mmap_length
      then elim (parse_mmap_entry entry_phys) [ none ↦ [] | some parsed ↦ parsed ∷ rest ]
      else []

  -- The state that `multiboot_early_init` leaves, whatever it was before.
  pub early_init : ℕ → ℕ → Multiboot
  early_init magic mb_info_phys =
      let flags = read_u32 mem mb_info_phys in
      let mem_upper : ℕ = if has_flag flags 0x01 then read_u32 mem (mb_info_phys + 8) else 0 in
      let mmap_offset = mmap_fields_offset flags in
      let mmap_length = read_u32 mem (mb_info_phys + mmap_offset) in
      let mmap_addr = read_u32 mem (mb_info_phys + mmap_offset + 4) in
      let entries = parse_entries mmap_addr mmap_length max_mmap_entries 0 in
      if not (magic == bootloader_magic) || not (ptr_in_identity_map mb_info_phys)
      then record { valid = false; mem_upper_kb = 0; mmap = [] }
      else if bit_and flags 0x40 == 0 || not (ptr_in_identity_map mmap_addr)
      then record { valid = false; mem_upper_kb = mem_upper; mmap = [] }
      else record { valid = ltb 0 (length entries); mem_upper_kb = mem_upper; mmap = entries }

abbrev pub is_valid : Multiboot → Bool
is_valid mb = mb.valid

abbrev pub mmap_entry_count : Multiboot → ℕ
mmap_entry_count mb = length mb.mmap

abbrev pub get_mem_upper_kb : Multiboot → ℕ
get_mem_upper_kb mb = mb.mem_upper_kb
