-- ===== src/Multiboot/Tests.antt =====
-- A map with one entry.
use simply_os.Base.{◌≡◌, refl, arith, [], ◌∷◌, true, ◌==◌, if◌then◌else◌}
use simply_os.Multiboot.{
  Entry, Memory, read_u32, read_u64, ptr_in_identity_map, mmap_fields_offset, early_init,
  bootloader_magic,
}
use simply_os.Multiboot.Map.{early_init-Laid}

-- Flags 0x6F at 0x1000, the length and the address of the map at offset 44, and at 0x2000 an entry
-- of 20 bytes for 64 KiB of memory.
abbrev memory : Memory
memory x =
    if x == 0x1000
    then 0x6F
    else if x == 0x102C
    then 24
    else if x == 0x1031
    then 0x20
    else if x == 0x2000
    then 20
    else if x == 0x200E
    then 1
    else if x == 0x2014
    then 1
    else 0

abbrev region : Entry
region = record { addr = 0; len = 0x10000; kind = 1 }

early_init-Laid_example :
    early_init memory bootloader_magic 0x1000
    ≡ record { valid = true; mem_upper_kb = 0; mmap = region ∷ [] }
unfolding mmap_fields_offset ptr_in_identity_map read_u32 read_u64
early_init-Laid_example =
    early_init-Laid memory 0x1000 0x2000 24 region [] refl refl refl refl
      (omega arith, omega arith, refl, refl, refl, refl) (omega arith) (omega arith)
