-- ===== src/Pmm/Init.antt =====
-- `pmm_init`: the bitmap built from the map of the boot loader.
pub mod Range
pub mod Spec
pub mod Protect
pub mod Limits
pub mod Regions
mod Tests
use simply_os.Base.{
  ℕ, ◌+◌, ◌-◌, ◌*◌, ◌/◌, ◌%◌, ◌^◌, Bool, true, false, not, ◌&&◌, ◌||◌, List, [], ◌∷◌, u32, u64,
  sub32, ltb, leb, ◌==◌, if◌then◌else◌, fill,
}
use simply_os.Multiboot.{Entry, Multiboot, is_valid, get_mem_upper_kb}
use simply_os.Pmm.{
  Pmm, page_size, max_frames, addr_to_frame, set_used, reserve_frames, free_frames_range,
}

-- The addresses of the linker's symbols and of the bitmap itself, all in the higher half.
pub record Layout : Type 0 where
  pub kernel_end : ℕ
  pub boot_page_directory : ℕ
  pub boot_page_table1 : ℕ
  pub stack_bottom : ℕ
  pub stack_top : ℕ
  pub bitmap_addr : ℕ

abbrev pub kernel_virtual_base : ℕ
kernel_virtual_base = 0xC0000000

abbrev pub kernel_physical_start : ℕ
kernel_physical_start = 0x00100000

abbrev pub virt_to_phys : ℕ → ℕ
virt_to_phys virt = sub32 virt kernel_virtual_base

pub reserve_region : Pmm → ℕ → ℕ → Pmm
reserve_region p start end =
    if leb end start
    then p
    else reserve_frames p (addr_to_frame start)
        (u32 (addr_to_frame (u32 (end + (page_size - 1))) + 1))

-- The cast to `uintptr_t` keeps the low 32 bits of an address.
pub region_end_frame : ℕ → ℕ → ℕ
region_end_frame addr len =
    let end = u64 (addr + len) in if end == 0 then 0 else u32 (addr_to_frame (u32 (end - 1)) + 1)

pub region_start_frame : ℕ → ℕ
region_start_frame addr = addr_to_frame (u32 addr)

pub region_usable : ℕ → Bool
region_usable kind = kind == 1 || kind == 3

pub mark_highest : ℕ → ℕ → ℕ
mark_highest region_end highest = if ltb highest region_end then region_end else highest

-- The first loop: the highest end of a region.
pub highest_end : List Entry → ℕ → ℕ
highest_end [] highest = highest
highest_end (entry ∷ rest) highest =
    highest_end rest (mark_highest (u64 (entry.addr + entry.len)) highest)

-- The size of the bitmap's range, from the map and from `mem_upper`.
pub count_frames : Multiboot → ℕ
count_frames mb =
    let in_map = highest_end mb.mmap 0 in
    let highest : ℕ =
      if get_mem_upper_kb mb == 0
      then in_map
      else mark_highest (u64 (0x00100000 + get_mem_upper_kb mb * 1024)) in_map in
    let frames = u32 (addr_to_frame (u32 highest) + 1) in
    if ltb max_frames frames then max_frames else frames

pub apply_region : Pmm → Entry → Pmm
apply_region p entry =
    let start_frame = region_start_frame entry.addr in
    let end_frame = region_end_frame entry.addr entry.len in
    if region_usable entry.kind
    then free_frames_range p start_frame end_frame
    else reserve_frames p start_frame end_frame

-- The second loop, with `freed_any`.
pub apply_regions : Pmm → Bool → List Entry → Pmm × Bool
apply_regions p freed_any [] = (p, freed_any)
apply_regions p freed_any (entry ∷ rest) =
    apply_regions (apply_region p entry) (region_usable entry.kind || freed_any) rest

pub fallback : Multiboot → Pmm × Bool → Pmm
fallback mb (p, freed_any) =
    if not freed_any && not (get_mem_upper_kb mb == 0)
    then free_frames_range p (region_start_frame 0x00100000)
        (region_end_frame 0x00100000 (get_mem_upper_kb mb * 1024))
    else p

pub reserve_kernel : Layout → Pmm → Pmm
reserve_kernel l p0 =
    let p1 = set_used p0 0 true in
    let p2 = reserve_region p1 kernel_physical_start (virt_to_phys l.kernel_end) in
    let p3 =
      reserve_region p2 (virt_to_phys l.boot_page_directory)
        (u32 (virt_to_phys l.boot_page_table1 + page_size)) in
    let p4 = reserve_region p3 (virt_to_phys l.stack_bottom) (virt_to_phys l.stack_top) in
    reserve_region p4 (virt_to_phys l.bitmap_addr) (u32 (virt_to_phys l.bitmap_addr + 4096))

-- Everything up to the end of the range is taken for in use.
pub all_used : Pmm → ℕ → Pmm
all_used p frames = record {
  bitmap = fill ((frames + 7) / 8) 0xFF p.bitmap;
  frame_count = frames;
  used_count = frames;
}

pub init : Multiboot → Layout → Pmm → Pmm
init mb l p =
    if not (is_valid mb)
    then p
    else if count_frames mb == 0
    then (record p { frame_count = 0 })
    else reserve_kernel l (fallback mb (apply_regions (all_used p (count_frames mb)) false mb.mmap))
