-- ===== src/Pmm/Init/Tests.antt =====
-- `pmm_init` on small maps.
use simply_os.Base.{◌+◌, ◌*◌, ◌≤◌, true, false, ◌≡◌, ◌≢◌, refl, arith, [], ◌∷◌, inl, ◌^◌}
use simply_os.Multiboot.{Entry, Multiboot}
use simply_os.Pmm.{
  set_range, free_frames_range, reserve_frames, Pmm, page_size, alloc_from, alloc_frame,
  total_frames, set_used,
}
use simply_os.Pmm.Valid.{is_used}
use simply_os.Pmm.Exclusive.{alloc, here, next}
use simply_os.Pmm.Init.{
  apply_regions, all_used, fallback, reserve_kernel, region_start_frame, region_end_frame,
  mark_highest, region_usable, Layout, init, count_frames, apply_region, reserve_region,
  highest_end,
}
use simply_os.Pmm.Init.Spec.{IsBitmap}
use simply_os.Pmm.Init.Regions.{IsBuilt, is_memory_frame, is_kernel_frame, in_range, init-IsBuilt}
use simply_os.Pmm.Init.Protect.{IsPlaced, IsKernelByte, init-protects}
use simply_os.Pmm.Init.Limits.{init-no_frames, high_region-frees_low}
use simply_os.Pmm.Tests.{small, small-IsValid}

-- The map of a machine with 32 MiB: low memory, and everything from 1 MiB on.
abbrev low_memory : Entry
low_memory = record { addr = 0; len = 0x9FC00; kind = 1 }

abbrev high_memory : Entry
high_memory = record { addr = 0x100000; len = 0x1F00000; kind = 1 }

abbrev memory_map : Multiboot
memory_map = record { valid = true; mem_upper_kb = 31744; mmap = low_memory ∷ high_memory ∷ [] }

abbrev layout : Layout
layout = record {
  kernel_end = 0xC0120000;
  boot_page_directory = 0xC0118000;
  boot_page_table1 = 0xC0119000;
  stack_bottom = 0xC011A000;
  stack_top = 0xC011E000;
  bitmap_addr = 0xC0112000;
}

small-IsBitmap : IsBitmap small
small-IsBitmap = record { bitmap_size = small-IsValid.bitmap_size; bytes = small-IsValid.bytes }

layout-IsPlaced : IsPlaced layout
layout-IsPlaced = record {
  kernel_end_high = (omega arith, omega arith);
  directory_high = (omega arith, omega arith);
  table_high = (omega arith, omega arith);
  bottom_high = (omega arith, omega arith);
  top_high = (omega arith, omega arith);
  bitmap_high = (omega arith, omega arith);
}

init-IsBuilt_example : IsBuilt memory_map layout (init memory_map layout small)
init-IsBuilt_example =
    init-IsBuilt memory_map layout small refl small-IsBitmap layout-IsPlaced
      (omega arith, (omega arith, tt)) (omega arith)

-- The status of some frames: low memory, the hole below 1 MiB, the kernel, and the end.
some_frames :
    (is_memory_frame memory_map 0x9F ≡ true)
    × (is_memory_frame memory_map 0xA0 ≡ false)
    × (is_kernel_frame layout 0x120 ≡ true)
    × (is_kernel_frame layout 0x122 ≡ false)
    × (in_range memory_map 0x2000 ≡ true)
    × (in_range memory_map 0x2001 ≡ false)
some_frames = (refl, refl, refl, refl, refl, refl)

-- The map that the firmware of a machine gives that has its flash below 4 GiB.
abbrev firmware : Entry
firmware = record { addr = 0xFFFC0000; len = 0x40000; kind = 2 }

abbrev firmware_map : Multiboot
firmware_map = record { valid = true; mem_upper_kb = 31744; mmap = high_memory ∷ firmware ∷ [] }

firmware_end : highest_end firmware_map.mmap 0 ≡ 2 ^ 32
unfolding highest_end mark_highest
firmware_end = refl

init-no_frames_example :
    (total_frames (init firmware_map layout small) ≡ 1)
    × ((alloc_frame (init firmware_map layout small)).0 ≡ 0)
init-no_frames_example =
    init-no_frames firmware_map layout small refl small-IsBitmap (rw firmware_end)
      (rw firmware_end (omega arith))

-- Twelve KiB of memory.
abbrev tiny_map : Multiboot
tiny_map = record {
  valid = true;
  mem_upper_kb = 0;
  mmap = record { addr = 0; len = 0x3000; kind = 1 } ∷ [];
}

abbrev started : Pmm
started = init tiny_map layout small

started-alloc : (alloc_frame started).0 ≡ 4096
unfolding alloc_frame alloc_from init apply_regions apply_region all_used count_frames highest_end
    mark_highest fallback reserve_kernel reserve_region region_start_frame region_end_frame
    region_usable set_range set_used free_frames_range reserve_frames
started-alloc = refl

some_frame : (alloc_frame started).0 ≢ 0
some_frame e = omega (arith, started-alloc)

init-protects_example : ¬ (IsKernelByte layout 4100)
init-protects_example =
    init-protects tiny_map layout small (alloc_frame started).0 4100 refl small-IsBitmap
      layout-IsPlaced (next here (alloc some_frame refl)) (inl refl) (omega (arith, started-alloc))
      (omega (arith, started-alloc))

-- One GiB of memory above 4 GiB.
abbrev above_4_gib : Entry
above_4_gib = record { addr = 2 ^ 32; len = 2 ^ 30; kind = 1 }

high_region-frees_low_example :
    (is_used (apply_region small above_4_gib) 5 ≡ false)
    × (5 * page_size + page_size ≤ above_4_gib.addr)
unfolding region_usable
high_region-frees_low_example =
    high_region-frees_low small above_4_gib 0 5 small-IsValid refl refl (omega arith) (omega arith)
      (omega arith) (omega arith)
