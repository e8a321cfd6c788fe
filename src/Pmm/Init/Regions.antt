-- ===== src/Pmm/Init/Regions.antt =====
-- What `pmm_init` makes of each frame, by the addresses of the map: a region has the bytes from its
-- address on, and a frame the 4096 bytes of its number.
use simply_os.Base.{
  ℕ, ◌+◌, ◌-◌, ◌*◌, ◌^◌, ◌<◌, Bool, true, false, not, ◌&&◌, ◌||◌, ◌≡◌, refl, ◌∙◌, ap, arith, ltb,
  leb, ◌==◌, if◌then◌else◌, List, [], ◌∷◌, u32, u64, All, Bool-cases, inl, inr,
}
use simply_os.Multiboot.{Entry, Multiboot, is_valid}
use simply_os.Pmm.{Pmm, page_size}
use simply_os.Pmm.Valid.{IsValid, is_used}
use simply_os.Pmm.Init.{
  Layout, virt_to_phys, region_start_frame, region_end_frame, region_usable, mark_highest,
  highest_end, count_frames, init,
}
use simply_os.Pmm.Init.Spec.{
  IsBitmap, in_frames, in_region, map_status, any_usable, used_by_map, kernel_frame, init-Marks,
}
use simply_os.Pmm.Init.Protect.{IsPlaced, IsHigh}

-- The frame meets the range [start, end); it meets an empty range that lies behind its first byte.
abbrev pub meets : ℕ → ℕ → ℕ → Bool
meets start end j = ltb start ((j + 1) * page_size) && ltb (j * page_size) end

-- Available memory, and what ACPI gives back.
abbrev pub is_memory : Entry → Bool
is_memory entry = entry.kind == 1 || entry.kind == 3

abbrev pub has_memory : List Entry → Bool
has_memory [] = false
has_memory (entry ∷ rest) = is_memory entry || has_memory rest

-- Free by the last region that meets the frame, or else as `before` says.
abbrev pub is_free_by : List Entry → ℕ → Bool → Bool
is_free_by [] j before = before
is_free_by (entry ∷ rest) j before =
    is_free_by rest j
      (if meets entry.addr (entry.addr + entry.len) j then is_memory entry else before)

-- The end of the memory above 1 MiB.
abbrev pub upper_end : Multiboot → ℕ
upper_end mb = 0x100000 + mb.mem_upper_kb * 1024

-- A map without memory is replaced by the size of the memory above 1 MiB, if that is known.
abbrev pub is_memory_frame : Multiboot → ℕ → Bool
is_memory_frame mb j =
    is_free_by mb.mmap j false
    || not (has_memory mb.mmap) && not (mb.mem_upper_kb == 0) && meets 0x100000 (upper_end mb) j

-- The frames that meet a range that is not empty, and the one behind its last page.
abbrev pub is_reserved : ℕ → ℕ → ℕ → Bool
is_reserved start end j = ltb start end && meets start (end + page_size) j

abbrev pub is_kernel_frame : Layout → ℕ → Bool
is_kernel_frame l j =
    j == 0
    || is_reserved 0x100000 (l.kernel_end - 0xC0000000) j
    || is_reserved (l.boot_page_directory - 0xC0000000) (l.boot_page_table1 - 0xC0000000 + 4096) j
    || is_reserved (l.stack_bottom - 0xC0000000) (l.stack_top - 0xC0000000) j
    || is_reserved (l.bitmap_addr - 0xC0000000) (l.bitmap_addr - 0xC0000000 + 4096) j

-- The start of the frame is not behind the end of a region.
abbrev pub is_below : List Entry → ℕ → Bool
is_below [] x = false
is_below (entry ∷ rest) x = leb x (entry.addr + entry.len) || is_below rest x

abbrev pub in_range : Multiboot → ℕ → Bool
in_range mb j =
    ltb j 32768
    && (j == 0
        || is_below mb.mmap (j * page_size)
        || not (mb.mem_upper_kb == 0) && leb (j * page_size) (upper_end mb))

-- Everything ends below 4 GiB.
abbrev pub IsLow : Entry → Type 0
IsLow entry = entry.addr + entry.len < 2 ^ 32

pub record IsBuilt (mb : Multiboot) (l : Layout) (q : Pmm) : Type 0 where
  pub valid : IsValid q
  pub size : (j : ℕ) → ltb j q.frame_count ≡ in_range mb j
  pub marks :
      (j : ℕ)
      → j < q.frame_count
      → is_used q j ≡ (is_kernel_frame l j || not (is_memory_frame mb j))

region-meets :
    (addr len j : ℕ)
    → addr + len < 2 ^ 32
    → in_frames (region_start_frame addr) (region_end_frame addr len) j ≡ meets addr (addr + len) j
unfolding region_start_frame region_end_frame
region-meets addr len j low = ground arith

usable-is_memory : (entry : Entry) → region_usable entry.kind ≡ is_memory entry
unfolding region_usable
usable-is_memory entry = refl

any-has_memory : (es : List Entry) → any_usable es ≡ has_memory es
any-has_memory [] = refl
any-has_memory (entry ∷ rest) = rw (usable-is_memory entry, any-has_memory rest) refl

map_status-is_free_by :
    (es : List Entry) (j : ℕ) (before : Bool)
    → All IsLow es
    → map_status es j (not before) ≡ not (is_free_by es j before)
map_status-is_free_by [] j before low = refl
map_status-is_free_by (entry ∷ rest) j before low =
    rw (region-meets entry.addr entry.len j low.0, usable-is_memory entry)
      (elim (Bool-cases (meets entry.addr (entry.addr + entry.len) j)) [
        | inl met ↦ rw met (map_status-is_free_by rest j (is_memory entry) low.1)
        | inr apart ↦ rw apart (map_status-is_free_by rest j before low.1)
      ])

below-highest_end :
    (es : List Entry) (highest x : ℕ)
    → All IsLow es
    → leb x (highest_end es highest) ≡ (leb x highest || is_below es x)
unfolding highest_end mark_highest
below-highest_end [] highest x low = ground arith
below-highest_end (entry ∷ rest) highest x low =
    below-highest_end rest (mark_highest (u64 (entry.addr + entry.len)) highest) x low.1
    ∙ ground (arith, low.0)

highest_end-low :
    (es : List Entry) (highest : ℕ)
    → highest < 2 ^ 32
    → All IsLow es
    → highest_end es highest < 2 ^ 32
unfolding highest_end mark_highest
highest_end-low [] highest small low = small
highest_end-low (entry ∷ rest) highest small low =
    highest_end-low rest (mark_highest (u64 (entry.addr + entry.len)) highest)
      (ground (arith, low.0)) low.1

count_frames-in_range :
    (mb : Multiboot) (j : ℕ)
    → All IsLow mb.mmap
    → upper_end mb < 2 ^ 32
    → ltb j (count_frames mb) ≡ in_range mb j
unfolding count_frames mark_highest
count_frames-in_range mb j low upper =
    let all_below = below-highest_end mb.mmap 0 (j * page_size) low in
    let small = highest_end-low mb.mmap 0 (omega arith) low in ground (arith, all_below, small)

region-is_reserved :
    (start end j : ℕ) → end + 4095 < 2 ^ 32 → in_region start end j ≡ is_reserved start end j
region-is_reserved start end j low = ground arith

module _ (mb : Multiboot) (low : All IsLow mb.mmap) (upper : upper_end mb < 2 ^ 32) where
  used_by_map-is_memory_frame : (j : ℕ) → used_by_map mb j ≡ not (is_memory_frame mb j)
  used_by_map-is_memory_frame j =
      let fallback = region-meets 0x100000 (mb.mem_upper_kb * 1024) j upper in
      let by_map = map_status-is_free_by mb.mmap j false low in
      rw (any-has_memory mb.mmap, fallback, by_map) (ground arith)

-- The conversions of an address in the higher half.
module _ (a : ℕ) (high : IsHigh a) where
  virt_to_phys-lem : virt_to_phys a ≡ a - 0xC0000000
  virt_to_phys-lem = omega (arith, high)

  page_behind : u32 (virt_to_phys a + 4096) ≡ a - 0xC0000000 + 4096
  page_behind = omega (arith, high)

-- A range that ends in the higher half, and one that ends a page behind such an address.
module _ (start a j : ℕ) (high : IsHigh a) where
  ends_at : in_region start (virt_to_phys a) j ≡ is_reserved start (a - 0xC0000000) j
  ends_at =
      rw (virt_to_phys-lem a high)
        (region-is_reserved start (a - 0xC0000000) j (omega (arith, high)))

  ends_behind :
      in_region start (u32 (virt_to_phys a + 4096)) j ≡ is_reserved start (a - 0xC0000000 + 4096) j
  ends_behind =
      rw (page_behind a high)
        (region-is_reserved start (a - 0xC0000000 + 4096) j (omega (arith, high)))

kernel_frame-is_kernel_frame :
    (l : Layout) → IsPlaced l → (j : ℕ) → kernel_frame l j ≡ is_kernel_frame l j
kernel_frame-is_kernel_frame l placed j =
    let directory = virt_to_phys-lem l.boot_page_directory placed.directory_high in
    let stack = virt_to_phys-lem l.stack_bottom placed.bottom_high in
    let bitmap = virt_to_phys-lem l.bitmap_addr placed.bitmap_high in
    rw
      (
        ends_at 0x100000 l.kernel_end j placed.kernel_end_high,
        ends_behind (virt_to_phys l.boot_page_directory) l.boot_page_table1 j placed.table_high,
        directory,
        ends_at (virt_to_phys l.stack_bottom) l.stack_top j placed.top_high,
        stack,
        ends_behind (virt_to_phys l.bitmap_addr) l.bitmap_addr j placed.bitmap_high,
        bitmap,
      )
      refl

-- With a valid map whose regions, and the memory above 1 MiB, end below 4 GiB, and symbols in the
-- higher half, pmm_init leaves a valid state. A frame below 32768 exists exactly if it is frame 0
-- or starts at or before the end of a region or of the memory above 1 MiB, if that is known. It is
-- in use exactly if it is frame 0, or meets a range of the kernel or the page behind one, or is no
-- memory: the last region that meets it decides (an empty region meets the page that it begins
-- inside of), a frame that none meets is no memory, and the memory above 1 MiB stands in for a map
-- without usable regions.
pub init-IsBuilt :
    (mb : Multiboot) (l : Layout) (p : Pmm)
    → is_valid mb ≡ true
    → IsBitmap p
    → IsPlaced l
    → All IsLow mb.mmap
    → upper_end mb < 2 ^ 32
    → IsBuilt mb l (init mb l p)
init-IsBuilt mb l p ok b placed low upper =
    let m = init-Marks mb l p ok b in
    record {
      valid = m.valid;
      size = λ j. ap (ltb j) m.size ∙ count_frames-in_range mb j low upper;
      marks = λ j inside.
          m.marks j (omega (arith, inside, m.size))
          ∙ rw (kernel_frame-is_kernel_frame l placed j, used_by_map-is_memory_frame mb low upper j)
              refl;
    }
