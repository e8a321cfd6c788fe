-- ===== src/Pmm/Init/Limits.antt =====
-- Where `pmm_init` departs from what its comments say: addresses of 4 GiB and more, and the end of a
-- reserved range.
use simply_os.Base.{
  ℕ, ◌+◌, ◌-◌, ◌*◌, ◌/◌, ◌%◌, ◌^◌, ◌≤◌, ◌<◌, true, false, ◌≡◌, arith, lt→leb-false, u32, ap, ◌∙◌,
}
use simply_os.Multiboot.{Entry, Multiboot, is_valid, get_mem_upper_kb}
use simply_os.Pmm.{Pmm, page_size, total_frames, alloc_frame, free_frames_range, reserve_frames}
use simply_os.Pmm.Valid.{IsValid, is_used}
use simply_os.Pmm.Alloc.{Allocates, exhausted, found, alloc_frame-Allocates}
use simply_os.Pmm.Init.{
  Layout, count_frames, highest_end, mark_highest, init, apply_region, region_usable,
  region_start_frame, region_end_frame, reserve_region,
}
use simply_os.Pmm.Init.Range.{is_used-set_range}
use simply_os.Pmm.Init.Spec.{IsBitmap, init-Marks}

alloc-no_frames : (p : Pmm) (r : ℕ × Pmm) → p.frame_count ≤ 1 → Allocates p 1 r → r.0 ≡ 0
alloc-no_frames p r one (exhausted e all) = ap (λ (t : ℕ × Pmm). t.0) e
alloc-no_frames p r one (found frame lo hi unused all e) = absurd (omega arith)

count_frames-wraps :
    (mb : Multiboot)
    → highest_end mb.mmap 0 % 2 ^ 32 ≡ 0
    → 0x00100000 + get_mem_upper_kb mb * 1024 ≤ highest_end mb.mmap 0
    → count_frames mb ≡ 1
unfolding count_frames mark_highest
count_frames-wraps mb wraps covers = ground arith

-- If the highest end of a region of the map is a multiple of 4 GiB and mem_upper does not reach
-- past it, the cast to 32 bits in pmm_init leaves a range of one frame, and the first allocation
-- returns NULL whatever memory the map makes available.
pub init-no_frames :
    (mb : Multiboot) (l : Layout) (p : Pmm)
    → is_valid mb ≡ true
    → IsBitmap p
    → highest_end mb.mmap 0 % 2 ^ 32 ≡ 0
    → 0x00100000 + get_mem_upper_kb mb * 1024 ≤ highest_end mb.mmap 0
    → (total_frames (init mb l p) ≡ 1) × ((alloc_frame (init mb l p)).0 ≡ 0)
unfolding total_frames
init-no_frames mb l p ok b wraps covers =
    let m = init-Marks mb l p ok b in
    let one = m.size ∙ count_frames-wraps mb wraps covers in
    (one, alloc-no_frames (init mb l p) _ (omega (arith, one)) (alloc_frame-Allocates _ m.valid))

high_start : (addr k : ℕ) → addr ≡ (k + 1) * 2 ^ 32 → region_start_frame addr ≡ 0
unfolding region_start_frame
high_start addr k high = omega arith

high_end :
    (addr len k : ℕ)
    → addr ≡ (k + 1) * 2 ^ 32
    → addr + len < 2 ^ 64
    → len ≤ 2 ^ 32
    → 0 < len
    → region_end_frame addr len ≡ (len - 1) / page_size + 1
unfolding region_end_frame
high_end addr len k high fits short pos = ground arith

-- A usable region that begins at a multiple of 4 GiB makes the frames of the same offsets in low
-- memory available, although none of them belongs to it.
pub high_region-frees_low :
    (p : Pmm) (entry : Entry) (k j : ℕ)
    → IsValid p
    → region_usable entry.kind ≡ true
    → entry.addr ≡ (k + 1) * 2 ^ 32
    → entry.addr + entry.len < 2 ^ 64
    → entry.len ≤ 2 ^ 32
    → j * page_size < entry.len
    → j < p.frame_count
    → (is_used (apply_region p entry) j ≡ false) × (j * page_size + page_size ≤ entry.addr)
unfolding apply_region free_frames_range
high_region-frees_low p entry k j v usable high fits short inside exists = (
  rw
      (
        usable,
        high_start entry.addr k high,
        high_end entry.addr entry.len k high fits short (omega arith),
      )
      (ground
        (arith, is_used-set_range false ((entry.len - 1) / page_size + 1 - 0) 0 p v j exists)),
  omega arith,
)

-- pmm_reserve_region also marks the frame behind the last one that the range reaches into.
pub reserve_region-one_more :
    (p : Pmm) (start end : ℕ)
    → IsValid p
    → start < end
    → end + page_size ≤ 2 ^ 32
    → (end + (page_size - 1)) / page_size < p.frame_count
    → (is_used (reserve_region p start end) ((end + (page_size - 1)) / page_size) ≡ true)
      × (end ≤ (end + (page_size - 1)) / page_size * page_size)
unfolding reserve_region reserve_frames
reserve_region-one_more p start end v some_left fits exists =
    let last = (end + (page_size - 1)) / page_size in
    let first = start / page_size in
    let last_frame : u32 (u32 (end + (page_size - 1)) / page_size + 1) ≡ last + 1 = omega arith in
    (
      rw (lt→leb-false end start some_left, last_frame)
          (ground (arith, is_used-set_range true (last + 1 - first) first p v last exists)),
      omega arith,
    )
