-- ===== src/Pmm/Init/Spec.antt =====
-- What `pmm_init` makes of each frame, without a bitmap or a loop over frames, by the code's own
-- conversions of addresses; Regions says it by the addresses themselves.
use simply_os.Base.{
  ℕ, zero, suc, ◌+◌, ◌-◌, ◌*◌, ◌/◌, ◌%◌, ◌^◌, ◌≤◌, ◌<◌, Bool, true, false, not, ◌&&◌, ◌||◌, ◌≡◌,
  refl, arith, ltb, leb, ◌==◌, if◌then◌else◌, lt→ltb, Bool-cases, inl, inr, List, [], ◌∷◌, get_or,
  length, u32, bit_and, ◌∙◌, fill, length-fill, get_or-fill, sym,
}
use simply_os.Base.Loops.{every, every_lookup}
use simply_os.Multiboot.{Entry, Multiboot, is_valid, get_mem_upper_kb}
use simply_os.Pmm.{
  Pmm, page_size, max_frames, set_used, set_range, reserve_frames, free_frames_range,
}
use simply_os.Pmm.Count.{count-all}
use simply_os.Pmm.Valid.{IsValid, is_used, is_used-set_used, set_used-IsValid, frame_count-set_used}
use simply_os.Pmm.Init.{
  Layout, kernel_physical_start, virt_to_phys, reserve_region, region_start_frame, region_end_frame,
  region_usable, count_frames, apply_region, apply_regions, fallback, reserve_kernel, all_used,
  init,
}
use simply_os.Pmm.Init.Range.{set_range-IsValid, frame_count-set_range, is_used-set_range}

-- The static array `pmm_bitmap` is there, whatever it holds.
pub record IsBitmap (p : Pmm) : Type 0 where
  pub bitmap_size : length p.bitmap ≡ 4096
  pub bytes : (i : ℕ) → get_or p.bitmap i 0 < 256

-- The frames of a region of the map, and those of a reserved range of addresses.
abbrev pub in_frames : ℕ → ℕ → ℕ → Bool
in_frames start_frame end_frame j = leb start_frame j && ltb j end_frame

abbrev pub in_region : ℕ → ℕ → ℕ → Bool
in_region start end j =
    ltb start end && in_frames (start / page_size) (u32 (end + (page_size - 1)) / page_size + 1) j

-- The last region of the map that covers the frame decides.
abbrev pub map_status : List Entry → ℕ → Bool → Bool
map_status [] j used = used
map_status (entry ∷ rest) j used = map_status rest j (
    if in_frames (region_start_frame entry.addr) (region_end_frame entry.addr entry.len) j
    then not (region_usable entry.kind)
    else used)

abbrev pub any_usable : List Entry → Bool
any_usable [] = false
any_usable (entry ∷ rest) = region_usable entry.kind || any_usable rest

abbrev pub used_by_map : Multiboot → ℕ → Bool
used_by_map mb j =
    if not (any_usable mb.mmap)
      && not (get_mem_upper_kb mb == 0)
      && in_frames (region_start_frame 0x00100000)
          (region_end_frame 0x00100000 (get_mem_upper_kb mb * 1024)) j
    then false
    else map_status mb.mmap j true

abbrev pub kernel_frame : Layout → ℕ → Bool
kernel_frame l j =
    j == 0
    || in_region kernel_physical_start (virt_to_phys l.kernel_end) j
    || in_region (virt_to_phys l.boot_page_directory)
        (u32 (virt_to_phys l.boot_page_table1 + page_size)) j
    || in_region (virt_to_phys l.stack_bottom) (virt_to_phys l.stack_top) j
    || in_region (virt_to_phys l.bitmap_addr) (u32 (virt_to_phys l.bitmap_addr + 4096)) j

-- A valid state with so many frames, whose marks are `f`.
pub record Marks (frames : ℕ) (f : ℕ → Bool) (p : Pmm) : Type 0 where
  pub valid : IsValid p
  pub size : p.frame_count ≡ frames
  pub marks : (j : ℕ) → j < frames → is_used p j ≡ f j

module _ {frames : ℕ} {f : ℕ → Bool} where
  Marks-range :
      {p : Pmm} (used : Bool) (start_frame end_frame : ℕ)
      → Marks frames f p
      → Marks frames
          (λ j. if in_frames start_frame end_frame j then used else f j)
          (set_range used (end_frame - start_frame) start_frame p)
  Marks-range {p} used a b m = record {
    valid = set_range-IsValid used (b - a) a p m.valid;
    size = frame_count-set_range used (b - a) a p ∙ m.size;
    marks = λ j hj. ground (
      arith,
      m.marks j hj,
      m.size,
      is_used-set_range used (b - a) a p m.valid j (omega (arith, m.size)),
    );
  }

  Marks-congr :
      {g : ℕ → Bool} {p : Pmm} → ((j : ℕ) → f j ≡ g j) → Marks frames f p → Marks frames g p
  Marks-congr same m = record {
    valid = m.valid;
    size = m.size;
    marks = λ j hj. m.marks j hj ∙ same j;
  }

module _ {frames : ℕ} {f : ℕ → Bool} {p : Pmm} where
  Marks-region :
      (start end : ℕ)
      → Marks frames f p
      → Marks frames (λ j. in_region start end j || f j) (reserve_region p start end)
  unfolding reserve_region reserve_frames
  Marks-region start end m = elim (Bool-cases (leb end start)) [
    | inl none_left ↦ rw none_left (Marks-congr (λ j. ground arith) m)
    | inr some_left ↦ rw some_left (Marks-congr (λ j. ground arith) (Marks-range true _ _ m))
  ]

  Marks-zero : 0 < frames → Marks frames f p → Marks frames (λ j. j == 0 || f j) (set_used p 0 true)
  Marks-zero pos m = record {
    valid = set_used-IsValid p m.valid 0 true;
    size = frame_count-set_used p 0 true ∙ m.size;
    marks = λ j hj.
        ground (arith, m.marks j hj, is_used-set_used p m.valid 0 (omega (arith, m.size)) true j);
  }

  Marks-apply_region :
      (entry : Entry)
      → Marks frames f p
      → Marks frames
          (λ j.
            if in_frames (region_start_frame entry.addr) (region_end_frame entry.addr entry.len) j
            then not (region_usable entry.kind)
            else f j)
          (apply_region p entry)
  unfolding apply_region free_frames_range reserve_frames
  Marks-apply_region entry m = elim (Bool-cases (region_usable entry.kind)) [
    | inl usable ↦ rw usable (Marks-range false _ _ m)
    | inr reserved ↦ rw reserved (Marks-range true _ _ m)
  ]

Marks-apply_regions :
    {frames : ℕ} (es : List Entry) (freed : Bool) {f : ℕ → Bool} {p : Pmm}
    → Marks frames f p
    → Marks frames (λ j. map_status es j (f j)) (apply_regions p freed es).0
unfolding apply_regions
Marks-apply_regions [] freed m = m
Marks-apply_regions (entry ∷ rest) freed m =
    Marks-apply_regions rest (region_usable entry.kind || freed) (Marks-apply_region entry m)

freed-apply_regions :
    (es : List Entry) (freed : Bool) (p : Pmm)
    → (apply_regions p freed es).1 ≡ (freed || any_usable es)
unfolding apply_regions
freed-apply_regions [] freed p = ground arith
freed-apply_regions (entry ∷ rest) freed p =
    ground
      (arith, freed-apply_regions rest (region_usable entry.kind || freed) (apply_region p entry))

ones_table : every 8 (λ i. not (bit_and 0xFF (2 ^ i) == 0)) ≡ true
unfolding every
ones_table = refl

is_used-all_used :
    (p : Pmm) (frames : ℕ)
    → IsBitmap p
    → frames ≤ max_frames
    → (j : ℕ) → j < frames
    → is_used (all_used p frames) j ≡ true
unfolding all_used
is_used-all_used p frames b few j hj =
    rw
      (
        get_or-fill ((frames + 7) / 8) 0xFF p.bitmap (j / 8) 0 (omega (arith, b.bitmap_size)),
        lt→ltb (j / 8) ((frames + 7) / 8) (omega arith),
      )
      (every_lookup 8 (λ i. not (bit_and 0xFF (2 ^ i) == 0)) (j % 8) ones_table (omega arith))

bytes-fill :
    (n i : ℕ) (xs : List ℕ) → ((i : ℕ) → get_or xs i 0 < 256) → get_or (fill n 0xFF xs) i 0 < 256
bytes-fill zero i xs h = h i
bytes-fill (suc n) i [] h = omega arith
bytes-fill (suc n) zero (x ∷ xs) h = omega arith
bytes-fill (suc n) (suc i) (x ∷ xs) h = bytes-fill n i xs (λ k. h (suc k))

Marks-all_used :
    (p : Pmm) (frames : ℕ)
    → IsBitmap p
    → frames ≤ max_frames
    → Marks frames (λ _. true) (all_used p frames)
unfolding all_used
Marks-all_used p frames b few = record {
  valid = record {
    bitmap_size = length-fill ((frames + 7) / 8) 0xFF p.bitmap ∙ b.bitmap_size;
    bytes = λ i. bytes-fill ((frames + 7) / 8) i p.bitmap b.bytes;
    few = few;
    counted =
        sym (count-all (is_used (all_used p frames)) frames (is_used-all_used p frames b few));
  };
  size = refl;
  marks = is_used-all_used p frames b few;
}

Marks-fallback :
    (mb : Multiboot) {frames : ℕ} {r : Pmm × Bool}
    → r.1 ≡ any_usable mb.mmap
    → Marks frames (λ j. map_status mb.mmap j true) r.0
    → Marks frames (used_by_map mb) (fallback mb r)
unfolding fallback free_frames_range
Marks-fallback mb {r = r} e m =
    elim (Bool-cases (not (any_usable mb.mmap) && not (get_mem_upper_kb mb == 0))) [
      | inl need ↦ rw (e, need) (Marks-congr (λ j. ground arith) (Marks-range false _ _ m))
      | inr plenty ↦ rw (e, plenty) (Marks-congr (λ j. ground arith) m)
    ]

Marks-reserve_kernel :
    (l : Layout) {frames : ℕ} {f : ℕ → Bool} {p : Pmm}
    → 0 < frames
    → Marks frames f p
    → Marks frames (λ j. kernel_frame l j || f j) (reserve_kernel l p)
unfolding reserve_kernel
Marks-reserve_kernel l pos m =
    Marks-congr (λ j. ground arith)
      (Marks-region _ _ (Marks-region _ _ (Marks-region _ _ (Marks-region _ _ (Marks-zero pos m)))))

pub count_frames_bounds : (mb : Multiboot) → (0 < count_frames mb) × (count_frames mb ≤ max_frames)
unfolding count_frames
count_frames_bounds mb = ground arith

init-built :
    (mb : Multiboot) (l : Layout) (p : Pmm)
    → is_valid mb ≡ true
    → init mb l p
      ≡ reserve_kernel l (fallback mb (apply_regions (all_used p (count_frames mb)) false mb.mmap))
unfolding init
init-built mb l p ok = ground (arith, count_frames_bounds mb)

-- With a valid map pmm_init leaves a valid state with the computed number of frames, and the marks
-- are those of the last converted region that has the frame, of mem_upper where no region is usable,
-- and of the ranges of the kernel.
pub init-Marks :
    (mb : Multiboot) (l : Layout) (p : Pmm)
    → is_valid mb ≡ true
    → IsBitmap p
    → Marks (count_frames mb) (λ j. kernel_frame l j || used_by_map mb j) (init mb l p)
init-Marks mb l p ok b =
    let few = count_frames_bounds mb in
    let start = Marks-all_used p (count_frames mb) b few.1 in
    rw (init-built mb l p ok) (
      Marks-reserve_kernel l few.0 (
        Marks-fallback mb (freed-apply_regions mb.mmap false (all_used p (count_frames mb)))
          (Marks-apply_regions mb.mmap false start)))
