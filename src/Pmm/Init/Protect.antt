-- ===== src/Pmm/Init/Protect.antt =====
-- The memory of the kernel after `pmm_init`: no later sequence of calls hands any of it out.
use simply_os.Base.{
  ℕ, ◌+◌, ◌-◌, ◌/◌, ◌^◌, ◌≤◌, ◌<◌, Bool, true, ◌||◌, ◌≡◌, refl, ◌≢◌, ◌⊎◌, inl, inr, arith, ◌==◌, [],
  All, Mem, All-mem, All-erase, u32, ap, sym, ◌∙◌,
}
use simply_os.Multiboot.{Multiboot, is_valid}
use simply_os.Pmm.{Pmm, page_size, alloc_frame}
use simply_os.Pmm.Valid.{IsValid, is_used, is_used-set_used, frame_count-set_used}
use simply_os.Pmm.Alloc.{
  Allocates, exhausted, found, alloc_frame-Allocates, is_used-free_frame, frame_count-free_frame,
}
use simply_os.Pmm.Exclusive.{
  Client, Step, alloc, refuse, release, Reach, here, next, IsExclusive, Reach-IsExclusive,
}
use simply_os.Pmm.Init.{Layout, kernel_physical_start, virt_to_phys, count_frames, init}
use simply_os.Pmm.Init.Spec.{IsBitmap, in_region, kernel_frame, init-Marks}

-- A frame that was in use when the calls began is never held by a client.
abbrev Kept : ℕ → Client → Type 0
Kept j c = (is_used c.pmm j ≡ true) × All (λ a. a / page_size ≢ j) c.held

alloc-Kept :
    (j : ℕ) (c : Client) (r : ℕ × Pmm)
    → IsValid c.pmm
    → Allocates c.pmm 1 r
    → Kept j c
    → (is_used r.1 j ≡ true) × (r.0 ≢ 0 → r.0 / page_size ≢ j)
alloc-Kept j c r v (exhausted e all) k = rw e (k.0, λ ne. absurd (ne refl))
alloc-Kept j c r v (found frame lo hi unused all e) k = rw e (
  ground (arith, k.0, is_used-set_used c.pmm v frame hi true j),
  λ ne same. ground (arith, k.0, ap (is_used c.pmm) same),
)

Step-Kept : {c d : Client} (j : ℕ) → Step c d → IsExclusive c → Kept j c → Kept j d
Step-Kept {c} j (alloc ne e) x k =
    let (used, apart) =
      alloc-Kept j c (alloc_frame c.pmm) x.valid (alloc_frame-Allocates c.pmm x.valid) k in
    rw e (used, (apart ne, k.1))
Step-Kept {c} j (refuse z e) x k =
    let (used, apart) =
      alloc-Kept j c (alloc_frame c.pmm) x.valid (alloc_frame-Allocates c.pmm x.valid) k in
    rw e (used, k.1)
Step-Kept {c} j (release a m e) x k =
    let ne = All-mem _ c.held k.1 m in
    rw e (ground (arith, k.0, ne, is_used-free_frame c.pmm a j x.valid), All-erase _ a c.held k.1)

Reach-Kept :
    (p : Pmm) {c : Client} (j : ℕ)
    → IsValid p
    → is_used p j ≡ true
    → Reach (record { pmm = p; held = [] }) c
    → Kept j c
Reach-Kept p j v used here = (used, tt)
Reach-Kept p j v used (next r s) = Step-Kept j s (Reach-IsExclusive p v r) (Reach-Kept p j v used r)

alloc-frame_count : (p : Pmm) (r : ℕ × Pmm) → Allocates p 1 r → r.1.frame_count ≡ p.frame_count
alloc-frame_count p r (exhausted e all) = rw e
alloc-frame_count p r (found frame lo hi unused all e) = rw e (frame_count-set_used p frame true)

Reach-frame_count :
    (p : Pmm) {c : Client}
    → IsValid p
    → Reach (record { pmm = p; held = [] }) c
    → c.pmm.frame_count ≡ p.frame_count
Reach-frame_count p v here = refl
Reach-frame_count p v (next {d} r (alloc ne e)) =
    let x = Reach-IsExclusive p v r in
    rw e (alloc-frame_count d.pmm (alloc_frame d.pmm) (alloc_frame-Allocates d.pmm x.valid))
    ∙ Reach-frame_count p v r
Reach-frame_count p v (next {d} r (refuse z e)) =
    let x = Reach-IsExclusive p v r in
    rw e (alloc-frame_count d.pmm (alloc_frame d.pmm) (alloc_frame-Allocates d.pmm x.valid))
    ∙ Reach-frame_count p v r
Reach-frame_count p v (next {d} r (release a m e)) =
    rw e (frame_count-free_frame d.pmm a) ∙ Reach-frame_count p v r

-- The bytes that the kernel itself occupies: its image, the boot page tables, the stack, the bitmap.
abbrev pub IsKernelByte : Layout → ℕ → Type 0
IsKernelByte l b =
    (kernel_physical_start ≤ b) × (b < virt_to_phys l.kernel_end)
    ⊎ (virt_to_phys l.boot_page_directory ≤ b) × (b < virt_to_phys l.boot_page_table1 + page_size)
    ⊎ (virt_to_phys l.stack_bottom ≤ b) × (b < virt_to_phys l.stack_top)
    ⊎ (virt_to_phys l.bitmap_addr ≤ b) × (b < virt_to_phys l.bitmap_addr + 4096)

-- The symbols lie in the higher half, and not in its last two pages.
abbrev pub IsHigh : ℕ → Type 0
IsHigh a = (0xC0000000 ≤ a) × (a < 0xFFFFE000)

pub record IsPlaced (l : Layout) : Type 0 where
  pub kernel_end_high : IsHigh l.kernel_end
  pub directory_high : IsHigh l.boot_page_directory
  pub table_high : IsHigh l.boot_page_table1
  pub bottom_high : IsHigh l.stack_bottom
  pub top_high : IsHigh l.stack_top
  pub bitmap_high : IsHigh l.bitmap_addr

in_region-byte :
    (start end b : ℕ)
    → start ≤ b
    → b < end
    → end < 2 ^ 32 - 4096
    → in_region start end (b / page_size) ≡ true
in_region-byte start end b lo hi fits = ground arith

some_true :
    (z a b c d : Bool)
    → (a ≡ true) ⊎ (b ≡ true) ⊎ (c ≡ true) ⊎ (d ≡ true)
    → (z || a || b || c || d) ≡ true
some_true z a b c d h = ground arith

abbrev in_image : Layout → ℕ → Bool
in_image l = in_region kernel_physical_start (virt_to_phys l.kernel_end)

abbrev in_tables : Layout → ℕ → Bool
in_tables l =
    in_region (virt_to_phys l.boot_page_directory)
      (u32 (virt_to_phys l.boot_page_table1 + page_size))

abbrev in_stack : Layout → ℕ → Bool
in_stack l = in_region (virt_to_phys l.stack_bottom) (virt_to_phys l.stack_top)

abbrev in_bitmap : Layout → ℕ → Bool
in_bitmap l = in_region (virt_to_phys l.bitmap_addr) (u32 (virt_to_phys l.bitmap_addr + 4096))

any_region :
    (l : Layout) (j : ℕ)
    → (in_image l j ≡ true)
      ⊎ (in_tables l j ≡ true)
      ⊎ (in_stack l j ≡ true)
      ⊎ (in_bitmap l j ≡ true)
    → kernel_frame l j ≡ true
any_region l j = some_true (j == 0) (in_image l j) (in_tables l j) (in_stack l j) (in_bitmap l j)

kernel_frame-byte :
    (l : Layout) (b : ℕ) → IsPlaced l → IsKernelByte l b → kernel_frame l (b / page_size) ≡ true
kernel_frame-byte l b pl (inl h) =
    any_region l (b / page_size) (
      inl
        (in_region-byte kernel_physical_start (virt_to_phys l.kernel_end) b h.0 h.1 (omega arith)))
kernel_frame-byte l b pl (inr (inl h)) = any_region l (b / page_size) (
    inr (
      inl (
        in_region-byte (virt_to_phys l.boot_page_directory)
          (u32 (virt_to_phys l.boot_page_table1 + page_size)) b h.0 (omega arith) (omega arith))))
kernel_frame-byte l b pl (inr (inr (inl h))) = any_region l (b / page_size) (
    inr (
      inr (
        inl (
          in_region-byte (virt_to_phys l.stack_bottom) (virt_to_phys l.stack_top) b h.0 h.1
            (omega arith)))))
kernel_frame-byte l b pl (inr (inr (inr h))) = any_region l (b / page_size) (
    inr (
      inr (
        inr (
          in_region-byte (virt_to_phys l.bitmap_addr) (u32 (virt_to_phys l.bitmap_addr + 4096)) b
            h.0 (omega arith) (omega arith)))))

-- After pmm_init with a valid map and symbols in the higher half, no sequence of allocations and
-- of frees of what is held ever hands out a frame with a byte of the kernel image, the boot page
-- tables, the stack or the bitmap.
pub init-protects :
    (mb : Multiboot) (l : Layout) (p : Pmm) {c : Client} (a b : ℕ)
    → is_valid mb ≡ true
    → IsBitmap p
    → IsPlaced l
    → Reach (record { pmm = init mb l p; held = [] }) c
    → Mem a c.held
    → a ≤ b
    → b < a + page_size
    → ¬ (IsKernelByte l b)
init-protects mb l p {c} a b ok bm pl r m lo hi kernel =
    let marks = init-Marks mb l p ok bm in
    let held = All-mem _ c.held (Reach-IsExclusive (init mb l p) marks.valid r).held_ok m in
    let same : b / page_size ≡ a / page_size = omega arith in
    let frames : c.pmm.frame_count ≡ count_frames mb =
      Reach-frame_count (init mb l p) marks.valid r ∙ marks.size in
    let used : is_used (init mb l p) (b / page_size) ≡ true = rw (
      marks.marks (b / page_size) (omega (arith, held, frames, same)),
      kernel_frame-byte l b pl kernel,
    ) in
    All-mem _ c.held (Reach-Kept (init mb l p) (b / page_size) marks.valid used r).1 m (sym same)
