-- ===== src/Paging/Pages.antt =====
-- `paging_map_page` and `paging_unmap_page` where there is a table.
use simply_os.Base.{
  ℕ, ◌+◌, ◌/◌, ◌%◌, ◌^◌, ◌<◌, ◌≡◌, ◌≢◌, refl, ◌∙◌, arith, bit_and, bit_or, true, Option, none, some,
  ◌==◌,
}
use simply_os.Base.Bits.{bit_and_mask}
use simply_os.Paging.{
  Machine, page_size, pde_idx, is_present, frame_of, pde, translate, map_page, unmap_page, put,
}
use simply_os.Paging.Walk.{frame_of-lem, is_present-lem}
use simply_os.Paging.Lookup.{entry_at, store-entry}
use simply_os.Paging.Update.{IsTables, entry-lem, translate-other, translate-this}

-- The page of `virt` is translated to a frame, or to a fault, and every other page as before.
pub record Remaps (m : Machine) (virt : ℕ) (to : Option ℕ) (m' : Machine) : Type 0 where
  pub this :
      (w : ℕ)
      → w / page_size ≡ virt / page_size
      → translate m' w ≡ elim to [ none ↦ none | some frame ↦ some (frame + w % page_size) ]
  pub others :
      (w : ℕ) → w < 2 ^ 32 → w / page_size ≢ virt / page_size → translate m' w ≡ translate m w

module _ (m : Machine) (t : IsTables m) (virt : ℕ) (low : virt < 0xFFC00000)
    (present : is_present (pde m (pde_idx virt)) ≡ true) where
  pub map_page-runs :
      (phys flags : ℕ)
      → phys % page_size ≡ 0
      → map_page virt phys flags m
        ≡ some
            (true, record m { phys = put m.phys (entry_at m virt) (bit_or phys (bit_or flags 1)) })
  unfolding map_page
  map_page-runs phys flags aligned =
      let ok : (bit_and phys 0xFFF == 0) ≡ true = ground (arith, bit_and_mask 12 phys) in
      rw
        (
          ok,
          present,
          store-entry m virt t.recursive (omega arith) (bit_or phys (bit_or flags 1)) present,
        )
        refl

  -- With the recursive entry in place, words of 32 bits, and different tables for different
  -- entries of the directory, paging_map_page of an address below the window whose table is there,
  -- with an aligned 32-bit frame and flags below 4096, ends without a fault and returns true; then
  -- the processor translates the addresses of this page to the frame and those of every other page
  -- as before.
  pub map_page-Remaps :
      (phys flags : ℕ)
      → phys % page_size ≡ 0
      → phys < 2 ^ 32
      → flags < page_size
      → (m' : Machine) × (map_page virt phys flags m ≡ some (true, m'))
        × Remaps m virt (some phys) m'
  map_page-Remaps phys flags aligned word small =
      let v = bit_or phys (bit_or flags 1) in
      let value = entry-lem phys flags aligned small in
      let here : is_present v ≡ true = is_present-lem v (omega (arith, value)) in
      let frame : frame_of v ≡ phys =
        frame_of-lem v (omega (arith, value)) ∙ omega (arith, value) in
      (
        record m { phys = put m.phys (entry_at m virt) v },
        map_page-runs phys flags aligned,
        record {
          this = λ w same. translate-this m t virt v low present w same ∙ rw (here, frame) refl;
          others = translate-other m t virt v low present;
        },
      )

  pub unmap_page-runs :
      unmap_page virt m ≡ some (record m { phys = put m.phys (entry_at m virt) 0 })
  unfolding unmap_page
  unmap_page-runs = rw (present, store-entry m virt t.recursive (omega arith) 0 present) refl

  -- With the recursive entry in place, words of 32 bits, and different tables for different
  -- entries of the directory, paging_unmap_page of an address below the window whose table is
  -- there ends without a fault; then the processor faults on the addresses of this page and
  -- translates those of every other page as before.
  pub unmap_page-Remaps : (m' : Machine) × (unmap_page virt m ≡ some m') × Remaps m virt none m'
  unmap_page-Remaps = (
    record m { phys = put m.phys (entry_at m virt) 0 },
    unmap_page-runs,
    record {
      this = translate-this m t virt 0 low present;
      others = translate-other m t virt 0 low present;
    },
  )
