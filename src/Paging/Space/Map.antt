-- ===== src/Paging/Space/Map.antt =====
-- `paging_map_page` on every branch, the new page table among them.
use simply_os.Base.{
  ℕ, ◌+◌, ◌/◌, ◌%◌, ◌^◌, ◌<◌, ◌≡◌, ◌≢◌, refl, ◌∙◌, sym, subst, arith, Bool, true, false, some,
  Option, ◌==◌, bit_or, bit_and, Bool-cases, inl, inr,
}
use simply_os.Base.Bits.{bit_and_mask}
use simply_os.Pmm.Valid.{is_used}
use simply_os.Paging.{
  Machine, page_size, pde, pde_idx, is_present, frame_of, translate, new_table, map_page, put,
}
use simply_os.Paging.Lookup.{entry_at}
use simply_os.Paging.Update.{pde-after, after-IsTables, entry-lem, translate-this, translate-other}
use simply_os.Paging.Pages.{map_page-runs}
use simply_os.Paging.Walk.{is_present-lem, frame_of-lem}
use simply_os.Paging.Space.{IsSpace, IsOwned, IsFull}
use simply_os.Paging.Space.Table.{NewTable, none_left, made, new_table-NewTable}

-- The page is translated to the frame, and every other page below the window as before.
pub record IsMapped (m : Machine) (virt phys : ℕ) (m' : Machine) : Type 0 where
  pub space : IsSpace m'
  pub owned : (f : ℕ) → IsOwned m f → IsOwned m' f
  pub this :
      (w : ℕ) → w / page_size ≡ virt / page_size → translate m' w ≡ some (phys + w % page_size)
  pub others :
      (w : ℕ) → w < 0xFFC00000 → w / page_size ≢ virt / page_size → translate m' w ≡ translate m w

-- The outcomes of `paging_map_page`; without a frame for a new table that is needed nothing has
-- changed.
pub data Maps (m : Machine) (virt phys : ℕ) : Option (Bool × Machine) → Type 0 where
  refused :
      is_present (pde m (pde_idx virt)) ≡ false → IsFull m → Maps m virt phys (some (false, m))
  mapped : (m' : Machine) → IsMapped m virt phys m' → Maps m virt phys (some (true, m'))

-- A changed entry of a table keeps the space.
pub put_entry-IsSpace :
    (m : Machine) (virt v : ℕ)
    → IsSpace m
    → virt < 0xFFC00000
    → is_present (pde m (pde_idx virt)) ≡ true
    → v < 2 ^ 32
    → IsSpace (record m { phys = put m.phys (entry_at m virt) v })
put_entry-IsSpace m virt v s low present word =
    let same = pde-after m s.tables virt v low present in
    record {
      tables = after-IsTables m s.tables virt v low present word;
      valid = s.valid;
      taken = λ i inside there below.
          subst (λ x. is_used m.pmm (frame_of x / 4096) ≡ true) (sym (same i inside))
            (s.taken i inside (subst (λ x. is_present x ≡ true) (same i inside) there)
              (subst (λ x. frame_of x / 4096 < m.pmm.frame_count) (same i inside) below));
    }

-- And what is owned.
pub put_entry-IsOwned :
    (m : Machine) (virt v f : ℕ)
    → IsSpace m
    → virt < 0xFFC00000
    → is_present (pde m (pde_idx virt)) ≡ true
    → IsOwned m f
    → IsOwned (record m { phys = put m.phys (entry_at m virt) v }) f
put_entry-IsOwned m virt v f s low present o = record {
  some_frame = o.some_frame;
  aligned = o.aligned;
  inside = o.inside;
  used = o.used;
  no_table = λ i inside there.
      let same = pde-after m s.tables virt v low present i inside in
      rw same (o.no_table i inside (subst (λ x. is_present x ≡ true) same there));
}

module _ (virt phys flags : ℕ) (low : virt < 0xFFC00000) (aligned : phys % page_size ≡ 0)
    (word : phys < 2 ^ 32) (small : flags < page_size) where
  ok : (bit_and phys 0xFFF == 0) ≡ true
  ok = ground (arith, bit_and_mask 12 phys)

  map_there :
      (m : Machine)
      → IsSpace m
      → is_present (pde m (pde_idx virt)) ≡ true
      → (m' : Machine) × (map_page virt phys flags m ≡ some (true, m')) × IsMapped m virt phys m'
  map_there m s present =
      let v = bit_or phys (bit_or flags 1) in
      let value = entry-lem phys flags aligned small in
      let here : is_present v ≡ true = is_present-lem v (omega (arith, value)) in
      let fits : v < 2 ^ 32 = omega (arith, value) in
      let frame : frame_of v ≡ phys = frame_of-lem v fits ∙ omega (arith, value) in
      (
        record m { phys = put m.phys (entry_at m virt) v },
        map_page-runs m s.tables virt low present phys flags aligned,
        record {
          owned = λ f o. put_entry-IsOwned m virt v f s low present o;
          space = put_entry-IsSpace m virt v s low present fits;
          this =
              λ w same. translate-this m s.tables virt v low present w same ∙ rw (here, frame) refl;
          others = λ w below ne. translate-other m s.tables virt v low present w (omega arith) ne;
        },
      )

  -- Behind a new table.
  map_new :
      (m : Machine) (o : Option (Bool × Machine))
      → is_present (pde m (pde_idx virt)) ≡ false
      → new_table (pde_idx virt) m ≡ o
      → NewTable m (pde_idx virt) o
      → Maps m virt phys (map_page virt phys flags m)
  unfolding map_page
  map_new m o absent e (none_left full) = rw (map_page, ok, absent, e) (refused absent full)
  map_new m o absent e (made m1 like there) =
      let (m', runs, r) = map_there m1 like.space there in
      let same : map_page virt phys flags m ≡ map_page virt phys flags m1 =
        rw (map_page, ok, absent, e, there) refl in
      subst (Maps m virt phys) (sym (same ∙ runs)) (
        mapped m' (record {
          space = r.space;
          owned = λ f x. r.owned f (like.owned f x);
          this = r.this;
          others = λ w below ne. r.others w below ne ∙ like.same w below;
        }))

  -- paging_map_page, with an aligned 32-bit frame, flags below 4096, an address below the window,
  -- and the tables and frames in order, ends without a fault. It returns false only if a new page
  -- table is needed and no frame is left, and has then changed nothing; where it returns true the
  -- processor translates the page to the frame and every other page below the window as before,
  -- the tables and frames are in order, and a frame that was in use and no table still is.
  pub map_page-Maps : (m : Machine) → IsSpace m → Maps m virt phys (map_page virt phys flags m)
  map_page-Maps m s = elim (Bool-cases (is_present (pde m (pde_idx virt)))) [
    | inl present ↦
        let (m', runs, r) = map_there m s present in
        subst (Maps m virt phys) (sym runs) (mapped m' r)
    | inr absent ↦
        map_new m (new_table (pde_idx virt) m) absent refl
          (new_table-NewTable m (pde_idx virt) s (omega arith) absent)
  ]
