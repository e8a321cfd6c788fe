-- ===== src/Paging/Lookup.antt =====
-- `paging_get_physical` against what the processor does, and the entries that `paging_map_page` and
-- `paging_unmap_page` write where there is a table.
use simply_os.Base.{
  ℕ, ◌+◌, ◌-◌, ◌*◌, ◌%◌, ◌^◌, ◌<◌, ◌≡◌, refl, ◌∙◌, ap, sym, arith, true, false, Option, none, some,
  Bool-cases, inl, inr,
}
use simply_os.Paging.{
  Machine, page_size, pde_idx, pte_idx, is_present, frame_of, pde, translate, load, store,
  get_physical, page_table_virt, put,
}
use simply_os.Paging.Walk.{IsRecursive, translate-window, pte_idx-lem}

-- The address of the entry for a page whose directory entry is there.
abbrev pub entry_at : Machine → ℕ → ℕ
entry_at m virt = frame_of (pde m (pde_idx virt)) + 4 * pte_idx virt

abbrev entry_virt : ℕ → ℕ
entry_virt virt = page_table_virt (pde_idx virt) + 4 * pte_idx virt

-- The start of the page that an address was translated to, 0 for a fault.
abbrev pub page_found : ℕ → Option ℕ → ℕ
page_found virt none = 0
page_found virt (some a) = a - virt % page_size

-- Accesses where the processor finds the page.
pub load-at : (m : Machine) (virt a : ℕ) → translate m virt ≡ some a → load m virt ≡ some (m.phys a)
unfolding load
load-at m virt a e = rw e refl

pub store-at :
    (m : Machine) (virt a v : ℕ)
    → translate m virt ≡ some a
    → store m virt v ≡ some (record m { phys = put m.phys a v })
unfolding store
store-at m virt a v e = rw e refl

module _ (m : Machine) (virt : ℕ) (r : IsRecursive m) (word : virt < 2 ^ 32) where
  window :
      is_present (pde m (pde_idx virt)) ≡ true
      → translate m (entry_virt virt) ≡ some (entry_at m virt)
  window present =
      translate-window m (pde_idx virt) (pte_idx virt) r (omega arith)
        (omega (arith, pte_idx-lem virt)) present

  load-entry :
      is_present (pde m (pde_idx virt)) ≡ true
      → load m (entry_virt virt) ≡ some (m.phys (entry_at m virt))
  load-entry present = load-at m (entry_virt virt) (entry_at m virt) (window present)

  pub store-entry :
      (v : ℕ)
      → is_present (pde m (pde_idx virt)) ≡ true
      → store m (entry_virt virt) v ≡ some (record m { phys = put m.phys (entry_at m virt) v })
  store-entry v present = store-at m (entry_virt virt) (entry_at m virt) v (window present)

  absent_table :
      is_present (pde m (pde_idx virt)) ≡ false
      → (get_physical virt m ≡ some 0) × (translate m virt ≡ none)
  unfolding get_physical translate
  absent_table e = (rw e refl, rw e refl)

  absent_page :
      is_present (pde m (pde_idx virt)) ≡ true
      → is_present (m.phys (entry_at m virt)) ≡ false
      → (get_physical virt m ≡ some 0) × (translate m virt ≡ none)
  unfolding get_physical translate
  absent_page e f = (rw (e, load-entry e, f) refl, rw (e, f) refl)

  present_page :
      is_present (pde m (pde_idx virt)) ≡ true
      → is_present (m.phys (entry_at m virt)) ≡ true
      → (get_physical virt m ≡ some (frame_of (m.phys (entry_at m virt))))
        × (translate m virt ≡ some (frame_of (m.phys (entry_at m virt)) + virt % page_size))
  unfolding get_physical translate
  present_page e f = (rw (e, load-entry e, f) refl, rw (e, f) refl)

  -- With the recursive entry in place paging_get_physical of a 32-bit address does not fault, and
  -- gives the start of the page that the processor translates the address to, or 0 where the
  -- processor faults.
  pub get_physical-translate : get_physical virt m ≡ some (page_found virt (translate m virt))
  get_physical-translate = elim (Bool-cases (is_present (pde m (pde_idx virt)))) [
    | inr e ↦
        let (got, fault) = absent_table e in got ∙ ap (λ t. some (page_found virt t)) (sym fault)
    | inl e ↦ elim (Bool-cases (is_present (m.phys (entry_at m virt)))) [
      | inr f ↦
          let (got, fault) = absent_page e f in got ∙ ap (λ t. some (page_found virt t)) (sym fault)
      | inl f ↦
          let (got, found) = present_page e f in
          got
          ∙ ap some (sub_back (frame_of (m.phys (entry_at m virt))) (virt % page_size))
          ∙ ap (λ t. some (page_found virt t)) (sym found)
    ]
  ]
    where
      sub_back : (a b : ℕ) → a ≡ a + b - b
      sub_back a b = omega arith

-- A read where the processor finds no page faults.
pub load-faults : (m : Machine) (virt : ℕ) → translate m virt ≡ none → load m virt ≡ none
unfolding load
load-faults m virt e = rw e refl

pub translate-absent :
    (m : Machine) (virt : ℕ) → is_present (pde m (pde_idx virt)) ≡ false → translate m virt ≡ none
unfolding translate
translate-absent m virt e = rw e refl
