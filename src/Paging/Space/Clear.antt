-- ===== src/Paging/Space/Clear.antt =====
-- The loop that clears a new page table, through the window.
use simply_os.Base.{
  leb, ltb, false, ◌&&◌, if◌then◌else◌, ℕ, zero, suc, ◌+◌, ◌*◌, ◌^◌, ◌≤◌, ◌<◌, ◌≡◌, ◌≢◌, refl, ◌∙◌,
  sym, ap, subst, arith, true, some, ℕ_discrete,
}
use simply_os.Paging.{
  Machine, pde, pde_idx, pte_idx, is_present, frame_of, store, clear_table, page_table_virt, put,
}
use simply_os.Paging.Walk.{pte_idx-lem}
use simply_os.Paging.Lookup.{entry_at, store-entry}
use simply_os.Paging.Update.{IsTables, put_self, put-ne, pde-after, after-IsTables}

-- The words of the table from entry `i` on are zero, and everything else is as it was.
pub record IsCleared (m : Machine) (index i left : ℕ) (m' : Machine) : Type 0 where
  pub tables : IsTables m'
  pub same_pmm : m'.pmm ≡ m.pmm
  pub same_directory : m'.page_directory ≡ m.page_directory
  pub entries : (j : ℕ) → j < 1024 → pde m' j ≡ pde m j
  pub zeros :
      (j : ℕ)
      → j < 1024
      → m'.phys (frame_of (pde m index) + 4 * j)
        ≡ (if leb i j && ltb j (i + left) then 0 else m.phys (frame_of (pde m index) + 4 * j))
  pub others :
      (a : ℕ) → ((j : ℕ) → j < 1024 → a ≢ frame_of (pde m index) + 4 * j) → m'.phys a ≡ m.phys a

module _ (index : ℕ) (small : index < 1023) where
  -- The page whose entry is entry `i` of the table.
  abbrev page : ℕ → ℕ
  page i = index * 2 ^ 22 + i * 4096

  dir : (i : ℕ) → i < 1024 → pde_idx (page i) ≡ index
  dir i inside = omega arith

  row : (i : ℕ) → i < 1024 → pte_idx (page i) ≡ i
  row i inside = pte_idx-lem (page i) ∙ omega arith

  target : (m : Machine) (i : ℕ) → i < 1024 → entry_at m (page i) ≡ frame_of (pde m index) + 4 * i
  target m i inside = rw (dir i inside, row i inside) refl

  one_store :
      (m : Machine) (i : ℕ)
      → IsTables m
      → is_present (pde m index) ≡ true
      → i < 1024
      → store m (page_table_virt index + 4 * i) 0
        ≡ some (record m { phys = put m.phys (frame_of (pde m index) + 4 * i) 0 })
  one_store m i t present inside =
      let there : is_present (pde m (pde_idx (page i))) ≡ true = rw (dir i inside) present in
      let at : page_table_virt (pde_idx (page i)) + 4 * pte_idx (page i)
          ≡ page_table_virt index + 4 * i =
        rw (dir i inside, row i inside) refl in
      ap (λ a. store m a 0) (sym at)
      ∙ store-entry m (page i) t.recursive (omega arith) 0 there
      ∙ ap (λ a. some (record m { phys = put m.phys a 0 })) (target m i inside)

  pub clear_table-IsCleared :
      (left : ℕ) (m : Machine) (i : ℕ)
      → IsTables m
      → is_present (pde m index) ≡ true
      → i + left ≤ 1024
      → (m' : Machine) × (clear_table (page_table_virt index) left i m ≡ some m')
        × IsCleared m index i left m'
  unfolding clear_table
  clear_table-IsCleared zero m i t present room = (
    m,
    refl,
    record {
      tables = t;
      same_pmm = refl;
      same_directory = refl;
      entries = λ j h. refl;
      zeros = λ j h. ground arith;
      others = λ a h. refl;
    },
  )
  clear_table-IsCleared (suc left) m i t present room =
      let inside : i < 1024 = omega arith in
      let a = frame_of (pde m index) + 4 * i in
      let m1 : Machine = record m { phys = put m.phys a 0 } in
      let there : is_present (pde m (pde_idx (page i))) ≡ true = rw (dir i inside) present in
      let t0 = after-IsTables m t (page i) 0 (omega arith) there (omega arith) in
      let t1 : IsTables m1 =
        subst (λ x. IsTables (record m { phys = put m.phys x 0 })) (target m i inside) t0 in
      let keep : (j : ℕ) → j < 1024 → pde m1 j ≡ pde m j =
        subst (λ x. (j : ℕ) → j < 1024 → pde (record m { phys = put m.phys x 0 }) j ≡ pde m j)
          (target m i inside) (λ j h. pde-after m t (page i) 0 (omega arith) there j h) in
      let base : frame_of (pde m1 index) ≡ frame_of (pde m index) =
        ap frame_of (keep index (omega arith)) in
      let (m', runs, c) =
        clear_table-IsCleared left m1 (i + 1) t1 (rw (keep index (omega arith)) present)
          (omega arith) in
      (
        m',
        rw (clear_table, one_store m i t present inside) runs,
        record {
          tables = c.tables;
          same_pmm = c.same_pmm;
          same_directory = c.same_directory;
          entries = λ j h. c.entries j h ∙ keep j h;
          zeros = λ j h.
              let later =
                subst
                  (λ x.
                    m'.phys (x + 4 * j)
                    ≡ (if leb (i + 1) j && ltb j (i + 1 + left) then 0 else m1.phys (x + 4 * j)))
                  base (c.zeros j h) in
              elim (ℕ_discrete j i) [
                | yes e ↦
                    let before : (leb (i + 1) j && ltb j (i + 1 + left)) ≡ false = ground arith in
                    let now : (leb i j && ltb j (i + suc left)) ≡ true = ground arith in
                    let same : frame_of (pde m index) + 4 * j ≡ a =
                      ap (λ x. frame_of (pde m index) + 4 * x) e in
                    later ∙ rw (before, now, same) (put_self m.phys a 0)
                | no ne ↦
                    let same : (leb (i + 1) j && ltb j (i + 1 + left))
                        ≡ (leb i j && ltb j (i + suc left)) =
                      ground arith in
                    let apart : frame_of (pde m index) + 4 * j ≢ a = λ e. ne (omega (arith, e)) in
                    later ∙ rw (same, put-ne m.phys a 0 (frame_of (pde m index) + 4 * j) apart) refl
              ];
          others = λ x h.
              c.others x (λ j k. subst (λ y. x ≢ y + 4 * j) (sym base) (h j k))
              ∙ put-ne m.phys a 0 x (h i inside);
        },
      )
