-- ===== src/Paging/Space/Data.antt =====
-- A write to a frame that is neither the directory nor a table.
use simply_os.Base.{
  ℕ, ◌/◌, ◌%◌, ◌^◌, ◌<◌, ◌≡◌, ◌≢◌, refl, ◌∙◌, sym, subst, arith, true, Bool-cases, inl, inr,
  ℕ_discrete,
}
use simply_os.Pmm.Valid.{is_used}
use simply_os.Paging.{
  Machine, pde, pde_at, pde_idx, is_present, frame_of, translate, put, recursive_pd_index,
  virt_to_phys,
}
use simply_os.Paging.Walk.{slot_base, frame_of-lem, pte_idx-lem}
use simply_os.Paging.Lookup.{entry_at}
use simply_os.Paging.Update.{put_self, put-ne}
use simply_os.Paging.Space.{IsSpace, IsOwned}

module _ (m : Machine) (s : IsSpace m) (f v : ℕ) (o : IsOwned m f) where
  abbrev changed : Machine
  changed = record m { phys = put m.phys f v }

  pde-data : (i : ℕ) → i < 1024 → pde changed i ≡ pde m i
  pde-data i inside =
      let (there, at) = slot_base m s.tables.recursive in
      let dir_aligned : virt_to_phys m.page_directory % 4096 ≡ 0 =
        omega
          (arith, s.tables.recursive.aligned, s.tables.recursive.high, s.tables.recursive.word) in
      put-ne m.phys f v (pde_at m i) (λ e.
        o.no_table recursive_pd_index (omega arith) there
          (at ∙ omega (arith, e, dir_aligned, inside, o.aligned)))

  pub put_data-IsSpace : v < 2 ^ 32 → IsSpace changed
  put_data-IsSpace word = record {
    tables = record {
      recursive = record {
        high = s.tables.recursive.high;
        word = s.tables.recursive.word;
        aligned = s.tables.recursive.aligned;
        slot = pde-data recursive_pd_index (omega arith) ∙ s.tables.recursive.slot;
      };
      words = λ a. elim (ℕ_discrete a f) [
        | yes e ↦ rw (e, put_self m.phys f v) word
        | no ne ↦ rw (put-ne m.phys f v a ne) (s.tables.words a)
      ];
      distinct = λ i j hi hj pi pj ne.
          rw (pde-data i hi, pde-data j hj)
            (s.tables.distinct i j hi hj (rw (← pde-data i hi) pi) (rw (← pde-data j hj) pj) ne);
    };
    valid = s.valid;
    taken = λ i inside there below.
        let same = pde-data i inside in
        subst (λ x. is_used m.pmm (frame_of x / 4096) ≡ true) (sym same)
          (s.taken i inside (subst (λ x. is_present x ≡ true) same there)
            (subst (λ x. frame_of x / 4096 < m.pmm.frame_count) same below));
  }

  pub put_data-IsOwned : IsOwned changed f
  put_data-IsOwned = record {
    some_frame = o.some_frame;
    aligned = o.aligned;
    inside = o.inside;
    used = o.used;
    no_table = λ i inside there.
        let same = pde-data i inside in
        rw same (o.no_table i inside (subst (λ x. is_present x ≡ true) same there));
  }

  -- Every address is translated as before.
  pub translate-put_data : (w : ℕ) → w < 2 ^ 32 → translate changed w ≡ translate m w
  unfolding translate
  translate-put_data w word = elim (Bool-cases (is_present (pde m (pde_idx w)))) [
    | inr absent ↦ rw (pde-data (pde_idx w) (omega arith), absent) refl
    | inl there ↦
        let aligned = frame_of-lem (pde m (pde_idx w)) (s.tables.words (pde_at m (pde_idx w))) in
        let ne : entry_at m w ≢ f = λ e.
          o.no_table (pde_idx w) (omega arith) there
            (omega (arith, e, aligned, o.aligned, pte_idx-lem w)) in
        rw (pde-data (pde_idx w) (omega arith), put-ne m.phys f v (entry_at m w) ne) refl
  ]
