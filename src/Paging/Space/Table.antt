-- ===== src/Paging/Space/Table.antt =====
-- A new page table: a frame of its own, empty, and the pages below the window are as before.
use simply_os.Base.{
  ℕ, ◌+◌, ◌*◌, ◌/◌, ◌%◌, ◌<◌, ◌≡◌, ◌≢◌, refl, ◌∙◌, sym, ap, subst, arith, Bool, true, false, none,
  some, Option, ◌==◌, bit_or, ℕ_discrete, Bool-cases, inl, inr,
}
use simply_os.Base.Bits.{bit_or_fields, bit_or_split, bit_or-zero}
use simply_os.Pmm.{Pmm, set_used, alloc_frame}
use simply_os.Pmm.Valid.{is_used, is_used-set_used, set_used-IsValid, frame_count-set_used}
use simply_os.Pmm.Alloc.{Allocates, exhausted, found, alloc_frame-Allocates}
use simply_os.Paging.{
  Machine, pde, pde_at, pde_idx, pte_idx, is_present, frame_of, translate, new_table, put,
  recursive_pd_index, virt_to_phys,
}
use simply_os.Paging.Walk.{slot_base, frame_of-lem, is_present-lem, pte_idx-lem}
use simply_os.Paging.Lookup.{entry_at, translate-absent}
use simply_os.Paging.Update.{IsTables, put_self, put-ne, same_frame}
use simply_os.Paging.Space.{IsSpace, IsOwned, IsFull}
use simply_os.Paging.Space.Clear.{IsCleared, clear_table-IsCleared}

-- What a new table leaves of the rest.
pub record IsLike (m m' : Machine) : Type 0 where
  pub space : IsSpace m'
  pub same : (w : ℕ) → w < 0xFFC00000 → translate m' w ≡ translate m w
  pub owned : (f : ℕ) → IsOwned m f → IsOwned m' f

entry_value : (k : ℕ) → bit_or (bit_or (k * 4096) 1) 2 ≡ k * 4096 + 3
entry_value k =
    ap (λ t. bit_or t 2) (bit_or_fields 12 k 1 (omega arith))
    ∙ ap (bit_or (k * 4096 + 1)) (omega arith)
    ∙ bit_or_split 12 k 1 0 2 (omega arith) (omega arith)
    ∙ omega (arith, bit_or-zero k)

module _ (m : Machine) (s : IsSpace m) (index k : ℕ) (small : index < 1023)
    (absent : is_present (pde m index) ≡ false) (k_in : k < m.pmm.frame_count)
    (k_free : is_used m.pmm k ≡ false) where
  abbrev table : ℕ
  table = k * 4096

  abbrev entered : Machine
  entered = record m {
    pmm = set_used m.pmm k true;
    phys = put m.phys (pde_at m index) (bit_or (bit_or table 1) 2);
  }

  bounded : k < 32768
  bounded = omega (arith, s.valid.few, k_in)

  pde_here : pde entered index ≡ table + 3
  pde_here = put_self m.phys (pde_at m index) (bit_or (bit_or table 1) 2) ∙ entry_value k

  pde_there : (i : ℕ) → i ≢ index → pde entered i ≡ pde m i
  pde_there i ne = put-ne m.phys (pde_at m index) _ (pde_at m i) (λ e. ne (omega (arith, e)))

  here_present : is_present (pde entered index) ≡ true
  here_present = is_present-lem (pde entered index) (omega (arith, pde_here))

  here_frame : frame_of (pde entered index) ≡ table
  here_frame =
      ap frame_of pde_here ∙ frame_of-lem (table + 3) (omega (arith, bounded)) ∙ omega arith

  -- No table of the directory is the new one.
  fresh : (i : ℕ) → i < 1024 → is_present (pde m i) ≡ true → frame_of (pde m i) ≢ table
  fresh i inside present e =
      let at : frame_of (pde m i) / 4096 ≡ k = omega (arith, e) in
      let used = s.taken i inside present (rw at k_in) in
      cc (sym used ∙ ap (is_used m.pmm) at ∙ k_free)

  pde_cases : (i : ℕ) → is_present (pde entered i) ≡ true → i ≢ index → is_present (pde m i) ≡ true
  pde_cases i present ne = rw (← pde_there i ne) present

  others_apart :
      (j : ℕ)
      → j < 1024
      → is_present (pde entered j) ≡ true
      → j ≢ index
      → frame_of (pde entered j) ≢ frame_of (pde entered index)
  others_apart j inside present ne e =
      fresh j inside (pde_cases j present ne) (ap frame_of (sym (pde_there j ne)) ∙ e ∙ here_frame)

  entered-IsTables : IsTables entered
  entered-IsTables = record {
    recursive = record {
      high = s.tables.recursive.high;
      word = s.tables.recursive.word;
      aligned = s.tables.recursive.aligned;
      slot = pde_there recursive_pd_index (λ e. omega (arith, e, small)) ∙ s.tables.recursive.slot;
    };
    words = λ a. elim (ℕ_discrete a (pde_at m index)) [
      | yes e ↦ rw (e, pde_here) (omega (arith, bounded))
      | no ne ↦
          rw (put-ne m.phys (pde_at m index) (bit_or (bit_or table 1) 2) a ne) (s.tables.words a)
    ];
    distinct = λ i j hi hj pi pj ne. elim (ℕ_discrete i index) [
      | yes at ↦ λ e.
          others_apart j hj pj (λ same. ne (at ∙ sym same))
            (sym e ∙ ap (λ x. frame_of (pde entered x)) at)
      | no i_ne ↦ elim (ℕ_discrete j index) [
        | yes at ↦ λ e. others_apart i hi pi i_ne (e ∙ ap (λ x. frame_of (pde entered x)) at)
        | no j_ne ↦ λ e.
            s.tables.distinct i j hi hj (pde_cases i pi i_ne) (pde_cases j pj j_ne) ne
              (ap frame_of (sym (pde_there i i_ne)) ∙ e ∙ ap frame_of (pde_there j j_ne))
      ]
    ];
  }

  entered_taken :
      (i : ℕ)
      → i < 1024
      → is_present (pde entered i) ≡ true
      → frame_of (pde entered i) / 4096 < m.pmm.frame_count
      → is_used (set_used m.pmm k true) (frame_of (pde entered i) / 4096) ≡ true
  entered_taken i inside present below =
      let mark = is_used-set_used m.pmm s.valid k k_in true (frame_of (pde entered i) / 4096) in
      elim (ℕ_discrete i index) [
        | yes at ↦
            let frame : frame_of (pde entered i) / 4096 ≡ k =
              ap (λ x. frame_of (pde entered x) / 4096) at
              ∙ ap (λ x. x / 4096) here_frame
              ∙ omega arith in
            mark ∙ rw frame (ground arith)
        | no ne ↦
            let old =
              s.taken i inside (pde_cases i present ne)
                (subst (λ x. frame_of x / 4096 < m.pmm.frame_count) (pde_there i ne) below) in
            mark ∙ rw (pde_there i ne, old) (ground arith)
      ]

  -- The table is cleared.
  module _ (m' : Machine) (c : IsCleared entered index 0 1024 m') where
    pub cleared_present : is_present (pde m' index) ≡ true
    cleared_present = rw (c.entries index (omega arith)) here_present

    cleared-IsSpace : IsSpace m'
    cleared-IsSpace = record {
      tables = c.tables;
      valid = rw c.same_pmm (set_used-IsValid m.pmm s.valid k true);
      taken = λ i inside present below.
          let same = c.entries i inside in
          let count : m'.pmm.frame_count ≡ m.pmm.frame_count =
            ap (λ p. p.frame_count) c.same_pmm ∙ frame_count-set_used m.pmm k true in
          let old = entered_taken i inside (subst (λ x. is_present x ≡ true) same present) (
            subst (λ x. frame_of x / 4096 < m.pmm.frame_count) same
              (subst (λ n. frame_of (pde m' i) / 4096 < n) count below)) in
          subst (λ p. is_used p (frame_of (pde m' i) / 4096) ≡ true) (sym c.same_pmm)
            (subst (λ x. is_used (set_used m.pmm k true) (frame_of x / 4096) ≡ true) (sym same)
              old);
    }

    -- A word outside the directory and the new table.
    kept :
        (a : ℕ)
        → a ≢ pde_at m index
        → ((j : ℕ) → j < 1024 → a ≢ table + 4 * j)
        → m'.phys a ≡ m.phys a
    kept a ne outside =
        c.others a (λ j h. subst (λ x. a ≢ x + 4 * j) (sym here_frame) (outside j h))
        ∙ put-ne m.phys (pde_at m index) (bit_or (bit_or table 1) 2) a ne

    -- A page of the new table is not mapped.
    new_page : (w : ℕ) → pde_idx w ≡ index → translate m' w ≡ none
    unfolding translate
    new_page w at =
        let row : pte_idx w < 1024 = omega (arith, pte_idx-lem w) in
        let zero_word : m'.phys (frame_of (pde m' (pde_idx w)) + 4 * pte_idx w) ≡ 0 =
          ap (λ x. m'.phys (frame_of (pde m' x) + 4 * pte_idx w)) at
          ∙ ap (λ x. m'.phys (frame_of x + 4 * pte_idx w)) (c.entries index (omega arith))
          ∙ c.zeros (pte_idx w) row
          ∙ ground arith in
        let there : is_present (pde m' (pde_idx w)) ≡ true = rw at cleared_present in
        rw (there, zero_word) refl

    old_page : (w : ℕ) → w < 0xFFC00000 → pde_idx w ≢ index → translate m' w ≡ translate m w
    unfolding translate
    old_page w low ne =
        let d = pde_idx w in
        let inside : d < 1023 = omega arith in
        let same : pde m' d ≡ pde m d = c.entries d (omega arith) ∙ pde_there d ne in
        elim (Bool-cases (is_present (pde m d))) [
          | inr gone ↦ rw (same, gone) refl
          | inl there ↦
              let row : pte_idx w < 1024 = omega (arith, pte_idx-lem w) in
              let (slot_there, slot_at) = slot_base m s.tables.recursive in
              let aligned = frame_of-lem (pde m d) (s.tables.words (pde_at m d)) in
              let no_slot =
                s.tables.distinct d recursive_pd_index (omega arith) (omega arith) there slot_there
                  (λ e. omega (arith, e, inside)) in
              let dir_aligned : virt_to_phys m.page_directory % 4096 ≡ 0 = omega (
                arith, s.tables.recursive.aligned, s.tables.recursive.high, s.tables.recursive.word,
              ) in
              let no_entry : entry_at m w ≢ pde_at m index = λ e. no_slot (
                same_frame (frame_of (pde m d)) (virt_to_phys m.page_directory) (pte_idx w) index
                  (omega (arith, aligned)) dir_aligned row (omega arith) e
                ∙ sym slot_at) in
              let no_table : (j : ℕ) → j < 1024 → entry_at m w ≢ table + 4 * j = λ j h e.
                fresh d (omega arith) there (
                  same_frame (frame_of (pde m d)) table (pte_idx w) j (omega (arith, aligned))
                    (omega arith) row h e) in
              rw (same, there, kept (entry_at m w) no_entry no_table) refl
        ]

    cleared-IsOwned : (f : ℕ) → IsOwned m f → IsOwned m' f
    cleared-IsOwned f o =
        let count : m'.pmm.frame_count ≡ m.pmm.frame_count =
          ap (λ p. p.frame_count) c.same_pmm ∙ frame_count-set_used m.pmm k true in
        let mark = is_used-set_used m.pmm s.valid k k_in true (f / 4096) in
        record {
          some_frame = o.some_frame;
          aligned = o.aligned;
          inside = subst (λ n. f / 4096 < n) (sym count) o.inside;
          used = ap (λ p. is_used p (f / 4096)) c.same_pmm ∙ mark ∙ ground (arith, o.used);
          no_table = λ i inside present e.
              let same = c.entries i inside in
              let frame : frame_of (pde entered i) ≡ f = ap frame_of (sym same) ∙ e in
              elim (ℕ_discrete i index) [
                | yes at ↦
                    let is_table : f ≡ table =
                      sym frame ∙ ap (λ x. frame_of (pde entered x)) at ∙ here_frame in
                    let number : f / 4096 ≡ k = omega (arith, is_table) in
                    cc (sym o.used ∙ ap (is_used m.pmm) number ∙ k_free)
                | no ne ↦
                    o.no_table i inside
                      (pde_cases i (subst (λ x. is_present x ≡ true) same present) ne)
                      (ap frame_of (sym (pde_there i ne)) ∙ frame)
              ];
        }

    cleared-IsLike : IsLike m m'
    cleared-IsLike = record {
      space = cleared-IsSpace;
      same = λ w low. elim (ℕ_discrete (pde_idx w) index) [
        | yes at ↦ new_page w at ∙ sym (translate-absent m w (rw at absent))
        | no ne ↦ old_page w low ne
      ];
      owned = cleared-IsOwned;
    }

-- new_table on an absent entry below the window: no frame is left and nothing has changed, or the
-- table is there.
pub data NewTable (m : Machine) (index : ℕ) : Option (Bool × Machine) → Type 0 where
  none_left : IsFull m → NewTable m index (some (false, m))
  made :
      (m' : Machine)
      → IsLike m m'
      → is_present (pde m' index) ≡ true
      → NewTable m index (some (true, m'))

new_table-cases :
    (m : Machine) (index : ℕ) (r : ℕ × Pmm)
    → IsSpace m
    → index < 1023
    → is_present (pde m index) ≡ false
    → alloc_frame m.pmm ≡ r
    → Allocates m.pmm 1 r
    → NewTable m index (new_table index m)
unfolding new_table
new_table-cases m index r s small absent same (exhausted e all) =
    rw (new_table, same ∙ e) (none_left all)
new_table-cases m index r s small absent same (found k low high free before e) =
    let some_table : (k * 4096 == 0) ≡ false = ground arith in
    let start = entered m s index k small absent high free in
    let (m', runs, c) =
      clear_table-IsCleared index small 1024 start 0
        (entered-IsTables m s index k small absent high free)
        (here_present m s index k small absent high free) (omega arith) in
    rw (new_table, same ∙ e, some_table, runs)
      (made m' (cleared-IsLike m s index k small absent high free m' c)
        (cleared_present m s index k small absent high free m' c))

pub new_table-NewTable :
    (m : Machine) (index : ℕ)
    → IsSpace m
    → index < 1023
    → is_present (pde m index) ≡ false
    → NewTable m index (new_table index m)
new_table-NewTable m index s small absent =
    new_table-cases m index (alloc_frame m.pmm) s small absent refl
      (alloc_frame-Allocates m.pmm s.valid)
