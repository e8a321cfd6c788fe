-- ===== src/Kernel/Pages.antt =====
-- What the test of the page tables leaves.
use simply_os.Base.{
  ◌≤◌, ℕ, ◌+◌, ◌*◌, ◌/◌, ◌%◌, ◌<◌, ◌≡◌, ◌≢◌, refl, ◌∙◌, sym, ap, subst, arith, Bool, true, false,
  none, some, Option, ◌==◌, ltb, List, Bool-cases, inl, inr,
}
use simply_os.Base.Text.{codes}
use simply_os.Libc.Print.Render.{render}
use simply_os.Terminal.{Terminal, write}
use simply_os.Console.{Outcome, goes}
use simply_os.Console.Say.{say-fixed}
use simply_os.Pmm.{Pmm, alloc_frame, free_frame, set_used}
use simply_os.Pmm.Valid.{is_used, is_used-set_used, frame_count-set_used}
use simply_os.Pmm.Alloc.{
  is_used-free_frame, Allocates, exhausted, found, alloc_frame-Allocates, free_frame-alloc_frame,
}
use simply_os.Paging.{
  Machine, page_size, pde, pde_at, pde_idx, is_present, translate, map_page, unmap_page, load,
  store, get_physical, flag_write, put,
}
use simply_os.Paging.Lookup.{entry_at, load-at, store-at, get_physical-translate, translate-absent}
use simply_os.Paging.Walk.{frame_of-lem, pte_idx-lem}
use simply_os.Paging.Update.{put_self, put-ne, pde-after, translate-this, translate-other}
use simply_os.Paging.Pages.{unmap_page-runs}
use simply_os.Paging.Space.{IsSpace, IsOwned, IsFull}
use simply_os.Paging.Space.Data.{put_data-IsSpace, put_data-IsOwned, translate-put_data}
use simply_os.Paging.Space.Map.{
  Maps, refused, mapped, map_page-Maps, put_entry-IsSpace, put_entry-IsOwned,
}
use simply_os.Paging.Space.Source.{
  with_pmm, free, alloc_cases-IsSpace, alloc_cases-IsOwned, free-IsSpace, translate-with_pmm,
}
use simply_os.Kernel.{paging_self_test, test_mapped, test_virt, magic}

abbrev pub passed_text : List ℕ
passed_text = codes "Paging self-test: ok\n"

abbrev pub no_frame_text : List ℕ
no_frame_text = codes "Paging self-test: alloc failed\n"

abbrev pub no_table_text : List ℕ
no_table_text = codes "Paging self-test: map failed\n"

-- The frame `k` is the one that the allocator hands out.
pub record IsNext (p : Pmm) (k : ℕ) : Type 0 where
  pub some_frame : 1 ≤ k
  pub inside : k < p.frame_count
  pub unused : is_used p k ≡ false
  pub lowest : (j : ℕ) → 1 ≤ j → j < k → is_used p j ≡ true

-- The word of the test is in the frame at `f`, which is free; the table of the page is there and the
-- page not mapped, and every other page below the window is as before.
pub record IsTested (m : Machine) (f : ℕ) (m' : Machine) : Type 0 where
  pub space : IsSpace m'
  pub written_word : m'.phys f ≡ 0xDEADBEEF
  pub returned : is_used m'.pmm (f / page_size) ≡ false
  pub table : is_present (pde m' (pde_idx test_virt)) ≡ true
  pub this : (w : ℕ) → w / page_size ≡ test_virt / page_size → translate m' w ≡ none
  pub others :
      (w : ℕ)
      → w < 0xFFC00000
      → w / page_size ≢ test_virt / page_size
      → translate m' w ≡ translate m w

-- The outcomes: passed; no frame; or one frame, and none for the table of the page.
pub data PagesTests (m : Machine) (t : Terminal) : Outcome (Machine × Terminal) → Type 0 where
  passed :
      (k : ℕ) (m' : Machine)
      → IsNext m.pmm k
      → IsTested m (k * page_size) m'
      → PagesTests m t (goes (m', write passed_text t))
  no_frame : IsFull m → PagesTests m t (goes (m, write no_frame_text t))
  no_table :
      (k : ℕ)
      → IsNext m.pmm k
      → ((j : ℕ) → 1 ≤ j → j < m.pmm.frame_count → j ≢ k → is_used m.pmm j ≡ true)
      → is_present (pde m (pde_idx test_virt)) ≡ false
      → PagesTests m t (goes (m, write no_table_text t))

-- The page is mapped to the frame `f`.
module _ (m : Machine) (s : IsSpace m) (f : ℕ) (o : IsOwned m f)
    (to : (w : ℕ)
      → w / page_size ≡ test_virt / page_size
      → translate m w ≡ some (f + w % page_size)) where
  abbrev written : Machine
  written = record m { phys = put m.phys f magic }

  abbrev unmapped : Machine
  unmapped = record written { phys = put written.phys (entry_at written test_virt) 0 }

  here : translate m test_virt ≡ some f
  here = to test_virt refl ∙ ap some (omega arith)

  written-here : translate written test_virt ≡ some f
  written-here = translate-put_data m s f magic o test_virt (omega arith) ∙ here

  written-IsSpace : IsSpace written
  written-IsSpace = put_data-IsSpace m s f magic o (omega arith)

  store-runs : store m test_virt magic ≡ some written
  store-runs = store-at m test_virt f magic here

  load-runs : load written test_virt ≡ some magic
  load-runs = load-at written test_virt f written-here ∙ ap some (put_self m.phys f magic)

  found_there : get_physical test_virt written ≡ some f
  found_there =
      get_physical-translate written test_virt written-IsSpace.tables.recursive (omega arith)
      ∙ rw written-here (ap some (omega arith))

  table_there : is_present (pde written (pde_idx test_virt)) ≡ true
  table_there = elim (Bool-cases (is_present (pde written (pde_idx test_virt)))) [
    | inl there ↦ there
    | inr gone ↦ ground (arith, sym written-here ∙ translate-absent written test_virt gone)
  ]

  unmap-runs : unmap_page test_virt written ≡ some unmapped
  unmap-runs = unmap_page-runs written written-IsSpace.tables test_virt (omega arith) table_there

  unmapped-IsSpace : IsSpace unmapped
  unmapped-IsSpace =
      put_entry-IsSpace written test_virt 0 written-IsSpace (omega arith) table_there (omega arith)

  -- The word is not in the table that the entry is cleared in.
  unmapped-word : unmapped.phys f ≡ 0xDEADBEEF
  unmapped-word =
      let w = put_data-IsOwned m s f magic o in
      let d = pde_idx test_virt in
      let aligned =
        frame_of-lem (pde written d) (written-IsSpace.tables.words (pde_at written d)) in
      let ne : f ≢ entry_at written test_virt = λ e.
        w.no_table d (omega arith) table_there
          (omega (arith, e, aligned, o.aligned, pte_idx-lem test_virt)) in
      put-ne written.phys (entry_at written test_virt) 0 f ne ∙ put_self m.phys f magic

  unmapped-table : is_present (pde unmapped (pde_idx test_virt)) ≡ true
  unmapped-table =
      let same =
        pde-after written written-IsSpace.tables test_virt 0 (omega arith) table_there
          (pde_idx test_virt) (omega arith) in
      rw same table_there

  unmapped-this : (w : ℕ) → w / page_size ≡ test_virt / page_size → translate unmapped w ≡ none
  unmapped-this w same =
      translate-this written written-IsSpace.tables test_virt 0 (omega arith) table_there w same
      ∙ refl

  not_found : get_physical test_virt unmapped ≡ some 0
  not_found =
      get_physical-translate unmapped test_virt unmapped-IsSpace.tables.recursive (omega arith)
      ∙ rw (unmapped-this test_virt refl) refl

  unmapped-IsOwned : IsOwned unmapped f
  unmapped-IsOwned =
      put_entry-IsOwned written test_virt 0 f written-IsSpace (omega arith) table_there
        (put_data-IsOwned m s f magic o)

  test_mapped-IsTested : IsTested m f (free unmapped f)
  test_mapped-IsTested = record {
    space = free-IsSpace unmapped unmapped-IsSpace f unmapped-IsOwned;
    written_word = unmapped-word;
    table = unmapped-table;
    returned =
        let some_frame : (f == 0) ≡ false = ground (arith, o.some_frame) in
        let aligned : (f % page_size == 0) ≡ true = ground (arith, o.aligned) in
        let inside : ltb (f / page_size) m.pmm.frame_count ≡ true = ground (arith, o.inside) in
        is_used-free_frame m.pmm f (f / page_size) s.valid
        ∙ rw (some_frame, aligned, inside) (ground arith);
    this = λ w same. translate-with_pmm unmapped (free_frame m.pmm f) w ∙ unmapped-this w same;
    others = λ w low ne.
        translate-with_pmm unmapped (free_frame m.pmm f) w
        ∙ translate-other written written-IsSpace.tables test_virt 0 (omega arith) table_there w
            (omega arith) ne
        ∙ translate-put_data m s f magic o w (omega arith);
  }

  test_mapped-lem : (t : Terminal) → test_mapped f m t ≡ goes (free unmapped f, write passed_text t)
  unfolding test_mapped render
  test_mapped-lem t =
      let same : (f == f) ≡ true = ground arith in
      rw
        (
          test_mapped,
          store-runs,
          load-runs,
          found_there,
          same,
          unmap-runs,
          not_found,
          say-fixed passed_text t refl refl refl,
        )
        refl

-- With a frame.
mapped_cases :
    (m : Machine) (t : Terminal) (k : ℕ) (q : Pmm) (o : Option (Bool × Machine))
    → IsSpace (with_pmm m q)
    → IsOwned (with_pmm m q) (k * page_size)
    → IsNext m.pmm k
    → q ≡ set_used m.pmm k true
    → IsSpace m
    → alloc_frame m.pmm ≡ (k * page_size, q)
    → free_frame q (k * page_size) ≡ m.pmm
    → map_page test_virt (k * page_size) flag_write (with_pmm m q) ≡ o
    → Maps (with_pmm m q) test_virt (k * page_size) o
    → PagesTests m t (paging_self_test m t)
unfolding paging_self_test render
mapped_cases m t k q o s own first mark start got back runs (refused absent full) =
    let some_frame : (k * page_size == 0) ≡ false = ground (arith, own.some_frame) in
    rw (paging_self_test, got, some_frame, runs, say-fixed no_table_text t refl refl refl, back)
      (no_table k first only absent)
  where
    only : (j : ℕ) → 1 ≤ j → j < m.pmm.frame_count → j ≢ k → is_used m.pmm j ≡ true
    only j low high ne =
        let marked = is_used-set_used m.pmm start.valid k first.inside true j in
        let now : is_used (set_used m.pmm k true) j ≡ true =
          subst (λ x. is_used x j ≡ true) mark
            (full j low (
              subst (λ x. j < x.frame_count) (sym mark)
                (rw (frame_count-set_used m.pmm k true) high))) in
        ground (arith, marked, now, ne)
mapped_cases m t k q o s own first mark start got back runs (mapped m2 is) =
    let some_frame : (k * page_size == 0) ≡ false = ground (arith, own.some_frame) in
    let owned = is.owned (k * page_size) own in
    let tested = test_mapped-IsTested m2 is.space (k * page_size) owned is.this in
    rw
      (
        paging_self_test,
        got,
        some_frame,
        runs,
        test_mapped-lem m2 is.space (k * page_size) owned is.this t,
      )
      (passed k _ first (record {
        space = tested.space;
        written_word = tested.written_word;
        returned = tested.returned;
        table = tested.table;
        this = tested.this;
        others = λ w low ne. tested.others w low ne ∙ is.others w low ne ∙ translate-with_pmm m q w;
      }))

frame_cases :
    (m : Machine) (t : Terminal) (r : ℕ × Pmm)
    → IsSpace m
    → Allocates m.pmm 1 r
    → alloc_frame m.pmm ≡ r
    → PagesTests m t (paging_self_test m t)
unfolding paging_self_test render
frame_cases m t r s (exhausted e all) same =
    rw (paging_self_test, same ∙ e, say-fixed no_frame_text t refl refl refl) (no_frame all)
frame_cases m t r s (found k low high unused before e) same =
    let q = set_used m.pmm k true in
    let got = same ∙ e in
    let choice : Allocates m.pmm 1 (k * page_size, q) = found k low high unused before refl in
    let some_frame : k * page_size ≢ 0 = λ z. omega (arith, z, low) in
    let space = alloc_cases-IsSpace m s (k * page_size, q) choice in
    let own = alloc_cases-IsOwned m s (k * page_size, q) choice some_frame in
    let back =
      subst (λ x. free_frame x.1 x.0 ≡ m.pmm) got
        (free_frame-alloc_frame m.pmm s.valid (λ z. some_frame (ap (λ x. x.0) (sym got) ∙ z))) in
    mapped_cases m t k q (map_page test_virt (k * page_size) flag_write (with_pmm m q)) space own
      (record { some_frame = low; inside = high; unused = unused; lowest = before }) refl s got back
      refl
      (map_page-Maps test_virt (k * page_size) flag_write (omega arith) own.aligned
        (omega (arith, high, s.valid.few)) (omega arith) (with_pmm m q) space)

-- paging_self_test, with the tables and frames in order, never faults. If it reports success, its
-- word is in the lowest frame that was free from 1 on, this frame is free again, the table of its
-- page is there and the page not mapped, every other page below the window is translated as
-- before, and the tables and frames are in order. Otherwise it has changed nothing, and reports
-- that no frame is free, or that the page could not be mapped, which has no table then, with a
-- single frame free.
pub paging_self_test-PagesTests :
    (m : Machine) (t : Terminal) → IsSpace m → PagesTests m t (paging_self_test m t)
paging_self_test-PagesTests m t s =
    frame_cases m t (alloc_frame m.pmm) s (alloc_frame-Allocates m.pmm s.valid) refl
