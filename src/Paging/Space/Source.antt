-- ===== src/Paging/Space/Source.antt =====
-- The frames and the page tables as the heap's source of pages: what kheap.c calls is pmm.c and
-- paging.c.
use simply_os.Base.{
  ℕ, ◌*◌, ◌/◌, ◌<◌, ◌≡◌, ◌≢◌, refl, ◌∙◌, sym, ap, subst, arith, Bool, true, false, none, some,
  Option, ◌==◌, ℕ_discrete,
}
use simply_os.Pmm.{Pmm, set_used, alloc_frame, free_frame}
use simply_os.Pmm.Valid.{IsValid, is_used, is_used-set_used, set_used-IsValid, frame_count-set_used}
use simply_os.Pmm.Alloc.{
  Allocates, exhausted, found, alloc_frame-Allocates, free_frame-IsValid, is_used-free_frame,
  frame_count-free_frame,
}
use simply_os.Kheap.Machine.{PageSource}
use simply_os.Paging
use simply_os.Paging.{Machine, page_size, pde, pde_at, is_present, frame_of, translate}
use simply_os.Paging.Walk.{frame_of-lem}
use simply_os.Paging.Space.{IsSpace, IsOwned}
use simply_os.Paging.Space.Map.{Maps, refused, mapped, map_page-Maps}

abbrev pub with_pmm : Machine → Pmm → Machine
with_pmm m p = record m { pmm = p }

abbrev pub alloc : Machine → ℕ × Machine
alloc m = ((alloc_frame m.pmm).0, with_pmm m (alloc_frame m.pmm).1)

abbrev pub free : Machine → ℕ → Machine
free m f = with_pmm m (free_frame m.pmm f)

-- A fault does not occur on tables in order.
abbrev pub settle : Machine → Option (Bool × Machine) → Bool × Machine
settle m none = (false, m)
settle m (some r) = r

abbrev pub is_some : Option ℕ → Bool
is_some none = false
is_some (some a) = true

abbrev pub is_mapped : Machine → ℕ → Bool
is_mapped m x = is_some (translate m x)

pub translate-with_pmm :
    (m : Machine) (p : Pmm) (x : ℕ) → translate (with_pmm m p) x ≡ translate m x
unfolding translate
translate-with_pmm m p x = refl

with_pmm-IsSpace :
    (m : Machine) (p : Pmm)
    → IsSpace m
    → IsValid p
    → ((i : ℕ)
        → i < 1024
        → is_present (pde m i) ≡ true
        → frame_of (pde m i) / 4096 < p.frame_count
        → is_used p (frame_of (pde m i) / 4096) ≡ true)
    → IsSpace (with_pmm m p)
with_pmm-IsSpace m p s v taken = record {
  tables = record {
    recursive = record {
      high = s.tables.recursive.high;
      word = s.tables.recursive.word;
      aligned = s.tables.recursive.aligned;
      slot = s.tables.recursive.slot;
    };
    words = s.tables.words;
    distinct = s.tables.distinct;
  };
  valid = v;
  taken = taken;
}

module _ (m : Machine) (s : IsSpace m) where
  pub alloc_cases-IsSpace : (r : ℕ × Pmm) → Allocates m.pmm 1 r → IsSpace (with_pmm m r.1)
  alloc_cases-IsSpace r (exhausted e all) = rw e s
  alloc_cases-IsSpace r (found k low high unused before e) = rw e (
      with_pmm-IsSpace m (set_used m.pmm k true) s (set_used-IsValid m.pmm s.valid k true)
        (λ i inside present below.
          let old = s.taken i inside present (
            subst (λ n. frame_of (pde m i) / 4096 < n) (frame_count-set_used m.pmm k true) below) in
          is_used-set_used m.pmm s.valid k high true (frame_of (pde m i) / 4096)
          ∙ rw old (ground arith)))

  pub alloc_cases-IsOwned :
      (r : ℕ × Pmm) → Allocates m.pmm 1 r → r.0 ≢ 0 → IsOwned (with_pmm m r.1) r.0
  alloc_cases-IsOwned r (exhausted e all) ne = absurd (ne (ap (λ x. x.0) e))
  alloc_cases-IsOwned r (found k low high unused before e) ne =
      let number : k * 4096 / 4096 ≡ k = omega arith in
      rw e (record {
        some_frame = omega arith;
        aligned = omega arith;
        inside = rw (number, frame_count-set_used m.pmm k true) high;
        used = rw number (is_used-set_used m.pmm s.valid k high true k ∙ ground arith);
        no_table = λ i inside present same.
            let at : frame_of (pde m i) / 4096 ≡ k = omega (arith, same) in
            cc (sym (s.taken i inside present (rw at high)) ∙ ap (is_used m.pmm) at ∙ unused);
      })

  pub free-IsSpace : (f : ℕ) → IsOwned m f → IsSpace (free m f)
  free-IsSpace f o =
      with_pmm-IsSpace m (free_frame m.pmm f) s (free_frame-IsValid m.pmm f s.valid)
        (λ i inside present below.
          let frame = frame_of (pde m i) / 4096 in
          let old =
            s.taken i inside present
              (subst (λ n. frame < n) (frame_count-free_frame m.pmm f) below) in
          let aligned = frame_of-lem (pde m i) (s.tables.words (pde_at m i)) in
          let ne : frame ≢ f / 4096 =
            λ e. o.no_table i inside present (omega (arith, e, aligned, o.aligned)) in
          let apart : (frame == f / 4096) ≡ false = ground arith in
          is_used-free_frame m.pmm f frame s.valid ∙ rw (apart, old) (ground arith))

-- The outcomes of `map_page`, as the source of pages sees them.
module _ (m : Machine) (v f flags : ℕ) (s : IsSpace m) (o : IsOwned m f) (small : flags < page_size)
    (low : v < 0xFFC00000) where
  pub ran : Maps m v f (Paging.map_page v f flags m)
  ran = map_page-Maps v f flags low o.aligned (omega (arith, o.inside, s.valid.few)) small m s

  pub settled-IsSpace : (r : Option (Bool × Machine)) → Maps m v f r → IsSpace (settle m r).1
  settled-IsSpace r (refused absent full) = s
  settled-IsSpace r (mapped m' is) = is.space

  pub settled-Owned :
      (r : Option (Bool × Machine))
      → Maps m v f r
      → (settle m r).0 ≡ false
      → IsOwned (settle m r).1 f
  settled-Owned r (refused absent full) bad = o
  settled-Owned r (mapped m' is) bad = ground (arith, bad)

  pub settled_mapped :
      (r : Option (Bool × Machine))
      → Maps m v f r
      → (settle m r).0 ≡ true
      → (x : ℕ) → x / page_size ≡ v / page_size
      → is_mapped (settle m r).1 x ≡ true
  settled_mapped r (refused absent full) ok x same = ground (arith, ok)
  settled_mapped r (mapped m' is) ok x same = ap is_some (is.this x same)

  pub settled_kept :
      (r : Option (Bool × Machine))
      → Maps m v f r
      → (x : ℕ) → x < 0xFFC00000
      → is_mapped m x ≡ true
      → is_mapped (settle m r).1 x ≡ true
  settled_kept r (refused absent full) x below before = before
  settled_kept r (mapped m' is) x below before = elim (ℕ_discrete (x / page_size) (v / page_size)) [
    | Dec.yes same ↦ ap is_some (is.this x same)
    | Dec.no ne ↦ ap is_some (is.others x below ne) ∙ before
  ]

abbrev pub pages : PageSource
pages = record {
  State = Machine;
  alloc = alloc;
  map_page = λ m v f flags. settle m (Paging.map_page v f flags m);
  free = free;
  mapped = is_mapped;
  IsSound = IsSpace;
  Owned = IsOwned;
  alloc-IsSound =
      λ m s. alloc_cases-IsSpace m s (alloc_frame m.pmm) (alloc_frame-Allocates m.pmm s.valid);
  alloc-mapped = λ m x s. ap is_some (translate-with_pmm m (alloc_frame m.pmm).1 x);
  alloc-Owned =
      λ m s. alloc_cases-IsOwned m s (alloc_frame m.pmm) (alloc_frame-Allocates m.pmm s.valid);
  map_page-IsSound = λ m v f flags s o small low.
      settled-IsSpace m v f flags s o small low (Paging.map_page v f flags m)
        (ran m v f flags s o small low);
  map_page-keeps = λ m v f flags x s o small low below before.
      settled_kept m v f flags s o small low (Paging.map_page v f flags m)
        (ran m v f flags s o small low) x below before;
  map_page-maps = λ m v f flags x s o small low aligned ok l r.
      settled_mapped m v f flags s o small low (Paging.map_page v f flags m)
        (ran m v f flags s o small low) ok x (omega (arith, aligned, l, r));
  map_page-Owned = λ m v f flags s o small low bad.
      settled-Owned m v f flags s o small low (Paging.map_page v f flags m)
        (ran m v f flags s o small low) bad;
  free-IsSound = λ m f s o. free-IsSpace m s f o;
  free-mapped = λ m f x s o. ap is_some (translate-with_pmm m (free_frame m.pmm f) x);
}
