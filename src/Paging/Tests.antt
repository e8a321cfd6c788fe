-- ===== src/Paging/Tests.antt =====
-- A directory with one table besides its own entry.
use simply_os.Base.{
  ℕ, ◌<◌, ◌≡◌, ◌≢◌, ◌⊎◌, refl, ◌∙◌, sym, inl, inr, arith, true, none, some, ◌==◌, if◌then◌else◌,
}
use simply_os.Paging.{
  Machine, is_present, frame_of, pde, translate, get_physical, map_page, unmap_page,
}
use simply_os.Paging.Walk.{IsRecursive}
use simply_os.Paging.Lookup.{page_found, get_physical-translate}
use simply_os.Paging.Update.{IsTables}
use simply_os.Paging.Pages.{Remaps, unmap_page-Remaps}
use simply_os.Paging.Space.{IsSpace}
use simply_os.Paging.Space.Map.{Maps, map_page-Maps}
use simply_os.Pmm.Tests.{small, small-IsValid}

abbrev pub words : ℕ → ℕ
words x = if x == 0x100FFC then 0x100003 else if x == 0x100000 then 0x200003 else 0

abbrev pub machine : Machine
machine = record { pmm = small; phys = words; page_directory = 0xC0100000 }

machine-IsRecursive : IsRecursive machine
machine-IsRecursive = record { high = omega arith; word = omega arith; aligned = refl; slot = refl }

present-cases :
    (i : ℕ)
    → i < 1024
    → is_present (pde machine i) ≡ true
    → ((i ≡ 0) × (frame_of (pde machine i) ≡ 0x200000))
      ⊎ ((i ≡ 1023) × (frame_of (pde machine i) ≡ 0x100000))
present-cases i inside there = ground arith

machine-IsTables : IsTables machine
machine-IsTables = record {
  recursive = machine-IsRecursive;
  words = λ a. ground arith;
  distinct = λ i j hi hj pi pj ne e. apart i j ne e (present-cases i hi pi) (present-cases j hj pj);
}
  where
    apart :
        (i j : ℕ)
        → i ≢ j
        → frame_of (pde machine i) ≡ frame_of (pde machine j)
        → ((i ≡ 0) × (frame_of (pde machine i) ≡ 0x200000))
          ⊎ ((i ≡ 1023) × (frame_of (pde machine i) ≡ 0x100000))
        → ((j ≡ 0) × (frame_of (pde machine j) ≡ 0x200000))
          ⊎ ((j ≡ 1023) × (frame_of (pde machine j) ≡ 0x100000))
        → ⊥
    apart i j ne e (inl a) (inl b) = ne (a.0 ∙ sym b.0)
    apart i j ne e (inl a) (inr b) = omega (arith, sym a.1 ∙ e ∙ b.1)
    apart i j ne e (inr a) (inl b) = omega (arith, sym a.1 ∙ e ∙ b.1)
    apart i j ne e (inr a) (inr b) = ne (a.0 ∙ sym b.0)

get_physical-translate_example :
    get_physical 0x5678 machine ≡ some (page_found 0x5678 (translate machine 0x5678))
get_physical-translate_example =
    get_physical-translate machine 0x5678 machine-IsRecursive (omega arith)

pub machine-IsSpace : IsSpace machine
machine-IsSpace = record {
  tables = machine-IsTables;
  valid = small-IsValid;
  taken = λ i hi pi below. ground (arith, present-cases i hi pi);
}

-- A page behind a new table.
map_page-Maps_example : Maps machine 0x400000 0x300000 (map_page 0x400000 0x300000 2 machine)
map_page-Maps_example =
    map_page-Maps 0x400000 0x300000 2 (omega arith) refl (omega arith) (omega arith) machine
      machine-IsSpace

unmap_page-Remaps_example :
    (m' : Machine) × (unmap_page 0x5678 machine ≡ some m') × Remaps machine 0x5678 none m'
unmap_page-Remaps_example = unmap_page-Remaps machine machine-IsTables 0x5678 (omega arith) refl
