-- ===== src/Paging/Space.antt =====
-- The page tables and the frames together: the frames of the tables are in use, so none of them is
-- handed out, and a new table is a frame of its own.
pub mod Clear
pub mod Table
pub mod Data
pub mod Map
pub mod Source
use simply_os.Base.{
  ℕ, ◌+◌, ◌*◌, ◌/◌, ◌%◌, ◌^◌, ◌<◌, ◌≤◌, ◌≡◌, ◌≢◌, refl, ◌∙◌, sym, ap, arith, Bool, true, false,
}
use simply_os.Pmm.Valid.{IsValid, is_used}
use simply_os.Paging.{Machine, pde, is_present, frame_of}
use simply_os.Paging.Update.{IsTables}

pub record IsSpace (m : Machine) : Type 0 where
  pub tables : IsTables m
  pub valid : IsValid m.pmm
  pub taken :
      (i : ℕ)
      → i < 1024
      → is_present (pde m i) ≡ true
      → frame_of (pde m i) / 4096 < m.pmm.frame_count
      → is_used m.pmm (frame_of (pde m i) / 4096) ≡ true

-- No frame of the allocator is left.
abbrev pub IsFull : Machine → Type 0
IsFull m = (j : ℕ) → 1 ≤ j → j < m.pmm.frame_count → is_used m.pmm j ≡ true

-- A frame that somebody has: in use, and no table.
pub record IsOwned (m : Machine) (f : ℕ) : Type 0 where
  pub some_frame : 0 < f
  pub aligned : f % 4096 ≡ 0
  pub inside : f / 4096 < m.pmm.frame_count
  pub used : is_used m.pmm (f / 4096) ≡ true
  pub no_table : (i : ℕ) → i < 1024 → is_present (pde m i) ≡ true → frame_of (pde m i) ≢ f
