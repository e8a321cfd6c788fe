-- ===== src/Kernel.antt =====
-- kernel/kernel/kernel.c: the tests that the kernel runs at its start.
pub mod Frames
pub mod Pages
mod Tests
use simply_os.Base.{ℕ, ◌+◌, ◌||◌, Bool, not, Option, none, some, List, [], ◌∷◌, ◌==◌, if◌then◌else◌}
use simply_os.Base.Text.{codes}
use simply_os.Libc.Print.{word}
use simply_os.Terminal.{Terminal}
use simply_os.Console.{Outcome, goes, halts, strays, ◌>>=◌, say}
use simply_os.Pmm.{Pmm, alloc_frame, free_frame}
use simply_os.Paging
use simply_os.Paging.{map_page, unmap_page, load, store, get_physical, flag_write}
use simply_os.Kheap
use simply_os.Kheap.{kmalloc, kfree, used_bytes, total_bytes}
use simply_os.Kheap.Machine.{PageSource, Heap, Run, done, fault, hang}

pub pmm_self_test : Pmm → Terminal → Outcome (Pmm × Terminal)
pmm_self_test p t =
    let (a, p1) = alloc_frame p in
    let (b, p2) = alloc_frame p1 in
    if a == 0 || b == 0
    then (do t ← say (codes "PMM self-test: alloc failed\n") [] t; goes (p2, t))
    else if a == b
    then (do t ← say (codes "PMM self-test: duplicate frame %p\n") (word a ∷ []) t; goes (p2, t))
    else (do t ← say (codes "PMM self-test: ok\n") [] t; goes (free_frame (free_frame p2 a) b, t))

-- A page fault that nobody expects is not followed further.
abbrev pub or_strays : {A : Type 0} → Option A → Outcome A
or_strays none = strays
or_strays (some a) = goes a

abbrev pub test_virt : ℕ
test_virt = 0xC1000000

abbrev pub magic : ℕ
magic = 0xDEADBEEF

-- The end of a test: what is shown, and the frame that is given back.
abbrev pub give_back : ℕ → List ℕ → Paging.Machine → Terminal → Outcome (Paging.Machine × Terminal)
give_back frame text m t = do t ← say text [] t; goes (record m { pmm = free_frame m.pmm frame }, t)

-- The same, with the page unmapped before.
abbrev pub unmap_and_give_back :
    ℕ → List ℕ → Paging.Machine → Terminal → Outcome (Paging.Machine × Terminal)
unmap_and_give_back frame text m t = do
  m ← or_strays (unmap_page test_virt m)
  give_back frame text m t

-- The test with the page mapped to `frame`.
pub test_mapped : ℕ → Paging.Machine → Terminal → Outcome (Paging.Machine × Terminal)
test_mapped frame m t = do
  m ← or_strays (store m test_virt magic)
  v ← or_strays (load m test_virt)
  if not (v == magic)
      then unmap_and_give_back frame (codes "Paging self-test: read/write failed\n") m t
      else (do
        found ← or_strays (get_physical test_virt m)
        if not (found == frame)
            then unmap_and_give_back frame (codes "Paging self-test: phys mismatch\n") m t
            else (do
              m ← or_strays (unmap_page test_virt m)
              left ← or_strays (get_physical test_virt m)
              if not (left == 0)
                  then give_back frame (codes "Paging self-test: unmap failed\n") m t
                  else give_back frame (codes "Paging self-test: ok\n") m t))

pub paging_self_test : Paging.Machine → Terminal → Outcome (Paging.Machine × Terminal)
paging_self_test m t =
    let (frame, pmm) = alloc_frame m.pmm in
    let m1 : Paging.Machine = record m { pmm = pmm } in
    if frame == 0
    then (do t ← say (codes "Paging self-test: alloc failed\n") [] t; goes (m1, t))
    else (do
      (ok, m2) ← or_strays (map_page test_virt frame flag_write m1)
      if not ok
          then give_back frame (codes "Paging self-test: map failed\n") m2 t
          else test_mapped frame m2 t)
