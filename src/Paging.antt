-- ===== src/Paging.antt =====
-- kernel/mm/paging.c: the page tables, which the kernel reaches through the last entry of the page
-- directory. Physical memory is a function from addresses to words of 32 bits.
pub mod Walk
pub mod Lookup
pub mod Update
pub mod Pages
pub mod Space
pub mod Tests
use simply_os.Base.{
  ℕ, zero, suc, ◌+◌, ◌-◌, ◌*◌, ◌/◌, ◌%◌, ◌^◌, bit_and, bit_or, Bool, true, false, not, Option, none,
  some, u32, sub32, ◌==◌, if◌then◌else◌,
}
use simply_os.Pmm.{Pmm, alloc_frame}

abbrev pub page_size : ℕ
page_size = 4096

abbrev pub recursive_pd_index : ℕ
recursive_pd_index = 1023

abbrev pub recursive_pt_base : ℕ
recursive_pt_base = 0xFFC00000

abbrev pub flag_present : ℕ
flag_present = 1

abbrev pub flag_write : ℕ
flag_write = 2

-- The frames, physical memory, and the address of `boot_page_directory`, which is in the higher half
-- and mapped. The processor uses it as its page directory.
pub record Machine : Type 0 where
  pub pmm : Pmm
  pub phys : ℕ → ℕ
  pub page_directory : ℕ

abbrev pub virt_to_phys : ℕ → ℕ
virt_to_phys virt = sub32 virt 0xC0000000

unfoldable pub put : (ℕ → ℕ) → ℕ → ℕ → ℕ → ℕ
put phys a v x = if x == a then v else phys x

abbrev pub pde_idx : ℕ → ℕ
pde_idx virt = virt / 2 ^ 22

abbrev pub pte_idx : ℕ → ℕ
pte_idx virt = bit_and (virt / 2 ^ 12) 0x3FF

abbrev pub is_present : ℕ → Bool
is_present entry = not (bit_and entry flag_present == 0)

abbrev pub frame_of : ℕ → ℕ
frame_of entry = bit_and entry 0xFFFFF000

-- `page_directory[i]`
abbrev pub pde_at : Machine → ℕ → ℕ
pde_at m i = virt_to_phys m.page_directory + 4 * i

abbrev pub pde : Machine → ℕ → ℕ
pde m i = m.phys (pde_at m i)

infixl 5 ◌>>=◌
abbrev pub ◌>>=◌ : {A B : Type 0} → Option A → (A → Option B) → Option B
◌>>=◌ none f = none
◌>>=◌ (some a) f = f a

-- What the processor does with an address: the physical address, or none for a page fault.
unfoldable pub translate : Machine → ℕ → Option ℕ
translate m virt =
    let table_entry = m.phys (frame_of (pde m (pde_idx virt)) + 4 * pte_idx virt) in
    if not (is_present (pde m (pde_idx virt)))
    then none
    else if not (is_present table_entry)
    then none
    else some (frame_of table_entry + virt % page_size)

abbrev pub page_table_virt : ℕ → ℕ
page_table_virt index = u32 (recursive_pt_base + index * page_size)

-- Accesses to words; none is a page fault.
pub load : Machine → ℕ → Option ℕ
load m virt = do a ← translate m virt; some (m.phys a)

pub store : Machine → ℕ → ℕ → Option Machine
store m virt v = do a ← translate m virt; some (record m { phys = put m.phys a v })

-- `memset` of a page table with zeros, word by word.
pub clear_table : ℕ → ℕ → ℕ → Machine → Option Machine
clear_table pt zero i m = some m
clear_table pt (suc left) i m = do m1 ← store m (pt + 4 * i) 0; clear_table pt left (i + 1) m1

pub init : Machine → Machine
init m = record m {
  phys = put m.phys (pde_at m recursive_pd_index) (
      bit_or (bit_or (bit_and (virt_to_phys m.page_directory) 0xFFFFF000) flag_present) flag_write);
}

-- A new page table for an empty entry; `none` inside is a want of frames.
pub new_table : ℕ → Machine → Option (Bool × Machine)
new_table index m =
    let (new_pt, pmm) = alloc_frame m.pmm in
    let entered = record m {
      pmm = pmm;
      phys = put m.phys (pde_at m index) (bit_or (bit_or new_pt flag_present) flag_write);
    } in
    if new_pt == 0
    then some (false, record m { pmm = pmm })
    else (do cleared ← clear_table (page_table_virt index) 1024 0 entered; some (true, cleared))

pub map_page : ℕ → ℕ → ℕ → Machine → Option (Bool × Machine)
map_page virt phys flags m =
    let entry = bit_or phys (bit_or flags flag_present) in
    if not (bit_and phys (page_size - 1) == 0) then some (false, m) else (do
      (ok, ready) ←
          if is_present (pde m (pde_idx virt)) then some (true, m) else new_table (pde_idx virt) m
      if ok
          then (do
            written ← store ready (page_table_virt (pde_idx virt) + 4 * pte_idx virt) entry
            some (true, written))
          else some (false, ready))

pub unmap_page : ℕ → Machine → Option Machine
unmap_page virt m =
    if not (is_present (pde m (pde_idx virt)))
    then some m
    else store m (page_table_virt (pde_idx virt) + 4 * pte_idx virt) 0

pub get_physical : ℕ → Machine → Option ℕ
get_physical virt m = if not (is_present (pde m (pde_idx virt))) then some 0 else (do
  entry ← load m (page_table_virt (pde_idx virt) + 4 * pte_idx virt)
  some (if is_present entry then frame_of entry else 0))
