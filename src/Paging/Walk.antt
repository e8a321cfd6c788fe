-- ===== src/Paging/Walk.antt =====
-- The window of the page tables: an address in it is the entry of a table.
use simply_os.Base.{
  ℕ, ◌+◌, ◌-◌, ◌*◌, ◌/◌, ◌%◌, ◌^◌, ◌≤◌, ◌<◌, ◌≡◌, refl, ◌∙◌, ap, arith, true, some,
}
use simply_os.Base.Bits.{bit_and_mask, bit_and_high}
use simply_os.Paging.{
  Machine, page_size, recursive_pd_index, pde_idx, pte_idx, is_present, frame_of, pde, translate,
  page_table_virt, virt_to_phys,
}

pub frame_of-lem : (entry : ℕ) → entry < 2 ^ 32 → frame_of entry ≡ entry / 4096 * 4096
frame_of-lem entry word =
    bit_and_high 12 entry (2 ^ 20 - 1)
    ∙ ap (λ t. t * 4096) (bit_and_mask 20 (entry / 2 ^ 12) ∙ omega arith)

pub pte_idx-lem : (virt : ℕ) → pte_idx virt ≡ virt / 4096 % 1024
pte_idx-lem virt = bit_and_mask 10 (virt / 2 ^ 12)

-- The last entry of the directory is the directory itself.
pub record IsRecursive (m : Machine) : Type 0 where
  pub high : 0xC0000000 ≤ m.page_directory
  pub word : m.page_directory < 2 ^ 32
  pub aligned : m.page_directory % 4096 ≡ 0
  pub slot : pde m recursive_pd_index ≡ virt_to_phys m.page_directory + 3

translate-as :
    (m : Machine) (virt d t o base e : ℕ)
    → pde_idx virt ≡ d
    → pte_idx virt ≡ t
    → virt % page_size ≡ o
    → is_present (pde m d) ≡ true
    → frame_of (pde m d) ≡ base
    → m.phys (base + 4 * t) ≡ e
    → is_present e ≡ true
    → translate m virt ≡ some (frame_of e + o)
unfolding translate
translate-as m virt d t o base e hd ht ho present hbase he present_e =
    rw (hd, ht, ho, present, hbase, he, present_e) refl

pub is_present-lem : (entry : ℕ) → entry % 2 ≡ 1 → is_present entry ≡ true
is_present-lem entry odd = ground (arith, bit_and_mask 1 entry)

pub slot_base :
    (m : Machine)
    → IsRecursive m
    → (is_present (pde m recursive_pd_index) ≡ true)
      × (frame_of (pde m recursive_pd_index) ≡ virt_to_phys m.page_directory)
slot_base m r = (
  is_present-lem _ (omega (arith, r.slot, r.aligned, r.high)),
  ap frame_of r.slot
      ∙ frame_of-lem (virt_to_phys m.page_directory + 3) (omega (arith, r.high, r.word, r.aligned))
      ∙ omega (arith, r.aligned, r.high, r.word),
)

-- Through the window the entry `i` of the table of directory entry `index` is where that entry says.
pub translate-window :
    (m : Machine) (index i : ℕ)
    → IsRecursive m
    → index < 1024
    → i < 1024
    → is_present (pde m index) ≡ true
    → translate m (page_table_virt index + 4 * i) ≡ some (frame_of (pde m index) + 4 * i)
translate-window m index i r some_index some_i present =
    let virt = page_table_virt index + 4 * i in
    let base = virt_to_phys m.page_directory in
    let (there, at) = slot_base m r in
    translate-as m virt recursive_pd_index index (4 * i) base (pde m index) (omega arith)
      (pte_idx-lem virt ∙ omega arith) (omega arith) there at refl present
