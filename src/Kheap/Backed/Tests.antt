-- ===== src/Kheap/Backed/Tests.antt =====
-- A heap of four pages, mapped by one page table.
use simply_os.Base.{
  ℕ, ◌+◌, ◌*◌, ◌-◌, ◌/◌, ◌<◌, ◌≤◌, ◌≡◌, ◌⊎◌, refl, ◌∙◌, inl, some, arith, true, some, ◌==◌,
  if◌then◌else◌, [], ◌∷◌,
}
use simply_os.Pmm.Tests.{small, small-IsValid}
use simply_os.Paging.{Machine, is_present, frame_of, pde, pde_idx, pte_idx, translate}
use simply_os.Paging.Walk.{pte_idx-lem}
use simply_os.Paging.Update.{IsTables}
use simply_os.Paging.Space.{IsSpace}
use simply_os.Paging.Space.Source.{pages}
use simply_os.Kheap.Machine.{Heap, Run, done, fault, hang, write}
use simply_os.Kheap.{
  kmalloc, kmalloc_loop, needed_size, align, find_fit, split, load, store, max_blocks, kheap_start,
}
use simply_os.Kheap.Chunks.{chunk}
use simply_os.Kheap.State.{IsHeap}
use simply_os.Kheap.Client.{Client, alloc, Reach, here, next}
use simply_os.Kheap.Backed.{held-translated}

abbrev words : ℕ → ℕ
words x =
    if x == 0x100FFC
    then 0x100003
    else if x == 0x100C20
    then 0x200003
    else if x == 0x200000
    then 0x300003
    else if x == 0x200004
    then 0x301003
    else if x == 0x200008
    then 0x302003
    else if x == 0x20000C
    then 0x303003
    else 0

abbrev machine : Machine
machine = record { pmm = small; phys = words; page_directory = 0xC0100000 }

present-cases :
    (i : ℕ)
    → i < 1024
    → is_present (pde machine i) ≡ true
    → ((i ≡ 776) × (frame_of (pde machine i) ≡ 0x200000))
      ⊎ ((i ≡ 1023) × (frame_of (pde machine i) ≡ 0x100000))
present-cases i inside there = ground arith

machine-IsTables : IsTables machine
machine-IsTables = record {
  recursive = record { high = omega arith; word = omega arith; aligned = refl; slot = refl };
  words = λ a. ground arith;
  distinct = λ i j hi hj pi pj ne e. ground (arith, present-cases i hi pi, present-cases j hj pj);
}

machine-IsSpace : IsSpace machine
machine-IsSpace = record {
  tables = machine-IsTables;
  valid = small-IsValid;
  taken = λ i hi pi below. ground (arith, present-cases i hi pi);
}

abbrev boot : Heap Machine
boot = record {
  start = kheap_start;
  end = kheap_start + 16384;
  first = kheap_start;
  mem = λ a. record { size = 16384; is_free = true; next = 0; prev = 0 };
  pages = machine;
}

entry_there : (k : ℕ) → k < 4 → is_present (words (0x200000 + 4 * k)) ≡ true
entry_there k few = ground arith

boot-mapped : (x : ℕ) → kheap_start ≤ x → x < kheap_start + 16384 → pages.mapped machine x ≡ true
unfolding translate
boot-mapped x low high =
    let directory : pde_idx x ≡ 776 = omega arith in
    let table : pte_idx x ≡ x / 4096 - 0xC2000 = pte_idx-lem x ∙ omega arith in
    rw (directory, table, entry_there (x / 4096 - 0xC2000) (omega arith)) refl

boot-IsHeap : IsHeap pages boot (chunk 16384 true ∷ [])
boot-IsHeap = record {
  sound = machine-IsSpace;
  at_start = refl;
  bound = omega arith;
  aligned = refl;
  zone = record { all_mapped = boot-mapped; pos = omega arith; small = omega arith };
  first = refl;
  chain = (refl, refl);
  blocks = ((omega arith, refl), tt);
  coalesced = tt;
}

abbrev state_of : Run Machine ℕ → Heap Machine
state_of (done a h) = h
state_of fault = boot
state_of hang = boot

abbrev one : Heap Machine
one = state_of (kmalloc pages 100 boot)

one-runs : kmalloc pages 100 boot ≡ done 0xC2000010 one
unfolding kmalloc kmalloc_loop find_fit split load store needed_size align max_blocks write
    translate
one-runs = refl

abbrev one_held : Client pages
one_held = record {
  heap = one;
  held = 0xC2000010 ∷ [];
  size_of = λ x. if x == 0xC2000010 then 100 else 0;
}

one_call : Reach pages (record { heap = boot; held = []; size_of = λ x. 0 }) one_held
one_call =
    next here (alloc 100 0xC2000010 one (omega arith) (omega arith) one-runs (λ e. omega arith))

held-translated_example : IsSpace one.pages × (a : ℕ) × (translate one.pages 0xC2000073 ≡ some a)
held-translated_example =
    held-translated boot (chunk 16384 true ∷ []) boot-IsHeap one_call 0xC2000010 0xC2000073
      (inl refl) (omega arith) (omega arith)
