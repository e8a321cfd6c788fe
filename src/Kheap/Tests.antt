-- ===== src/Kheap/Tests.antt =====
-- The heap over a simple source of pages: so many frames are left, and everything below an address
-- is mapped.
use simply_os.Base.{
  ℕ, ◌+◌, ◌*◌, ◌-◌, ◌<◌, ◌≤◌, ◌^◌, true, false, ◌≡◌, refl, arith, [], ◌∷◌, inl, inr, ltb, ◌==◌,
  if◌then◌else◌, lt→ltb, ◌⊎◌,
}
use simply_os.Kheap.Machine.{PageSource, Memory, write, Heap, Run, done, fault, hang, page_size}
use simply_os.Kheap.{
  kmalloc, kmalloc_loop, kfree, extend, needed_size, align, find_fit, split, load, store, map_one,
  map_pages, link_block, max_blocks, kheap_start,
}
use simply_os.Kheap.Chunks.{chunk, release}
use simply_os.Kheap.State.{IsHeap}
use simply_os.Kheap.Malloc.{Mallocs, kmalloc-Mallocs}
use simply_os.Kheap.Init.{empty-IsHeap}
use simply_os.Kheap.Whole.{kfree-IsHeap}
use simply_os.Kheap.Client.{Client, alloc, Reach, here, next, held-apart}
use simply_os.Kheap.Limits.{kmalloc-wraps}

record Frames : Type 0 where
  left : ℕ
  top : ℕ

abbrev higher : ℕ → ℕ → ℕ
higher a b = if ltb a b then b else a

abbrev take : Frames → ℕ × Frames
take s = if s.left == 0 then (0, s) else (s.left * page_size, record s { left = s.left - 1 })

alloc-mapped : (s : Frames) (x : ℕ) → ltb x (take s).1.top ≡ ltb x s.top
alloc-mapped s x = ground arith

keeps_mapped : (x a b : ℕ) → ltb x a ≡ true → ltb x (higher a b) ≡ true
keeps_mapped x a b m = ground arith

maps : (x a b : ℕ) → x < b → ltb x (higher a b) ≡ true
maps x a b hi = ground arith

abbrev frames : PageSource
frames = record {
  State = Frames;
  alloc = take;
  map_page = λ s v f flags. (true, record s { top = higher s.top (v + page_size) });
  free = λ s f. record s { left = s.left + 1 };
  mapped = λ s x. ltb x s.top;
  IsSound = λ s. Unit;
  Owned = λ s f. Unit;
  alloc-IsSound = λ s i. tt;
  alloc-mapped = λ s x i. alloc-mapped s x;
  alloc-Owned = λ s i ne. tt;
  map_page-IsSound = λ s v f flags i o l b. tt;
  map_page-keeps = λ s v f flags x i o l b c m. keeps_mapped x s.top (v + page_size) m;
  map_page-maps = λ s v f flags x i o l b a ok lo hi. maps x s.top (v + page_size) hi;
  map_page-Owned = λ s v f flags i o l b no. tt;
  free-IsSound = λ s f i o. tt;
  free-mapped = λ s f x i o. refl;
}

abbrev blank : Memory
blank a = record { size = 0; is_free = false; next = 0; prev = 0 }

abbrev boot : Heap Frames
boot = record {
  start = kheap_start;
  end = kheap_start;
  first = 0;
  mem = blank;
  pages = record { left = 100; top = 0xC0400000 };
}

boot-IsHeap : IsHeap frames boot []
boot-IsHeap = empty-IsHeap frames boot tt

kmalloc-Mallocs_example : Mallocs frames boot [] (needed_size 100) 100 (kmalloc frames 100 boot)
kmalloc-Mallocs_example = kmalloc-Mallocs frames boot [] 100 boot-IsHeap (omega arith) (omega arith)

kmalloc-wraps_example : kmalloc frames (2 ^ 32 - 16) boot ≡ kmalloc frames 8 boot
kmalloc-wraps_example = kmalloc-wraps frames (2 ^ 32 - 16) boot (omega arith) (omega arith)

-- Two blocks of one free block of four pages.
abbrev state_of : Run Frames ℕ → Heap Frames
state_of (done a h) = h
state_of fault = boot
state_of hang = boot

abbrev one : Heap Frames
one = state_of (kmalloc frames 100 boot)

abbrev two : Heap Frames
two = state_of (kmalloc frames 8 one)

one-runs : kmalloc frames 100 boot ≡ done 0xC2000010 one
unfolding kmalloc kmalloc_loop find_fit split load store extend map_one map_pages link_block
    needed_size align max_blocks write
one-runs = refl

two-runs : kmalloc frames 8 one ≡ done 0xC2000088 two
unfolding kmalloc kmalloc_loop find_fit split load store extend map_one map_pages link_block
    needed_size align max_blocks write
two-runs = refl

-- A client that called twice.
abbrev none_held : Client frames
none_held = record { heap = boot; held = []; size_of = λ x. 0 }

abbrev one_held : Client frames
one_held = record {
  heap = one;
  held = 0xC2000010 ∷ [];
  size_of = λ x. if x == 0xC2000010 then 100 else 0;
}

abbrev two_held : Client frames
two_held = record {
  heap = two;
  held = 0xC2000088 ∷ 0xC2000010 ∷ [];
  size_of = λ x. if x == 0xC2000088 then 8 else one_held.size_of x;
}

two_calls : Reach frames none_held two_held
two_calls =
    next
      (next here (alloc 100 0xC2000010 one (omega arith) (omega arith) one-runs (λ e. omega arith)))
      (alloc 8 0xC2000088 two (omega arith) (omega arith) two-runs (λ e. omega arith))

held-apart_example :
    (0xC2000010 + two_held.size_of 0xC2000010 ≤ 0xC2000088)
    ⊎ (0xC2000088 + two_held.size_of 0xC2000088 ≤ 0xC2000010)
held-apart_example =
    held-apart frames boot [] boot-IsHeap two_calls 0xC2000010 0xC2000088 (inr (inl refl))
      (inl refl) (λ e. omega arith)

-- A page that one block fills.
abbrev full : Heap Frames
full = record {
  start = kheap_start;
  end = kheap_start + page_size;
  first = kheap_start;
  mem = λ a. record { size = 4096; is_free = false; next = 0; prev = 0 };
  pages = record { left = 100; top = kheap_start + page_size };
}

full-IsHeap : IsHeap frames full (chunk 4096 false ∷ [])
full-IsHeap = record {
  sound = tt;
  at_start = refl;
  bound = omega arith;
  aligned = refl;
  zone = record { all_mapped = λ x lo hi. lt→ltb _ _ hi; pos = omega arith; small = omega arith };
  first = refl;
  chain = (refl, refl);
  blocks = ((omega arith, refl), tt);
  coalesced = tt;
}

kfree-IsHeap_example :
    (h' : Heap Frames) × (kfree frames 0xC2000010 full ≡ done tt h')
    × IsHeap frames h' (release 0 (chunk 4096 false ∷ []))
kfree-IsHeap_example =
    kfree-IsHeap frames full (chunk 4096 false ∷ []) 0 4096 full-IsHeap (inl (refl, refl, refl))
