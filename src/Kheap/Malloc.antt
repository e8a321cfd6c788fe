-- ===== src/Kheap/Malloc.antt =====
-- `kheap_init` and `kmalloc`, whole.
use simply_os.Base.{
  ℕ, suc, ◌+◌, ◌-◌, ◌*◌, ◌/◌, ◌%◌, ◌^◌, ◌≤◌, ◌<◌, true, false, Option, none, some, List, [], ◌∷◌,
  ◌≡◌, refl, ◌∙◌, ◌⊎◌, inl, inr, arith, ◌==◌, u32, ap, sym, subst, All,
}
use simply_os.Base.Bits.{bit_and_high, bit_and_mask}
use simply_os.Kheap.Machine.{PageSource, Heap, Run, done, page_size}
use simply_os.Kheap.{
  extend, find_fit, kmalloc_loop, kmalloc, align, needed_size, header_size, kheap_start, max_blocks,
}
use simply_os.Kheap.Chunks.{Chunk, IsChunk, used_total, first_fit, grow, UsedAt}
use simply_os.Kheap.Chunks.Alloc.{Taken, first_fit-Taken}
use simply_os.Kheap.Chunks.Growth.{grow-UsedAt, grow-used_total, first_fit-grow}
use simply_os.Kheap.Chunks.Release.{UsedAt-end}
use simply_os.Kheap.Chain.{Chain-end}
use simply_os.Kheap.Fit.{FindsFit, find_fit-FindsFit, link-first_fit}
use simply_os.Kheap.State.{
  IsHeap, Extends, refused, extended, grown_pages, extend-Extends, few_blocks,
}

pub align-lem : (n : ℕ) → align n ≡ u32 (n + 7) / 8 * 8
unfolding align
align-lem n =
    bit_and_high 3 (u32 (n + 7)) (2 ^ 29 - 1)
    ∙ ap (λ t. t * 8) (bit_and_mask 29 (u32 (n + 7) / 8) ∙ omega arith)

-- What `kmalloc` looks for, when the size is not within a page of 2^32.
pub needed_size-enough :
    (size : ℕ)
    → size + 4112 ≤ 2 ^ 32
    → (24 ≤ needed_size size)
      × (needed_size size % 8 ≡ 0)
      × (size + header_size ≤ needed_size size)
      × (needed_size size + page_size ≤ 2 ^ 32)
unfolding needed_size
needed_size-enough size fits = let a = align-lem (u32 (size + header_size)) in ground (arith, a)

UsedAt-units : (o n : ℕ) (cs : List Chunk) → All IsChunk cs → UsedAt o n cs → o % 8 ≡ 0
UsedAt-units o n [] sizes u = absurd u
UsedAt-units o n (c ∷ cs) sizes (inl u) = omega (arith, u.0)
UsedAt-units o n (c ∷ cs) sizes (inr u) =
    omega (arith, u.0, sizes.0.1, UsedAt-units (o - c.size) n cs sizes.1 u.1)

module _ (P : PageSource) where
  open P use {State}

  -- A block of `n` bytes was taken at offset `off`: it holds the header and `size` bytes, its data
  -- are aligned, and the blocks that were in use still are, apart from it.
  pub record Served (cs : List Chunk) (size ptr : ℕ) (h' : Heap State) : Type 0 where
    pub off : ℕ
    pub n : ℕ
    pub ds : List Chunk
    pub holds : IsHeap P h' ds
    pub at : ptr ≡ kheap_start + off + header_size
    pub aligned : ptr % 8 ≡ 0
    pub large : size + header_size ≤ n
    pub used : UsedAt off n ds
    pub kept : (o k : ℕ) → UsedAt o k cs → UsedAt o k ds × ((o + k ≤ off) ⊎ (off + n ≤ o))
    pub more_used : used_total ds ≡ used_total cs + n

  -- The outcomes of `kmalloc`: NULL, with the blocks as they were and none that fits, or a block.
  pub data Mallocs (h : Heap State) (cs : List Chunk) (needed size : ℕ) (run : Run State ℕ)
      : Type 0 where
    null :
        (h' : Heap State)
        → run ≡ done 0 h'
        → IsHeap P h' cs
        → first_fit needed cs ≡ none
        → Mallocs h cs needed size run
    served :
        (ptr : ℕ) (h' : Heap State)
        → run ≡ done ptr h'
        → Served cs size ptr h'
        → Mallocs h cs needed size run

  module _ (needed size : ℕ) (least : 24 ≤ needed) (units : needed % 8 ≡ 0)
      (large : size + header_size ≤ needed) where
    Served-Taken :
        (cs base ds : List Chunk) (off : ℕ) (h' : Heap State)
        → ((o k : ℕ) → UsedAt o k cs → UsedAt o k base)
        → used_total base ≡ used_total cs
        → Taken needed off base ds
        → IsHeap P h' ds
        → Served cs size (kheap_start + off + header_size) h'
    Served-Taken cs base ds off h' older same t v = record {
      off = off;
      n = t.size;
      ds = ds;
      holds = v;
      at = refl;
      aligned = omega (arith, UsedAt-units off t.size ds t.blocks t.used);
      large = omega (arith, large, t.large);
      used = t.used;
      kept = λ o k u. t.kept o k (older o k u);
      more_used = omega (arith, t.more_used, same);
    }

    -- One search over the list.
    data Searches (h : Heap State) (cs : List Chunk) (run : Run State (Option ℕ)) : Type 0 where
      missed : run ≡ done none h → first_fit needed cs ≡ none → Searches h cs run
      found :
          (off : ℕ) (ds : List Chunk) (h' : Heap State)
          → run ≡ done (some (kheap_start + off + header_size)) h'
          → Taken needed off cs ds
          → IsHeap P h' ds
          → Searches h cs run

    FindsFit-Searches :
        (h : Heap State) (cs : List Chunk) (run : Run State (Option ℕ))
        (r : Option (ℕ × List Chunk))
        → IsHeap P h cs
        → first_fit needed cs ≡ r
        → FindsFit P h 0 kheap_start h.end run r
        → Searches h cs run
    FindsFit-Searches h cs run none v e res = missed res e
    FindsFit-Searches h cs run (some (off, ds)) v e res =
        let t = first_fit-Taken needed off cs ds least units v.blocks v.coalesced e in
        let far = Chain-end h.mem 0 kheap_start cs v.chain in
        let inside = UsedAt-end off t.size ds t.used in
        let small : u32 (kheap_start + off + header_size) ≡ kheap_start + off + header_size =
          omega (arith, far, inside, t.same_total, v.bound, least, t.large) in
        found off ds (record h { mem = res.mem })
          (res.runs ∙ ap (λ x. done (some x) (record h { mem = res.mem })) small) t
          (record {
            sound = v.sound;
            at_start = v.at_start;
            bound = v.bound;
            aligned = v.aligned;
            zone = v.zone;
            first = v.first ∙ sym (link-first_fit needed kheap_start cs off ds e);
            chain = res.holds;
            blocks = t.blocks;
            coalesced = t.coalesced;
          })

    searches :
        (h : Heap State) (cs : List Chunk)
        → IsHeap P h cs
        → Searches h cs (find_fit P needed max_blocks h.first h)
    searches h cs v = FindsFit-Searches h cs _ (first_fit needed cs) v refl (
        subst
          (λ x.
            FindsFit P h 0 kheap_start h.end (find_fit P needed max_blocks x h)
              (first_fit needed cs))
          (sym v.first)
          (find_fit-FindsFit P h needed max_blocks 0 kheap_start h.end cs v.zone least units
            v.blocks v.chain (few_blocks P v)))

    -- One round of `for (;;)` with the search known to succeed.
    round-found :
        (rounds ptr : ℕ) (h h' : Heap State)
        → find_fit P needed max_blocks h.first h ≡ done (some ptr) h'
        → kmalloc_loop P needed (suc rounds) h ≡ done ptr h'
    unfolding kmalloc_loop
    round-found rounds ptr h h' e = rw e

    round-refused :
        (rounds : ℕ) (h h' : Heap State)
        → find_fit P needed max_blocks h.first h ≡ done none h
        → extend P needed h ≡ done false h'
        → kmalloc_loop P needed (suc rounds) h ≡ done 0 h'
    unfolding kmalloc_loop
    round-refused rounds h h' e f = rw (e, f)

    round-extended :
        (rounds : ℕ) (h h' : Heap State)
        → find_fit P needed max_blocks h.first h ≡ done none h
        → extend P needed h ≡ done true h'
        → kmalloc_loop P needed (suc rounds) h ≡ kmalloc_loop P needed rounds h'
    unfolding kmalloc_loop
    round-extended rounds h h' e f = rw (e, f)

    -- After a growth that is large enough the search succeeds.
    second_round :
        (rounds n : ℕ) (h h' : Heap State) (cs : List Chunk)
        → IsHeap P h' (grow n cs)
        → needed ≤ n
        → Searches h' (grow n cs) (find_fit P needed max_blocks h'.first h')
        → (run : Run State ℕ) → run ≡ kmalloc_loop P needed (suc rounds) h'
        → Mallocs h cs needed size run
    second_round rounds n h h' cs v enough (missed e none_fits) run same =
        absurd (first_fit-grow needed n cs enough none_fits)
    second_round rounds n h h' cs v enough (found off ds h2 e t w) run same =
        served (kheap_start + off + header_size) h2 (same ∙ round-found rounds _ h' h2 e)
          (Served-Taken cs (grow n cs) ds off h2 (grow-UsedAt n cs) (grow-used_total n cs) t w)

    first_extend :
        (rounds : ℕ) (h : Heap State) (cs : List Chunk)
        → find_fit P needed max_blocks h.first h ≡ done none h
        → first_fit needed cs ≡ none
        → Extends P h cs needed (extend P needed h)
        → Mallocs h cs needed size (kmalloc_loop P needed (suc (suc rounds)) h)
    first_extend rounds h cs miss none_fits (refused s e v) =
        null (record h { pages = s }) (round-refused (suc rounds) h _ miss e) v none_fits
    first_extend rounds h cs miss none_fits (extended h' e v enough) =
        second_round rounds (grown_pages P needed * page_size) h h' cs v enough
          (searches h' (grow (grown_pages P needed * page_size) cs) v)
          (kmalloc_loop P needed (suc (suc rounds)) h) (round-extended (suc rounds) h h' miss e)

    first_round :
        (rounds : ℕ) (h : Heap State) (cs : List Chunk)
        → IsHeap P h cs
        → needed + page_size ≤ 2 ^ 32
        → Searches h cs (find_fit P needed max_blocks h.first h)
        → Mallocs h cs needed size (kmalloc_loop P needed (suc (suc rounds)) h)
    first_round rounds h cs v fits (missed e none_fits) =
        first_extend rounds h cs e none_fits (extend-Extends P h cs needed v fits)
    first_round rounds h cs v fits (found off ds h' e t w) =
        served (kheap_start + off + header_size) h' (round-found (suc rounds) _ h h' e)
          (Served-Taken cs cs ds off h' (λ o k u. u) refl t w)

  -- On a well-formed heap, with a size that is not 0 and not within 4112 of 2^32, kmalloc ends
  -- without a fault; either it returns NULL, no block fits, and the blocks are as they were, or it
  -- returns an aligned pointer into a block in use that has room for the size, apart from every
  -- block that was in use, and these still are in use.
  pub kmalloc-Mallocs :
      (h : Heap State) (cs : List Chunk) (size : ℕ)
      → IsHeap P h cs
      → 0 < size
      → size + 4112 ≤ 2 ^ 32
      → Mallocs h cs (needed_size size) size (kmalloc P size h)
  unfolding kmalloc
  kmalloc-Mallocs h cs size v pos fits =
      let (least, units, large, room) = needed_size-enough size fits in
      let some_size : (size == 0) ≡ false = ground arith in
      rw some_size (
        first_round (needed_size size) size least units large 1 h cs v room
          (searches (needed_size size) size least units large h cs v))
