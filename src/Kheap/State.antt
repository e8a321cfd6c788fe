-- ===== src/Kheap/State.antt =====
-- The invariant of the heap, and `kheap_extend` and `kheap_init`.
use simply_os.Base.{
  ℕ, ◌+◌, ◌-◌, ◌*◌, ◌/◌, ◌%◌, ◌^◌, ◌≤◌, ◌<◌, Bool, true, false, Option, some, List, [], ◌∷◌, ◌≡◌,
  refl, ◌∙◌, inl, inr, arith, ◌==◌, if◌then◌else◌, u32, sub32, sym, subst, All, length, ltb, leb,
  dec_lt, Bool-cases,
}
use simply_os.Kheap.Machine.{PageSource, write, Heap, Run, done, and_then, page_size}
use simply_os.Kheap.{
  store, map_pages, walk_last, link_block, extend, use_pages, kheap_start, max_bytes, max_blocks,
  grow_pages,
}
use simply_os.Kheap.Chunks.{Chunk, IsChunk, total, Coalesced, grow}
use simply_os.Kheap.Chunks.Growth.{grow-All, grow-Coalesced}
use simply_os.Kheap.Chain.{
  Chain, Chain-end, Chain-Agree, link, write_self, write-ne, Zone, Zone-part, store-ok,
}
use simply_os.Kheap.Pages.{
  top, Keeps, Zone-Keeps, MapsPages, failed, mapped_pages, map_pages-MapsPages,
}
use simply_os.Kheap.Append.{fresh, last_addr, walk_last-lem, append_to-Chain, link-grow}

first_test : (a : ℕ) → a ≡ kheap_start → (a == 0) ≡ false
first_test a e = ground arith

module _ (P : PageSource) where
  open P use {State, IsSound, mapped}

  -- The heap stands for the chunks: the list describes them from the start of the heap to its end,
  -- all of it is mapped, and no two free blocks are neighbours.
  pub record IsHeap (h : Heap State) (cs : List Chunk) : Type 0 where
    pub sound : IsSound h.pages
    pub at_start : h.start ≡ kheap_start
    pub bound : h.end ≤ top
    pub aligned : h.end % page_size ≡ 0
    pub zone : Zone P h.pages kheap_start h.end
    pub first : h.first ≡ link kheap_start cs
    pub chain : Chain h.mem 0 kheap_start cs h.end
    pub blocks : All IsChunk cs
    pub coalesced : Coalesced cs

  -- The page-aligned number of bytes that a call maps for `min_bytes`.
  abbrev pub grown : ℕ → ℕ
  grown min_bytes =
      (if ltb min_bytes (grow_pages * page_size) then grow_pages * page_size else min_bytes)

  abbrev pub grown_pages : ℕ → ℕ
  grown_pages min_bytes = u32 (grown min_bytes + page_size - 1) / page_size

  -- The two outcomes: `false`, with the blocks as they were, or the heap has grown by whole pages.
  pub data Extends (h : Heap State) (cs : List Chunk) (min_bytes : ℕ) (run : Run State Bool)
      : Type 0 where
    refused :
        (s : State)
        → run ≡ done false (record h { pages = s })
        → IsHeap (record h { pages = s }) cs
        → Extends h cs min_bytes run
    extended :
        (h' : Heap State)
        → run ≡ done true h'
        → IsHeap h' (grow (grown_pages min_bytes * page_size) cs)
        → min_bytes ≤ grown_pages min_bytes * page_size
        → Extends h cs min_bytes run

  length-total : (cs : List Chunk) → All IsChunk cs → 24 * length cs ≤ total cs
  length-total [] sizes = omega arith
  length-total (c ∷ cs) sizes = omega (arith, sizes.0, length-total cs sizes.1)

  few_of_total : (cs : List Chunk) → All IsChunk cs → total cs ≤ max_bytes → length cs < max_blocks
  unfolding max_blocks
  few_of_total cs sizes small = omega (arith, length-total cs sizes)

  pub few_blocks : {h : Heap State} {cs : List Chunk} → IsHeap h cs → length cs < max_blocks
  few_blocks {h} {cs} v =
      few_of_total cs v.blocks (omega (arith, Chain-end h.mem 0 kheap_start cs v.chain, v.bound))

  IsHeap-pages :
      {h : Heap State} {cs : List Chunk} (s : State)
      → IsHeap h cs
      → IsSound s
      → Keeps P h.pages s
      → IsHeap (record h { pages = s }) cs
  IsHeap-pages s v sound keeps = record {
    sound = sound;
    at_start = v.at_start;
    bound = v.bound;
    aligned = v.aligned;
    zone = Zone-Keeps P keeps v.zone;
    first = v.first;
    chain = v.chain;
    blocks = v.blocks;
    coalesced = v.coalesced;
  }

  -- What stands at the end of a heap with new pages behind it.
  record Ready (h : Heap State) (cs : List Chunk) (n : ℕ) : Type 0 where
    sound : IsSound h.pages
    at_start : h.start ≡ kheap_start
    low : kheap_start ≤ h.end
    room : h.end + n ≤ top
    aligned : h.end % page_size ≡ 0
    whole : n % page_size ≡ 0
    some_bytes : page_size ≤ n
    zone : Zone P h.pages kheap_start (h.end + n)
    first : h.first ≡ link kheap_start cs
    chain : Chain h.mem 0 kheap_start cs h.end
    new : h.mem h.end ≡ fresh n
    blocks : All IsChunk cs
    coalesced : Coalesced cs

  link_block-IsHeap :
      (h : Heap State) (cs : List Chunk) (n : ℕ)
      → Ready h cs n
      → (h' : Heap State) × (link_block P h.end (h.end + n) h ≡ done true h')
        × IsHeap h' (grow n cs)
  unfolding link_block grow
  link_block-IsHeap h [] n r = (
    record h { first = h.end; end = h.end + n },
    rw r.first,
    record {
      sound = r.sound;
      at_start = r.at_start;
      bound = r.room;
      aligned = omega (arith, r.aligned, r.whole);
      zone = r.zone;
      first = sym r.chain;
      chain = rw r.chain (r.new, refl);
      blocks = (omega (arith, r.whole, r.some_bytes), tt);
      coalesced = tt;
    },
  )
  link_block-IsHeap h (c ∷ cs) n r =
      let far = Chain-end h.mem 0 kheap_start (c ∷ cs) r.chain in
      let old = Zone-part P kheap_start h.end r.zone (omega arith) (omega arith) in
      let few = few_of_total (c ∷ cs) r.blocks (omega (arith, far, r.room)) in
      let walk = walk_last-lem P h max_blocks 0 kheap_start h.end c cs old r.blocks r.chain few in
      let a =
        append_to-Chain P h 0 kheap_start h.end n c cs r.zone (omega (arith, r.some_bytes)) r.blocks
          r.chain r.new in
      let some_block : (h.first == 0) ≡ false = first_test h.first r.first in
      let walk' =
        subst (λ x. walk_last P max_blocks x h ≡ done (last_addr kheap_start c cs) h) (sym r.first)
          walk in
      (
        record h { mem = a.mem; end = h.end + n },
        rw (some_block, walk', a.runs),
        record {
          sound = r.sound;
          at_start = r.at_start;
          bound = r.room;
          aligned = omega (arith, r.aligned, r.whole);
          zone = r.zone;
          first = r.first ∙ sym (link-grow kheap_start n c cs);
          chain = a.holds;
          blocks = grow-All n (c ∷ cs) (omega (arith, r.whole, r.some_bytes)) r.blocks;
          coalesced = grow-Coalesced n (c ∷ cs) r.coalesced;
        },
      )

  extend-parts :
      (h : Heap State) (min_bytes : ℕ)
      → leb max_bytes (sub32 h.end h.start) ≡ false
      → extend P min_bytes h
        ≡ and_then (map_pages P (grown_pages min_bytes) h.end h) (use_pages P h.end)
  unfolding extend
  extend-parts h min_bytes room = rw room

  extend-full :
      (h : Heap State) (min_bytes : ℕ)
      → leb max_bytes (sub32 h.end h.start) ≡ true
      → extend P min_bytes h ≡ done false h
  unfolding extend
  extend-full h min_bytes full = rw full

  Zone-more :
      (s t : State) (a b hi : ℕ)
      → Zone P s a b
      → Keeps P s t
      → ((x : ℕ) → b ≤ x → x < hi → mapped t x ≡ true)
      → hi ≤ top
      → Zone P t a hi
  Zone-more s t a b hi z keeps maps small = record {
    all_mapped = λ x l h. elim (dec_lt x b) [
      | yes old ↦ keeps x (omega arith) (z.all_mapped x l old)
      | no new ↦ maps x (omega arith) h
    ];
    pos = z.pos;
    small = small;
  }

  use_pages-runs :
      (h : Heap State) (n : ℕ)
      → sub32 (h.end + n) h.end ≡ n
      → store P h.end (fresh n) h ≡ done tt (record h { mem = write h.mem h.end (fresh n) })
      → use_pages P h.end (some (h.end + n)) h
        ≡ link_block P h.end (h.end + n) (record h { mem = write h.mem h.end (fresh n) })
  use_pages-runs h n size st = rw (size, st)

  use_pages-some :
      (h : Heap State) (cs : List Chunk) (n : ℕ) (s : State)
      → IsHeap h cs
      → page_size ≤ n
      → n % page_size ≡ 0
      → IsSound s
      → Keeps P h.pages s
      → ((x : ℕ) → h.end ≤ x → x < h.end + n → mapped s x ≡ true)
      → h.end + n ≤ top
      → (h' : Heap State) × (use_pages P h.end (some (h.end + n)) (record h { pages = s })
          ≡ done true h')
        × IsHeap h' (grow n cs)
  use_pages-some h cs n s v some_bytes whole sound keeps maps room =
      let low : kheap_start ≤ h.end = omega (arith, Chain-end h.mem 0 kheap_start cs v.chain) in
      let size : sub32 (h.end + n) h.end ≡ n = omega (arith, room) in
      let zone = Zone-more h.pages s kheap_start h.end (h.end + n) v.zone keeps maps room in
      let h1 : Heap State = record h { pages = s } in
      let st = store-ok P h1 h.end (fresh n) zone low (omega arith) in
      let m = write h.mem h.end (fresh n) in
      let ready : Ready (record h1 { mem = m }) cs n = record {
        sound = sound;
        at_start = v.at_start;
        low = low;
        room = room;
        aligned = v.aligned;
        whole = whole;
        some_bytes = some_bytes;
        zone = zone;
        first = v.first;
        chain =
            Chain-Agree {m = h.mem} 0 kheap_start cs v.blocks
              (λ x lo hi. write-ne h.mem h.end x (fresh n) (omega arith)) v.chain;
        new = write_self h.mem h.end (fresh n);
        blocks = v.blocks;
        coalesced = v.coalesced;
      } in
      let (h', links, is) = link_block-IsHeap (record h1 { mem = m }) cs n ready in
      (h', use_pages-runs h1 n size st ∙ links, is)

  use_pages-Extends :
      (h : Heap State) (cs : List Chunk) (min_bytes left : ℕ) (run : Run State (Option ℕ))
      → IsHeap h cs
      → left ≡ grown_pages min_bytes
      → 0 < left
      → min_bytes ≤ left * page_size
      → MapsPages P h h.end left run
      → Extends h cs min_bytes (and_then run (use_pages P h.end))
  use_pages-Extends h cs min_bytes left run v pages pos enough (failed s e sound keeps) =
      rw e (refused s refl (IsHeap-pages s v sound keeps))
  use_pages-Extends h cs min_bytes left run v pages pos enough
        (mapped_pages s e sound keeps maps room) =
      let (h', ends, is) =
        use_pages-some h cs (left * page_size) s v (omega arith) (omega arith) sound keeps maps
          room in
      extended h' (rw e ends) (subst (λ k. IsHeap h' (grow (k * page_size) cs)) pages is)
        (subst (λ k. min_bytes ≤ k * page_size) pages enough)

  pages-enough :
      (min_bytes : ℕ)
      → min_bytes + page_size ≤ 2 ^ 32
      → (0 < grown_pages min_bytes) × (min_bytes ≤ grown_pages min_bytes * page_size)
  pages-enough min_bytes fits = ground arith

  -- With no overflow in the rounding, kheap_extend on a well-formed heap returns false with the
  -- blocks as they were, or true with the heap grown by whole pages, at least as many bytes as
  -- asked for, whose bytes are free and merged with a free last block.
  pub extend-Extends :
      (h : Heap State) (cs : List Chunk) (min_bytes : ℕ)
      → IsHeap h cs
      → min_bytes + page_size ≤ 2 ^ 32
      → Extends h cs min_bytes (extend P min_bytes h)
  extend-Extends h cs min_bytes v fits = elim (Bool-cases (leb max_bytes (sub32 h.end h.start))) [
    | inl full ↦ refused h.pages (extend-full h min_bytes full) v
    | inr room ↦
        let low : kheap_start ≤ h.end = omega (arith, Chain-end h.mem 0 kheap_start cs v.chain) in
        let (pos, enough) = pages-enough min_bytes fits in
        rw (extend-parts h min_bytes room) (
          use_pages-Extends h cs min_bytes (grown_pages min_bytes)
            (map_pages P (grown_pages min_bytes) h.end h) v refl pos enough
            (map_pages-MapsPages P (grown_pages min_bytes) h.end h v.sound v.at_start low v.bound
              v.aligned))
  ]
