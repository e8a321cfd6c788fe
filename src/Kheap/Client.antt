-- ===== src/Kheap/Client.antt =====
-- The clients of the allocator: who holds which blocks after any sequence of calls.
use simply_os.Base.{
  ℕ, ◌+◌, ◌^◌, ◌≤◌, ◌<◌, false, List, [], ◌∷◌, ◌≡◌, ◌≢◌, ◌∙◌, ◌⊎◌, arith, ◌==◌, if◌then◌else◌, sym,
  subst, All, Distinct, erase, Mem, All-erase, Distinct-erase, ne-erase, All-mono, All-mem,
  All-both,
}
use simply_os.Kheap.Machine.{PageSource, Heap, Run, done}
use simply_os.Kheap.{kmalloc, kfree, header_size, kheap_start}
use simply_os.Kheap.Chunks.{Chunk, IsChunk, release, UsedAt}
use simply_os.Kheap.Chunks.Release.{release-UsedAt, UsedAt-apart}
use simply_os.Kheap.State.{IsHeap}
use simply_os.Kheap.Malloc.{Served, Mallocs, null, served, kmalloc-Mallocs}
use simply_os.Kheap.Whole.{kfree-IsHeap}

module _ (P : PageSource) where
  open P use {State}

  -- The heap with the pointers that were handed out and not given back, and the size that each of
  -- them was asked with.
  pub record Client : Type 0 where
    pub heap : Heap State
    pub held : List ℕ
    pub size_of : ℕ → ℕ

  -- `kmalloc` with a result, `kmalloc` with NULL, and `kfree` of what is held.
  pub data Step (c : Client) : Client → Type 0 where
    alloc :
        (size ptr : ℕ) (h : Heap State)
        → 0 < size
        → size + 4112 ≤ 2 ^ 32
        → kmalloc P size c.heap ≡ done ptr h
        → ptr ≢ 0
        → Step c (record {
          heap = h;
          held = ptr ∷ c.held;
          size_of = λ x. if x == ptr then size else c.size_of x;
        })
    refuse :
        (size : ℕ) (h : Heap State)
        → 0 < size
        → size + 4112 ≤ 2 ^ 32
        → kmalloc P size c.heap ≡ done 0 h
        → Step c (record c { heap = h })
    give_back :
        (ptr : ℕ) (h : Heap State)
        → Mem ptr c.held
        → kfree P ptr c.heap ≡ done tt h
        → Step c (record c { heap = h; held = erase ptr c.held })

  pub data Reach (c : Client) : Client → Type 0 where
    here : Reach c c
    next : {d e : Client} → Reach c d → Step d e → Reach c e

  -- The pointer is that of a block in use with room for the size.
  abbrev pub IsHeld : List Chunk → (ℕ → ℕ) → ℕ → Type 0
  IsHeld cs size_of ptr =
      (o n : ℕ) × (ptr ≡ kheap_start + o + header_size)
      × (size_of ptr + header_size ≤ n)
      × UsedAt o n cs

  pub record IsClient (c : Client) : Type 0 where
    pub chunks : List Chunk
    pub holds : IsHeap P c.heap chunks
    pub held_ok : All (IsHeld chunks c.size_of) c.held
    pub distinct : Distinct c.held

  done_parts : {A : Type 0} {a b : A} {g h : Heap State} → done a g ≡ done b h → (a ≡ b) × (g ≡ h)
  done_parts e = (cc, cc)

  Mallocs-Served :
      {h h' : Heap State} {cs : List Chunk} {needed size ptr : ℕ} {run : Run State ℕ}
      → Mallocs P h cs needed size run
      → run ≡ done ptr h'
      → ptr ≢ 0
      → Served P cs size ptr h'
  Mallocs-Served (null g e v none_fits) same ne = absurd (ne (done_parts (sym same ∙ e)).0)
  Mallocs-Served {h' = h'} {cs = cs} {size = size} (served q g e w) same ne =
      let (e0, e1) = done_parts (sym e ∙ same) in
      subst (λ x. Served P cs size x h') e0 (subst (Served P cs size q) e1 w)

  -- When the heap serves a request, the blocks of the others are still theirs.
  IsHeld-kept :
      (cs : List Chunk) (size_of : ℕ → ℕ) (size ptr : ℕ) (h : Heap State)
      (w : Served P cs size ptr h) (x : ℕ)
      → IsHeld cs size_of x
      → (ptr ≢ x) × IsHeld w.ds (λ y. if y == ptr then size else size_of y) x
  IsHeld-kept cs size_of size ptr h w x (o, n, at, large, used) =
      let (stays, apart) = w.kept o n used in
      let ne : ptr ≢ x = λ e. omega (arith, w.at, at, w.large, large, apart) in
      let other : (x == ptr) ≡ false = ground arith in (ne, (o, n, at, rw other large, stays))

  serve-IsClient :
      (c : Client) (x : IsClient c) (size ptr : ℕ) (h : Heap State)
      → Served P x.chunks size ptr h
      → IsClient (record {
        heap = h;
        held = ptr ∷ c.held;
        size_of = λ y. if y == ptr then size else c.size_of y;
      })
  serve-IsClient c x size ptr h w =
      let new = λ (y : ℕ). if y == ptr then size else c.size_of y in
      let own : new ptr ≡ size = ground arith in
      let others =
        All-mono (IsHeld x.chunks c.size_of) (λ y. (ptr ≢ y) × IsHeld w.ds new y) c.held
          (IsHeld-kept x.chunks c.size_of size ptr h w) x.held_ok in
      record {
        chunks = w.ds;
        holds = w.holds;
        held_ok = (
          (w.off, w.n, w.at, rw own w.large, w.used),
          All-mono _ (IsHeld w.ds new) c.held (λ y r. r.1) others,
        );
        distinct = (All-mono _ (λ y. ptr ≢ y) c.held (λ y r. r.0) others, x.distinct);
      }

  Mallocs-IsHeap :
      {h h' : Heap State} {cs : List Chunk} {needed size : ℕ} {run : Run State ℕ}
      → Mallocs P h cs needed size run
      → run ≡ done 0 h'
      → IsHeap P h' cs
  Mallocs-IsHeap {cs = cs} (null g e v none_fits) same =
      subst (λ x. IsHeap P x cs) (done_parts (sym e ∙ same)).1 v
  Mallocs-IsHeap (served q g e w) same = absurd (omega (arith, (done_parts (sym e ∙ same)).0, w.at))

  IsHeld-release :
      (cs : List Chunk) (size_of : ℕ → ℕ) (off n x : ℕ)
      → All IsChunk cs
      → UsedAt off n cs
      → kheap_start + off + header_size ≢ x
      → IsHeld cs size_of x
      → IsHeld (release off cs) size_of x
  IsHeld-release cs size_of off n x sizes used ne (o, k, at, large, u) =
      (o, k, at, large, release-UsedAt off n o k cs sizes used u (λ e. ne (omega (arith, at))))

  free-IsClient :
      (c : Client) (x : IsClient c) (off n : ℕ) (h : Heap State)
      → UsedAt off n x.chunks
      → kfree P (kheap_start + off + header_size) c.heap ≡ done tt h
      → IsClient (record c { heap = h; held = erase (kheap_start + off + header_size) c.held })
  free-IsClient c x off n h used runs =
      let (g, e, v) = kfree-IsHeap P c.heap x.chunks off n x.holds used in
      let ptr = kheap_start + off + header_size in
      record {
        chunks = release off x.chunks;
        holds = subst (λ y. IsHeap P y (release off x.chunks)) (done_parts (sym e ∙ runs)).1 v;
        held_ok =
            All-mono _ (IsHeld (release off x.chunks) c.size_of) (erase ptr c.held)
              (λ y r. IsHeld-release x.chunks c.size_of off n y x.holds.blocks used r.0 r.1)
              (All-both (λ y. ptr ≢ y) (IsHeld x.chunks c.size_of) (erase ptr c.held)
                (ne-erase ptr c.held x.distinct)
                (All-erase (IsHeld x.chunks c.size_of) ptr c.held x.held_ok));
        distinct = Distinct-erase ptr c.held x.distinct;
      }

  Step-IsClient : {c d : Client} → Step c d → IsClient c → IsClient d
  Step-IsClient {c} (alloc size ptr h pos fits runs ne) x =
      serve-IsClient c x size ptr h
        (Mallocs-Served (kmalloc-Mallocs P c.heap x.chunks size x.holds pos fits) runs ne)
  Step-IsClient {c} (refuse size h pos fits runs) x = record {
    chunks = x.chunks;
    holds = Mallocs-IsHeap (kmalloc-Mallocs P c.heap x.chunks size x.holds pos fits) runs;
    held_ok = x.held_ok;
    distinct = x.distinct;
  }
  Step-IsClient {c} (give_back ptr h m runs) x =
      let (off, n, at, large, used) = All-mem (IsHeld x.chunks c.size_of) c.held x.held_ok m in
      rw at (free-IsClient c x off n h used (rw at at runs))

  pub Reach-IsClient : {c d : Client} → IsClient c → Reach c d → IsClient d
  Reach-IsClient x here = x
  Reach-IsClient x (next r s) = Step-IsClient s (Reach-IsClient x r)

  -- Through any sequence of calls of kmalloc, with sizes that are not 0 and not within 4112 of
  -- 2^32, and of kfree on what is held, starting on a well-formed heap of which nothing is held,
  -- the data of two held pointers never overlap.
  pub held-apart :
      (h : Heap State) (cs : List Chunk) {d : Client}
      → IsHeap P h cs
      → Reach (record { heap = h; held = []; size_of = λ x. 0 }) d
      → (a b : ℕ) → Mem a d.held
      → Mem b d.held
      → a ≢ b
      → (a + d.size_of a ≤ b) ⊎ (b + d.size_of b ≤ a)
  held-apart h cs {d} v r a b ma mb ne =
      let x = Reach-IsClient (record { chunks = cs; holds = v; held_ok = tt; distinct = tt }) r in
      let (o, n, at, large, used) = All-mem (IsHeld x.chunks d.size_of) d.held x.held_ok ma in
      let (p, k, at', large', used') = All-mem (IsHeld x.chunks d.size_of) d.held x.held_ok mb in
      let apart = UsedAt-apart o n p k x.chunks used used' (λ e. ne (omega (arith, at, at'))) in
      ground (arith, apart)
