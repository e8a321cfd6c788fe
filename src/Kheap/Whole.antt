-- ===== src/Kheap/Whole.antt =====
-- `kfree` and `kheap_used_bytes` on a whole heap.
use simply_os.Base.{
  ℕ, zero, suc, ◌+◌, ◌^◌, ◌≤◌, ◌<◌, false, List, [], ◌∷◌, ◌≡◌, refl, ◌∙◌, arith, ◌==◌,
  if◌then◌else◌, u32, ap, sym, subst, All, length,
}
use simply_os.Kheap.Machine.{PageSource, Heap, done}
use simply_os.Kheap.{kfree, sum_used, used_bytes, header_size, kheap_start, max_blocks}
use simply_os.Kheap.Chunks.{Chunk, IsChunk, total, used_total, release, UsedAt}
use simply_os.Kheap.Chunks.Laws.{release-All, release-Coalesced}
use simply_os.Kheap.Chain.{Chain, Chain-end, link, load-ok, Zone, Zone-part}
use simply_os.Kheap.Release.{kfree-Chain, link-release}
use simply_os.Kheap.State.{IsHeap, few_blocks}

link-release_any : (x off : ℕ) (cs : List Chunk) → link x (release off cs) ≡ link x cs
unfolding release
link-release_any x off [] = refl
link-release_any x off (c ∷ cs) = link-release x off c cs

module _ (P : PageSource) where
  open P use {State}

  -- On a well-formed heap kfree of the data of a block in use ends without a fault in the heap
  -- where that block is free and merged with its free neighbours.
  pub kfree-IsHeap :
      (h : Heap State) (cs : List Chunk) (off n : ℕ)
      → IsHeap P h cs
      → UsedAt off n cs
      → (h' : Heap State) × (kfree P (kheap_start + off + header_size) h ≡ done tt h')
        × IsHeap P h' (release off cs)
  kfree-IsHeap h cs off n v u =
      let r = kfree-Chain P h kheap_start h.end off n cs v.zone v.blocks v.coalesced v.chain u in
      (
        record h { mem = r.mem },
        r.runs,
        record {
          sound = v.sound;
          at_start = v.at_start;
          bound = v.bound;
          aligned = v.aligned;
          zone = v.zone;
          first = v.first ∙ sym (link-release_any kheap_start off cs);
          chain = r.holds;
          blocks = release-All off cs v.blocks;
          coalesced = release-Coalesced off cs v.coalesced;
        },
      )

  sum_used-lem :
      (h : Heap State) (fuel p a e used : ℕ) (cs : List Chunk)
      → Zone P h.pages a e
      → All IsChunk cs
      → Chain h.mem p a cs e
      → length cs < fuel
      → used + used_total cs < 2 ^ 32
      → sum_used P fuel (link a cs) used h ≡ done (used + used_total cs) h
  unfolding sum_used
  sum_used-lem h zero p a e used cs z sizes ch enough small = absurd (omega arith)
  sum_used-lem h (suc fuel) p a e used [] z sizes ch enough small =
      let sum : used + 0 ≡ used = omega arith in rw sum
  sum_used-lem h (suc fuel) p a e used (c ∷ cs) z sizes ch enough small =
      let far = Chain-end h.mem p a (c ∷ cs) ch in
      let here : (a == 0) ≡ false = ground (arith, z.pos) in
      let next : (if c.free then used else u32 (used + c.size))
          ≡ used + (if c.free then 0 else c.size) =
        ground arith in
      let sum : used + (if c.free then 0 else c.size) + used_total cs ≡ used + used_total (c ∷ cs) =
        omega arith in
      rw (here, load-ok P h a z (omega arith) (omega (arith, far, sizes.0)), ch.0, next, sym sum)
        (sum_used-lem h fuel a (a + c.size) e (used + (if c.free then 0 else c.size)) cs
          (Zone-part P (a + c.size) e z (omega arith) (omega arith)) sizes.1 ch.1 (omega arith)
          (omega arith))

  used_total-le : (cs : List Chunk) → used_total cs ≤ total cs
  used_total-le [] = omega arith
  used_total-le (c ∷ cs) = ground (arith, used_total-le cs)

  -- kheap_used_bytes on a well-formed heap ends without a fault and is the sum of the sizes of the
  -- blocks in use.
  pub used_bytes-lem :
      (h : Heap State) (cs : List Chunk) → IsHeap P h cs → used_bytes P h ≡ done (used_total cs) h
  unfolding used_bytes
  used_bytes-lem h cs v =
      let far = Chain-end h.mem 0 kheap_start cs v.chain in
      subst (λ x. sum_used P max_blocks x 0 h ≡ done (used_total cs) h) (sym v.first)
        (sum_used-lem h max_blocks 0 kheap_start h.end 0 cs v.zone v.blocks v.chain (few_blocks P v)
            (omega (arith, far, v.bound, used_total-le cs))
          ∙ ap (λ t. done t h) (omega arith))
