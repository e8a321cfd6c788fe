-- ===== src/Kheap/Release.antt =====
-- `kfree` of a block in use, anywhere in the list.
use simply_os.Base.{
  ℕ, ◌+◌, ◌-◌, ◌<◌, true, false, List, [], ◌∷◌, ◌≡◌, refl, inl, inr, arith, ◌==◌, All, sub32,
  Bool-cases,
}
use simply_os.Kheap.Machine.{PageSource, Heap, Run, and_then}
use simply_os.Kheap.{load, store, merge_next, merge_prev, coalesce, kfree, header_size}
use simply_os.Kheap.Chunks.{Chunk, chunk, IsChunk, join, release, UsedAt, Coalesced}
use simply_os.Kheap.Chunks.Laws.{join-All, join-keep, release-head, Coalesced-head}
use simply_os.Kheap.Chunks.Release.{UsedAt-end}
use simply_os.Kheap.Chain.{
  Chain, Chain-end, link, Zone, Zone-part, Leaves, Leaves-bind, Leaves-cons,
}
use simply_os.Kheap.Split.{next_test}
use simply_os.Kheap.Free.{set_free-Chain, merge_next-Chain, merge_prev-Chain, merge_prev-first}

-- What `kfree` does with a block.
abbrev free_block : (P : PageSource) → ℕ → Heap P.State → Run P.State (Unit {0})
free_block P b h =
    and_then (and_then (load P b h) (λ c. store P b (record c { is_free = true })))
      (λ _. coalesce P b)

link-join : (x : ℕ) (c : Chunk) (cs : List Chunk) → link x (join c cs) ≡ x
unfolding join
link-join x c [] = refl
link-join x c (d ∷ ds) = ground arith

pub link-release : (x off : ℕ) (c : Chunk) (cs : List Chunk) → link x (release off (c ∷ cs)) ≡ x
unfolding release
link-release x off c cs =
    ground (arith, link-join x (chunk c.size true) cs, link-join x c (release (off - c.size) cs))

release-here : (c : Chunk) (cs : List Chunk) → release 0 (c ∷ cs) ≡ join (chunk c.size true) cs
unfolding release
release-here c cs = refl

release-behind :
    (off : ℕ) (c : Chunk) (cs : List Chunk)
    → 0 < c.size
    → release (c.size + off) (c ∷ cs) ≡ join c (release off cs)
unfolding release
release-behind off c cs pos =
    let behind : (c.size + off == 0) ≡ false = ground arith in
    let left : c.size + off - c.size ≡ off = omega arith in rw (behind, left)

join-shape :
    (n : ℕ) (cs : List Chunk)
    → (k : ℕ) × (r : List Chunk) × (join (chunk n true) cs ≡ chunk k true ∷ r)
unfolding join
join-shape n [] = (n, [], refl)
join-shape n (d ∷ ds) = elim (Bool-cases d.free) [
  | inl e ↦ (n + d.size, ds, rw e)
  | inr e ↦ (n, d ∷ ds, rw e)
]

coalesce-parts :
    (P : PageSource) (b : ℕ) (h : Heap P.State)
    → coalesce P b h ≡ and_then (merge_next P b h) (λ _. merge_prev P b)
unfolding coalesce
coalesce-parts P b h = refl

module _ (P : PageSource) where
  -- The first block of the heap.
  free_first :
      (h : Heap P.State) (a e : ℕ) (c : Chunk) (cs : List Chunk)
      → Zone P h.pages a e
      → All IsChunk (c ∷ cs)
      → Chain h.mem 0 a (c ∷ cs) e
      → Leaves (free_block P a h) tt h a e (λ m. Chain m 0 a (join (chunk c.size true) cs) e)
  free_first h a e c cs z sizes ch =
      let (k, r, shape) = join-shape c.size cs in
      let joined : All IsChunk (chunk k true ∷ r) =
        rw shape at (join-All (chunk c.size true) cs sizes) in
      Leaves-bind (λ _. coalesce P a) (set_free-Chain P h 0 a e c cs z sizes ch)
        λ m1 q1. rw coalesce-parts (
          Leaves-bind (λ _. merge_prev P a)
            (merge_next-Chain P (record h { mem = m1 }) 0 a e c.size cs z sizes q1)
            λ m2 q2.
              rw shape (
                merge_prev-first P (record h { mem = m2 }) 0 a e k true r z joined
                  (rw shape at q2)))

  -- The block behind another one.
  free_second :
      (h : Heap P.State) (p a e : ℕ) (c d : Chunk) (ds : List Chunk)
      → Zone P h.pages a e
      → All IsChunk (c ∷ d ∷ ds)
      → Chain h.mem p a (c ∷ d ∷ ds) e
      → Leaves
          (free_block P (a + c.size) h)
          tt
          h
          a
          e
          (λ m. Chain m p a (join c (join (chunk d.size true) ds)) e)
  free_second h p a e c d ds z sizes ch =
      let (k, r, shape) = join-shape d.size ds in
      let b = a + c.size in
      let zb = Zone-part P b e z (omega arith) (omega arith) in
      let joined : All IsChunk (chunk k true ∷ r) =
        rw shape at (join-All (chunk d.size true) ds sizes.1) in
      Leaves-bind (λ _. coalesce P b)
        (Leaves-cons h p a e c (d ∷ ds) (chunk d.size true ∷ ds) sizes.0 ch refl
          (set_free-Chain P h a b e d ds zb sizes.1 ch.1))
        λ m1 q1. rw coalesce-parts (
          Leaves-bind (λ _. merge_prev P b)
            (Leaves-cons (record h { mem = m1 }) p a e c (chunk d.size true ∷ ds)
              (join (chunk d.size true) ds) sizes.0 q1 (link-join b (chunk d.size true) ds)
              (merge_next-Chain P (record h { mem = m1 }) a b e d.size ds zb sizes.1 q1.1))
            λ m2 q2. rw shape (
              merge_prev-Chain P (record h { mem = m2 }) p a e c.size c.free k r z (sizes.0, joined)
                (rw shape at q2)))

  -- A block further on: those before it stay as they are.
  free_behind :
      (h : Heap P.State) (p a e off n : ℕ) (c : Chunk) (cs : List Chunk)
      → Zone P h.pages a e
      → All IsChunk (c ∷ cs)
      → Coalesced (c ∷ cs)
      → Chain h.mem p a (c ∷ cs) e
      → UsedAt off n cs
      → Leaves
          (free_block P (a + (c.size + off)) h)
          tt
          h
          a
          e
          (λ m. Chain m p a (release (c.size + off) (c ∷ cs)) e)
  free_behind h p a e off n c [] z sizes co ch u = absurd u
  free_behind h p a e off n c (d ∷ ds) z sizes co ch (inl u) =
      let at : a + (c.size + 0) ≡ a + c.size = omega arith in
      rw (u.0, release-behind 0 c (d ∷ ds) (omega (arith, sizes.0)), release-here d ds, at)
        (free_second h p a e c d ds z sizes ch)
  free_behind h p a e off n c (d ∷ ds) z sizes co ch (inr u) =
      let rest = off - d.size in
      let cut : d.size + rest ≡ off = omega (arith, u.0) in
      let at : a + (c.size + off) ≡ a + c.size + off = omega arith in
      let keep : join c (release off (d ∷ ds)) ≡ c ∷ release off (d ∷ ds) = join-keep c _ (
        rw (release-head off d ds (omega (arith, u.0, sizes.1.0)))
          (Coalesced-head c (d ∷ ds) co)) in
      let zb = Zone-part P (a + c.size) e z (omega arith) (omega arith) in
      rw (release-behind off c (d ∷ ds) (omega (arith, sizes.0)), keep, at)
        (Leaves-cons h p a e c (d ∷ ds) (release off (d ∷ ds)) sizes.0 ch
          (link-release (a + c.size) off d ds)
          (rw cut at (free_behind h a (a + c.size) e rest n d ds zb sizes.1 co.1 ch.1 u.1)))

  at_block :
      (h : Heap P.State) (a e off n : ℕ) (c : Chunk) (cs : List Chunk)
      → Zone P h.pages a e
      → All IsChunk (c ∷ cs)
      → Coalesced (c ∷ cs)
      → Chain h.mem 0 a (c ∷ cs) e
      → UsedAt off n (c ∷ cs)
      → Leaves (free_block P (a + off) h) tt h a e (λ m. Chain m 0 a (release off (c ∷ cs)) e)
  at_block h a e off n c cs z sizes co ch (inl u) =
      let here : a + 0 ≡ a = omega arith in
      rw (u.0, here, release-here c cs) (free_first h a e c cs z sizes ch)
  at_block h a e off n c cs z sizes co ch (inr u) =
      let cut : c.size + (off - c.size) ≡ off = omega (arith, u.0) in
      rw cut at (free_behind h 0 a e (off - c.size) n c cs z sizes co ch u.1)

  -- `kfree` of the data of a block in use, `off` bytes into the heap.
  pub kfree-Chain :
      (h : Heap P.State) (a e off n : ℕ) (cs : List Chunk)
      → Zone P h.pages a e
      → All IsChunk cs
      → Coalesced cs
      → Chain h.mem 0 a cs e
      → UsedAt off n cs
      → Leaves (kfree P (a + off + header_size) h) tt h a e (λ m. Chain m 0 a (release off cs) e)
  unfolding kfree
  kfree-Chain h a e off n [] z sizes co ch u = absurd u
  kfree-Chain h a e off n (c ∷ cs) z sizes co ch u =
      let far = Chain-end h.mem 0 a (c ∷ cs) ch in
      let inside = UsedAt-end off n (c ∷ cs) u in
      let ptr : (a + off + header_size == 0) ≡ false =
        next_test (a + off) header_size (omega (arith, z.pos)) in
      let back : sub32 (a + off + header_size) header_size ≡ a + off =
        omega (arith, z.small, far, inside) in
      rw (ptr, back) (at_block h a e off n c cs z sizes co ch u)
