-- ===== src/Kheap/Free.antt =====
-- `kfree` on the list of blocks is the release of a chunk.
use simply_os.Base.{ℕ, ◌+◌, ◌≤◌, Bool, true, false, List, [], ◌∷◌, ◌≡◌, refl, arith, ◌==◌, All}
use simply_os.Kheap.Machine.{PageSource, Block, write, Heap, and_then}
use simply_os.Kheap.{load, store, merge_next, merge_prev}
use simply_os.Kheap.Chunks.{Chunk, chunk, IsChunk, join}
use simply_os.Kheap.Chain.{
  Chain, Chain-end, Chain-Agree, link, Outside-write, write_self, write-ne, Zone, load-ok, store-ok,
  Leaves, Leaves-pure,
}
use simply_os.Kheap.Absorb.{absorb-Chain}
use simply_os.Kheap.Split.{next_test}

module _ (P : PageSource) (h : Heap P.State) (p a e : ℕ) (c : Chunk) (cs : List Chunk)
    (z : Zone P h.pages a e) (sizes : All IsChunk (c ∷ cs)) (ch : Chain h.mem p a (c ∷ cs) e) where
  room : a + 24 ≤ e
  room = omega (arith, Chain-end h.mem p a (c ∷ cs) ch, sizes.0)

  freed : Block
  freed = record { size = c.size; is_free = true; next = link (a + c.size) cs; prev = p }

  pub set_free-Chain :
      Leaves
        (and_then (load P a h) (λ b. store P a (record b { is_free = true })))
        tt
        h
        a
        e
        (λ m. Chain m p a (chunk c.size true ∷ cs) e)
  unfolding freed
  set_free-Chain = record {
    mem = write h.mem a freed;
    runs =
        rw (load-ok P h a z (omega arith) room, ch.0, store-ok P h a freed z (omega arith) room)
          refl;
    outside = Outside-write h.mem a freed (omega arith) (omega (arith, room));
    holds = (
      write_self h.mem a freed,
      Chain-Agree {m = h.mem} a (a + c.size) cs sizes.1
          (λ x lo hi. write-ne h.mem a x freed (omega (arith, sizes.0))) ch.1,
    );
  }

module _ (P : PageSource) (h : Heap P.State) (p a e n : ℕ) where
  -- A free block whose successor is there and free, or in use.
  merge_next-two :
      (k : ℕ) (f : Bool) (cs : List Chunk)
      → Zone P h.pages a e
      → All IsChunk (chunk n true ∷ chunk k f ∷ cs)
      → Chain h.mem p a (chunk n true ∷ chunk k f ∷ cs) e
      → Leaves
          (merge_next P a h)
          tt
          h
          a
          e
          (λ m. Chain m p a (join (chunk n true) (chunk k f ∷ cs)) e)
  unfolding merge_next join
  merge_next-two k true cs z sizes ch =
      let far = Chain-end h.mem p a (chunk n true ∷ chunk k true ∷ cs) ch in
      let some_next : (a + n == 0) ≡ false = next_test a n z.pos in
      rw
        (
          load-ok P h a z (omega arith) (omega (arith, far, sizes.0)),
          ch.0,
          some_next,
          load-ok P h (a + n) z (omega arith) (omega (arith, far, sizes.1.0)),
          ch.1.0,
        )
        (absorb-Chain P h p a e (chunk n true) (chunk k true) cs z sizes ch)
  merge_next-two k false cs z sizes ch =
      let far = Chain-end h.mem p a (chunk n true ∷ chunk k false ∷ cs) ch in
      let some_next : (a + n == 0) ≡ false = next_test a n z.pos in
      rw
        (
          load-ok P h a z (omega arith) (omega (arith, far, sizes.0)),
          ch.0,
          some_next,
          load-ok P h (a + n) z (omega arith) (omega (arith, far, sizes.1.0)),
          ch.1.0,
        )
        (Leaves-pure ch)

  pub merge_next-Chain :
      (cs : List Chunk)
      → Zone P h.pages a e
      → All IsChunk (chunk n true ∷ cs)
      → Chain h.mem p a (chunk n true ∷ cs) e
      → Leaves (merge_next P a h) tt h a e (λ m. Chain m p a (join (chunk n true) cs) e)
  unfolding merge_next join
  merge_next-Chain [] z sizes ch =
      rw (load-ok P h a z (omega arith) (room P h p a e (chunk n true) [] z sizes ch), ch.0)
        (Leaves-pure ch)
  merge_next-Chain (d ∷ ds) z sizes ch = merge_next-two d.size d.free ds z sizes ch

  -- The block behind a first one, or in front of nothing, is joined to it.
  pub merge_prev-Chain :
      (f : Bool) (k : ℕ) (cs : List Chunk)
      → Zone P h.pages a e
      → All IsChunk (chunk n f ∷ chunk k true ∷ cs)
      → Chain h.mem p a (chunk n f ∷ chunk k true ∷ cs) e
      → Leaves
          (merge_prev P (a + n) h)
          tt
          h
          a
          e
          (λ m. Chain m p a (join (chunk n f) (chunk k true ∷ cs)) e)
  unfolding merge_prev join
  merge_prev-Chain true k cs z sizes ch =
      let far = Chain-end h.mem p a (chunk n true ∷ chunk k true ∷ cs) ch in
      let some_prev : (a == 0) ≡ false = ground (arith, z.pos) in
      rw
        (
          load-ok P h (a + n) z (omega arith) (omega (arith, far, sizes.1.0)),
          ch.1.0,
          some_prev,
          load-ok P h a z (omega arith) (omega (arith, far, sizes.0)),
          ch.0,
        )
        (absorb-Chain P h p a e (chunk n true) (chunk k true) cs z sizes ch)
  merge_prev-Chain false k cs z sizes ch =
      let far = Chain-end h.mem p a (chunk n false ∷ chunk k true ∷ cs) ch in
      let some_prev : (a == 0) ≡ false = ground (arith, z.pos) in
      rw
        (
          load-ok P h (a + n) z (omega arith) (omega (arith, far, sizes.1.0)),
          ch.1.0,
          some_prev,
          load-ok P h a z (omega arith) (omega (arith, far, sizes.0)),
          ch.0,
        )
        (Leaves-pure ch)

  -- The first block of the heap has none before it.
  pub merge_prev-first :
      (f : Bool) (cs : List Chunk)
      → Zone P h.pages a e
      → All IsChunk (chunk n f ∷ cs)
      → Chain h.mem 0 a (chunk n f ∷ cs) e
      → Leaves (merge_prev P a h) tt h a e (λ m. Chain m 0 a (chunk n f ∷ cs) e)
  unfolding merge_prev
  merge_prev-first f cs z sizes ch =
      rw (load-ok P h a z (omega arith) (room P h 0 a e (chunk n f) cs z sizes ch), ch.0)
        (Leaves-pure ch)
