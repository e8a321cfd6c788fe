-- ===== src/Kheap/Absorb.antt =====
-- One merge of `kheap_coalesce`: a block takes in the one behind it.
use simply_os.Base.{ℕ, ◌+◌, false, List, [], ◌∷◌, ◌≡◌, ◌≢◌, refl, ◌∙◌, arith, ◌==◌, All, u32, sym}
use simply_os.Kheap.Machine.{PageSource, Block, Memory, write, Heap}
use simply_os.Kheap.{absorb}
use simply_os.Kheap.Chunks.{Chunk, chunk, IsChunk}
use simply_os.Kheap.Chain.{
  Chain, Chain-end, Chain-Agree, link, Outside-write, Outside-trans, write_self, write-ne, Zone,
  load-ok, store-ok, Leaves,
}

module _ (P : PageSource) (h : Heap P.State) (p a e : ℕ) (c d : Chunk) where
  absorb-last :
      Zone P h.pages a e
      → All IsChunk (c ∷ d ∷ [])
      → Chain h.mem p a (c ∷ d ∷ []) e
      → Leaves
          (absorb P a (a + c.size) h)
          tt
          h
          a
          e
          (λ m. Chain m p a (chunk (c.size + d.size) c.free ∷ []) e)
  unfolding absorb
  absorb-last z sizes ch =
      let far = Chain-end h.mem p a (c ∷ d ∷ []) ch in
      let wide : u32 (c.size + d.size) ≡ c.size + d.size = omega (arith, z.small) in
      let b : Block = record { size = c.size + d.size; is_free = c.free; next = 0; prev = p } in
      record {
        mem = write h.mem a b;
        runs =
            rw
              (
                load-ok P h a z (omega arith) (omega (arith, sizes.0, sizes.1.0)),
                load-ok P h (a + c.size) z (omega arith) (omega (arith, sizes.0, sizes.1.0)),
                ch.0,
                ch.1.0,
                wide,
                store-ok P h a b z (omega arith) (omega (arith, sizes.0, sizes.1.0)),
              )
              refl;
        outside = Outside-write h.mem a b (omega arith) (omega (arith, sizes.0));
        holds = (write_self h.mem a b, omega (arith, ch.1.1));
      }

  module _ (f : Chunk) (fs : List Chunk) where
    -- The block after the two, which has to point back to the merged one.
    abbrev far_block : ℕ
    far_block = a + c.size + d.size

    merged : Block
    merged = record { size = c.size + d.size; is_free = c.free; next = far_block; prev = p }

    relinked : Block
    relinked = record {
      size = f.size;
      is_free = f.free;
      next = link (far_block + f.size) fs;
      prev = a;
    }

    after : Memory
    after = write (write h.mem a merged) far_block relinked

    absorb-more :
        Zone P h.pages a e
        → All IsChunk (c ∷ d ∷ f ∷ fs)
        → Chain h.mem p a (c ∷ d ∷ f ∷ fs) e
        → Leaves
            (absorb P a (a + c.size) h)
            tt
            h
            a
            e
            (λ m. Chain m p a (chunk (c.size + d.size) c.free ∷ f ∷ fs) e)
    unfolding absorb after merged relinked
    absorb-more z sizes ch =
        let far = Chain-end h.mem p a (c ∷ d ∷ f ∷ fs) ch in
        let wide : u32 (c.size + d.size) ≡ c.size + d.size = omega (arith, z.small) in
        let some_next : (far_block == 0) ≡ false = ground (arith, z.pos) in
        let sum : a + (c.size + d.size) ≡ far_block = omega arith in
        let apart : far_block ≢ a = omega (arith, sizes.0) in
        let h1 : Heap P.State = record h { mem = write h.mem a merged } in
        let rest_same : Chain after far_block (far_block + f.size) fs e =
          Chain-Agree {m = h.mem} far_block (far_block + f.size) fs sizes.1.1.1
            (λ x lo hi.
              write-ne (write h.mem a merged) far_block x relinked (omega (arith, sizes.1.1.0))
              ∙ write-ne h.mem a x merged (omega (arith, sizes.0)))
            ch.1.1.1 in
        record {
          mem = after;
          runs =
              rw
                (
                  load-ok P h a z (omega arith) (omega (arith, sizes.0, sizes.1.0)),
                  load-ok P h (a + c.size) z (omega arith) (omega (arith, far, sizes.1.0)),
                  ch.0,
                  ch.1.0,
                  wide,
                  store-ok P h a merged z (omega arith) (omega (arith, far, sizes.0)),
                  some_next,
                  load-ok P h1 far_block z (omega arith) (omega (arith, far, sizes.1.1.0)),
                  write-ne h.mem a far_block merged apart,
                  ch.1.1.0,
                  store-ok P h1 far_block relinked z (omega arith)
                      (omega (arith, far, sizes.1.1.0)),
                )
                refl;
          outside =
              Outside-trans
                (Outside-write h.mem a merged (omega arith) (omega (arith, far, sizes.0)))
                (Outside-write (write h.mem a merged) far_block relinked (omega arith)
                  (omega (arith, far, sizes.1.1.0)));
          holds = (
            write-ne (write h.mem a merged) far_block a relinked (λ q. apart (sym q))
                ∙ write_self h.mem a merged
                ∙ rw sum,
            rw sum (write_self (write h.mem a merged) far_block relinked, rest_same),
          );
        }

pub absorb-Chain :
    (P : PageSource) (h : Heap P.State) (p a e : ℕ) (c d : Chunk) (cs : List Chunk)
    → Zone P h.pages a e
    → All IsChunk (c ∷ d ∷ cs)
    → Chain h.mem p a (c ∷ d ∷ cs) e
    → Leaves
        (absorb P a (a + c.size) h)
        tt
        h
        a
        e
        (λ m. Chain m p a (chunk (c.size + d.size) c.free ∷ cs) e)
absorb-Chain P h p a e c d [] = absorb-last P h p a e c d
absorb-Chain P h p a e c d (f ∷ fs) = absorb-more P h p a e c d f fs
