-- ===== src/Kheap/Split.antt =====
-- `kheap_split`: a free block is taken whole, or cut in two.
use simply_os.Base.{
  ℕ, ◌+◌, ◌-◌, ◌%◌, ◌^◌, ◌≤◌, ◌<◌, true, false, List, [], ◌∷◌, ◌≡◌, ◌≢◌, refl, ◌∙◌, arith, ◌==◌,
  All, u32, sub32, sym, ltb, lt→ltb, dec_lt,
}
use simply_os.Kheap.Machine.{PageSource, Block, Memory, write, Heap}
use simply_os.Kheap.{split}
use simply_os.Kheap.Chunks.{Chunk, chunk, IsChunk, carve}
use simply_os.Kheap.Chain.{
  Chain, Chain-end, Chain-Agree, link, Outside-write, Outside-trans, write_self, write-ne, Zone,
  load-ok, store-ok, Leaves,
}

short_test :
    (size needed : ℕ)
    → size < needed + 24
    → needed + 24 < 2 ^ 32
    → ltb size (u32 (needed + 24)) ≡ true
short_test size needed short fits = lt→ltb _ _ (omega arith)

long_test :
    (size needed : ℕ) → needed + 24 ≤ size → size < 2 ^ 32 → ltb size (u32 (needed + 24)) ≡ false
long_test size needed long fits = ground arith

pub next_test : (a n : ℕ) → 0 < a → (a + n == 0) ≡ false
next_test a n pos = ground arith

module _ (P : PageSource) (h : Heap P.State) (p a e needed : ℕ) (c : Chunk) where
  module _ (cs : List Chunk) where
    whole : Block
    whole = record { size = c.size; is_free = false; next = link (a + c.size) cs; prev = p }

    split-whole :
        Zone P h.pages a e
        → All IsChunk (c ∷ cs)
        → Chain h.mem p a (c ∷ cs) e
        → needed ≤ c.size
        → c.size < needed + 24
        → Leaves (split P a needed h) tt h a e (λ m. Chain m p a (chunk c.size false ∷ cs) e)
    unfolding split whole
    split-whole z sizes ch large short =
        let far = Chain-end h.mem p a (c ∷ cs) ch in
        let small : ltb c.size (u32 (needed + 24)) ≡ true =
          short_test c.size needed short (omega (arith, far, z.small)) in
        record {
          mem = write h.mem a whole;
          runs =
              rw
                (
                  load-ok P h a z (omega arith) (omega (arith, far, sizes.0)),
                  ch.0,
                  small,
                  load-ok P h a z (omega arith) (omega (arith, far, sizes.0)),
                  ch.0,
                  store-ok P h a whole z (omega arith) (omega (arith, far, sizes.0)),
                )
                refl;
          outside = Outside-write h.mem a whole (omega arith) (omega (arith, far, sizes.0));
          holds = (
            write_self h.mem a whole,
            Chain-Agree {m = h.mem} a (a + c.size) cs sizes.1
                (λ x lo hi. write-ne h.mem a x whole (omega (arith, sizes.0))) ch.1,
          );
        }

  left : ℕ → Block
  left next = record { size = needed; is_free = false; next = next; prev = p }

  remainder : ℕ → Block
  remainder next = record { size = c.size - needed; is_free = true; next = next; prev = a }

  module _ (z : Zone P h.pages a e) (large : needed + 24 ≤ c.size) (least : 24 ≤ needed)
      (units : needed % 8 ≡ 0) where
    large_test : a + c.size ≤ e → ltb c.size (u32 (needed + 24)) ≡ false
    large_test far = long_test c.size needed large (omega (arith, far, z.small))

    cut_last : Memory
    cut_last = write (write h.mem (a + needed) (remainder 0)) a (left (a + needed))

    split-last :
        All IsChunk (c ∷ [])
        → Chain h.mem p a (c ∷ []) e
        → Leaves
            (split P a needed h)
            tt
            h
            a
            e
            (λ m. Chain m p a (chunk needed false ∷ chunk (c.size - needed) true ∷ []) e)
    unfolding split cut_last left remainder
    split-last sizes ch =
        let far = Chain-end h.mem p a (c ∷ []) ch in
        let test = large_test (omega (arith, far)) in
        let diff : sub32 c.size needed ≡ c.size - needed = omega (arith, far, z.small) in
        let at_r : u32 (a + needed) ≡ a + needed = omega (arith, far, z.small) in
        let h1 : Heap P.State = record h { mem = write h.mem (a + needed) (remainder 0) } in
        record {
          mem = cut_last;
          runs =
              rw
                (
                  load-ok P h a z (omega arith) (omega (arith, far)),
                  ch.0,
                  test,
                  at_r,
                  diff,
                  store-ok P h (a + needed) (remainder 0) z (omega arith) (omega (arith, far)),
                  load-ok P h1 a z (omega arith) (omega (arith, far)),
                  write-ne h.mem (a + needed) a (remainder 0) (omega (arith, least)),
                  ch.0,
                  store-ok P h1 a (left (a + needed)) z (omega arith) (omega (arith, far)),
                )
                refl;
          outside =
              Outside-trans
                (Outside-write h.mem (a + needed) (remainder 0) (omega arith) (omega (arith, far)))
                (Outside-write (write h.mem (a + needed) (remainder 0)) a (left (a + needed))
                  (omega arith) (omega (arith, far)));
          holds = (
            write_self (write h.mem (a + needed) (remainder 0)) a (left (a + needed)),
            (
              write-ne (write h.mem (a + needed) (remainder 0)) a (a + needed) (left (a + needed))
                    (omega (arith, least))
                  ∙ write_self h.mem (a + needed) (remainder 0),
              omega (arith, far),
            ),
          );
        }

    module _ (f : Chunk) (fs : List Chunk) where
      far_block : ℕ
      far_block = a + c.size

      relinked : Block
      relinked = record {
        size = f.size;
        is_free = f.free;
        next = link (a + c.size + f.size) fs;
        prev = a + needed;
      }

      cut_middle : Memory
      cut_middle = write (write h.mem (a + needed) (remainder (a + c.size))) (a + c.size) relinked

      cut_more : Memory
      cut_more = write cut_middle a (left (a + needed))

      split-more :
          All IsChunk (c ∷ f ∷ fs)
          → Chain h.mem p a (c ∷ f ∷ fs) e
          → Leaves
              (split P a needed h)
              tt
              h
              a
              e
              (λ m. Chain m p a (chunk needed false ∷ chunk (c.size - needed) true ∷ f ∷ fs) e)
      unfolding split cut_more cut_middle relinked left remainder
      split-more sizes ch =
          let far = Chain-end h.mem p a (c ∷ f ∷ fs) ch in
          let f_size = sizes.1.0.0 in
          let test = large_test (omega (arith, far)) in
          let diff : sub32 c.size needed ≡ c.size - needed = omega (arith, far, z.small) in
          let at_r : u32 (a + needed) ≡ a + needed = omega (arith, far, z.small) in
          let some_next : (a + c.size == 0) ≡ false = next_test a c.size z.pos in
          let r = remainder (a + c.size) in
          let l = left (a + needed) in
          let m1 = write h.mem (a + needed) r in
          let h1 : Heap P.State = record h { mem = m1 } in
          let h2 : Heap P.State = record h { mem = cut_middle } in
          let sum : a + needed + (c.size - needed) ≡ a + c.size = omega arith in
          let r_ne_f : a + c.size ≢ a + needed = omega (arith, large) in
          let a_ne_r : a ≢ a + needed = omega (arith, least) in
          let a_ne_f : a ≢ a + c.size = omega (arith, large) in
          record {
            mem = cut_more;
            runs =
                rw
                  (
                    load-ok P h a z (omega arith) (omega (arith, far)),
                    ch.0,
                    test,
                    at_r,
                    diff,
                    store-ok P h (a + needed) r z (omega arith) (omega (arith, far)),
                    some_next,
                    load-ok P h1 (a + c.size) z (omega arith) (omega (arith, far, f_size)),
                    write-ne h.mem (a + needed) (a + c.size) r r_ne_f,
                    ch.1.0,
                    store-ok P h1 (a + c.size) relinked z (omega arith)
                        (omega (arith, far, f_size)),
                    load-ok P h2 a z (omega arith) (omega (arith, far)),
                    write-ne m1 (a + c.size) a relinked a_ne_f,
                    write-ne h.mem (a + needed) a r a_ne_r,
                    ch.0,
                    store-ok P h2 a l z (omega arith) (omega (arith, far)),
                  )
                  refl;
            outside =
                Outside-trans
                  (Outside-write h.mem (a + needed) r (omega arith) (omega (arith, far)))
                  (Outside-trans
                    (Outside-write m1 (a + c.size) relinked (omega arith)
                      (omega (arith, far, f_size)))
                    (Outside-write cut_middle a l (omega arith) (omega (arith, far))));
            holds = rw sum (
              write_self cut_middle a l,
              (
                write-ne cut_middle a (a + needed) l (λ q. a_ne_r (sym q))
                    ∙ write-ne m1 (a + c.size) (a + needed) relinked (λ q. r_ne_f (sym q))
                    ∙ write_self h.mem (a + needed) r,
                (
                  write-ne cut_middle a (a + c.size) l (λ q. a_ne_f (sym q))
                      ∙ write_self m1 (a + c.size) relinked,
                  Chain-Agree {m = h.mem} (a + c.size) (a + c.size + f.size) fs sizes.1.1
                      (λ x lo hi.
                        write-ne cut_middle a x l (omega (arith, large))
                        ∙ write-ne m1 (a + c.size) x relinked (omega (arith, f_size))
                        ∙ write-ne h.mem (a + needed) x r (omega (arith, large)))
                      ch.1.1,
                ),
              ),
            );
          }

-- `kheap_split` at a block that is large enough carves the chunk.
pub split-Chain :
    (P : PageSource) (h : Heap P.State) (p a e needed : ℕ) (c : Chunk) (cs : List Chunk)
    → Zone P h.pages a e
    → 24 ≤ needed
    → needed % 8 ≡ 0
    → All IsChunk (c ∷ cs)
    → Chain h.mem p a (c ∷ cs) e
    → needed ≤ c.size
    → Leaves (split P a needed h) tt h a e (λ m. Chain m p a (carve needed c cs) e)
unfolding carve
split-Chain P h p a e needed c cs z least units sizes ch large =
    elim (dec_lt c.size (needed + 24)) [
      | yes short ↦ rw (lt→ltb _ _ short) (split-whole P h p a e needed c cs z sizes ch large short)
      | no long ↦
          let test : ltb c.size (needed + 24) ≡ false = ground arith in
          rw test (cut cs z sizes ch (omega arith))
    ]
  where
    cut :
        (cs : List Chunk)
        → Zone P h.pages a e
        → All IsChunk (c ∷ cs)
        → Chain h.mem p a (c ∷ cs) e
        → needed + 24 ≤ c.size
        → Leaves
            (split P a needed h)
            tt
            h
            a
            e
            (λ m. Chain m p a (chunk needed false ∷ chunk (c.size - needed) true ∷ cs) e)
    cut [] z sizes ch long = split-last P h p a e needed c z long least units sizes ch
    cut (f ∷ fs) z sizes ch long = split-more P h p a e needed c z long least units f fs sizes ch
