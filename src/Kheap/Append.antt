-- ===== src/Kheap/Append.antt =====
-- The end of `kheap_extend`: the new block is linked behind the last one, or merged into it.
use simply_os.Base.{
  ℕ, zero, suc, ◌+◌, ◌≤◌, ◌<◌, Bool, true, false, List, [], ◌∷◌, ◌≡◌, refl, ◌∙◌, arith, ◌==◌,
  ==_refl, u32, All, length,
}
use simply_os.Kheap.Machine.{PageSource, Block, write, Heap, done}
use simply_os.Kheap.{walk_last, append_to}
use simply_os.Kheap.Chunks.{Chunk, chunk, IsChunk, join, grow}
use simply_os.Kheap.Chain.{
  Chain, Chain-end, link, Outside-write, Outside-trans, write_self, write-ne, Zone, Zone-part,
  load-ok, store-ok, Leaves, Leaves-behind,
}
use simply_os.Kheap.Split.{next_test}

-- The address of the last of some blocks, of which the first stands at `a`.
abbrev pub last_addr : ℕ → Chunk → List Chunk → ℕ
last_addr a c [] = a
last_addr a c (d ∷ ds) = last_addr (a + c.size) d ds

abbrev pub fresh : ℕ → Block
fresh n = record { size = n; is_free = true; next = 0; prev = 0 }

pub walk_last-lem :
    (P : PageSource) (h : Heap P.State) (fuel p a e : ℕ) (c : Chunk) (cs : List Chunk)
    → Zone P h.pages a e
    → All IsChunk (c ∷ cs)
    → Chain h.mem p a (c ∷ cs) e
    → length (c ∷ cs) < fuel
    → walk_last P fuel a h ≡ done (last_addr a c cs) h
unfolding walk_last
walk_last-lem P h zero p a e c cs z sizes ch enough = absurd (omega arith)
walk_last-lem P h (suc fuel) p a e c [] z sizes ch enough =
    let far = Chain-end h.mem p a (c ∷ []) ch in
    rw (load-ok P h a z (omega arith) (omega (arith, far, sizes.0)), ch.0)
walk_last-lem P h (suc fuel) p a e c (d ∷ ds) z sizes ch enough =
    let far = Chain-end h.mem p a (c ∷ d ∷ ds) ch in
    let some_next : (a + c.size == 0) ≡ false = next_test a c.size z.pos in
    rw (load-ok P h a z (omega arith) (omega (arith, far, sizes.0)), ch.0, some_next)
      (walk_last-lem P h fuel a (a + c.size) e d ds
        (Zone-part P (a + c.size) e z (omega arith) (omega arith)) sizes.1 ch.1 (omega arith))

module _ (P : PageSource) (h : Heap P.State) (p a e k n : ℕ) (z : Zone P h.pages a (e + n))
    (big : 24 ≤ n) (size : 24 ≤ k) (new : h.mem e ≡ fresh n) (end : a + k ≡ e) where
  -- The last block is free.
  append_free :
      h.mem a ≡ record { size = k; is_free = true; next = 0; prev = p }
      → Leaves
          (append_to P a e h)
          tt
          h
          a
          (e + n)
          (λ m. Chain m p a (join (chunk k true) (chunk n true ∷ [])) (e + n))
  unfolding append_to join
  append_free head =
      let near : u32 (a + k) ≡ e = omega (arith, z.small) in
      let sum : u32 (k + n) ≡ k + n = omega (arith, z.small) in
      let b : Block = record { size = k + n; is_free = true; next = 0; prev = p } in
      record {
        mem = write h.mem a b;
        runs =
            rw
              (
                load-ok P h a z (omega arith) (omega arith),
                head,
                load-ok P h e z (omega arith) (omega arith),
                new,
                near,
                ==_refl e,
                load-ok P h a z (omega arith) (omega arith),
                head,
                sum,
                store-ok P h a b z (omega arith) (omega arith),
              )
              refl;
        outside = Outside-write h.mem a b (omega arith) (omega arith);
        holds = (write_self h.mem a b, omega arith);
      }

  -- The last block is in use.
  append_used :
      h.mem a ≡ record { size = k; is_free = false; next = 0; prev = p }
      → Leaves
          (append_to P a e h)
          tt
          h
          a
          (e + n)
          (λ m. Chain m p a (join (chunk k false) (chunk n true ∷ [])) (e + n))
  unfolding append_to join
  append_used head =
      let b : Block = record { size = n; is_free = true; next = 0; prev = a } in
      let l : Block = record { size = k; is_free = false; next = e; prev = p } in
      let m1 = write h.mem e b in
      let h1 : Heap P.State = record h { mem = m1 } in
      record {
        mem = write m1 a l;
        runs =
            rw
              (
                load-ok P h a z (omega arith) (omega arith),
                head,
                load-ok P h e z (omega arith) (omega arith),
                load-ok P h e z (omega arith) (omega arith),
                new,
                store-ok P h e b z (omega arith) (omega arith),
                load-ok P h1 a z (omega arith) (omega arith),
                write-ne h.mem e a b (omega arith),
                head,
                store-ok P h1 a l z (omega arith) (omega arith),
              )
              refl;
        outside =
            Outside-trans (Outside-write h.mem e b (omega arith) (omega arith))
              (Outside-write m1 a l (omega arith) (omega arith));
        holds =
            rw end
              (write_self m1 a l, (write-ne m1 a e l (omega arith) ∙ write_self h.mem e b, refl));
      }

  append_one :
      (f : Bool)
      → h.mem a ≡ record { size = k; is_free = f; next = 0; prev = p }
      → Leaves
          (append_to P a e h)
          tt
          h
          a
          (e + n)
          (λ m. Chain m p a (join (chunk k f) (chunk n true ∷ [])) (e + n))
  append_one true head = append_free head
  append_one false head = append_used head

pub link-grow : (x n : ℕ) (c : Chunk) (cs : List Chunk) → link x (grow n (c ∷ cs)) ≡ x
unfolding grow join
link-grow x n c [] = ground arith
link-grow x n c (d ∷ ds) = refl

-- The new block behind any list of blocks.
pub append_to-Chain :
    (P : PageSource) (h : Heap P.State) (p a e n : ℕ) (c : Chunk) (cs : List Chunk)
    → Zone P h.pages a (e + n)
    → 24 ≤ n
    → All IsChunk (c ∷ cs)
    → Chain h.mem p a (c ∷ cs) e
    → h.mem e ≡ fresh n
    → Leaves
        (append_to P (last_addr a c cs) e h)
        tt
        h
        a
        (e + n)
        (λ m. Chain m p a (grow n (c ∷ cs)) (e + n))
unfolding grow
append_to-Chain P h p a e n c [] z big sizes ch new =
    append_one P h p a e c.size n z big sizes.0.0 new ch.1 c.free ch.0
append_to-Chain P h p a e n c (d ∷ ds) z big sizes ch new =
    Leaves-behind h p a (e + n) (e + n) c (d ∷ ds) (grow n (d ∷ ds)) sizes.0 ch.0
      (link-grow (a + c.size) n d ds)
      (append_to-Chain P h a (a + c.size) e n d ds
        (Zone-part P (a + c.size) (e + n) z (omega arith) (omega arith)) big sizes.1 ch.1 new)
