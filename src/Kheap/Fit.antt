-- ===== src/Kheap/Fit.antt =====
-- The search of `kmalloc` over the list is the first fit over the chunks.
use simply_os.Base.{
  ℕ, zero, suc, ◌+◌, ◌%◌, ◌≤◌, ◌<◌, true, false, Option, none, some, List, [], ◌∷◌, ◌≡◌, refl, inl,
  inr, arith, ◌==◌, All, u32, Bool-cases, length,
}
use simply_os.Kheap.Machine.{PageSource, Memory, Heap, Run, done, and_then}
use simply_os.Kheap.{pure, split, find_fit, header_size}
use simply_os.Kheap.Chunks.{Chunk, IsChunk, carve, fits, first_fit}
use simply_os.Kheap.Chain.{Chain, Chain-end, link, Zone, Zone-part, load-ok, Leaves}
use simply_os.Kheap.Split.{split-Chain}

-- `off` and `ds` are what the search over chunks found.
abbrev pub FindsFit :
    (P : PageSource)
    → Heap P.State
    → ℕ
    → ℕ
    → ℕ
    → Run P.State (Option ℕ)
    → Option (ℕ × List Chunk)
    → Type 0
FindsFit P h p a e run none = run ≡ done none h
FindsFit P h p a e run (some (off, ds)) =
    Leaves run (some (u32 (a + off + header_size))) h a e (λ m. Chain m p a ds e)

-- Behind a block that does not fit, the search goes on at the next.
FindsFit-cons :
    (P : PageSource) (h : Heap P.State) (p a e : ℕ) (c : Chunk) (cs : List Chunk)
    → (run : Run P.State (Option ℕ)) (r : Option (ℕ × List Chunk)) → IsChunk c
    → Chain h.mem p a (c ∷ cs) e
    → ((off : ℕ) (ds : List Chunk)
        → r ≡ some (off, ds)
        → link (a + c.size) ds ≡ link (a + c.size) cs)
    → FindsFit P h a (a + c.size) e run r
    → FindsFit P h p a e run (elim r [ none ↦ none | some (off, ds) ↦ some (c.size + off, c ∷ ds) ])
FindsFit-cons P h p a e c cs run none size ch same res = res
FindsFit-cons P h p a e c cs run (some (off, ds)) size ch same res =
    let sum : a + (c.size + off) ≡ a + c.size + off = omega arith in
    record {
      mem = res.mem;
      runs = rw sum res.runs;
      outside = λ x q. res.outside x (ground arith);
      holds = (rw (same off ds refl, res.outside a (inl (omega arith))) ch.0, res.holds);
    }

pub link-first_fit :
    (needed x : ℕ) (cs : List Chunk) (off : ℕ) (ds : List Chunk)
    → first_fit needed cs ≡ some (off, ds)
    → link x ds ≡ link x cs
unfolding first_fit carve
link-first_fit needed x [] off ds e = cc
link-first_fit needed x (c ∷ cs) off ds e = ground arith

fits→le : (needed : ℕ) (c : Chunk) → fits needed c ≡ true → needed ≤ c.size
fits→le needed c h = ground arith

-- The split, and then the pointer to the data.
Leaves-then :
    (P : PageSource) (h : Heap P.State) (a e needed : ℕ) (c : Chunk) (cs : List Chunk)
    {Q : Memory → Type 0}
    → Leaves (split P a needed h) tt h a e Q
    → Leaves
        (and_then (split P a needed h) (λ _. pure P (some (u32 (a + header_size)))))
        (some (u32 (a + 0 + header_size)))
        h
        a
        e
        Q
Leaves-then P h a e needed c cs s =
    let zero_off : a + 0 ≡ a = omega arith in
    record { mem = s.mem; runs = rw (s.runs, zero_off) refl; outside = s.outside; holds = s.holds }

pub find_fit-FindsFit :
    (P : PageSource) (h : Heap P.State) (needed fuel p a e : ℕ) (cs : List Chunk)
    → Zone P h.pages a e
    → 24 ≤ needed
    → needed % 8 ≡ 0
    → All IsChunk cs
    → Chain h.mem p a cs e
    → length cs < fuel
    → FindsFit P h p a e (find_fit P needed fuel (link a cs) h) (first_fit needed cs)
unfolding find_fit first_fit
find_fit-FindsFit P h needed zero p a e cs z least units sizes ch enough = absurd (omega arith)
find_fit-FindsFit P h needed (suc fuel) p a e [] z least units sizes ch enough = refl
find_fit-FindsFit P h needed (suc fuel) p a e (c ∷ cs) z least units sizes ch enough =
    let far = Chain-end h.mem p a (c ∷ cs) ch in
    let here : (a == 0) ≡ false = ground (arith, z.pos) in
    rw (here, load-ok P h a z (omega arith) (omega (arith, far, sizes.0)), ch.0)
      (elim (Bool-cases (fits needed c)) [
        | inl fit ↦ rw fit (
            Leaves-then P h a e needed c cs
              (split-Chain P h p a e needed c cs z least units sizes ch (fits→le needed c fit)))
        | inr miss ↦ rw miss (
            FindsFit-cons P h p a e c cs _ (first_fit needed cs) sizes.0 ch
              (link-first_fit needed (a + c.size) cs)
              (find_fit-FindsFit P h needed fuel a (a + c.size) e cs
                (Zone-part P (a + c.size) e z (omega arith) (omega arith)) least units sizes.1 ch.1
                (omega arith)))
      ])
