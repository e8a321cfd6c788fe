-- ===== src/Kheap/Chunks/Alloc.antt =====
-- The first fit and the growth of the heap over chunks.
use simply_os.Base.{
  ℕ, ◌+◌, ◌-◌, ◌%◌, ◌≤◌, true, false, Option, none, some, List, [], ◌∷◌, ◌≡◌, refl, arith, All, ◌⊎◌,
  inl, inr, ltb, Bool-cases,
}
use simply_os.Kheap.Chunks.{
  Chunk, chunk, IsChunk, total, used_total, Coalesced, carve, fits, first_fit, UsedAt,
}
use simply_os.Kheap.Chunks.Laws.{head_free, Coalesced-cons, Coalesced-tail, Coalesced-head}

-- What is found: a block in use of at least `needed` bytes at `off`, where every block that was in
-- use still is, at the same place, and lies apart from it.
pub record Taken (needed off : ℕ) (cs ds : List Chunk) : Type 0 where
  pub size : ℕ
  pub large : needed ≤ size
  pub used : UsedAt off size ds
  pub kept : (o n : ℕ) → UsedAt o n cs → UsedAt o n ds × ((o + n ≤ off) ⊎ (off + size ≤ o))
  pub blocks : All IsChunk ds
  pub same_total : total ds ≡ total cs
  pub more_used : used_total ds ≡ used_total cs + size
  pub coalesced : Coalesced ds
  pub same_head : head_free cs ≡ false → head_free ds ≡ false

-- A block in use is not the free one that is cut, and keeps its place behind both parts.
kept-behind :
    (needed o n : ℕ) (c : Chunk) (cs : List Chunk)
    → fits needed c ≡ true
    → UsedAt o n (c ∷ cs)
    → ltb c.size (needed + 24) ≡ false
    → UsedAt o n (chunk needed false ∷ chunk (c.size - needed) true ∷ cs)
      × ((o + n ≤ 0) ⊎ (0 + needed ≤ o))
kept-behind needed o n c cs fit (inl u) long = absurd (ground arith)
kept-behind needed o n c cs fit (inr u) long =
    let whole : needed + 24 ≤ c.size = ground arith in
    let same : o - needed - (c.size - needed) ≡ o - c.size = omega (arith, u.0) in
    (inr (omega (arith, u.0), inr (omega (arith, u.0), rw same u.1)), inr (omega (arith, u.0)))

carve-Taken :
    (needed : ℕ) (c : Chunk) (cs : List Chunk)
    → 24 ≤ needed
    → needed % 8 ≡ 0
    → fits needed c ≡ true
    → All IsChunk (c ∷ cs)
    → Coalesced (c ∷ cs)
    → Taken needed 0 (c ∷ cs) (carve needed c cs)
unfolding carve
carve-Taken needed c cs least units fit sizes co = elim (Bool-cases (ltb c.size (needed + 24))) [
  | inl short ↦ rw short (record {
    size = c.size;
    large = ground arith;
    used = inl (refl, refl, refl);
    kept = λ o n u. ground arith;
    blocks = sizes;
    same_total = refl;
    more_used = ground arith;
    coalesced = Coalesced-cons (chunk c.size false) cs refl (Coalesced-tail c cs co);
    same_head = λ e. refl;
  })
  | inr long ↦ rw long (record {
    size = needed;
    large = omega arith;
    used = inl (refl, refl, refl);
    kept = λ o n u. kept-behind needed o n c cs fit u long;
    blocks = ground arith;
    same_total = ground arith;
    more_used = ground arith;
    coalesced = (
      refl,
      Coalesced-cons (chunk (c.size - needed) true) cs (ground (arith, Coalesced-head c cs co))
          (Coalesced-tail c cs co),
    );
    same_head = λ e. refl;
  })
]

add-sub-left : (a b : ℕ) → a + b - a ≡ b
add-sub-left a b = omega arith

Taken-cons :
    (needed off : ℕ) (c : Chunk) (cs ds : List Chunk)
    → IsChunk c
    → Coalesced (c ∷ cs)
    → Taken needed off cs ds
    → Taken needed (c.size + off) (c ∷ cs) (c ∷ ds)
Taken-cons needed off c cs ds size co t = record {
  size = t.size;
  large = t.large;
  used = inr (omega arith, rw (add-sub-left c.size off) t.used);
  kept = kept-cons;
  blocks = (size, t.blocks);
  same_total = omega (arith, t.same_total);
  more_used = omega (arith, t.more_used);
  coalesced = Coalesced-cons c ds (ground (arith, Coalesced-head c cs co, t.same_head)) t.coalesced;
  same_head = λ e. e;
}
  where
    kept-cons :
        (o n : ℕ)
        → UsedAt o n (c ∷ cs)
        → UsedAt o n (c ∷ ds) × ((o + n ≤ c.size + off) ⊎ (c.size + off + t.size ≤ o))
    kept-cons o n (inl u) = (inl u, inl (omega arith))
    kept-cons o n (inr u) =
        let (stays, apart) = t.kept (o - c.size) n u.1 in (inr (u.0, stays), ground arith)

abbrev FitTaken : ℕ → List Chunk → Option (ℕ × List Chunk) → Type 0
FitTaken needed cs none = Unit
FitTaken needed cs (some (off, ds)) = Taken needed off cs ds

FitTaken-cons :
    (needed : ℕ) (c : Chunk) (cs : List Chunk) (r : Option (ℕ × List Chunk))
    → IsChunk c
    → Coalesced (c ∷ cs)
    → FitTaken needed cs r
    → FitTaken needed
        (c ∷ cs)
        (elim r [ none ↦ none | some (off, ds) ↦ some (c.size + off, c ∷ ds) ])
FitTaken-cons needed c cs none size co t = tt
FitTaken-cons needed c cs (some (off, ds)) size co t = Taken-cons needed off c cs ds size co t

first_fit-FitTaken :
    (needed : ℕ) (cs : List Chunk)
    → 24 ≤ needed
    → needed % 8 ≡ 0
    → All IsChunk cs
    → Coalesced cs
    → FitTaken needed cs (first_fit needed cs)
unfolding first_fit
first_fit-FitTaken needed [] least units sizes co = tt
first_fit-FitTaken needed (c ∷ cs) least units sizes co = elim (Bool-cases (fits needed c)) [
  | inl fit ↦ rw fit (carve-Taken needed c cs least units fit sizes co)
  | inr miss ↦ rw miss (
      FitTaken-cons needed c cs (first_fit needed cs) sizes.0 co
        (first_fit-FitTaken needed cs least units sizes.1 (Coalesced-tail c cs co)))
]

pub first_fit-Taken :
    (needed off : ℕ) (cs ds : List Chunk)
    → 24 ≤ needed
    → needed % 8 ≡ 0
    → All IsChunk cs
    → Coalesced cs
    → first_fit needed cs ≡ some (off, ds)
    → Taken needed off cs ds
first_fit-Taken needed off cs ds least units sizes co e =
    rw e at (first_fit-FitTaken needed cs least units sizes co)
