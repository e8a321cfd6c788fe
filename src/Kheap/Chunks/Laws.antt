-- ===== src/Kheap/Chunks/Laws.antt =====
-- The operations on chunks keep them blocks, keep their bytes, and leave no two free neighbours.
use simply_os.Base.{
  ℕ, ◌+◌, ◌-◌, Bool, true, false, ◌&&◌, List, [], ◌∷◌, ◌≡◌, refl, arith, ◌==◌, All, inl, inr, ◌≢◌,
  Bool-cases,
}
use simply_os.Kheap.Chunks.{
  Chunk, chunk, IsChunk, total, used_total, Coalesced, join, release, UsedAt,
}

abbrev pub head_free : List Chunk → Bool
head_free [] = false
head_free (c ∷ cs) = c.free

pub join-All : (c : Chunk) (cs : List Chunk) → All IsChunk (c ∷ cs) → All IsChunk (join c cs)
unfolding join
join-All c [] h = h
join-All c (d ∷ ds) h = ground arith

pub join-total : (c : Chunk) (cs : List Chunk) → total (join c cs) ≡ c.size + total cs
unfolding join
join-total c [] = refl
join-total c (d ∷ ds) = ground arith

pub join-used_total : (c : Chunk) (cs : List Chunk) → used_total (join c cs) ≡ used_total (c ∷ cs)
unfolding join
join-used_total c [] = refl
join-used_total c (d ∷ ds) = ground arith

pub join-head : (c : Chunk) (cs : List Chunk) → head_free (join c cs) ≡ c.free
unfolding join
join-head c [] = refl
join-head c (d ∷ ds) = ground arith

-- A block in front of others that are coalesced.
pub join-Coalesced : (c : Chunk) (cs : List Chunk) → Coalesced cs → Coalesced (join c cs)
unfolding join
join-Coalesced c [] h = tt
join-Coalesced c (d ∷ []) h = ground arith
join-Coalesced c (d ∷ f ∷ fs) h = ground arith

pub join-keep :
    (c : Chunk) (cs : List Chunk) → (c.free && head_free cs) ≡ false → join c cs ≡ c ∷ cs
unfolding join
join-keep c [] h = refl
join-keep c (d ∷ ds) h = rw h

pub Coalesced-cons :
    (c : Chunk) (cs : List Chunk)
    → (c.free && head_free cs) ≡ false
    → Coalesced cs
    → Coalesced (c ∷ cs)
Coalesced-cons c [] h k = tt
Coalesced-cons c (d ∷ ds) h k = (h, k)

pub Coalesced-tail : (c : Chunk) (cs : List Chunk) → Coalesced (c ∷ cs) → Coalesced cs
Coalesced-tail c [] k = tt
Coalesced-tail c (d ∷ ds) k = k.1

pub Coalesced-head :
    (c : Chunk) (cs : List Chunk) → Coalesced (c ∷ cs) → (c.free && head_free cs) ≡ false
Coalesced-head c [] k = ground arith
Coalesced-head c (d ∷ ds) k = k.0

pub release-All : (off : ℕ) (cs : List Chunk) → All IsChunk cs → All IsChunk (release off cs)
unfolding release
release-All off [] h = tt
release-All off (c ∷ cs) h = elim (Bool-cases (off == 0)) [
  | inl e ↦ rw e (join-All (chunk c.size true) cs h)
  | inr e ↦ rw e (join-All c _ (h.0, release-All (off - c.size) cs h.1))
]

pub release-total : (off : ℕ) (cs : List Chunk) → total (release off cs) ≡ total cs
unfolding release
release-total off [] = refl
release-total off (c ∷ cs) = ground (
  arith,
  join-total (chunk c.size true) cs,
  join-total c (release (off - c.size) cs),
  release-total (off - c.size) cs,
)

pub release-Coalesced : (off : ℕ) (cs : List Chunk) → Coalesced cs → Coalesced (release off cs)
unfolding release
release-Coalesced off [] h = tt
release-Coalesced off (c ∷ cs) h = elim (Bool-cases (off == 0)) [
  | inl e ↦ rw e (join-Coalesced (chunk c.size true) cs (Coalesced-tail c cs h))
  | inr e ↦ rw e (join-Coalesced c _ (release-Coalesced (off - c.size) cs (Coalesced-tail c cs h)))
]

-- Freeing a block that was in use gives back exactly its bytes.
pub release-used_total :
    (off n : ℕ) (cs : List Chunk)
    → All IsChunk cs
    → UsedAt off n cs
    → used_total (release off cs) + n ≡ used_total cs
unfolding release
release-used_total off n [] sizes h = absurd h
release-used_total off n (c ∷ cs) sizes (inl h) =
    ground (arith, join-used_total (chunk c.size true) cs)
release-used_total off n (c ∷ cs) sizes (inr h) = ground (
  arith,
  sizes.0,
  join-used_total c (release (off - c.size) cs),
  release-used_total (off - c.size) n cs sizes.1 h.1,
)

-- The first block stays free or in use if another one is released.
pub release-head :
    (off : ℕ) (c : Chunk) (cs : List Chunk) → off ≢ 0 → head_free (release off (c ∷ cs)) ≡ c.free
unfolding release
release-head off c cs h = ground (arith, join-head c (release (off - c.size) cs))
