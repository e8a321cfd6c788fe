-- ===== src/Kheap/Chunks/Release.antt =====
-- A release leaves the other blocks in use where they are.
use simply_os.Base.{
  ℕ, ◌+◌, ◌-◌, ◌≤◌, true, false, ◌&&◌, List, [], ◌∷◌, ◌≡◌, ◌≢◌, refl, arith, ◌==◌, All, ◌⊎◌, inl,
  inr, Bool-cases,
}
use simply_os.Kheap.Chunks.{Chunk, chunk, IsChunk, total, join, release, UsedAt}

join-UsedAt : (o k : ℕ) (c : Chunk) (cs : List Chunk) → UsedAt o k (c ∷ cs) → UsedAt o k (join c cs)
unfolding join
join-UsedAt o k c [] u = u
join-UsedAt o k c (d ∷ ds) u = elim (Bool-cases (c.free && d.free)) [
  | inl e ↦ rw e (behind e u)
  | inr e ↦ rw e u
]
  where
    behind :
        (c.free && d.free) ≡ true
        → UsedAt o k (c ∷ d ∷ ds)
        → UsedAt o k (chunk (c.size + d.size) true ∷ ds)
    behind e (inl u) = absurd (ground arith)
    behind e (inr (far, inl u)) = absurd (ground arith)
    behind e (inr (far, inr u)) =
        let same : o - c.size - d.size ≡ o - (c.size + d.size) = omega arith in
        inr (omega (arith, u.0), rw same at u.1)

UsedAt-behind :
    (o k : ℕ) (c d : Chunk) (cs : List Chunk)
    → c.size ≡ d.size
    → o ≢ 0
    → UsedAt o k (c ∷ cs)
    → UsedAt o k (d ∷ cs)
UsedAt-behind o k c d cs e ne (inl u) = absurd (ne u.0)
UsedAt-behind o k c d cs e ne (inr u) = inr (rw e at u)

pub release-UsedAt :
    (off n o k : ℕ) (cs : List Chunk)
    → All IsChunk cs
    → UsedAt off n cs
    → UsedAt o k cs
    → o ≢ off
    → UsedAt o k (release off cs)
unfolding release
release-UsedAt off n o k [] sizes r u ne = absurd u
release-UsedAt off n o k (c ∷ cs) sizes (inl r) u ne = rw r.0 (
    join-UsedAt o k (chunk c.size true) cs
      (UsedAt-behind o k c (chunk c.size true) cs refl (λ e. ne (ground arith)) u))
release-UsedAt off n o k (c ∷ cs) sizes (inr r) (inl u) ne =
    let far : (off == 0) ≡ false = ground (arith, sizes.0) in
    rw far (join-UsedAt o k c (release (off - c.size) cs) (inl u))
release-UsedAt off n o k (c ∷ cs) sizes (inr r) (inr u) ne =
    let far : (off == 0) ≡ false = ground (arith, sizes.0) in
    let rest =
      release-UsedAt (off - c.size) n (o - c.size) k cs sizes.1 r.1 u.1
        (λ e. ne (omega (arith, u.0, r.0))) in
    rw far (join-UsedAt o k c (release (off - c.size) cs) (inr (u.0, rest)))

pub UsedAt-end : (off n : ℕ) (cs : List Chunk) → UsedAt off n cs → off + n ≤ total cs
UsedAt-end off n [] u = absurd u
UsedAt-end off n (c ∷ cs) (inl u) = omega (arith, u)
UsedAt-end off n (c ∷ cs) (inr u) = omega (arith, u.0, UsedAt-end (off - c.size) n cs u.1)

-- Blocks in use at different offsets do not overlap.
pub UsedAt-apart :
    (o k p l : ℕ) (cs : List Chunk)
    → UsedAt o k cs
    → UsedAt p l cs
    → o ≢ p
    → (o + k ≤ p) ⊎ (p + l ≤ o)
UsedAt-apart o k p l [] u v ne = absurd u
UsedAt-apart o k p l (c ∷ cs) (inl u) (inl v) ne = absurd (omega arith)
UsedAt-apart o k p l (c ∷ cs) (inl u) (inr v) ne = inl (omega (arith, u, v.0))
UsedAt-apart o k p l (c ∷ cs) (inr u) (inl v) ne = inr (omega (arith, u.0, v))
UsedAt-apart o k p l (c ∷ cs) (inr u) (inr v) ne = ground (
  arith,
  UsedAt-apart (o - c.size) k (p - c.size) l cs u.1 v.1 (λ e. ne (omega (arith, u.0, v.0))),
)
