-- ===== src/Kheap/Chunks/Growth.antt =====
-- The growth of the heap over chunks.
use simply_os.Base.{
  ℕ, ◌+◌, ◌-◌, ◌≤◌, true, none, List, [], ◌∷◌, ◌≡◌, refl, arith, All, inl, inr, ◌≢◌,
}
use simply_os.Kheap.Chunks.{
  Chunk, chunk, IsChunk, total, used_total, Coalesced, first_fit, join, grow, UsedAt,
}
use simply_os.Kheap.Chunks.Laws.{
  head_free, join-All, join-total, join-used_total, join-Coalesced, Coalesced-cons,
}

pub grow-All :
    (n : ℕ) (cs : List Chunk) → IsChunk (chunk n true) → All IsChunk cs → All IsChunk (grow n cs)
unfolding grow
grow-All n [] new sizes = (new, tt)
grow-All n (c ∷ []) new sizes = join-All c (chunk n true ∷ []) (sizes.0, (new, tt))
grow-All n (c ∷ d ∷ cs) new sizes = (sizes.0, grow-All n (d ∷ cs) new sizes.1)

pub grow-total : (n : ℕ) (cs : List Chunk) → total (grow n cs) ≡ total cs + n
unfolding grow
grow-total n [] = omega arith
grow-total n (c ∷ []) = omega (arith, join-total c (chunk n true ∷ []))
grow-total n (c ∷ d ∷ cs) = omega (arith, grow-total n (d ∷ cs))

pub grow-used_total : (n : ℕ) (cs : List Chunk) → used_total (grow n cs) ≡ used_total cs
unfolding grow
grow-used_total n [] = refl
grow-used_total n (c ∷ []) = ground (arith, join-used_total c (chunk n true ∷ []))
grow-used_total n (c ∷ d ∷ cs) = omega (arith, grow-used_total n (d ∷ cs))

grow-head : (n : ℕ) (c : Chunk) (cs : List Chunk) → head_free (grow n (c ∷ cs)) ≡ c.free
unfolding grow join
grow-head n c [] = ground arith
grow-head n c (d ∷ ds) = refl

pub grow-Coalesced : (n : ℕ) (cs : List Chunk) → Coalesced cs → Coalesced (grow n cs)
unfolding grow
grow-Coalesced n [] co = tt
grow-Coalesced n (c ∷ []) co = join-Coalesced c (chunk n true ∷ []) tt
grow-Coalesced n (c ∷ d ∷ cs) co =
    Coalesced-cons c (grow n (d ∷ cs)) (rw grow-head co.0) (grow-Coalesced n (d ∷ cs) co.1)

pub grow-UsedAt : (n : ℕ) (cs : List Chunk) (o k : ℕ) → UsedAt o k cs → UsedAt o k (grow n cs)
unfolding grow join
grow-UsedAt n [] o k u = absurd u
grow-UsedAt n (c ∷ []) o k (inl u) = rw u.2 (inl (u.0, u.1, refl))
grow-UsedAt n (c ∷ []) o k (inr u) = absurd u.1
grow-UsedAt n (c ∷ d ∷ cs) o k (inl u) = inl u
grow-UsedAt n (c ∷ d ∷ cs) o k (inr u) = inr (u.0, grow-UsedAt n (d ∷ cs) (o - c.size) k u.1)

-- New bytes that are enough are found.
pub first_fit-grow :
    (needed n : ℕ) (cs : List Chunk) → needed ≤ n → first_fit needed (grow n cs) ≢ none
unfolding first_fit grow join
first_fit-grow needed n [] h e = ground arith
first_fit-grow needed n (c ∷ []) h e = ground arith
first_fit-grow needed n (c ∷ d ∷ cs) h e = ground (arith, first_fit-grow needed n (d ∷ cs) h)
