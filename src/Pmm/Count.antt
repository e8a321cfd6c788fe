-- ===== src/Pmm/Count.antt =====
-- How many frames of a range are in use, and how a change of one frame changes the number.
use simply_os.Base.{
  ℕ, zero, suc, ◌+◌, ◌≤◌, ◌<◌, Bool, true, ◌≡◌, refl, ◌≢◌, arith, if◌then◌else◌, ℕ_discrete,
}

-- The number of frames below `n` for which `f` says true.
unfoldable pub count : (ℕ → Bool) → ℕ → ℕ
count f zero = 0
count f (suc n) = count f n + (if f n then 1 else 0)

pub count-le : (f : ℕ → Bool) (n : ℕ) → count f n ≤ n
unfolding count
count-le f zero = omega arith
count-le f (suc n) = ground (arith, count-le f n)

pub count-congr : (f g : ℕ → Bool) (n : ℕ) → ((j : ℕ) → j < n → f j ≡ g j) → count f n ≡ count g n
unfolding count
count-congr f g zero h = refl
count-congr f g (suc n) h = ground (arith, h n, count-congr f g n (λ j hj. h j (omega arith)))

-- Changing `f` at `k` alone changes the count by what is changed at `k`.
pub count-change :
    (f g : ℕ → Bool) (n k : ℕ)
    → k < n
    → ((j : ℕ) → j ≢ k → f j ≡ g j)
    → count f n + (if g k then 1 else 0) ≡ count g n + (if f k then 1 else 0)
unfolding count
count-change f g zero k hk h = absurd (omega arith)
count-change f g (suc n) k hk h = elim (ℕ_discrete n k) [
  | yes e ↦ rw e (ground (arith, count-congr f g k (λ j hj. h j (omega arith))))
  | no ne ↦ ground (arith, h n ne, count-change f g n k (omega arith) h)
]

pub count-all : (f : ℕ → Bool) (n : ℕ) → ((j : ℕ) → j < n → f j ≡ true) → count f n ≡ n
unfolding count
count-all f zero h = refl
count-all f (suc n) h = ground (arith, h n, count-all f n (λ j hj. h j (omega arith)))
