-- ===== src/Base/Bits.antt =====
-- Laws of `&` and `|` at every width. Both act digit by digit, so they split at any bit position.
mod Digit
use Digit.{bit_and_low, bit_or_low}
use Prim.Native.Nat.{
  ℕ, zero, suc, ◌+◌, ◌-◌, ◌*◌, ◌/◌, ◌%◌, ◌^◌, ◌≤◌, ◌<◌, bit_and, bit_or, min, max,
}
use mathlib.Core.Path.{◌≡◌, refl, ap, ap₂, ◌∙◌}
use native.Mathlib.Nat.{pow-suc, one-le-pow, mod-lt}
use native.Mathlib.Omega.{arith}

double : (q k : ℕ) → q * 2 ^ suc k ≡ 2 * (q * 2 ^ k)
double q k = omega (arith, ap (λ (t : ℕ). q * t) (pow-suc 2 k))

-- A digitwise operation on numbers cut at bit `k` is the operation on each part.
module _ (op bit : ℕ → ℕ → ℕ) (both_zero : op 0 0 ≡ 0)
    (low : (a b : ℕ) → op a b ≡ 2 * op (a / 2) (b / 2) + bit (a % 2) (b % 2)) where
  split :
      (k q r p s : ℕ)
      → r < 2 ^ k
      → s < 2 ^ k
      → op (q * 2 ^ k + r) (p * 2 ^ k + s) ≡ op q p * 2 ^ k + op r s
  split zero q r p s hr hs =
      let r0 : r ≡ 0 = omega arith in
      let s0 : s ≡ 0 = omega arith in
      let cut : op (q * 1 + r) (p * 1 + s) ≡ op q p = ap₂ op (omega arith) (omega arith) in
      rw (cut, r0, s0, both_zero) (omega arith)
  split (suc k) q r p s hr hs =
      let a = q * 2 ^ suc k + r in
      let b = p * 2 ^ suc k + s in
      let half_a : a / 2 ≡ q * 2 ^ k + r / 2 = omega (arith, double q k) in
      let half_b : b / 2 ≡ p * 2 ^ k + s / 2 = omega (arith, double p k) in
      let odd_a : a % 2 ≡ r % 2 = omega (arith, double q k) in
      let odd_b : b % 2 ≡ s % 2 = omega (arith, double p k) in
      let ih =
        split k q (r / 2) p (s / 2) (omega (arith, pow-suc 2 k)) (omega (arith, pow-suc 2 k)) in
      rw (low a b, half_a, half_b, odd_a, odd_b, ih, low r s) (omega (arith, double (op q p) k))

pub bit_and_split :
    (k q r p s : ℕ)
    → r < 2 ^ k
    → s < 2 ^ k
    → bit_and (q * 2 ^ k + r) (p * 2 ^ k + s) ≡ bit_and q p * 2 ^ k + bit_and r s
bit_and_split = split bit_and min refl bit_and_low

pub bit_or_split :
    (k q r p s : ℕ)
    → r < 2 ^ k
    → s < 2 ^ k
    → bit_or (q * 2 ^ k + r) (p * 2 ^ k + s) ≡ bit_or q p * 2 ^ k + bit_or r s
bit_or_split = split bit_or max refl bit_or_low

-- Induction on the digits, bounded by `n`.
module _ where
  and_zero_below : (n a : ℕ) → a ≤ n → bit_and a 0 ≡ 0
  and_zero_below n zero h = refl
  and_zero_below zero (suc a) h = absurd (omega arith)
  and_zero_below (suc n) (suc a) h =
      omega (arith, bit_and_low (suc a) 0, and_zero_below n (suc a / 2) (omega arith))

  or_zero_below : (n a : ℕ) → a ≤ n → bit_or a 0 ≡ a
  or_zero_below n zero h = refl
  or_zero_below zero (suc a) h = absurd (omega arith)
  or_zero_below (suc n) (suc a) h =
      omega (arith, bit_or_low (suc a) 0, or_zero_below n (suc a / 2) (omega arith))

  zero_or_below : (n a : ℕ) → a ≤ n → bit_or 0 a ≡ a
  zero_or_below n zero h = refl
  zero_or_below zero (suc a) h = absurd (omega arith)
  zero_or_below (suc n) (suc a) h =
      omega (arith, bit_or_low 0 (suc a), zero_or_below n (suc a / 2) (omega arith))

  zero_and_below : (n a : ℕ) → a ≤ n → bit_and 0 a ≡ 0
  zero_and_below n zero h = refl
  zero_and_below zero (suc a) h = absurd (omega arith)
  zero_and_below (suc n) (suc a) h =
      omega (arith, bit_and_low 0 (suc a), zero_and_below n (suc a / 2) (omega arith))

pub bit_and-zero : (a : ℕ) → bit_and a 0 ≡ 0
bit_and-zero a = and_zero_below a a (omega arith)

pub zero-bit_and : (a : ℕ) → bit_and 0 a ≡ 0
zero-bit_and a = zero_and_below a a (omega arith)

pub bit_or-zero : (a : ℕ) → bit_or a 0 ≡ a
bit_or-zero a = or_zero_below a a (omega arith)

pub zero-bit_or : (a : ℕ) → bit_or 0 a ≡ a
zero-bit_or a = zero_or_below a a (omega arith)

pub two-pow-pos : (k : ℕ) → 0 < 2 ^ k
two-pow-pos k = one-le-pow k 2 (omega arith)

-- `k` ones keep a number of `k` bits.
bit_and_ones : (k r : ℕ) → r < 2 ^ k → bit_and r (2 ^ k - 1) ≡ r
bit_and_ones zero r h = let r0 : r ≡ 0 = omega arith in rw r0
bit_and_ones (suc k) r h =
    let halves : (2 ^ suc k - 1) / 2 ≡ 2 ^ k - 1 = omega (arith, pow-suc 2 k, two-pow-pos k) in
    let odd : (2 ^ suc k - 1) % 2 ≡ 1 = omega (arith, pow-suc 2 k, two-pow-pos k) in
    rw
      (
        bit_and_low r (2 ^ suc k - 1),
        halves,
        odd,
        bit_and_ones k (r / 2) (omega (arith, pow-suc 2 k)),
      )
      (omega arith)

-- `a & (2^k - 1)` is the remainder by `2^k`.
pub bit_and_mask : (k a : ℕ) → bit_and a (2 ^ k - 1) ≡ a % 2 ^ k
bit_and_mask k a =
    let pos = two-pow-pos k in
    let cut : a ≡ a / 2 ^ k * 2 ^ k + a % 2 ^ k = ground arith in
    let s = bit_and_split k (a / 2 ^ k) (a % 2 ^ k) 0 (2 ^ k - 1) (mod-lt _ pos) (omega arith) in
    ap₂ bit_and cut (omega arith)
    ∙ s
    ∙ omega (
      arith,
      ap (λ (t : ℕ). t * 2 ^ k) (bit_and-zero (a / 2 ^ k)),
      bit_and_ones k (a % 2 ^ k) (mod-lt _ pos),
    )

-- `(q << k) | r` is a sum when `r` fits `k` bits.
pub bit_or_fields : (k q r : ℕ) → r < 2 ^ k → bit_or (q * 2 ^ k) r ≡ q * 2 ^ k + r
bit_or_fields k q r h =
    let s = bit_or_split k q 0 0 r (two-pow-pos k) h in
    ap₂ bit_or (omega arith) (omega arith)
    ∙ s
    ∙ omega (arith, ap (λ (t : ℕ). t * 2 ^ k) (bit_or-zero q), zero-bit_or r)

-- A mask of zeros below bit `k` clears those bits: `a & (p << k)` only sees `a >> k`.
pub bit_and_high : (k a p : ℕ) → bit_and a (p * 2 ^ k) ≡ bit_and (a / 2 ^ k) p * 2 ^ k
bit_and_high k a p =
    let pos = two-pow-pos k in
    let cut : a ≡ a / 2 ^ k * 2 ^ k + a % 2 ^ k = ground arith in
    let s = bit_and_split k (a / 2 ^ k) (a % 2 ^ k) p 0 (mod-lt _ pos) pos in
    ap₂ bit_and cut (omega arith) ∙ s ∙ omega (arith, bit_and-zero (a % 2 ^ k))

-- A test of one bit.
pub bit_and_bit : (k a : ℕ) → bit_and a (2 ^ k) ≡ (a / 2 ^ k) % 2 * 2 ^ k
bit_and_bit k a =
    ap (bit_and a) (omega arith)
    ∙ bit_and_high k a 1
    ∙ ap (λ t. t * 2 ^ k) (bit_and_mask 1 (a / 2 ^ k))
