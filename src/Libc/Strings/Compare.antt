-- ===== src/Libc/Strings/Compare.antt =====
-- `memcmp` and `strlen`.
use simply_os.Base.{
  ℕ, zero, suc, ◌+◌, ◌^◌, ◌≤◌, ◌<◌, ◌≡◌, ◌≢◌, refl, arith, false, ltb, ◌==◌, some, ℕ_discrete,
  Bool-cases, inl, inr,
}
use simply_os.Libc.Strings.{
  Bytes, Order, before, same, behind, memcmp_loop, memcmp, strlen_loop, strlen,
}

-- The first byte in which two ranges differ decides; without one they are the same.
pub data Compares (a b size : ℕ) (mem : Bytes) : Order → Type 0 where
  equal : ((k : ℕ) → k < size → mem (a + k) ≡ mem (b + k)) → Compares a b size mem same
  less :
      (j : ℕ)
      → j < size
      → ((k : ℕ) → k < j → mem (a + k) ≡ mem (b + k))
      → mem (a + j) < mem (b + j)
      → Compares a b size mem before
  greater :
      (j : ℕ)
      → j < size
      → ((k : ℕ) → k < j → mem (a + k) ≡ mem (b + k))
      → mem (b + j) < mem (a + j)
      → Compares a b size mem behind

memcmp_loop-Compares :
    (a b left i size : ℕ) (mem : Bytes)
    → i + left ≡ size
    → ((k : ℕ) → k < i → mem (a + k) ≡ mem (b + k))
    → Compares a b size mem (memcmp_loop a b left i mem)
unfolding memcmp_loop
memcmp_loop-Compares a b zero i size mem sum so_far = equal (λ k inside. so_far k (omega arith))
memcmp_loop-Compares a b (suc left) i size mem sum so_far =
    elim (Bool-cases (ltb (mem (a + i)) (mem (b + i)))) [
      | inl lt ↦ rw lt (less i (omega arith) so_far (ground arith))
      | inr ge ↦ elim (Bool-cases (ltb (mem (b + i)) (mem (a + i)))) [
        | inl gt ↦ rw (ge, gt) (greater i (omega arith) so_far (ground arith))
        | inr le ↦
            let equal_here : mem (a + i) ≡ mem (b + i) = ground arith in
            rw (ge, le)
              (memcmp_loop-Compares a b left (i + 1) size mem (omega arith) (λ k inside.
                elim (ℕ_discrete k i) [
                  | yes here ↦ rw here equal_here
                  | no other ↦ so_far k (omega arith)
                ]))
      ]
    ]

-- memcmp orders two ranges by the first byte in which they differ, and calls them the same if
-- there is none.
pub memcmp-Compares : (a b size : ℕ) (mem : Bytes) → Compares a b size mem (memcmp a b size mem)
unfolding memcmp
memcmp-Compares a b size mem =
    memcmp_loop-Compares a b size 0 size mem (omega arith) (λ k inside. absurd (omega arith))

strlen_loop-lem :
    (str n fuel len : ℕ) (mem : Bytes)
    → len ≤ n
    → n < len + fuel
    → mem (str + n) ≡ 0
    → ((k : ℕ) → k < n → mem (str + k) ≢ 0)
    → strlen_loop str fuel len mem ≡ some n
unfolding strlen_loop
strlen_loop-lem str n zero len mem low enough end chars = absurd (omega arith)
strlen_loop-lem str n (suc fuel) len mem low enough end chars = elim (ℕ_discrete len n) [
  | yes here ↦ rw (here, end) refl
  | no other ↦
      let some_char : (mem (str + len) == 0) ≡ false = ground (arith, chars len (omega arith)) in
      rw some_char (strlen_loop-lem str n fuel (len + 1) mem (omega arith) (omega arith) end chars)
]

-- strlen ends, and is the number of characters before the first NUL, if that is within the address
-- space.
pub strlen-lem :
    (str n : ℕ) (mem : Bytes)
    → n < 2 ^ 32
    → mem (str + n) ≡ 0
    → ((k : ℕ) → k < n → mem (str + k) ≢ 0)
    → strlen str mem ≡ some n
unfolding strlen
strlen-lem str n mem small end chars =
    strlen_loop-lem str n (2 ^ 32) 0 mem (omega arith) (omega arith) end chars
