-- ===== src/Pmm/Bitmap.antt =====
-- One bit of a byte of the bitmap, read after a bit was set or cleared.
use simply_os.Base.{
  ℕ, ◌-◌, ◌^◌, ◌<◌, bit_and, bit_or, Bool, true, false, not, ◌||◌, ◌≡◌, refl, arith, u8, ◌==◌,
  ==_iff, if◌then◌else◌,
}
use simply_os.Base.Loops.{every, every_lookup}

abbrev pub bit_at : ℕ → ℕ → Bool
bit_at b i = not (bit_and b (2 ^ i) == 0)

abbrev same : Bool → Bool → Bool
same true y = y
same false y = not y

eq_of_same : (x y : Bool) → same x y ≡ true → x ≡ y
eq_of_same true y h = ground arith
eq_of_same false y h = ground arith

abbrev set_bit : ℕ → ℕ → ℕ
set_bit b i = u8 (bit_or b (2 ^ i))

abbrev clear_bit : ℕ → ℕ → ℕ
clear_bit b i = u8 (bit_and b (2 ^ 32 - 1 - 2 ^ i))

-- A check of every byte, and of every pair of bits of it.
abbrev set_row : ℕ → ℕ → ℕ → Bool
set_row i j b = same (bit_at (set_bit b i) j) (if j == i then true else bit_at b j)

abbrev clear_row : ℕ → ℕ → ℕ → Bool
clear_row i j b = same (bit_at (clear_bit b i) j) (if j == i then false else bit_at b j)

abbrev back_row : ℕ → ℕ → Bool
back_row i b = bit_at b i || (clear_bit (set_bit b i) i == b)

set_table : every 8 (λ i. every 8 (λ j. every 256 (set_row i j))) ≡ true
unfolding every
set_table = refl

clear_table : every 8 (λ i. every 8 (λ j. every 256 (clear_row i j))) ≡ true
unfolding every
clear_table = refl

back_table : every 8 (λ i. every 256 (back_row i)) ≡ true
unfolding every
back_table = refl

module _ (b i : ℕ) (b_byte : b < 256) (i_bit : i < 8) where
  pub bit_at-set_bit :
      (j : ℕ) → j < 8 → bit_at (u8 (bit_or b (2 ^ i))) j ≡ (if j == i then true else bit_at b j)
  bit_at-set_bit j hj = eq_of_same _ _ (
      every_lookup 256 (set_row i j) b
        (every_lookup 8 (λ j. every 256 (set_row i j)) j
          (every_lookup 8 (λ i. every 8 (λ j. every 256 (set_row i j))) i set_table i_bit) hj)
        b_byte)

  pub bit_at-clear_bit :
      (j : ℕ)
      → j < 8
      → bit_at (u8 (bit_and b (2 ^ 32 - 1 - 2 ^ i))) j ≡ (if j == i then false else bit_at b j)
  bit_at-clear_bit j hj = eq_of_same _ _ (
      every_lookup 256 (clear_row i j) b
        (every_lookup 8 (λ j. every 256 (clear_row i j)) j
          (every_lookup 8 (λ i. every 8 (λ j. every 256 (clear_row i j))) i clear_table i_bit) hj)
        b_byte)

  -- Clearing a bit that was set into its place gives the byte back.
  pub clear_bit-set_bit :
      bit_at b i ≡ false → u8 (bit_and (u8 (bit_or b (2 ^ i))) (2 ^ 32 - 1 - 2 ^ i)) ≡ b
  clear_bit-set_bit clear = (==_iff _ b).0 (
      rw clear at (
        every_lookup 256 (back_row i) b
          (every_lookup 8 (λ i. every 256 (back_row i)) i back_table i_bit) b_byte))
