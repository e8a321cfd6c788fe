-- ===== src/Libc/Print/Render/Numerals.antt =====
-- The digits of a number, and that `print_uint` and `print_int` write them.
use simply_os.Base.{
  ℕ, zero, suc, ◌+◌, ◌-◌, ◌/◌, ◌%◌, ◌^◌, ◌≤◌, ◌≡◌, refl, ◌∙◌, sym, ap, arith, true, List, [], ◌∷◌,
  ◌++◌, u32, leb, ◌==◌, Bool-cases, inl, inr, length, append_assoc,
}
use simply_os.Libc.Print.{print, print_uint, print_int, digits_loop, digit_char}
use simply_os.Libc.Print.Digits.{
  IsBytes, print-lem, digits_loop-IsBytes, print_uint-some, print_uint-zero, print_int-negative,
  print_int-positive,
}
use simply_os.Libc.Print.Render.{numeral, signed}

pub numeral-IsBytes : (base w : ℕ) → IsBytes (numeral base w)
numeral-IsBytes base w = elim (Bool-cases (w == 0)) [
  | inl e ↦ rw e (omega arith, tt)
  | inr e ↦ rw e (digits_loop-IsBytes base 31 w [] tt)
]

pub print_uint-numeral :
    (base w : ℕ) (out : List ℕ)
    → 2 ≤ base
    → base ≤ 16
    → print_uint w base out ≡ print (numeral base w) out
print_uint-numeral base w out two sixteen = elim (Bool-cases (w == 0)) [
  | inl e ↦ let z : w ≡ 0 = ground arith in rw z (print_uint-zero base out two sixteen)
  | inr e ↦ print_uint-some base w out two sixteen e ∙ rw e refl
]

digits_loop-length :
    (base room value : ℕ) (pos : List ℕ) → length pos ≤ length (digits_loop base room value pos)
unfolding digits_loop
digits_loop-length base zero value pos = omega arith
digits_loop-length base (suc room) value pos = elim (Bool-cases (value == 0)) [
  | inl e ↦ rw e (omega arith)
  | inr e ↦
      rw e (
        omega
          (arith, digits_loop-length base room (value / base) (digit_char (value % base) ∷ pos)))
]

pub numeral-length : (base w : ℕ) → 1 ≤ length (numeral base w)
unfolding digits_loop
numeral-length base w = elim (Bool-cases (w == 0)) [
  | inl e ↦ rw e (omega arith)
  | inr e ↦ rw e (omega (arith, digits_loop-length base 30 (w / base) (digit_char (w % base) ∷ [])))
]

pub signed-IsBytes : (w : ℕ) → IsBytes (signed w)
signed-IsBytes w = elim (Bool-cases (leb (2 ^ 31) w)) [
  | inl e ↦ rw e (omega arith, numeral-IsBytes 10 (u32 (2 ^ 32 - 1 - w + 1)))
  | inr e ↦ rw e (numeral-IsBytes 10 w)
]

pub signed-length : (w : ℕ) → 1 ≤ length (signed w)
signed-length w = elim (Bool-cases (leb (2 ^ 31) w)) [
  | inl e ↦ rw e (omega arith)
  | inr e ↦ rw e (numeral-length 10 w)
]

pub print_int-signed : (w : ℕ) (out : List ℕ) → print_int w out ≡ print (signed w) out
print_int-signed w out = elim (Bool-cases (leb (2 ^ 31) w)) [
  | inl e ↦
      let v = u32 (2 ^ 32 - 1 - w + 1) in
      rw e (
        print_int-negative w out e
        ∙ print_uint-numeral 10 v (out ++ (45 ∷ [])) (omega arith) (omega arith)
        ∙ print-lem (numeral 10 v) (out ++ (45 ∷ [])) (numeral-IsBytes 10 v)
        ∙ ap (λ t. (true, t)) (append_assoc out (45 ∷ []) (numeral 10 v))
        ∙ sym (print-lem (45 ∷ numeral 10 v) out (omega arith, numeral-IsBytes 10 v)))
  | inr e ↦
      rw e (print_int-positive w out e ∙ print_uint-numeral 10 w out (omega arith) (omega arith))
]

digits_loop-room :
    (base room value : ℕ) (pos : List ℕ)
    → length (digits_loop base room value pos) ≤ room + length pos
unfolding digits_loop
digits_loop-room base zero value pos = omega arith
digits_loop-room base (suc room) value pos = elim (Bool-cases (value == 0)) [
  | inl e ↦ rw e (omega arith)
  | inr e ↦
      rw e
        (omega (arith, digits_loop-room base room (value / base) (digit_char (value % base) ∷ pos)))
]

pub numeral-room : (base w : ℕ) → length (numeral base w) ≤ 31
numeral-room base w = elim (Bool-cases (w == 0)) [
  | inl e ↦ rw e (omega arith)
  | inr e ↦ rw e (omega (arith, digits_loop-room base 31 w []))
]
