-- ===== src/Libc/Print/Numbers.antt =====
-- The count that `printf` returns for a number, and `puts`.
use simply_os.Base.{
  ℕ, zero, suc, ◌+◌, ◌-◌, ◌/◌, ◌%◌, ◌^◌, ◌≤◌, ◌<◌, ◌≡◌, refl, ◌∙◌, arith, true, false, List, [],
  ◌∷◌, ◌++◌, ◌==◌, Bool-cases, inl, inr, length, length-append, ltb,
}
use simply_os.Libc.Print.{
  print_int, digits_loop, digit_char, word, returns, int_max, when_printed, convert, print_literal,
  printf_loop, printf, puts,
}
use simply_os.Libc.Print.Digits.{
  IsBytes, print-lem, digits_loop-IsBytes, print_int-positive, print_uint-some,
}

length-digits_loop :
    (base room value : ℕ) (pos : List ℕ) → length pos ≤ length (digits_loop base room value pos)
unfolding digits_loop
length-digits_loop base zero value pos = omega arith
length-digits_loop base (suc room) value pos = elim (Bool-cases (value == 0)) [
  | inl e ↦ rw e (omega arith)
  | inr e ↦
      rw e (
        omega
          (arith, length-digits_loop base room (value / base) (digit_char (value % base) ∷ pos)))
]

digits_loop-some :
    (base room value : ℕ) (pos : List ℕ)
    → (value == 0) ≡ false
    → digits_loop base (suc room) value pos
      ≡ digits_loop base room (value / base) (digit_char (value % base) ∷ pos)
unfolding digits_loop
digits_loop-some base room value pos e = rw e refl

two_digits : (value : ℕ) → 10 ≤ value → 2 ≤ length (digits_loop 10 31 value [])
two_digits value large =
    let first = digits_loop-some 10 30 value [] (ground arith) in
    let second =
      digits_loop-some 10 29 (value / 10) (digit_char (value % 10) ∷ []) (ground arith) in
    rw (first, second)
      (length-digits_loop 10 29 (value / 10 / 10)
        (digit_char (value / 10 % 10) ∷ digit_char (value % 10) ∷ []))

printf_d :
    (value : ℕ) (out end : List ℕ)
    → print_int value out ≡ (true, end)
    → printf (37 ∷ 100 ∷ []) (word value ∷ []) out ≡ returns 1 end
unfolding printf printf_loop convert when_printed
printf_d value out end e = rw e refl

-- printf of "%d" with a number from 10 to 2^31 - 1 returns 1, although it writes at least two
-- characters.
pub printf-number :
    (value : ℕ) (out : List ℕ)
    → 10 ≤ value
    → value < 2 ^ 31
    → (end : List ℕ) × (printf (37 ∷ 100 ∷ []) (word value ∷ []) out ≡ returns 1 end)
      × (length out + 2 ≤ length end)
printf-number value out large positive =
    let digits = digits_loop 10 31 value [] in
    let run =
      print_int-positive value out (ground arith)
      ∙ print_uint-some 10 value out (omega arith) (omega arith) (ground arith)
      ∙ print-lem digits out (digits_loop-IsBytes 10 31 value [] tt) in
    (
      out ++ digits,
      printf_d value out (out ++ digits) run,
      omega (arith, length-append out digits, two_digits value large),
    )

-- `puts` writes the string and a newline, and returns their number, if `int` holds it.
pub puts-lem :
    (str out : List ℕ)
    → IsBytes str
    → length str + 1 ≤ int_max
    → puts str out ≡ returns (length str + 1) ((out ++ str) ++ (10 ∷ []))
unfolding puts printf printf_loop convert print_literal when_printed
puts-lem str out small fits =
    let room : ltb (int_max - 0) (length str) ≡ false = ground arith in
    let room2 : ltb (int_max - length str) 1 ≡ false = ground arith in
    let sum : 0 + length str ≡ length str = omega arith in
    rw
      (
        room,
        print-lem str out small,
        sum,
        room2,
        print-lem (10 ∷ []) (out ++ str) (omega arith, tt),
      )
      refl
