-- ===== src/Libc/Print/Digits.antt =====
-- The digits that `print_uint` writes, read back.
use simply_os.Base.{
  append_nil, append_assoc, ◌⊎◌, ℕ, zero, suc, ◌+◌, ◌-◌, ◌*◌, ◌/◌, ◌%◌, ◌^◌, ◌≤◌, ◌<◌, ◌≡◌, refl,
  ◌∙◌, arith, Bool, true, false, List, [], ◌∷◌, ◌++◌, u8, u32, ltb, leb, ◌==◌, if◌then◌else◌,
  Bool-cases, inl, inr, All,
}
use native.Mathlib.Nat.{div-lt_iff_lt-mul, pow-zero, pow-suc, mod-lt}
use simply_os.Libc.Print.{print, eof, digit_char, digits_loop, print_uint, print_int}

-- The value of a digit of a base up to 16, and of digits behind a number.
abbrev pub digit_of : ℕ → ℕ
digit_of c = if ltb c 97 then c - 48 else c - 87

abbrev pub read : ℕ → ℕ → List ℕ → ℕ
read base start [] = start
read base start (c ∷ cs) = read base (start * base + digit_of c) cs

digit_of-digit_char : (d : ℕ) → d < 16 → digit_of (digit_char d) ≡ d
digit_of-digit_char d small = ground arith

abbrev pub IsBytes : List ℕ → Type 0
IsBytes = All (λ c. c < 256)

-- `print` of bytes succeeds, and writes them.
pub print-lem : (bytes out : List ℕ) → IsBytes bytes → print bytes out ≡ (true, out ++ bytes)
unfolding print
print-lem [] out small = rw (append_nil out) refl
print-lem (c ∷ cs) out small =
    let no_eof : (c == eof) ≡ false = ground (arith, small.0) in
    let byte : u8 c ≡ c = omega (arith, small.0) in
    rw (no_eof, byte)
      (print-lem cs (out ++ (c ∷ [])) small.1 ∙ rw (append_assoc out (c ∷ []) cs) refl)

pub digits_loop-IsBytes :
    (base room value : ℕ) (pos : List ℕ) → IsBytes pos → IsBytes (digits_loop base room value pos)
unfolding digits_loop
digits_loop-IsBytes base zero value pos small = small
digits_loop-IsBytes base (suc room) value pos small = elim (Bool-cases (value == 0)) [
  | inl e ↦ rw e small
  | inr e ↦ rw e (digits_loop-IsBytes base room (value / base) _ (omega arith, small))
]

div-mod : (base value : ℕ) → value / base * base + value % base ≡ value
div-mod base value = ground arith

read-digits_loop :
    (base room value : ℕ) (pos : List ℕ)
    → 2 ≤ base
    → base ≤ 16
    → value < base ^ room
    → read base 0 (digits_loop base room value pos) ≡ read base value pos
unfolding digits_loop
read-digits_loop base zero value pos two sixteen fits =
    let none_left : value ≡ 0 = omega (arith, pow-zero base) in rw none_left refl
read-digits_loop base (suc room) value pos two sixteen fits = elim (Bool-cases (value == 0)) [
  | inl e ↦ let none_left : value ≡ 0 = ground arith in rw (e, none_left) refl
  | inr e ↦
      let less : value / base < base ^ room =
        (div-lt_iff_lt-mul (omega arith)).1 (omega (arith, pow-suc base room)) in
      let digit : value % base < base = mod-lt value (omega arith) in
      rw
        (
          e,
          read-digits_loop base room (value / base) _ two sixteen less,
          digit_of-digit_char (value % base) (omega (arith, digit)),
          div-mod base value,
        )
        refl
]

-- What `print_uint` does with a base from 2 to 16: it succeeds, and writes digits whose value is the
-- number, if the number has at most 31 digits.
pub record Writes (base value : ℕ) (out : List ℕ) (r : Bool × List ℕ) : Type 0 where
  pub digits : List ℕ
  pub runs : r ≡ (true, out ++ digits)
  pub reads : read base 0 digits ≡ value
  pub bytes : IsBytes digits

pub print_uint-some :
    (base value : ℕ) (out : List ℕ)
    → 2 ≤ base
    → base ≤ 16
    → (value == 0) ≡ false
    → print_uint value base out ≡ print (digits_loop base 31 value []) out
unfolding print_uint
print_uint-some base value out two sixteen some_value = ground arith

pub print_uint-zero :
    (base : ℕ) (out : List ℕ) → 2 ≤ base → base ≤ 16 → print_uint 0 base out ≡ print (48 ∷ []) out
unfolding print_uint
print_uint-zero base out two sixteen = ground arith

zero_digit : (base : ℕ) → read base 0 (48 ∷ []) ≡ 0
zero_digit base = ground arith

pub print_uint-Writes :
    (base value : ℕ) (out : List ℕ)
    → 2 ≤ base
    → base ≤ 16
    → value < base ^ 31
    → Writes base value out (print_uint value base out)
print_uint-Writes base value out two sixteen fits = elim (Bool-cases (value == 0)) [
  | inl e ↦
      let none_left : value ≡ 0 = ground arith in
      rw none_left (record {
        digits = 48 ∷ [];
        runs = print_uint-zero base out two sixteen ∙ print-lem (48 ∷ []) out (omega arith, tt);
        reads = zero_digit base;
        bytes = (omega arith, tt);
      })
  | inr e ↦
      let small = digits_loop-IsBytes base 31 value [] tt in
      record {
        digits = digits_loop base 31 value [];
        runs = print_uint-some base value out two sixteen e ∙ print-lem _ out small;
        reads = read-digits_loop base 31 value [] two sixteen fits;
        bytes = small;
      }
]

-- `print_int` writes a minus and the digits of the negated number for a negative one, -2^31 among
-- them, and the digits otherwise.
pub print_int-negative :
    (value : ℕ) (out : List ℕ)
    → leb (2 ^ 31) value ≡ true
    → print_int value out ≡ print_uint (u32 (2 ^ 32 - 1 - value + 1)) 10 (out ++ (45 ∷ []))
unfolding print_int
print_int-negative value out e = rw (print-lem (45 ∷ []) out (omega arith, tt), e) refl

pub print_int-positive :
    (value : ℕ) (out : List ℕ)
    → leb (2 ^ 31) value ≡ false
    → print_int value out ≡ print_uint value 10 out
unfolding print_int
print_int-positive value out e = rw e refl

abbrev pub WritesInt : ℕ → List ℕ → Bool × List ℕ → Type 0
WritesInt value out r =
    (value < 2 ^ 31) × Writes 10 value out r
    ⊎ (2 ^ 31 ≤ value) × Writes 10 (2 ^ 32 - value) (out ++ (45 ∷ [])) r

-- print_int of a 32-bit word writes the digits of a number that is not negative, and a minus and
-- the digits of the negated number for a negative one, the least one among them.
pub print_int-WritesInt :
    (value : ℕ) (out : List ℕ) → value < 2 ^ 32 → WritesInt value out (print_int value out)
print_int-WritesInt value out word = elim (Bool-cases (leb (2 ^ 31) value)) [
  | inl negative ↦
      let low : 2 ^ 31 ≤ value = ground arith in
      let abs : u32 (2 ^ 32 - 1 - value + 1) ≡ 2 ^ 32 - value = omega arith in
      rw (print_int-negative value out negative, abs)
        (inr (
          low,
          print_uint-Writes 10 (2 ^ 32 - value) (out ++ (45 ∷ [])) (omega arith) (omega arith)
              (omega arith),
        ))
  | inr positive ↦
      let low : value < 2 ^ 31 = ground arith in
      rw (print_int-positive value out positive)
        (inl (low, print_uint-Writes 10 value out (omega arith) (omega arith) (omega arith)))
]
