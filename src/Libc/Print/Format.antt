-- ===== src/Libc/Print/Format.antt =====
-- What `printf` returns.
use simply_os.Base.{
  ℕ, zero, suc, ◌+◌, ◌-◌, ◌≤◌, ◌≡◌, refl, arith, Bool, true, false, not, ◌&&◌, ◌||◌, List, [], ◌∷◌,
  ◌++◌, u8, ltb, ◌==◌, Bool-cases, inl, inr, All, length, length-append,
}
use simply_os.Libc.Print.{
  print, digits_loop, Arg, word, text, Result, returns, fails, undefined, unfinished, int_max,
  literal, when_printed, print_u, convert, is_conversion, print_percent, print_literal, printf_loop,
  printf,
}
use simply_os.Libc.Print.Digits.{IsBytes, print-lem, digits_loop-IsBytes}

abbrev pub IsArg : Arg → Type 0
IsArg (word w) = Unit
IsArg (text str) = IsBytes str

-- Where the run returns, the count grew by the number of characters that were written.
abbrev pub Counts : ℕ → List ℕ → Result → Type 0
Counts written out (returns n end) = n + length out ≡ written + length end
Counts written out (fails end) = Unit
Counts written out undefined = Unit
Counts written out unfinished = Unit

-- No `%` before `d`, `x` or `p`.
abbrev pub plain : List ℕ → Bool
plain [] = true
plain (c ∷ []) = true
plain (c ∷ d ∷ cs) = not (c == 37 && (d == 100 || d == 120 || d == 112)) && plain (d ∷ cs)

Counts-shift :
    (written out_len : ℕ) (out chars : List ℕ) (r : Result)
    → Counts (written + length chars) (out ++ chars) r
    → Counts written out r
Counts-shift written n out chars (returns k end) h = omega (arith, h, length-append out chars)
Counts-shift written n out chars (fails end) h = tt
Counts-shift written n out chars undefined h = tt
Counts-shift written n out chars unfinished h = tt

when_printed-Counts :
    (chars : List ℕ) (written : ℕ) (out : List ℕ) (next : List ℕ → Result)
    → IsBytes chars
    → ((end : List ℕ) → Counts (written + length chars) end (next end))
    → Counts written out (when_printed (print chars out) next)
unfolding when_printed
when_printed-Counts chars written out next small go =
    rw (print-lem chars out small)
      (Counts-shift written 0 out chars (next (out ++ chars)) (go (out ++ chars)))

print_literal-Counts :
    (chars : List ℕ) (written : ℕ) (out : List ℕ) (next : ℕ → List ℕ → Result)
    → IsBytes chars
    → ((n : ℕ) (end : List ℕ) → Counts n end (next n end))
    → Counts written out (print_literal chars written out next)
unfolding print_literal
print_literal-Counts chars written out next small go =
    elim (Bool-cases (ltb (int_max - written) (length chars))) [
      | inl e ↦ rw e tt
      | inr e ↦ rw e (
          when_printed-Counts chars written out (next (written + length chars)) small
            (go (written + length chars)))
    ]

print_percent-Counts :
    (written : ℕ) (out : List ℕ) (next : ℕ → List ℕ → Result)
    → ((n : ℕ) (end : List ℕ) → Counts n end (next n end))
    → Counts written out (print_percent written out next)
unfolding print_percent
print_percent-Counts written out next go = elim (Bool-cases (int_max - written == 0)) [
  | inl e ↦ rw e tt
  | inr e ↦ rw e (
      when_printed-Counts (37 ∷ []) written out (next (written + 1)) (omega arith, tt)
        (go (written + 1)))
]

print_u-Counts :
    (value written : ℕ) (out : List ℕ) (next : ℕ → List ℕ → Result)
    → ((n : ℕ) (end : List ℕ) → Counts (written + n) end (next n end))
    → Counts written out (print_u value out next)
unfolding print_u
print_u-Counts value written out next go = elim (Bool-cases (value == 0)) [
  | inl e ↦ rw e (when_printed-Counts (48 ∷ []) written out (next 1) (omega arith, tt) (go 1))
  | inr e ↦ rw e (
      when_printed-Counts (digits_loop 10 31 value []) written out
        (next (length (digits_loop 10 31 value []))) (digits_loop-IsBytes 10 31 value [] tt)
        (go (length (digits_loop 10 31 value []))))
]

u8-IsBytes : (w : ℕ) → IsBytes (u8 w ∷ [])
u8-IsBytes w = (omega arith, tt)

-- Of the conversions those of characters, strings and unsigned numbers count right.
convert-Counts :
    (kind : ℕ) (args : List Arg) (written : ℕ) (out : List ℕ)
    (next : List Arg → ℕ → List ℕ → Result)
    → (kind == 100 || kind == 120 || kind == 112) ≡ false
    → All IsArg args
    → ((rest : List Arg) (n : ℕ) (end : List ℕ) → All IsArg rest → Counts n end (next rest n end))
    → Counts written out (convert kind args written out next)
unfolding convert
convert-Counts kind [] written out next not_number small go = tt
convert-Counts kind (text str ∷ args) written out next not_number small go =
    elim (Bool-cases (kind == 115)) [
      | inl s ↦ elim (Bool-cases (ltb (int_max - written) (length str))) [
        | inl e ↦ rw (s, e) tt
        | inr e ↦
            rw (s, e)
              (when_printed-Counts str written out (next args (written + length str)) small.0
                (λ end. go args (written + length str) end small.1))
      ]
      | inr s ↦ rw s tt
    ]
convert-Counts kind (word w ∷ args) written out next not_number small go =
    elim (Bool-cases (kind == 99)) [
      | inl c ↦ elim (Bool-cases (int_max - written == 0)) [
        | inl e ↦ rw (c, e) tt
        | inr e ↦
            rw (c, e)
              (when_printed-Counts (u8 w ∷ []) written out (next args (written + 1)) (u8-IsBytes w)
                (λ end. go args (written + 1) end small.1))
      ]
      | inr c ↦ elim (Bool-cases (kind == 117)) [
        | inl u ↦
            rw (c, u)
              (print_u-Counts w written out (λ len. next args (written + len))
                (λ n end. go args (written + n) end small.1))
        | inr u ↦
            let not_d : (kind == 100) ≡ false = ground arith in
            let not_x : (kind == 120) ≡ false = ground arith in
            let not_p : (kind == 112) ≡ false = ground arith in rw (c, u, not_d, not_x, not_p) tt
      ]
    ]

plain-tail : (c : ℕ) (cs : List ℕ) → plain (c ∷ cs) ≡ true → plain cs ≡ true
plain-tail c [] p = refl
plain-tail c (d ∷ cs) p = ground arith

-- What is left behind the characters that are shown as they are.
literal-parts :
    (format : List ℕ)
    → IsBytes format
    → plain format ≡ true
    → IsBytes (literal format).0
      × IsBytes (literal format).1
      × (plain (literal format).1 ≡ true)
      × (length (literal format).1 ≤ length format)
unfolding literal
literal-parts [] small p = (tt, tt, refl, omega arith)
literal-parts (c ∷ cs) small p =
    let (chars, rest, q, len) = literal-parts cs small.1 (plain-tail c cs p) in
    elim (Bool-cases (c == 37)) [
      | inl e ↦ rw e (tt, small, p, omega arith)
      | inr e ↦ rw e ((small.0, chars), rest, q, omega (arith, len))
    ]

not_number :
    (c d : ℕ) (cs : List ℕ)
    → (c == 37) ≡ true
    → plain (c ∷ d ∷ cs) ≡ true
    → (d == 100 || d == 120 || d == 112) ≡ false
not_number c d cs percent p = ground arith

printf_loop-Counts :
    (fuel : ℕ) (format : List ℕ) (args : List Arg) (written : ℕ) (out : List ℕ)
    → IsBytes format
    → plain format ≡ true
    → All IsArg args
    → Counts written out (printf_loop fuel format args written out)
unfolding printf_loop
printf_loop-Counts zero format args written out small p ok = tt
printf_loop-Counts (suc fuel) [] args written out small p ok = refl
printf_loop-Counts (suc fuel) (c ∷ []) args written out small p ok =
    let go = λ (n : ℕ) (end : List ℕ). printf_loop-Counts fuel [] args n end tt refl ok in
    elim (Bool-cases (c == 37)) [
      | inl e ↦ rw e (print_percent-Counts written out (printf_loop fuel [] args) go)
      | inr e ↦ rw e (print_literal-Counts (c ∷ []) written out (printf_loop fuel [] args) small go)
    ]
printf_loop-Counts (suc fuel) (c ∷ d ∷ cs) args written out small p ok =
    let tail_plain = plain-tail c (d ∷ cs) p in
    let rest_plain = plain-tail d cs tail_plain in
    elim (Bool-cases (c == 37)) [
      | inr e ↦
          let (chars, rest, q, len) = literal-parts (d ∷ cs) small.1 tail_plain in
          rw e (
            print_literal-Counts (c ∷ (literal (d ∷ cs)).0) written out _ (small.0, chars)
              (λ n end. printf_loop-Counts fuel (literal (d ∷ cs)).1 args n end rest q ok))
      | inl percent ↦ elim (Bool-cases (d == 37)) [
        | inl e ↦
            let (chars, rest, q, len) = literal-parts cs small.1.1 rest_plain in
            rw (percent, e)
              (print_literal-Counts (d ∷ (literal cs).0) written out _ (small.1.0, chars)
                (λ n end. printf_loop-Counts fuel (literal cs).1 args n end rest q ok))
        | inr e ↦ elim (Bool-cases (is_conversion d)) [
          | inl f ↦
              rw (percent, e, f)
                (convert-Counts d args written out (λ a. printf_loop fuel cs a)
                  (not_number c d cs percent p) ok
                  (λ a n end all. printf_loop-Counts fuel cs a n end small.1.1 rest_plain all))
          | inr f ↦
              rw (percent, e, f)
                (print_percent-Counts written out (printf_loop fuel (d ∷ cs) args)
                  (λ n end. printf_loop-Counts fuel (d ∷ cs) args n end small.1 tail_plain ok))
        ]
      ]
    ]

-- Where printf returns for a format without %d, %x and %p, the count is the number of characters
-- that it wrote.
pub printf-Counts :
    (format : List ℕ) (args : List Arg) (out : List ℕ)
    → IsBytes format
    → plain format ≡ true
    → All IsArg args
    → Counts 0 out (printf format args out)
unfolding printf
printf-Counts format args out small p ok =
    printf_loop-Counts (suc (length format)) format args 0 out small p ok
