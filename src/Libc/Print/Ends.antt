-- ===== src/Libc/Print/Ends.antt =====
-- `printf` ends: each round of its loop consumes a character of the format.
use simply_os.Base.{
  ℕ, zero, suc, ◌+◌, ◌-◌, ◌≤◌, ◌<◌, ◌≡◌, arith, Bool, true, false, List, [], ◌∷◌, ◌==◌, Bool-cases,
  inl, inr, length, ltb, u8,
}
use simply_os.Libc.Print.{
  print, print_int, print_uint, digits_loop, Arg, word, text, Result, returns, fails, undefined,
  unfinished, int_max, literal, when_printed, print_u, convert, is_conversion, print_percent,
  print_literal, printf_loop, printf,
}

-- The run does not stop for want of fuel.
abbrev pub Ends : Result → Type 0
Ends (returns n end) = Unit
Ends (fails end) = Unit
Ends undefined = Unit
Ends unfinished = ⊥

when_printed-Ends :
    (r : Bool × List ℕ) (next : List ℕ → Result)
    → ((end : List ℕ) → Ends (next end))
    → Ends (when_printed r next)
unfolding when_printed
when_printed-Ends (true, out) next go = go out
when_printed-Ends (false, out) next go = tt

print_literal-Ends :
    (chars : List ℕ) (written : ℕ) (out : List ℕ) (next : ℕ → List ℕ → Result)
    → ((n : ℕ) (end : List ℕ) → Ends (next n end))
    → Ends (print_literal chars written out next)
unfolding print_literal
print_literal-Ends chars written out next go =
    elim (Bool-cases (ltb (int_max - written) (length chars))) [
      | inl e ↦ rw e tt
      | inr e ↦ rw e (when_printed-Ends (print chars out) _ (go (written + length chars)))
    ]

print_percent-Ends :
    (written : ℕ) (out : List ℕ) (next : ℕ → List ℕ → Result)
    → ((n : ℕ) (end : List ℕ) → Ends (next n end))
    → Ends (print_percent written out next)
unfolding print_percent
print_percent-Ends written out next go = elim (Bool-cases (int_max - written == 0)) [
  | inl e ↦ rw e tt
  | inr e ↦ rw e (when_printed-Ends (print (37 ∷ []) out) _ (go (written + 1)))
]

print_u-Ends :
    (value : ℕ) (out : List ℕ) (next : ℕ → List ℕ → Result)
    → ((n : ℕ) (end : List ℕ) → Ends (next n end))
    → Ends (print_u value out next)
unfolding print_u
print_u-Ends value out next go = elim (Bool-cases (value == 0)) [
  | inl e ↦ rw e (when_printed-Ends (print (48 ∷ []) out) _ (go 1))
  | inr e ↦ rw e (when_printed-Ends (print (digits_loop 10 31 value []) out) _ (go _))
]

module _ (kind written : ℕ) (out : List ℕ) (next : List Arg → ℕ → List ℕ → Result)
    (go : (rest : List Arg) (n : ℕ) (end : List ℕ) → Ends (next rest n end)) where
  number-Ends :
      (w : ℕ) (args : List Arg)
      → (kind == 99) ≡ false
      → (kind == 117) ≡ false
      → Ends (convert kind (word w ∷ args) written out next)
  unfolding convert
  number-Ends w args c u = elim (Bool-cases (kind == 100)) [
    | inl d ↦ rw (c, u, d) (when_printed-Ends (print_int w out) _ (go args (written + 1)))
    | inr d ↦ elim (Bool-cases (kind == 120)) [
      | inl x ↦ rw (c, u, d, x) (when_printed-Ends (print_uint w 16 out) _ (go args (written + 1)))
      | inr x ↦ elim (Bool-cases (kind == 112)) [
        | inl p ↦
            rw (c, u, d, x, p)
              (when_printed-Ends (print (48 ∷ 120 ∷ []) out) _
                (λ end. when_printed-Ends (print_uint w 16 end) _ (go args (written + 1))))
        | inr p ↦ rw (c, u, d, x, p) tt
      ]
    ]
  ]

  convert-Ends : (args : List Arg) → Ends (convert kind args written out next)
  unfolding convert
  convert-Ends [] = tt
  convert-Ends (text str ∷ args) = elim (Bool-cases (kind == 115)) [
    | inl s ↦ elim (Bool-cases (ltb (int_max - written) (length str))) [
      | inl e ↦ rw (s, e) tt
      | inr e ↦ rw (s, e) (when_printed-Ends (print str out) _ (go args (written + length str)))
    ]
    | inr s ↦ rw s tt
  ]
  convert-Ends (word w ∷ args) = elim (Bool-cases (kind == 99)) [
    | inl c ↦ elim (Bool-cases (int_max - written == 0)) [
      | inl e ↦ rw (c, e) tt
      | inr e ↦ rw (c, e) (when_printed-Ends (print (u8 w ∷ []) out) _ (go args (written + 1)))
    ]
    | inr c ↦ elim (Bool-cases (kind == 117)) [
      | inl u ↦ rw (c, u) (print_u-Ends w out _ (λ n. go args (written + n)))
      | inr u ↦ number-Ends w args c u
    ]
  ]

length-literal : (format : List ℕ) → length (literal format).1 ≤ length format
unfolding literal
length-literal [] = omega arith
length-literal (c ∷ cs) = elim (Bool-cases (c == 37)) [
  | inl e ↦ rw e (omega arith)
  | inr e ↦ rw e (omega (arith, length-literal cs))
]

printf_loop-Ends :
    (fuel : ℕ) (format : List ℕ) (args : List Arg) (written : ℕ) (out : List ℕ)
    → length format < fuel
    → Ends (printf_loop fuel format args written out)
unfolding printf_loop
printf_loop-Ends zero format args written out enough = absurd (omega arith)
printf_loop-Ends (suc fuel) [] args written out enough = tt
printf_loop-Ends (suc fuel) (c ∷ []) args written out enough =
    let go = λ (n : ℕ) (end : List ℕ). printf_loop-Ends fuel [] args n end (omega arith) in
    elim (Bool-cases (c == 37)) [
      | inl e ↦ rw e (print_percent-Ends written out _ go)
      | inr e ↦ rw e (print_literal-Ends (c ∷ []) written out _ go)
    ]
printf_loop-Ends (suc fuel) (c ∷ d ∷ cs) args written out enough = elim (Bool-cases (c == 37)) [
  | inr e ↦ rw e (
      print_literal-Ends (c ∷ (literal (d ∷ cs)).0) written out _ (λ n end.
        printf_loop-Ends fuel (literal (d ∷ cs)).1 args n end
          (omega (arith, length-literal (d ∷ cs)))))
  | inl percent ↦ elim (Bool-cases (d == 37)) [
    | inl e ↦
        rw (percent, e)
          (print_literal-Ends (d ∷ (literal cs).0) written out _ (λ n end.
            printf_loop-Ends fuel (literal cs).1 args n end (omega (arith, length-literal cs))))
    | inr e ↦ elim (Bool-cases (is_conversion d)) [
      | inl f ↦
          rw (percent, e, f)
            (convert-Ends d written out _
              (λ a n end. printf_loop-Ends fuel cs a n end (omega arith)) args)
      | inr f ↦
          rw (percent, e, f)
            (print_percent-Ends written out _
              (λ n end. printf_loop-Ends fuel (d ∷ cs) args n end (omega arith)))
    ]
  ]
]

-- printf ends for every format and all arguments: its loop does not use up one round for each
-- character of the format and one more.
pub printf-Ends : (format : List ℕ) (args : List Arg) (out : List ℕ) → Ends (printf format args out)
unfolding printf
printf-Ends format args out = printf_loop-Ends (suc (length format)) format args 0 out (omega arith)
