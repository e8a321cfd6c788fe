-- ===== src/Libc/Print/Render/Run.antt =====
-- `printf` writes the text of its format.
use simply_os.Base.{
  ℕ, zero, suc, ◌+◌, ◌≤◌, ◌<◌, ◌≡◌, refl, ◌∙◌, sym, ap, subst, arith, some, List, [], ◌∷◌, ◌++◌,
  ◌==◌, Bool-cases, inl, inr, All, length, length-append, append_nil,
}
use simply_os.Libc.Print.{
  Arg, returns, int_max, literal, is_conversion, print_percent, print_literal, printf_loop, printf,
}
use simply_os.Libc.Print.Digits.{IsBytes}
use simply_os.Libc.Print.Format.{IsArg}
use simply_os.Libc.Print.Render.{
  prepend, convert_text, render, prepend-some, render-char, render-literal, literal-IsBytes, Prints,
  print_literal-Prints, print_percent-Prints,
}
use simply_os.Libc.Print.Render.Convert.{convert-Prints}

-- `printf_loop` with this fuel, for every format below it.
abbrev LoopPrints : ℕ → Type 0
LoopPrints fuel =
    (format : List ℕ) (args : List Arg) (written : ℕ) (out r : List ℕ)
    → length format < fuel
    → IsBytes format
    → All IsArg args
    → render format args ≡ some r
    → written + length r ≤ int_max
    → Prints written out r (printf_loop fuel format args written out)

module _ (fuel : ℕ) (ih : LoopPrints fuel) (written : ℕ) (out r : List ℕ) (args : List Arg)
    (ok : All IsArg args) (fits : written + length r ≤ int_max) where
  -- One character that is shown as it is, and those up to the next `%`.
  shown_first :
      (c : ℕ) (cs : List ℕ)
      → length cs < fuel
      → IsBytes (c ∷ cs)
      → prepend (c ∷ []) (render cs args) ≡ some r
      → Prints written out r
          (print_literal (c ∷ (literal cs).0) written out (printf_loop fuel (literal cs).1 args))
  shown_first c cs enough small e =
      let (r1, e1, cut1) = prepend-some (c ∷ []) (render cs args) e in
      let (rest, e2, cut2) = render-literal cs args e1 in
      let (first, behind, len) = literal-IsBytes cs small.1 in
      let chars = c ∷ (literal cs).0 in
      let cut : r ≡ chars ++ rest = cut1 ∙ ap (λ t. c ∷ t) cut2 in
      let fits2 : written + length (chars ++ rest) ≤ int_max =
        subst (λ t. written + length t ≤ int_max) cut fits in
      subst
        (λ t.
          Prints written out t
            (print_literal chars written out (printf_loop fuel (literal cs).1 args)))
        (sym cut)
        (print_literal-Prints written out rest chars (printf_loop fuel (literal cs).1 args)
          (small.0, first) fits2
          (ih (literal cs).1 args (written + length chars) (out ++ chars) rest (omega (arith, len))
            behind ok e2 (omega (arith, fits2, length-append chars rest))))

  -- A `%` that stands for itself.
  percent_first :
      (cs : List ℕ)
      → length cs < fuel
      → IsBytes cs
      → prepend (37 ∷ []) (render cs args) ≡ some r
      → Prints written out r (print_percent written out (printf_loop fuel cs args))
  percent_first cs enough small e =
      let (rest, e1, cut) = prepend-some (37 ∷ []) (render cs args) e in
      let fits2 : written + length (37 ∷ rest) ≤ int_max =
        subst (λ t. written + length t ≤ int_max) cut fits in
      subst (λ t. Prints written out t (print_percent written out (printf_loop fuel cs args)))
        (sym cut)
        (print_percent-Prints written out rest (printf_loop fuel cs args) fits2 (
          ih cs args (written + 1) (out ++ (37 ∷ [])) rest enough small ok e1
            (omega (arith, fits2))))

  more :
      (c d : ℕ) (cs : List ℕ)
      → length (d ∷ cs) < fuel
      → IsBytes (c ∷ d ∷ cs)
      → render (c ∷ d ∷ cs) args ≡ some r
      → Prints written out r (printf_loop (suc fuel) (c ∷ d ∷ cs) args written out)
  unfolding printf_loop render
  more c d cs enough small e = elim (Bool-cases (c == 37)) [
    | inr plain ↦
        let same : render (c ∷ d ∷ cs) args ≡ prepend (c ∷ []) (render (d ∷ cs) args) =
          render-char c (d ∷ cs) args plain in
        rw (printf_loop, plain) (shown_first c (d ∷ cs) enough small (sym same ∙ e))
    | inl percent ↦ elim (Bool-cases (d == 37)) [
      | inl double ↦
          let same : render (c ∷ d ∷ cs) args ≡ prepend (37 ∷ []) (render cs args) =
            rw (render, percent, double) refl in
          let d_is : d ≡ 37 = ground arith in
          rw (printf_loop, percent, double)
            (shown_first d cs (omega arith) small.1 (rw d_is (sym same ∙ e)))
      | inr single ↦ elim (Bool-cases (is_conversion d)) [
        | inl known ↦
            let same : render (c ∷ d ∷ cs) args ≡ convert_text d args (λ a. render cs a) =
              rw (render, percent, single, known) refl in
            rw (printf_loop, percent, single, known)
              (convert-Prints d args written out r (λ a. render cs a) (λ a. printf_loop fuel cs a)
                known ok (sym same ∙ e) fits
                (λ a n end rest ok' e' fits'.
                  ih cs a n end rest (omega arith) small.1.1 ok' e' fits'))
        | inr unknown ↦
            let same : render (c ∷ d ∷ cs) args ≡ prepend (37 ∷ []) (render (d ∷ cs) args) =
              rw (render, percent, single, unknown) refl in
            rw (printf_loop, percent, single, unknown)
              (percent_first (d ∷ cs) enough small.1 (sym same ∙ e))
      ]
    ]
  ]

  one :
      (c : ℕ)
      → 0 < fuel
      → IsBytes (c ∷ [])
      → render (c ∷ []) args ≡ some r
      → Prints written out r (printf_loop (suc fuel) (c ∷ []) args written out)
  unfolding printf_loop render literal
  one c enough small e = elim (Bool-cases (c == 37)) [
    | inl percent ↦
        let is : c ≡ 37 = ground arith in
        rw (printf_loop, percent)
          (percent_first [] enough tt (ap (λ t. some (t ∷ [])) (sym is) ∙ e))
    | inr plain ↦ rw (printf_loop, plain) (shown_first c [] enough small e)
  ]

printf_loop-Prints : (fuel : ℕ) → LoopPrints fuel
unfolding printf_loop render
printf_loop-Prints zero format args written out r enough small ok e fits = absurd (omega arith)
printf_loop-Prints (suc fuel) [] args written out r enough small ok e fits =
    let nothing : [] ≡ r = cc e in
    (written, ap (returns written) (sym (append_nil out) ∙ ap (λ t. out ++ t) nothing), omega arith)
printf_loop-Prints (suc fuel) (c ∷ []) args written out r enough small ok e fits =
    one fuel (printf_loop-Prints fuel) written out r args ok fits c (omega arith) small e
printf_loop-Prints (suc fuel) (c ∷ d ∷ cs) args written out r enough small ok e fits =
    more fuel (printf_loop-Prints fuel) written out r args ok fits c d cs (omega arith) small e

-- printf, for a format and arguments in bytes whose text is defined (each conversion finds an
-- argument of its kind) and of at most INT_MAX characters, succeeds and writes that text; the
-- count that it returns is at most the number of characters.
pub printf-Prints :
    (format : List ℕ) (args : List Arg) (out r : List ℕ)
    → IsBytes format
    → All IsArg args
    → render format args ≡ some r
    → length r ≤ int_max
    → Prints 0 out r (printf format args out)
unfolding printf
printf-Prints format args out r small ok e fits =
    printf_loop-Prints (suc (length format)) format args 0 out r (omega arith) small ok e
      (omega arith)
