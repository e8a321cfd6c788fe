-- ===== src/Libc/Print/Render.antt =====
-- The text that a format stands for, and that `printf` writes it.
pub mod Numerals
pub mod Convert
pub mod Run
pub mod Room
use simply_os.Base.{
  ℕ, zero, suc, ◌+◌, ◌-◌, ◌*◌, ◌/◌, ◌%◌, ◌^◌, ◌≤◌, ◌<◌, ◌≡◌, refl, ◌∙◌, sym, ap, arith, Bool, true,
  false, not, ◌&&◌, ◌||◌, Option, none, some, List, [], ◌∷◌, ◌++◌, u8, u32, ltb, leb, ◌==◌,
  if◌then◌else◌, Bool-cases, inl, inr, All, length, length-append, append_assoc, append_nil,
}
use simply_os.Libc.Print.{
  print, print_uint, print_int, digits_loop, digit_char, Arg, word, text, Result, returns, int_max,
  literal, when_printed, print_u, convert, is_conversion, print_percent, print_literal, printf_loop,
  printf,
}
use simply_os.Libc.Print.Digits.{
  IsBytes, print-lem, digits_loop-IsBytes, print_uint-some, print_uint-zero, print_int-negative,
  print_int-positive,
}
use simply_os.Libc.Print.Format.{IsArg}

abbrev pub numeral : ℕ → ℕ → List ℕ
numeral base value = if value == 0 then 48 ∷ [] else digits_loop base 31 value []

abbrev pub signed : ℕ → List ℕ
signed w = if leb (2 ^ 31) w then 45 ∷ numeral 10 (u32 (2 ^ 32 - 1 - w + 1)) else numeral 10 w

abbrev pub word_text : ℕ → ℕ → List ℕ
word_text kind w =
    if kind == 99
    then u8 w ∷ []
    else if kind == 117
    then numeral 10 w
    else if kind == 100
    then signed w
    else if kind == 120
    then numeral 16 w
    else 48 ∷ 120 ∷ numeral 16 w

abbrev pub prepend : List ℕ → Option (List ℕ) → Option (List ℕ)
prepend chars none = none
prepend chars (some rest) = some (chars ++ rest)

-- A conversion takes the next argument, which must be of its kind.
abbrev pub convert_text : ℕ → List Arg → (List Arg → Option (List ℕ)) → Option (List ℕ)
convert_text kind [] next = none
convert_text kind (word w ∷ args) next =
    if kind == 115 then none else prepend (word_text kind w) (next args)
convert_text kind (text str ∷ args) next = if kind == 115 then prepend str (next args) else none

-- A `%` that begins no conversion stands for itself.
unfoldable pub render : List ℕ → List Arg → Option (List ℕ)
render [] args = some []
render (c ∷ []) args = some (c ∷ [])
render (c ∷ d ∷ cs) args =
    let rest = render (d ∷ cs) args in
    let behind = render cs args in
    let converted = λ (a : List Arg). render cs a in
    if not (c == 37)
    then prepend (c ∷ []) rest
    else if d == 37
    then prepend (37 ∷ []) behind
    else if is_conversion d
    then convert_text d args converted
    else prepend (37 ∷ []) rest

pub prepend-some :
    (chars : List ℕ) (o : Option (List ℕ)) {r : List ℕ}
    → prepend chars o ≡ some r
    → (rest : List ℕ) × (o ≡ some rest) × (r ≡ chars ++ rest)
prepend-some chars none e = absurd cc
prepend-some chars (some rest) e = (rest, refl, cc)

pub render-char :
    (c : ℕ) (cs : List ℕ) (args : List Arg)
    → (c == 37) ≡ false
    → render (c ∷ cs) args ≡ prepend (c ∷ []) (render cs args)
unfolding render
render-char c [] args e = refl
render-char c (d ∷ cs) args e = rw e refl

-- The characters up to the next `%` stand for themselves.
pub render-literal :
    (format : List ℕ) (args : List Arg) {r : List ℕ}
    → render format args ≡ some r
    → (rest : List ℕ) × (render (literal format).1 args ≡ some rest)
      × (r ≡ (literal format).0 ++ rest)
unfolding literal render
render-literal [] args e = ([], refl, cc)
render-literal (c ∷ cs) args {r} e = elim (Bool-cases (c == 37)) [
  | inl percent ↦ rw percent (r, e, refl)
  | inr plain ↦
      let (r1, e1, cut) =
        prepend-some (c ∷ []) (render cs args) (sym (render-char c cs args plain) ∙ e) in
      let (rest, e2, cut2) = render-literal cs args e1 in
      rw plain (rest, e2, cut ∙ ap (λ t. c ∷ t) cut2)
]

pub literal-IsBytes :
    (format : List ℕ)
    → IsBytes format
    → IsBytes (literal format).0
      × IsBytes (literal format).1
      × (length (literal format).1 ≤ length format)
unfolding literal
literal-IsBytes [] small = (tt, tt, omega arith)
literal-IsBytes (c ∷ cs) small =
    let (chars, rest, len) = literal-IsBytes cs small.1 in
    elim (Bool-cases (c == 37)) [
      | inl e ↦ rw e (tt, small, omega arith)
      | inr e ↦ rw e ((small.0, chars), rest, omega (arith, len))
    ]

-- The run writes `chars` and returns a count that is not above the number of characters.
abbrev pub Prints : ℕ → List ℕ → List ℕ → Result → Type 0
Prints written out chars res =
    (n : ℕ) × (res ≡ returns n (out ++ chars)) × (n ≤ written + length chars)

-- What is printed first, counted as `k`, and then the rest.
pub Prints-first :
    (written k : ℕ) (out first rest : List ℕ) (res : Result)
    → k ≤ length first
    → Prints (written + k) (out ++ first) rest res
    → Prints written out (first ++ rest) res
Prints-first written k out first rest res small (n, runs, count) = (
  n,
  runs ∙ ap (returns n) (append_assoc out first rest),
  omega (arith, count, length-append first rest),
)

module _ (written : ℕ) (out rest : List ℕ) where
  pub when_printed-Prints :
      (chars : List ℕ) (k : ℕ) (next : List ℕ → Result)
      → IsBytes chars
      → k ≤ length chars
      → Prints (written + k) (out ++ chars) rest (next (out ++ chars))
      → Prints written out (chars ++ rest) (when_printed (print chars out) next)
  unfolding when_printed
  when_printed-Prints chars k next small count go =
      rw (print-lem chars out small) (Prints-first written k out chars rest _ count go)

  pub print_literal-Prints :
      (chars : List ℕ) (next : ℕ → List ℕ → Result)
      → IsBytes chars
      → written + length (chars ++ rest) ≤ int_max
      → Prints
          (written + length chars)
          (out ++ chars)
          rest
          (next (written + length chars) (out ++ chars))
      → Prints written out (chars ++ rest) (print_literal chars written out next)
  unfolding print_literal
  print_literal-Prints chars next small fits go =
      let room : ltb (int_max - written) (length chars) ≡ false =
        ground (arith, length-append chars rest) in
      rw room (
        when_printed-Prints chars (length chars) (next (written + length chars)) small (omega arith)
          go)

  pub print_percent-Prints :
      (next : ℕ → List ℕ → Result)
      → written + length (37 ∷ rest) ≤ int_max
      → Prints (written + 1) (out ++ (37 ∷ [])) rest (next (written + 1) (out ++ (37 ∷ [])))
      → Prints written out (37 ∷ rest) (print_percent written out next)
  unfolding print_percent
  print_percent-Prints next fits go =
      let room : (int_max - written == 0) ≡ false = ground arith in
      rw room
        (when_printed-Prints (37 ∷ []) 1 (next (written + 1)) (omega arith, tt) (omega arith) go)
