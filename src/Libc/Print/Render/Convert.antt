-- ===== src/Libc/Print/Render/Convert.antt =====
-- A conversion writes the text of its argument.
use simply_os.Base.{
  ℕ, ◌+◌, ◌-◌, false, none, ◌≤◌, ◌≡◌, refl, ◌∙◌, sym, subst, arith, true, false, Option, some, List,
  [], ◌∷◌, ◌++◌, u8, ltb, ◌==◌, Bool-cases, inl, inr, All, length, length-append,
}
use simply_os.Libc.Print.{
  print, Arg, word, text, Result, int_max, when_printed, print_u, convert, is_conversion,
}
use simply_os.Libc.Print.Format.{IsArg}
use simply_os.Libc.Print.Render.{
  numeral, word_text, signed, prepend, convert_text, prepend-some, Prints, when_printed-Prints,
}
use simply_os.Libc.Print.Render.Numerals.{
  numeral-IsBytes, print_uint-numeral, numeral-length, signed-IsBytes, signed-length,
  print_int-signed,
}

print_u-numeral :
    (w : ℕ) (out : List ℕ) (next : ℕ → List ℕ → Result)
    → print_u w out next ≡ when_printed (print (numeral 10 w) out) (next (length (numeral 10 w)))
unfolding print_u
print_u-numeral w out next = elim (Bool-cases (w == 0)) [
  | inl e ↦ rw (print_u, e) refl
  | inr e ↦ rw (print_u, e) refl
]

-- The conversions of a word, one by one.
module _ (w : ℕ) (args : List Arg) (written : ℕ) (out rest : List ℕ)
    (next : List Arg → ℕ → List ℕ → Result)
    (go : (n : ℕ) (end : List ℕ)
      → n + length rest ≤ int_max
      → Prints n end rest (next args n end)) where
  abbrev Converts : ℕ → List ℕ → Type 0
  Converts kind chars =
      written + length (chars ++ rest) ≤ int_max
      → Prints written out (chars ++ rest) (convert kind (word w ∷ args) written out next)

  convert-c : Converts 99 (u8 w ∷ [])
  unfolding convert
  convert-c fits =
      let room : (int_max - written == 0) ≡ false = ground arith in
      rw room (
        when_printed-Prints written out rest (u8 w ∷ []) 1 (next args (written + 1))
          (omega arith, tt) (omega arith) (go (written + 1) _ (omega arith)))

  convert-u : Converts 117 (numeral 10 w)
  unfolding convert
  convert-u fits =
      let k = length (numeral 10 w) in
      rw (print_u-numeral w out (λ len. next args (written + len))) (
        when_printed-Prints written out rest (numeral 10 w) k (next args (written + k))
          (numeral-IsBytes 10 w) (omega arith)
          (go (written + k) _ (omega (arith, length-append (numeral 10 w) rest))))

  convert-d : Converts 100 (signed w)
  unfolding convert
  convert-d fits = rw (print_int-signed w out) (
      when_printed-Prints written out rest (signed w) 1 (next args (written + 1)) (signed-IsBytes w)
        (signed-length w)
        (go (written + 1) _ (omega (arith, signed-length w, length-append (signed w) rest))))

  convert-x : Converts 120 (numeral 16 w)
  unfolding convert
  convert-x fits = rw (print_uint-numeral 16 w out (omega arith) (omega arith)) (
      when_printed-Prints written out rest (numeral 16 w) 1 (next args (written + 1))
        (numeral-IsBytes 16 w) (numeral-length 16 w)
        (go (written + 1) _
          (omega (arith, numeral-length 16 w, length-append (numeral 16 w) rest))))

  convert-p : Converts 112 (48 ∷ 120 ∷ numeral 16 w)
  unfolding convert
  convert-p fits =
      let digits = numeral 16 w in
      let out1 = out ++ (48 ∷ 120 ∷ []) in
      let last : Prints (written + 1 + 0) (out1 ++ digits) rest
          (next args (written + 1) (out1 ++ digits)) =
        subst (λ n. Prints n (out1 ++ digits) rest (next args (written + 1) (out1 ++ digits)))
          (omega arith)
          (go (written + 1) (out1 ++ digits) (omega (arith, length-append digits rest))) in
      when_printed-Prints written out (digits ++ rest) (48 ∷ 120 ∷ []) 1 _
        (omega arith, (omega arith, tt)) (omega arith)
        (rw (print_uint-numeral 16 w out1 (omega arith) (omega arith)) (
          when_printed-Prints (written + 1) out1 rest digits 0 (next args (written + 1))
            (numeral-IsBytes 16 w) (omega arith) last))

  convert-word :
      (kind : ℕ)
      → is_conversion kind ≡ true
      → (kind == 115) ≡ false
      → Converts kind (word_text kind w)
  convert-word kind known no_text = elim (Bool-cases (kind == 99)) [
    | inl e ↦ let k : kind ≡ 99 = ground arith in rw k convert-c
    | inr c ↦ elim (Bool-cases (kind == 117)) [
      | inl e ↦ let k : kind ≡ 117 = ground arith in rw k convert-u
      | inr u ↦ elim (Bool-cases (kind == 100)) [
        | inl e ↦ let k : kind ≡ 100 = ground arith in rw k convert-d
        | inr d ↦ elim (Bool-cases (kind == 120)) [
          | inl e ↦ let k : kind ≡ 120 = ground arith in rw k convert-x
          | inr x ↦ let k : kind ≡ 112 = ground arith in rw k convert-p
        ]
      ]
    ]
  ]

-- What the loop behind the conversion promises for the text of the rest.
abbrev Goes : (List Arg → Option (List ℕ)) → (List Arg → ℕ → List ℕ → Result) → Type 0
Goes texts next =
    (a : List Arg) (n : ℕ) (end rest : List ℕ)
    → All IsArg a
    → texts a ≡ some rest
    → n + length rest ≤ int_max
    → Prints n end rest (next a n end)

pub convert-Prints :
    (kind : ℕ) (args : List Arg) (written : ℕ) (out r : List ℕ) (texts : List Arg → Option (List ℕ))
    (next : List Arg → ℕ → List ℕ → Result)
    → is_conversion kind ≡ true
    → All IsArg args
    → convert_text kind args texts ≡ some r
    → written + length r ≤ int_max
    → Goes texts next
    → Prints written out r (convert kind args written out next)
unfolding convert
convert-Prints kind [] written out r texts next known ok e fits go = absurd cc
convert-Prints kind (text str ∷ args) written out r texts next known ok e fits go =
    elim (Bool-cases (kind == 115)) [
      | inl s ↦
          let same : convert_text kind (text str ∷ args) texts ≡ prepend str (texts args) =
            rw s refl in
          let (rest, e2, cut) = prepend-some str (texts args) (sym same ∙ e) in
          let fits2 : written + length (str ++ rest) ≤ int_max =
            subst (λ t. written + length t ≤ int_max) cut fits in
          let room : ltb (int_max - written) (length str) ≡ false =
            ground (arith, length-append str rest, fits2) in
          subst (λ t. Prints written out t (convert kind (text str ∷ args) written out next))
            (sym cut)
            (rw (s, room)
              (when_printed-Prints written out rest str (length str)
                (next args (written + length str)) ok.0 (omega arith)
                (go args (written + length str) (out ++ str) rest ok.1 e2
                  (omega (arith, fits2, length-append str rest)))))
      | inr s ↦
          let same : convert_text kind (text str ∷ args) texts ≡ none = rw s refl in
          absurd (cc (sym same ∙ e))
    ]
convert-Prints kind (word w ∷ args) written out r texts next known ok e fits go =
    elim (Bool-cases (kind == 115)) [
      | inl s ↦
          let same : convert_text kind (word w ∷ args) texts ≡ none = rw s refl in
          absurd (cc (sym same ∙ e))
      | inr s ↦
          let same : convert_text kind (word w ∷ args) texts
              ≡ prepend (word_text kind w) (texts args) =
            rw s refl in
          let (rest, e2, cut) = prepend-some (word_text kind w) (texts args) (sym same ∙ e) in
          subst (λ t. Prints written out t (convert kind (word w ∷ args) written out next))
            (sym cut)
            (convert-word w args written out rest next (λ n end. go args n end rest ok.1 e2) kind
              known s (subst (λ t. written + length t ≤ int_max) cut fits))
    ]
