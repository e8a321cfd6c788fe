-- ===== src/Libc/Print/Render/Room.antt =====
-- How long the text of a format is at most, for arguments that are words.
use simply_os.Base.{
  ℕ, ◌+◌, ◌-◌, ◌^◌, ◌%◌, ◌*◌, ◌≤◌, ◌≡◌, refl, ◌∙◌, sym, subst, arith, Option, some, none, List, [],
  ◌∷◌, length, length-append, ◌==◌, Bool-cases, inl, inr, All,
}
use simply_os.Libc.Print.{Arg, word, text, is_conversion}
use simply_os.Libc.Print.Render.{
  render, word_text, prepend, convert_text, prepend-some, render-char,
}
use simply_os.Libc.Print.Render.Numerals.{numeral-room}

abbrev pub IsWord : Arg → Type 0
IsWord (word w) = Unit
IsWord (text str) = ⊥

word_text-room : (kind w : ℕ) → length (word_text kind w) ≤ 33
word_text-room kind w =
    ground
      (arith, numeral-room 10 w, numeral-room 16 w, numeral-room 10 ((2 ^ 32 - 1 - w + 1) % 2 ^ 32))

module _ (n : ℕ) (texts : Option (List ℕ)) (ih : (r : List ℕ) → texts ≡ some r → length r ≤ n) where
  prepend-room :
      (chars r : List ℕ) (k : ℕ)
      → length chars ≤ k
      → prepend chars texts ≡ some r
      → length r ≤ k + n
  prepend-room chars r k small e =
      let (rest, e1, cut) = prepend-some chars texts e in
      subst (λ t. length t ≤ k + n) (sym cut) (omega (arith, ih rest e1, length-append chars rest))

convert_text-room :
    (kind n : ℕ) (args : List Arg) (texts : List Arg → Option (List ℕ)) (r : List ℕ)
    → All IsWord args
    → ((a : List Arg) (r : List ℕ) → All IsWord a → texts a ≡ some r → length r ≤ n)
    → convert_text kind args texts ≡ some r
    → length r ≤ 33 + n
convert_text-room kind n [] texts r words ih e = absurd cc
convert_text-room kind n (text str ∷ args) texts r words ih e = absurd words.0
convert_text-room kind n (word w ∷ args) texts r words ih e = elim (Bool-cases (kind == 115)) [
  | inl s ↦
      let same : convert_text kind (word w ∷ args) texts ≡ none = rw s refl in
      absurd (cc (sym same ∙ e))
  | inr s ↦
      let same : convert_text kind (word w ∷ args) texts ≡ prepend (word_text kind w) (texts args) =
        rw s refl in
      prepend-room n (texts args) (λ r' e'. ih args r' words.1 e') (word_text kind w) r 33
        (word_text-room kind w) (sym same ∙ e)
]

pub render-room :
    (format : List ℕ) (args : List Arg) (r : List ℕ)
    → All IsWord args
    → render format args ≡ some r
    → length r ≤ 33 * length format
unfolding render
render-room [] args r words e = let nothing : [] ≡ r = cc e in rw (← nothing) (omega arith)
render-room (c ∷ []) args r words e = let alone : c ∷ [] ≡ r = cc e in rw (← alone) (omega arith)
render-room (c ∷ d ∷ cs) args r words e =
    let rest = λ (x : ℕ) (e' : prepend (x ∷ []) (render (d ∷ cs) args) ≡ some r).
      prepend-room (33 * length (d ∷ cs)) (render (d ∷ cs) args)
        (λ r' f. render-room (d ∷ cs) args r' words f) (x ∷ []) r 1 (omega arith) e' in
    let behind = λ (a : List Arg) (r' : List ℕ) (w : All IsWord a). render-room cs a r' w in
    elim (Bool-cases (c == 37)) [
      | inr plain ↦ omega (arith, rest c (sym (render-char c (d ∷ cs) args plain) ∙ e))
      | inl percent ↦ elim (Bool-cases (d == 37)) [
        | inl double ↦
            let same : render (c ∷ d ∷ cs) args ≡ prepend (37 ∷ []) (render cs args) =
              rw (render, percent, double) refl in
            omega (
              arith,
              prepend-room (33 * length cs) (render cs args) (λ r' f. behind args r' words f)
                  (37 ∷ []) r 1 (omega arith) (sym same ∙ e),
            )
        | inr single ↦ elim (Bool-cases (is_conversion d)) [
          | inl known ↦
              let same : render (c ∷ d ∷ cs) args ≡ convert_text d args (λ a. render cs a) =
                rw (render, percent, single, known) refl in
              omega (
                arith,
                convert_text-room d (33 * length cs) args (λ a. render cs a) r words behind
                    (sym same ∙ e),
              )
          | inr unknown ↦
              let same : render (c ∷ d ∷ cs) args ≡ prepend (37 ∷ []) (render (d ∷ cs) args) =
                rw (render, percent, single, unknown) refl in
              omega (arith, rest 37 (sym same ∙ e))
        ]
      ]
    ]
