-- ===== src/Shell/Line.antt =====
-- The line buffer as a text: what each key does to both.
use simply_os.Base.{
  ℕ, suc, ◌+◌, ◌-◌, ◌<◌, ◌≡◌, refl, ◌∙◌, sym, ap, subst, arith, false, List, [], ◌∷◌, ◌++◌, length,
  length-append, length-set, set, append_assoc, All, ◌==◌,
}
use simply_os.Shell.{line_max, c_string}

-- A character of the line: a byte, and not NUL.
abbrev pub IsChar : ℕ → Type 0
IsChar c = (0 < c) × (c < 256)

-- The buffer of 128 bytes holds a text and a NUL behind it.
pub record Holds (line : List ℕ) (len : ℕ) (typed : List ℕ) : Type 0 where
  pub rest : List ℕ
  pub shape : line ≡ typed ++ (0 ∷ rest)
  pub counted : len ≡ length typed
  pub size : length line ≡ line_max
  pub chars : All IsChar typed

set_at : (xs : List ℕ) (y v : ℕ) (ys : List ℕ) → set (xs ++ (y ∷ ys)) (length xs) v ≡ xs ++ (v ∷ ys)
set_at [] y v ys = refl
set_at (x ∷ xs) y v ys = ap (λ t. x ∷ t) (set_at xs y v ys)

pub All-append : (P : ℕ → Type 0) (xs ys : List ℕ) → All P xs → All P ys → All P (xs ++ ys)
All-append P [] ys h k = k
All-append P (x ∷ xs) ys h k = (h.0, All-append P xs ys h.1 k)

All-front : (P : ℕ → Type 0) (xs ys : List ℕ) → All P (xs ++ ys) → All P xs
All-front P [] ys h = tt
All-front P (x ∷ xs) ys h = (h.0, All-front P xs ys h.1)

-- Without the last character.
abbrev pub drop_last : List ℕ → List ℕ
drop_last [] = []
drop_last (x ∷ []) = []
drop_last (x ∷ y ∷ ys) = x ∷ drop_last (y ∷ ys)

last_split :
    (x : ℕ) (xs : List ℕ)
    → (l : ℕ) × (x ∷ xs ≡ drop_last (x ∷ xs) ++ (l ∷ []))
      × (length xs ≡ length (drop_last (x ∷ xs)))
last_split x [] = (x, refl, refl)
last_split x (y ∷ ys) = let (l, cut, len) = last_split y ys in (l, ap (λ t. x ∷ t) cut, ap suc len)

pub c_string-lem : (typed rest : List ℕ) → All IsChar typed → c_string (typed ++ (0 ∷ rest)) ≡ typed
unfolding c_string
c_string-lem [] rest h = refl
c_string-lem (c ∷ cs) rest h =
    let some_char : (c == 0) ≡ false = ground (arith, h.0) in
    rw some_char (ap (λ t. c ∷ t) (c_string-lem cs rest h.1))

first_cell : (xs : List ℕ) → 0 < length xs → (rest : List ℕ) × (set xs 0 0 ≡ 0 ∷ rest)
first_cell [] h = absurd (omega arith)
first_cell (x ∷ xs) h = (xs, refl)

-- shell_reset_line.
pub reset-Holds : (line : List ℕ) → length line ≡ line_max → Holds (set line 0 0) 0 []
reset-Holds line size =
    let (rest, cut) = first_cell line (omega (arith, size)) in
    record {
      rest = rest;
      shape = cut;
      counted = refl;
      size = length-set line 0 0 ∙ size;
      chars = tt;
    }

cell_behind : (xs : List ℕ) → 0 < length xs → (r : ℕ) × ((rest : List ℕ) × (xs ≡ r ∷ rest))
cell_behind [] h = absurd (omega arith)
cell_behind (x ∷ xs) h = (x, (xs, refl))

module _ (line : List ℕ) (len : ℕ) (typed : List ℕ) (h : Holds line len typed) where
  -- Writing the NUL at the end again changes nothing.
  ended_same : set line len 0 ≡ line
  ended_same = rw (h.shape, h.counted) (set_at typed 0 0 h.rest)

  pub ended-Holds : Holds (set line len 0) len typed
  ended-Holds = subst (λ l. Holds l len typed) (sym ended_same) h

  -- The line with room for one more character.
  pub added-Holds :
      (c : ℕ)
      → IsChar c
      → length typed < line_max - 1
      → Holds (set (set line len c) (len + 1) 0) (len + 1) (typed ++ (c ∷ []))
  added-Holds c char room =
      let whole : length typed + (1 + length h.rest) ≡ 128 =
        omega (arith, h.size, ap length h.shape, length-append typed (0 ∷ h.rest)) in
      let (r, (rest, cut)) = cell_behind h.rest (omega (arith, whole)) in
      let one : set line len c ≡ (typed ++ (c ∷ [])) ++ (r ∷ rest) =
        rw (h.shape, h.counted) (set_at typed 0 c h.rest)
        ∙ ap (λ t. typed ++ (c ∷ t)) cut
        ∙ sym (append_assoc typed (c ∷ []) (r ∷ rest)) in
      let at : len + 1 ≡ length (typed ++ (c ∷ [])) =
        omega (arith, h.counted, length-append typed (c ∷ [])) in
      record {
        rest = rest;
        shape = rw (one, at) (set_at (typed ++ (c ∷ [])) r 0 rest);
        counted = at;
        size = length-set (set line len c) (len + 1) 0 ∙ length-set line len c ∙ h.size;
        chars = All-append IsChar typed (c ∷ []) h.chars (char, tt);
      }

pub erased-Holds :
    (line : List ℕ) (len : ℕ) (typed : List ℕ)
    → Holds line len typed
    → 0 < len
    → Holds (set line (len - 1) 0) (len - 1) (drop_last typed)
erased-Holds line len [] h some_char = absurd (omega (arith, h.counted))
erased-Holds line len (x ∷ xs) h some_char =
    let (l, cut, count) = last_split x xs in
    let kept = drop_last (x ∷ xs) in
    let at : len - 1 ≡ length kept = omega (arith, h.counted, count) in
    let cells : line ≡ kept ++ (l ∷ 0 ∷ h.rest) =
      h.shape ∙ ap (λ t. t ++ (0 ∷ h.rest)) cut ∙ append_assoc kept (l ∷ []) (0 ∷ h.rest) in
    record {
      rest = 0 ∷ h.rest;
      shape = rw (at, cells) (set_at kept l 0 (0 ∷ h.rest));
      counted = at;
      size = length-set line (len - 1) 0 ∙ h.size;
      chars = All-front IsChar kept (l ∷ []) (subst (All IsChar) cut h.chars);
    }
