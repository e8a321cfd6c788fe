-- ===== src/Keyboard/Session.antt =====
-- Interrupts and reads in any order.
use simply_os.Base.{
  append_assoc, ℕ, ◌<◌, ◌≡◌, refl, ◌∙◌, ap, sym, subst, List, [], ◌∷◌, ◌++◌, Option, some, length,
}
use simply_os.Keyboard.{Keyboard, buf_size, irq_handler, getchar, init}
use simply_os.Keyboard.Ring.{IsValid, contents}
use simply_os.Keyboard.Queue.{typed_by, contents-irq_handler, irq_handler-IsValid}
use simply_os.Keyboard.Reader.{init-IsValid, Gets, waits, gets, getchar-Gets, irqs}

-- The driver with the characters that were typed and those that were read, both in order.
pub record Session : Type 0 where
  pub keyboard : Keyboard
  pub typed : List ℕ
  pub got : List ℕ

-- An interrupt with a scan code, or a read of a character that is there.
pub data Step (s : Session) : Session → Type 0 where
  key :
      (code : ℕ)
      → code < 256
      → Step s (record {
        keyboard = irq_handler s.keyboard code;
        typed = s.typed ++ typed_by s.keyboard code;
        got = s.got;
      })
  read :
      (c : ℕ) (k : Keyboard)
      → getchar s.keyboard [] ≡ some (c, k, [])
      → Step s (record { keyboard = k; typed = s.typed; got = s.got ++ (c ∷ []) })

pub data Reach (s : Session) : Session → Type 0 where
  here : Reach s s
  next : {t u : Session} → Reach s t → Step t u → Reach s u

pub record InOrder (s : Session) : Type 0 where
  pub valid : IsValid s.keyboard
  pub in_order : s.typed ≡ s.got ++ contents s.keyboard

nil_of : (before after : List ℕ) → [] ≡ before ++ after → before ≡ []
nil_of [] after e = refl
nil_of (x ∷ before) after e = cc

abbrev result : ℕ → Keyboard → List ℕ → Option (ℕ × Keyboard × List ℕ)
result c k codes = some (c, k, codes)

some_parts :
    {c d : ℕ} {j k : Keyboard} {xs ys : List ℕ} → result c j xs ≡ result d k ys → (c ≡ d) × (j ≡ k)
some_parts e = (cc, cc)

-- A read of a character that is there takes the first one.
Gets-now :
    (k : Keyboard) (c : ℕ) (k' : Keyboard) (r : Option (ℕ × Keyboard × List ℕ))
    → Gets k [] r
    → r ≡ some (c, k', [])
    → IsValid k' × (contents k ≡ c ∷ contents k')
Gets-now k c k' r (waits e empty) same = absurd cc
Gets-now k c k' r (gets before after d j cut e first v) same =
    let (c_same, k_same) = some_parts (sym e ∙ same) in
    let none_before : before ≡ [] = nil_of before after cut in
    let at_once : contents k ≡ d ∷ contents j =
      ap (λ t. contents (irqs k t)) (sym none_before) ∙ first in
    (
      subst IsValid k_same v,
      at_once ∙ ap (λ t. t ∷ contents j) c_same ∙ ap (λ t. c ∷ contents t) k_same,
    )

Step-InOrder : {s t : Session} → Step s t → InOrder s → InOrder t
Step-InOrder {s} (key code byte) o = record {
  valid = irq_handler-IsValid s.keyboard o.valid code;
  in_order =
      ap (λ t. t ++ typed_by s.keyboard code) o.in_order
      ∙ append_assoc s.got (contents s.keyboard) (typed_by s.keyboard code)
      ∙ ap (λ t. s.got ++ t) (sym (contents-irq_handler s.keyboard code o.valid byte));
}
Step-InOrder {s} (read c k e) o =
    let (v, first) =
      Gets-now s.keyboard c k (getchar s.keyboard []) (getchar-Gets s.keyboard [] o.valid) e in
    record {
      valid = v;
      in_order =
          o.in_order ∙ ap (λ t. s.got ++ t) first ∙ sym (append_assoc s.got (c ∷ []) (contents k));
    }

init-empty : (k : Keyboard) → [] ≡ contents (init k)
unfolding init
init-empty k = refl

-- From keyboard_init on, through any sequence of interrupts and reads, the characters that were
-- read, and then those that wait, are the characters that were typed, in order and without loss; a
-- character counts as typed if its key has one and fewer than 255 characters wait.
pub Reach-InOrder :
    (k : Keyboard) {s : Session}
    → length k.buffer ≡ buf_size
    → Reach (record { keyboard = init k; typed = []; got = [] }) s
    → InOrder s
Reach-InOrder k size here = record { valid = init-IsValid k size; in_order = init-empty k }
Reach-InOrder k size (next r s) = Step-InOrder s (Reach-InOrder k size r)
