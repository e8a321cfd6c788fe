-- ===== src/Shell/Session.antt =====
-- The shell as an editor of one line of text.
use simply_os.Base.{
  append_nil, append_assoc, length-append, All-mono, ℕ, ◌+◌, ◌-◌, ◌≤◌, ◌<◌, ◌≡◌, refl, ◌∙◌, ap,
  subst, arith, true, false, ◌&&◌, List, [], ◌∷◌, ◌++◌, length, set, All, ltb, leb, ◌==◌,
  if◌then◌else◌, Bool-cases, inl, inr,
}
use simply_os.Base.Text.{codes}
use simply_os.Terminal.{Terminal, write, putchar}
use simply_os.Terminal.Append.{write-nil, write-cons}
use simply_os.Console.{Outcome, goes, halts, strays, ◌>>=◌}
use simply_os.Shell.{
  Shell, World, line_max, is_printable, prompt_text, prompt, reset_line, key, keys_loop, welcome,
  run,
}
use simply_os.Shell.Line.{
  All-append, Holds, IsChar, drop_last, ended-Holds, reset-Holds, added-Holds, erased-Holds,
}
use simply_os.Shell.Command.{IsUp, command, same_text, execute-command}

-- The text of the line and the screen.
pub record Editor : Type 0 where
  pub typed : List ℕ
  pub screen : Terminal

-- Enter runs the command and shows the prompt on an empty line, backspace takes the last character
-- back, and a character that can be shown is added and echoed while the line has fewer than 127.
abbrev pub edit : World → ℕ → Editor → Outcome Editor
edit w c e =
    let shorter : Editor = record { typed = drop_last e.typed; screen = putchar 8 e.screen } in
    let longer : Editor = record { typed = e.typed ++ (c ∷ []); screen = putchar c e.screen } in
    let entered : Outcome Editor = (do
      t ← command w e.typed (putchar 10 e.screen)
      goes (record { typed = []; screen = write prompt_text t })) in
    if c == 10
    then entered
    else if c == 8
    then goes (if ltb 0 (length e.typed) then shorter else e)
    else if is_printable c && ltb (length e.typed) 127
    then goes longer
    else goes e

pub edit_all : World → List ℕ → Editor → Outcome Editor
edit_all w [] e = goes e
edit_all w (c ∷ cs) e = do next ← edit w c e; edit_all w cs next

-- The shell shows what the editor shows, and its buffer holds the text; both halt alike, and the
-- behaviour is never undefined.
abbrev pub Shows : Outcome Shell → Outcome Editor → Type 0
Shows (goes s) (goes e) = Holds s.line s.line_len e.typed × (s.screen ≡ e.screen)
Shows (goes s) (halts t) = ⊥
Shows (goes s) strays = ⊥
Shows (halts u) (goes e) = ⊥
Shows (halts u) (halts t) = u ≡ t
Shows (halts u) strays = ⊥
Shows strays o = ⊥

printable-IsChar : (c : ℕ) → c < 256 → is_printable c ≡ true → IsChar c
printable-IsChar c byte e = ground arith

abbrev IsDefined : {A : Type 0} → Outcome A → Type 0
IsDefined (goes a) = Unit
IsDefined (halts t) = Unit
IsDefined strays = ⊥

command-IsDefined : (w : World) (typed : List ℕ) (t : Terminal) → IsDefined (command w typed t)
command-IsDefined w typed t = elim (Bool-cases (same_text typed [])) [
  | inl e ↦ rw e tt
  | inr e0 ↦ elim (Bool-cases (same_text typed (codes "help"))) [
    | inl e ↦ rw (e0, e) tt
    | inr e1 ↦ elim (Bool-cases (same_text typed (codes "mem"))) [
      | inl e ↦ rw (e0, e1, e) tt
      | inr e2 ↦ elim (Bool-cases (same_text typed (codes "pfault"))) [
        | inl e ↦ rw (e0, e1, e2, e) tt
        | inr e3 ↦ rw (e0, e1, e2, e3) tt
      ]
    ]
  ]
]

-- A command and the prompt.
command_then_prompt :
    (o : Outcome Terminal) (line : List ℕ) (len : ℕ)
    → Holds (set line 0 0) 0 []
    → IsDefined o
    → Shows
        (o >>= λ t. goes (prompt (reset_line (record { line = line; line_len = len; screen = t }))))
        (o >>= λ t. goes (record { typed = []; screen = write prompt_text t }))
unfolding prompt reset_line
command_then_prompt (goes t) line len h ok = (h, refl)
command_then_prompt (halts t) line len h ok = refl
command_then_prompt strays line len h ok = absurd ok

module _ (w : World) (known : IsUp w) where
  key-edit :
      (c : ℕ) (s : Shell) (e : Editor)
      → c < 256
      → Shows (goes s) (goes e)
      → Shows (key w c s) (edit w c e)
  unfolding key
  key-edit c s e byte (h, same) = elim (Bool-cases (c == 10)) [
    | inl enter ↦
        let line = set s.line s.line_len 0 in
        let ended = ended-Holds s.line s.line_len e.typed h in
        let run = execute-command w line s.line_len e.typed (putchar 10 s.screen) known ended in
        rw (key, enter, run, same)
          (command_then_prompt (command w e.typed (putchar 10 e.screen)) line s.line_len
            (reset-Holds line ended.size) (command-IsDefined w e.typed (putchar 10 e.screen)))
    | inr a ↦ elim (Bool-cases (c == 8)) [
      | inl back ↦ elim (Bool-cases (ltb 0 s.line_len)) [
        | inl some_char ↦
            let there : ltb 0 (length e.typed) ≡ true = ground (arith, h.counted) in
            rw (key, a, back, some_char, there)
              (erased-Holds s.line s.line_len e.typed h (ground arith), ap (putchar 8) same)
        | inr empty ↦
            let nothing : ltb 0 (length e.typed) ≡ false = ground (arith, h.counted) in
            rw (key, a, back, empty, nothing) (h, same)
      ]
      | inr b ↦ elim (Bool-cases (is_printable c)) [
        | inr hidden ↦ rw (key, a, b, hidden) (h, same)
        | inl shown ↦ elim (Bool-cases (ltb (length e.typed) 127)) [
          | inl room ↦
              let free : leb (line_max - 1) s.line_len ≡ false = ground (arith, h.counted) in
              rw (key, a, b, shown, room, free)
                (
                  added-Holds s.line s.line_len e.typed h c (printable-IsChar c byte shown)
                      (ground arith),
                  ap (putchar c) same,
                )
          | inr full ↦
              let taken : leb (line_max - 1) s.line_len ≡ true = ground (arith, h.counted) in
              rw (key, a, b, shown, full, taken) (h, same)
        ]
      ]
    ]
  ]

  -- The keys behind the first one.
  then_keys :
      (cs : List ℕ)
      → ((s : Shell) (e : Editor)
          → Shows (goes s) (goes e)
          → Shows (keys_loop w cs s) (edit_all w cs e))
      → (o : Outcome Shell) (p : Outcome Editor) → Shows o p
      → Shows (o >>= keys_loop w cs) (p >>= edit_all w cs)
  then_keys cs ih (goes s') (goes e') h = ih s' e' h
  then_keys cs ih (halts t) (halts u) h = h
  then_keys cs ih (goes s') (halts u) h = absurd h
  then_keys cs ih (goes s') strays h = absurd h
  then_keys cs ih (halts t) (goes e') h = absurd h
  then_keys cs ih (halts t) strays h = absurd h
  then_keys cs ih strays p h = absurd h

  keys_loop-edit_all :
      (cs : List ℕ) (s : Shell) (e : Editor)
      → All (λ c. c < 256) cs
      → Shows (goes s) (goes e)
      → Shows (keys_loop w cs s) (edit_all w cs e)
  unfolding keys_loop edit_all
  keys_loop-edit_all [] s e bytes h = h
  keys_loop-edit_all (c ∷ cs) s e bytes h =
      then_keys cs (λ s' e' h'. keys_loop-edit_all cs s' e' bytes.1 h') (key w c s) (edit w c e)
        (key-edit c s e bytes.0 h)

  -- shell_run, from any line buffer of 128 bytes, on any bytes from the keyboard, with the
  -- recursive entry in place and nothing mapped at 0xDEAD0000, shows what the editor of one line
  -- shows that starts with the welcome and the prompt and takes lines of up to 127 characters, and
  -- keeps its text in the buffer, with the NUL behind it; it halts where the editor does, and
  -- never runs into undefined behaviour.
  pub run-edit_all :
      (cs : List ℕ) (s : Shell)
      → All (λ c. c < 256) cs
      → length s.line ≡ line_max
      → Shows (run w cs s) (
          edit_all w cs
            (record { typed = []; screen = write prompt_text (write welcome s.screen) }))
  unfolding run prompt reset_line
  run-edit_all cs s bytes size = keys_loop-edit_all cs _ _ bytes (reset-Holds s.line size, refl)

-- Characters that can be shown, and no line break or backspace.
abbrev pub IsTyped : ℕ → Type 0
IsTyped c = (c < 256) × (is_printable c ≡ true)

bind_goes : {A : Type 0} (o : Outcome A) → (o >>= λ x. goes x) ≡ o
bind_goes (goes a) = refl
bind_goes (halts t) = refl
bind_goes strays = refl

edit-typed :
    (w : World) (c : ℕ) (e : Editor)
    → IsTyped c
    → length e.typed < 127
    → edit w c e ≡ goes (record { typed = e.typed ++ (c ∷ []); screen = putchar c e.screen })
edit-typed w c e ok room =
    let no_enter : (c == 10) ≡ false = ground (arith, ok) in
    let no_back : (c == 8) ≡ false = ground (arith, ok) in
    let free : ltb (length e.typed) 127 ≡ true = ground arith in
    rw (no_enter, no_back, ok.1, free) refl

type_ahead :
    (w : World) (cs more before : List ℕ) (t : Terminal)
    → All IsTyped cs
    → length before + length cs ≤ 127
    → edit_all w (cs ++ more) (record { typed = before; screen = t })
      ≡ edit_all w more (record { typed = before ++ cs; screen = write cs t })
unfolding edit_all
type_ahead w [] more before t ok short = rw (append_nil before, ← write-nil t) refl
type_ahead w (c ∷ cs) more before t ok short =
    let one = edit-typed w c (record { typed = before; screen = t }) ok.0 (omega arith) in
    let ih =
      type_ahead w cs more (before ++ (c ∷ [])) (putchar c t) ok.1
        (omega (arith, length-append before (c ∷ []))) in
    rw (edit_all, one) (ih ∙ rw (append_assoc before (c ∷ []) cs, write-cons c cs t) refl)

-- A line of up to 127 characters that is typed into shell_run after its start, and then Enter,
-- with the recursive entry in place and nothing mapped at 0xDEAD0000: the characters are echoed,
-- the line break is shown, the line is executed as a command, which is the one of its name or the
-- report of an unknown one, and if that comes back the prompt is shown for an empty line.
pub run-command :
    (w : World) (typed : List ℕ) (s : Shell)
    → IsUp w
    → All IsTyped typed
    → length typed ≤ 127
    → length s.line ≡ line_max
    → Shows (run w (typed ++ (10 ∷ [])) s) (do
      t ← command w typed (putchar 10 (write typed (write prompt_text (write welcome s.screen))))
      goes (record { typed = []; screen = write prompt_text t }))
unfolding edit_all
run-command w typed s known ok short size =
    let start = write prompt_text (write welcome s.screen) in
    let bytes =
      All-append (λ c. c < 256) typed (10 ∷ [])
        (All-mono IsTyped (λ c. c < 256) typed (λ c h. h.0) ok) (omega arith, tt) in
    let shown = run-edit_all w known (typed ++ (10 ∷ [])) s bytes size in
    subst (Shows (run w (typed ++ (10 ∷ [])) s))
      (type_ahead w typed (10 ∷ []) [] start ok (omega arith) ∙ bind_goes _) shown
