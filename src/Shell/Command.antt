-- ===== src/Shell/Command.antt =====
-- What a command shows, for every line.
use simply_os.Base.{
  ltb, ℕ, ◌≤◌, ◌<◌, ◌≡◌, ◌↔◌, refl, ◌∙◌, ap, arith, Bool, true, false, ◌&&◌, List, [], ◌∷◌, ◌++◌,
  length, length-append, All, All-mono, ◌==◌, if◌then◌else◌, Bool-cases, inl, inr, none, get_or,
}
use simply_os.Base.Text.{codes}
use simply_os.Libc.Print.{word, text}
use simply_os.Libc.Print.Render.{render, numeral}
use simply_os.Terminal.{Terminal, write}
use simply_os.Console.{Outcome, goes, halts, ◌>>=◌, say}
use simply_os.Console.Say.{say-words, say-fixed, say-text, is_text-IsBytes}
use simply_os.Console.Chain.{then_shows}
use simply_os.Pmm.{free_frames, total_frames, used_frames}
use simply_os.Paging.{translate}
use simply_os.Paging.Lookup.{page_found, load-faults}
use simply_os.Interrupts.Irq.{Registers}
use simply_os.Paging.Walk.{IsRecursive}
use simply_os.Fault.Report.{report, message, alarm, exception_handler-halts}
use simply_os.Shell.{World, streq, c_string, cmd_help, cmd_mem, cmd_pfault, after_read, execute}
use simply_os.Shell.Line.{Holds, IsChar, c_string-lem}

-- Equality of texts.
abbrev pub same_text : List ℕ → List ℕ → Bool
same_text [] [] = true
same_text [] (d ∷ ds) = false
same_text (c ∷ cs) [] = false
same_text (c ∷ cs) (d ∷ ds) = c == d && same_text cs ds

cons_parts : (x y : ℕ) (xs ys : List ℕ) → x ∷ xs ≡ y ∷ ys → (x ≡ y) × (xs ≡ ys)
cons_parts x y xs ys e = (cc e, cc e)

pub same_text_iff : (xs ys : List ℕ) → (same_text xs ys ≡ true) ↔ (xs ≡ ys)
same_text_iff [] [] = (λ e. refl, λ e. refl)
same_text_iff [] (y ∷ ys) = (λ e. absurd cc, λ e. absurd cc)
same_text_iff (x ∷ xs) [] = (λ e. absurd cc, λ e. absurd cc)
same_text_iff (x ∷ xs) (y ∷ ys) =
    let ih = same_text_iff xs ys in
    (
      λ e.
          let first : x ≡ y = ground arith in
          let others : xs ≡ ys = ih.0 (ground arith) in rw (first, others) refl,
      λ e.
          let (first, others) = cons_parts x y xs ys e in
          let same : same_text xs ys ≡ true = ih.1 others in ground arith,
    )

-- Two strings, each with its NUL and anything behind it, are equal for shell_streq if their
-- characters are.
pub streq-same_text :
    (xs ys behind : List ℕ)
    → All IsChar xs
    → All IsChar ys
    → streq (xs ++ (0 ∷ behind)) ys ≡ same_text xs ys
unfolding streq
streq-same_text [] [] behind hx hy = refl
streq-same_text [] (y ∷ ys) behind hx hy = ground (arith, hy.0)
streq-same_text (x ∷ xs) [] behind hx hy = ground (arith, hx.0)
streq-same_text (x ∷ xs) (y ∷ ys) behind hx hy =
    let one : (x == 0) ≡ false = ground (arith, hx.0) in
    let two : (y == 0) ≡ false = ground (arith, hy.0) in
    let ih = streq-same_text xs ys behind hx.1 hy.1 in
    elim (Bool-cases (x == y)) [
      | inl e ↦ rw (streq, one, two, e) ih
      | inr e ↦ rw (streq, one, two, e) refl
    ]

abbrev pub help_text : List ℕ
help_text =
    codes "Commands:\n"
    ++ (codes "  help   - this list\n"
        ++ (codes "  mem    - PMM and kheap statistics\n"
            ++ codes "  pfault - trigger page fault (halts kernel)\n"))

abbrev pub mem_text : World → List ℕ
mem_text w =
    (codes "PMM:  "
      ++ (numeral 10 (free_frames w.machine.pmm)
          ++ (codes " free / "
              ++ (numeral 10 (total_frames w.machine.pmm)
                  ++ (codes " frames ("
                      ++ (numeral 10 (used_frames w.machine.pmm) ++ codes " used)\n"))))))
    ++ (codes "Kheap: "
        ++ (numeral 10 w.heap_used
            ++ (codes " used / " ++ (numeral 10 w.heap_total ++ codes " bytes mapped\n"))))

abbrev pub unknown_text : List ℕ → List ℕ
unknown_text typed =
    (codes "Unknown command: " ++ (typed ++ codes "\n"))
    ++ codes "Type 'help' for a list of commands.\n"

abbrev pub pfault_text : List ℕ
pfault_text = codes "Triggering page fault at 0xDEAD0000...\n"

-- What a line means: the commands by name.
abbrev pub command : World → List ℕ → Terminal → Outcome Terminal
command w typed t =
    if same_text typed []
    then goes t
    else if same_text typed (codes "help")
    then goes (write help_text t)
    else if same_text typed (codes "mem")
    then goes (write (mem_text w) t)
    else if same_text typed (codes "pfault")
    then halts (write (report 0xDEAD0000 0 w.saved) (alarm (write pfault_text t)))
    else goes (write (unknown_text typed) t)

cmd_help-shows : (t : Terminal) → cmd_help t ≡ goes (write help_text t)
unfolding cmd_help render
cmd_help-shows t = then_shows _ _ _ _ t (say-fixed (codes "Commands:\n") t refl refl refl) (λ t.
    then_shows _ _ _ _ t (say-fixed (codes "  help   - this list\n") t refl refl refl) (λ t.
      then_shows _ _ _ _ t
        (say-fixed (codes "  mem    - PMM and kheap statistics\n") t refl refl refl)
        (λ t. say-fixed (codes "  pfault - trigger page fault (halts kernel)\n") t refl refl refl)))

cmd_mem-shows : (w : World) (t : Terminal) → cmd_mem w t ≡ goes (write (mem_text w) t)
unfolding cmd_mem render
cmd_mem-shows w t =
    let p = w.machine.pmm in
    then_shows _ _ _ _ t
      (say-words (codes "PMM:  %u free / %u frames (%u used)\n")
        (word (free_frames p) ∷ word (total_frames p) ∷ word (used_frames p) ∷ []) t _ refl
        (tt, (tt, (tt, tt))) refl refl)
      (λ t.
        say-words (codes "Kheap: %u used / %u bytes mapped\n")
          (word w.heap_used ∷ word w.heap_total ∷ []) t _ refl (tt, (tt, tt)) refl refl)

unknown-shows :
    (typed : List ℕ) (t : Terminal)
    → All IsChar typed
    → length typed ≤ 127
    → (say (codes "Unknown command: %s\n") (text typed ∷ []) t
        >>= say (codes "Type 'help' for a list of commands.\n") [])
      ≡ goes (write (unknown_text typed) t)
unfolding render
unknown-shows typed t chars short =
    then_shows _ _ _ _ t
      (say-text (codes "Unknown command: %s\n") (text typed ∷ []) t
        (codes "Unknown command: " ++ (typed ++ codes "\n"))
        (is_text-IsBytes (codes "Unknown command: %s\n") refl)
        (All-mono IsChar (λ c. c < 256) typed (λ c h. h.1) chars, tt) refl
        (omega (arith, short, length-append typed (codes "\n"))))
      (λ t. say-fixed (codes "Type 'help' for a list of commands.\n") t refl refl refl)

abbrev is_word : List ℕ → Bool
is_word [] = true
is_word (c ∷ cs) = ltb 0 c && ltb c 256 && is_word cs

-- The kernel has its page tables, and nothing is mapped at 0xDEAD0000.
pub record IsUp (w : World) : Type 0 where
  pub recursive : IsRecursive w.machine
  pub unmapped : translate w.machine 0xDEAD0000 ≡ none

cmd_pfault-halts :
    (w : World) (t : Terminal)
    → IsUp w
    → cmd_pfault w t ≡ halts (write (report 0xDEAD0000 0 w.saved) (alarm (write pfault_text t)))
unfolding cmd_pfault after_read render
cmd_pfault-halts w t known =
    let regs : Registers = record w.saved { int_no = 14 } in
    let shown = write pfault_text t in
    let found : message w.machine 0xDEAD0000 regs ≡ report 0xDEAD0000 0 w.saved =
      ap (λ o. report 0xDEAD0000 (page_found 0xDEAD0000 o) w.saved) known.unmapped in
    let fault =
      exception_handler-halts w.machine 0xDEAD0000 regs shown known.recursive (omega arith)
      ∙ ap (λ r. halts (write r (alarm shown))) found in
    let at = load-faults w.machine 0xDEAD0000 known.unmapped in
    rw (cmd_pfault, say-fixed pfault_text t refl refl refl, at) fault

first_char :
    (typed rest : List ℕ)
    → All IsChar typed
    → (get_or (typed ++ (0 ∷ rest)) 0 0 == 0) ≡ same_text typed []
first_char [] rest h = refl
first_char (c ∷ cs) rest h = ground (arith, h.0)

word_IsChar : (w : List ℕ) → is_word w ≡ true → All IsChar w
word_IsChar [] e = tt
word_IsChar (c ∷ cs) e = (ground arith, word_IsChar cs (ground arith))

-- shell_execute of a line buffer that holds a text does what the text says, if it is one of the
-- commands, and the report of the unknown command otherwise; of an empty line it does nothing.
pub execute-command :
    (w : World) (line : List ℕ) (len : ℕ) (typed : List ℕ) (t : Terminal)
    → IsUp w
    → Holds line len typed
    → execute w line t ≡ command w typed t
unfolding execute
execute-command w line len typed t known h =
    let at : line ≡ typed ++ (0 ∷ h.rest) = h.shape in
    let short : length typed ≤ 127 =
      omega (arith, h.size, ap length h.shape, length-append typed (0 ∷ h.rest)) in
    let empty : (get_or line 0 0 == 0) ≡ same_text typed [] =
      rw at (first_char typed h.rest h.chars) in
    let is = λ (name : List ℕ) (chars : All IsChar name).
      ap (λ l. streq l name) at ∙ streq-same_text typed name h.rest h.chars chars in
    let help = is (codes "help") (word_IsChar (codes "help") refl) in
    let mem = is (codes "mem") (word_IsChar (codes "mem") refl) in
    let pfault = is (codes "pfault") (word_IsChar (codes "pfault") refl) in
    let argument : c_string line ≡ typed = rw at (c_string-lem typed h.rest h.chars) in
    elim (Bool-cases (same_text typed [])) [
      | inl e ↦ rw (execute, empty, e) refl
      | inr e0 ↦ elim (Bool-cases (same_text typed (codes "help"))) [
        | inl e ↦ rw (execute, empty, help, e0, e) (cmd_help-shows t)
        | inr e1 ↦ elim (Bool-cases (same_text typed (codes "mem"))) [
          | inl e ↦ rw (execute, empty, help, mem, e0, e1, e) (cmd_mem-shows w t)
          | inr e2 ↦ elim (Bool-cases (same_text typed (codes "pfault"))) [
            | inl e ↦
                rw (execute, empty, help, mem, pfault, e0, e1, e2, e, cmd_pfault-halts w t known)
                  refl
            | inr e3 ↦
                rw (execute, empty, help, mem, pfault, argument, e0, e1, e2, e3)
                  (unknown-shows typed t h.chars short)
          ]
        ]
      ]
    ]
