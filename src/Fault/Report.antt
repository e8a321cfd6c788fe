-- ===== src/Fault/Report.antt =====
-- The text of a page fault.
use simply_os.Base.{
  ℕ, ◌^◌, ◌<◌, ◌≡◌, refl, ◌∙◌, sym, ap, bit_and, List, [], ◌∷◌, ◌++◌, ◌==◌, ltb, if◌then◌else◌,
  some, Bool-cases, inl, inr, get_or,
}
use simply_os.Base.Text.{codes}
use simply_os.Libc.Print.{word, digits_loop}
use simply_os.Libc.Print.Render.{render, numeral}
use simply_os.Terminal.{Terminal, write, setcolor, vga_entry_color}
use simply_os.Terminal.Append.{write-append, write-nil}
use simply_os.Console.{goes, halts, say}
use simply_os.Console.Chain.{then_shows, either, either_fixed, then_halts, continue_halts}
use simply_os.Console.Say.{say-words, say-fixed}
use simply_os.Paging.{translate, get_physical}
use simply_os.Paging.Walk.{IsRecursive}
use simply_os.Paging.Lookup.{page_found, get_physical-translate}
use simply_os.Paging
use simply_os.Interrupts.Irq.{Registers}
use simply_os.Fault.{
  print_error_code, say_mapping, page_fault_handler, exception_handler, exception_messages,
}

abbrev pub bit_text : ℕ → ℕ → List ℕ → List ℕ → List ℕ
bit_text err bit clear set = if bit_and err bit == 0 then clear else set

-- The line of the error code.
abbrev pub cause : ℕ → List ℕ
cause err =
    codes "  cause:"
    ++ (bit_text err 0x1 (codes " not-present") (codes " protection-violation")
        ++ (bit_text err 0x2 (codes " read") (codes " write")
            ++ (bit_text err 0x4 (codes " supervisor") (codes " user-mode")
                ++ (bit_text err 0x8 [] (codes " reserved-bit-set")
                    ++ (bit_text err 0x10 [] (codes " instruction-fetch")
                        ++ (codes " (err=0x" ++ (numeral 16 err ++ codes ")\n")))))))

err_line :
    (err : ℕ) (t : Terminal)
    → say (codes " (err=0x%x)\n") (word err ∷ []) t
      ≡ goes (write (codes " (err=0x" ++ (numeral 16 err ++ codes ")\n")) t)
unfolding render
err_line err t =
    say-words (codes " (err=0x%x)\n") (word err ∷ []) t
      (codes " (err=0x" ++ (numeral 16 err ++ codes ")\n")) refl (tt, tt) refl refl

print_error_code-shows :
    (err : ℕ) (t : Terminal) → print_error_code err t ≡ goes (write (cause err) t)
unfolding print_error_code render
print_error_code-shows err t =
    then_shows _ _ _ _ t (say-fixed (codes "  cause:") t refl refl refl) (λ t.
      then_shows _ _ _ _ t
        (either_fixed _ _ _ t (say-fixed (codes " not-present") t refl refl refl)
          (say-fixed (codes " protection-violation") t refl refl refl))
        (λ t.
          then_shows _ _ _ _ t
            (either_fixed _ _ _ t (say-fixed (codes " read") t refl refl refl)
              (say-fixed (codes " write") t refl refl refl))
            (λ t.
              then_shows _ _ _ _ t
                (either_fixed _ _ _ t (say-fixed (codes " supervisor") t refl refl refl)
                  (say-fixed (codes " user-mode") t refl refl refl))
                (λ t.
                  then_shows _ _ (bit_text err 0x8 [] (codes " reserved-bit-set")) _ t
                    (either (bit_and err 0x8 == 0) [] (codes " reserved-bit-set") (goes t) _ t
                      (ap goes (write-nil t))
                      (say-fixed (codes " reserved-bit-set") t refl refl refl))
                    (λ t.
                      then_shows _ _ (bit_text err 0x10 [] (codes " instruction-fetch")) _ t
                        (either (bit_and err 0x10 == 0) [] (codes " instruction-fetch") (goes t) _ t
                          (ap goes (write-nil t))
                          (say-fixed (codes " instruction-fetch") t refl refl refl))
                        (λ t. err_line err t))))))

-- What the report says of the address: where it is mapped, if it is.
abbrev pub mapping : ℕ → List ℕ
mapping phys =
    if phys == 0
    then codes "  paging: not mapped in page tables\n"
    else codes "  paging: mapped -> phys 0x" ++ (numeral 16 phys ++ codes "\n")

say_mapping-shows :
    (phys : ℕ) (t : Terminal) → say_mapping (some phys) t ≡ goes (write (mapping phys) t)
unfolding say_mapping render
say_mapping-shows phys t =
    either (phys == 0) _ _ _ _ t
      (say-fixed (codes "  paging: not mapped in page tables\n") t refl refl refl)
      (say-words (codes "  paging: mapped -> phys %p\n") (word phys ∷ []) t
        (codes "  paging: mapped -> phys 0x" ++ (numeral 16 phys ++ codes "\n")) refl (tt, tt) refl
        refl)

abbrev pub pointer : ℕ → List ℕ
pointer w = 48 ∷ 120 ∷ numeral 16 w

abbrev pub cr2_text : ℕ → List ℕ
cr2_text cr2 = codes "  CR2 (fault addr): " ++ (pointer cr2 ++ codes "\n")

abbrev pub eip_text : ℕ → ℕ → List ℕ
eip_text eip cs =
    codes "  EIP: " ++ (pointer eip ++ (codes "  CS: 0x" ++ (numeral 16 cs ++ codes "\n")))

abbrev pub registers_text : Registers → List ℕ
registers_text regs =
    codes "  EAX: "
    ++ (pointer regs.eax
        ++ (codes "  EBX: "
            ++ (pointer regs.ebx
                ++ (codes "  ECX: "
                    ++ (pointer regs.ecx
                        ++ (codes "  EDX: " ++ (pointer regs.edx ++ codes "\n")))))))

-- The report of a page fault at `cr2`, for what paging_get_physical gives.
abbrev pub report : ℕ → ℕ → Registers → List ℕ
report cr2 phys regs =
    codes "Page Fault (#14)\n"
    ++ (cr2_text cr2
        ++ (cause regs.err_code
            ++ (eip_text regs.eip regs.cs ++ (registers_text regs ++ mapping phys))))

module _ (t : Terminal) where
  vector_line :
      say (codes "Page Fault (#%u)\n") (word 14 ∷ []) t
      ≡ goes (write (codes "Page Fault (#14)\n") t)
  unfolding render digits_loop
  vector_line =
      say-words (codes "Page Fault (#%u)\n") (word 14 ∷ []) t (codes "Page Fault (#14)\n") refl
        (tt, tt) refl refl

  cr2_line :
      (cr2 : ℕ)
      → say (codes "  CR2 (fault addr): %p\n") (word cr2 ∷ []) t ≡ goes (write (cr2_text cr2) t)
  unfolding render
  cr2_line cr2 =
      say-words (codes "  CR2 (fault addr): %p\n") (word cr2 ∷ []) t (cr2_text cr2) refl (tt, tt)
        refl refl

  eip_line :
      (eip cs : ℕ)
      → say (codes "  EIP: %p  CS: 0x%x\n") (word eip ∷ word cs ∷ []) t
        ≡ goes (write (eip_text eip cs) t)
  unfolding render
  eip_line eip cs =
      say-words (codes "  EIP: %p  CS: 0x%x\n") (word eip ∷ word cs ∷ []) t (eip_text eip cs) refl
        (tt, (tt, tt)) refl refl

  registers_line :
      (r : Registers)
      → say
          (codes "  EAX: %p  EBX: %p  ECX: %p  EDX: %p\n")
          (word r.eax ∷ word r.ebx ∷ word r.ecx ∷ word r.edx ∷ [])
          t
        ≡ goes (write (registers_text r) t)
  unfolding render
  registers_line r =
      say-words (codes "  EAX: %p  EBX: %p  ECX: %p  EDX: %p\n")
        (word r.eax ∷ word r.ebx ∷ word r.ecx ∷ word r.edx ∷ []) t (registers_text r) refl
        (tt, (tt, (tt, (tt, tt)))) refl refl

abbrev pub alarm : Terminal → Terminal
alarm t = setcolor (vga_entry_color 12 0) t

page_fault_handler-halts :
    (m : Paging.Machine) (cr2 phys : ℕ) (regs : Registers) (t : Terminal)
    → get_physical cr2 m ≡ some phys
    → page_fault_handler m cr2 regs t ≡ halts (write (report cr2 phys regs) (alarm t))
unfolding page_fault_handler
page_fault_handler-halts m cr2 phys regs t found =
    continue_halts _ _ _ _ (alarm t) (vector_line (alarm t)) (λ t.
      continue_halts _ _ _ _ t (cr2_line t cr2) (λ t.
        continue_halts _ _ _ _ t (print_error_code-shows regs.err_code t) (λ t.
          continue_halts _ _ _ _ t (eip_line t regs.eip regs.cs) (λ t.
            continue_halts _ _ _ _ t (registers_line t regs) (λ t.
              then_halts _ _ t (ap (λ o. say_mapping o t) found ∙ say_mapping-shows phys t))))))

-- What an exception shows.
abbrev pub message : Paging.Machine → ℕ → Registers → List ℕ
message m cr2 regs =
    if regs.int_no == 14
    then report cr2 (page_found cr2 (translate m cr2)) regs
    else codes "EXCEPTION! "
      ++ (if ltb regs.int_no 32 then get_or exception_messages regs.int_no [] else [])

-- exception_handler, with the recursive entry of the page directory in place, always halts, with
-- the message in light red: for a page fault the report, with the page that the processor would
-- translate the address to, for another the name of the exception.
pub exception_handler-halts :
    (m : Paging.Machine) (cr2 : ℕ) (regs : Registers) (t : Terminal)
    → IsRecursive m
    → cr2 < 2 ^ 32
    → exception_handler m cr2 regs t ≡ halts (write (message m cr2 regs) (alarm t))
unfolding exception_handler
exception_handler-halts m cr2 regs t rec small = elim (Bool-cases (regs.int_no == 14)) [
  | inl fault ↦
      let found = get_physical-translate m cr2 rec small in
      rw
        (
          exception_handler,
          fault,
          page_fault_handler-halts m cr2 (page_found cr2 (translate m cr2)) regs t found,
        )
        refl
  | inr other ↦
      let name = get_or exception_messages regs.int_no [] in
      let first = codes "EXCEPTION! " in
      elim (Bool-cases (ltb regs.int_no 32)) [
        | inl known ↦
            rw (exception_handler, other, known)
              (ap halts (sym (write-append first name (alarm t))))
        | inr unknown ↦
            rw (exception_handler, other, unknown)
              (ap halts (write-nil (write first (alarm t)) ∙ sym (write-append first [] (alarm t))))
      ]
]
