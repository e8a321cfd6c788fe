-- ===== src/Interrupts/Route.antt =====
-- The interrupt controllers and the interrupt table together.
use simply_os.Base.{
  true, ℕ, ◌+◌, ◌-◌, ◌<◌, ◌≡◌, refl, ◌∙◌, ap, arith, false, ltb, if◌then◌else◌, length,
}
use simply_os.Interrupts.Ports.{Bus, Chips}
use simply_os.Interrupts.Pic.{pic_init}
use simply_os.Interrupts.Pic.Remap.{pic_init-chips}
use simply_os.Interrupts.Idt.{Idt, idt_init, irq_init}
use simply_os.Interrupts.Idt.Gates.{entry, gate, idt-gates}

-- The vector that the controllers give to a request.
abbrev pub vector_of : Chips → ℕ → ℕ
vector_of (m, s) irq = if ltb irq 8 then m.base + irq else s.base + (irq - 8)

-- After idt_init, irq_init and pic_init, each request from 0 to 15 comes in at a gate that leads
-- to the stub of the same number.
pub request-routed :
    (b : Bus) (s : b.State) (exceptions requests : ℕ → ℕ) (address : ℕ) (t : Idt) (irq : ℕ)
    → length t.entries ≡ 256
    → irq < 16
    → entry
        (irq_init requests (idt_init exceptions address t))
        (vector_of (b.chips (pic_init b s)) irq)
      ≡ gate (requests irq)
request-routed b s exceptions requests address t irq size below =
    let vector : vector_of (b.chips (pic_init b s)) irq ≡ 32 + irq =
      ap (λ at. vector_of at irq) (pic_init-chips b s) ∙ ground arith in
    let low : ltb (32 + irq) 32 ≡ false = ground arith in
    let high : ltb (32 + irq) 48 ≡ true = ground arith in
    let line : 32 + irq - 32 ≡ irq = omega arith in
    rw vector (
      idt-gates exceptions requests address t (32 + irq) size (omega arith)
      ∙ rw (low, high, line) refl)
