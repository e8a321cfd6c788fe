-- ===== src/Interrupts/Pic/Remap.antt =====
-- What pic_init and pic_send_eoi do to the two controllers.
use simply_os.Base.{ℕ, ◌≡◌, refl, ◌∙◌, ap, arith, true, false, List, ltb, leb, Bool-cases, inl, inr}
use simply_os.Interrupts.Ports.{Bus, Chip, Chips, ready, write, accept, io_wait, chips-io_wait}
use simply_os.Interrupts.Pic.{pic_init, pic_send_eoi}

-- A controller after the initialisation: one of two, with edges for interrupts, in the mode for 8086
-- processors, with an end of interrupt to be sent for each, and with all lines masked.
abbrev pub remapped : ℕ → ℕ → List ℕ → Chip
remapped base cascade in_service = record {
  phase = ready;
  level_triggered = false;
  single = false;
  wants_icw4 = true;
  base = base;
  cascade = cascade;
  is_8086 = true;
  auto_eoi = false;
  buffered = false;
  special_nested = false;
  mask = 0xFF;
  in_service = in_service;
}

-- A write, and a write and the pause after it, from controllers that are known.
module _ (b : Bus) (port value : ℕ) (s : b.State) {at : Chips} (known : b.chips s ≡ at) where
  pub outb-chips : b.chips (b.outb port value s) ≡ write port value at
  outb-chips = b.chips-outb port value s ∙ ap (write port value) known

  step-chips : b.chips (io_wait b (b.outb port value s)) ≡ write port value at
  step-chips = chips-io_wait b (b.outb port value s) ∙ outb-chips

-- Whatever the two controllers were at, pic_init leaves them ready for work: two of them, with
-- edges for interrupts, in the 8086 mode, with an end of interrupt to be sent for each, not
-- buffered and not special fully nested, with vectors 32 to 39 and 40 to 47, the slave on line 2
-- of the master and every line masked. What was in service still is.
pub pic_init-chips :
    (b : Bus) (s : b.State)
    → b.chips (pic_init b s)
      ≡ (remapped 32 4 (b.chips s).0.in_service, remapped 40 2 (b.chips s).1.in_service)
unfolding pic_init
pic_init-chips b s = outb-chips b _ _ _ (
    outb-chips b _ _ _ (
      step-chips b _ _ _ (
        step-chips b _ _ _ (
          step-chips b _ _ _ (
            step-chips b _ _ _ (
              step-chips b _ _ _
                (step-chips b _ _ _ (step-chips b _ _ _ (step-chips b _ _ s refl)))))))))

-- After the processor took an interrupt, pic_send_eoi for it leaves both controllers as before it.
pub chips-pic_send_eoi :
    (b : Bus) (irq : ℕ) (s : b.State) (at : Chips)
    → b.chips s ≡ accept irq at
    → b.chips (pic_send_eoi b irq s) ≡ at
unfolding pic_send_eoi
chips-pic_send_eoi b irq s at taken = elim (Bool-cases (leb 8 irq)) [
  | inl slave ↦
      let high : ltb irq 8 ≡ false = ground arith in
      rw (pic_send_eoi, slave) (outb-chips b _ _ _ (outb-chips b _ _ s taken) ∙ rw high refl)
  | inr master ↦
      let low : ltb irq 8 ≡ true = ground arith in
      rw (pic_send_eoi, master) (outb-chips b _ _ s taken ∙ rw low refl)
]
