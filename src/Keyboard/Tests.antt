-- ===== src/Keyboard/Tests.antt =====
-- The driver on a few keys.
use simply_os.Base.{
  ℕ, ◌≡◌, refl, arith, [], ◌∷◌, ◌++◌, true, false, replicate, length-replicate, xor,
}
use simply_os.Keyboard.{
  Keyboard, buffer_push, irq_handler, key_pressed, scancode_to_ascii, is_letter_scancode, getchar,
  init, has_key,
}
use simply_os.Keyboard.Ring.{IsValid}
use simply_os.Keyboard.Queue.{typed_by}
use simply_os.Keyboard.Reader.{irqs, Gets, getchar-Gets}
use simply_os.Keyboard.Session.{Session, key, read, Reach, here, next, InOrder, Reach-InOrder}
use simply_os.Keyboard.Modifiers.{shifted_arrow, irqs-shifted_arrow}

abbrev blank : Keyboard
blank = record {
  buffer = replicate 256 0;
  read_pos = 0;
  write_pos = 0;
  left_shift = false;
  right_shift = false;
  caps_lock = true;
  extended = false;
}

blank-IsValid : IsValid blank
blank-IsValid = record {
  buffer_size = length-replicate {A = ℕ} 256 0;
  reads = omega arith;
  writes = omega arith;
}

getchar-Gets_example : Gets blank (0x2A ∷ 0x1E ∷ []) (getchar blank (0x2A ∷ 0x1E ∷ []))
getchar-Gets_example = getchar-Gets blank (0x2A ∷ 0x1E ∷ []) blank-IsValid

abbrev shift_held : Keyboard
shift_held = record blank { left_shift = true }

irqs-shifted_arrow_example :
    irqs shift_held shifted_arrow ≡ record blank { left_shift = false; extended = false }
irqs-shifted_arrow_example = irqs-shifted_arrow shift_held

-- The key A is pressed and read.
abbrev after_key : Session
after_key = record {
  keyboard = irq_handler (init blank) 0x1E;
  typed = [] ++ typed_by (init blank) 0x1E;
  got = [];
}

abbrev after_read : Session
after_read = record {
  keyboard = record (irq_handler (init blank) 0x1E) { read_pos = 1 };
  typed = after_key.typed;
  got = [] ++ (97 ∷ []);
}

a_read : Reach (record { keyboard = init blank; typed = []; got = [] }) after_read
unfolding getchar has_key irq_handler key_pressed scancode_to_ascii is_letter_scancode buffer_push
    init mathlib.Core.Bool.xor
a_read = next (next here (key 0x1E (omega arith))) (read 97 _ refl)

Reach-InOrder_example : InOrder after_read
Reach-InOrder_example = Reach-InOrder blank (length-replicate {A = ℕ} 256 0) a_read
