-- ===== src/Keyboard/Modifiers.antt =====
-- Shift and Caps Lock.
use simply_os.Base.{
  ℕ, ◌+◌, ◌<◌, ◌≤◌, ◌≡◌, refl, arith, Bool, true, false, not, xor, ◌&&◌, ◌||◌, get_or, leb, ◌==◌,
  if◌then◌else◌, List, [], ◌∷◌,
}
use simply_os.Base.Loops.{every, every_lookup}
use simply_os.Keyboard.{
  Keyboard, is_letter_scancode, scancode_to_ascii, scancode_ascii, scancode_ascii_shift,
  irq_handler, key_pressed, key_released,
}
use simply_os.Keyboard.Reader.{irqs}

letter_row : ℕ → Bool
letter_row code =
    not (is_letter_scancode code)
    || leb 97 (get_or scancode_ascii code 0)
      && leb (get_or scancode_ascii code 0) 122
      && get_or scancode_ascii_shift code 0 + 32 == get_or scancode_ascii code 0

letter_table : every 128 letter_row ≡ true
unfolding every letter_row is_letter_scancode
letter_table = refl

letter_codes : (code : ℕ) → is_letter_scancode code ≡ true → code < 128
unfolding is_letter_scancode
letter_codes code e = ground arith

letter_facts :
    (code : ℕ)
    → is_letter_scancode code ≡ true
    → letter_row code ≡ true
    → (97 ≤ get_or scancode_ascii code 0)
      × (get_or scancode_ascii code 0 ≤ 122)
      × (get_or scancode_ascii_shift code 0 + 32 ≡ get_or scancode_ascii code 0)
unfolding letter_row
letter_facts code letter row = ground arith

-- A letter key gives the small letter, or the capital 32 codes below it exactly if one of Shift
-- and Caps Lock is on and the other is not.
pub scancode_to_ascii-letter :
    (k : Keyboard) (code : ℕ)
    → is_letter_scancode code ≡ true
    → (c : ℕ) × (97 ≤ c)
      × (c ≤ 122)
      × (scancode_to_ascii k code
            + (if xor (k.left_shift || k.right_shift) k.caps_lock then 32 else 0)
          ≡ c)
unfolding scancode_to_ascii
scancode_to_ascii-letter k code letter =
    let small = letter_codes code letter in
    let (lo, hi, row) =
      letter_facts code letter (every_lookup 128 letter_row code letter_table small) in
    (get_or scancode_ascii code 0, lo, hi, ground (arith, row))

-- The bytes that a keyboard sends for an arrow key while the left Shift is held: a release and a
-- press of Shift, each behind the prefix, around the key.
abbrev pub shifted_arrow : List ℕ
shifted_arrow = 0xE0 ∷ 0xAA ∷ 0xE0 ∷ 0x48 ∷ 0xE0 ∷ 0xC8 ∷ 0xE0 ∷ 0x2A ∷ []

-- After the bytes that a keyboard sends for an arrow key while the left Shift is held, the driver
-- takes the left Shift for let go, whatever its state was, and the rest of its state is as it was,
-- the prefix flag off.
pub irqs-shifted_arrow :
    (k : Keyboard) → irqs k shifted_arrow ≡ record k { left_shift = false; extended = false }
unfolding irq_handler key_pressed key_released
irqs-shifted_arrow k = refl
