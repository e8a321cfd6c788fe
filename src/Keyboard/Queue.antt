-- ===== src/Keyboard/Queue.antt =====
-- The handler and the reader around the buffer: characters come out in the order in which they were
-- typed.
use simply_os.Base.{
  append_nil, ℕ, ◌<◌, ◌≡◌, refl, ◌∙◌, ap, sym, subst, arith, List, [], ◌∷◌, ◌++◌, Bool, true, false,
  not, ◌&&◌, ◌||◌, ◌==◌, if◌then◌else◌, ltb, Bool-cases, inl, inr, bit_and,
}
use simply_os.Base.Bits.{bit_and_bit}
use simply_os.Keyboard.{
  Keyboard, buffer_push, scancode_to_ascii, irq_handler, key_pressed, key_released,
  is_letter_scancode,
}
use simply_os.Keyboard.Ring.{IsValid, contents, room, contents-buffer_push, buffer_push-IsValid}

-- The character that a scan code adds: none for a prefix, a release, an extended key, a key without
-- a character, or a full buffer.
abbrev pub typed_by : Keyboard → ℕ → List ℕ
typed_by k code =
    if ltb code 0x80 && not k.extended && not (scancode_to_ascii k code == 0) && room k
    then scancode_to_ascii k code ∷ []
    else []

is_release : (code : ℕ) → code < 256 → (bit_and code 0x80 == 0) ≡ ltb code 0x80
is_release code byte = ground (arith, bit_and_bit 7 code)

-- The keys that the `switch` handles have no character.
no_character :
    (k : Keyboard) (code : ℕ)
    → (code == 0x2A || code == 0x36 || code == 0x3A || code == 0x1D || code == 0x38) ≡ true
    → scancode_to_ascii k code ≡ 0
unfolding scancode_to_ascii is_letter_scancode
no_character k code e = ground arith

contents-key_released : (k : Keyboard) (code : ℕ) → contents (key_released k code) ≡ contents k
unfolding key_released
contents-key_released k code = ground arith

abbrev is_special : ℕ → Bool
is_special code = code == 0x2A || code == 0x36 || code == 0x3A || code == 0x1D || code == 0x38

contents-special :
    (k : Keyboard) (code : ℕ) → is_special code ≡ true → contents (key_pressed k code) ≡ contents k
unfolding key_pressed
contents-special k code e = ground arith

key_pressed-plain :
    (k : Keyboard) (code : ℕ)
    → is_special code ≡ false
    → key_pressed k code ≡ (
        if not (scancode_to_ascii k code == 0) then buffer_push k (scancode_to_ascii k code) else k)
unfolding key_pressed
key_pressed-plain k code e = ground arith

abbrev added : Keyboard → ℕ → List ℕ
added k c = if not (c == 0) && room k then c ∷ [] else []

contents-plain :
    (k : Keyboard) (c : ℕ)
    → IsValid k
    → contents (if not (c == 0) then buffer_push k c else k) ≡ contents k ++ added k c
contents-plain k c v = elim (Bool-cases (not (c == 0))) [
  | inl some_char ↦ elim (Bool-cases (room k)) [
    | inl e ↦ rw (some_char, e) (contents-buffer_push k c v ∙ rw e refl)
    | inr e ↦ rw (some_char, e) (contents-buffer_push k c v ∙ rw e (sym (append_nil (contents k))))
  ]
  | inr no_char ↦ rw no_char (sym (append_nil (contents k)))
]

contents-key_pressed :
    (k : Keyboard) (code : ℕ)
    → IsValid k
    → contents (key_pressed k code) ≡ contents k ++ added k (scancode_to_ascii k code)
contents-key_pressed k code v = elim (Bool-cases (is_special code)) [
  | inl special ↦
      rw (contents-special k code special, no_character k code special)
        (sym (append_nil (contents k)))
  | inr plain ↦ rw (key_pressed-plain k code plain) (contents-plain k (scancode_to_ascii k code) v)
]

irq_handler-press :
    (k : Keyboard) (code : ℕ)
    → (code == 0xE0) ≡ false
    → (bit_and code 0x80 == 0) ≡ true
    → k.extended ≡ false
    → irq_handler k code ≡ key_pressed k code
unfolding irq_handler
irq_handler-press k code other press plain = ground arith

typed_by-press :
    (k : Keyboard) (code : ℕ)
    → ltb code 0x80 ≡ true
    → k.extended ≡ false
    → typed_by k code ≡ added k (scancode_to_ascii k code)
typed_by-press k code press plain = ground arith

-- Whatever the scan code, keyboard_irq_handler on a valid state leaves what waits to be read as it
-- is and adds at most one character at the end: the one of the tables, if the code is a press of a
-- key that has one, without the prefix of the extended keys before it, while fewer than 255
-- characters wait.
pub contents-irq_handler :
    (k : Keyboard) (code : ℕ)
    → IsValid k
    → code < 256
    → contents (irq_handler k code) ≡ contents k ++ typed_by k code
unfolding irq_handler
contents-irq_handler k code v byte = elim (Bool-cases (code == 0xE0)) [
  | inl prefix ↦
      let high : ltb code 0x80 ≡ false = ground arith in
      rw (prefix, high) (sym (append_nil (contents k)))
  | inr other ↦ elim (Bool-cases (ltb code 0x80)) [
    | inl press ↦ elim (Bool-cases k.extended) [
      | inl ext ↦ rw (other, is_release code byte, press, ext) (sym (append_nil (contents k)))
      | inr plain ↦
          ap contents (irq_handler-press k code other (is_release code byte ∙ press) plain)
          ∙ contents-key_pressed k code v
          ∙ ap (λ t. contents k ++ t) (sym (typed_by-press k code press plain))
    ]
    | inr release ↦
        rw (other, is_release code byte, release)
          (contents-key_released k (bit_and code 0x7F) ∙ sym (append_nil (contents k)))
  ]
]

module _ (k : Keyboard) (v : IsValid k) where
  IsValid-flags :
      (l r c e : Bool)
      → IsValid (record k { left_shift = l; right_shift = r; caps_lock = c; extended = e })
  IsValid-flags l r c e = record { buffer_size = v.buffer_size; reads = v.reads; writes = v.writes }

  special_same :
      (code : ℕ)
      → is_special code ≡ true
      → ((key_pressed k code).buffer ≡ k.buffer)
        × ((key_pressed k code).read_pos ≡ k.read_pos)
        × ((key_pressed k code).write_pos ≡ k.write_pos)
  unfolding key_pressed
  special_same code special = ground arith

  special-IsValid : (code : ℕ) → is_special code ≡ true → IsValid (key_pressed k code)
  special-IsValid code special =
      let (b, r, w) = special_same code special in
      record { buffer_size = rw b v.buffer_size; reads = rw r v.reads; writes = rw w v.writes }

  irq_handler-ext :
      (code : ℕ)
      → (code == 0xE0) ≡ false
      → not (bit_and code 0x80 == 0) ≡ false
      → k.extended ≡ true
      → irq_handler k code ≡ record k { extended = false }
  unfolding irq_handler
  irq_handler-ext code e f x = ground arith

  key_released-IsValid : (code : ℕ) → IsValid (key_released k code)
  unfolding key_released
  key_released-IsValid code = elim (Bool-cases (code == 0x2A)) [
    | inl e ↦ rw e (IsValid-flags _ _ _ _)
    | inr e ↦ elim (Bool-cases (code == 0x36)) [
      | inl f ↦ rw (e, f) (IsValid-flags _ _ _ _)
      | inr f ↦ rw (e, f) (IsValid-flags _ _ _ _)
    ]
  ]

  plain-IsValid : (c : ℕ) → IsValid (if not (c == 0) then buffer_push k c else k)
  plain-IsValid c = elim (Bool-cases (not (c == 0))) [
    | inl e ↦ rw e (buffer_push-IsValid k c v)
    | inr e ↦ rw e v
  ]

  key_pressed-IsValid : (code : ℕ) → IsValid (key_pressed k code)
  key_pressed-IsValid code = elim (Bool-cases (is_special code)) [
    | inl special ↦ special-IsValid code special
    | inr plain ↦ rw (key_pressed-plain k code plain) (plain-IsValid (scancode_to_ascii k code))
  ]

  pub irq_handler-IsValid : (code : ℕ) → IsValid (irq_handler k code)
  unfolding irq_handler
  irq_handler-IsValid code = elim (Bool-cases (code == 0xE0)) [
    | inl e ↦ rw e (IsValid-flags _ _ _ _)
    | inr e ↦ elim (Bool-cases (not (bit_and code 0x80 == 0))) [
      | inl f ↦ rw (e, f) (key_released-IsValid (bit_and code 0x7F))
      | inr f ↦ elim (Bool-cases k.extended) [
        | inl x ↦ subst IsValid (sym (irq_handler-ext code e f x)) (IsValid-flags _ _ _ false)
        | inr x ↦
            subst IsValid (sym (irq_handler-press k code e (ground arith) x))
              (key_pressed-IsValid code)
      ]
    ]
  ]
