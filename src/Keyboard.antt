-- ===== src/Keyboard.antt =====
-- kernel/arch/i386/drivers/keyboard.c: scan codes of set 1 become characters in a ring buffer.
-- What port 0x60 holds is an argument of the handler; a character is its code.
pub mod Ring
pub mod Queue
pub mod Reader
pub mod Session
pub mod Modifiers
mod Tests
use simply_os.Base.{
  ℕ, zero, suc, ◌+◌, ◌%◌, bit_and, Bool, true, false, not, ◌&&◌, ◌||◌, xor, Option, none, some,
  List, [], ◌∷◌, ◌++◌, leb, ltb, ◌==◌, if◌then◌else◌, get_or, set, replicate,
}

abbrev pub buf_size : ℕ
buf_size = 256

-- The tables up to the last character; what follows in them is 0.
abbrev pub scancode_ascii : List ℕ
scancode_ascii =
    0 ∷ 27 ∷ 49 ∷ 50 ∷ 51 ∷ 52 ∷ 53 ∷ 54 ∷ 55 ∷ 56 ∷ 57 ∷ 48 ∷ 45 ∷ 61 ∷ 8 ∷ 9 ∷ 113 ∷ 119 ∷ 101
    ∷ 114 ∷ 116 ∷ 121 ∷ 117 ∷ 105 ∷ 111 ∷ 112 ∷ 91 ∷ 93 ∷ 10 ∷ 0 ∷ 97 ∷ 115 ∷ 100 ∷ 102 ∷ 103 ∷ 104
    ∷ 106 ∷ 107 ∷ 108 ∷ 59 ∷ 39 ∷ 96 ∷ 0 ∷ 92 ∷ 122 ∷ 120 ∷ 99 ∷ 118 ∷ 98 ∷ 110 ∷ 109 ∷ 44 ∷ 46 ∷ 47
    ∷ 0 ∷ 42 ∷ 0 ∷ 32 ∷ []

abbrev pub scancode_ascii_shift : List ℕ
scancode_ascii_shift =
    0 ∷ 27 ∷ 33 ∷ 64 ∷ 35 ∷ 36 ∷ 37 ∷ 94 ∷ 38 ∷ 42 ∷ 40 ∷ 41 ∷ 95 ∷ 43 ∷ 8 ∷ 9 ∷ 81 ∷ 87 ∷ 69 ∷ 82
    ∷ 84 ∷ 89 ∷ 85 ∷ 73 ∷ 79 ∷ 80 ∷ 123 ∷ 125 ∷ 10 ∷ 0 ∷ 65 ∷ 83 ∷ 68 ∷ 70 ∷ 71 ∷ 72 ∷ 74 ∷ 75 ∷ 76
    ∷ 58 ∷ 34 ∷ 126 ∷ 0 ∷ 124 ∷ 90 ∷ 88 ∷ 67 ∷ 86 ∷ 66 ∷ 78 ∷ 77 ∷ 60 ∷ 62 ∷ 63 ∷ 0 ∷ 42 ∷ 0 ∷ 32
    ∷ []

-- The static variables of the driver.
pub record Keyboard : Type 0 where
  pub buffer : List ℕ
  pub read_pos : ℕ
  pub write_pos : ℕ
  pub left_shift : Bool
  pub right_shift : Bool
  pub caps_lock : Bool
  pub extended : Bool

pub is_letter_scancode : ℕ → Bool
is_letter_scancode scancode =
    leb 0x10 scancode && leb scancode 0x19
    || leb 0x1E scancode && leb scancode 0x26
    || leb 0x2C scancode && leb scancode 0x32

pub scancode_to_ascii : Keyboard → ℕ → ℕ
scancode_to_ascii k scancode =
    let shift = k.left_shift || k.right_shift in
    let upper = if is_letter_scancode scancode then xor shift k.caps_lock else shift in
    if leb 128 scancode
    then 0
    else get_or (if upper then scancode_ascii_shift else scancode_ascii) scancode 0

pub buffer_push : Keyboard → ℕ → Keyboard
buffer_push k c =
    let next = (k.write_pos + 1) % buf_size in
    if next == k.read_pos
    then k
    else (record k { buffer = set k.buffer k.write_pos c; write_pos = next })

-- A key that was let go; the code is without its top bit.
pub key_released : Keyboard → ℕ → Keyboard
key_released k scancode =
    if scancode == 0x2A
    then (record k { left_shift = false; extended = false })
    else if scancode == 0x36
    then (record k { right_shift = false; extended = false })
    else (record k { extended = false })

-- The `switch` and what follows it.
pub key_pressed : Keyboard → ℕ → Keyboard
key_pressed k scancode =
    let c = scancode_to_ascii k scancode in
    if scancode == 0x2A
    then (record k { left_shift = true })
    else if scancode == 0x36
    then (record k { right_shift = true })
    else if scancode == 0x3A
    then (record k { caps_lock = not k.caps_lock })
    else if scancode == 0x1D || scancode == 0x38
    then k
    else if not (c == 0)
    then buffer_push k c
    else k

pub irq_handler : Keyboard → ℕ → Keyboard
irq_handler k scancode =
    if scancode == 0xE0
    then (record k { extended = true })
    else if not (bit_and scancode 0x80 == 0)
    then key_released k (bit_and scancode 0x7F)
    else if k.extended
    then (record k { extended = false })
    else key_pressed k scancode

-- The assignments of `keyboard_init`.
pub init : Keyboard → Keyboard
init k = record k {
  read_pos = 0;
  write_pos = 0;
  left_shift = false;
  right_shift = false;
  caps_lock = false;
  extended = false;
}

pub has_key : Keyboard → Bool
has_key k = not (k.read_pos == k.write_pos)

-- The loop of `keyboard_getchar`, with the scan codes that arrive while it halts; without a key and
-- without another scan code it waits, which is `none`. The result is the character, the state, and
-- the scan codes that are still to come.
pub getchar : Keyboard → List ℕ → Option (ℕ × Keyboard × List ℕ)
getchar k [] =
    if has_key k
    then some
        (get_or k.buffer k.read_pos 0, record k { read_pos = (k.read_pos + 1) % buf_size }, [])
    else none
getchar k (code ∷ codes) =
    let woken = getchar (irq_handler k code) codes in
    if has_key k
    then some (
      get_or k.buffer k.read_pos 0,
      record k { read_pos = (k.read_pos + 1) % buf_size },
      code ∷ codes,
    )
    else woken
