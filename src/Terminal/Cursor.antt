-- ===== src/Terminal/Cursor.antt =====
-- Where characters go, and the cursor that the hardware shows.
use simply_os.Base.{
  ℕ, ◌+◌, ◌*◌, ◌<◌, ◌≡◌, refl, ◌∙◌, ap, sym, subst, arith, Bool, true, false, not, ◌||◌, ltb, leb,
  ◌==◌, if◌then◌else◌, Bool-cases, inl, inr,
}
use simply_os.Terminal.{
  Cells, put, width, height, vga_entry, Terminal, sync_cursor, scroll, newline, putentryat, print,
  putchar,
}
use simply_os.Terminal.Cells.{cells-scroll}

-- The cursor stands on the screen.
abbrev pub IsOn : Terminal → Type 0
IsOn t = (t.row < height) × (t.column < width)

abbrev pub position : Terminal → ℕ
position t = t.row * width + t.column

-- A character that is shown.
abbrev pub is_shown : ℕ → Bool
is_shown uc = not (uc == 10 || uc == 13 || uc == 8 || uc == 9 || uc == 27)

-- The cells after a scroll.
abbrev pub scrolled : Cells → ℕ → Cells
scrolled cells blank i =
    if ltb i 1920 then cells (i + width) else if ltb i 2000 then blank else cells i

pub newline-row :
    (t : Terminal)
    → t.row < height
    → ((newline t).row ≡ (if t.row == 24 then 24 else t.row + 1)) × ((newline t).column ≡ 0)
unfolding newline scroll
newline-row t on = ground arith

newline-cells :
    (t : Terminal) (i : ℕ)
    → t.row < height
    → (newline t).cells i
      ≡ (if t.row == 24 then scrolled t.cells (vga_entry 32 t.color) i else t.cells i)
unfolding newline
newline-cells t i on = elim (Bool-cases (t.row == 24)) [
  | inl last ↦
      let full : leb height (t.row + 1) ≡ true = ground arith in
      rw (last, full) (cells-scroll (record t { column = 0; row = t.row + 1 }) i)
  | inr more ↦ let room : leb height (t.row + 1) ≡ false = ground arith in rw (more, room) refl
]

pub sync_cursor-parts :
    (t : Terminal)
    → ((sync_cursor t).row ≡ t.row)
      × ((sync_cursor t).column ≡ t.column)
      × ((sync_cursor t).color ≡ t.color)
      × ((sync_cursor t).cells ≡ t.cells)
unfolding sync_cursor
sync_cursor-parts t = (refl, refl, refl, refl)

pub putchar-shown :
    (uc : ℕ) (t : Terminal) → is_shown uc ≡ true → putchar uc t ≡ sync_cursor (print uc t)
unfolding putchar
putchar-shown uc t shown = ground arith

abbrev pub printed : ℕ → Terminal → Terminal
printed uc t = record t {
  cells = put t.cells (position t) (vga_entry uc t.color);
  column = t.column + 1;
}

print-last :
    (uc : ℕ) (t : Terminal) → (t.column + 1 == width) ≡ true → print uc t ≡ newline (printed uc t)
unfolding print putentryat
print-last uc t e = rw e

pub print-inside :
    (uc : ℕ) (t : Terminal) → (t.column + 1 == width) ≡ false → print uc t ≡ printed uc t
unfolding print putentryat
print-inside uc t e = rw e

-- What a character that is shown does, with the cursor on the screen: it goes to the cell of the
-- cursor, the cursor moves on by one cell, and behind the last cell everything moves up by a row.
pub record Prints (uc : ℕ) (t t' : Terminal) : Type 0 where
  pub on : IsOn t'
  pub moves : position t' ≡ (if position t == 1999 then 1920 else position t + 1)
  pub shows :
      (i : ℕ)
      → t'.cells i ≡ (
          if position t == 1999
          then scrolled (put t.cells (position t) (vga_entry uc t.color)) (vga_entry 32 t.color) i
          else put t.cells (position t) (vga_entry uc t.color) i)

last_cell :
    (t : Terminal) → IsOn t → (t.column + 1 == width) ≡ true → (t.row == 24) ≡ (position t == 1999)
last_cell t on e = ground (arith, on)

pub print-Prints : (uc : ℕ) (t : Terminal) → IsOn t → Prints uc t (print uc t)
print-Prints uc t on = elim (Bool-cases (t.column + 1 == width)) [
  | inl end ↦
      let (r, c) = newline-row (printed uc t) on.0 in
      subst (Prints uc t) (sym (print-last uc t end)) (record {
        on = ground (arith, r, c, on.0);
        moves = ground (arith, r, c, on.0);
        shows = λ i. newline-cells (printed uc t) i on.0 ∙ rw (last_cell t on end) refl;
      })
  | inr more ↦
      let inside : (position t == 1999) ≡ false = ground (arith, on) in
      subst (Prints uc t) (sym (print-inside uc t more)) (record {
        on = (on.0, ground (arith, on.1));
        moves = ground (arith, on.0, on.1);
        shows = λ i. rw inside refl;
      })
]

-- With the cursor on the screen, terminal_putchar of a character other than newline, carriage
-- return, backspace, tab and escape writes it to the cell of the cursor and moves the cursor on by
-- one cell; behind the last cell everything moves up by a row and the last row is blank.
pub putchar-Prints :
    (uc : ℕ) (t : Terminal) → is_shown uc ≡ true → IsOn t → Prints uc t (putchar uc t)
putchar-Prints uc t shown on =
    let p = print-Prints uc t on in
    let (r, c, col, cells) = sync_cursor-parts (print uc t) in
    subst (Prints uc t) (sym (putchar-shown uc t shown)) (record {
      on = ground (arith, r, c, p.on);
      moves = ground (arith, r, c, p.moves);
      shows = λ i. ap (λ f. f i) cells ∙ p.shows i;
    })
