-- ===== src/Terminal.antt =====
-- kernel/arch/i386/tty.c and vga.h: the screen in text mode, 80 by 25 cells, and its cursor.
pub mod Cells
pub mod Cursor
pub mod Crtc
pub mod Tab
pub mod Append
mod Tests
use simply_os.Base.{
  ℕ, zero, suc, ◌+◌, ◌-◌, ◌*◌, ◌/◌, ◌%◌, ◌^◌, bit_and, bit_or, Bool, not, ◌&&◌, List, [], ◌∷◌, u8,
  u16, ltb, leb, ◌==◌, if◌then◌else◌,
}

abbrev pub width : ℕ
width = 80

abbrev pub height : ℕ
height = 25

abbrev pub tab_width : ℕ
tab_width = 8

abbrev pub vga_entry_color : ℕ → ℕ → ℕ
vga_entry_color fg bg = u8 (bit_or fg (bg * 2 ^ 4))

unfoldable pub vga_entry : ℕ → ℕ → ℕ
vga_entry uc color = u16 (bit_or uc (color * 2 ^ 8))

-- Cells by their index from `VGA_MEMORY` on; the screen is the first 2000 of them.
abbrev pub Cells : Type 0
Cells = ℕ → ℕ

unfoldable pub put : Cells → ℕ → ℕ → Cells
put cells index v i = if i == index then v else cells i

-- `terminal_row`, `terminal_column`, `terminal_color`, the memory of the screen, and what went to
-- the ports, the latest first, as port and value.
pub record Terminal : Type 0 where
  pub row : ℕ
  pub column : ℕ
  pub color : ℕ
  pub cells : Cells
  pub out : List (ℕ × ℕ)

abbrev pub outb : ℕ → ℕ → Terminal → Terminal
outb port value t = record t { out = (port, value) ∷ t.out }

pub sync_cursor : Terminal → Terminal
sync_cursor t =
    let pos = u16 (t.row * width + t.column) in
    outb 0x3D5 (u8 (bit_and (pos / 2 ^ 8) 0xFF))
      (outb 0x3D4 0x0E (outb 0x3D5 (u8 (bit_and pos 0xFF)) (outb 0x3D4 0x0F t)))

-- The arguments are what the two reads of the port give.
pub enable_hw_cursor : ℕ → ℕ → Terminal → Terminal
enable_hw_cursor first second t =
    outb 0x3D5 (bit_or (bit_and second 0xE0) 15)
      (outb 0x3D4 0x0B (outb 0x3D5 (bit_or (bit_and first 0xC0) 0) (outb 0x3D4 0x0A t)))

-- The loops of `terminal_scroll`, with the rounds that are left.
pub copy_row : ℕ → ℕ → ℕ → Cells → Cells
copy_row y zero x cells = cells
copy_row y (suc left) x cells =
    copy_row y left (x + 1) (put cells ((y - 1) * width + x) (cells (y * width + x)))

pub copy_rows : ℕ → ℕ → Cells → Cells
copy_rows zero y cells = cells
copy_rows (suc left) y cells = copy_rows left (y + 1) (copy_row y width 0 cells)

-- A row of blanks.
pub clear_row : ℕ → ℕ → ℕ → ℕ → Cells → Cells
clear_row color y zero x cells = cells
clear_row color y (suc left) x cells =
    clear_row color y left (x + 1) (put cells (y * width + x) (vga_entry 32 color))

pub scroll : Terminal → Terminal
scroll t =
    let cells = clear_row t.color (height - 1) width 0 (copy_rows (height - 1) 1 t.cells) in
    let row : ℕ = if ltb 0 t.row then t.row - 1 else t.row in record t { cells = cells; row = row }

pub newline : Terminal → Terminal
newline t =
    let moved = record t { column = 0; row = t.row + 1 } in
    if leb height (t.row + 1) then scroll moved else moved

pub clear_rows : ℕ → ℕ → ℕ → Cells → Cells
clear_rows color zero y cells = cells
clear_rows color (suc left) y cells =
    clear_rows color left (y + 1) (clear_row color y width 0 cells)

pub initialize : ℕ → ℕ → Terminal → Terminal
initialize first second t =
    let color = vga_entry_color 7 0 in
    sync_cursor (
      enable_hw_cursor first second (record t {
        row = 0;
        column = 0;
        color = color;
        cells = clear_rows color height 0 t.cells;
      }))

pub setcolor : ℕ → Terminal → Terminal
setcolor color t = record t { color = color }

pub putentryat : ℕ → ℕ → ℕ → ℕ → Terminal → Terminal
putentryat c color x y t = record t { cells = put t.cells (y * width + x) (vga_entry c color) }

-- The loop for a tab, with fuel: the column reaches the width after at most 80 rounds.
pub tab : ℕ → Terminal → Terminal
tab zero t = t
tab (suc fuel) t =
    let rest =
      tab fuel (record (putentryat 32 t.color t.column t.row t) { column = t.column + 1 }) in
    if ltb t.column width && not (t.column % tab_width == 0) then rest else t

pub backspace : Terminal → Terminal
backspace t =
    if ltb 0 t.column
    then putentryat 32 t.color (t.column - 1) t.row (record t { column = t.column - 1 })
    else t

-- A character that is shown.
pub print : ℕ → Terminal → Terminal
print uc t =
    let shown = record (putentryat uc t.color t.column t.row t) { column = t.column + 1 } in
    if t.column + 1 == width then newline shown else shown

pub putchar : ℕ → Terminal → Terminal
putchar uc t =
    if uc == 10
    then sync_cursor (newline t)
    else if uc == 13
    then sync_cursor (record t { column = 0 })
    else if uc == 8
    then sync_cursor (backspace t)
    else if uc == 9
    then sync_cursor (tab 80 t)
    else if uc == 27
    then t
    else sync_cursor (print uc t)

-- `terminal_write` of the characters of an array, and so `terminal_writestring`.
pub write : List ℕ → Terminal → Terminal
write [] t = t
write (c ∷ data_left) t = write data_left (putchar c t)
