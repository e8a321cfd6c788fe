-- ===== src/Terminal/Cells.antt =====
-- What the loops do to the cells of the screen.
use simply_os.Base.{
  ℕ, zero, suc, ◌+◌, ◌-◌, ◌*◌, ◌^◌, ◌<◌, ◌≡◌, ◌∙◌, ap, arith, Bool, ◌&&◌, ltb, leb, if◌then◌else◌,
  bit_or, ℕ_discrete,
}
use simply_os.Base.Bits.{bit_or_split, bit_or-zero, zero-bit_or}
use simply_os.Terminal.{
  Cells, put, width, vga_entry, copy_row, copy_rows, clear_row, clear_rows, Terminal, scroll,
}

-- A cell has the character in its low byte and the color in its high byte.
pub vga_entry-lem : (uc color : ℕ) → uc < 256 → color < 256 → vga_entry uc color ≡ color * 256 + uc
unfolding vga_entry
vga_entry-lem uc color byte color_byte =
    let s = bit_or_split 8 0 uc color 0 byte (omega arith) in
    let shape : bit_or uc (color * 2 ^ 8) ≡ bit_or (0 * 2 ^ 8 + uc) (color * 2 ^ 8 + 0) =
      ap (λ t. bit_or t (color * 2 ^ 8)) (omega arith)
      ∙ ap (bit_or (0 * 2 ^ 8 + uc)) (omega arith) in
    let sum : bit_or uc (color * 2 ^ 8) ≡ color * 256 + uc =
      shape ∙ s ∙ omega (arith, zero-bit_or color, bit_or-zero uc) in
    rw sum (omega arith)

abbrev pub between : ℕ → ℕ → ℕ → Bool
between lo hi i = leb lo i && ltb i hi

copy_row-lem :
    (y left x i : ℕ) (cells : Cells)
    → 0 < y
    → copy_row y left x cells i ≡ (
        if between ((y - 1) * width + x) ((y - 1) * width + x + left) i
        then cells (i + width)
        else cells i)
unfolding copy_row put
copy_row-lem y zero x i cells pos = ground arith
copy_row-lem y (suc left) x i cells pos =
    let src : y * width + x ≡ (y - 1) * width + x + width = omega arith in
    let next = put cells ((y - 1) * width + x) (cells (y * width + x)) in
    rw (copy_row-lem y left (x + 1) i next pos) (elim (ℕ_discrete i ((y - 1) * width + x)) [
      | yes here ↦ ground (arith, ap cells src, ap (λ t. cells (t + width)) here)
      | no apart ↦ ground arith
    ])

copy_rows-lem :
    (left y i : ℕ) (cells : Cells)
    → 0 < y
    → copy_rows left y cells i ≡ (
        if between ((y - 1) * width) ((y - 1 + left) * width) i then cells (i + width) else cells i)
unfolding copy_rows
copy_rows-lem zero y i cells pos = ground arith
copy_rows-lem (suc left) y i cells pos =
    let before : y + 1 - 1 ≡ y = omega arith in
    ground (
      arith,
      copy_rows-lem left (y + 1) i (copy_row y width 0 cells) (omega arith),
      copy_row-lem y width 0 i cells pos,
      copy_row-lem y width 0 (i + width) cells pos,
    )

pub clear_row-lem :
    (color y left x i : ℕ) (cells : Cells)
    → clear_row color y left x cells i
      ≡ (if between (y * width + x) (y * width + x + left) i then vga_entry 32 color else cells i)
unfolding clear_row put
clear_row-lem color y zero x i cells = ground arith
clear_row-lem color y (suc left) x i cells =
    ground
      (arith, clear_row-lem color y left (x + 1) i (put cells (y * width + x) (vga_entry 32 color)))

pub clear_rows-lem :
    (color left y i : ℕ) (cells : Cells)
    → clear_rows color left y cells i
      ≡ (if between (y * width) ((y + left) * width) i then vga_entry 32 color else cells i)
unfolding clear_rows
clear_rows-lem color zero y i cells = ground arith
clear_rows-lem color (suc left) y i cells = ground (
  arith,
  clear_rows-lem color left (y + 1) i (clear_row color y width 0 cells),
  clear_row-lem color y width 0 i cells,
)

-- terminal_scroll moves every row but the first up by one, blanks the last one, and leaves the
-- memory behind the screen.
pub cells-scroll :
    (t : Terminal) (i : ℕ)
    → (scroll t).cells i ≡ (
        if ltb i 1920
        then t.cells (i + width)
        else if ltb i 2000
        then vga_entry 32 t.color
        else t.cells i)
unfolding scroll
cells-scroll t i = ground (
  arith,
  clear_row-lem t.color 24 width 0 i (copy_rows 24 1 t.cells),
  copy_rows-lem 24 1 i t.cells,
)
