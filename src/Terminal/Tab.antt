-- ===== src/Terminal/Tab.antt =====
-- Tabs.
use simply_os.Base.{
  ℕ, zero, suc, ◌+◌, ◌*◌, ◌/◌, ◌%◌, ◌≤◌, ◌<◌, ◌≡◌, refl, ◌∙◌, ap, arith, true, false, not, ◌&&◌,
  ltb, ◌==◌, List, [], ◌∷◌, All, length, Bool-cases, inl, inr,
}
use simply_os.Terminal.{width, Terminal, sync_cursor, putentryat, tab, putchar, write}
use simply_os.Terminal.Cursor.{is_shown, putchar-shown, print-inside, printed, sync_cursor-parts}

tab-column :
    (fuel : ℕ) (t : Terminal)
    → t.column ≤ width
    → (t.column + 7) / 8 * 8 < t.column + fuel
    → ((tab fuel t).column ≡ (t.column + 7) / 8 * 8) × ((tab fuel t).row ≡ t.row)
unfolding tab putentryat
tab-column zero t on enough = absurd (omega arith)
tab-column (suc fuel) t on enough =
    elim (Bool-cases (ltb t.column width && not (t.column % 8 == 0))) [
      | inl more ↦
          let next = record (putentryat 32 t.color t.column t.row t) { column = t.column + 1 } in
          let (c, r) = tab-column fuel next (ground arith) (ground arith) in
          rw more (c ∙ ground arith, r)
      | inr stop ↦ rw stop (ground arith, refl)
    ]

putchar-tab : (t : Terminal) → putchar 9 t ≡ sync_cursor (tab 80 t)
unfolding putchar
putchar-tab t = refl

tab_parts :
    (t : Terminal)
    → t.column < width
    → ((putchar 9 t).column ≡ (t.column + 7) / 8 * 8) × ((putchar 9 t).row ≡ t.row)
tab_parts t on =
    let (c, r) = tab-column 80 t (omega arith) (omega arith) in
    let (row, column, col, cells) = sync_cursor-parts (tab 80 t) in
    rw putchar-tab (column ∙ c, row ∙ r)

-- Behind the right edge the test for the end of the row is never met again.
write-behind :
    (text : List ℕ) (t : Terminal)
    → All (λ c. is_shown c ≡ true) text
    → width ≤ t.column
    → ((write text t).column ≡ t.column + length text) × ((write text t).row ≡ t.row)
unfolding write
write-behind [] t shown far = (omega arith, refl)
write-behind (c ∷ text) t shown far =
    let inside : (t.column + 1 == width) ≡ false = ground arith in
    let run = putchar-shown c t shown.0 ∙ ap sync_cursor (print-inside c t inside) in
    let (row, column, col, cells) = sync_cursor-parts (printed c t) in
    let moved : (putchar c t).column ≡ t.column + 1 = ap (λ u. u.column) run ∙ column in
    let same : (putchar c t).row ≡ t.row = ap (λ u. u.row) run ∙ row in
    let (c', r') = write-behind text (putchar c t) shown.1 (omega (arith, moved)) in
    (omega (arith, c', moved), r' ∙ same)

-- A tab from one of the last seven columns moves the cursor to the column behind the right edge; a
-- text of shown characters that follows stays in the same row, one column further for each
-- character.
pub tab-overruns :
    (text : List ℕ) (t : Terminal)
    → 72 < t.column
    → t.column < width
    → All (λ c. is_shown c ≡ true) text
    → ((write (9 ∷ text) t).column ≡ width + length text) × ((write (9 ∷ text) t).row ≡ t.row)
unfolding write
tab-overruns text t late on shown =
    let (c, r) = tab_parts t on in
    let edge : (putchar 9 t).column ≡ width = omega (arith, c) in
    let (c', r') = write-behind text (putchar 9 t) shown (omega (arith, edge)) in
    (omega (arith, c', edge), r' ∙ r)
