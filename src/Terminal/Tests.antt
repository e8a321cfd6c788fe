-- ===== src/Terminal/Tests.antt =====
-- The screen with a few characters.
use simply_os.Base.{ℕ, ◌+◌, ◌≡◌, refl, arith, List, [], ◌∷◌, length}
use simply_os.Terminal.{Terminal, putchar, write, width}
use simply_os.Terminal.Cursor.{Prints, putchar-Prints}
use simply_os.Terminal.Tab.{tab-overruns}

-- The last cell of the screen.
abbrev corner : Terminal
corner = record { row = 24; column = 79; color = 7; cells = λ i. i; out = [] }

putchar-Prints_example : Prints 65 corner (putchar 65 corner)
putchar-Prints_example = putchar-Prints 65 corner refl (omega arith, omega arith)

abbrev text : List ℕ
text = 65 ∷ 10 ∷ 8 ∷ 66 ∷ []

abbrev late : Terminal
late = record { row = 3; column = 75; color = 7; cells = λ i. 0; out = [] }

tab-overruns_example :
    ((write (9 ∷ 65 ∷ 66 ∷ []) late).column ≡ width + length {A = ℕ} (65 ∷ 66 ∷ []))
    × ((write (9 ∷ 65 ∷ 66 ∷ []) late).row ≡ late.row)
tab-overruns_example =
    tab-overruns (65 ∷ 66 ∷ []) late (omega arith) (omega arith) (refl, (refl, tt))
