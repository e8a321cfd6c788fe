-- ===== src/Libc/Print/Tests.antt =====
-- Formats and their output.
use simply_os.Base.{ℕ, refl, arith, List, [], ◌∷◌}
use simply_os.Libc.Print.{word, printf}
use simply_os.Libc.Print.{digits_loop}
use simply_os.Libc.Print.Render.{render, Prints}
use simply_os.Libc.Print.Render.Run.{printf-Prints}
use simply_os.Libc.Print.Ends.{Ends, printf-Ends}

-- `n=%u%%`
abbrev format : List ℕ
format = 110 ∷ 61 ∷ 37 ∷ 117 ∷ 37 ∷ 37 ∷ []

printf-Ends_example : Ends (printf format (word 42 ∷ []) [])
printf-Ends_example = printf-Ends format (word 42 ∷ []) []

-- `n=%u%%` with 42
printf-Prints_example : Prints 0 [] (110 ∷ 61 ∷ 52 ∷ 50 ∷ 37 ∷ []) (printf format (word 42 ∷ []) [])
unfolding render digits_loop
printf-Prints_example =
    printf-Prints format (word 42 ∷ []) [] (110 ∷ 61 ∷ 52 ∷ 50 ∷ 37 ∷ [])
      (omega arith, (omega arith, (omega arith, (omega arith, (omega arith, (omega arith, tt))))))
      (tt, tt) refl (omega arith)
