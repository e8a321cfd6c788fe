-- ===== src/Console/Say.antt =====
-- What a call of `printf` shows.
use simply_os.Base.{
  All-mono, ◌*◌, ℕ, ◌≤◌, ◌≡◌, refl, arith, Bool, true, ◌&&◌, some, List, [], ◌∷◌, length, ltb, leb,
  All,
}
use simply_os.Libc.Print.Render.Room.{IsWord, render-room}
use simply_os.Libc.Print.{Arg, word, text, int_max}
use simply_os.Libc.Print.Digits.{IsBytes}
use simply_os.Libc.Print.Format.{IsArg}
use simply_os.Libc.Print.Render.{render}
use simply_os.Libc.Print.Render.Run.{printf-Prints}
use simply_os.Terminal.{Terminal, write}
use simply_os.Console.{goes, say}

-- printf of a defined text shows it.
pub say-text :
    (format : List ℕ) (args : List Arg) (t : Terminal) (r : List ℕ)
    → IsBytes format
    → All IsArg args
    → render format args ≡ some r
    → length r ≤ int_max
    → say format args t ≡ goes (write r t)
unfolding say
say-text format args t r small ok e fits =
    let (n, runs, count) = printf-Prints format args [] r small ok e fits in rw runs refl

-- A test for texts that are given.
abbrev pub is_text : List ℕ → Bool
is_text [] = true
is_text (c ∷ cs) = ltb c 256 && is_text cs

pub is_text-IsBytes : (cs : List ℕ) → is_text cs ≡ true → IsBytes cs
is_text-IsBytes [] e = tt
is_text-IsBytes (c ∷ cs) e = (ground arith, is_text-IsBytes cs (ground arith))

IsWord-IsArg : (a : Arg) → IsWord a → IsArg a
IsWord-IsArg (word w) h = tt
IsWord-IsArg (text str) h = absurd h

-- A format in bytes, with words, whose text is given.
pub say-words :
    (format : List ℕ) (args : List Arg) (t : Terminal) (r : List ℕ)
    → is_text format ≡ true
    → All IsWord args
    → render format args ≡ some r
    → leb (33 * length format) int_max ≡ true
    → say format args t ≡ goes (write r t)
say-words format args t r small words e fits =
    say-text format args t r (is_text-IsBytes format small)
      (All-mono IsWord IsArg args (λ a. IsWord-IsArg a) words) e
      (let room = render-room format args r words e in ground arith)

-- A fixed text without conversions.
pub say-fixed :
    (format : List ℕ) (t : Terminal)
    → is_text format ≡ true
    → render format [] ≡ some format
    → leb (length format) int_max ≡ true
    → say format [] t ≡ goes (write format t)
say-fixed format t small plain fits =
    say-text format [] t format (is_text-IsBytes format small) tt plain (ground arith)
