-- ===== src/Terminal/Append.antt =====
-- `terminal_write` of two texts, one behind the other.
use simply_os.Base.{ℕ, ◌≡◌, refl, List, [], ◌∷◌, ◌++◌}
use simply_os.Terminal.{Terminal, putchar, write}

pub write-append : (xs ys : List ℕ) (t : Terminal) → write (xs ++ ys) t ≡ write ys (write xs t)
unfolding write
write-append [] ys t = refl
write-append (x ∷ xs) ys t = write-append xs ys (putchar x t)

pub write-nil : (t : Terminal) → t ≡ write [] t
unfolding write
write-nil t = refl

pub write-cons : (c : ℕ) (cs : List ℕ) (t : Terminal) → write cs (putchar c t) ≡ write (c ∷ cs) t
unfolding write
write-cons c cs t = refl
