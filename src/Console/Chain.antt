-- ===== src/Console/Chain.antt =====
-- Outputs one after the other.
use simply_os.Base.{ℕ, ◌≡◌, refl, ◌∙◌, sym, ap, Bool, true, false, List, [], ◌++◌, if◌then◌else◌}
use simply_os.Terminal.{Terminal, write}
use simply_os.Terminal.Append.{write-append}
use simply_os.Console.{Outcome, goes, halts, ◌>>=◌, say}

-- One output after the other.
pub then_shows :
    (m : Outcome Terminal) (g : Terminal → Outcome Terminal) (xs ys : List ℕ) (t : Terminal)
    → m ≡ goes (write xs t)
    → ((u : Terminal) → g u ≡ goes (write ys u))
    → (m >>= g) ≡ goes (write (xs ++ ys) t)
then_shows m g xs ys t first next =
    rw first (next (write xs t) ∙ ap goes (sym (write-append xs ys t)))

-- Either of two texts.
pub either :
    (c : Bool) (xs ys : List ℕ) (a b : Outcome Terminal) (t : Terminal)
    → a ≡ goes (write xs t)
    → b ≡ goes (write ys t)
    → (if c then a else b) ≡ goes (write (if c then xs else ys) t)
either true xs ys a b t ea eb = ea
either false xs ys a b t ea eb = eb

pub either_fixed :
    (c : Bool) (xs ys : List ℕ) (t : Terminal)
    → say xs [] t ≡ goes (write xs t)
    → say ys [] t ≡ goes (write ys t)
    → (if c then say xs [] t else say ys [] t) ≡ goes (write (if c then xs else ys) t)
either_fixed c xs ys t ea eb = either c xs ys (say xs [] t) (say ys [] t) t ea eb

pub then_halts :
    (m : Outcome Terminal) (xs : List ℕ) (t : Terminal)
    → m ≡ goes (write xs t)
    → ◌>>=◌ {B = Terminal} m (λ t. halts t) ≡ halts (write xs t)
then_halts m xs t e = rw e refl

-- The lines are shown one by one, and then the processor halts.
pub continue_halts :
    (m : Outcome Terminal) (g : Terminal → Outcome Terminal) (xs ys : List ℕ) (t : Terminal)
    → m ≡ goes (write xs t)
    → ((u : Terminal) → g u ≡ halts (write ys u))
    → (m >>= g) ≡ halts (write (xs ++ ys) t)
continue_halts m g xs ys t first next =
    rw first (next (write xs t) ∙ ap halts (sym (write-append xs ys t)))
