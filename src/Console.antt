-- ===== src/Console.antt =====
-- libc/stdio/putchar.c in the kernel: what `printf` writes goes to the screen. What a computation
-- comes to is a value, or the processor halts with this on the screen, or the behaviour is undefined.
pub mod Say
pub mod Chain
use simply_os.Base.{ℕ, List, []}
use simply_os.Libc.Print.{Result, Arg, returns, fails, undefined, unfinished, printf}
use simply_os.Terminal.{Terminal, write}

pub data Outcome (A : Type 0) : Type 0 where
  goes : A → Outcome A
  halts : Terminal → Outcome A
  strays : Outcome A

infixl 5 ◌>>=◌
abbrev pub ◌>>=◌ : {A B : Type 0} → Outcome A → (A → Outcome B) → Outcome B
goes a >>= f = f a
halts t >>= f = halts t
strays >>= f = strays

-- The characters of a call of `printf`, in `terminal_write` one by one.
abbrev pub shown : Result → Terminal → Outcome Terminal
shown (returns n text) t = goes (write text t)
shown (fails text) t = goes (write text t)
shown undefined t = strays
shown unfinished t = strays

pub say : List ℕ → List Arg → Terminal → Outcome Terminal
say format args t = shown (printf format args []) t
