-- ===== src/Base/Loops.antt =====
-- Tests of every value below a bound, by evaluation.
use Prim.Native.Nat.{ℕ, zero, suc, ◌<◌}
use mathlib.Core.Path.{◌≡◌}
use mathlib.Core.Bool.{Bool, true, false}
use native.Mathlib.Omega.{arith}
use native.Mathlib.Decide.{ℕ_discrete}
use simply_os.Base.Tests.{if◌then◌else◌}

-- From the largest value down, until the test fails.
unfoldable pub every : ℕ → (ℕ → Bool) → Bool
every zero test = true
every (suc last) test = let others = every last test in if test last then others else false

pub every_lookup :
    (bound : ℕ) (test : ℕ → Bool) (i : ℕ) → every bound test ≡ true → i < bound → test i ≡ true
unfolding every
every_lookup zero test i passed below = absurd (omega arith)
every_lookup (suc last) test i passed below = elim (ℕ_discrete i last) [
  | yes here ↦ rw here (ground arith)
  | no apart ↦ every_lookup last test i (ground arith) (omega arith)
]
