-- ===== src/Prelude/Text.antt =====
-- String literals as lists of characters, and a check of all numbers below a bound.
use Prim.Native.Char.{code}
use Prim.Native.String.{String}
use Prim.Native.Nat.{ℕ, zero, suc, ◌<◌}
use mathlib.Core.Path.{◌≡◌}
use mathlib.Core.Logic.{inl, inr}
use amq_os.Prelude.Tests.{◌==◌, if◌then◌else◌, Bool-cases}
use mathlib.Core.Bool.{Bool, true, false}
use mathlib.Core.List.{List, [], ◌∷◌}
use native.Mathlib.Omega.{arith}

-- The characters before the NUL.
abbrev pub codes : String → List ℕ
codes String.[] = []
codes (String.◌∷◌ c s) = code c ∷ codes s

-- The test at every number below the bound.
unfoldable pub check_below : (ℕ → Bool) → ℕ → Bool
check_below test zero = true
check_below test (suc bound) = if test bound then check_below test bound else false

pub check_below_lem :
    (test : ℕ → Bool) (bound i : ℕ) → i < bound → check_below test bound ≡ true → test i ≡ true
unfolding check_below
check_below_lem test zero i small all = absurd (omega arith)
check_below_lem test (suc bound) i small all = elim (Bool-cases (i == bound)) [
  | inl last ↦ ground arith
  | inr before ↦ check_below_lem test bound i (ground arith) (ground arith)
]
