-- ===== src/Prelude/Tables.antt =====
-- C arrays that are indexed by a number, and the scans over them.
use Prim.Native.Nat.{ℕ, zero, suc, ◌+◌, ◌≤◌, ◌<◌}
use mathlib.Core.Path.{◌≡◌, ap, ◌∙◌}
use mathlib.Core.Bool.{Bool, true, false}
use mathlib.Core.Logic.{◌≢◌, inl, inr}
use mathlib.Core.Option.{Option, none, some}
use native.Mathlib.Omega.{arith}
use amq_os.Prelude.Tests.{if◌then◌else◌, ◌==◌, Bool-cases, Option-cases}

module _ {ℓ} {A : Type ℓ} where
  -- `table[i] = v`
  abbrev pub update : (ℕ → A) → ℕ → A → ℕ → A
  update t i v j = if i == j then v else t j

  pub update_self : (t : ℕ → A) (i : ℕ) (v : A) → update t i v i ≡ v
  update_self t i v = ground arith

  pub update_ne : (t : ℕ → A) (i : ℕ) (v : A) (j : ℕ) → i ≢ j → update t i v j ≡ t j
  update_ne t i v j h = ground arith

-- `for (i = from; i < from + rounds; i++) if (test(i)) return i;`
unfoldable pub scan : (ℕ → Bool) → ℕ → ℕ → Option ℕ
scan test from zero = none
scan test from (suc rounds) =
    let rest = scan test (from + 1) rounds in if test from then some from else rest

-- What a scan returns lies in its range and passes the test.
pub scan-some :
    (test : ℕ → Bool) (from rounds i : ℕ)
    → scan test from rounds ≡ some i
    → (from ≤ i) × (i < from + rounds) × (test i ≡ true)
unfolding scan
scan-some test from zero i h = absurd (ground arith)
scan-some test from (suc rounds) i h = ground (arith, scan-some test (from + 1) rounds i)

-- It is the first of its range that does.
pub scan-first :
    (test : ℕ → Bool) (from rounds i j : ℕ)
    → scan test from rounds ≡ some i
    → from ≤ j
    → j < i
    → test j ≡ false
unfolding scan
scan-first test from zero i j h lo hi = absurd (ground arith)
scan-first test from (suc rounds) i j h lo hi = elim (Bool-cases (from == j)) [
  | inl e ↦ ground arith
  | inr e ↦ ground (arith, scan-first test (from + 1) rounds i j)
]

-- A scan finds something if something in its range passes.
pub scan-ne-none :
    (test : ℕ → Bool) (from rounds j : ℕ)
    → from ≤ j
    → j < from + rounds
    → test j ≡ true
    → scan test from rounds ≢ none
unfolding scan
scan-ne-none test from zero j lo hi t = absurd (omega arith)
scan-ne-none test from (suc rounds) j lo hi t = elim (Bool-cases (from == j)) [
  | inl e ↦ ground arith
  | inr e ↦ ground (arith, scan-ne-none test (from + 1) rounds j)
]

-- A scan stops at the first index that passes.
pub scan_is :
    (test : ℕ → Bool) (from rounds i : ℕ)
    → from ≤ i
    → i < from + rounds
    → test i ≡ true
    → ((j : ℕ) → from ≤ j → j < i → test j ≡ false)
    → scan test from rounds ≡ some i
scan_is test from rounds i lo hi pass before = elim (Option-cases (scan test from rounds)) [
  | inl e ↦ absurd (scan-ne-none test from rounds i lo hi pass e)
  | inr (k, e) ↦
      let (lo', hi', pass') = scan-some test from rounds k e in
      let not_less : k < i → ⊥ = λ l. ground (arith, before k lo' l, pass') in
      let not_more : i < k → ⊥ =
        λ l. ground (arith, scan-first test from rounds k i e lo l, pass) in
      let same : k ≡ i = ground (arith, not_less, not_more) in e ∙ ap some same
]
