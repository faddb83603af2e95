-- ===== src/Prelude/Indices.antt =====
-- Lists of distinct indices: threads that wait, blocks of a file.
use Prim.Native.Nat.{ℕ, zero, suc, ◌+◌, ◌≤◌, ◌<◌}
use mathlib.Core.Path.{◌≡◌, refl}
use mathlib.Core.Logic.{◌≢◌, inl, inr}
use mathlib.Core.Bool.{Bool, true, false}
use mathlib.Core.List.{List, [], ◌∷◌, ◌++◌}
use native.Mathlib.Omega.{arith}
use amq_os.Prelude.Tests.{◌==◌, if◌then◌else◌, Bool-cases}
use amq_os.Prelude.Lists.{length}

abbrev pub contains : ℕ → List ℕ → Bool
contains i [] = false
contains i (j ∷ q) = if i == j then true else contains i q

abbrev pub Distinct : List ℕ → Type 0
Distinct [] = Unit
Distinct (i ∷ q) = (contains i q ≡ false) × Distinct q

abbrev pub without : ℕ → List ℕ → List ℕ
without i [] = []
without i (j ∷ q) = if j == i then without i q else j ∷ without i q

pub contains-ne : (i j : ℕ) (q : List ℕ) → contains i q ≡ false → contains j q ≡ true → i ≢ j
contains-ne i j q a b e = cc

pub without-absent : (i : ℕ) (q : List ℕ) → contains i q ≡ false → without i q ≡ q
without-absent i [] h = refl
without-absent i (j ∷ q) h = ground (arith, without-absent i q)

pub contains-without :
    (i j : ℕ) (q : List ℕ) → contains j q ≡ false → contains j (without i q) ≡ false
contains-without i j [] h = refl
contains-without i j (k ∷ q) h = ground (arith, contains-without i j q)

pub without-Distinct : (i : ℕ) (q : List ℕ) → Distinct q → Distinct (without i q)
without-Distinct i [] d = tt
without-Distinct i (j ∷ q) d = elim (Bool-cases (j == i)) [
  | inl e ↦ rw e (without-Distinct i q d.1)
  | inr e ↦ rw e (contains-without i j q d.0, without-Distinct i q d.1)
]

pub contains-append :
    (i j : ℕ) (q : List ℕ) → contains i (q ++ j ∷ []) ≡ (if contains i q then true else i == j)
contains-append i j [] = ground arith
contains-append i j (k ∷ q) = ground (arith, contains-append i j q)

pub append-Distinct :
    (i : ℕ) (q : List ℕ) → contains i q ≡ false → Distinct q → Distinct (q ++ i ∷ [])
append-Distinct i [] h d = (refl, tt)
append-Distinct i (j ∷ q) h d =
    (ground (arith, contains-append j i q), append-Distinct i q (ground arith) d.1)

abbrev pub AllBelow : ℕ → List ℕ → Type 0
AllBelow n [] = Unit
AllBelow n (i ∷ q) = (i < n) × AllBelow n q

without-AllBelow : (n : ℕ) (q : List ℕ) → AllBelow (suc n) q → AllBelow n (without n q)
without-AllBelow n [] a = tt
without-AllBelow n (j ∷ q) a = elim (Bool-cases (j == n)) [
  | inl e ↦ rw e (without-AllBelow n q a.1)
  | inr e ↦ rw e (ground arith, without-AllBelow n q a.1)
]

length-without : (i : ℕ) (q : List ℕ) → Distinct q → length q ≤ length (without i q) + 1
length-without i [] d = omega arith
length-without i (j ∷ q) d = elim (Bool-cases (j == i)) [
  | inl e ↦ rw (e, without-absent i q (ground arith)) (omega arith)
  | inr e ↦ rw e (omega (arith, length-without i q d.1))
]

-- Distinct numbers below `n` are at most `n`.
pub length-le_bound : (n : ℕ) (q : List ℕ) → Distinct q → AllBelow n q → length q ≤ n
length-le_bound zero [] d a = omega arith
length-le_bound zero (i ∷ q) d a = absurd (omega arith)
length-le_bound (suc n) q d a = omega (
  arith,
  length-without n q d,
  length-le_bound n (without n q) (without-Distinct n q d) (without-AllBelow n q a),
)

pub contains-join :
    (i : ℕ) (p q : List ℕ) → contains i (p ++ q) ≡ (if contains i p then true else contains i q)
contains-join i [] q = refl
contains-join i (j ∷ p) q = ground (arith, contains-join i p q)

-- An element of a list of distinct ones is in neither part of the rest.
pub Distinct-split :
    (p : List ℕ) (a : ℕ) (q : List ℕ)
    → Distinct (p ++ a ∷ q)
    → Distinct p
      × (contains a p ≡ false)
      × (contains a q ≡ false)
      × ((i : ℕ) → contains i q ≡ true → contains i p ≡ false)
Distinct-split [] a q d = (tt, refl, d.0, λ i c. refl)
Distinct-split (b ∷ p) a q d =
    let (dp, ap, aq, other) = Distinct-split p a q d.1 in
    let b_new = contains-join b p (a ∷ q) in
    (
      (ground (arith, b_new, d.0), dp),
      ground (arith, b_new, d.0, ap),
      aq,
      λ i c. ground (arith, b_new, d.0, other i c),
    )
