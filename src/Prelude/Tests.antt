-- ===== src/Prelude/Tests.antt =====
-- Boolean tests on the native numbers, the conditional, and the wrap of machine words.
use Prim.Native.Nat.{ℕ, ◌+◌, ◌-◌, ◌%◌, ◌^◌, compare, Ordering}
use mathlib.Core.Path.{◌≡◌, refl}
use mathlib.Core.Logic.{◌↔◌, ◌⊎◌, inl, inr}
use mathlib.Core.Bool.{Bool, true, false}
use mathlib.Core.Option.{Option, none, some}
use native.Mathlib.Omega.{arith}

abbrev pub ltb : ℕ → ℕ → Bool
ltb a b = elim (compare a b) [ Ordering.lt ↦ true | _ ↦ false ]

abbrev pub leb : ℕ → ℕ → Bool
leb a b = elim (compare a b) [ Ordering.gt ↦ false | _ ↦ true ]

infix 50 ◌==◌
abbrev pub ◌==◌ : ℕ → ℕ → Bool
a == b = elim (compare a b) [ Ordering.eq ↦ true | _ ↦ false ]

infix 1 if◌then◌else◌
abbrev pub if◌then◌else◌ {ℓ} : {A : Type ℓ} → Bool → A → A → A
if true then x else y = x
if false then x else y = y

-- Conversions to the unsigned C types: the value modulo the width.
abbrev pub u8 : ℕ → ℕ
u8 x = x % 2 ^ 8

abbrev pub u16 : ℕ → ℕ
u16 x = x % 2 ^ 16

abbrev pub u32 : ℕ → ℕ
u32 x = x % 2 ^ 32

abbrev pub u64 : ℕ → ℕ
u64 x = x % 2 ^ 64

-- Unsigned subtraction of words, which wraps.
abbrev pub sub16 : ℕ → ℕ → ℕ
sub16 a b = (a + 2 ^ 16 - b) % 2 ^ 16

abbrev pub sub32 : ℕ → ℕ → ℕ
sub32 a b = (a + 2 ^ 32 - b) % 2 ^ 32

abbrev pub sub64 : ℕ → ℕ → ℕ
sub64 a b = (a + 2 ^ 64 - b) % 2 ^ 64

pub ==_iff : (a b : ℕ) → ((a == b) ≡ true) ↔ (a ≡ b)
==_iff a b = ground arith

-- To split on a computed value and keep the equation.
pub Bool-cases : (b : Bool) → (b ≡ true) ⊎ (b ≡ false)
Bool-cases true = inl refl
Bool-cases false = inr refl

pub Option-cases {ℓ} : {A : Type ℓ} (o : Option A) → (o ≡ none) ⊎ ((a : A) × (o ≡ some a))
Option-cases none = inl refl
Option-cases (some a) = inr (a, refl)

pub if_both {ℓ} : {A : Type ℓ} (b : Bool) (x : A) → x ≡ (if b then x else x)
if_both true x = refl
if_both false x = refl
