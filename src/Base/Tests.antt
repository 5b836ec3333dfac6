-- ===== src/Base/Tests.antt =====
-- Boolean tests, the conditional, and equality of the types that the program compares.
use Prim.Native.Nat.{ℕ, compare, Ordering}
use Prim.Native.String.{String}
use mathlib.Core.Path.{◌≡◌, refl}
use mathlib.Core.Logic.{◌↔◌, ◌⊎◌, inl, inr, ◌≢◌}
use mathlib.Core.Bool.{Bool, true, false}
use mathlib.Core.Option.{Option, none, some}
use native.Mathlib.Omega.{arith}
use text.Mathlib.Text.{◌==◌ as text_beq}
use text.Mathlib.TextEquality.{eq_iff}

abbrev pub ltb : ℕ → ℕ → Bool
ltb a b = elim (compare a b) [ Ordering.lt ↦ true | _ ↦ false ]

abbrev pub leb : ℕ → ℕ → Bool
leb a b = elim (compare a b) [ Ordering.gt ↦ false | _ ↦ true ]

abbrev nat_beq : ℕ → ℕ → Bool
nat_beq a b = elim (compare a b) [ Ordering.eq ↦ true | _ ↦ false ]

infix 1 if◌then◌else◌
abbrev pub if◌then◌else◌ {ℓ} : {A : Type ℓ} → Bool → A → A → A
if true then x else y = x
if false then x else y = y

pub nat_beq_iff : (a b : ℕ) → (nat_beq a b ≡ true) ↔ (a ≡ b)
nat_beq_iff a b = ground arith

-- The types whose values the program compares by `===`: a test of equality that is right.
pub record Comparable {ℓ} (T : Type ℓ) : Type ℓ where
  pub test : (v w : T) → Bool
  pub test_iff : (v w : T) → (test v w ≡ true) ↔ (v ≡ w)

instance abbrev pub text_equality : Comparable String
text_equality = record { test = text_beq; test_iff = eq_iff }

instance abbrev pub number_equality : Comparable ℕ
number_equality = record { test = nat_beq; test_iff = nat_beq_iff }

infix 50 ◌!=◌ ◌==◌
abbrev pub ◌!=◌ {ℓ} : {T : Type ℓ} ⦃c : Comparable T⦄ → T → T → Bool
◌!=◌ ⦃c⦄ v w = if c.test v w then false else true

abbrev pub ◌==◌ {ℓ} : {T : Type ℓ} ⦃c : Comparable T⦄ → T → T → Bool
◌==◌ ⦃c⦄ v w = c.test v w

pub Bool-cases : (b : Bool) → (b ≡ true) ⊎ (b ≡ false)
Bool-cases true = inl refl
Bool-cases false = inr refl

abbrev pub is_some {ℓ} : {A : Type ℓ} → Option A → Bool
is_some none = false
is_some (some a) = true

-- `a ?? b`.
abbrev pub or_else {ℓ} : {A : Type ℓ} → Option A → A → A
or_else none b = b
or_else (some a) b = a

pub ==_refl {ℓ} : {A : Type ℓ} ⦃e : Comparable A⦄ (a : A) → (a == a) ≡ true
==_refl ⦃e⦄ a = (e.test_iff a a).1 refl

pub ==_false {ℓ} : {A : Type ℓ} ⦃e : Comparable A⦄ (a b : A) → a ≢ b → (a == b) ≡ false
==_false ⦃e⦄ a b h = elim (Bool-cases (a == b)) [
  | inl same ↦ absurd (h ((e.test_iff a b).0 same))
  | inr apart ↦ apart
]

pub ≢_of_== {ℓ} : {A : Type ℓ} ⦃e : Comparable A⦄ (a b : A) → (a == b) ≡ false → a ≢ b
≢_of_== ⦃e⦄ a b h same = let yes = (e.test_iff a b).1 same in cc
