-- ===== src/Base/Entries.antt =====
-- The index of an element, writes at an index, and what they do to searches of the list.
use Prim.Native.Nat.{ℕ, zero, suc}
use mathlib.Core.Path.{◌≡◌, refl}
use mathlib.Core.Logic.{inl, inr}
use mathlib.Core.Bool.{Bool, false}
use mathlib.Core.Option.{Option, none, some}
use mathlib.Core.List.{List, [], ◌∷◌}
use native.Mathlib.Omega.{arith}
use teti_bot.Base.Tests.{if◌then◌else◌, Bool-cases}
use teti_bot.Base.Lists.{All, find}

abbrev next_entry {ℓ} : {A : Type ℓ} → Option (ℕ × A) → Option (ℕ × A)
next_entry none = none
next_entry (some (i, a)) = some (suc i, a)

module _ {ℓ} {A : Type ℓ} where
  -- `findIndex` with the element at that index; the index -1 is `none`.
  abbrev pub find_entry : (A → Bool) → List A → Option (ℕ × A)
  find_entry p [] = none
  find_entry p (x ∷ xs) = if p x then some (0, x) else next_entry (find_entry p xs)

  -- `xs[i] = v` for an index in range.
  abbrev pub set : List A → ℕ → A → List A
  set [] i v = []
  set (x ∷ xs) zero v = v ∷ xs
  set (x ∷ xs) (suc i) v = x ∷ set xs i v

  -- The first element that passes the test, replaced.
  abbrev pub replace_first : (A → Bool) → A → List A → List A
  replace_first p v [] = []
  replace_first p v (x ∷ xs) = if p x then v ∷ xs else x ∷ replace_first p v xs

-- What `find_entry` says of the list, in terms of `find` and of a replacement by `v`.
abbrev pub IsEntry {ℓ} : {A : Type ℓ} → (A → Bool) → List A → A → Option (ℕ × A) → Type ℓ
IsEntry p xs v none = find p xs ≡ none
IsEntry p xs v (some (i, a)) = (find p xs ≡ some a) × (set xs i v ≡ replace_first p v xs)

module _ {ℓ} {A : Type ℓ} (p : A → Bool) (v : A) where
  IsEntry-next :
      (x : A) (xs : List A) (o : Option (ℕ × A))
      → p x ≡ false
      → IsEntry p xs v o
      → IsEntry p (x ∷ xs) v (next_entry o)
  IsEntry-next x xs none e h = rw e h
  IsEntry-next x xs (some (i, a)) e (h, k) = (rw e h, rw (e, k))

  pub find_entry-IsEntry : (xs : List A) → IsEntry p xs v (find_entry p xs)
  find_entry-IsEntry [] = refl
  find_entry-IsEntry (x ∷ xs) = elim (Bool-cases (p x)) [
    | inl e ↦ rw e (rw e refl, rw e refl)
    | inr e ↦ rw e (IsEntry-next x xs (find_entry p xs) e (find_entry-IsEntry xs))
  ]

module _ {ℓ κ} {A : Type ℓ} (P : A → Type κ) where
  pub All-replace_first :
      (p : A → Bool) (v : A) (xs : List A) → P v → All P xs → All P (replace_first p v xs)
  All-replace_first p v [] pv h = tt
  All-replace_first p v (x ∷ xs) pv (px, h) = elim (Bool-cases (p x)) [
    | inl e ↦ rw e (pv, h)
    | inr e ↦ rw e (px, All-replace_first p v xs pv h)
  ]

pub find_entry-none {ℓ} :
    {A : Type ℓ} (p : A → Bool) (xs : List A) → find p xs ≡ none → find_entry p xs ≡ none
find_entry-none p [] h = refl
find_entry-none p (x ∷ xs) h =
    let fails : p x ≡ false = ground arith in
    rw fails (rw (find_entry-none p xs (ground arith)) refl)
