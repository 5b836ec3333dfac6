-- ===== src/Base/Results.antt =====
-- Code that may throw: a value or an error, with `do` blocks over it.
use mathlib.Core.Path.{◌≡◌, refl}
use mathlib.Core.Bool.{Bool, true, false}

pub data Result {ℓ κ} (E : Type ℓ) (A : Type κ) : Type (ℓ ⊔ κ) where
  ok : A → Result E A
  err : E → Result E A

infixl 5 ◌>>=◌ ◌>>◌
abbrev pub ◌>>=◌ : {E V W : Type 0} → Result E V → (next : V → Result E W) → Result E W
err fault >>= next = err fault
ok value >>= next = next value

abbrev pub ◌>>◌ : {E W : Type 0} → Result E (Unit {0}) → (next : Result E W) → Result E W
check >> next = check >>= λ _. next

-- `if (b) throw e`.
abbrev pub fail_if : {E : Type 0} → Bool → E → Result E (Unit {0})
fail_if true e = err e
fail_if false e = ok tt

abbrev pub is_ok : {E A : Type 0} → Result E A → Bool
is_ok (ok a) = true
is_ok (err e) = false

-- A block that succeeds: its first step does, and so does the rest.
pub >>-eq-ok :
    {E W : Type 0} (check : Result E (Unit {0})) (next : Result E W) {w : W}
    → (check >> next) ≡ ok w
    → (check ≡ ok tt) × (next ≡ ok w)
>>-eq-ok (err fault) next run = cc
>>-eq-ok (ok _) next run = (refl, run)

pub >>=-eq-ok :
    {E V W : Type 0} (first : Result E V) (next : V → Result E W) {w : W}
    → (first >>= next) ≡ ok w
    → (value : V) × (first ≡ ok value) × (next value ≡ ok w)
>>=-eq-ok (err fault) next run = cc
>>=-eq-ok (ok value) next run = (value, refl, run)

-- A test that lets the code pass.
pub fail_if-eq-ok : {E : Type 0} (b : Bool) (fault : E) → fail_if b fault ≡ ok tt → b ≡ false
fail_if-eq-ok true fault run = cc
fail_if-eq-ok false fault run = refl

pub fail_if->>-eq-ok :
    {E W : Type 0} (b : Bool) (fault : E) (next : Result E W) {w : W}
    → (fail_if b fault >> next) ≡ ok w
    → (b ≡ false) × (next ≡ ok w)
fail_if->>-eq-ok true fault next run = cc
fail_if->>-eq-ok false fault next run = (refl, run)

pub ok_injective : {E A : Type 0} {a b : A} → ◌≡◌ {A = Result E A} (ok a) (ok b) → a ≡ b
ok_injective h = cc
