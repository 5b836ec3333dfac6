-- ===== src/Effects.antt =====
-- Computations on a state that may throw: a value or a fault, with the state as it is then.
use teti_bot.Base.{◌≡◌, refl, Bool, true, false, Result, ok, err}

abbrev pub Effect : Type 0 → Type 0 → Type 0 → Type 0
Effect S E A = S → Result E A × S

module _ {S E : Type 0} where
  abbrev pub and_then : {A B : Type 0} → Result E A × S → (A → Effect S E B) → Result E B × S
  and_then (ok a, s) f = f a s
  and_then (err e, s) f = (err e, s)

  infixl 5 ◌>>=◌ ◌>>◌
  unfoldable pub ◌>>=◌ : {A B : Type 0} → Effect S E A → (A → Effect S E B) → Effect S E B
  ◌>>=◌ m f s = and_then (m s) f

  abbrev pub ◌>>◌ : {B : Type 0} → Effect S E (Unit {0}) → Effect S E B → Effect S E B
  m >> k = m >>= λ _. k

  unfoldable pub return : {A : Type 0} → A → Effect S E A
  return a s = (ok a, s)

  unfoldable pub throw : {A : Type 0} → E → Effect S E A
  throw e s = (err e, s)

  unfoldable pub lift : {A : Type 0} → Result E A → Effect S E A
  lift r s = (r, s)

  unfoldable pub gets : {A : Type 0} → (S → A) → Effect S E A
  gets f s = (ok (f s), s)

  unfoldable pub modify : (S → S) → Effect S E (Unit {0})
  modify f s = (ok tt, f s)

  -- `if (b) throw e`.
  abbrev pub throw_if : Bool → E → Effect S E (Unit {0})
  throw_if true e = throw e
  throw_if false e = return tt

  and_then-ok :
      {A B : Type 0} (r : Result E A × S) (f : A → Effect S E B) {b : B} {s' : S}
      → and_then r f ≡ (ok b, s')
      → (a : A) × (s₁ : S) × (r ≡ (ok a, s₁)) × (f a s₁ ≡ (ok b, s'))
  and_then-ok (ok a, s) f h = (a, s, refl, h)
  and_then-ok (err e, s) f h = cc

  -- A computation that returns: its first step does, and so does the rest.
  pub >>=-ok :
      {A B : Type 0} (m : Effect S E A) (f : A → Effect S E B) (s : S) {b : B} {s' : S}
      → (m >>= f) s ≡ (ok b, s')
      → (a : A) × (s₁ : S) × (m s ≡ (ok a, s₁)) × (f a s₁ ≡ (ok b, s'))
  unfolding ◌>>=◌
  >>=-ok m f s h = and_then-ok (m s) f h

  -- The steps that return, with what they return and the state that they leave.
  pub throw_if-ok :
      (b : Bool) (e : E) (s : S) {u : Unit {0}} {s' : S}
      → throw_if b e s ≡ (ok u, s')
      → (b ≡ false) × (s' ≡ s)
  unfolding throw return
  throw_if-ok true e s h = cc
  throw_if-ok false e s h = (refl, cc)

  module _ {A : Type 0} where
    pub lift-ok :
        (r : Result E A) (s : S) {a : A} {s' : S} → lift r s ≡ (ok a, s') → (r ≡ ok a) × (s' ≡ s)
    unfolding lift
    lift-ok r s h = (cc, cc)

    pub gets-ok :
        (f : S → A) (s : S) {a : A} {s' : S}
        → ◌≡◌ {A = Result E A × S} (gets f s) (ok a, s')
        → (f s ≡ a) × (s' ≡ s)
    unfolding gets
    gets-ok f s h = (cc, cc)

    pub return-ok :
        (a : A) (s : S) {b : A} {s' : S}
        → ◌≡◌ {A = Result E A × S} (return a s) (ok b, s')
        → (a ≡ b) × (s' ≡ s)
    unfolding return
    return-ok a s h = (cc, cc)

  pub modify-ok :
      (f : S → S) (s : S) {u : Unit {0}} {s' : S}
      → ◌≡◌ {A = Result E (Unit {0}) × S} (modify f s) (ok u, s')
      → s' ≡ f s
  unfolding modify
  modify-ok f s h = cc
