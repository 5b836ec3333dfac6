-- ===== src/Relationship/Keeps.antt =====
-- Conditions on the store of commands and on the log before and after a computation, one rule for each way
-- to build one.
use teti_bot.Base.{
  ℕ, suc, ◌≡◌, refl, Bool, true, false, Option, List, number_equality, text_equality, if◌then◌else◌,
  Result, ok, err,
}
use teti_bot.Relationship.World.{
  ◌>>=◌, apply, ask, bind, catching, gets, lift, mark_compatible, return, throw, unbind, Event, M,
  Network, World, and_then, bound, or_handle, noted,
}
use teti_bot.Relationship.Store.{PendingCommand, Binding, validate_binding}
use teti_bot.Relationship.{Fault, Document}

-- A condition on the pending command and the log.
abbrev pub Condition : Type 1
Condition = Option PendingCommand → List Event → Type 0

abbrev pub Ends : {A : Type 0} → Condition → (Fault → Condition) → Result Fault A × World → Type 0
Ends Q E (ok a, w) = Q w.pending w.log
Ends Q E (err e, w) = E e w.pending w.log

-- From `P`, `m` returns in `Q` or throws in `E`.
pub record Leads {A : Type 0} (P Q : Condition) (E : Fault → Condition) (m : M A) : Type 0 where
  pub at : (w : World) → P w.pending w.log → Ends Q E (m w)

result-Ends :
    {A : Type 0} (P : Condition) (r : Result Fault A) (w : World)
    → P w.pending w.log
    → Ends P (λ _. P) (r, w)
result-Ends P (ok a) w h = h
result-Ends P (err e) w h = h

module _ {A : Type 0} {P : Condition} where
  pub Leads-return : {E : Fault → Condition} (a : A) → Leads P P E (return a)
  unfolding return
  Leads-return a = record { at = λ w h. h }

  pub Leads-throw :
      {Q : Condition} {E : Fault → Condition} (e : Fault)
      → ((q : Option PendingCommand) (l : List Event) → P q l → E e q l)
      → Leads P Q E (throw {A = A} e)
  unfolding throw
  Leads-throw e h = record { at = λ w k. h w.pending w.log k }

  -- A computation that leaves the store and the log alone.
  pub Leads-lift : (r : Result Fault A) → Leads P P (λ _. P) (lift r)
  unfolding lift
  Leads-lift r = record { at = λ w h. result-Ends P r w h }

  pub Leads-ask : (f : ℕ → Result Fault A) → Leads P P (λ _. P) (ask f)
  unfolding ask
  Leads-ask f = record {
    at = λ w h. result-Ends P (f w.ticks) (record w { ticks = suc w.ticks }) h;
  }

  pub Leads-gets : {E : Fault → Condition} (f : World → A) → Leads P P E (gets f)
  unfolding gets
  Leads-gets f = record { at = λ w h. h }

  pub Leads-weaken :
      {Q : Condition} {E E' : Fault → Condition} (m : M A)
      → ((e : Fault) (q : Option PendingCommand) (l : List Event) → E e q l → E' e q l)
      → Leads P Q E m
      → Leads P Q E' m
  Leads-weaken {Q} {E} {E'} m f k = record { at = λ w h. ends (m w) (k.at w h) }
    where
      ends : (r : Result Fault A × World) → Ends Q E r → Ends Q E' r
      ends (ok a, w) h = h
      ends (err e, w) h = f e w.pending w.log h

  pub Leads-if :
      {Q : Condition} {E : Fault → Condition} (b : Bool) (m m' : M A)
      → (b ≡ true → Leads P Q E m)
      → (b ≡ false → Leads P Q E m')
      → Leads P Q E (if b then m else m')
  Leads-if true m m' k k' = k refl
  Leads-if false m m' k k' = k' refl

  pub Leads-catching :
      {Q : Condition} {E E' : Fault → Condition} (m : M A) (f : Fault → M A)
      → Leads P Q E m
      → ((e : Fault) → Leads (E e) Q E' (f e))
      → Leads P Q E' (catching m f)
  unfolding catching
  Leads-catching {Q} {E} {E'} m f k kf = record { at = λ w h. ends (m w) (k.at w h) }
    where
      ends : (r : Result Fault A × World) → Ends Q E r → Ends Q E' (or_handle r f)
      ends (ok a, w) h = h
      ends (err e, w) h = (kf e).at w h

pub Leads->>= :
    {A B : Type 0} {P Q R : Condition} {E : Fault → Condition} (m : M A) (f : A → M B)
    → Leads P Q E m
    → ((a : A) → Leads Q R E (f a))
    → Leads P R E (m >>= f)
unfolding ◌>>=◌
Leads->>= {A} {B} {P} {Q} {R} {E} m f k kf = record { at = λ w h. ends (m w) (k.at w h) }
  where
    ends : (r : Result Fault A × World) → Ends Q E r → Ends R E (and_then r f)
    ends (ok a, w) h = (kf a).at w h
    ends (err e, w) h = h

module _ {P : Condition} where
  pub Leads-mark_compatible : {E : Fault → Condition} → Leads P P E mark_compatible
  unfolding mark_compatible
  Leads-mark_compatible = record { at = λ w h. h }

  pub Leads-unbind : {E : Fault → Condition} → Leads P P E unbind
  unfolding unbind
  Leads-unbind = record { at = λ w h. h }

  pub Leads-bind : (b : Binding) → Leads P P (λ _. P) (bind b)
  unfolding bind
  Leads-bind b = record { at = λ w h. ends (validate_binding b) w h }
    where
      ends :
          (r : Result Fault (Unit {0})) (w : World)
          → P w.pending w.log
          → Ends P (λ _. P) (bound r b w)
      ends (ok _) w h = h
      ends (err e) w h = h

  pub Leads-apply : (n : Network) (d : Document) → Leads P P (λ _. P) (apply n d)
  unfolding apply
  Leads-apply n d = record { at = λ w h. ends (n.apply w.ticks d) w h }
    where
      ends :
          (r : Result Fault (Unit {0})) (w : World)
          → P w.pending w.log
          → Ends P (λ _. P) (noted r d w)
      ends (ok _) w h = h
      ends (err e) w h = h
