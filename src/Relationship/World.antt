-- ===== src/Relationship/World.antt =====
-- The state that the relationship service works on, and its monad. What stands outside the service is the
-- record `Network`: the answers of the server through the client, the identity, fresh keys and the
-- callback of a reconciliation, each read at a tick that every reading advances.
unfoldable pub use teti_bot.Effects.{◌>>=◌, ◌>>◌, and_then, return, throw, lift, gets}
use teti_bot.Effects.{Effect}
use teti_bot.Relationship.{client_error}
use teti_bot.Base.{
  ℕ, suc, String, Bool, true, false, not, Option, none, some, List, [], ◌∷◌, ◌++◌, number_equality,
  text_equality, Result, ok, err,
}
use teti_bot.Relationship.{
  Document, Fault, Bootstrap, RelationshipResult, Authorization, SnapshotPage, ChangesPage,
}
use teti_bot.Relationship.Store.{
  Binding, PendingCommand, validate_binding, validate_command, Operation,
}

pub record Network : Type 0 where
  pub bootstrap : ℕ → Result Fault Bootstrap
  pub authentication : ℕ → Result Fault String
  pub idempotency_key : ℕ → Operation → String
  -- `requestRelationship` or `mutateRelationship`, by the command.
  pub write : ℕ → PendingCommand → Result Fault RelationshipResult
  pub relationship : ℕ → String → Result Fault RelationshipResult
  pub with_peer : ℕ → String → Result Fault RelationshipResult
  pub authorization : ℕ → String → Result Fault Authorization
  pub snapshot : ℕ → Option String → Result Fault SnapshotPage
  pub changes : ℕ → String → Result Fault ChangesPage
  pub apply : ℕ → Document → Result Fault (Unit {0})

-- What happens to the store of commands: a command is saved, or sent with an answer that is final or not;
-- the store is emptied behind an answer, or by another identity.
pub data Event : Type 0 where
  saved : PendingCommand → Event
  sent : PendingCommand → Bool → Event
  cleared : Event
  abandoned : String → Event

-- The last event comes first, the last document applied last.
pub record World : Type 0 where
  pub pending : Option PendingCommand
  pub binding : Option Binding
  pub compatible : Bool
  pub ticks : ℕ
  pub log : List Event
  pub applied : List Document

abbrev pub M : Type 0 → Type 0
M A = Effect World Fault A

abbrev pub or_handle :
    {A : Type 0} → Result Fault A × World → (Fault → M A) → Result Fault A × World
or_handle (ok a, w) f = (ok a, w)
or_handle (err e, w) f = f e w

-- `try { m } catch (error) { f }`.
unfoldable pub catching : {A : Type 0} → M A → (Fault → M A) → M A
catching m f w = or_handle (m w) f

-- What stands outside, read at the next tick.
unfoldable pub ask : {A : Type 0} → (ℕ → Result Fault A) → M A
ask f w = (f w.ticks, record w { ticks = suc w.ticks })

unfoldable pub mark_compatible : M (Unit {0})
mark_compatible w = (ok tt, record w { compatible = true })

abbrev pub stored :
    Result Fault (Unit {0}) → PendingCommand → World → Result Fault (Unit {0}) × World
stored (ok _) p w = (ok tt, record w { pending = some p; log = saved p ∷ w.log })
stored (err e) p w = (err e, w)

-- The saving of a record with a command, which the store may refuse, and of an empty one, which it never
-- does.
unfoldable pub save : PendingCommand → M (Unit {0})
save p w = stored (validate_command p) p w

unfoldable pub clear : M (Unit {0})
clear w = (ok tt, record w { pending = none; log = cleared ∷ w.log })

unfoldable pub abandon : String → M (Unit {0})
abandon teti_id w = (ok tt, record w { pending = none; log = abandoned teti_id ∷ w.log })

-- A final answer is one behind which the command is not sent again: a result, or an error of the client
-- that is not to be retried.
unfoldable pub is_final_fault : Fault → Bool
is_final_fault (client_error e) = not e.retryable
is_final_fault _ = false

unfoldable pub is_final : {A : Type 0} → Result Fault A → Bool
unfolding is_final_fault
is_final (ok a) = true
is_final (err e) = is_final_fault e

abbrev pub bound : Result Fault (Unit {0}) → Binding → World → Result Fault (Unit {0}) × World
bound (ok _) b w = (ok tt, record w { binding = some b })
bound (err e) b w = (err e, w)

unfoldable pub bind : Binding → M (Unit {0})
bind b w = bound (validate_binding b) b w

unfoldable pub unbind : M (Unit {0})
unbind w = (ok tt, record w { binding = none })

abbrev pub noted : Result Fault (Unit {0}) → Document → World → Result Fault (Unit {0}) × World
noted (ok _) d w = (ok tt, record w { applied = w.applied ++ d ∷ []; ticks = suc w.ticks })
noted (err e) d w = (err e, record w { ticks = suc w.ticks })

module _ (n : Network) where
  unfoldable pub write : PendingCommand → M RelationshipResult
  write p w =
      let answer = n.write w.ticks p in
      (answer, record w { ticks = suc w.ticks; log = sent p (is_final answer) ∷ w.log })

  unfoldable pub apply : Document → M (Unit {0})
  apply d w = noted (n.apply w.ticks d) d w
