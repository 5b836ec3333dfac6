-- ===== src/Relationship/Protocol.antt =====
-- What the log of the service promises a server: an automaton that holds the one command that may be sent.
use teti_bot.Base.{
  String, ◌≢◌, true, false, Option, none, some, List, [], ◌∷◌, number_equality, text_equality,
}
use teti_bot.Relationship.Store.{PendingCommand}
use teti_bot.Relationship.World.{Event, World, saved, sent, cleared, abandoned}

-- No command, a command whose last answer was not final, or one that was answered for good.
pub data Phase : Type 0 where
  idle settled : Phase
  holding : PendingCommand → Phase

-- Only the held command itself may be sent, again and again until it is answered for good; it gives way to
-- another only behind that answer, or to another identity.
infix 40 ◌⟶⟨◌⟩◌
pub data ◌⟶⟨◌⟩◌ : Phase → Event → Phase → Type 0 where
  save_new : (p : PendingCommand) → idle ⟶⟨ saved p ⟩ holding p
  send_lost : (p : PendingCommand) → holding p ⟶⟨ sent p false ⟩ holding p
  send_final : (p : PendingCommand) → holding p ⟶⟨ sent p true ⟩ settled
  clear_settled : settled ⟶⟨ cleared ⟩ idle
  clear_again : idle ⟶⟨ cleared ⟩ idle
  give_up :
      (p : PendingCommand) (teti_id : String)
      → p.teti_id ≢ teti_id
      → holding p ⟶⟨ abandoned teti_id ⟩ idle

-- The automaton reads the log, whose last event is the first, and ends in this phase.
pub data Reads : List Event → Phase → Type 0 where
  start : Reads [] idle
  step : (log : List Event) (e : Event) (a b : Phase) → Reads log a → a ⟶⟨ e ⟩ b → Reads (e ∷ log) b

abbrev pub phase_of : Option PendingCommand → Phase
phase_of none = idle
phase_of (some p) = holding p

-- The store holds what the automaton does.
abbrev pub IsTraced : World → Type 0
IsTraced w = Reads w.log (phase_of w.pending)
