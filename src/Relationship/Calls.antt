-- ===== src/Relationship/Calls.antt =====
-- services/network/relationship-service.ts: the calls of the service one after the other, as its queue makes
-- them; one that throws does not keep the next from being made.
use teti_bot.Base.{
  ℕ, String, false, none, List, [], ◌∷◌, number_equality, text_equality, Result, ok, err,
}
use teti_bot.Relationship.Store.{Operation}
use teti_bot.Relationship.{Fault}
use teti_bot.Relationship.World.{Network, World, M}
use teti_bot.Relationship.Service.{request_peer, command, get_by_peer, authorize_peer}
use teti_bot.Relationship.Scan.{reconcile}

pub data Call : Type 0 where
  request_call : String → Call
  command_call : String → Operation → Call
  get_by_peer_call : String → Call
  authorize_call : String → Call
  reconcile_call : ℕ → Call

abbrev pub done : {A : Type 0} → Result Fault A × World → Result Fault (Unit {0}) × World
done (ok a, w) = (ok tt, w)
done (err e, w) = (err e, w)

module _ (n : Network) where
  unfoldable pub perform : Call → M (Unit {0})
  perform (request_call peer) w = done (request_peer n peer w)
  perform (command_call relationship_id operation) w = done (command n relationship_id operation w)
  perform (get_by_peer_call peer) w = done (get_by_peer n peer w)
  perform (authorize_call peer) w = done (authorize_peer n peer w)
  perform (reconcile_call fuel) w = done (reconcile n fuel w)

  unfoldable pub perform_all : List Call → World → World
  perform_all [] w = w
  perform_all (call ∷ calls) w = perform_all calls (perform call w).1

-- The service as it is constructed.
abbrev pub fresh : World
fresh = record {
  pending = none;
  binding = none;
  compatible = false;
  ticks = 0;
  log = [];
  applied = [];
}
