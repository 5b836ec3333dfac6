-- ===== src/Relationship/Runs.antt =====
-- Sequences of calls of the relationship service.
use teti_bot.Relationship.Calls.{
  authorize_call, request_call, command_call, get_by_peer_call, reconcile_call,
}
use teti_bot.Base.{
  ◌≡◌, refl, Bool, true, false, none, List, [], ◌∷◌, number_equality, text_equality, Result, ok,
  err,
}
use teti_bot.Relationship.World.{Network, World}
use teti_bot.Relationship.Calls.{Call, perform, perform_all, fresh, done}
use teti_bot.Relationship.Keeps.{Condition, Ends}
use teti_bot.Relationship.{Fault}
use teti_bot.Relationship.Protocol.{IsTraced, Reads}
use teti_bot.Relationship.Recovery.{Clean, Traced, Clean-Traced}
use teti_bot.Relationship.Settled.{
  authorize_peer-keeps, request_peer-Clean, command-Clean, get_by_peer-Clean, reconcile-Clean,
}

-- `authorizePeer` is the one call that does not look after the pending command.
abbrev pub recovers : Call → Bool
recovers (authorize_call peer) = false
recovers _ = true

module _ (n : Network) where
  done-Ends :
      {A : Type 0} (Q : Condition) (r : Result Fault A × World)
      → Ends Q (λ _. Traced) r
      → Ends Q (λ _. Traced) (done r)
  done-Ends Q (ok a, w) h = h
  done-Ends Q (err e, w) h = h

  perform-Clean :
      (call : Call) (w : World)
      → recovers call ≡ true
      → IsTraced w
      → Ends Clean (λ _. Traced) (perform n call w)
  unfolding perform
  perform-Clean (request_call peer) w r h = done-Ends Clean _ ((request_peer-Clean n peer).at w h)
  perform-Clean (command_call id operation) w r h =
      done-Ends Clean _ ((command-Clean n id operation).at w h)
  perform-Clean (get_by_peer_call peer) w r h =
      done-Ends Clean _ ((get_by_peer-Clean n peer).at w h)
  perform-Clean (authorize_call peer) w r h = cc
  perform-Clean (reconcile_call fuel) w r h = done-Ends Clean _ ((reconcile-Clean n fuel).at w h)

  weaker :
      (r : Result Fault (Unit {0}) × World)
      → Ends Clean (λ _. Traced) r
      → Ends Traced (λ _. Traced) r
  weaker (ok _, w) h = Clean-Traced w.pending w.log h
  weaker (err e, w) h = h

  perform-Ends :
      (call : Call) (w : World) → IsTraced w → Ends Traced (λ _. Traced) (perform n call w)
  unfolding perform
  perform-Ends (authorize_call peer) w h =
      done-Ends Traced _ ((authorize_peer-keeps n Traced peer).at w h)
  perform-Ends (request_call peer) w h =
      weaker (perform n (request_call peer) w) (perform-Clean (request_call peer) w refl h)
  perform-Ends (command_call id operation) w h =
      weaker (perform n (command_call id operation) w)
        (perform-Clean (command_call id operation) w refl h)
  perform-Ends (get_by_peer_call peer) w h =
      weaker (perform n (get_by_peer_call peer) w) (perform-Clean (get_by_peer_call peer) w refl h)
  perform-Ends (reconcile_call fuel) w h =
      weaker (perform n (reconcile_call fuel) w) (perform-Clean (reconcile_call fuel) w refl h)

  Ends-IsTraced : (r : Result Fault (Unit {0}) × World) → Ends Traced (λ _. Traced) r → IsTraced r.1
  Ends-IsTraced (ok _, w) h = h
  Ends-IsTraced (err e, w) h = h

  -- Whatever the calls, the server and the callback do, the log of the service is read by the automaton,
  -- which then holds the command that the store holds: a command is sent only while it is stored, every
  -- resend is of the same command, and a stored command gives way only behind a final answer or to
  -- another identity.
  pub perform_all-IsTraced :
      (calls : List Call) (w : World) → IsTraced w → IsTraced (perform_all n calls w)
  unfolding perform_all
  perform_all-IsTraced [] w h = h
  perform_all-IsTraced (call ∷ calls) w h =
      perform_all-IsTraced calls (perform n call w).1
        (Ends-IsTraced (perform n call w) (perform-Ends call w h))

  -- After any calls, a call that returns, other than `authorizePeer`, leaves no pending command.
  pub perform-settles :
      (calls : List Call) (call : Call)
      → recovers call ≡ true
      → (perform n call (perform_all n calls fresh)).0 ≡ ok tt
      → (perform n call (perform_all n calls fresh)).1.pending ≡ none
  perform-settles calls call r returned =
      let w = perform_all n calls fresh in
      let traced = perform_all-IsTraced calls fresh Reads.start in
      settled_of (perform n call w) (perform-Clean call w r traced) returned
    where
      settled_of :
          (r : Result Fault (Unit {0}) × World)
          → Ends Clean (λ _. Traced) r
          → r.0 ≡ ok tt
          → r.1.pending ≡ none
      settled_of (ok _, w) h e = h.1
      settled_of (err f, w) h e = cc
