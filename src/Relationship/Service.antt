-- ===== src/Relationship/Service.antt =====
-- services/network/relationship-service.ts: the commands on relationships. A command is saved before it is
-- sent, and is sent again as it was saved until an answer is final.
use teti_bot.Relationship.{confirmed, in_state, allow, deny}
use teti_bot.Relationship.World.{◌>>=◌, ◌>>◌}
use teti_bot.Base.{
  ℕ, String, Bool, true, false, not, ◌||◌, Option, none, some, ◌==◌, ◌!=◌, number_equality,
  text_equality, if◌then◌else◌, ok,
}
use teti_bot.Relationship.{
  Document, Decision, Fault, Reason, RelationshipResult, Authorization, conflict, invalid_record,
  assert_compatible,
}
use teti_bot.Relationship.Store.{is_request, Operation, PendingCommand}
use teti_bot.Relationship.World.{
  Network, M, ask, catching, gets, is_final_fault, return, throw, write, abandon, clear, lift, save,
  mark_compatible,
}
use teti_bot.Relationship.Command.{
  assert_projection, expected_revision, is_code, new_command, is_not_found, is_revision_conflict,
}

module _ (n : Network) where
  unfoldable pub check_compatible : Bool → M (Unit {0})
  check_compatible true = return tt
  check_compatible false = do
    bootstrap ← ask n.bootstrap
    lift (assert_compatible bootstrap)
    mark_compatible

  unfoldable pub prepare : M String
  unfolding check_compatible
  prepare = do
    compatible ← gets (λ w. w.compatible)
    check_compatible compatible
    ask n.authentication

  abbrev target_of : Option String → String
  target_of none = ""
  target_of (some v) = v

  -- The read behind a conflict of revisions, whose outcome is dropped.
  unfoldable pub refresh : PendingCommand → M (Unit {0})
  unfolding is_request
  refresh p =
      catching
        (do
          _ ← ask (
              if is_request p.operation
              then (λ t. n.with_peer t (target_of p.peer_teti_id))
              else (λ t. n.relationship t (target_of p.relationship_id)))
          return tt)
        (λ _. return tt)

  -- The inner `try` of `sendPending`: the document as it is after the command.
  unfoldable pub latest_document : String → Bool → RelationshipResult → M RelationshipResult
  latest_document teti_id recovered result =
      catching
        (do
          latest ← ask (λ t. n.relationship t result.document.id)
          lift (assert_projection latest.document teti_id (some result.document.peer_teti_id))
          return latest)
        (λ e. if recovered then throw e else return result)

  unfoldable pub attempt : PendingCommand → String → Bool → M RelationshipResult
  unfolding latest_document
  attempt p teti_id recovered = do
    result ← write n p
    lift (assert_projection result.document teti_id p.peer_teti_id)
    clear
    latest_document teti_id recovered result

  -- The outer `catch` of `sendPending`.
  unfoldable pub on_error : PendingCommand → Fault → M RelationshipResult
  unfolding refresh
  on_error p e = do
    if is_final_fault e then clear else return tt
    if is_code is_revision_conflict e then refresh p else return tt
    throw e

  unfoldable pub send_pending : PendingCommand → String → Bool → M RelationshipResult
  unfolding attempt on_error
  send_pending p teti_id recovered = catching (attempt p teti_id recovered) (on_error p)

  unfoldable pub recover : String → Option PendingCommand → M (Option RelationshipResult)
  recover teti_id none = return none
  recover teti_id (some p) =
      if p.teti_id == teti_id
      then (do result ← send_pending p teti_id true; return (some result))
      else (do abandon teti_id; return none)

  unfoldable pub recover_pending : String → M (Option RelationshipResult)
  unfolding recover
  recover_pending teti_id = do stored ← gets (λ w. w.pending); recover teti_id stored

  unfoldable pub read_by_peer : String → String → M (Option RelationshipResult)
  read_by_peer peer teti_id =
      catching
        (do
          result ← ask (λ t. n.with_peer t peer)
          lift (assert_projection result.document teti_id (some peer))
          return (some result))
        (λ e. if is_code is_not_found e then return none else throw e)

  -- A revision of -1 makes a command that the store refuses.
  unfoldable pub execute : Operation → String → String → Option ℕ → M RelationshipResult
  execute operation target teti_id none = do
    _ ← ask (λ t. ok (n.idempotency_key t operation))
    throw invalid_record
  execute operation target teti_id (some revision) = do
    key ← ask (λ t. ok (n.idempotency_key t operation))
    let p = new_command teti_id operation target revision key
    save p
    send_pending p teti_id false

  unfoldable pub execute_new :
      Operation → String → Option RelationshipResult → String → M RelationshipResult
  unfolding execute
  execute_new operation target current teti_id =
      execute operation target teti_id (expected_revision operation current)

  unfoldable pub get_by_peer : String → M (Option RelationshipResult)
  get_by_peer peer = do teti_id ← prepare; _ ← recover_pending teti_id; read_by_peer peer teti_id

  -- `if (recovered?.document … ) return recovered`, or the rest of the call.
  unfoldable pub recovered_or :
      (Document → Bool) → M RelationshipResult → Option RelationshipResult → M RelationshipResult
  recovered_or p m none = m
  recovered_or p m (some r) = if p r.document then return r else m

  unfoldable pub request_peer : String → M RelationshipResult
  unfolding recovered_or
  request_peer peer = do
    teti_id ← prepare
    recovered ← recover_pending teti_id
    recovered_or (λ d. d.peer_teti_id == peer)
        (do current ← read_by_peer peer teti_id; execute_new Operation.request peer current teti_id)
        recovered

  unfoldable pub command : String → Operation → M RelationshipResult
  unfolding recovered_or
  command relationship_id operation = do
    teti_id ← prepare
    recovered ← recover_pending teti_id
    recovered_or (λ d. d.id == relationship_id)
        (do
          current ← ask (λ t. n.relationship t relationship_id)
          lift (assert_projection current.document teti_id none)
          execute_new operation relationship_id (some current) teti_id)
        recovered

  abbrev is_allowed : Decision → Bool
  is_allowed allow = true
  is_allowed deny = false

  abbrev is_confirmed_reason : Reason → Bool
  is_confirmed_reason (in_state confirmed) = true
  is_confirmed_reason _ = false

  abbrev same_test : Bool → Bool → Bool
  same_test true b = b
  same_test false b = not b

  unfoldable pub authorize_peer : String → M Authorization
  authorize_peer peer = do
    teti_id ← prepare
    authorization ← ask (λ t. n.authorization t peer)
    if (authorization.peer_teti_id != peer
          || not (
              same_test (is_allowed authorization.decision)
                (is_confirmed_reason authorization.reason)))
        then throw conflict
        else return tt
    return authorization
