-- ===== src/Relationship/Settled.antt =====
-- relationship-service.ts: what the calls leave in the store of commands, and their log.
use teti_bot.Relationship.Protocol.{Reads, holding, idle, give_up, save_new}
use teti_bot.Relationship.Command.{is_code, is_not_found, new_command}
use teti_bot.Base.{
  ℕ, String, ◌≡◌, refl, Bool, true, false, Option, none, some, List, [], ◌==◌, number_equality,
  text_equality, Result, ok, err, ≢_of_==,
}
use teti_bot.Relationship.World.{
  ◌>>=◌, Network, abandon, save, gets, World, Event, M, stored, abandoned, saved,
}
use teti_bot.Relationship.Service.{
  prepare, recover_pending, check_compatible, recover, authorize_peer, command, execute,
  get_by_peer, read_by_peer, recovered_or, request_peer, execute_new,
}
use teti_bot.Relationship.Store.{PendingCommand, Operation, validate_command}
use teti_bot.Relationship.Keeps.{
  Condition, Leads, Leads-return, Ends, Leads->>=, Leads-ask, Leads-lift, Leads-mark_compatible,
  Leads-gets, Leads-if, Leads-catching, Leads-throw, Leads-weaken,
}
use teti_bot.Relationship.Recovery.{Clean, Traced, Held, send_pending-Clean, Clean-Traced}
use teti_bot.Relationship.{RelationshipResult, Document, Fault, conflict, invalid_record}
use teti_bot.Relationship.Scan.{reconcile}
use teti_bot.Relationship.Scanned.{
  known_checkpoint-keeps, checkpoint_or_scan-keeps, scan_changes-keeps,
}

module _ (n : Network) where
  save-Held : (p : PendingCommand) → Leads Clean (Held p) (λ _. Clean) (save p)
  unfolding save
  save-Held p = record { at = λ w h. ends (validate_command p) w h }
    where
      ends :
          (r : Result Fault (Unit {0})) (w : World)
          → Clean w.pending w.log
          → Ends (Held p) (λ _. Clean) (stored r p w)
      ends (ok _) w (reads, empty) =
          (Reads.step w.log (saved p) idle (holding p) reads (save_new p), refl)
      ends (err e) w h = h

  prepare-keeps : (P : Condition) → Leads P P (λ _. P) (prepare n)
  unfolding prepare
  prepare-keeps P =
      Leads->>= _ _ (Leads-gets _) (λ known. Leads->>= _ _ (check known) (λ _. Leads-ask _))
    where
      check : (known : Bool) → Leads P P (λ _. P) (check_compatible n known)
      check true = Leads-return tt
      check false =
          Leads->>= _ _ (Leads-ask _)
            (λ b. Leads->>= _ _ (Leads-lift _) (λ _. Leads-mark_compatible))

  abandon-Clean :
      (p : PendingCommand) (teti_id : String)
      → (p.teti_id == teti_id) ≡ false
      → Leads (Held p) Clean (λ _. Traced) (abandon teti_id)
  unfolding abandon
  abandon-Clean p teti_id other = record {
    at = λ w h. (
      Reads.step w.log (abandoned teti_id) (holding p) idle h.0
          (give_up p teti_id (≢_of_== p.teti_id teti_id other)),
      refl,
    );
  }

  -- What is known where the store is found to hold `o`.
  abbrev Found : Option PendingCommand → Condition
  Found none = Clean
  Found (some p) = Held p

  Traced-Found : (o : Option PendingCommand) (l : List Event) → Traced o l → Found o o l
  Traced-Found none l h = (h, refl)
  Traced-Found (some p) l h = (h, refl)

  recover-Clean :
      (teti_id : String) (o : Option PendingCommand)
      → Leads (Found o) Clean (λ _. Traced) (recover n teti_id o)
  unfolding recover
  recover-Clean teti_id none = Leads-return none
  recover-Clean teti_id (some p) =
      Leads-if (p.teti_id == teti_id) _ _
        (λ _. Leads->>= _ _ (send_pending-Clean n p teti_id true) (λ r. Leads-return (some r)))
        (λ other. Leads->>= _ _ (abandon-Clean p teti_id other) (λ _. Leads-return none))

  recover_pending-Clean :
      (teti_id : String) → Leads Traced Clean (λ _. Traced) (recover_pending n teti_id)
  unfolding recover_pending ◌>>=◌ gets
  recover_pending-Clean teti_id = record {
    at = λ w h. (recover-Clean teti_id w.pending).at w (Traced-Found w.pending w.log h);
  }

  read_by_peer-keeps :
      (P : Condition) (peer teti_id : String) → Leads P P (λ _. P) (read_by_peer n peer teti_id)
  unfolding read_by_peer
  read_by_peer-keeps P peer teti_id =
      Leads-catching _ _
        (Leads->>= _ _ (Leads-ask _)
          (λ r. Leads->>= _ _ (Leads-lift _) (λ _. Leads-return (some r))))
        (λ e.
          Leads-if (is_code is_not_found e) _ _ (λ _. Leads-return none)
            (λ _. Leads-throw e (λ q l h. h)))

  -- A computation that leaves the empty store alone.
  kept :
      {A : Type 0} (m : M A) → Leads Clean Clean (λ _. Clean) m → Leads Clean Clean (λ _. Traced) m
  kept m k = Leads-weaken m (λ e. Clean-Traced) k

  execute-Clean :
      (operation : Operation) (target teti_id : String) (revision : Option ℕ)
      → Leads Clean Clean (λ _. Traced) (execute n operation target teti_id revision)
  unfolding execute
  execute-Clean operation target teti_id none =
      Leads->>= _ _ (kept _ (Leads-ask _)) (λ _. Leads-throw invalid_record Clean-Traced)
  execute-Clean operation target teti_id (some revision) =
      Leads->>= _ _ (kept _ (Leads-ask _)) (λ key.
        let p = new_command teti_id operation target revision key in
        Leads->>= _ _ (Leads-weaken _ (λ e. Clean-Traced) (save-Held p))
          (λ _. send_pending-Clean n p teti_id false))

  recovered_or-Clean :
      (test : Document → Bool) (m : M RelationshipResult) (o : Option RelationshipResult)
      → Leads Clean Clean (λ _. Traced) m
      → Leads Clean Clean (λ _. Traced) (recovered_or n test m o)
  unfolding recovered_or
  recovered_or-Clean test m none k = k
  recovered_or-Clean test m (some r) k =
      Leads-if (test r.document) _ _ (λ _. Leads-return r) (λ _. k)

  -- `prepare` and `recoverPending`, which each call begins with.
  begun :
      {A : Type 0} (f : String → Option RelationshipResult → M A)
      → ((teti_id : String) (o : Option RelationshipResult)
          → Leads Clean Clean (λ _. Traced) (f teti_id o))
      → Leads Traced Clean
          (λ _. Traced)
          (prepare n >>= λ teti_id. recover_pending n teti_id >>= λ o. f teti_id o)
  begun f k =
      Leads->>= _ _ (prepare-keeps Traced)
        (λ teti_id. Leads->>= _ _ (recover_pending-Clean teti_id) (k teti_id))

  pub get_by_peer-Clean : (peer : String) → Leads Traced Clean (λ _. Traced) (get_by_peer n peer)
  unfolding get_by_peer
  get_by_peer-Clean peer = begun _ (λ teti_id _. kept _ (read_by_peer-keeps Clean peer teti_id))

  pub request_peer-Clean : (peer : String) → Leads Traced Clean (λ _. Traced) (request_peer n peer)
  unfolding request_peer execute_new
  request_peer-Clean peer = begun _ (λ teti_id o. recovered_or-Clean _ _ o (
      Leads->>= _ _ (kept _ (read_by_peer-keeps Clean peer teti_id))
        (λ current. execute-Clean _ peer teti_id _)))

  pub command-Clean :
      (relationship_id : String) (operation : Operation)
      → Leads Traced Clean (λ _. Traced) (command n relationship_id operation)
  unfolding command execute_new
  command-Clean relationship_id operation = begun _ (λ teti_id o. recovered_or-Clean _ _ o (
      Leads->>= _ _ (kept _ (Leads-ask _)) (λ current.
        Leads->>= _ _ (kept _ (Leads-lift _))
          (λ _. execute-Clean operation relationship_id teti_id _))))

  pub authorize_peer-keeps :
      (P : Condition) (peer : String) → Leads P P (λ _. P) (authorize_peer n peer)
  unfolding authorize_peer
  authorize_peer-keeps P peer = Leads->>= _ _ (prepare-keeps P) (λ _.
      Leads->>= _ _ (Leads-ask _) (λ a.
        Leads->>= _ _
          (Leads-if _ _ _ (λ _. Leads-throw conflict (λ q l h. h)) (λ _. Leads-return tt))
          (λ _. Leads-return a)))

  pub reconcile-Clean : (fuel : ℕ) → Leads Traced Clean (λ _. Traced) (reconcile n fuel)
  unfolding reconcile
  reconcile-Clean fuel = begun _ (λ teti_id _. Leads->>= _ _ (Leads-gets _) (λ stored.
      Leads->>= _ _ (kept _ (known_checkpoint-keeps Clean n teti_id stored)) (λ known.
        Leads->>= _ _ (kept _ (checkpoint_or_scan-keeps Clean n teti_id fuel known))
          (λ c. kept _ (scan_changes-keeps Clean n teti_id fuel [] c)))))
