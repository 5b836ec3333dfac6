-- ===== src/Relationship/Recovery.antt =====
-- relationship-service.ts: every command that is sent is the one that the store holds, and the store gives it
-- up only behind a final answer or for another identity.
use teti_bot.Base.{
  suc, String, ◌≡◌, refl, ◌⊎◌, inl, inr, Bool, true, false, not, Option, none, some, List, ◌∷◌,
  number_equality, text_equality, if◌then◌else◌, Result, ok, err, Bool-cases, fail_if,
}
use teti_bot.Relationship.World.{
  Network, clear, Event, lift, return, write, is_final, is_final_fault, World, cleared, sent,
}
use teti_bot.Relationship.Keeps.{
  Condition, Leads, Leads-catching, Ends, Leads->>=, Leads-ask, Leads-if, Leads-lift, Leads-return,
  Leads-throw,
}
use teti_bot.Relationship.Store.{PendingCommand}
use teti_bot.Relationship.Protocol.{
  Reads, holding, idle, phase_of, settled, clear_again, clear_settled, send_final, send_lost,
}
use teti_bot.Relationship.{Fault, Document, RelationshipResult, conflict}
use teti_bot.Relationship.Service.{send_pending, attempt, latest_document, on_error, refresh}
use teti_bot.Relationship.Command.{assert_projection, projection_ok}

-- Between calls; with an empty store; while `p` is held; and behind a final answer.
abbrev pub Traced : Condition
Traced q l = Reads l (phase_of q)

abbrev pub Clean : Condition
Clean q l = Reads l idle × (q ≡ none)

abbrev pub Held : PendingCommand → Condition
Held p q l = Reads l (holding p) × (q ≡ some p)

abbrev Answered : Condition
Answered q l = Reads l settled

pub Clean-Traced : (q : Option PendingCommand) (l : List Event) → Clean q l → Traced q l
Clean-Traced q l (reads, empty) = rw empty reads

Held-Traced :
    (p : PendingCommand) (q : Option PendingCommand) (l : List Event) → Held p q l → Traced q l
Held-Traced p q l (reads, held) = rw held reads

-- Where sending `p` may fail: behind a final answer, with the store still full or emptied, or behind one
-- that is not final.
abbrev Failed : PendingCommand → Fault → Condition
Failed p e q l =
    ((is_final_fault e ≡ true) × Answered q l)
    ⊎ (((is_final_fault e ≡ false) × Held p q l) ⊎ Clean q l)

clear-Answered : {E : Fault → Condition} → Leads Answered Clean E clear
unfolding clear
clear-Answered = record {
  at = λ w h. (Reads.step w.log cleared settled idle h clear_settled, refl);
}

module _ (n : Network) where
  write-Answered : (p : PendingCommand) → Leads (Held p) Answered (Failed p) (write n p)
  unfolding write is_final
  write-Answered p = record { at = λ w h. ends (n.write w.ticks p) w h }
    where
      ends :
          (r : Result Fault RelationshipResult) (w : World)
          → Held p w.pending w.log
          → Ends Answered
              (Failed p)
              (r, record w { ticks = suc w.ticks; log = sent p (is_final r) ∷ w.log })
      ends (ok r) w (reads, held) =
          Reads.step w.log (sent p true) (holding p) settled reads (send_final p)
      ends (err e) w (reads, held) = elim (Bool-cases (is_final_fault e)) [
        | inl final ↦ inl (
          final,
          rw final (Reads.step w.log (sent p true) (holding p) settled reads (send_final p)),
        )
        | inr lost ↦ inr (
            inl (
              lost,
              (
                rw lost
                    (Reads.step w.log (sent p false) (holding p) (holding p) reads (send_lost p)),
                held,
              ),
            ))
      ]

  assert-Answered :
      (p : PendingCommand) (d : Document) (teti_id : String) (expected : Option String)
      → Leads Answered Answered (Failed p) (lift (assert_projection d teti_id expected))
  unfolding lift assert_projection is_final_fault
  assert-Answered p d teti_id expected = record {
    at = λ w h. ends (not (projection_ok d teti_id expected)) w h;
  }
    where
      ends :
          (b : Bool) (w : World)
          → Answered w.pending w.log
          → Ends Answered (Failed p) (fail_if b conflict, w)
      ends true w h = inl (refl, h)
      ends false w h = h

  latest_document-Clean :
      (p : PendingCommand) (teti_id : String) (recovered : Bool) (r : RelationshipResult)
      → Leads Clean Clean (Failed p) (latest_document n teti_id recovered r)
  unfolding latest_document
  latest_document-Clean p teti_id recovered r =
      Leads-catching _ _
        (Leads->>= _ _ (Leads-ask _) (λ latest. Leads->>= _ _ (Leads-lift _) (λ _. Leads-return _)))
        (λ e.
          Leads-if recovered _ _ (λ _. Leads-throw e (λ q l h. inr (inr h))) (λ _. Leads-return r))

  attempt-Clean :
      (p : PendingCommand) (teti_id : String) (recovered : Bool)
      → Leads (Held p) Clean (Failed p) (attempt n p teti_id recovered)
  unfolding attempt
  attempt-Clean p teti_id recovered = Leads->>= _ _ (write-Answered p) (λ result.
      Leads->>= _ _ (assert-Answered p result.document teti_id p.peer_teti_id)
        (λ _. Leads->>= _ _ clear-Answered (λ _. latest_document-Clean p teti_id recovered result)))

  refresh-keeps : (P : Condition) (p : PendingCommand) → Leads P P (λ _. P) (refresh n p)
  unfolding refresh
  refresh-keeps P p =
      Leads-catching _ _ (Leads->>= _ _ (Leads-ask _) (λ _. Leads-return tt)) (λ _. Leads-return tt)

  clear_if-Traced :
      (p : PendingCommand) (e : Fault)
      → Leads (Failed p e) Traced (λ _. Traced) (if is_final_fault e then clear else return tt)
  unfolding clear return
  clear_if-Traced p e = record { at = λ w h. ends (is_final_fault e) refl w h }
    where
      ends :
          (b : Bool)
          → is_final_fault e ≡ b
          → (w : World) → Failed p e w.pending w.log
          → Ends Traced (λ _. Traced) ((if b then clear else return tt) w)
      ends true final w (inl (_, h)) = Reads.step w.log cleared settled idle h clear_settled
      ends true final w (inr (inl (lost, h))) = cc
      ends true final w (inr (inr h)) = Reads.step w.log cleared idle idle h.0 clear_again
      ends false lost w (inl (final, h)) = cc
      ends false lost w (inr (inl (_, h))) = Held-Traced p w.pending w.log h
      ends false lost w (inr (inr h)) = Clean-Traced w.pending w.log h

  on_error-Traced :
      (p : PendingCommand) (e : Fault) → Leads (Failed p e) Clean (λ _. Traced) (on_error n p e)
  unfolding on_error
  on_error-Traced p e = Leads->>= _ _ (clear_if-Traced p e) (λ _.
      Leads->>= _ _ (Leads-if _ _ _ (λ _. refresh-keeps Traced p) (λ _. Leads-return tt))
        (λ _. Leads-throw e (λ q l h. h)))

  pub send_pending-Clean :
      (p : PendingCommand) (teti_id : String) (recovered : Bool)
      → Leads (Held p) Clean (λ _. Traced) (send_pending n p teti_id recovered)
  unfolding send_pending
  send_pending-Clean p teti_id recovered =
      Leads-catching _ _ (attempt-Clean p teti_id recovered) (on_error-Traced p)
