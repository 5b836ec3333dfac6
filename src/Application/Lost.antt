-- ===== src/Application/Lost.antt =====
-- application/manager.ts: what a receive that throws has handled is lost.
use teti_bot.Application.Types.{Fault, Envelope}
use teti_bot.Application.Manager.{
  Host, World, Mail, Received, is_processed, receive_text, text_of, receive_each, cons_received,
}
use teti_bot.Application.Receiving.{turn, told, marked, receive_text-turn, turn-told}
use teti_bot.Application.Told.{Fresh, receive_each-AreTold}
use teti_bot.Application.Again.{
  Follows, Follows-refl, Follows-trans, Ended, found, text-Ended, rest_of, is_processed-append,
  is_processed-last,
}
use teti_bot.Connection.Types.{ConnectionRecord}
use teti_bot.Connection.Storage.{Connections}
use teti_bot.Effects.{return, ◌>>=◌, and_then}
use teti_bot.Base.{
  String, ◌≡◌, refl, sym, ap, ◌∙◌, inl, inr, true, false, Option, some, List, [], ◌∷◌, ◌++◌, ◌==◌,
  number_equality, text_equality, Result, ok, err, All, Bool-cases, eq_iff, All-append, subst,
}

abbrev pub IsNotOf : String → Received → Type 0
IsNotOf id r = (r.envelope.message_id == id) ≡ false

-- A message that is new is of no processed id.
Fresh-IsNotOf :
    (id : String) (ids : List String) (rs : List Received)
    → is_processed id ids ≡ true
    → Fresh ids rs
    → All (IsNotOf id) rs
Fresh-IsNotOf id ids [] h f = tt
Fresh-IsNotOf id ids (r ∷ rs) h (new, f) = (
  elim (Bool-cases (r.envelope.message_id == id)) [
    | inr apart ↦ apart
    | inl e ↦
        let same = (eq_iff r.envelope.message_id id).0 e in
        let old = subst (λ i. is_processed i ids ≡ true) (sym same) h in cc
  ],
  Fresh-IsNotOf id (ids ++ r.envelope.message_id ∷ []) rs
      (is_processed-append id ids (r.envelope.message_id ∷ []) h) f,
)

module _ (h : Host) where
  -- The world behind a computation that only changes what is returned.
  same_world :
      (r : Option Received) (q : Result Fault (List Received) × World)
      → (and_then q (λ rs. return (cons_received r rs))).1 ≡ q.1
  unfolding return
  same_world r (ok rs, w) = refl
  same_world r (err f, w) = refl

  then-Follows :
      (mails : List Mail) (w : World) (m : Option (Envelope × ConnectionRecord))
      (q : Result Fault (Option Received) × World)
      → ((v : World) → Follows h v (receive_each h mails v).1)
      → Ended h w m q
      → Follows h w (and_then q (λ r. rest_of h mails r)).1
  unfolding ◌>>=◌
  then-Follows mails w m (err f, v) rest ended = ended
  then-Follows mails w m (ok r, v) rest (follows, seen) =
      Follows-trans h w v _ follows
        (subst (Follows h v) (sym (same_world r (receive_each h mails v))) (rest v))

  -- A receive keeps the ids that were processed, whether it returns or throws.
  receive_each-Follows : (mails : List Mail) (w : World) → Follows h w (receive_each h mails w).1
  unfolding receive_each return ◌>>=◌
  receive_each-Follows [] w = Follows-refl h w
  receive_each-Follows (mail ∷ mails) w =
      then-Follows mails w (found h w mail) (receive_text h mail (text_of mail.text) w)
        (receive_each-Follows mails) (text-Ended h mail w)

  abbrev told_of : Result Fault (List Received) → List Received
  told_of (ok rs) = rs
  told_of (err f) = []

  -- What receives after each other tell of, each of its mails and with the connections that are stored then.
  abbrev pub later_told : List (Connections × List Mail) → World → List Received
  later_told [] w = []
  later_told ((connections, mails) ∷ later) w =
      let end = receive_each h mails (record w { connections = connections }) in
      told_of end.0 ++ later_told later end.1

  told_of-IsNotOf :
      (id : String) (mails : List Mail) (w : World) (q : Result Fault (List Received) × World)
      → receive_each h mails w ≡ q
      → is_processed id w.processed ≡ true
      → All (IsNotOf id) (told_of q.0)
  told_of-IsNotOf id mails w (err f, v) run seen = tt
  told_of-IsNotOf id mails w (ok rs, v) run seen =
      let t = receive_each-AreTold h mails w v rs run in
      Fresh-IsNotOf id w.processed rs seen t.fresh

  -- A processed id is told of by no later receive.
  later_told-IsNotOf :
      (id : String) (later : List (Connections × List Mail)) (w : World)
      → is_processed id w.processed ≡ true
      → All (IsNotOf id) (later_told later w)
  later_told-IsNotOf id [] w seen = tt
  later_told-IsNotOf id ((connections, mails) ∷ later) w seen =
      let start : World = record w { connections = connections } in
      let end = receive_each h mails start in
      let follows = receive_each-Follows mails start in
      All-append (IsNotOf id) (told_of end.0) (later_told later end.1)
        (told_of-IsNotOf id mails start end refl seen)
        (later_told-IsNotOf id later end.1 (follows.grows id seen))

  module _ (first : Mail) (w : World) (e : Envelope) (c : ConnectionRecord)
      (at_first : found h w first ≡ some (e, c))
      (unseen : is_processed e.message_id w.processed ≡ false)
      (allowed : h.authorizes w.ticks c.remote_teti_id ≡ true) where
    first-told :
        receive_text h first (text_of first.text) w
        ≡ (ok (some (told h first e c)), marked h e.message_id w)
    first-told =
        receive_text-turn h first (text_of first.text) w
        ∙ (ap (λ m. turn h first m w) at_first ∙ turn-told h first e c w allowed unseen)

    first-processed :
        (mails : List Mail)
        → is_processed e.message_id (receive_each h (first ∷ mails) w).1.processed ≡ true
    unfolding receive_each ◌>>=◌
    first-processed mails =
        let follows = receive_each-Follows mails (marked h e.message_id w) in
        let there : is_processed e.message_id (marked h e.message_id w).processed ≡ true =
          is_processed-last e.message_id w.processed in
        let still = follows.grows e.message_id there in
        rw first-told (
          rw (same_world (some (told h first e c)) (receive_each h mails (marked h e.message_id w)))
            still)

    -- A mail whose message is new, and which would be told of if it came alone, is the first of a receive
    -- that throws, whatever the other mails are: then its message is told of by no later receive, of
    -- whatever mails and with whatever connections.
    pub receive_each-loses :
        (mails : List Mail) (w' : World) (f : Fault) (later : List (Connections × List Mail))
        → receive_each h (first ∷ mails) w ≡ (err f, w')
        → ((receive_each h (first ∷ []) w).0 ≡ ok (told h first e c ∷ []))
          × All (IsNotOf e.message_id) (later_told later w')
    unfolding receive_each return ◌>>=◌
    receive_each-loses mails w' f later run = (
      rw first-told refl,
      later_told-IsNotOf e.message_id later w'
          (subst (λ q. is_processed e.message_id q.1.processed ≡ true) run (first-processed mails)),
    )
