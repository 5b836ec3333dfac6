-- ===== src/Application/Told.antt =====
-- application/manager.ts: the messages that are told of are genuine and new.
use teti_bot.Application.Types.{Fault, Envelope}
use mathlib.Core.List.{append-nil, append_assoc}
use teti_bot.Base.{
  String, ◌≡◌, refl, sym, ap, ◌∙◌, inl, inr, Bool, true, false, Option, none, some, List, [], ◌∷◌,
  ◌++◌, map, arith, ◌==◌, number_equality, text_equality, Result, ok, err, Bool-cases, eq_iff, Any,
  find, find-test, All-map,
}
use teti_bot.Application.{parse_envelope, subst, All}
use teti_bot.Application.Manager.{
  Host, World, Mail, Received, is_processed, receive_text, text_of, is_sender, is_from,
  cons_received, receive_each,
}
use teti_bot.Application.Receiving.{
  match_of, turn, told, receive_text-turn, turn-unauthorized, paired, turn-again, found_for,
  turn-told,
}
use teti_bot.Connection.Storage.{Connections}
use teti_bot.Connection.Types.{ConnectionRecord, is_confirmed}
use teti_bot.Effects.{return, >>=-ok, ◌>>=◌}

-- No id is one of `ids`, or of an earlier message.
abbrev pub Fresh : List String → List Received → Type 0
Fresh ids [] = Unit
Fresh ids (r ∷ rs) =
    (is_processed r.envelope.message_id ids ≡ false) × Fresh (ids ++ r.envelope.message_id ∷ []) rs

abbrev pub ids_of : List Received → List String
ids_of rs = map (λ r. r.envelope.message_id) rs

module _ (h : Host) where
  -- The text of the mail is a valid envelope; the connection is stored and confirmed, its peer is the sender
  -- of the envelope, and its address is that of the mail, if the mail has one.
  pub record IsOf (connections : Connections) (r : Received) (mail : Mail) : Type 0 where
    pub text : String
    pub has_text : text_of mail.text ≡ some text
    pub parsed : parse_envelope h.format text ≡ ok r.envelope
    pub stored : Any (λ c. c ≡ r.connection) connections
    pub confirmed : is_confirmed r.connection ≡ true
    pub peer : r.connection.remote_teti_id ≡ r.envelope.from_teti_id
    pub address : is_from mail.from_address r.connection.remote_address ≡ true
    pub number : r.chatmail_message_id ≡ mail.message_id

  find-Any :
      (p : ConnectionRecord → Bool) (cs : Connections) (c : ConnectionRecord)
      → find p cs ≡ some c
      → Any (λ x. x ≡ c) cs
  find-Any p [] c h' = cc
  find-Any p (x ∷ cs) c h' = elim (Bool-cases (p x)) [
    | inl e ↦ inl (ground arith)
    | inr e ↦ inr (find-Any p cs c (ground arith))
  ]

  found-IsOf :
      (cs : Connections) (mail : Mail) (text : String) (e : Envelope) (c : ConnectionRecord)
      → text_of mail.text ≡ some text
      → parse_envelope h.format text ≡ ok e
      → find (is_sender e mail.from_address) cs ≡ some c
      → IsOf cs (told h mail e c) mail
  unfolding is_sender
  found-IsOf cs mail text e c has_text parsed found =
      let sender : is_sender e mail.from_address c ≡ true =
        find-test (is_sender e mail.from_address) cs found in
      let confirmed : is_confirmed c ≡ true = ground arith in
      let peer : (c.remote_teti_id == e.from_teti_id) ≡ true = ground arith in
      record {
        text = text;
        has_text = has_text;
        parsed = parsed;
        stored = find-Any (is_sender e mail.from_address) cs c found;
        confirmed = confirmed;
        peer = (eq_iff c.remote_teti_id e.from_teti_id).0 peer;
        address = ground arith;
        number = refl;
      }

  match_of-IsOf :
      (cs : Connections) (mail : Mail) (o : Option String) (e : Envelope) (c : ConnectionRecord)
      → text_of mail.text ≡ o
      → match_of h cs mail o ≡ some (e, c)
      → IsOf cs (told h mail e c) mail
  match_of-IsOf cs mail none e c has_text m = cc
  match_of-IsOf cs mail (some text) e c has_text m = at_result (parse_envelope h.format text) refl m
    where
      at_found :
          (e' : Envelope) (o : Option ConnectionRecord)
          → parse_envelope h.format text ≡ ok e'
          → find (is_sender e' mail.from_address) cs ≡ o
          → paired e' o ≡ some (e, c)
          → IsOf cs (told h mail e c) mail
      at_found e' none parsed found m = cc
      at_found e' (some c') parsed found m =
          let same : e' ≡ e = cc in
          let same' : c' ≡ c = cc in
          found-IsOf cs mail text e c has_text (parsed ∙ ap ok same) (
            subst (λ x. find (is_sender x mail.from_address) cs ≡ some c) same
              (found ∙ ap some same'))

      at_result :
          (r : Result Fault Envelope)
          → parse_envelope h.format text ≡ r
          → found_for cs mail r ≡ some (e, c)
          → IsOf cs (told h mail e c) mail
      at_result (err _) parsed m = cc
      at_result (ok e') parsed m =
          at_found e' (find (is_sender e' mail.from_address) cs) parsed refl m

  -- What a turn that returns has done: nothing, or it told of a message of the mail, whose id was new.
  abbrev Turned : Mail → World → Option Received → World → Type 0
  Turned mail w none w' = (w'.processed ≡ w.processed) × (w'.connections ≡ w.connections)
  Turned mail w (some r) w' =
      IsOf w.connections r mail
      × (is_processed r.envelope.message_id w.processed ≡ false)
      × (w'.processed ≡ w.processed ++ r.envelope.message_id ∷ [])
      × (w'.connections ≡ w.connections)

  -- What a turn leaves where it ends with `end`.
  abbrev Leaves : Mail → World → Result Fault (Option Received) × World → Type 0
  Leaves mail w (ok r, w') = Turned mail w r w'
  Leaves mail w (err _, w') = Unit

  turn-Leaves :
      (mail : Mail) (w : World) (m : Option (Envelope × ConnectionRecord))
      → match_of h w.connections mail (text_of mail.text) ≡ m
      → Leaves mail w (turn h mail m w)
  turn-Leaves mail w none found = (refl, refl)
  turn-Leaves mail w (some (e, c)) found =
      elim (Bool-cases (h.authorizes w.ticks c.remote_teti_id)) [
        | inr refused ↦ rw (turn-unauthorized h mail e c w refused) tt
        | inl allowed ↦ elim (Bool-cases (is_processed e.message_id w.processed)) [
          | inl seen ↦ rw (turn-again h mail e c w allowed seen) (refl, refl)
          | inr unseen ↦ rw (turn-told h mail e c w allowed unseen) (
            match_of-IsOf w.connections mail (text_of mail.text) e c refl found,
            unseen,
            refl,
            refl,
          )
        ]
      ]

  receive_text-Turned :
      (mail : Mail) (w w' : World) (r : Option Received)
      → receive_text h mail (text_of mail.text) w ≡ (ok r, w')
      → Turned mail w r w'
  receive_text-Turned mail w w' r run =
      let left = turn-Leaves mail w (match_of h w.connections mail (text_of mail.text)) refl in
      subst (Leaves mail w) (sym (receive_text-turn h mail (text_of mail.text) w) ∙ run) left

  -- What the loop has told of.
  pub record AreTold (w : World) (mails : List Mail) (rs : List Received) (w' : World)
      : Type 0 where
    pub genuine : All (λ r. Any (IsOf w.connections r) mails) rs
    pub fresh : Fresh w.processed rs
    pub processed : w'.processed ≡ w.processed ++ ids_of rs
    pub connections : w'.connections ≡ w.connections

  AreTold-cons :
      (mail : Mail) (mails : List Mail) (w w₁ w' : World) (r : Option Received) (rs : List Received)
      → Turned mail w r w₁
      → AreTold w₁ mails rs w'
      → AreTold w (mail ∷ mails) (cons_received r rs) w'
  AreTold-cons mail mails w w₁ w' none rs (ids, cs) t = record {
    genuine =
        All-map (λ r k. inr k) rs (subst (λ l. All (λ r. Any (IsOf l r) mails) rs) cs t.genuine);
    fresh = subst (λ l. Fresh l rs) ids t.fresh;
    processed = t.processed ∙ ap (λ l. l ++ ids_of rs) ids;
    connections = t.connections ∙ cs;
  }
  AreTold-cons mail mails w w₁ w' (some r) rs (of, new, ids, cs) t = record {
    genuine = (
      inl of,
      All-map (λ r k. inr k) rs (subst (λ l. All (λ r. Any (IsOf l r) mails) rs) cs t.genuine),
    );
    fresh = (new, subst (λ l. Fresh l rs) ids t.fresh);
    processed =
        t.processed
        ∙ (ap (λ l. l ++ ids_of rs) ids
            ∙ append_assoc w.processed (r.envelope.message_id ∷ []) (ids_of rs));
    connections = t.connections ∙ cs;
  }

  -- A receive that returns tells only of valid envelopes of the mails, from the peers of confirmed
  -- connections and at their addresses; no id is one that was processed before, or of another of the
  -- messages told of; and then exactly their ids have become processed.
  pub receive_each-AreTold :
      (mails : List Mail) (w w' : World) (rs : List Received)
      → receive_each h mails w ≡ (ok rs, w')
      → AreTold w mails rs w'
  unfolding receive_each return
  receive_each-AreTold [] w w' rs run =
      let none_told : [] ≡ rs = cc in
      let same : w ≡ w' = cc in
      subst (λ l. AreTold w [] l w') none_told
        (subst (λ x. AreTold w [] [] x) same
          (record {
            genuine = tt;
            fresh = tt;
            processed = sym (append-nil w.processed);
            connections = refl;
          }))
  receive_each-AreTold (mail ∷ mails) w w' rs run =
      let (r, w₁, first, others) =
        >>=-ok (receive_text h mail (text_of mail.text))
          (λ r. receive_each h mails >>= λ rs. return (cons_received r rs)) w run in
      let (rs', w₂, rest, last) =
        >>=-ok (receive_each h mails) (λ rs. return (cons_received r rs)) w₁ others in
      let same : cons_received r rs' ≡ rs = cc in
      let same' : w₂ ≡ w' = cc in
      subst (λ l. AreTold w (mail ∷ mails) l w') same
        (subst (λ x. AreTold w (mail ∷ mails) (cons_received r rs') x) same'
          (AreTold-cons mail mails w w₁ w₂ r rs' (receive_text-Turned mail w w₁ r first)
            (receive_each-AreTold mails w₁ w₂ rs' rest)))
