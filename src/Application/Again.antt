-- ===== src/Application/Again.antt =====
-- application/manager.ts: messages that are received again.
use teti_bot.Application.Types.{Fault, Envelope}
use teti_bot.Base.{
  String, ◌≡◌, refl, sym, ◌∙◌, inl, inr, true, Option, none, some, List, [], ◌∷◌, ◌++◌, arith, ◌==◌,
  number_equality, text_equality, Result, ok, err, All, Bool-cases, ==_refl,
}
use teti_bot.Application.{subst, ℕ}
use teti_bot.Application.Manager.{
  Host, World, Mail, Received, is_processed, receive_text, text_of, receive_each, cons_received,
}
use teti_bot.Application.Receiving.{
  match_of, turn, receive_text-turn, turn-unauthorized, turn-again, turn-told, ticked,
}
use teti_bot.Connection.Types.{ConnectionRecord}
use teti_bot.Effects.{return, ◌>>=◌, >>=-ok}

-- The tracker has the id of the envelope, if there is one.
abbrev pub Seen : Option (Envelope × ConnectionRecord) → List String → Type 0
Seen none ids = Unit
Seen (some (e, c)) ids = is_processed e.message_id ids ≡ true

pub is_processed-append :
    (id : String) (ids more : List String)
    → is_processed id ids ≡ true
    → is_processed id (ids ++ more) ≡ true
is_processed-append id [] more h = cc
is_processed-append id (i ∷ ids) more h = elim (Bool-cases (i == id)) [
  | inl e ↦ rw e refl
  | inr e ↦ rw e (is_processed-append id ids more (ground arith))
]

pub is_processed-last : (id : String) (ids : List String) → is_processed id (ids ++ id ∷ []) ≡ true
is_processed-last id [] = rw (==_refl id) refl
is_processed-last id (i ∷ ids) = elim (Bool-cases (i == id)) [
  | inl e ↦ rw e refl
  | inr e ↦ rw e (is_processed-last id ids)
]

-- One list of ids has all of the other.
abbrev pub Grows : List String → List String → Type 0
Grows ids ids' = (id : String) → is_processed id ids ≡ true → is_processed id ids' ≡ true

module _ (h : Host) where
  abbrev pub found : World → Mail → Option (Envelope × ConnectionRecord)
  found w mail = match_of h w.connections mail (text_of mail.text)

  -- Every mail that a connection is found for has been processed.
  abbrev AllSeen : World → List Mail → Type 0
  AllSeen w mails = All (λ mail. Seen (found w mail) w.processed) mails

  -- What the turns of the loop keep.
  pub record Follows (w w' : World) : Type 0 where
    pub grows : Grows w.processed w'.processed
    pub connections : w'.connections ≡ w.connections

  pub Follows-refl : (w : World) → Follows w w
  Follows-refl w = record { grows = λ id k. k; connections = refl }

  pub Follows-trans : (a b c : World) → Follows a b → Follows b c → Follows a c
  Follows-trans a b c f g = record {
    grows = λ id k. g.grows id (f.grows id k);
    connections = g.connections ∙ f.connections;
  }

  Seen-Grows :
      (m : Option (Envelope × ConnectionRecord)) (ids ids' : List String)
      → Grows ids ids'
      → Seen m ids
      → Seen m ids'
  Seen-Grows none ids ids' g s = tt
  Seen-Grows (some (e, c)) ids ids' g s = g e.message_id s

  -- A turn follows, and if it returns its mail is processed.
  abbrev pub Ended :
      World → Option (Envelope × ConnectionRecord) → Result Fault (Option Received) × World → Type 0
  Ended w m (ok r, w') = Follows w w' × Seen m w'.processed
  Ended w m (err _, w') = Follows w w'

  turn-Ended :
      (mail : Mail) (m : Option (Envelope × ConnectionRecord)) (w : World)
      → Ended w m (turn h mail m w)
  turn-Ended mail none w = (Follows-refl w, tt)
  turn-Ended mail (some (e, c)) w = elim (Bool-cases (h.authorizes w.ticks c.remote_teti_id)) [
    | inr refused ↦
        rw (turn-unauthorized h mail e c w refused)
          (record { grows = λ id k. k; connections = refl })
    | inl allowed ↦ elim (Bool-cases (is_processed e.message_id w.processed)) [
      | inl seen ↦
          rw (turn-again h mail e c w allowed seen)
            (record { grows = λ id k. k; connections = refl }, seen)
      | inr unseen ↦ rw (turn-told h mail e c w allowed unseen) (
        record {
          grows = λ id k. is_processed-append id w.processed (e.message_id ∷ []) k;
          connections = refl;
        },
        is_processed-last e.message_id w.processed,
      )
    ]
  ]

  pub text-Ended :
      (mail : Mail) (w : World) → Ended w (found w mail) (receive_text h mail (text_of mail.text) w)
  text-Ended mail w =
      rw (receive_text-turn h mail (text_of mail.text) w) (turn-Ended mail (found w mail) w)

  -- The turn with a mail that returns, and the rest of the loop behind it.
  abbrev pub rest_of : List Mail → Option Received → World → Result Fault (List Received) × World
  rest_of mails r w = (receive_each h mails >>= λ rs. return (cons_received r rs)) w

  receive_each-AllSeen :
      (mails : List Mail) (w w' : World) (rs : List Received)
      → receive_each h mails w ≡ (ok rs, w')
      → Follows w w' × AllSeen w' mails
  unfolding receive_each return
  receive_each-AllSeen [] w w' rs run =
      let same : w ≡ w' = cc in (subst (Follows w) same (Follows-refl w), tt)
  receive_each-AllSeen (mail ∷ mails) w w' rs run =
      let (r, w₁, first, others) =
        >>=-ok (receive_text h mail (text_of mail.text)) (λ r. rest_of mails r) w run in
      let (rs', w₂, rest, last) =
        >>=-ok (receive_each h mails) (λ rs. return (cons_received r rs)) w₁ others in
      let same : w₂ ≡ w' = cc in
      let (f, s) = subst (Ended w (found w mail)) first (text-Ended mail w) in
      let (g, all_seen) = receive_each-AllSeen mails w₁ w₂ rs' rest in
      let fg = Follows-trans w w₁ w₂ f g in
      let seen =
        subst (λ cs. Seen (match_of h cs mail (text_of mail.text)) w₂.processed)
          (sym fg.connections) (Seen-Grows (found w mail) w₁.processed w₂.processed g.grows s) in
      (subst (Follows w) same fg, subst (λ x. AllSeen x (mail ∷ mails)) same (seen, all_seen))

  -- A receive that tells of nothing, and leaves the world as it is but for the ticks.
  abbrev IsIdle : List Mail → World → Type 0
  IsIdle mails w = (t : ℕ) × (receive_each h mails w ≡ (ok [], record w { ticks = t }))

  IsIdle-cons :
      (mail : Mail) (mails : List Mail) (w : World) (m : Option (Envelope × ConnectionRecord))
      → ((t : ℕ) (peer : String) → h.authorizes t peer ≡ true)
      → receive_text h mail (text_of mail.text) w ≡ turn h mail m w
      → Seen m w.processed
      → IsIdle mails w
      → IsIdle mails (ticked h w)
      → IsIdle (mail ∷ mails) w
  unfolding receive_each return ◌>>=◌
  IsIdle-cons mail mails w none authorized e s (t, rest) (t', rest') = (t, rw e (rw rest refl))
  IsIdle-cons mail mails w (some (e', c)) authorized e s (t, rest) (t', rest') = (
    t',
    rw (e ∙ turn-again h mail e' c w (authorized w.ticks c.remote_teti_id) s) (rw rest' refl),
  )

  -- Nothing is told of mails that were processed.
  AllSeen-IsIdle :
      (mails : List Mail) (w : World)
      → ((t : ℕ) (peer : String) → h.authorizes t peer ≡ true)
      → AllSeen w mails
      → IsIdle mails w
  unfolding receive_each return
  AllSeen-IsIdle [] w authorized s = (w.ticks, refl)
  AllSeen-IsIdle (mail ∷ mails) w authorized (s, seen) =
      IsIdle-cons mail mails w (found w mail) authorized
        (receive_text-turn h mail (text_of mail.text) w) s (AllSeen-IsIdle mails w authorized seen)
        (AllSeen-IsIdle mails (ticked h w) authorized seen)

  -- Where every peer is authorised, mails that a receive has returned for are received again without
  -- effect: nothing is told of, and the tracker stays as it is.
  pub receive_each-again :
      (mails : List Mail) (w w' : World) (rs : List Received)
      → ((t : ℕ) (peer : String) → h.authorizes t peer ≡ true)
      → receive_each h mails w ≡ (ok rs, w')
      → (t : ℕ) × (receive_each h mails w' ≡ (ok [], record w' { ticks = t }))
  receive_each-again mails w w' rs authorized run =
      AllSeen-IsIdle mails w' authorized (receive_each-AllSeen mails w w' rs run).1
