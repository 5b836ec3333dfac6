-- ===== src/Application/Receiving.antt =====
-- application/manager.ts: what is told of the messages that are received, and what the tracker has then.
use teti_bot.Application.Types.{Fault, Envelope, unauthorized}
use teti_bot.Base.{
  suc, String, ◌≡◌, refl, true, false, Option, none, some, [], ◌∷◌, ◌++◌, number_equality,
  text_equality, Result, ok, err, find,
}
use teti_bot.Effects.{◌>>=◌, return, throw, gets, modify}
use teti_bot.Application.{parse_envelope}
use teti_bot.Application.Manager.{
  Host, World, Mail, Received, is_processed, handle, opened, receive_text, authorize, is_sender,
  tick, mark_processed,
}
use teti_bot.Connection.Types.{ConnectionRecord}
use teti_bot.Connection.Storage.{Connections}

-- The envelope of a text with the connection that it is of, as the first that fits.
abbrev pub paired : Envelope → Option ConnectionRecord → Option (Envelope × ConnectionRecord)
paired e none = none
paired e (some c) = some (e, c)

abbrev pub found_for :
    Connections → Mail → Result Fault Envelope → Option (Envelope × ConnectionRecord)
found_for cs mail (err _) = none
found_for cs mail (ok e) = paired e (find (is_sender e mail.from_address) cs)

module _ (h : Host) where
  abbrev pub match_of : Connections → Mail → Option String → Option (Envelope × ConnectionRecord)
  match_of cs mail none = none
  match_of cs mail (some text) = found_for cs mail (parse_envelope h.format text)

  abbrev pub told : Mail → Envelope → ConnectionRecord → Received
  told mail e c = record { envelope = e; connection = c; chatmail_message_id = mail.message_id }

  -- One turn of the loop, once the connection is found.
  abbrev pub turn :
      Mail → Option (Envelope × ConnectionRecord) → World → Result Fault (Option Received) × World
  turn mail none w = (ok none, w)
  turn mail (some (e, c)) w = handle h mail e (some c) w

  handle-turn :
      (mail : Mail) (e : Envelope) (o : Option ConnectionRecord) (w : World)
      → handle h mail e o w ≡ turn mail (paired e o) w
  unfolding handle return
  handle-turn mail e none w = refl
  handle-turn mail e (some c) w = refl

  opened-turn :
      (mail : Mail) (r : Result Fault Envelope) (w : World)
      → opened h mail r w ≡ turn mail (found_for w.connections mail r) w
  unfolding opened return ◌>>=◌ gets
  opened-turn mail (err _) w = refl
  opened-turn mail (ok e) w =
      handle-turn mail e (find (is_sender e mail.from_address) w.connections) w

  pub receive_text-turn :
      (mail : Mail) (o : Option String) (w : World)
      → receive_text h mail o w ≡ turn mail (match_of w.connections mail o) w
  unfolding receive_text return
  receive_text-turn mail none w = refl
  receive_text-turn mail (some text) w = opened-turn mail (parse_envelope h.format text) w

  abbrev pub ticked : World → World
  ticked w = record w { ticks = suc w.ticks }

  abbrev pub marked : String → World → World
  marked id w = record w { ticks = suc w.ticks; processed = w.processed ++ id ∷ [] }

  module _ (mail : Mail) (e : Envelope) (c : ConnectionRecord) (w : World) where
    -- The three ends of a turn with a connection.
    pub turn-unauthorized :
        h.authorizes w.ticks c.remote_teti_id ≡ false
        → turn mail (some (e, c)) w ≡ (err unauthorized, ticked w)
    unfolding handle authorize tick ◌>>=◌ throw
    turn-unauthorized refused = rw refused refl

    pub turn-again :
        h.authorizes w.ticks c.remote_teti_id ≡ true
        → is_processed e.message_id w.processed ≡ true
        → turn mail (some (e, c)) w ≡ (ok none, ticked w)
    unfolding handle authorize tick ◌>>=◌ return gets
    turn-again allowed seen = rw allowed (rw seen refl)

    pub turn-told :
        h.authorizes w.ticks c.remote_teti_id ≡ true
        → is_processed e.message_id w.processed ≡ false
        → turn mail (some (e, c)) w ≡ (ok (some (told mail e c)), marked e.message_id w)
    unfolding handle authorize tick ◌>>=◌ return gets mark_processed modify
    turn-told allowed unseen = rw allowed (rw unseen (rw unseen refl))
