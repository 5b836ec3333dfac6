-- ===== src/Connection/World/Laws.antt =====
-- Inversion of the monad's steps: what a step that succeeded has done to the world.
pub use teti_bot.Effects.{>>=-ok, throw_if-ok, lift-ok}
use teti_bot.Base.{
  String, ◌≡◌, refl, ap, ◌∙◌, number_equality, text_equality, Result, ok, err, Bool, find, some,
  Option, false, ◌++◌, ◌∷◌, [], suc, none, true,
}
use teti_bot.Base.{>>-eq-ok}
use teti_bot.Connection.Types.{ConnectionRecord, Patch}
use teti_bot.Connection.Protocol.{Fault, Account}
use teti_bot.Connection.Storage.{Connections, save_all, validate_all, upsert, update, has_id}
use teti_bot.Connection.World.{
  Host, World, ◌>>=◌, stored, updated, store_upsert, store_save_all, store_update,
  require_connection, require_local_account, send, throw, Message, load_all, return,
  account_or_throw, found_or_throw, delivered,
}

stored-ok :
    (r : Result Fault Connections) (w : World) {u : Unit {0}} {w' : World}
    → stored r w ≡ (ok u, w')
    → (cs : Connections) × (r ≡ ok cs) × (w' ≡ record w { store = cs })
stored-ok (ok cs) w e = (cs, refl, cc)
stored-ok (err f) w e = cc

updated-ok :
    (r : Result Fault (ConnectionRecord × Connections)) (w : World) {c : ConnectionRecord}
    {w' : World}
    → updated r w ≡ (ok c, w')
    → (cs : Connections) × (r ≡ ok (c, cs)) × (w' ≡ record w { store = cs })
updated-ok (ok (c, cs)) w e = (cs, cc, cc)
updated-ok (err f) w e = cc

module _ (h : Host) where
  pub store_update-ok :
      (k : String) (patch : Patch) (w : World) {c : ConnectionRecord} {w' : World}
      → store_update h k patch w ≡ (ok c, w')
      → (cs : Connections) × (update h.is_date k patch w.store ≡ ok (c, cs))
        × (w' ≡ record w { store = cs })
  unfolding store_update
  store_update-ok k patch w e = updated-ok (update h.is_date k patch w.store) w e

  pub store_upsert-ok :
      (c : ConnectionRecord) (w : World) {u : Unit {0}} {w' : World}
      → store_upsert h c w ≡ (ok u, w')
      → (cs : Connections) × (upsert h.is_date c w.store ≡ ok cs) × (w' ≡ record w { store = cs })
  unfolding store_upsert
  store_upsert-ok c w e = stored-ok (upsert h.is_date c w.store) w e

  -- A list that was saved had passed validation.
  pub store_save_all-ok :
      (cs : Connections) (w : World) {u : Unit {0}} {w' : World}
      → store_save_all h cs w ≡ (ok u, w')
      → (validate_all h.is_date cs ≡ ok tt) × (w' ≡ record w { store = cs })
  unfolding save_all store_save_all
  store_save_all-ok cs w e =
      let (saved, r, same) = stored-ok (save_all h.is_date cs) w e in
      let (valid, s) = >>-eq-ok (validate_all h.is_date cs) (ok cs) r in
      let eq : saved ≡ cs = cc in (valid, same ∙ ap (λ l. record w { store = l }) eq)

  pub account-ok :
      (w : World) {a : Account} {w' : World}
      → require_local_account h w ≡ (ok a, w')
      → (h.account ≡ some a) × (w' ≡ w)
  unfolding require_local_account throw return
  account-ok w {a} {w'} e = go h.account e
    where
      go : (o : Option Account) → account_or_throw o w ≡ (ok a, w') → (o ≡ some a) × (w' ≡ w)
      go none e = cc
      go (some b) e = (cc, cc)

  pub send-ok :
      (m : Message) (w : World) {u : Unit {0}} {w' : World}
      → send h m w ≡ (ok u, w')
      → w' ≡ record w { outbox = w.outbox ++ m ∷ []; ticks = suc w.ticks }
  unfolding send
  send-ok m w {u} {w'} e = go (h.delivers w.ticks m) e
    where
      go :
          (b : Bool)
          → delivered b m w ≡ (ok u, w')
          → w' ≡ record w { outbox = w.outbox ++ m ∷ []; ticks = suc w.ticks }
      go true e = cc
      go false e = cc

pub connection-ok :
    (k : String) (w : World) {c : ConnectionRecord} {w' : World}
    → require_connection k w ≡ (ok c, w')
    → (find (has_id k) w.store ≡ some c) × (w' ≡ w)
unfolding require_connection ◌>>=◌ load_all throw return
connection-ok k w {c} {w'} e = go (find (has_id k) w.store) e
  where
    go : (o : Option ConnectionRecord) → found_or_throw k o w ≡ (ok c, w') → (o ≡ some c) × (w' ≡ w)
    go none e = cc
    go (some b) e = (cc, cc)
