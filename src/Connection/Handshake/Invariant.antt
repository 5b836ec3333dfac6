-- ===== src/Connection/Handshake/Invariant.antt =====
-- What every step of the handshake keeps: distinct request ids, valid records, and at most one
-- confirmed connection to each peer. A step that throws keeps it too.
use teti_bot.Base.{
  ℕ, String, ◌≡◌, refl, sym, ap, ◌∙◌, inl, inr, Bool, true, false, Option, none, some,
  number_equality, text_equality, Result, ok, err, subst,
}
use teti_bot.Base.{find, find_entry-IsEntry}
use teti_bot.Connection.Types.{ConnectionRecord, Patch, apply_patch, is_confirmed}
use teti_bot.Connection.Protocol.{Fault, Account}
use teti_bot.Connection.Storage.{Connections, has_id, placed, upsert, update}
use teti_bot.Connection.Storage.Ids.{DistinctIds, place_cases}
use teti_bot.Connection.Storage.Laws.{
  AllValid, upsert_lem, upsert-placed, update_lem, update-IsPatched,
}
use teti_bot.Connection.World.{
  Message, Host, World, M, ◌>>=◌, and_then, return, throw, lift, throw_if, load_all, tick, send,
  delivered, stored, updated, store_upsert, store_update, require_local_account, account_or_throw,
  require_connection, require_request_id, found_or_throw,
}
use teti_bot.Connection.Handshake.{confirm_peer_connection}
use teti_bot.Connection.Handshake.Peers.{OnePerPeer, OnePerPeer-push, OnePerPeer-replace_first}
use teti_bot.Connection.Handshake.Confirm.{
  confirm_peer_connection-store, confirm_peer_connection-err,
}

module _ (h : Host) where
  pub record IsGood (w : World) : Type 0 where
    pub distinct : DistinctIds w.store
    pub valid : AllValid h.is_date w.store
    pub one_per_peer : OnePerPeer w.store

  -- The step leaves a good world, whether it succeeds or throws.
  pub record Keeps {A : Type 0} (m : M A) : Type 0 where
    pub at : (w : World) → IsGood w → IsGood (m w).1

  pub Keeps-return : {A : Type 0} (a : A) → Keeps (return a)
  unfolding return
  Keeps-return a = record { at = λ w g. g }

  pub Keeps-throw : {A : Type 0} (e : Fault) → Keeps (throw {A = A} e)
  unfolding throw
  Keeps-throw e = record { at = λ w g. g }

  pub Keeps-lift : {A : Type 0} (r : Result Fault A) → Keeps (lift r)
  unfolding lift
  Keeps-lift r = record { at = λ w g. g }

  pub Keeps-load_all : Keeps load_all
  unfolding load_all
  Keeps-load_all = record { at = λ w g. g }

  pub Keeps-throw_if : (b : Bool) (e : Fault) → Keeps (throw_if b e)
  Keeps-throw_if true e = Keeps-throw e
  Keeps-throw_if false e = Keeps-return tt

  -- Goodness is about the store alone.
  IsGood-store : (w w' : World) → w'.store ≡ w.store → IsGood w → IsGood w'
  IsGood-store w w' e g = record {
    distinct = subst DistinctIds (sym e) g.distinct;
    valid = subst (AllValid h.is_date) (sym e) g.valid;
    one_per_peer = subst OnePerPeer (sym e) g.one_per_peer;
  }

  pub Keeps-tick : {A : Type 0} (f : ℕ → A) → Keeps (tick f)
  unfolding tick
  Keeps-tick f = record { at = λ w g. IsGood-store w _ refl g }

  delivered-IsGood : (b : Bool) (m : Message) (w : World) → IsGood w → IsGood (delivered b m w).1
  delivered-IsGood true m w g = IsGood-store w _ refl g
  delivered-IsGood false m w g = IsGood-store w _ refl g

  pub Keeps-send : (m : Message) → Keeps (send h m)
  unfolding send
  Keeps-send m = record { at = λ w g. delivered-IsGood (h.delivers w.ticks m) m w g }

  and_then-IsGood :
      {A B : Type 0} (r : Result Fault A × World) (f : A → M B)
      → IsGood r.1
      → ((a : A) → Keeps (f a))
      → IsGood (and_then r f).1
  and_then-IsGood (ok a, w) f g k = (k a).at w g
  and_then-IsGood (err e, w) f g k = g

  pub Keeps-bind :
      {A B : Type 0} (m : M A) (f : A → M B) → Keeps m → ((a : A) → Keeps (f a)) → Keeps (m >>= f)
  unfolding ◌>>=◌
  Keeps-bind m f km kf = record { at = λ w g. and_then-IsGood (m w) f (km.at w g) kf }

  pub Keeps-account : Keeps (require_local_account h)
  unfolding require_local_account
  Keeps-account = go h.account
    where
      go : (o : Option Account) → Keeps (account_or_throw o)
      go none = Keeps-throw _
      go (some a) = Keeps-return a

  pub Keeps-found : (k : String) (o : Option ConnectionRecord) → Keeps (found_or_throw k o)
  Keeps-found k none = Keeps-throw _
  Keeps-found k (some c) = Keeps-return c

  pub Keeps-connection : (k : String) → Keeps (require_connection k)
  unfolding require_connection
  Keeps-connection k = Keeps-bind _ _ Keeps-load_all λ cs. Keeps-found k (find (has_id k) cs)

  pub Keeps-request_id : (k : String) → Keeps (require_request_id k)
  unfolding require_request_id
  Keeps-request_id k = Keeps-throw_if _ _

  OnePerPeer-placed :
      (c : ConnectionRecord) (cs : Connections)
      → is_confirmed c ≡ false
      → OnePerPeer cs
      → OnePerPeer (placed c cs)
  unfolding placed
  OnePerPeer-placed c cs e o =
      elim (place_cases c cs _ (find_entry-IsEntry (has_id c.request_id) c cs)) [
        | inl (new, eq) ↦ rw eq (OnePerPeer-push c cs e o)
        | inr (a, old, eq) ↦ rw eq (OnePerPeer-replace_first (has_id c.request_id) c cs e o)
      ]

  stored-IsGood :
      (c : ConnectionRecord) (w : World) (r : Result Fault Connections)
      → is_confirmed c ≡ false
      → upsert h.is_date c w.store ≡ r
      → IsGood w
      → IsGood (stored r w).1
  stored-IsGood c w (ok cs) e eq g =
      let safe = upsert_lem h.is_date c w.store cs "" g.distinct g.valid eq in
      let same = upsert-placed h.is_date c w.store cs eq in
      record {
        distinct = safe.2;
        valid = safe.3;
        one_per_peer = subst OnePerPeer same (OnePerPeer-placed c w.store e g.one_per_peer);
      }
  stored-IsGood c w (err f) e eq g = g

  -- Storing a record that is not confirmed.
  pub Keeps-upsert : (c : ConnectionRecord) → is_confirmed c ≡ false → Keeps (store_upsert h c)
  unfolding store_upsert
  Keeps-upsert c e = record { at = λ w g. stored-IsGood c w (upsert h.is_date c w.store) e refl g }

  updated-IsGood :
      (k : String) (patch : Patch) (w : World) (r : Result Fault (ConnectionRecord × Connections))
      → ((c : ConnectionRecord) → is_confirmed (apply_patch c patch k) ≡ false)
      → update h.is_date k patch w.store ≡ r
      → IsGood w
      → IsGood (updated r w).1
  updated-IsGood k patch w (ok (u, cs)) e eq g =
      let safe = update_lem h.is_date k patch w.store cs u k g.distinct g.valid eq in
      let (b, patched) = update-IsPatched h.is_date k patch w.store cs u eq in
      let open_state = ap is_confirmed (patched.1) ∙ e b in
      let one = OnePerPeer-replace_first (has_id k) u w.store open_state g.one_per_peer in
      record {
        distinct = safe.4;
        valid = safe.5;
        one_per_peer = subst OnePerPeer (sym (patched.3)) one;
      }
  updated-IsGood k patch w (err f) e eq g = g

  -- Patching a record so that it is not confirmed.
  pub Keeps-update :
      (k : String) (patch : Patch)
      → ((c : ConnectionRecord) → is_confirmed (apply_patch c patch k) ≡ false)
      → Keeps (store_update h k patch)
  unfolding store_update
  Keeps-update k patch e = record {
    at = λ w g. updated-IsGood k patch w (update h.is_date k patch w.store) e refl g;
  }

  confirmed-IsGood :
      (k : String) (patch : Patch) (w : World) (r : Result Fault ConnectionRecord × World)
      → confirm_peer_connection h k patch w ≡ r
      → IsGood w
      → IsGood r.1
  confirmed-IsGood k patch w (ok new, w') eq g =
      let safe = confirm_peer_connection-store h k patch w w' new g.distinct g.one_per_peer eq in
      let step = safe.1 in record { distinct = safe.4; valid = step.3; one_per_peer = safe.5 }
  confirmed-IsGood k patch w (err f, w') eq g =
      subst IsGood (sym (confirm_peer_connection-err h k patch w eq)) g

  pub Keeps-confirm : (k : String) (patch : Patch) → Keeps (confirm_peer_connection h k patch)
  Keeps-confirm k patch = record {
    at = λ w g. confirmed-IsGood k patch w (confirm_peer_connection h k patch w) refl g;
  }
