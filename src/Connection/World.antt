-- ===== src/Connection/World.antt =====
-- core/connection/handshake.ts: the state that the operations of the handshake work on (a store, an
-- outbox and a clock) and their monad. What stands outside the program is the record `Host`; the clock
-- and the outcomes of deliveries are read at a tick that each reading advances. An operation that
-- throws keeps what it had done.
pub mod Laws
unfoldable pub use teti_bot.Effects.{◌>>=◌, ◌>>◌, and_then, return, throw, lift, throw_if}
use teti_bot.Effects.{Effect}
use teti_bot.Base.{
  ℕ, suc, String, Bool, true, false, Option, none, some, List, [], ◌∷◌, ◌++◌, number_equality,
  text_equality, Result, ok, err,
}
use teti_bot.Base.{find, is_blank}
use teti_bot.Connection.Types.{
  ConnectionRequest, ConnectionAccept, ConnectionReject, ConnectionRecord, Patch,
}
use teti_bot.Connection.Protocol.{Fault, missing, not_found, no_account, not_delivered, Account}
use teti_bot.Connection.Storage.{Connections, has_id, save_all, upsert, update}

-- services/discovery/types.ts: what a request needs of the identity that it is sent to.
pub record RemoteIdentity : Type 0 where
  pub id : String
  pub address : String
  pub public_key : Option String

pub data Payload : Type 0 where
  request : ConnectionRequest → Payload
  accept : ConnectionAccept → Payload
  reject : ConnectionReject → Payload

-- What is handed to `ConnectionMessagingAdapter`.
pub record Message : Type 0 where
  pub account_id : ℕ
  pub to_address : String
  pub to_public_key : Option String
  pub payload : Payload

-- `TetiConnectionHandshakeOptions`: the local account, the clock, fresh ids and nonces, whether the
-- adapter delivers (it throws otherwise), and whether `Date.parse` finds a date.
pub record Host : Type 0 where
  pub account : Option Account
  pub now : ℕ → String
  pub request_id : ℕ → String
  pub nonce : ℕ → String
  pub delivers : ℕ → Message → Bool
  pub is_date : String → Bool

pub record World : Type 0 where
  pub store : Connections
  pub outbox : List Message
  pub ticks : ℕ

abbrev pub M : Type 0 → Type 0
M A = Effect World Fault A

unfoldable pub load_all : M Connections
load_all w = (ok w.store, w)

-- Runs an operation of the store, whose state is unchanged where it throws.
abbrev pub stored : Result Fault Connections → World → Result Fault (Unit {0}) × World
stored (ok cs) w = (ok tt, record w { store = cs })
stored (err e) w = (err e, w)

abbrev pub updated :
    Result Fault (ConnectionRecord × Connections) → World → Result Fault ConnectionRecord × World
updated (ok (c, cs)) w = (ok c, record w { store = cs })
updated (err e) w = (err e, w)

unfoldable pub tick : {A : Type 0} → (ℕ → A) → M A
tick f w = (ok (f w.ticks), record w { ticks = suc w.ticks })

-- The adapter throws, or the message is out.
abbrev pub delivered : Bool → Message → World → Result Fault (Unit {0}) × World
delivered true m w = (ok tt, record w { outbox = w.outbox ++ m ∷ []; ticks = suc w.ticks })
delivered false m w = (err not_delivered, record w { ticks = suc w.ticks })

abbrev pub found_or_throw : String → Option ConnectionRecord → M ConnectionRecord
found_or_throw k none = throw (not_found k)
found_or_throw k (some c) = return c

unfoldable pub require_connection : String → M ConnectionRecord
require_connection k = load_all >>= λ cs. found_or_throw k (find (has_id k) cs)

unfoldable pub require_request_id : String → M (Unit {0})
require_request_id k = throw_if (is_blank k) (missing "requestId")

abbrev pub account_or_throw : Option Account → M Account
account_or_throw none = throw no_account
account_or_throw (some a) = return a

module _ (h : Host) where
  unfoldable pub send : Message → M (Unit {0})
  send m w = delivered (h.delivers w.ticks m) m w

  unfoldable pub store_upsert : ConnectionRecord → M (Unit {0})
  store_upsert c w = stored (upsert h.is_date c w.store) w

  unfoldable pub store_save_all : Connections → M (Unit {0})
  store_save_all cs w = stored (save_all h.is_date cs) w

  unfoldable pub store_update : String → Patch → M ConnectionRecord
  store_update k patch w = updated (update h.is_date k patch w.store) w

  unfoldable pub require_local_account : M Account
  require_local_account = account_or_throw h.account
