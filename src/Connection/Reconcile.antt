-- ===== src/Connection/Reconcile.antt =====
-- core/connection/handshake.ts: `reconcileConfirmedPeerConnections`, on the records of the store.
-- `locale_lt` is the order of `localeCompare`, of which nothing is assumed.
use teti_bot.Base.{
  String, ◌≡◌, refl, sym, ◌∙◌, ◌≢◌, ◌⊎◌, inl, inr, Bool, true, false, not, ◌&&◌, ◌||◌, Option, none,
  some, [], ◌∷◌, arith, ◌==◌, ◌!=◌, number_equality, text_equality, if◌then◌else◌, Result, ok, err,
  ◌>>◌, All, Bool-cases, eq_iff, ==_refl, subst,
}
use teti_bot.Base.{filter, any, length, is_some, All-filter, All-filter_test, All-map₂}
use teti_bot.Connection.Types.{ConnectionRecord, is_confirmed, is_archived}
use teti_bot.Connection.Protocol.{Fault}
use teti_bot.Connection.Storage.{Connections, save_all, validate_all}
use teti_bot.Connection.Storage.Ids.{DistinctIds}
use teti_bot.Connection.Handshake.Peers.{clash, IsApart, OnePerPeer, DistinctIds-filter}

-- `canonicalByPeer`.
abbrev pub Canonicals : Type 0
Canonicals = String → Option ConnectionRecord

abbrev pub put : String → ConnectionRecord → Canonicals → Canonicals
put peer c m q = if peer == q then some c else m q

abbrev has_relationship : ConnectionRecord → Bool
has_relationship c = is_some c.network_relationship

abbrev same_bool : Bool → Bool → Bool
same_bool true b = b
same_bool false b = not b

-- Whether the loop puts the connection in place of the canonical one of its peer.
abbrev pub is_better :
    (locale_lt : String → String → Bool) → ConnectionRecord → Option ConnectionRecord → Bool
is_better locale_lt c none = true
is_better locale_lt c (some d) =
    (has_relationship c && not (has_relationship d))
    || (same_bool (has_relationship c) (has_relationship d) && locale_lt c.request_id d.request_id)

abbrev is_canonical : ConnectionRecord → Option ConnectionRecord → Bool
is_canonical c none = true
is_canonical c (some d) = c.request_id == d.request_id

-- The filter of the connections.
abbrev pub is_reconciled : Canonicals → ConnectionRecord → Bool
is_reconciled m c = not (is_archived c) && is_canonical c (m c.remote_teti_id)

abbrev pub preserves_recovery : ConnectionRecord → Bool
preserves_recovery c = has_relationship c || is_archived c

module _ (is_date : String → Bool) (locale_lt : String → String → Bool) where
  abbrev pub with_connection : ConnectionRecord → Canonicals → Canonicals
  with_connection c m =
      if is_confirmed c && is_better locale_lt c (m c.remote_teti_id)
      then put c.remote_teti_id c m
      else m

  -- The loop over the connections.
  unfoldable pub canonicals : Connections → Canonicals → Canonicals
  canonicals [] m = m
  canonicals (c ∷ cs) m = canonicals cs (with_connection c m)

  unfoldable pub reconciled : Connections → Connections
  reconciled cs = filter (is_reconciled (canonicals cs (λ _. none))) cs

  -- The list that is returned, or the fault of the store, and what the store then holds.
  abbrev pub after_save :
      Connections → Connections → Result Fault Connections → Result Fault Connections × Connections
  after_save found old (ok new) = (ok found, new)
  after_save found old (err f) = (err f, old)

  unfoldable pub reconcile_confirmed_peers : Connections → Result Fault Connections × Connections
  reconcile_confirmed_peers cs =
      if length (reconciled cs) != length cs && not (any preserves_recovery cs)
      then after_save (reconciled cs) cs (save_all is_date (reconciled cs))
      else (ok (reconciled cs), cs)

  with_connection-some :
      (c : ConnectionRecord) (m : Canonicals) (p : String)
      → is_some (m p) ≡ true
      → is_some (with_connection c m p) ≡ true
  with_connection-some c m p h =
      elim (Bool-cases (is_confirmed c && is_better locale_lt c (m c.remote_teti_id))) [
        | inl e ↦
            rw e (elim (Bool-cases (c.remote_teti_id == p)) [ inl s ↦ rw s refl | inr s ↦ rw s h ])
        | inr e ↦ rw e h
      ]

  with_connection-own :
      (c : ConnectionRecord) (m : Canonicals)
      → is_confirmed c ≡ true
      → is_some (with_connection c m c.remote_teti_id) ≡ true
  with_connection-own c m h = own (m c.remote_teti_id) refl
    where
      own :
          (o : Option ConnectionRecord)
          → m c.remote_teti_id ≡ o
          → is_some (with_connection c m c.remote_teti_id) ≡ true
      own none e = rw (h, e) (rw (==_refl c.remote_teti_id) refl)
      own (some d) e = with_connection-some c m c.remote_teti_id (rw e refl)

  canonicals-some :
      (cs : Connections) (m : Canonicals) (p : String)
      → is_some (m p) ≡ true
      → is_some (canonicals cs m p) ≡ true
  unfolding canonicals
  canonicals-some [] m p h = h
  canonicals-some (c ∷ cs) m p h =
      canonicals-some cs (with_connection c m) p (with_connection-some c m p h)

  -- The peer of a confirmed connection has a canonical one.
  abbrev IsCovered : Canonicals → ConnectionRecord → Type 0
  IsCovered m c = is_confirmed c ≡ true → is_some (m c.remote_teti_id) ≡ true

  canonicals-IsCovered : (cs : Connections) (m : Canonicals) → All (IsCovered (canonicals cs m)) cs
  unfolding canonicals
  canonicals-IsCovered [] m = tt
  canonicals-IsCovered (c ∷ cs) m = (
    λ h. canonicals-some cs (with_connection c m) c.remote_teti_id (with_connection-own c m h),
    canonicals-IsCovered cs (with_connection c m),
  )

  module _ (m : Canonicals) where
    canonical-request_id :
        (c d : ConnectionRecord) (o : Option ConnectionRecord)
        → is_some o ≡ true
        → is_canonical c o ≡ true
        → is_canonical d o ≡ true
        → d.request_id ≡ c.request_id
    canonical-request_id c d none h p q = cc
    canonical-request_id c d (some k) h p q =
        (eq_iff d.request_id k.request_id).0 q ∙ sym ((eq_iff c.request_id k.request_id).0 p)

    reconciled-IsApart :
        (c : ConnectionRecord)
        → IsCovered m c
        → is_reconciled m c ≡ true
        → (d : ConnectionRecord) → d.request_id ≢ c.request_id
        → is_reconciled m d ≡ true
        → IsApart c d
    reconciled-IsApart c covered kept d other kept' = elim (Bool-cases (clash c d)) [
      | inl e ↦
          let confirmed : is_confirmed c ≡ true = ground arith in
          let same : (c.remote_teti_id == d.remote_teti_id) ≡ true = ground arith in
          let peer = (eq_iff c.remote_teti_id d.remote_teti_id).0 same in
          let own : is_canonical c (m c.remote_teti_id) ≡ true = ground arith in
          let its : is_canonical d (m d.remote_teti_id) ≡ true = ground arith in
          absurd (
            other (
              canonical-request_id c d (m c.remote_teti_id) (covered confirmed) own
                (subst (λ p. is_canonical d (m p) ≡ true) (sym peer) its)))
      | inr e ↦ e
    ]

    filter-OnePerPeer :
        (cs : Connections)
        → DistinctIds cs
        → All (IsCovered m) cs
        → OnePerPeer (filter (is_reconciled m) cs)
    filter-OnePerPeer [] d h = tt
    filter-OnePerPeer (c ∷ cs) (fresh, d) (covered, h) = elim (Bool-cases (is_reconciled m c)) [
      | inl e ↦ rw e (
        All-map₂ (reconciled-IsApart c covered e) (filter (is_reconciled m) cs)
            (All-filter _ (is_reconciled m) cs fresh) (All-filter_test (is_reconciled m) cs),
        filter-OnePerPeer cs d h,
      )
      | inr e ↦ rw e (filter-OnePerPeer cs d h)
    ]

  after_save-ok :
      (found old new' list : Connections) (r : Result Fault (Unit {0}))
      → after_save found old (r >> ok found) ≡ (ok list, new')
      → (found ≡ list) × (found ≡ new')
  after_save-ok found old new' list (ok _) h = (cc, cc)
  after_save-ok found old new' list (err f) h = cc

  -- What a run leaves in the store.
  abbrev pub IsLeft : (cs cs' list : Connections) → Type 0
  IsLeft cs cs' list = (cs' ≡ cs) ⊎ ((cs' ≡ list) × (any preserves_recovery cs ≡ false))

  reconcile-found :
      (cs cs' list : Connections)
      → reconcile_confirmed_peers cs ≡ (ok list, cs')
      → (reconciled cs ≡ list) × IsLeft cs cs' list
  unfolding reconcile_confirmed_peers save_all
  reconcile-found cs cs' list h =
      elim (Bool-cases (length (reconciled cs) != length cs && not (any preserves_recovery cs))) [
        | inl e ↦
            let (found, left) =
              after_save-ok (reconciled cs) cs cs' list (validate_all is_date (reconciled cs))
                (rw e at h) in
            (found, inr (sym left ∙ found, ground arith))
        | inr e ↦ let same : (ok (reconciled cs), cs) ≡ (ok list, cs') = rw e at h in (cc, inl cc)
      ]

  reconciled-open :
      (m : Canonicals) (cs : Connections)
      → All (λ c. is_reconciled m c ≡ true) cs
      → All (λ c. is_archived c ≡ false) cs
  reconciled-open m [] h = tt
  reconciled-open m (c ∷ cs) (p, h) = (ground arith, reconciled-open m cs h)

  -- Reconciling a store with distinct ids, where it succeeds, returns connections with distinct ids, at
  -- most one of them confirmed to each peer, and none archived. It leaves the store as it was, or,
  -- where no record has a relationship of the network, with the connections returned.
  pub reconcile_confirmed_peers_lem :
      (cs cs' list : Connections)
      → DistinctIds cs
      → reconcile_confirmed_peers cs ≡ (ok list, cs')
      → OnePerPeer list
        × DistinctIds list
        × All (λ c. is_archived c ≡ false) list
        × IsLeft cs cs' list
  unfolding reconciled
  reconcile_confirmed_peers_lem cs cs' list d h =
      let m = canonicals cs (λ _. none) in
      let (found, left) = reconcile-found cs cs' list h in
      (
        subst OnePerPeer found (filter-OnePerPeer m cs d (canonicals-IsCovered cs (λ _. none))),
        subst DistinctIds found (DistinctIds-filter (is_reconciled m) cs d),
        subst (All (λ c. is_archived c ≡ false)) found
            (reconciled-open m (reconciled cs) (All-filter_test (is_reconciled m) cs)),
        left,
      )
