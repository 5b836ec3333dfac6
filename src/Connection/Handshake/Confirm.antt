-- ===== src/Connection/Handshake/Confirm.antt =====
-- `confirmPeerConnection`: what it stores, keeps and drops.
use teti_bot.Base.{
  ℕ, String, ◌≡◌, refl, sym, ap, ◌∙◌, ◌≢◌, ◌⊎◌, inl, inr, Bool, true, false, Option, none, some, [],
  ◌∷◌, arith, ◌==◌, number_equality, text_equality, if◌then◌else◌, ok, All, Bool-cases, eq_iff,
  subst, All-filter_test, Result, err,
}
use teti_bot.Base.{
  or_else, All-map, ≢_of_==, ==_refl, ==_false, All-filter_test, find_entry, find_entry-IsEntry,
  IsEntry, filter, replace_first, set,
}
use teti_bot.Connection.Types.{ConnectionRecord, Patch, apply_patch}
use teti_bot.Connection.Storage.{Connections, has_id}
use teti_bot.Connection.Storage.Ids.{
  lookup, DistinctIds, lookup-replace_first, DistinctIds-replace_first,
}
use teti_bot.Connection.Storage.Laws.{AllValid, AllValid-of_validate_all}
use teti_bot.Connection.World.{
  ◌>>=◌, throw, load_all, Host, World, return, store_save_all, and_then, stored,
}
use teti_bot.Connection.World.Laws.{>>=-ok, store_save_all-ok}
use teti_bot.Connection.Handshake.{keeps, confirm_found, confirm_peer_connection, load_all, throw}
use teti_bot.Connection.Handshake.Peers.{OnePerPeer, OnePerPeer-confirm, DistinctIds-filter}
use teti_bot.Connection.Protocol.{Fault}

lookup-filter :
    (j : String) (p : ConnectionRecord → Bool) (cs : Connections) {c : ConnectionRecord}
    → lookup j cs ≡ some c
    → p c ≡ true
    → DistinctIds cs
    → lookup j (filter p cs) ≡ some c
lookup-filter j p [] h e d = cc
lookup-filter j p (x ∷ xs) {c} h e (fresh, d) = elim (Bool-cases (x.request_id == j)) [
  | inl hit ↦
      let same : some x ≡ some c = rw hit at h in
      let kept : p x ≡ true = subst (λ y. p y ≡ true) (sym (ap (λ o. or_else o x) same)) e in
      rw kept (rw hit same)
  | inr miss ↦ elim (Bool-cases (p x)) [
    | inl kept ↦ rw kept (rw miss (lookup-filter j p xs {c = c} (ground arith) e d))
    | inr dropped ↦ rw dropped (lookup-filter j p xs {c = c} (ground arith) e d)
  ]
]

-- The store that confirming leaves: the confirmed record in place of the old one, without the other
-- records of the two peers.
abbrev pub confirmed_store : String → (old new : ConnectionRecord) → Connections → Connections
confirmed_store k old new cs = filter (keeps k old new) (replace_first (has_id k) new cs)

-- The record with the id, or one of a third peer.
abbrev pub IsApart : String → (old new c : ConnectionRecord) → Type 0
IsApart k old new c =
    (c.request_id ≡ k)
    ⊎ ((c.remote_teti_id ≢ old.remote_teti_id) × (c.remote_teti_id ≢ new.remote_teti_id))

keeps-IsApart :
    (k : String) (old new c : ConnectionRecord) → keeps k old new c ≡ true → IsApart k old new c
keeps-IsApart k old new c kept = elim (Bool-cases (c.request_id == k)) [
  | inl e ↦ inl ((eq_iff c.request_id k).0 e)
  | inr e ↦ inr (
    ≢_of_== c.remote_teti_id old.remote_teti_id (ground arith),
    ≢_of_== c.remote_teti_id new.remote_teti_id (ground arith),
  )
]

module _ (h : Host) (k : String) (patch : Patch) where
  -- A confirmation that succeeds in the world `w` and returns `new` in the world `w'`.
  abbrev pub IsConfirmation : World → World → (old new : ConnectionRecord) → Type 0
  IsConfirmation w w' old new =
      (lookup k w.store ≡ some old)
      × (new ≡ apply_patch old patch k)
      × (w'.store ≡ confirmed_store k old new w.store)
      × AllValid h.is_date w'.store
      × (w'.outbox ≡ w.outbox)
      × (w'.ticks ≡ w.ticks)

  confirm_found_lem :
      (w w' : World) (new : ConnectionRecord) (o : Option (ℕ × ConnectionRecord))
      → find_entry (has_id k) w.store ≡ o
      → confirm_found h k patch w.store o w ≡ (ok new, w')
      → (old : ConnectionRecord) × IsConfirmation w w' old new
  unfolding confirm_found ◌>>=◌ return throw
  confirm_found_lem w w' new none e r = cc
  confirm_found_lem w w' new (some (i, old)) e r =
      let new' = apply_patch old patch k in
      let fs = filter (keeps k old new') (set w.store i new') in
      let entry : IsEntry (has_id k) w.store new' (some (i, old)) =
        subst (IsEntry (has_id k) w.store new') e (find_entry-IsEntry (has_id k) new' w.store) in
      let (_, w₁, saved, done) = >>=-ok (store_save_all h fs) (λ _. return new') w r in
      let (valid, left) = store_save_all-ok h fs w saved in
      let same : new ≡ new' = cc in
      let last : w' ≡ record w { store = fs } = sym (ap (λ x. x.1) done) ∙ left in
      let stores : fs ≡ confirmed_store k old new w.store =
        ap (filter (keeps k old new')) (entry.1)
        ∙ ap (λ n. confirmed_store k old n w.store) (sym same) in
      (
        old,
        (
          entry.0,
          same,
          ap (λ x. x.store) last ∙ stores,
          subst (AllValid h.is_date) (sym (ap (λ x. x.store) last))
              (AllValid-of_validate_all h.is_date fs valid),
          ap (λ x. x.outbox) last,
          ap (λ x. x.ticks) last,
        ),
      )

  pub confirm_peer_connection_lem :
      (w w' : World) (new : ConnectionRecord)
      → confirm_peer_connection h k patch w ≡ (ok new, w')
      → (old : ConnectionRecord) × IsConfirmation w w' old new
  unfolding confirm_peer_connection ◌>>=◌ load_all
  confirm_peer_connection_lem w w' new r =
      confirm_found_lem w w' new (find_entry (has_id k) w.store) refl r

  saved-err :
      (r : Result Fault Connections) (w : World) (new : ConnectionRecord) {f : Fault} {w' : World}
      → and_then (stored r w) (λ _. return new) ≡ (err f, w')
      → w' ≡ w
  unfolding return
  saved-err (ok cs) w new e = cc
  saved-err (err g) w new e = cc

  found-err :
      (w : World) (o : Option (ℕ × ConnectionRecord)) {f : Fault} {w' : World}
      → confirm_found h k patch w.store o w ≡ (err f, w')
      → w' ≡ w
  unfolding confirm_found ◌>>=◌ throw store_save_all
  found-err w none e = cc
  found-err w (some (i, old)) e = saved-err _ w _ e

  -- A confirmation that throws changes nothing.
  pub confirm_peer_connection-err :
      (w : World) {f : Fault} {w' : World}
      → confirm_peer_connection h k patch w ≡ (err f, w')
      → w' ≡ w
  unfolding confirm_peer_connection ◌>>=◌ load_all
  confirm_peer_connection-err w e = found-err w (find_entry (has_id k) w.store) e

  replaced :
      (cs : Connections) (old new : ConnectionRecord) (j : String)
      → lookup k cs ≡ some old
      → new ≡ apply_patch old patch k
      → DistinctIds cs
      → (lookup j (replace_first (has_id k) new cs) ≡ (if k == j then some new else lookup j cs))
        × DistinctIds (replace_first (has_id k) new cs)
  unfolding apply_patch
  replaced cs old new j found same d =
      subst
        (λ n.
          (lookup j (replace_first (has_id k) n cs) ≡ (if k == j then some n else lookup j cs))
          × DistinctIds (replace_first (has_id k) n cs))
        (sym same)
        (
          lookup-replace_first j (apply_patch old patch k) cs found,
          DistinctIds-replace_first (apply_patch old patch k) cs d,
        )

  -- A confirmation that succeeds in a store with distinct ids and at most one confirmed connection to
  -- each peer patched the record found under the id. The confirmed record is then found under the id,
  -- no other record of its peer or of its peer before the patch is left, the records are valid, the ids
  -- distinct, at most one connection is confirmed to each peer, and nothing was sent.
  pub confirm_peer_connection-store :
      (w w' : World) (new : ConnectionRecord)
      → DistinctIds w.store
      → OnePerPeer w.store
      → confirm_peer_connection h k patch w ≡ (ok new, w')
      → (old : ConnectionRecord) × IsConfirmation w w' old new
        × (lookup k w'.store ≡ some new)
        × All (IsApart k old new) w'.store
        × DistinctIds w'.store
        × OnePerPeer w'.store
  unfolding apply_patch
  confirm_peer_connection-store w w' new d o r =
      let (old, step) = confirm_peer_connection_lem w w' new r in
      let id : new.request_id ≡ k = ap (λ c. c.request_id) step.1 in
      let (there, d') = replaced w.store old new k step.0 step.1 d in
      let kept : keeps k old new new ≡ true = rw ((eq_iff new.request_id k).1 id) refl in
      let found : lookup k (replace_first (has_id k) new w.store) ≡ some new =
        there ∙ rw (==_refl k) refl in
      (
        old,
        step,
        subst (λ l. lookup k l ≡ some new) (sym step.2)
            (lookup-filter k (keeps k old new) _ {c = new} found kept d'),
        subst (All (IsApart k old new)) (sym step.2) (
            All-map (keeps-IsApart k old new) (confirmed_store k old new w.store)
              (All-filter_test (keeps k old new) (replace_first (has_id k) new w.store))),
        subst DistinctIds (sym step.2) (DistinctIds-filter (keeps k old new) _ d'),
        subst OnePerPeer (sym step.2) (OnePerPeer-confirm k old new id w.store d o),
      )

  -- A confirmation that succeeds in a store with distinct ids leaves a record with another id as it was,
  -- if its peer is neither that of the confirmed record nor that of the record found under the id.
  pub confirm_peer_connection-others :
      (w w' : World) (new c : ConnectionRecord) (j : String)
      → DistinctIds w.store
      → confirm_peer_connection h k patch w ≡ (ok new, w')
      → lookup j w.store ≡ some c
      → j ≢ k
      → c.remote_teti_id ≢ new.remote_teti_id
      → (old : ConnectionRecord) × (lookup k w.store ≡ some old)
        × ((c.remote_teti_id ≡ old.remote_teti_id) ⊎ (lookup j w'.store ≡ some c))
  confirm_peer_connection-others w w' new c j d r found other third =
      let (old, step) = confirm_peer_connection_lem w w' new r in
      let (there, d') = replaced w.store old new j step.0 step.1 d in
      let miss : (k == j) ≡ false = ==_false k j (λ e. other (sym e)) in
      let still : lookup j (replace_first (has_id k) new w.store) ≡ some c =
        there ∙ rw miss found in
      (
        old,
        step.0,
        elim (Bool-cases (c.remote_teti_id == old.remote_teti_id)) [
          | inl same ↦ inl ((eq_iff c.remote_teti_id old.remote_teti_id).0 same)
          | inr apart ↦
              let kept : keeps k old new c ≡ true =
                ground (arith, eq_iff c.remote_teti_id new.remote_teti_id) in
              inr (
                subst (λ l. lookup j l ≡ some c) (sym step.2)
                  (lookup-filter j (keeps k old new) _ {c = c} still kept d'))
        ],
      )
