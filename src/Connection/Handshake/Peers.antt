-- ===== src/Connection/Handshake/Peers.antt =====
-- At most one confirmed connection to each peer: the predicate, and what keeps it.
use teti_bot.Base.{
  String, ◌≡◌, refl, ◌≢◌, inl, inr, Bool, true, false, ◌&&◌, [], ◌∷◌, ◌++◌, arith, ◌==◌,
  number_equality, text_equality, All, Bool-cases, eq_iff, subst,
}
use teti_bot.Base.{
  filter, replace_first, All-filter, All-filter_test, All-map₂, All-replace_first, All-append,
}
use teti_bot.Connection.Types.{ConnectionRecord, is_confirmed}
use teti_bot.Connection.Storage.{Connections, has_id}
use teti_bot.Connection.Storage.Ids.{IsFresh, DistinctIds}
use teti_bot.Connection.Handshake.{keeps}

-- Two confirmed connections to one peer.
abbrev pub clash : ConnectionRecord → ConnectionRecord → Bool
clash c d = is_confirmed c && (is_confirmed d && c.remote_teti_id == d.remote_teti_id)

abbrev pub IsApart : ConnectionRecord → ConnectionRecord → Type 0
IsApart c d = clash c d ≡ false

-- No two records of the list are confirmed connections to one peer.
abbrev pub OnePerPeer : Connections → Type 0
OnePerPeer [] = Unit
OnePerPeer (c ∷ cs) = All (IsApart c) cs × OnePerPeer cs

IsApart-left : (c d : ConnectionRecord) → is_confirmed c ≡ false → IsApart c d
IsApart-left c d e = rw e

IsApart-right : (c d : ConnectionRecord) → is_confirmed d ≡ false → IsApart c d
IsApart-right c d e = ground arith

All-IsApart :
    (c : ConnectionRecord) (cs : Connections) → is_confirmed c ≡ false → All (IsApart c) cs
All-IsApart c [] e = tt
All-IsApart c (d ∷ cs) e = (IsApart-left c d e, All-IsApart c cs e)

pub OnePerPeer-push :
    (c : ConnectionRecord) (cs : Connections)
    → is_confirmed c ≡ false
    → OnePerPeer cs
    → OnePerPeer (cs ++ c ∷ [])
OnePerPeer-push c [] e h = (tt, tt)
OnePerPeer-push c (d ∷ cs) e (p, h) =
    (All-append (IsApart d) cs (c ∷ []) p (IsApart-right d c e, tt), OnePerPeer-push c cs e h)

pub OnePerPeer-replace_first :
    (p : ConnectionRecord → Bool) (c : ConnectionRecord) (cs : Connections)
    → is_confirmed c ≡ false
    → OnePerPeer cs
    → OnePerPeer (replace_first p c cs)
OnePerPeer-replace_first p c [] e h = tt
OnePerPeer-replace_first p c (d ∷ cs) e (q, h) = elim (Bool-cases (p d)) [
  | inl hit ↦ rw hit (All-IsApart c cs e, h)
  | inr miss ↦ rw miss (
    All-replace_first (IsApart d) p c cs (IsApart-right d c e) q,
    OnePerPeer-replace_first p c cs e h,
  )
]

OnePerPeer-filter :
    (p : ConnectionRecord → Bool) (cs : Connections) → OnePerPeer cs → OnePerPeer (filter p cs)
OnePerPeer-filter p [] h = tt
OnePerPeer-filter p (d ∷ cs) (q, h) = elim (Bool-cases (p d)) [
  | inl hit ↦ rw hit (All-filter (IsApart d) p cs q, OnePerPeer-filter p cs h)
  | inr miss ↦ rw miss (OnePerPeer-filter p cs h)
]

pub DistinctIds-filter :
    (p : ConnectionRecord → Bool) (cs : Connections) → DistinctIds cs → DistinctIds (filter p cs)
DistinctIds-filter p [] h = tt
DistinctIds-filter p (d ∷ cs) (q, h) = elim (Bool-cases (p d)) [
  | inl hit ↦ rw hit (All-filter _ p cs q, DistinctIds-filter p cs h)
  | inr miss ↦ rw miss (DistinctIds-filter p cs h)
]

module _ (k : String) (old new : ConnectionRecord) (id : new.request_id ≡ k) where
  -- A kept record with another id is of another peer.
  kept-apart :
      (c : ConnectionRecord)
      → c.request_id ≢ k
      → keeps k old new c ≡ true
      → c.remote_teti_id ≢ new.remote_teti_id
  kept-apart c other kept =
      ground (arith, eq_iff c.request_id k, eq_iff c.remote_teti_id new.remote_teti_id)

  IsApart-new : (c : ConnectionRecord) → c.request_id ≢ k → keeps k old new c ≡ true → IsApart new c
  IsApart-new c other kept =
      ground (arith, kept-apart c other kept, eq_iff new.remote_teti_id c.remote_teti_id)

  IsApart-old : (c : ConnectionRecord) → c.request_id ≢ k → keeps k old new c ≡ true → IsApart c new
  IsApart-old c other kept =
      ground (arith, kept-apart c other kept, eq_iff c.remote_teti_id new.remote_teti_id)

  keeps-new : keeps k old new new ≡ true
  keeps-new = rw ((eq_iff new.request_id k).1 id) refl

  -- Once a record is confirmed and the other records of its peer are dropped, each peer has at most
  -- one confirmed connection again.
  pub OnePerPeer-confirm :
      (cs : Connections)
      → DistinctIds cs
      → OnePerPeer cs
      → OnePerPeer (filter (keeps k old new) (replace_first (has_id k) new cs))
  OnePerPeer-confirm [] d h = tt
  OnePerPeer-confirm (x ∷ xs) (fresh, d) (apart, h) = elim (Bool-cases (x.request_id == k)) [
    | inl hit ↦
        let fresh' : IsFresh k xs =
          subst (λ i. IsFresh i xs) ((eq_iff x.request_id k).0 hit) fresh in
        rw (hit, keeps-new)
          (
            All-map₂ IsApart-new (filter (keeps k old new) xs)
                (All-filter _ (keeps k old new) xs fresh') (All-filter_test (keeps k old new) xs),
            OnePerPeer-filter (keeps k old new) xs h,
          )
    | inr miss ↦
        let other : x.request_id ≢ k = λ e. ground (arith, (eq_iff x.request_id k).1 e) in
        let rest = OnePerPeer-confirm xs d h in
        let held = λ (kept : keeps k old new x ≡ true).
          All-filter (IsApart x) (keeps k old new) (replace_first (has_id k) new xs)
            (All-replace_first (IsApart x) (has_id k) new xs (IsApart-old x other kept) apart) in
        rw miss (elim (Bool-cases (keeps k old new x)) [
          | inl kept ↦ rw kept (held kept, rest)
          | inr dropped ↦ rw dropped rest
        ])
  ]
