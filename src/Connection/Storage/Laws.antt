-- ===== src/Connection/Storage/Laws.antt =====
-- storage.ts: what `upsert` and `update` do to lookups, to the distinctness of ids and to validity.
use teti_bot.Base.{
  ℕ, String, ◌≡◌, refl, sym, ◌∙◌, inl, inr, Bool, Option, none, some, [], ◌∷◌, ◌==◌,
  number_equality, text_equality, if◌then◌else◌, ok, err, All, subst, set, find_entry-none, ap,
}
use teti_bot.Base.{
  find_entry, replace_first, IsEntry, find_entry-IsEntry, All-append, All-replace_first, >>-eq-ok,
}
use teti_bot.Connection.Types.{ConnectionRecord, Patch, apply_patch}
use teti_bot.Connection.Protocol.{not_found}
use teti_bot.Connection.Storage.{
  Connections, has_id, placed, store_update, validate_record, validate_all, upsert, update,
}
use teti_bot.Connection.Storage.Ids.{
  lookup, DistinctIds, place_cases, lookup-placed, lookup-replace_first, DistinctIds-placed,
  DistinctIds-replace_first,
}

module _ (is_date : String → Bool) where
  -- Every record passes validation.
  abbrev pub AllValid : Connections → Type 0
  AllValid cs = All (λ c. validate_record is_date c ≡ ok tt) cs

  pub validate_all-AllValid : (cs : Connections) → AllValid cs → validate_all is_date cs ≡ ok tt
  unfolding validate_all
  validate_all-AllValid [] h = refl
  validate_all-AllValid (c ∷ cs) (p, h) = rw p (validate_all-AllValid cs h)

  pub AllValid-of_validate_all : (cs : Connections) → validate_all is_date cs ≡ ok tt → AllValid cs
  unfolding validate_all
  AllValid-of_validate_all [] h = tt
  AllValid-of_validate_all (c ∷ cs) h =
      let (p, q) = >>-eq-ok (validate_record is_date c) (validate_all is_date cs) h in
      (p, AllValid-of_validate_all cs q)

  pub AllValid-placed :
      (c : ConnectionRecord) (cs : Connections)
      → validate_record is_date c ≡ ok tt
      → AllValid cs
      → AllValid (placed c cs)
  unfolding placed
  AllValid-placed c cs p h =
      elim (place_cases c cs _ (find_entry-IsEntry (has_id c.request_id) c cs)) [
        | inl (new, e) ↦ rw e (All-append _ cs (c ∷ []) h (p, tt))
        | inr (a, old, e) ↦ rw e (All-replace_first _ (has_id c.request_id) c cs p h)
      ]

  -- A successful `upsert` into a store of valid records with distinct ids validated the record, stores
  -- it under its id, leaves every other lookup as it was, and keeps the records valid and the ids
  -- distinct.
  pub upsert_lem :
      (c : ConnectionRecord) (cs cs' : Connections) (j : String)
      → DistinctIds cs
      → AllValid cs
      → upsert is_date c cs ≡ ok cs'
      → (validate_record is_date c ≡ ok tt)
        × (lookup j cs' ≡ (if c.request_id == j then some c else lookup j cs))
        × DistinctIds cs'
        × AllValid cs'
  unfolding upsert
  upsert_lem c cs cs' j d v h =
      let (valid, e) = >>-eq-ok (validate_record is_date c) (ok (placed c cs)) h in
      let same : placed c cs ≡ cs' = cc in
      (
        valid,
        rw (← same) (lookup-placed j c cs),
        subst DistinctIds same (DistinctIds-placed c cs d),
        subst AllValid same (AllValid-placed c cs valid v),
      )

  pub upsert-placed :
      (c : ConnectionRecord) (cs cs' : Connections)
      → upsert is_date c cs ≡ ok cs'
      → placed c cs ≡ cs'
  unfolding upsert
  upsert-placed c cs cs' h =
      let (valid, e) = >>-eq-ok (validate_record is_date c) (ok (placed c cs)) h in cc

  module _ (k : String) (patch : Patch) (cs cs' : Connections) (updated : ConnectionRecord) where
    -- The record with id `k` was patched in its place.
    abbrev pub IsPatched : ConnectionRecord → Type 0
    IsPatched c =
        (lookup k cs ≡ some c)
        × (updated ≡ apply_patch c patch k)
        × (validate_record is_date updated ≡ ok tt)
        × (cs' ≡ replace_first (has_id k) updated cs)

    IsPatched-at :
        (o : Option (ℕ × ConnectionRecord))
        → find_entry (has_id k) cs ≡ o
        → store_update is_date k patch cs o ≡ ok (updated, cs')
        → (c : ConnectionRecord) × IsPatched c
    IsPatched-at none found h = cc
    IsPatched-at (some (i, c)) found h =
        let u = apply_patch c patch k in
        let entry : IsEntry (has_id k) cs u (some (i, c)) =
          subst (IsEntry (has_id k) cs u) found (find_entry-IsEntry (has_id k) u cs) in
        let (valid, e) = >>-eq-ok (validate_record is_date u) (ok (u, set cs i u)) h in
        let same : u ≡ updated = cc in
        let left : set cs i u ≡ cs' = cc in
        (
          c,
          (
            entry.0,
            sym same,
            subst (λ x. validate_record is_date x ≡ ok tt) same valid,
            sym left ∙ (entry.1 ∙ ap (λ x. replace_first (has_id k) x cs) same),
          ),
        )

    pub update-IsPatched :
        update is_date k patch cs ≡ ok (updated, cs') → (c : ConnectionRecord) × IsPatched c
    unfolding update
    update-IsPatched h = IsPatched-at (find_entry (has_id k) cs) refl h

    pub AllValid-update : AllValid cs → update is_date k patch cs ≡ ok (updated, cs') → AllValid cs'
    AllValid-update v h =
        let (c, (found, same, valid, left)) = update-IsPatched h in
        subst AllValid (sym left) (All-replace_first _ (has_id k) updated cs valid v)

    -- A successful `update` of a store of valid records with distinct ids found a record under the id
    -- and stores the patched record under the same id; every other lookup is as it was, and the
    -- records stay valid with distinct ids.
    pub update_lem :
        (j : String)
        → DistinctIds cs
        → AllValid cs
        → update is_date k patch cs ≡ ok (updated, cs')
        → (c : ConnectionRecord) × (lookup k cs ≡ some c)
          × (updated ≡ apply_patch c patch k)
          × (lookup j cs' ≡ (if k == j then some updated else lookup j cs))
          × DistinctIds cs'
          × AllValid cs'
    unfolding apply_patch
    update_lem j d v h =
        let (c, patched) = update-IsPatched h in
        let (found, same, valid, left) = patched in
        let id : updated.request_id ≡ k = ap (λ x. x.request_id) same in
        let old = subst (λ i. lookup i cs ≡ some c) (sym id) found in
        let look =
          subst
            (λ i.
              lookup j (replace_first (has_id i) updated cs)
              ≡ (if i == j then some updated else lookup j cs))
            id (lookup-replace_first j updated cs old) in
        let distinct =
          subst (λ i. DistinctIds (replace_first (has_id i) updated cs)) id
            (DistinctIds-replace_first updated cs d) in
        (
          c,
          found,
          same,
          subst (λ l. lookup j l ≡ (if k == j then some updated else lookup j cs)) (sym left) look,
          subst DistinctIds (sym left) distinct,
          subst AllValid (sym left) (All-replace_first _ (has_id k) updated cs valid v),
        )

  -- An `update` under an id that no record has throws.
  pub update_missing :
      (k : String) (patch : Patch) (cs : Connections)
      → lookup k cs ≡ none
      → update is_date k patch cs ≡ err (not_found k)
  unfolding update
  update_missing k patch cs h = rw (find_entry-none (has_id k) cs h)
