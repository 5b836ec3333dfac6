-- ===== src/Connection/Storage/Ids.antt =====
-- The store of records as a map from request ids: lookups after `upsert` and `update`.
use teti_bot.Base.{
  ℕ, String, ◌≡◌, refl, sym, ◌∙◌, ◌≢◌, ◌⊎◌, inl, inr, Option, none, some, [], ◌∷◌, ◌++◌, arith,
  ◌==◌, number_equality, text_equality, if◌then◌else◌, All, Bool-cases, eq_iff, subst,
}
use teti_bot.Base.{find, replace_first, IsEntry, find_entry-IsEntry}
use teti_bot.Connection.Types.{ConnectionRecord}
use teti_bot.Connection.Storage.{placed, Connections, has_id, place}

abbrev pub lookup : String → Connections → Option ConnectionRecord
lookup request_id cs = find (has_id request_id) cs

abbrev pub IsFresh : String → Connections → Type 0
IsFresh request_id cs = All (λ c. c.request_id ≢ request_id) cs

-- No two records have the same request id.
abbrev pub DistinctIds : Connections → Type 0
DistinctIds [] = Unit
DistinctIds (c ∷ cs) = IsFresh c.request_id cs × DistinctIds cs

pub IsFresh-of_lookup : (k : String) (cs : Connections) → lookup k cs ≡ none → IsFresh k cs
IsFresh-of_lookup k [] h = tt
IsFresh-of_lookup k (x ∷ xs) h =
    (ground (arith, eq_iff x.request_id k), IsFresh-of_lookup k xs (ground arith))

pub lookup_of_IsFresh : (k : String) (cs : Connections) → IsFresh k cs → lookup k cs ≡ none
lookup_of_IsFresh k [] h = refl
lookup_of_IsFresh k (x ∷ xs) (p, h) =
    ground (arith, eq_iff x.request_id k, lookup_of_IsFresh k xs h)

-- The record found has the id that was looked up.
pub lookup-request_id :
    (k : String) (cs : Connections) {c : ConnectionRecord} → lookup k cs ≡ some c → c.request_id ≡ k
lookup-request_id k [] h = cc
lookup-request_id k (x ∷ xs) {c} h = elim (Bool-cases (x.request_id == k)) [
  | inl e ↦ ground (arith, eq_iff x.request_id k)
  | inr e ↦ lookup-request_id k xs {c = c} (ground arith)
]

lookup-push :
    (j : String) (c : ConnectionRecord) (cs : Connections)
    → lookup c.request_id cs ≡ none
    → lookup j (cs ++ c ∷ []) ≡ (if c.request_id == j then some c else lookup j cs)
lookup-push j c [] h = refl
lookup-push j c (x ∷ xs) h = ground (
  arith,
  eq_iff c.request_id j,
  eq_iff x.request_id j,
  eq_iff x.request_id c.request_id,
  lookup-push j c xs,
)

pub lookup-replace_first :
    (j : String) (c : ConnectionRecord) (cs : Connections) {a : ConnectionRecord}
    → lookup c.request_id cs ≡ some a
    → lookup j (replace_first (has_id c.request_id) c cs)
      ≡ (if c.request_id == j then some c else lookup j cs)
lookup-replace_first j c [] h = cc
lookup-replace_first j c (x ∷ xs) {a} h = ground (
  arith,
  eq_iff c.request_id j,
  eq_iff x.request_id j,
  eq_iff x.request_id c.request_id,
  lookup-replace_first j c xs {a = a},
)

-- What `place` does, by whether the id is there.
pub place_cases :
    (c : ConnectionRecord) (cs : Connections) (o : Option (ℕ × ConnectionRecord))
    → IsEntry (has_id c.request_id) cs c o
    → ((lookup c.request_id cs ≡ none) × (place o c cs ≡ cs ++ c ∷ []))
      ⊎ ((a : ConnectionRecord) × (lookup c.request_id cs ≡ some a)
          × (place o c cs ≡ replace_first (has_id c.request_id) c cs))
place_cases c cs none h = inl (h, refl)
place_cases c cs (some (i, a)) (h, k) = inr (a, h, k)

pub lookup-placed :
    (j : String) (c : ConnectionRecord) (cs : Connections)
    → lookup j (placed c cs) ≡ (if c.request_id == j then some c else lookup j cs)
unfolding placed
lookup-placed j c cs = elim (place_cases c cs _ (find_entry-IsEntry (has_id c.request_id) c cs)) [
  | inl (new, e) ↦ rw e (lookup-push j c cs new)
  | inr (a, old, e) ↦ rw e (lookup-replace_first j c cs old)
]

IsFresh-push :
    (k : String) (c : ConnectionRecord) (cs : Connections)
    → c.request_id ≢ k
    → IsFresh k cs
    → IsFresh k (cs ++ c ∷ [])
IsFresh-push k c [] e h = (e, tt)
IsFresh-push k c (x ∷ xs) e (p, h) = (p, IsFresh-push k c xs e h)

DistinctIds-push :
    (c : ConnectionRecord) (cs : Connections)
    → IsFresh c.request_id cs
    → DistinctIds cs
    → DistinctIds (cs ++ c ∷ [])
DistinctIds-push c [] h d = (tt, tt)
DistinctIds-push c (x ∷ xs) (p, h) (q, d) =
    (IsFresh-push x.request_id c xs (λ e. p (sym e)) q, DistinctIds-push c xs h d)

IsFresh-replace_first :
    (k : String) (c : ConnectionRecord) (cs : Connections)
    → IsFresh k cs
    → IsFresh k (replace_first (has_id c.request_id) c cs)
IsFresh-replace_first k c [] h = tt
IsFresh-replace_first k c (x ∷ xs) (p, h) = elim (Bool-cases (x.request_id == c.request_id)) [
  | inl e ↦ rw e (λ s. p ((eq_iff x.request_id c.request_id).0 e ∙ s), h)
  | inr e ↦ rw e (p, IsFresh-replace_first k c xs h)
]

pub DistinctIds-replace_first :
    (c : ConnectionRecord) (cs : Connections)
    → DistinctIds cs
    → DistinctIds (replace_first (has_id c.request_id) c cs)
DistinctIds-replace_first c [] d = tt
DistinctIds-replace_first c (x ∷ xs) (p, d) = elim (Bool-cases (x.request_id == c.request_id)) [
  | inl e ↦ rw e (subst (λ k. IsFresh k xs) ((eq_iff x.request_id c.request_id).0 e) p, d)
  | inr e ↦ rw e (IsFresh-replace_first x.request_id c xs p, DistinctIds-replace_first c xs d)
]

pub DistinctIds-placed :
    (c : ConnectionRecord) (cs : Connections) → DistinctIds cs → DistinctIds (placed c cs)
unfolding placed
DistinctIds-placed c cs d =
    elim (place_cases c cs _ (find_entry-IsEntry (has_id c.request_id) c cs)) [
      | inl (new, e) ↦ rw e (DistinctIds-push c cs (IsFresh-of_lookup c.request_id cs new) d)
      | inr (a, old, e) ↦ rw e (DistinctIds-replace_first c cs d)
    ]
