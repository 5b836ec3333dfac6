-- ===== src/Workspace/Access.antt =====
-- Which lists of accesses are accepted.
use teti_bot.Workspace.Validation.{validate_access}
use teti_bot.Base.{
  ◌≤◌, ◌≡◌, refl, sym, ◌∙◌, Bool, true, false, not, ◌&&◌, List, [], ◌∷◌, arith, ◌==◌,
  number_equality, text_equality, ltb, length,
}
use teti_bot.Base.{is_ok}
use teti_bot.Workspace.{WorkspaceAccess, read, write, create_artifact, access_rank}

-- Each access comes later in the order than the one before.
abbrev pub ascending : List WorkspaceAccess → Bool
ascending [] = true
ascending (a ∷ []) = true
ascending (a ∷ b ∷ as') = ltb (access_rank a) (access_rank b) && ascending (b ∷ as')

abbrev pub is_canonical_access : List WorkspaceAccess → Bool
is_canonical_access [] = false
is_canonical_access (a ∷ as') = access_rank a == 0 && ascending (a ∷ as')

every : (WorkspaceAccess → Bool) → Bool
every p = p read && p write && p create_artifact

every-true : (p : WorkspaceAccess → Bool) → every p ≡ true → (a : WorkspaceAccess) → p a ≡ true
unfolding every
every-true p h read = ground arith
every-true p h write = ground arith
every-true p h create_artifact = ground arith

same : Bool → Bool → Bool
same true b = b
same false b = not b

same_lem : (a b : Bool) → same a b ≡ true → a ≡ b
unfolding same
same_lem true b h = sym h
same_lem false b h = ground arith

agrees : List WorkspaceAccess → Bool
unfolding same
agrees value = same (is_ok (validate_access value)) (is_canonical_access value)

agrees_two : (a b : WorkspaceAccess) → agrees (a ∷ b ∷ []) ≡ true
unfolding agrees same every validate_access
agrees_two a b =
    every-true (λ b. agrees (a ∷ b ∷ []))
      (every-true (λ a. every (λ b. agrees (a ∷ b ∷ []))) refl a) b

agrees_three : (a b c : WorkspaceAccess) → agrees (a ∷ b ∷ c ∷ []) ≡ true
unfolding agrees same every validate_access
agrees_three a b c =
    let table = every-true (λ a. every (λ b. every (λ c. agrees (a ∷ b ∷ c ∷ [])))) refl a in
    every-true (λ c. agrees (a ∷ b ∷ c ∷ []))
      (every-true (λ b. every (λ c. agrees (a ∷ b ∷ c ∷ []))) table b) c

access_rank_bound : (a : WorkspaceAccess) → access_rank a ≤ 2
access_rank_bound a = ground arith

four_lem :
    (a b c d : WorkspaceAccess) (as' : List WorkspaceAccess)
    → is_canonical_access (a ∷ b ∷ c ∷ d ∷ as') ≡ false
four_lem a b c d as' = let bound = access_rank_bound d in ground arith

four_refused :
    (a b c d : WorkspaceAccess) (as' : List WorkspaceAccess)
    → is_ok (validate_access (a ∷ b ∷ c ∷ d ∷ as')) ≡ false
unfolding validate_access
four_refused a b c d as' =
    let too_long : ltb 3 (length (a ∷ b ∷ c ∷ d ∷ as')) ≡ true = ground arith in
    let some_entry : (length (a ∷ b ∷ c ∷ d ∷ as') == 0) ≡ false = ground arith in
    rw too_long (rw some_entry refl)

-- A list of accesses is accepted exactly when it begins with `read` and each next access comes later
-- in the order read, write, create_artifact.
validate_access_iff :
    (value : List WorkspaceAccess) → is_ok (validate_access value) ≡ is_canonical_access value
unfolding agrees same every validate_access
validate_access_iff [] = refl
validate_access_iff (a ∷ []) = same_lem _ _ (every-true (λ a. agrees (a ∷ [])) refl a)
validate_access_iff (a ∷ b ∷ []) = same_lem _ _ (agrees_two a b)
validate_access_iff (a ∷ b ∷ c ∷ []) = same_lem _ _ (agrees_three a b c)
validate_access_iff (a ∷ b ∷ c ∷ d ∷ as') = four_refused a b c d as' ∙ sym (four_lem a b c d as')
