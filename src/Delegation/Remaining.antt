-- ===== src/Delegation/Remaining.antt =====
-- How many steps are left, and the room in the audit.
use teti_bot.Delegation.Relations.{has_state}
use teti_bot.Base.{
  ℕ, suc, ◌≤◌, ◌≡◌, refl, ap, inl, inr, Bool, true, false, List, [], ◌∷◌, ◌++◌, arith,
  number_equality, text_equality, ok, Bool-cases,
}
use teti_bot.Base.{length, leb}
use teti_bot.Delegation.Runner.{append_audit, appended, Stamp, AuditEntry, modify_first, is_working}
use teti_bot.Delegation.Steps.{At, has_state-true, has_state-false}
use teti_bot.Delegation.Running.{left}
use teti_bot.Delegation.{ChildStep, DelegationPlan, completed, working}

pub left-modify_first :
    (p : ChildStep → Bool) (f : ChildStep → ChildStep) (steps : List ChildStep)
    → ((s : ChildStep) → has_state completed (f s) ≡ false)
    → ((s : ChildStep) → p s ≡ true → has_state completed s ≡ false)
    → left (modify_first p f steps) ≡ left steps
left-modify_first p f [] g h = refl
left-modify_first p f (step ∷ steps) g h =
    let rest = left-modify_first p f steps g h in
    elim (Bool-cases (p step)) [
      | inl e ↦ rw e (rw (g step) (rw (h step e) refl))
      | inr e ↦ elim (Bool-cases (has_state completed step)) [
        | inl c ↦ rw e (rw c rest)
        | inr c ↦ rw e (rw c (ap suc rest))
      ]
    ]

-- One step fewer is left.
pub left_completed :
    (f : ChildStep → ChildStep) (i : ℕ) (steps : List ChildStep)
    → ((s : ChildStep) → (f s).state ≡ completed)
    → At working i steps
    → suc (left (modify_first is_working f steps)) ≡ left steps
left_completed f i [] g h = elim h [ ]
left_completed f i (x ∷ xs) g (inl (s, j, rest)) =
    let taken = has_state-true working x s in
    let was = has_state-false completed working x refl s in
    let now = has_state-true completed (f x) (g x) in rw taken (rw now (rw was refl))
left_completed f i (x ∷ xs) g (inr (c, h)) =
    let skipped = has_state-false working completed x refl c in
    let done = has_state-true completed x c in
    let rest = left_completed f i xs g h in rw skipped (rw done rest)

pub length-append_one :
    {A : Type 0} (xs : List A) (x : A) → length (xs ++ (x ∷ [])) ≡ suc (length xs)
length-append_one [] x = refl
length-append_one (y ∷ ys) x = ap suc (length-append_one ys x)

-- An event goes in while there is room.
pub append_audit_room :
    (stamp : Stamp) (entry : AuditEntry) (plan : DelegationPlan)
    → length plan.audit ≤ 63
    → append_audit stamp entry plan ≡ ok (appended stamp entry plan)
unfolding append_audit
append_audit_room stamp entry plan h =
    let room : leb 64 (length plan.audit) ≡ false = ground arith in rw room refl
