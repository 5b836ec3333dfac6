-- ===== src/Delegation/Order.antt =====
-- The order of a plan's child steps.
use teti_bot.Delegation.Relations.{check_order, has_state}
use teti_bot.Base.{
  ◌≡◌, refl, inl, inr, Bool, true, false, List, [], ◌∷◌, arith, number_equality, text_equality,
  if◌then◌else◌, Bool-cases,
}
use teti_bot.Base.{all, is_ok}
use teti_bot.Delegation.{ChildStep, pending, completed, state_equality}

-- The completed steps come first, then at most one in any other state, then pending ones.
unfoldable pub is_ordered : List ChildStep → Bool
is_ordered [] = true
is_ordered (step ∷ steps) =
    let rest = is_ordered steps in
    if has_state completed step then rest else all (has_state pending) steps

not_both : (step : ChildStep) → has_state pending step ≡ true → has_state completed step ≡ false
not_both step h = ground arith

check_order-found :
    (steps : List ChildStep) → is_ok (check_order true steps) ≡ all (has_state pending) steps
unfolding check_order
check_order-found [] = refl
check_order-found (step ∷ steps) =
    let rest = check_order-found steps in
    elim (Bool-cases (has_state pending step)) [
      | inl e ↦ rw (not_both step e) (rw e rest)
      | inr e ↦ elim (Bool-cases (has_state completed step)) [
        | inl c ↦ rw c (rw e refl)
        | inr c ↦ rw c (rw e refl)
      ]
    ]

-- The loop on the order of the child steps passes exactly the lists in which the completed steps come
-- first, then at most one step in any other state, and then pending steps only.
pub check_order_iff : (steps : List ChildStep) → is_ok (check_order false steps) ≡ is_ordered steps
unfolding check_order is_ordered
check_order_iff [] = refl
check_order_iff (step ∷ steps) = elim (Bool-cases (has_state completed step)) [
  | inl e ↦ let rest = check_order_iff steps in rw e rest
  | inr e ↦ let rest = check_order-found steps in rw e rest
]
