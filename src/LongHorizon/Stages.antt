-- ===== src/LongHorizon/Stages.antt =====
-- What the stages of a valid session are.
use teti_bot.Workspace.Validation.{includes, all_distinct}
use teti_bot.Base.{
  ℕ, ◌≤◌, String, ◌≡◌, refl, sym, ap, ◌∙◌, ◌⊎◌, inl, inr, Bool, true, false, not, ◌&&◌, ◌||◌,
  Option, List, [], ◌∷◌, map, arith, ◌==◌, number_equality, text_equality, ok, All, All-map,
  fail_if->>-eq-ok, fail_if-eq-ok,
}
use teti_bot.Base.{leb, ltb, length, all, >>-eq-ok, >>=-eq-ok}
use teti_bot.LongHorizon.{Stage}
use teti_bot.LongHorizon.Validation.{
  check_stages, validate_stage, validate_stages, stage_ok, check_id, check_slug,
}

abbrev pub indexes_of : List Stage → List ℕ
indexes_of stages = map (λ stage. stage.stage_index) stages

-- The numbers of stages.
abbrev pub is_stage_number : ℕ → Bool
is_stage_number n = leb 1 n && leb n 16

not_among :
    (index : ℕ) (seen : List ℕ) (stages : List Stage)
    → All (λ stage. includes (index ∷ seen) stage.stage_index ≡ false) stages
    → includes (indexes_of stages) index ≡ false
not_among index seen [] h = refl
not_among index seen (stage ∷ stages) (fresh, h) =
    let rest = not_among index seen stages h in ground arith

found_in :
    (current index : ℕ) (seen indexes : List ℕ)
    → (includes seen current || includes (index ∷ indexes) current)
      ≡ (includes (index ∷ seen) current || includes indexes current)
found_in current index seen indexes = ground arith

module _ (parse : String → Option ℕ) where
  stage_facts :
      (seen : List ℕ) (stage : Stage)
      → validate_stage parse seen stage ≡ ok tt
      → (is_stage_number stage.stage_index ≡ true) × (includes seen stage.stage_index ≡ false)
  unfolding validate_stage stage_ok
  stage_facts seen stage run =
      let after_id = >>-eq-ok (check_id stage.stage_id) _ run in
      let after_execution = >>-eq-ok (check_id stage.execution_task_id) _ after_id.1 in
      let after_agent = >>-eq-ok (check_slug stage.child_agent_id) _ after_execution.1 in
      let after_connector = >>-eq-ok (check_slug stage.connector_id) _ after_agent.1 in
      let stage_is = fail_if->>-eq-ok (not (stage_ok seen stage)) _ _ after_connector.1 in
      (ground arith, ground arith)

  check_stages_lem :
      (seen : List ℕ) (stages : List Stage) {indexes : List ℕ}
      → check_stages parse seen stages ≡ ok indexes
      → (all_distinct (indexes_of stages) ≡ true)
        × (all is_stage_number (indexes_of stages) ≡ true)
        × All (λ stage. includes seen stage.stage_index ≡ false) stages
        × ((current : ℕ)
            → includes indexes current
              ≡ (includes seen current || includes (indexes_of stages) current))
  unfolding check_stages
  check_stages_lem seen [] {indexes} run =
      let same : seen ≡ indexes = cc in
      (
        refl,
        refl,
        tt,
        λ current. ap (λ l. includes l current) (sym same) ∙ or_false (includes seen current),
      )
    where
      or_false : (b : Bool) → b ≡ (b || false)
      or_false b = ground arith
  check_stages_lem seen (stage ∷ stages) run =
      let (here, later) = >>-eq-ok (validate_stage parse seen stage) _ run in
      let (number, fresh) = stage_facts seen stage here in
      let (distinct, numbers, apart, members) =
        check_stages_lem (stage.stage_index ∷ seen) stages later in
      let once = not_among stage.stage_index seen stages apart in
      (
        rw once distinct,
        rw number numbers,
        (fresh, All-map (λ s h. ground arith) stages apart),
        λ current.
            members current ∙ sym (found_in current stage.stage_index seen (indexes_of stages)),
      )

-- The stages of a session that is valid have different numbers, from 1 to 16; there are 16 at most, and the
-- current stage is one of them as soon as there is any.
pub validate_stages-indexes_of :
    (parse : String → Option ℕ) (stages : List Stage) (current : ℕ)
    → validate_stages parse stages current ≡ ok tt
    → (all_distinct (indexes_of stages) ≡ true)
      × (all is_stage_number (indexes_of stages) ≡ true)
      × (length stages ≤ 16)
      × ((stages ≡ []) ⊎ (includes (indexes_of stages) current ≡ true))
unfolding validate_stages
validate_stages-indexes_of parse stages current run =
    let few = fail_if->>-eq-ok (ltb 16 (length stages)) _ _ run in
    let (indexes, checked, last) = >>=-eq-ok (check_stages parse [] stages) _ few.1 in
    let (distinct, numbers, _, members) = check_stages_lem parse [] stages checked in
    let current_is =
      fail_if-eq-ok (not (length stages == 0) && not (includes indexes current)) _ last in
    (distinct, numbers, at_most few.0, by_stages indexes stages (members current) current_is)
  where
    at_most : ltb 16 (length stages) ≡ false → length stages ≤ 16
    at_most h = ground arith

    by_stages :
        (indexes : List ℕ) (l : List Stage)
        → includes indexes current ≡ includes (indexes_of l) current
        → (not (length l == 0) && not (includes indexes current)) ≡ false
        → (l ≡ []) ⊎ (includes (indexes_of l) current ≡ true)
    by_stages indexes [] same h = inl refl
    by_stages indexes (stage ∷ l) same h =
        let member : includes indexes current ≡ true = ground arith in inr (sym same ∙ member)
