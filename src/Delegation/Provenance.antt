-- ===== src/Delegation/Provenance.antt =====
-- The artifacts of a plan and the steps that made them.
use teti_bot.Workspace.Validation.{includes, all_distinct}
use teti_bot.Delegation.Relations.{has_state, of_step, step_artifacts_ok, final_provenance_ok}
use teti_bot.Base.{
  ℕ, String, ◌≡◌, refl, sym, ap, ◌∙◌, inl, inr, Bool, true, false, none, some, List, [], ◌∷◌, ◌++◌,
  map, arith, ◌==◌, number_equality, text_equality, Bool-cases, ==_false, ≢_of_==, ==_refl,
}
use teti_bot.Base.{all, length, filter, find}
use teti_bot.Delegation.{
  ChildStep, AggregationStep, ArtifactProvenance, completed, working, state_equality,
}
use teti_bot.Delegation.Runner.{modify_first, is_working}
use teti_bot.Delegation.Steps.{At, has_state-true, has_state-false}

abbrev pub ids_of : List ChildStep → List String
ids_of steps = map (λ step. step.step_id) steps

pub ids_of-modify_first :
    (p : ChildStep → Bool) (f : ChildStep → ChildStep) (steps : List ChildStep)
    → ((s : ChildStep) → (f s).step_id ≡ s.step_id)
    → ids_of (modify_first p f steps) ≡ ids_of steps
ids_of-modify_first p f [] g = refl
ids_of-modify_first p f (step ∷ steps) g =
    let rest = ids_of-modify_first p f steps g in
    elim (Bool-cases (p step)) [
      | inl e ↦ rw e (ap (λ id. id ∷ ids_of steps) (g step))
      | inr e ↦ rw e (ap (λ ids. step.step_id ∷ ids) rest)
    ]

-- A step that the test finds keeps its agreement with the artifacts: all do.
pub all-modify_first :
    (agrees p : ChildStep → Bool) (f : ChildStep → ChildStep) (steps : List ChildStep)
    → ((s : ChildStep) → p s ≡ true → agrees s ≡ true → agrees (f s) ≡ true)
    → all agrees steps ≡ true
    → all agrees (modify_first p f steps) ≡ true
all-modify_first agrees p f [] g h = refl
all-modify_first agrees p f (step ∷ steps) g h =
    let rest : all agrees steps ≡ true = ground arith in
    let here : agrees step ≡ true = ground arith in
    let later = all-modify_first agrees p f steps g rest in
    elim (Bool-cases (p step)) [
      | inl e ↦ let new = g step e here in rw e (rw new rest)
      | inr e ↦ rw e (rw here later)
    ]

-- An entry of another step changes nothing for this one.
filter-other :
    (id : String) (provenance : List ArtifactProvenance) (entry : ArtifactProvenance)
    → of_step id entry ≡ false
    → filter (of_step id) (provenance ++ (entry ∷ [])) ≡ filter (of_step id) provenance
filter-other id [] entry h = rw h refl
filter-other id (x ∷ xs) entry h =
    let rest = filter-other id xs entry h in
    elim (Bool-cases (of_step id x)) [ inl e ↦ rw e (ap (λ l. x ∷ l) rest) | inr e ↦ rw e rest ]

filter-own :
    (id : String) (provenance : List ArtifactProvenance) (entry : ArtifactProvenance)
    → of_step id entry ≡ true
    → filter (of_step id) (provenance ++ (entry ∷ []))
      ≡ filter (of_step id) provenance ++ (entry ∷ [])
filter-own id [] entry h = rw h refl
filter-own id (x ∷ xs) entry h =
    let rest = filter-own id xs entry h in
    elim (Bool-cases (of_step id x)) [ inl e ↦ rw e (ap (λ l. x ∷ l) rest) | inr e ↦ rw e rest ]

other_step :
    (provenance : List ArtifactProvenance) (entry : ArtifactProvenance) (step : ChildStep)
    → of_step step.step_id entry ≡ false
    → step_artifacts_ok (provenance ++ (entry ∷ [])) step ≡ step_artifacts_ok provenance step
unfolding step_artifacts_ok
other_step provenance entry step h = rw (filter-other step.step_id provenance entry h) refl

other_steps :
    (provenance : List ArtifactProvenance) (entry : ArtifactProvenance) (steps : List ChildStep)
    → includes (ids_of steps) entry.step_id ≡ false
    → all (step_artifacts_ok (provenance ++ (entry ∷ []))) steps
      ≡ all (step_artifacts_ok provenance) steps
other_steps provenance entry [] h = refl
other_steps provenance entry (step ∷ steps) h =
    let apart : (step.step_id == entry.step_id) ≡ false = ground arith in
    let apart' =
      ==_false entry.step_id step.step_id (λ e. ≢_of_== step.step_id entry.step_id apart (sym e)) in
    let rest = other_steps provenance entry steps (ground arith) in
    rw (other_step provenance entry step apart') (rw rest refl)

empty_of_length : {A : Type 0} (xs : List A) → length xs ≡ 0 → xs ≡ []
empty_of_length [] h = refl
empty_of_length (x ∷ xs) h = ground arith

-- No artifact is there yet of a step that has none.
nothing_published :
    (provenance : List ArtifactProvenance) (step : ChildStep)
    → has_state completed step ≡ false
    → step_artifacts_ok provenance step ≡ true
    → filter (of_step step.step_id) provenance ≡ []
unfolding step_artifacts_ok
nothing_published provenance step n h =
    let without : length step.artifact_ids ≡ 0 = ground arith in
    let no_entry : length (filter (of_step step.step_id) provenance) ≡ 0 = ground arith in
    empty_of_length _ no_entry

-- The one entry of a completed step.
published_once :
    (provenance : List ArtifactProvenance) (entry : ArtifactProvenance) (step : ChildStep)
    → step.state ≡ completed
    → step.artifact_ids ≡ entry.artifact_id ∷ []
    → filter (of_step step.step_id) provenance ≡ []
    → entry.step_id ≡ step.step_id
    → step_artifacts_ok (provenance ++ (entry ∷ [])) step ≡ true
unfolding step_artifacts_ok
published_once provenance entry step c ids none_yet same =
    let own : of_step step.step_id entry ≡ true = rw same (==_refl step.step_id) in
    let only : filter (of_step step.step_id) (provenance ++ (entry ∷ [])) ≡ entry ∷ [] =
      filter-own step.step_id provenance entry own ∙ ap (λ l. l ++ (entry ∷ [])) none_yet in
    rw only (rw (has_state-true completed step c) (rw ids (rw (==_refl entry.artifact_id) refl)))

pub find_apart :
    (p : ChildStep → Bool) (steps : List ChildStep) (id : String) {step : ChildStep}
    → find p steps ≡ some step
    → includes (ids_of steps) id ≡ false
    → (step.step_id == id) ≡ false
find_apart p [] id e h = cc
find_apart p (x ∷ xs) id {step} e h = elim (Bool-cases (p x)) [
  | inl q ↦
      let found : some x ≡ some step = ground arith in
      let same : x ≡ step = cc in
      let apart : (x.step_id == id) ≡ false = ground arith in
      ap (λ s. s.step_id == id) (sym same) ∙ apart
  | inr q ↦
      let found : find p xs ≡ some step = ground arith in find_apart p xs id found (ground arith)
]

-- The working step completed with its artifact: the steps and the artifacts agree again.
pub completed_agrees :
    (provenance : List ArtifactProvenance) (entry : ArtifactProvenance) (f : ChildStep → ChildStep)
    (i : ℕ) (steps : List ChildStep) {step : ChildStep}
    → ((s : ChildStep)
        → ((f s).step_id ≡ s.step_id)
          × ((f s).state ≡ completed)
          × ((f s).artifact_ids ≡ entry.artifact_id ∷ []))
    → At working i steps
    → find is_working steps ≡ some step
    → entry.step_id ≡ step.step_id
    → all_distinct (ids_of steps) ≡ true
    → all (step_artifacts_ok provenance) steps ≡ true
    → all (step_artifacts_ok (provenance ++ (entry ∷ []))) (modify_first is_working f steps) ≡ true
completed_agrees provenance entry f i [] g h e id d agree = elim h [ ]
completed_agrees provenance entry f i (x ∷ xs) {step} g (inl (s, j, rest)) e id d agree =
    let taken = has_state-true working x s in
    let found : some x ≡ some step = ground arith in
    let same : x ≡ step = cc in
    let id_x : entry.step_id ≡ x.step_id = id ∙ ap (λ s. s.step_id) (sym same) in
    let here : step_artifacts_ok provenance x ≡ true = ground arith in
    let later : all (step_artifacts_ok provenance) xs ≡ true = ground arith in
    let fresh : includes (ids_of xs) x.step_id ≡ false = ground arith in
    let none_yet =
      nothing_published provenance x (has_state-false completed working x refl s) here in
    let new =
      published_once provenance entry (f x) (g x).1 (g x).2 (rw (g x).0 none_yet)
        (id_x ∙ sym (g x).0) in
    let others = other_steps provenance entry xs (rw id_x fresh) ∙ later in rw taken (rw new others)
completed_agrees provenance entry f i (x ∷ xs) {step} g (inr (c, h)) e id d agree =
    let skipped = has_state-false working completed x refl c in
    let found : find is_working xs ≡ some step = ground arith in
    let here : step_artifacts_ok provenance x ≡ true = ground arith in
    let later : all (step_artifacts_ok provenance) xs ≡ true = ground arith in
    let fresh : includes (ids_of xs) x.step_id ≡ false = ground arith in
    let distinct : all_distinct (ids_of xs) ≡ true = ground arith in
    let apart : of_step x.step_id entry ≡ false =
      rw id (find_apart is_working xs x.step_id found fresh) in
    let rest = completed_agrees provenance entry f i xs g h found id distinct later in
    rw skipped (rw (other_step provenance entry x apart) (rw here rest))

-- The final artifact belongs to none of the steps.
pub final_agrees :
    (provenance : List ArtifactProvenance) (entry : ArtifactProvenance) (steps : List ChildStep)
    → includes (ids_of steps) entry.step_id ≡ false
    → all (step_artifacts_ok provenance) steps ≡ true
    → all (step_artifacts_ok (provenance ++ (entry ∷ []))) steps ≡ true
final_agrees provenance entry steps h agree = other_steps provenance entry steps h ∙ agree

-- Nothing is published by the aggregation, nor by an entry of a step that has another id.
unfoldable pub IsUnpublished : List ArtifactProvenance → AggregationStep → Type 0
IsUnpublished provenance aggregation =
    (filter (of_step aggregation.step_id) provenance ≡ []) × (aggregation.artifact_id ≡ none)

pub IsUnpublished-still :
    (provenance : List ArtifactProvenance) (entry : ArtifactProvenance)
    (aggregation : AggregationStep)
    → (entry.step_id == aggregation.step_id) ≡ false
    → IsUnpublished provenance aggregation
    → IsUnpublished (provenance ++ (entry ∷ [])) aggregation
unfolding IsUnpublished
IsUnpublished-still provenance entry aggregation apart (h, k) =
    (filter-other aggregation.step_id provenance entry apart ∙ h, k)

pub unpublished_ok :
    (provenance : List ArtifactProvenance) (aggregation : AggregationStep)
    → (aggregation.state == completed) ≡ false
    → IsUnpublished provenance aggregation
    → final_provenance_ok provenance aggregation ≡ true
unfolding IsUnpublished final_provenance_ok
unpublished_ok provenance aggregation n (h, k) = rw n (rw h (rw k refl))

pub published_ok :
    (provenance : List ArtifactProvenance) (entry : ArtifactProvenance)
    (aggregation before : AggregationStep)
    → aggregation.state ≡ completed
    → aggregation.artifact_id ≡ some entry.artifact_id
    → aggregation.step_id ≡ before.step_id
    → entry.step_id ≡ before.step_id
    → IsUnpublished provenance before
    → final_provenance_ok (provenance ++ (entry ∷ [])) aggregation ≡ true
unfolding IsUnpublished final_provenance_ok
published_ok provenance entry aggregation before c id same own (h, k) =
    let is_own : of_step before.step_id entry ≡ true = rw own (==_refl before.step_id) in
    let only : filter (of_step before.step_id) (provenance ++ (entry ∷ [])) ≡ entry ∷ [] =
      filter-own before.step_id provenance entry is_own ∙ ap (λ l. l ++ (entry ∷ [])) h in
    let ended : (aggregation.state == completed) ≡ true = rw c refl in
    rw ended (rw same (rw only (rw id (==_refl entry.artifact_id))))
