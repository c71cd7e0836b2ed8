-- ===== src/Service/Batch/Runs.antt =====
-- toolbox/service.py: the results that the loop of `run_tool_batch` collects.
use toolbox_mcp.Prelude.{
  suc, String, ◌≡◌, refl, sym, subst, ap, ◌-◌, ◌∙◌, Bool, true, false, ◌&&◌, not, Option, none,
  some, List, [], ◌∷◌, arith, length, take, map, all_of, is_some, string_eq,
}
use toolbox_mcp.Json.{Fields}
use toolbox_mcp.Models.{Result, ok, err}
use toolbox_mcp.Host.{Host}
use toolbox_mcp.Effects.{World}
use toolbox_mcp.Effects.Spec.{
  Spec, Post, Never, MayRaise, Any, Spec-pure, Spec-raise, Spec-gets, Spec-compute, Spec-lift,
  Spec-bind, Spec-attempt, Spec-if,
}
use toolbox_mcp.Transport.Rules.{Post-Any}
use toolbox_mcp.Service.Mounted.{call_mounted_tool, is_mounted_tool}
use toolbox_mcp.Service.References.{BatchStepResult}
use toolbox_mcp.Service.Batch.{
  BatchStep, BatchRunResult, Progress, step_answered, step_called, step_body, step_ended, run_step,
  ends_batch, run_steps, batch_result, first_error, step_error, batch_checked, duplicate_id,
  run_tool_batch,
}

-- The results and the flag `stopped_on_error` that the loop may end with.
pub data Follows (continue_on_error : Bool)
    : List BatchStep → List BatchStepResult → Bool → Type 0 where
  finished : Follows continue_on_error [] [] false
  stopped :
      {step : BatchStep} {steps : List BatchStep} {result : BatchStepResult}
      → result.id ≡ step.id
      → ends_batch continue_on_error result ≡ true
      → Follows continue_on_error (step ∷ steps) (result ∷ []) true
  went_on :
      {step : BatchStep} {steps : List BatchStep} {result : BatchStepResult}
      {results : List BatchStepResult} {flag : Bool}
      → result.id ≡ step.id
      → ends_batch continue_on_error result ≡ false
      → Follows continue_on_error steps results flag
      → Follows continue_on_error (step ∷ steps) (result ∷ results) flag

abbrev pub FollowsSteps : Bool → List BatchStep → Progress → Type 0
FollowsSteps continue_on_error steps p =
    Follows continue_on_error steps p.results p.stopped_on_error

-- An invariant that every call of a mounted tool keeps.
module _ {I : World → Type 0}
    (calls : (name : String) (arguments : Fields)
      → Spec I MayRaise Any (call_mounted_tool name arguments)) where
  Spec-called :
      (step : BatchStep) (arguments : Fields) (mounted : Bool)
      → Spec I MayRaise (λ r. r.id ≡ step.id) (step_called step arguments mounted)
  unfolding step_called step_answered
  Spec-called step arguments false = Spec-raise _ tt
  Spec-called step arguments true =
      Spec-bind _ _ (calls step.tool arguments) λ result _.
        Spec-bind {Q = Any} _ _ (Spec-compute _ (λ host. tt)) λ answer _. Spec-pure _ refl

  Spec-body :
      (step : BatchStep) (by_id : List BatchStepResult)
      → Spec I MayRaise (λ r. r.id ≡ step.id) (step_body step by_id)
  unfolding step_body is_mounted_tool
  Spec-body step by_id = Spec-bind {Q = Any} _ _ (Spec-compute _ (λ host. tt)) λ resolved _.
      Spec-bind {Q = Any} _ _ (Spec-lift resolved (Post-Any resolved)) λ arguments _.
        Spec-bind {Q = Any} _ _ (Spec-gets _ (λ w h. tt))
          λ mounted _. Spec-called step arguments mounted

  ended_id :
      (step : BatchStep) (r : Result BatchStepResult)
      → Post MayRaise (λ a. a.id ≡ step.id) r
      → (step_ended step r).id ≡ step.id
  unfolding step_ended
  ended_id step (ok a) h = h
  ended_id step (err e) h = refl

  Spec-run_step :
      (step : BatchStep) (by_id : List BatchStepResult)
      → Spec I Never (λ r. r.id ≡ step.id) (run_step step by_id)
  unfolding run_step
  Spec-run_step step by_id =
      Spec-bind _ _ (Spec-attempt _ (Spec-body step by_id)) λ r h. Spec-pure _ (ended_id step r h)

  pub Spec-run_steps :
      (continue_on_error : Bool) (steps : List BatchStep) (by_id : List BatchStepResult)
      → Spec I Never
          (FollowsSteps continue_on_error steps)
          (run_steps continue_on_error steps by_id)
  unfolding run_steps
  Spec-run_steps c [] by_id = Spec-pure _ finished
  Spec-run_steps c (step ∷ steps) by_id = Spec-bind _ _ (Spec-run_step step by_id) λ result same.
      Spec-if (ends_batch c result) _ _ (λ e. Spec-pure _ (stopped same e))
        λ e.
          Spec-bind _ _ (Spec-run_steps c steps (result ∷ by_id))
            λ rest h. Spec-pure _ (went_on same e h)

abbrev pub step_ids : List BatchStep → List String
step_ids steps = map (λ step. step.id) steps

abbrev pub result_ids : List BatchStepResult → List String
result_ids results = map (λ result. result.id) results

abbrev pub passed : BatchStepResult → Bool
passed result = not result.is_error

-- The answer to an accepted batch, against its steps.
pub record IsRunOf (continue_on_error : Bool) (steps : List BatchStep) (r : BatchRunResult)
    : Type 0 where
  pub in_order : result_ids r.results ≡ take r.completed_steps (step_ids steps)
  pub step_count : r.step_count ≡ length steps
  pub success : r.success ≡ all_of passed r.results
  pub error : is_some r.error ≡ not r.success
  pub stopped : r.stopped_on_error ≡ (not r.success && not continue_on_error)
  pub complete : r.stopped_on_error ≡ false → r.completed_steps ≡ length steps
  pub passed_before :
      continue_on_error ≡ false → all_of passed (take (r.completed_steps - 1) r.results) ≡ true

Follows-in_order :
    {c : Bool} {steps : List BatchStep} {results : List BatchStepResult} {flag : Bool}
    → Follows c steps results flag
    → result_ids results ≡ take (length results) (step_ids steps)
Follows-in_order finished = refl
Follows-in_order (stopped same e) = rw same
Follows-in_order (went_on same e h) = rw (same, Follows-in_order h)

Follows-complete :
    {c : Bool} {steps : List BatchStep} {results : List BatchStepResult} {flag : Bool}
    → Follows c steps results flag
    → flag ≡ false
    → length results ≡ length steps
Follows-complete finished f = refl
Follows-complete (stopped same e) f = cc
Follows-complete (went_on same e h) f = ap suc (Follows-complete h f)

Follows-stopped :
    {c : Bool} {steps : List BatchStep} {results : List BatchStepResult} {flag : Bool}
    → Follows c steps results flag
    → flag ≡ (not (all_of passed results) && not c)
Follows-stopped finished = refl
Follows-stopped (stopped same e) = ground (arith, e)
Follows-stopped (went_on same e h) = ground (arith, e, Follows-stopped h)

Follows-passed :
    {steps : List BatchStep} {results : List BatchStepResult} {flag : Bool}
    → Follows false steps results flag
    → all_of passed (take (length results - 1) results) ≡ true
Follows-passed finished = refl
Follows-passed (stopped same e) = refl
Follows-passed {steps} (went_on {results = []} same e h) = refl
Follows-passed (went_on {results = next ∷ rest} same e h) = ground (arith, Follows-passed h)

first_error-passed :
    (results : List BatchStepResult) → not (is_some (first_error results)) ≡ all_of passed results
first_error-passed [] = refl
first_error-passed (result ∷ results) = ground (arith, first_error-passed results)

step_error-some : (o : Option BatchStepResult) → is_some (step_error o) ≡ is_some o
step_error-some none = refl
step_error-some (some result) = refl

not-not : (b : Bool) → not (not b) ≡ b
not-not true = refl
not-not false = refl

batch_result-IsRunOf :
    (c : Bool) (final_step : Option String) (steps : List BatchStep) (p : Progress)
    → FollowsSteps c steps p
    → IsRunOf c steps (batch_result final_step steps p)
unfolding batch_result
batch_result-IsRunOf c final_step steps p h = record {
  in_order = Follows-in_order h;
  step_count = refl;
  success = first_error-passed p.results;
  error = step_error-some (first_error p.results) ∙ sym (not-not (is_some (first_error p.results)));
  stopped = Follows-stopped h ∙ ap (λ b. not b && not c) (sym (first_error-passed p.results));
  complete = Follows-complete h;
  passed_before =
      λ e. Follows-passed (subst (λ b. Follows b steps p.results p.stopped_on_error) e h);
}

abbrev Everywhere : World → Type 0
Everywhere w = Unit

calls_anywhere :
    (name : String) (arguments : Fields)
    → Spec Everywhere MayRaise Any (call_mounted_tool name arguments)
calls_anywhere name arguments = record { at = λ host w h. (tt, Post-Any _) }

abbrev IsAnswer : Bool → List BatchStep → Result BatchRunResult → Type 0
IsAnswer c steps r = (a : BatchRunResult) × (r ≡ ok a) × IsRunOf c steps a

IsAnswer-of_Post :
    (c : Bool) (steps : List BatchStep) (r : Result BatchRunResult)
    → Post Never (IsRunOf c steps) r
    → IsAnswer c steps r
IsAnswer-of_Post c steps (ok a) h = (a, refl, h)
IsAnswer-of_Post c steps (err e) h = absurd h

checked-IsAnswer :
    (host : Host) (w : World) (c : Bool) (final_step : Option String) (steps : List BatchStep)
    → IsAnswer c steps (batch_checked c final_step steps none host w).0
unfolding batch_checked
checked-IsAnswer host w c final_step steps =
    let spec =
      Spec-bind {I = Everywhere} {E = Never} _ _ (Spec-run_steps calls_anywhere c steps [])
        λ p h. Spec-pure _ (batch_result-IsRunOf c final_step steps p h) in
    IsAnswer-of_Post c steps _ (spec.at host w tt).1

-- A batch of steps with distinct ids answers: its results belong to a first part of the steps, in their
-- order; it succeeds if no result is an error; unless the caller lets it go on, it stops at the first
-- error; and a batch that did not stop ran every step.
pub run_tool_batch-IsRunOf :
    (host : Host) (w : World) (step : BatchStep) (steps : List BatchStep)
    (final_step : Option String) (continue_on_error : Bool)
    → duplicate_id [] (step ∷ steps) ≡ none
    → (a : BatchRunResult) × ((run_tool_batch (step ∷ steps) final_step continue_on_error host w).0
        ≡ ok a)
      × IsRunOf continue_on_error (step ∷ steps) a
unfolding run_tool_batch
run_tool_batch-IsRunOf host w step steps final_step c distinct =
    rw distinct (checked-IsAnswer host w c final_step (step ∷ steps))
