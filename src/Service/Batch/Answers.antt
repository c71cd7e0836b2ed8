-- ===== src/Service/Batch/Answers.antt =====
-- toolbox/service.py: the world that `run_tool_batch` leaves, and its answer.
use toolbox_mcp.Prelude.{String, ◌≡◌, refl, ◌∙◌, Bool, Option, none, some, List, [], ◌∷◌}
use toolbox_mcp.Json.{Fields}
use toolbox_mcp.Models.{Result, ok, err}
use toolbox_mcp.Host.{Host}
use toolbox_mcp.Effects.{World}
use toolbox_mcp.Effects.Spec.{Spec, Post, Never, MayRaise, Any, Spec-pure, Spec-bind}
use toolbox_mcp.Transport.{in_flight_count}
use toolbox_mcp.Transport.Rules.{Post-Any}
use toolbox_mcp.Service.Steps.{IsSound}
use toolbox_mcp.Service.Mounted.{call_mounted_tool}
use toolbox_mcp.Service.Mounted.Calls.{call_mounted_tool-IsSound}
use toolbox_mcp.Service.Batch.{BatchStep, BatchRunResult, batch_checked, run_tool_batch}
use toolbox_mcp.Service.Batch.Runs.{Spec-run_steps}

-- A sound world whose counters of calls in flight are those of `start`.
pub record IsBalanced (start w : World) : Type 0 where
  pub sound : IsSound w
  pub counted : (k : String) → in_flight_count w k ≡ in_flight_count start k

module _ {start : World} where
  pub Spec-mounted_call :
      (name : String) (arguments : Fields)
      → Spec (IsBalanced start) MayRaise Any (call_mounted_tool name arguments)
  Spec-mounted_call name arguments = record {
    at = λ host w h. (
      record {
        sound = (call_mounted_tool-IsSound host name arguments w "" h.sound).0;
        counted = λ k. (call_mounted_tool-IsSound host name arguments w k h.sound).1 ∙ h.counted k;
      },
      Post-Any _,
    );
  }

  Spec-checked :
      (c : Bool) (final_step : Option String) (steps : List BatchStep) (o : Option String)
      → Spec (IsBalanced start) Never Any (batch_checked c final_step steps o)
  unfolding batch_checked
  Spec-checked c final_step steps none =
      Spec-bind _ _ (Spec-run_steps Spec-mounted_call c steps []) λ p _. Spec-pure _ tt
  Spec-checked c final_step steps (some step_id) = Spec-pure _ tt

  Spec-batch :
      (steps : List BatchStep) (final_step : Option String) (c : Bool)
      → Spec (IsBalanced start) Never Any (run_tool_batch steps final_step c)
  unfolding run_tool_batch
  Spec-batch [] final_step c = Spec-pure _ tt
  Spec-batch (step ∷ steps) final_step c = Spec-checked c final_step (step ∷ steps) _

answer_of_Post : {A : Type 0} (r : Result A) → Post Never Any r → (a : A) × (r ≡ ok a)
answer_of_Post (ok a) h = (a, refl)
answer_of_Post (err e) h = absurd h

-- From a sound world a batch answers without raising, whatever the servers do, and leaves the world sound
-- and every counter of calls in flight where it was.
pub run_tool_batch-answers :
    (host : Host) (w : World) (steps : List BatchStep) (final_step : Option String)
    (continue_on_error : Bool)
    → IsSound w
    → let out = run_tool_batch steps final_step continue_on_error host w in
      ((a : BatchRunResult) × (out.0 ≡ ok a)) × IsBalanced w out.1
run_tool_batch-answers host w steps final_step c s =
    let start : IsBalanced w w = record { sound = s; counted = λ k. refl } in
    let (kept, answer) = (Spec-batch {start = w} steps final_step c).at host w start in
    (answer_of_Post _ answer, kept)
