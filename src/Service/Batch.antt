-- ===== src/Service/Batch.antt =====
-- toolbox/service.py: `run_tool_batch`. The `try` statement of a step is an attempt, whose exception
-- becomes a result that is an error.
pub mod Runs
pub mod Answers
use toolbox_mcp.Prelude.{
  ℕ, String, Bool, true, false, ◌&&◌, not, Option, none, some, List, [], ◌∷◌, if◌then◌else◌, ◌==◌,
  string_eq, contains, find_first, length, last?, is_some, text_of,
}
use toolbox_mcp.Json.{Json, null, str, obj, Fields, end, field}
use toolbox_mcp.Models.{ErrorInfo, Exception, other_error, str_of, Result, ok, err, then_ok}
use toolbox_mcp.Host.{Host, CallToolResult}
use toolbox_mcp.Content.{redacted_fields, joined_text_content}
use toolbox_mcp.Effects.{Exec, pure, raise, compute, lift, attempt, ◌>>=◌}
use toolbox_mcp.Service.Support.{error_info}
use toolbox_mcp.Service.Mounted.{is_mounted_tool, call_mounted_tool}
use toolbox_mcp.Service.References.{BatchStepResult, result_of, resolve_batch_value}

-- toolbox/models.py: `BatchStep`.
pub record BatchStep : Type 0 where
  pub id : String
  pub tool : String
  pub arguments : Fields

-- toolbox/models.py: `BatchRunResult`.
pub record BatchRunResult : Type 0 where
  pub success : Bool
  pub error : Option ErrorInfo
  pub step_count : ℕ
  pub completed_steps : ℕ
  pub stopped_on_error : Bool
  pub final_step : Option String
  pub final_data : Json
  pub final_text : Option String
  pub results : List BatchStepResult

abbrev parsed_or_text : String → Option Json → Json
parsed_or_text text none = str text
parsed_or_text text (some value) = value

abbrev normalized : Host → Option Fields → Option String → Json
normalized host (some fields) text = obj fields
normalized host none none = null
normalized host none (some text) = parsed_or_text text (host.loads text)

-- `_normalize_call_result`.
unfoldable pub normalize_call_result : Host → CallToolResult → Json × Option String
unfolding joined_text_content
normalize_call_result host result =
    let text = joined_text_content result in (normalized host result.structured_content text, text)

-- `_error_text_from_result`.
unfoldable pub error_text_from_result : CallToolResult → Option String
unfolding joined_text_content
error_text_from_result result = if not result.is_error then none else joined_text_content result

abbrev object_or_error : String → Json → Result Fields
object_or_error step_id (obj fields) = ok fields
object_or_error step_id _ = err (
    other_error
      (text_of ("Batch step arguments must resolve to an object for step " ∷ step_id ∷ [])))

unfoldable pub resolved_arguments : BatchStep → List BatchStepResult → Host → Result Fields
unfolding resolve_batch_value then_ok
resolved_arguments step results host =
    then_ok (resolve_batch_value host results (obj step.arguments)) (object_or_error step.id)

unfoldable pub step_answered : BatchStep → Fields → CallToolResult → Exec BatchStepResult
unfolding normalize_call_result error_text_from_result redacted_fields
step_answered step arguments result = do
  answer ← compute (λ host. normalize_call_result host result)
  pure (record {
    id = step.id;
    tool = step.tool;
    resolved_arguments = redacted_fields arguments;
    data_value = answer.0;
    text = answer.1;
    is_error = result.is_error;
    error_message = error_text_from_result result;
  })

unfoldable pub step_called : BatchStep → Fields → Bool → Exec BatchStepResult
unfolding step_answered
step_called step arguments false = raise (
    other_error
      (text_of ("Batch step " ∷ step.id ∷ " references unknown mounted tool: " ∷ step.tool ∷ [])))
step_called step arguments true = do
  result ← call_mounted_tool step.tool arguments
  step_answered step arguments result

-- The body of the `try`.
unfoldable pub step_body : BatchStep → List BatchStepResult → Exec BatchStepResult
unfolding step_called resolved_arguments
step_body step results = do
  resolved ← compute (resolved_arguments step results)
  arguments ← lift resolved
  mounted ← is_mounted_tool step.tool
  step_called step arguments mounted

-- The `except` branch.
unfoldable pub step_ended : BatchStep → Result BatchStepResult → BatchStepResult
step_ended step (ok result) = result
step_ended step (err e) = record {
  id = step.id;
  tool = step.tool;
  resolved_arguments = end;
  data_value = null;
  text = none;
  is_error = true;
  error_message = some (str_of e);
}

unfoldable pub run_step : BatchStep → List BatchStepResult → Exec BatchStepResult
unfolding step_body step_ended
run_step step results = do
  outcome ← attempt (step_body step results)
  pure (step_ended step outcome)

-- What the loop leaves: `results`, `results_by_id` and `stopped_on_error`.
pub record Progress : Type 0 where
  pub results : List BatchStepResult
  pub by_id : List BatchStepResult
  pub stopped_on_error : Bool

abbrev pub ends_batch : Bool → BatchStepResult → Bool
ends_batch continue_on_error result = result.is_error && not continue_on_error

abbrev pub with_result : BatchStepResult → Progress → Progress
with_result result rest = record rest { results = result ∷ rest.results }

-- The loop over the steps.
unfoldable pub run_steps : Bool → List BatchStep → List BatchStepResult → Exec Progress
unfolding run_step
run_steps continue_on_error [] by_id =
    pure (record { results = []; by_id = by_id; stopped_on_error = false })
run_steps continue_on_error (step ∷ steps) by_id = do
  result ← run_step step by_id
  if ends_batch continue_on_error result
      then pure (record { results = result ∷ []; by_id = result ∷ by_id; stopped_on_error = true })
      else run_steps continue_on_error steps (result ∷ by_id) >>= λ rest.
          pure (with_result result rest)

-- The first id that stands twice.
unfoldable pub duplicate_id : List String → List BatchStep → Option String
duplicate_id seen [] = none
duplicate_id seen (step ∷ steps) =
    let later = duplicate_id (step.id ∷ seen) steps in
    if contains seen step.id then some step.id else later

-- A text that is true in a condition: neither `None` nor empty.
abbrev pub truthy_text : Option String → Option String
truthy_text none = none
truthy_text (some text) = if text == "" then none else some text

abbrev or_text : Option String → Option String → Option String
or_text none other = other
or_text (some text) other = some text

abbrev id_of : Option BatchStepResult → Option String
id_of none = none
id_of (some result) = some result.id

unfoldable pub selected_step : Option String → List BatchStepResult → Option String
selected_step final_step results = or_text (truthy_text final_step) (id_of (last? results))

abbrev selected_in : List BatchStepResult → Option String → Option BatchStepResult
selected_in by_id none = none
selected_in by_id (some step_id) = result_of by_id step_id

abbrev data_of : Option BatchStepResult → Json
data_of none = null
data_of (some result) = result.data_value

abbrev text_in : Option BatchStepResult → Option String
text_in none = none
text_in (some result) = result.text

abbrev message_or_unknown : Option String → String
message_or_unknown none = "unknown error"
message_or_unknown (some text) = text

abbrev pub step_error : Option BatchStepResult → Option ErrorInfo
step_error none = none
step_error (some result) = some (
    error_info "step_failed"
      (text_of (
        "Batch step "
        ∷ result.id
        ∷ " failed: "
        ∷ message_or_unknown (truthy_text result.error_message)
        ∷ []))
      none false (some (field "step_id" (str result.id) (field "tool" (str result.tool) end))))

abbrev pub first_error : List BatchStepResult → Option BatchStepResult
first_error results = find_first (λ result. result.is_error) results

unfoldable pub batch_result : Option String → List BatchStep → Progress → BatchRunResult
unfolding selected_step
batch_result final_step steps progress =
    let selected = selected_step final_step progress.results in
    let result = selected_in progress.by_id (truthy_text selected) in
    record {
      success = not (is_some (first_error progress.results));
      error = step_error (first_error progress.results);
      step_count = length steps;
      completed_steps = length progress.results;
      stopped_on_error = progress.stopped_on_error;
      final_step = selected;
      final_data = data_of result;
      final_text = text_in result;
      results = progress.results;
    }

unfoldable pub invalid_batch : ℕ → String → Option Fields → BatchRunResult
invalid_batch step_count message details = record {
  success = false;
  error = some (error_info "invalid_batch" message none false details);
  step_count = step_count;
  completed_steps = 0;
  stopped_on_error = false;
  final_step = none;
  final_data = null;
  final_text = none;
  results = [];
}

unfoldable pub batch_checked :
    Bool → Option String → List BatchStep → Option String → Exec BatchRunResult
unfolding invalid_batch batch_result run_steps
batch_checked continue_on_error final_step steps (some step_id) = pure (
    invalid_batch (length steps) (text_of ("Duplicate batch step id: " ∷ step_id ∷ []))
      (some (field "step_id" (str step_id) end)))
batch_checked continue_on_error final_step steps none = do
  progress ← run_steps continue_on_error steps []
  pure (batch_result final_step steps progress)

-- `run_tool_batch`.
unfoldable pub run_tool_batch : List BatchStep → Option String → Bool → Exec BatchRunResult
unfolding batch_checked invalid_batch duplicate_id
run_tool_batch [] final_step continue_on_error =
    pure (invalid_batch 0 "run_tool_batch requires at least one step" none)
run_tool_batch (step ∷ steps) final_step continue_on_error =
    batch_checked continue_on_error final_step (step ∷ steps) (duplicate_id [] (step ∷ steps))
