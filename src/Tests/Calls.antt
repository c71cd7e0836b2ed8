-- ===== src/Tests/Calls.antt =====
-- The theorems on mounted tools, batches and redaction at concrete inputs: one runtime with one tool, and a
-- server that answers with a text.
use toolbox_mcp.Prelude.{
  String, ◌≡◌, refl, true, false, none, some, [], ◌∷◌, All, contains, string_eq, has_dot,
  split_dots, strip_prefix, sort_by, string_length, eq_iff, subst, arith,
}
use toolbox_mcp.Json.{pos, Json, str, int, obj, Fields, end, field, get_field}
use toolbox_mcp.Models.{ok, then_ok}
use toolbox_mcp.Host.{Host, CallToolResult, text_content, reply}
use toolbox_mcp.Effects.{World}
use toolbox_mcp.Registry.{find_by}
use toolbox_mcp.Registry.Frame.{SameEntries}
use toolbox_mcp.Content.{redacted_fields}
use toolbox_mcp.Content.Redaction.{
  SameFields, leaves, both_end, both_field, int_leaf, str_leaf, redacted_fields_lem,
}
use toolbox_mcp.Validation.{sort_names}
use toolbox_mcp.Transport.{in_flight_count, runtime_in, live_runtime, mounted_in}
use toolbox_mcp.Service.Steps.{IsSound}
use toolbox_mcp.Service.Mounted.{
  mounted_tool, mounted_tool_name, tool_in, resolve_mounted_tool, call_mounted_tool, resolve_in,
  resolve_after, resolved_tool,
}
use toolbox_mcp.Service.Mounted.Calls.{
  calls_into, called_namespace, call_mounted_tool-IsSound, call_mounted_tool-SameEntries,
}
use toolbox_mcp.Service.Mounted.Names.{resolve-mounted_tool_name}
use toolbox_mcp.Service.References.{
  BatchStepResult, resolve_batch_value, is_reference, resolve_reference, extract_batch_reference,
  extract_tokens, extract_from, tokens_of, value_of_step, descend, descend_one,
}
use toolbox_mcp.Service.References.Sources.{references, IsSourced, resolve_batch_value-IsSourced}
use toolbox_mcp.Service.Batch.{BatchStep, BatchRunResult, duplicate_id, run_tool_batch}
use toolbox_mcp.Service.Batch.Runs.{IsRunOf, run_tool_batch-IsRunOf}
use toolbox_mcp.Service.Batch.Answers.{IsBalanced, run_tool_batch-answers}
use toolbox_mcp.Tests.{demo_host, demo_world, demo_world-IsSound, demo_tool}

abbrev pub echoed : CallToolResult
echoed = record {
  content = text_content "hello" ∷ [];
  structured_content = some (field "text" (str "hello") end);
  is_error = false;
}

abbrev pub serving_host : Host
serving_host = record demo_host { call_tool = λ n k t a. reply echoed }

-- The toolset runs.
abbrev pub serving_world : World
serving_world = record demo_world {
  runtimes =
      (
        "demo",
        record { namespace = "demo"; tools = demo_tool ∷ []; closed = false; finished = false },
      )
      ∷ [];
}

pub serving_world-IsSound : IsSound serving_world
serving_world-IsSound = record {
  well_formed = demo_world-IsSound.well_formed;
  readable = demo_world-IsSound.readable;
  writable = demo_world-IsSound.writable;
  runtimes_valid = ((refl, tt), tt);
}

call_mounted_tool-IsSound_example :
    IsSound (call_mounted_tool "demo.echo" end serving_host serving_world).1
    × (in_flight_count (call_mounted_tool "demo.echo" end serving_host serving_world).1 "demo"
        ≡ in_flight_count serving_world "demo")
call_mounted_tool-IsSound_example =
    call_mounted_tool-IsSound serving_host "demo.echo" end serving_world "demo"
      serving_world-IsSound

-- A call of a tool of the toolset does not come to another namespace.
other_not_called : calls_into serving_world "demo.echo" "other" ≡ false
unfolding calls_into called_namespace resolve_mounted_tool resolve_in resolve_after resolved_tool
    tool_in live_runtime find_by strip_prefix sort_by sort_names string_length mounted_in
other_not_called = refl

call_mounted_tool-SameEntries_example :
    SameEntries "other" serving_world.document
      (call_mounted_tool "demo.echo" end serving_host serving_world).1.document
    × (runtime_in (call_mounted_tool "demo.echo" end serving_host serving_world).1 "other"
        ≡ runtime_in serving_world "other")
call_mounted_tool-SameEntries_example =
    call_mounted_tool-SameEntries serving_host "demo.echo" end serving_world "other"
      serving_world-IsSound other_not_called

demo_no_dots : (n : String) → contains (mounted_in serving_world) n ≡ true → has_dot n ≡ false
unfolding mounted_in sort_names sort_by has_dot
demo_no_dots n h =
    let same : "demo" ≡ n = ground (arith, eq_iff "demo" n) in
    subst (λ k. has_dot k ≡ false) same refl

demo_mounted : contains (mounted_in serving_world) "demo" ≡ true
unfolding mounted_in sort_names sort_by
demo_mounted = refl

demo_tool_found : tool_in (live_runtime serving_world "demo") demo_tool.name ≡ some demo_tool
unfolding tool_in live_runtime find_by
demo_tool_found = refl

resolve-mounted_tool_name_example :
    resolve_mounted_tool serving_world (mounted_tool_name "demo" demo_tool.name)
    ≡ some (mounted_tool "demo" (mounted_tool_name "demo" demo_tool.name) demo_tool)
resolve-mounted_tool_name_example =
    resolve-mounted_tool_name serving_world "demo" demo_tool demo_no_dots demo_mounted
      demo_tool_found

abbrev first_step : BatchStep
first_step = record { id = "a"; tool = "demo.echo"; arguments = end }

-- A step that uses the result of the first one.
abbrev second_step : BatchStep
second_step = record {
  id = "b";
  tool = "demo.echo";
  arguments = field "text" (obj (field "$from" (str "a.text") end)) end;
}

demo_ids_distinct : duplicate_id [] (first_step ∷ second_step ∷ []) ≡ none
unfolding duplicate_id
demo_ids_distinct = refl

run_tool_batch-answers_example :
    ((a : BatchRunResult) × ((run_tool_batch
          (first_step ∷ second_step ∷ [])
          none
          false
          serving_host
          serving_world).0
        ≡ ok a))
    × IsBalanced serving_world
        (run_tool_batch (first_step ∷ second_step ∷ []) none false serving_host serving_world).1
run_tool_batch-answers_example =
    run_tool_batch-answers serving_host serving_world (first_step ∷ second_step ∷ []) none false
      serving_world-IsSound

run_tool_batch-IsRunOf_example :
    (a : BatchRunResult) × ((run_tool_batch
        (first_step ∷ second_step ∷ [])
        none
        false
        serving_host
        serving_world).0
      ≡ ok a)
    × IsRunOf false (first_step ∷ second_step ∷ []) a
run_tool_batch-IsRunOf_example =
    run_tool_batch-IsRunOf serving_host serving_world first_step (second_step ∷ []) none false
      demo_ids_distinct

-- The result of the first step.
abbrev first_result : BatchStepResult
first_result = record {
  id = "a";
  tool = "demo.echo";
  resolved_arguments = end;
  data_value = obj (field "text" (str "hello") end);
  text = some "hello";
  is_error = false;
  error_message = none;
}

demo_resolved :
    resolve_batch_value serving_host (first_result ∷ []) (obj second_step.arguments)
    ≡ ok (obj (field "text" (str "hello") end))
unfolding resolve_batch_value is_reference resolve_reference extract_batch_reference extract_tokens
    extract_from tokens_of value_of_step descend descend_one then_ok split_dots get_field
demo_resolved = refl

resolve_batch_value-IsSourced_example :
    All (IsSourced (first_result ∷ [])) (references (obj second_step.arguments))
resolve_batch_value-IsSourced_example =
    resolve_batch_value-IsSourced serving_host (first_result ∷ []) (obj second_step.arguments)
      (obj (field "text" (str "hello") end)) demo_resolved

abbrev secret : Json → Fields
secret v = field "token" v end

redacted_fields_lem_example :
    SameFields (redacted_fields (secret (str "s3cret"))) (secret (str "s3cret"))
    × (redacted_fields (secret (str "s3cret")) ≡ redacted_fields (secret (int (pos 7))))
redacted_fields_lem_example =
    redacted_fields_lem (secret (str "s3cret")) (secret (int (pos 7)))
      (both_field "token" (leaves (str_leaf "s3cret") (int_leaf (pos 7))) both_end)
