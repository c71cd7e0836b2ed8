-- ===== src/Transport.antt =====
-- toolbox/transport_manager.py: the table of live runtimes, the requests that go through it, and the
-- counters of calls in flight. What the runtime's task does between a request and its answer is the host's
-- reply; a timed out request aborts the runtime.
pub mod InFlight
pub mod Rules
use Prim.Native.String.{◌++◌ as append}
use toolbox_mcp.Prelude.{
  ℕ, ◌+◌, ◌-◌, String, ◌≡◌, Bool, true, false, not, ◌&&◌, Option, none, some, List, [], ◌∷◌, map,
  if◌then◌else◌, ◌==◌, string_eq, filter_by, text_of, IsDistinct,
}
use toolbox_mcp.Json.{Fields}
use toolbox_mcp.Models.{
  Tool, ToolSchema, ToolsetRecord, Exception, timeout_error, other_error, Result, ok, err,
}
use toolbox_mcp.Validation.{tool_names, sort_names, validate_tool_inventory}
use toolbox_mcp.Registry.{find_by, upsert_by, without_by}
use toolbox_mcp.Host.{Host, Reply, reply, failed, CallToolResult}
use toolbox_mcp.Effects.{
  Runtime, World, Exec, pure, raise, gets, ask, compute, lift, modify, ◌>>=◌, ◌>>◌,
}

abbrev pub entry_name {ℓ} : {V : Type ℓ} → String × V → String
entry_name (name, _) = name

abbrev entry_value {ℓ} : {V : Type ℓ} → String × V → V
entry_value (_, value) = value

-- `ManagedToolsetRuntime.is_running`.
abbrev pub is_running : Runtime → Bool
is_running runtime = not runtime.finished && not runtime.closed

-- After `close` and `_abort` the runtime is closed, and its task is drained.
abbrev pub stopped : Runtime → Runtime
stopped runtime = record runtime { closed = true; finished = true }

-- A runtime in the table has an inventory without repeated names.
abbrev pub IsValidRuntime : Runtime → Type 0
IsValidRuntime runtime = IsDistinct (tool_names runtime.tools)

abbrev pub IsValidEntry : String × Runtime → Type 0
IsValidEntry (_, runtime) = IsValidRuntime runtime

abbrev pub stored_runtime : Option (String × Runtime) → Option Runtime
stored_runtime none = none
stored_runtime (some (_, runtime)) = some runtime

-- `self._runtimes.get(namespace)`.
abbrev pub runtime_in : World → String → Option Runtime
runtime_in w namespace = stored_runtime (find_by entry_name namespace w.runtimes)

abbrev running : Option Runtime → Option Runtime
running none = none
running (some runtime) = if is_running runtime then some runtime else none

unfoldable pub live_runtime : World → String → Option Runtime
unfolding find_by
live_runtime w namespace = running (runtime_in w namespace)

unfoldable pub runtime_for : String → Exec (Option Runtime)
unfolding live_runtime
runtime_for namespace = gets (λ w. live_runtime w namespace)

abbrev connected_in : Option Runtime → Bool
connected_in none = false
connected_in (some runtime) = is_running runtime

unfoldable pub has_connection : String → Exec Bool
has_connection namespace = gets (λ w. connected_in (runtime_in w namespace))

unfoldable pub mounted_in : World → List String
mounted_in w =
    sort_names (map entry_name (filter_by (λ entry. is_running (entry_value entry)) w.runtimes))

pub mounted_namespaces : Exec (List String)
unfolding mounted_in
mounted_namespaces = gets mounted_in

-- The default timeouts of `TransportManager`, as the messages print them.
abbrev bootstrap_timeout : String
bootstrap_timeout = "10.00"

abbrev call_timeout : String
call_timeout = "30.00"

abbrev health_timeout : String
health_timeout = "5.00"

new_runtime : ToolsetRecord → List Tool → Runtime
new_runtime r tools = record {
  namespace = r.namespace;
  tools = tools;
  closed = false;
  finished = false;
}

-- The bootstrap of `_runtime_actor`: the tools, and their inventory if it is valid.
bootstrapped : ToolsetRecord → Reply (List Tool) → Exec (Runtime × List ToolSchema)
unfolding new_runtime
bootstrapped r (reply tools) = do
  inventory ← compute (λ host. validate_tool_inventory host r.namespace tools)
  normalized ← lift inventory
  pure (new_runtime r tools, normalized)
bootstrapped r (failed (timeout_error _)) = raise (
    timeout_error (
      text_of (
        "Timed out bootstrapping managed runtime for " ∷ r.namespace ∷ " after " ∷ bootstrap_timeout
        ∷ "s" ∷ [])))
bootstrapped r (failed (other_error message)) = raise (other_error message)

unfoldable pub open_runtime : ToolsetRecord → Exec (Runtime × List ToolSchema)
unfolding bootstrapped
open_runtime r = do answer ← ask (λ host n. host.bootstrap n r); bootstrapped r answer

retire : Option Runtime → List Runtime → List Runtime
retire none retired = retired
retire (some runtime) retired = stopped runtime ∷ retired

-- The table after `self._runtimes[namespace] = runtime`; the runtime that stood there is closed.
unfoldable pub with_runtime : String → Runtime → World → World
unfolding upsert_by find_by retire
with_runtime namespace runtime w = record w {
  runtimes = upsert_by entry_name (namespace, runtime) w.runtimes;
  retired = retire (runtime_in w namespace) w.retired;
}

-- A `close` that times out aborts the task; another error is raised again.
unfoldable pub close_answered : Reply (Unit {0}) → Exec (Unit {0})
close_answered (reply _) = pure tt
close_answered (failed (timeout_error _)) = pure tt
close_answered (failed (other_error message)) = raise (other_error message)

-- `ManagedToolsetRuntime.close`, of a runtime that left the table. The task is drained however it ends.
unfoldable pub close_runtime : Option Runtime → Exec (Unit {0})
unfolding close_answered
close_runtime none = pure tt
close_runtime (some runtime) =
    if is_running runtime
    then (ask (λ host n. host.close n runtime.namespace) >>= close_answered)
    else pure tt

unfoldable pub swap_runtime : String → Runtime → Exec (Unit {0})
unfolding with_runtime
swap_runtime namespace runtime = do
  existing ← gets (λ w. runtime_in w namespace)
  modify (with_runtime namespace runtime)
  close_runtime existing

-- The table after `self._runtimes.pop(namespace, None)`.
unfoldable pub without_runtime : String → World → World
unfolding without_by find_by retire
without_runtime namespace w = record w {
  runtimes = without_by entry_name namespace w.runtimes;
  retired = retire (runtime_in w namespace) w.retired;
}

abbrev pub is_present : Option Runtime → Bool
is_present none = false
is_present (some _) = true

unfoldable pub disconnect : String → Exec Bool
unfolding without_runtime close_runtime
disconnect namespace = do
  existing ← gets (λ w. runtime_in w namespace)
  modify (without_runtime namespace)
  close_runtime existing
  pure (is_present existing)

-- The close of the runtime of a namespace does not fail.
abbrev pub Closes : Host → World → String → Type 0
Closes host w namespace =
    (close_runtime (runtime_in w namespace) host (without_runtime namespace w)).0 ≡ ok tt

-- `_abort` on the runtime object that the table holds.
unfoldable pub with_aborted : String → Runtime → World → World
unfolding upsert_by
with_aborted namespace runtime w = record w {
  runtimes = upsert_by entry_name (namespace, stopped runtime) w.runtimes;
}

-- `ManagedToolsetRuntime.call_tool`, once the reply is there.
call_answered : String → Runtime → String → Reply CallToolResult → Exec CallToolResult
unfolding with_aborted
call_answered namespace runtime tool_name (reply result) = pure result
call_answered namespace runtime tool_name (failed (timeout_error _)) = do
  modify (with_aborted namespace runtime)
  raise (
      timeout_error (
        text_of (
          "Mounted tool call timed out for " ∷ runtime.namespace ∷ "." ∷ tool_name ∷ " after "
          ∷ call_timeout ∷ "s" ∷ [])))
call_answered namespace runtime tool_name (failed (other_error message)) =
    raise (other_error message)

not_connected {ℓ} : {A : Type ℓ} → String → Result A
not_connected namespace =
    err (other_error (text_of ("Toolset " ∷ namespace ∷ " is not connected" ∷ [])))

call_runtime : String → String → Fields → Option Runtime → Exec CallToolResult
unfolding call_answered not_connected
call_runtime namespace tool_name arguments none = lift (not_connected namespace)
call_runtime namespace tool_name arguments (some runtime) = do
  answer ← ask (λ host n. host.call_tool n runtime.namespace tool_name arguments)
  call_answered namespace runtime tool_name answer

unfoldable pub call_tool : String → String → Fields → Exec CallToolResult
unfolding call_runtime
call_tool namespace tool_name arguments = do
  runtime ← runtime_for namespace
  call_runtime namespace tool_name arguments runtime

-- `ManagedToolsetRuntime.probe`, once the reply is there: the normalized tools of `RuntimeProbe`.
probe_answered : String → Runtime → Reply (List Tool) → Exec (List ToolSchema)
unfolding with_aborted
probe_answered namespace runtime (reply tools) = do
  inventory ← compute (λ host. validate_tool_inventory host runtime.namespace tools)
  lift inventory
probe_answered namespace runtime (failed (timeout_error _)) = do
  modify (with_aborted namespace runtime)
  raise (
      timeout_error (
        text_of (
          "Health check timed out for " ∷ runtime.namespace ∷ " after " ∷ health_timeout ∷ "s"
          ∷ [])))
probe_answered namespace runtime (failed (other_error message)) = raise (other_error message)

probe_of : String → Option Runtime → Exec (List ToolSchema)
unfolding probe_answered not_connected
probe_of namespace none = lift (not_connected namespace)
probe_of namespace (some runtime) = do
  answer ← ask (λ host n. host.list_tools n runtime.namespace)
  probe_answered namespace runtime answer

unfoldable pub probe_runtime : String → Exec (List ToolSchema)
unfolding probe_of
probe_runtime namespace = do runtime ← runtime_for namespace; probe_of namespace runtime

-- `_in_flight` is a `defaultdict(int)`.
abbrev count_in : Option (String × ℕ) → ℕ
count_in none = 0
count_in (some (_, n)) = n

unfoldable pub in_flight_count : World → String → ℕ
unfolding find_by
in_flight_count w namespace = count_in (find_by entry_name namespace w.in_flight)

unfoldable pub in_flight_calls : String → Exec ℕ
unfolding in_flight_count
in_flight_calls namespace = gets (λ w. in_flight_count w namespace)

unfoldable pub with_count : String → ℕ → World → World
unfolding upsert_by
with_count namespace n w = record w { in_flight = upsert_by entry_name (namespace, n) w.in_flight }

pub note_call_started : String → Exec (Unit {0})
unfolding with_count in_flight_count
note_call_started namespace = modify (λ w. with_count namespace (in_flight_count w namespace + 1) w)

-- `max(0, n - 1)` is the truncated subtraction.
pub note_call_finished : String → Exec (Unit {0})
unfolding with_count in_flight_count
note_call_finished namespace =
    modify (λ w. with_count namespace (in_flight_count w namespace - 1) w)

disconnect_each : List String → Exec (Unit {0})
disconnect_each [] = pure tt
disconnect_each (namespace ∷ rest) = disconnect namespace >> disconnect_each rest

-- `TransportManager.shutdown`.
pub shutdown : Exec (Unit {0})
unfolding disconnect_each
shutdown = do namespaces ← gets (λ w. map entry_name w.runtimes); disconnect_each namespaces
