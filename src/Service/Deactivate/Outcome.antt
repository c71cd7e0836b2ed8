-- ===== src/Service/Deactivate/Outcome.antt =====
-- toolbox/service.py: what a deactivation leaves, on the branches where the scope is loaded.
use toolbox_mcp.Prelude.{
  String, ◌≡◌, refl, ◌∙◌, sym, subst, true, false, not, ◌&&◌, Option, none, some, arith, is_empty,
  contains, nat_beq, if◌then◌else◌, ◌==◌, string_eq,
}
use toolbox_mcp.Json.{Fields, end}
use toolbox_mcp.Models.{Scope, scope_eq, ToolsetRecord, deactivate, failure, inactive, Result, ok}
use toolbox_mcp.Host.{Host}
use toolbox_mcp.Effects.{Runtime, World, pure, gets}
use toolbox_mcp.Registry.{get_toolset}
use toolbox_mcp.Registry.Frame.{SameEntries-append_audit_event}
use toolbox_mcp.Transport.{runtime_in, in_flight_count, in_flight_calls}
use toolbox_mcp.Service.Support.{Report, add_failed, fail_with}
use toolbox_mcp.Service.Steps.{IsSound}
use toolbox_mcp.Service.Steps.Runs.{bind_lem, if_true, if_false, get_record_lem, append_audit_lem}
use toolbox_mcp.Service.Deactivate.{
  in_flight_error, inactive_record, deactivate_counted, deactivate_found, deactivate_one,
}

-- What a look-up of the namespace and of its runtime gives after a handler.
Leaves : {A : Type 0} → Option ToolsetRecord → Option Runtime → String → Result A × World → Type 0
Leaves found runtime ns out =
    (get_toolset out.1.document ns ≡ found) × (runtime_in out.1 ns ≡ runtime)

-- The record once the scope is released.
abbrev settled : ToolsetRecord → ToolsetRecord
settled r = if is_empty r.loaded_scopes then inactive_record r else r

-- What a record `r` is once a scope was released.
pub record IsReleased (scope : Scope) (r released : ToolsetRecord) : Type 0 where
  -- Both lists have what they had, and the scope no more.
  pub loaded :
      (s : Scope)
      → contains released.loaded_scopes s ≡ (contains r.loaded_scopes s && not (s == scope))
  pub recoverable :
      (s : Scope)
      → contains released.recoverable_scopes s
        ≡ (contains r.recoverable_scopes s && not (s == scope))
  -- Without a loaded scope the record is inactive, and has no trace of a failure.
  pub inactive_last :
      is_empty released.loaded_scopes ≡ true
      → (released.transport_state ≡ inactive)
        × (released.stale ≡ false)
        × (released.stale_reason ≡ none)
        × (released.last_error ≡ none)
  -- With one its state is as it was.
  pub kept :
      is_empty released.loaded_scopes ≡ false
      → (released.transport_state ≡ r.transport_state)
        × (released.stale ≡ r.stale)
        × (released.stale_reason ≡ r.stale_reason)
        × (released.last_error ≡ r.last_error)
  -- The rest of the policy and the hash stay.
  pub supported : released.supported_scopes ≡ r.supported_scopes
  pub restorable : released.restorable_scopes ≡ r.restorable_scopes
  pub hash : released.schema_hash ≡ r.schema_hash

-- A deactivation that is not forced and finds a call in flight is refused: its error is in the report, and
-- the record and the runtime of the namespace stay as they were.
pub deactivate_one_busy :
    (host : Host) (ns : String) (scope : Scope) (report : Report Fields) (w : World)
    (r : ToolsetRecord)
    → IsSound w
    → get_toolset w.document ns ≡ some r
    → contains r.loaded_scopes scope ≡ true
    → nat_beq (in_flight_count w ns) 0 ≡ false
    → let out = deactivate_one scope false ns report host w in
      (out.0 ≡ ok (add_failed (in_flight_error ns (in_flight_count w ns)) report))
      × (get_toolset out.1.document ns ≡ some r)
      × (runtime_in out.1 ns ≡ runtime_in w ns)
unfolding deactivate_one deactivate_found deactivate_counted in_flight_calls gets fail_with pure
deactivate_one_busy host ns scope report w r s found loaded busy =
    let n = in_flight_count w ns in
    let error = in_flight_error ns n in
    subst
      (λ out.
        (out.0 ≡ ok (add_failed error report))
        × (get_toolset out.1.document ns ≡ some r)
        × (runtime_in out.1 ns ≡ runtime_in w ns))
      (sym (
        bind_lem host w _ _ (some r) w (get_record_lem host w s ns (some r) found) (
          if_false host w (not (contains r.loaded_scopes scope)) _ _ (ground arith)
          ∙ bind_lem host w (in_flight_calls ns) _ n w refl (
              if_true host w (not (nat_beq n 0) && not false) _ _ (ground arith)
              ∙ bind_lem host w _ _ tt _
                  (append_audit_lem host w s deactivate failure (some ns) (some scope) end
                    (some error))
                  refl))))
      (refl, (SameEntries-append_audit_event ns w.document _).toolset ∙ found, refl)
