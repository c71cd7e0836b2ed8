-- ===== src/Service/Unregister/Outcome.antt =====
-- toolbox/service.py: what an unregistration leaves.
use toolbox_mcp.Prelude.{
  String, ◌≡◌, refl, ◌∙◌, sym, subst, true, false, not, ◌&&◌, Option, none, some, arith, is_empty,
  nat_beq,
}
use toolbox_mcp.Json.{Fields, end}
use toolbox_mcp.Models.{ToolsetRecord, unregister, failure, Result, ok}
use toolbox_mcp.Host.{Host}
use toolbox_mcp.Effects.{Runtime, World, pure, gets}
use toolbox_mcp.Registry.{get_toolset, get_schema_snapshot, get_previous_schema_snapshot}
use toolbox_mcp.Registry.Frame.{SameEntries-append_audit_event}
use toolbox_mcp.Transport.{runtime_in, in_flight_count, in_flight_calls}
use toolbox_mcp.Service.Support.{Report, add_failed, fail_with}
use toolbox_mcp.Service.Steps.{IsSound}
use toolbox_mcp.Service.Steps.Runs.{bind_lem, if_true, if_false, get_record_lem, append_audit_lem}
use toolbox_mcp.Service.Unregister.{
  active_error, in_flight_error, unregister_counted, unregister_found, unregister_one,
}

-- The namespace has no entry in the document, and its runtime is the given one.
abbrev Gone : {A : Type 0} → String → Option Runtime → Result A × World → Type 0
Gone ns runtime out =
    (get_toolset out.1.document ns ≡ none)
    × (get_schema_snapshot out.1.document ns ≡ none)
    × (get_previous_schema_snapshot out.1.document ns ≡ none)
    × (runtime_in out.1 ns ≡ runtime)

-- An unregistration that is not forced is refused while scopes are loaded: its error is in the report, and
-- the record and the runtime stay as they were.
pub unregister_one_active :
    (host : Host) (ns : String) (report : Report Fields) (w : World) (r : ToolsetRecord)
    → IsSound w
    → get_toolset w.document ns ≡ some r
    → is_empty r.loaded_scopes ≡ false
    → let out = unregister_one false ns report host w in
      (out.0 ≡ ok (add_failed (active_error ns r) report))
      × (get_toolset out.1.document ns ≡ some r)
      × (runtime_in out.1 ns ≡ runtime_in w ns)
unfolding unregister_one unregister_found unregister_counted in_flight_calls gets fail_with pure
unregister_one_active host ns report w r s found loaded =
    let n = in_flight_count w ns in
    let error = active_error ns r in
    let active = not (is_empty r.loaded_scopes) in
    let audited =
      bind_lem host w _ (λ _. pure (add_failed error report)) tt _
        (append_audit_lem host w s unregister failure (some ns) none end (some error)) refl in
    subst
      (λ out.
        (out.0 ≡ ok (add_failed error report))
        × (get_toolset out.1.document ns ≡ some r)
        × (runtime_in out.1 ns ≡ runtime_in w ns))
      (sym (
        bind_lem host w _ _ (some r) w (get_record_lem host w s ns (some r) found)
          (if_true host w (active && not false) _ _ (ground arith) ∙ audited)))
      (refl, (SameEntries-append_audit_event ns w.document _).toolset ∙ found, refl)

-- A forced unregistration of a toolset with loaded scopes is refused while a call is in flight: its error is
-- in the report, and the record and the runtime stay as they were.
pub unregister_one_busy :
    (host : Host) (ns : String) (report : Report Fields) (w : World) (r : ToolsetRecord)
    → IsSound w
    → get_toolset w.document ns ≡ some r
    → is_empty r.loaded_scopes ≡ false
    → nat_beq (in_flight_count w ns) 0 ≡ false
    → let out = unregister_one true ns report host w in
      (out.0 ≡ ok (add_failed (in_flight_error ns (in_flight_count w ns)) report))
      × (get_toolset out.1.document ns ≡ some r)
      × (runtime_in out.1 ns ≡ runtime_in w ns)
unfolding unregister_one unregister_found unregister_counted in_flight_calls gets fail_with pure
unregister_one_busy host ns report w r s found loaded busy =
    let n = in_flight_count w ns in
    let error = in_flight_error ns n in
    let active = not (is_empty r.loaded_scopes) in
    let audited =
      bind_lem host w _ (λ _. pure (add_failed error report)) tt _
        (append_audit_lem host w s unregister failure (some ns) none end (some error)) refl in
    subst
      (λ out.
        (out.0 ≡ ok (add_failed error report))
        × (get_toolset out.1.document ns ≡ some r)
        × (runtime_in out.1 ns ≡ runtime_in w ns))
      (sym (
        bind_lem host w _ _ (some r) w (get_record_lem host w s ns (some r) found) (
          if_false host w (active && not true) _ _ (ground arith)
          ∙ (if_true host w (active && true) _ _ (ground arith)
              ∙ bind_lem host w (in_flight_calls ns) _ n w refl
                  (if_true host w (not (nat_beq n 0)) _ _ (ground arith) ∙ audited)))))
      (refl, (SameEntries-append_audit_event ns w.document _).toolset ∙ found, refl)
