-- ===== src/Service/Register/Outcome.antt =====
-- toolbox/service.py: what `register_toolset` answers and stores.
use toolbox_mcp.Prelude.{
  ◌≡◌, refl, ◌∙◌, sym, subst, ap, true, Option, none, some, eq_iff, string_eq,
}
use toolbox_mcp.Json.{end}
use toolbox_mcp.Models.{ToolsetTransport, ToolsetRecord, register, failure, Result, ok}
use toolbox_mcp.Host.{Host}
use toolbox_mcp.Effects.{World, pure, compute}
use toolbox_mcp.Registry.{get_toolset, upsert_toolset}
use toolbox_mcp.Registry.Lookup.{get-upsert_toolset}
use toolbox_mcp.Registry.Frame.{SameEntries-append_audit_event}
use toolbox_mcp.Service.Steps.{IsSound, after, saved, Step-IsSound}
use toolbox_mcp.Service.Steps.Runs.{bind_lem, get_record_lem, save_record_lem, append_audit_lem}
use toolbox_mcp.Service.Register.Steps.{build_record-IsValidRecord}
use toolbox_mcp.Service.Register.{
  Registration, RegisterResponse, registered_of, rejected, toolset_exists, is_valid_namespace,
  build_record, reject, register_built, register_absent, register_transport, register_named,
  register_toolset,
}

compute_lem :
    {A : Type 0} (host : Host) (w : World) (f : Host → A) (a : A)
    → f host ≡ a
    → compute f host w ≡ (ok a, w)
unfolding compute
compute_lem host w f a e = cc e

module _ (host : Host) (request : Registration) (w : World) (t : ToolsetTransport) where
  -- The run up to the look-up of the namespace.
  found_lem :
      (o : Option ToolsetRecord)
      → IsSound w
      → is_valid_namespace host request.namespace ≡ true
      → host.transport_of request.transport ≡ ok t
      → get_toolset w.document request.namespace ≡ o
      → register_toolset request host w ≡ register_absent request t o host w
  unfolding register_toolset register_named register_transport
  found_lem o s valid parsed found = bind_lem host w _ _ true w (compute_lem host w _ true valid) (
      bind_lem host w _ _ (ok t) w (compute_lem host w _ (ok t) parsed)
        (bind_lem host w _ _ o w (get_record_lem host w s request.namespace o found) refl))

-- A registration under a valid and unused namespace, with a transport and a scope policy that are accepted,
-- answers with the new record, and a look-up of the namespace finds it.
pub register_toolset_stored :
    (host : Host) (request : Registration) (w : World) (t : ToolsetTransport) (r : ToolsetRecord)
    → IsSound w
    → is_valid_namespace host request.namespace ≡ true
    → host.transport_of request.transport ≡ ok t
    → get_toolset w.document request.namespace ≡ none
    → build_record request t ≡ ok r
    → let out = register_toolset request host w in
      (out.0 ≡ ok (record { registered = some (registered_of r); error = none }))
      × (get_toolset out.1.document request.namespace ≡ some r)
unfolding register_absent register_built pure get_toolset
register_toolset_stored host request w t r s valid parsed absent built =
    let ns = request.namespace in
    let (same, v) = build_record-IsValidRecord request t r built in
    let w1 = after (upsert_toolset r) w in
    let s1 = Step-IsSound {ns = ns} (saved w r same v) s in
    let answered = λ (out : Result RegisterResponse × World).
      (out.0 ≡ ok (record { registered = some (registered_of r); error = none }))
      × (get_toolset out.1.document ns ≡ some r) in
    subst answered
      (sym (
        found_lem host request w t none s valid parsed absent
        ∙ (ap (λ o. register_built ns o host w) built
            ∙ bind_lem host w _ _ tt w1 (save_record_lem host w s r)
                (bind_lem host w1 _ _ tt _ (append_audit_lem host w1 s1 _ _ _ _ _ _) refl))))
      (
        refl,
        (SameEntries-append_audit_event ns w1.document _).toolset
            ∙ (get-upsert_toolset w.document r ns ∙ rw ((eq_iff r.namespace ns).1 same)),
      )

-- A registration under a namespace that is in use answers with an error, and a look-up of the namespace
-- still finds the record that was there.
pub register_toolset_exists :
    (host : Host) (request : Registration) (w : World) (t : ToolsetTransport) (r : ToolsetRecord)
    → IsSound w
    → is_valid_namespace host request.namespace ≡ true
    → host.transport_of request.transport ≡ ok t
    → get_toolset w.document request.namespace ≡ some r
    → let out = register_toolset request host w in
      (out.0 ≡ ok (rejected (toolset_exists request.namespace)))
      × (get_toolset out.1.document request.namespace ≡ some r)
unfolding register_absent reject pure
register_toolset_exists host request w t r s valid parsed found =
    let ns = request.namespace in
    let error = toolset_exists ns in
    subst
      (λ (out : Result RegisterResponse × World).
        (out.0 ≡ ok (rejected error)) × (get_toolset out.1.document ns ≡ some r))
      (sym (
        found_lem host request w t (some r) s valid parsed found
        ∙ bind_lem host w _ _ tt _
            (append_audit_lem host w s register failure (some ns) none end (some error)) refl))
      (refl, (SameEntries-append_audit_event ns w.document _).toolset ∙ found)
