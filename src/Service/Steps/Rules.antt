-- ===== src/Service/Steps/Rules.antt =====
-- toolbox/service.py: the rules for the helpers that the handlers share, with the invariant that the world
-- is sound and was reached by steps of one namespace.
use toolbox_mcp.Prelude.{String, ◌≡◌, refl, Option, none, some, List, ◌==◌, string_eq}
use toolbox_mcp.Json.{Fields, end}
use toolbox_mcp.Models.{
  Scope, ToolSchema, ToolsetRecord, SchemaSnapshot, StateDocument, AuditOperation, AuditOutcome,
  failure, ErrorInfo, Exception,
}
use toolbox_mcp.Models.Policy.{IsValidRecord}
use toolbox_mcp.Registry.{
  get_toolset, record_name, upsert_toolset, replace_schema_snapshot, delete_toolset,
  delete_schema_snapshot, delete_previous_schema_snapshot,
}
use toolbox_mcp.Registry.WellFormed.{IsWellFormed, get_toolset-IsValidRecord}
use toolbox_mcp.Registry.Lookup.{name_of_find_by}
use toolbox_mcp.Effects.{Runtime, World, pure, load, mutate, utc_now}
use toolbox_mcp.Effects.Spec.{
  Spec, MayRaise, Any, Spec-pure, Spec-raise, Spec-bind, Spec-mutate, Spec-ask, Spec-compute,
  Spec-modify, Spec-gets, Spec-load, Spec-if,
}
use toolbox_mcp.Transport.{
  runtime_for, open_runtime, swap_runtime, close_runtime, disconnect, has_connection,
  in_flight_calls, probe_runtime, IsValidRuntime,
}
use toolbox_mcp.Transport
use toolbox_mcp.Transport.Rules
use toolbox_mcp.Transport.Rules.{MountedAs, Spec-runtime_for, Spec-open_runtime, Spec-probe_runtime}
use toolbox_mcp.Service.Support.{
  Report, get_record, save_record, save_snapshot, append_audit, new_event, fail_with,
  build_snapshot, open_and_mount, hash_or_runtime, runtime_hash, failure_recorded,
  record_runtime_failure,
}
use toolbox_mcp.Service.Steps.{
  ready, IsSound, Step, asked, saved, cached, dropped_record, dropped_snapshot, dropped_previous,
  audited, audited_unnamed, mounted, unmounted, aborted, Reach, next, Step-IsSound,
}

-- The invariant of a handler's body that started at `start`.
pub record From (ns : String) (start : World) (w : World) : Type 0 where
  pub sound : IsSound w
  pub reached : Reach ns start w

pub From-Step : {ns : String} {start w v : World} → Step ns w v → From ns start w → From ns start v
From-Step st f = record { sound = Step-IsSound st f.sound; reached = next f.reached st }

-- What a look-up of `k` gives: no record, or a valid record of that namespace.
abbrev pub FoundAs : String → Option ToolsetRecord → Type 0
FoundAs k none = Unit
FoundAs k (some r) = (r.namespace ≡ k) × IsValidRecord r

pub FoundAs-get :
    (ns : String) (d : StateDocument) (o : Option ToolsetRecord)
    → IsWellFormed d
    → get_toolset d ns ≡ o
    → FoundAs ns o
unfolding get_toolset
FoundAs-get ns d none f e = tt
FoundAs-get ns d (some r) f e =
    (name_of_find_by record_name ns d.toolsets r e, get_toolset-IsValidRecord d ns f e)

module _ {ns : String} {start : World} {E : Exception → Type 0} where
  pub Spec-get_record : Spec (From ns start) E (FoundAs ns) (get_record ns)
  unfolding get_record
  Spec-get_record =
      Spec-bind _ _ (Spec-load (λ w h. ready h.sound))
        λ d f. Spec-pure _ (FoundAs-get ns d _ f refl)

  pub Spec-save_record :
      (r : ToolsetRecord)
      → r.namespace ≡ ns
      → IsValidRecord r
      → Spec (From ns start) E Any (save_record r)
  unfolding save_record
  Spec-save_record r same v =
      Spec-mutate (upsert_toolset r) (λ w h. ready h.sound) (λ w h. From-Step (saved w r same v) h)

  pub Spec-save_snapshot :
      (s : SchemaSnapshot) → s.namespace ≡ ns → Spec (From ns start) E Any (save_snapshot s)
  unfolding save_snapshot
  Spec-save_snapshot s same =
      Spec-mutate (replace_schema_snapshot s) (λ w h. ready h.sound)
        (λ w h. From-Step (cached w s same) h)

  pub Spec-utc_now : Spec (From ns start) E Any utc_now
  unfolding utc_now
  Spec-utc_now = Spec-ask _ (λ w h. From-Step (asked w) h) (λ host n. tt)

  pub Spec-append_audit :
      (operation : AuditOperation) (outcome : AuditOutcome) (scope : Option Scope)
      (details : Fields) (error : Option ErrorInfo)
      → Spec (From ns start) E Any (append_audit operation outcome (some ns) scope details error)
  unfolding append_audit
  Spec-append_audit operation outcome scope details error = Spec-bind _ _ Spec-utc_now λ now _.
      Spec-mutate _ (λ w h. ready h.sound)
        (λ w h.
          From-Step (audited w (new_event now operation outcome (some ns) scope details error) refl)
            h)

  pub Spec-audit_unnamed :
      (operation : AuditOperation) (outcome : AuditOutcome) (scope : Option Scope)
      (details : Fields) (error : Option ErrorInfo)
      → Spec (From ns start) E Any (append_audit operation outcome none scope details error)
  unfolding append_audit
  Spec-audit_unnamed operation outcome scope details error = Spec-bind _ _ Spec-utc_now λ now _.
      Spec-mutate _ (λ w h. ready h.sound)
        (λ w h.
          From-Step
            (audited_unnamed w (new_event now operation outcome none scope details error) refl) h)

  pub Spec-fail_with :
      {A : Type 0} (operation : AuditOperation) (scope : Option Scope) (error : ErrorInfo)
      (report : Report A)
      → Spec (From ns start) E Any (fail_with operation ns scope error report)
  unfolding fail_with
  Spec-fail_with operation scope error report =
      Spec-bind _ _ (Spec-append_audit operation failure scope end (some error))
        λ _ _. Spec-pure _ tt

  pub Spec-build_snapshot :
      (tools : List ToolSchema)
      → Spec (From ns start) E (λ s. s.namespace ≡ ns) (build_snapshot ns tools)
  unfolding build_snapshot
  Spec-build_snapshot tools =
      Spec-bind {Q = Any} _ _ (Spec-compute _ (λ host. tt))
        λ hash _. Spec-bind _ _ Spec-utc_now λ now _. Spec-pure _ refl

  pub Spec-runtime_found : Spec (From ns start) E MountedAs (runtime_for ns)
  Spec-runtime_found =
      Spec-runtime_for (λ w h. From-Step (asked w) h) ns (λ w h. h.sound.runtimes_valid)
        (λ w runtime v h. From-Step (aborted w runtime v) h)

  pub Spec-has_connection : Spec (From ns start) E Any (has_connection ns)
  unfolding has_connection
  Spec-has_connection = Spec-gets _ λ w h. tt

  pub Spec-in_flight_calls : Spec (From ns start) E Any (in_flight_calls ns)
  unfolding in_flight_calls
  Spec-in_flight_calls = Spec-gets _ λ w h. tt

  pub Spec-load_document : Spec (From ns start) E IsWellFormed load
  Spec-load_document = Spec-load λ w h. ready h.sound

  pub Spec-drop_record : Spec (From ns start) E Any (mutate (delete_toolset ns))
  Spec-drop_record = Spec-mutate _ (λ w h. ready h.sound) (λ w h. From-Step (dropped_record w) h)

  pub Spec-drop_snapshot : Spec (From ns start) E Any (mutate (delete_schema_snapshot ns))
  Spec-drop_snapshot =
      Spec-mutate _ (λ w h. ready h.sound) (λ w h. From-Step (dropped_snapshot w) h)

  pub Spec-drop_previous : Spec (From ns start) E Any (mutate (delete_previous_schema_snapshot ns))
  Spec-drop_previous =
      Spec-mutate _ (λ w h. ready h.sound) (λ w h. From-Step (dropped_previous w) h)

  Spec-failure_recorded :
      (code message stale_reason : String) (details : Option Fields) (o : Option ToolsetRecord)
      → FoundAs ns o
      → Spec (From ns start) E Any (failure_recorded ns code message stale_reason details o)
  unfolding failure_recorded
  Spec-failure_recorded code message stale_reason details none q = Spec-pure _ tt
  Spec-failure_recorded code message stale_reason details (some r) (same, v) =
      Spec-bind _ _ Spec-has_connection
        λ is_connected _. Spec-bind _ _ (Spec-save_record _ same v) λ _ _. Spec-pure _ tt

  pub Spec-record_runtime_failure :
      (code message stale_reason : String) (details : Option Fields)
      → Spec (From ns start) E Any (record_runtime_failure ns code message stale_reason details)
  unfolding record_runtime_failure
  Spec-record_runtime_failure code message stale_reason details =
      Spec-bind _ _ Spec-get_record
        λ o q. Spec-failure_recorded code message stale_reason details o q

module _ {ns : String} {start : World} where
  Spec-close : (o : Option Runtime) → Spec (From ns start) MayRaise Any (close_runtime o)
  Spec-close o = Rules.Spec-close_runtime (λ w h. From-Step (asked w) h) o

  pub Spec-swap_runtime :
      (runtime : Runtime)
      → IsValidRuntime runtime
      → Spec (From ns start) MayRaise Any (swap_runtime ns runtime)
  unfolding swap_runtime
  Spec-swap_runtime runtime v = Spec-bind {Q = Any} _ _ (Spec-gets _ (λ w h. tt)) λ existing _.
      Spec-bind _ _ (Spec-modify _ (λ w h. From-Step (mounted w runtime v) h))
        λ _ _. Spec-close existing

  pub Spec-disconnect : Spec (From ns start) MayRaise Any (disconnect ns)
  unfolding disconnect
  Spec-disconnect = Spec-bind {Q = Any} _ _ (Spec-gets _ (λ w h. tt)) λ existing _.
      Spec-bind _ _ (Spec-modify _ (λ w h. From-Step (unmounted w) h))
        λ _ _. Spec-bind _ _ (Spec-close existing) λ _ _. Spec-pure _ tt

  -- The hash of a record is answered; that of a runtime is an error of the code.
  pub Spec-hash_or_runtime :
      (runtime : Runtime) (hash : Option String)
      → Spec (From ns start) MayRaise Any (hash_or_runtime ns runtime hash)
  unfolding hash_or_runtime runtime_hash
  Spec-hash_or_runtime runtime none = Spec-raise _ tt
  Spec-hash_or_runtime runtime (some hash) =
      Spec-if (hash == "") (runtime_hash ns runtime) (pure hash) (λ _. Spec-raise _ tt)
        (λ _. Spec-pure hash tt)

  pub Spec-open :
      (r : ToolsetRecord)
      → Spec (From ns start) MayRaise (λ opened. IsValidRuntime opened.0) (open_runtime r)
  Spec-open r = Spec-open_runtime (λ w h. From-Step (asked w) h) r

  pub Spec-probe : Spec (From ns start) MayRaise Any (probe_runtime ns)
  Spec-probe =
      Spec-probe_runtime (λ w h. From-Step (asked w) h) ns (λ w h. h.sound.runtimes_valid)
        (λ w runtime v h. From-Step (aborted w runtime v) h)

  pub Spec-call_tool :
      (tool_name : String) (arguments : Fields)
      → Spec (From ns start) MayRaise Any (Transport.call_tool ns tool_name arguments)
  Spec-call_tool tool_name arguments =
      Rules.Spec-call_tool (λ w h. From-Step (asked w) h) ns (λ w h. h.sound.runtimes_valid)
        (λ w runtime v h. From-Step (aborted w runtime v) h) tool_name arguments

  pub Spec-open_and_mount :
      (r : ToolsetRecord)
      → Spec (From ns start) MayRaise (λ s. s.namespace ≡ ns) (open_and_mount ns r)
  unfolding open_and_mount
  Spec-open_and_mount r = Spec-bind _ _ (Spec-open r) λ opened v.
      Spec-bind _ _ (Spec-build_snapshot opened.1)
        λ snapshot same. Spec-bind _ _ (Spec-swap_runtime opened.0 v) λ _ _. Spec-pure snapshot same
