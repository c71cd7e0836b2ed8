-- ===== src/Service/Steps.antt =====
-- toolbox/service.py: what a handler may do to the world on behalf of one namespace, as a step relation.
-- `Reach` is any number of such steps.
pub mod Rules
pub mod Frame
pub mod Visits
pub mod Runs
use toolbox_mcp.Prelude.{
  ℕ, suc, String, ◌≡◌, Option, none, some, List, [], ◌∷◌, All, IsDistinct, string_eq,
}
use toolbox_mcp.Models.{ToolsetRecord, SchemaSnapshot, StoredAuditEvent, StateDocument}
use toolbox_mcp.Models.Policy.{IsValidRecord}
use toolbox_mcp.Registry.{
  written, upsert_toolset, delete_toolset, replace_schema_snapshot, delete_schema_snapshot,
  delete_previous_schema_snapshot, append_audit_event, default_audit_retention_limit,
}
use toolbox_mcp.Registry.WellFormed.{
  IsWellFormed, upsert_toolset-IsWellFormed, delete_toolset-IsWellFormed,
  replace_schema_snapshot-IsWellFormed, delete_schema_snapshot-IsWellFormed,
  delete_previous_schema_snapshot-IsWellFormed, append_audit_event-IsWellFormed,
  written-IsWellFormed,
}
use toolbox_mcp.Registry.Lookup.{All-upsert_by, All-without_by}
use toolbox_mcp.Effects.{Runtime, World}
use toolbox_mcp.Effects.Spec.{IsReady}
use toolbox_mcp.Transport.{
  entry_name, with_runtime, without_runtime, with_aborted, stopped, IsValidRuntime, IsValidEntry,
}

-- What holds of the world between two operations of the service.
pub record IsSound (w : World) : Type 0 where
  pub well_formed : IsWellFormed w.document
  -- The state file can be read and written.
  pub readable : w.unreadable ≡ none
  pub writable : w.unwritable ≡ none
  pub runtimes_valid : All IsValidEntry w.runtimes

pub ready : {w : World} → IsSound w → IsReady w
ready s = record { well_formed = s.well_formed; readable = s.readable; writable = s.writable }

-- The world after a write of the registry.
abbrev pub after {ℓ} : {A : Type ℓ} → (StateDocument → A × StateDocument) → World → World
after fn w = record w { document = written (fn w.document).1 }

pub data Step (ns : String) : World → World → Type 0 where
  asked : (w : World) → Step ns w (record w { interactions = suc w.interactions })
  saved :
      (w : World) (r : ToolsetRecord)
      → r.namespace ≡ ns
      → IsValidRecord r
      → Step ns w (after (upsert_toolset r) w)
  cached :
      (w : World) (s : SchemaSnapshot)
      → s.namespace ≡ ns
      → Step ns w (after (replace_schema_snapshot s) w)
  dropped_record : (w : World) → Step ns w (after (delete_toolset ns) w)
  dropped_snapshot : (w : World) → Step ns w (after (delete_schema_snapshot ns) w)
  dropped_previous : (w : World) → Step ns w (after (delete_previous_schema_snapshot ns) w)
  audited :
      (w : World) (e : StoredAuditEvent)
      → e.namespace ≡ some ns
      → Step ns w (after (append_audit_event default_audit_retention_limit e) w)
  -- An event that names no namespace.
  audited_unnamed :
      (w : World) (e : StoredAuditEvent)
      → e.namespace ≡ none
      → Step ns w (after (append_audit_event default_audit_retention_limit e) w)
  mounted :
      (w : World) (runtime : Runtime)
      → IsValidRuntime runtime
      → Step ns w (with_runtime ns runtime w)
  unmounted : (w : World) → Step ns w (without_runtime ns w)
  aborted :
      (w : World) (runtime : Runtime)
      → IsValidRuntime runtime
      → Step ns w (with_aborted ns runtime w)

pub data Reach (ns : String) (w : World) : World → Type 0 where
  here : Reach ns w w
  next : {u v : World} → Reach ns w u → Step ns u v → Reach ns w v

with_document-IsSound :
    (w : World) (d : StateDocument)
    → IsWellFormed d
    → IsSound w
    → IsSound (record w { document = written d })
with_document-IsSound w d f s = record {
  well_formed = written-IsWellFormed d f;
  readable = s.readable;
  writable = s.writable;
  runtimes_valid = s.runtimes_valid;
}

pub Step-IsSound : {ns : String} {w v : World} → Step ns w v → IsSound w → IsSound v
unfolding with_runtime without_runtime with_aborted
Step-IsSound (asked w) s = record {
  well_formed = s.well_formed;
  readable = s.readable;
  writable = s.writable;
  runtimes_valid = s.runtimes_valid;
}
Step-IsSound (saved w r same v) s =
    with_document-IsSound w _ (upsert_toolset-IsWellFormed w.document s.well_formed r v) s
Step-IsSound (cached w snapshot same) s =
    with_document-IsSound w _
      (replace_schema_snapshot-IsWellFormed w.document s.well_formed snapshot) s
Step-IsSound {ns} (dropped_record w) s =
    with_document-IsSound w _ (delete_toolset-IsWellFormed w.document s.well_formed ns) s
Step-IsSound {ns} (dropped_snapshot w) s =
    with_document-IsSound w _ (delete_schema_snapshot-IsWellFormed w.document s.well_formed ns) s
Step-IsSound {ns} (dropped_previous w) s =
    with_document-IsSound w _
      (delete_previous_schema_snapshot-IsWellFormed w.document s.well_formed ns) s
Step-IsSound (audited w e same) s =
    with_document-IsSound w _ (append_audit_event-IsWellFormed w.document s.well_formed e) s
Step-IsSound (audited_unnamed w e same) s =
    with_document-IsSound w _ (append_audit_event-IsWellFormed w.document s.well_formed e) s
Step-IsSound {ns} (mounted w runtime valid) s = record {
  well_formed = s.well_formed;
  readable = s.readable;
  writable = s.writable;
  runtimes_valid =
      All-upsert_by IsValidEntry entry_name (ns, runtime) w.runtimes valid s.runtimes_valid;
}
Step-IsSound {ns} (unmounted w) s = record {
  well_formed = s.well_formed;
  readable = s.readable;
  writable = s.writable;
  runtimes_valid = All-without_by IsValidEntry entry_name ns w.runtimes s.runtimes_valid;
}
Step-IsSound {ns} (aborted w runtime valid) s = record {
  well_formed = s.well_formed;
  readable = s.readable;
  writable = s.writable;
  runtimes_valid =
      All-upsert_by IsValidEntry entry_name (ns, stopped runtime) w.runtimes valid s.runtimes_valid;
}

-- Soundness holds wherever the steps of a namespace lead.
pub Reach-IsSound : {ns : String} {w v : World} → IsSound w → Reach ns w v → IsSound v
Reach-IsSound s here = s
Reach-IsSound s (next r st) = Step-IsSound st (Reach-IsSound s r)
