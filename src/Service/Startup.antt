-- ===== src/Service/Startup.antt =====
-- toolbox/service.py: `_reconcile_scope_state_on_startup`. No runtime outlives the process, so the
-- method unloads every scope and keeps what may be restored as recoverable.
pub mod Steps
use toolbox_mcp.Prelude.{
  Bool, true, false, not, ◌||◌, List, [], ◌∷◌, if◌then◌else◌, ◌==◌, is_empty, contains, filter_by,
}
use toolbox_mcp.Models.{
  Scope, scope_eq, ToolsetRecord, TransportState, inactive, connecting, connected, degraded,
  stale_state, failed_state,
}
use toolbox_mcp.Effects.{Exec, pure, ◌>>=◌, ◌>>◌}
use toolbox_mcp.Service.Support.{load_all_records, save_record}

-- The scopes that stay, or become, recoverable.
abbrev pub reconciled_scopes : ToolsetRecord → List Scope
reconciled_scopes r =
    if is_empty r.recoverable_scopes
    then filter_by (contains r.restorable_scopes) r.loaded_scopes
    else r.recoverable_scopes

scopes_beq : List Scope → List Scope → Bool
scopes_beq [] [] = true
scopes_beq (x ∷ xs) (y ∷ ys) = if x == y then scopes_beq xs ys else false
scopes_beq _ _ = false

abbrev is_inactive : TransportState → Bool
is_inactive inactive = true
is_inactive _ = false

unfoldable pub reconciled : ToolsetRecord → ToolsetRecord
reconciled r = record r {
  recoverable_scopes = reconciled_scopes r;
  loaded_scopes = [];
  transport_state = inactive;
}

unfoldable pub is_changed : ToolsetRecord → Bool
unfolding scopes_beq
is_changed r =
    not (scopes_beq r.recoverable_scopes (reconciled_scopes r))
    || (not (is_empty r.loaded_scopes) || not (is_inactive r.transport_state))

reconcile_each : List ToolsetRecord → Exec (Unit {0})
unfolding reconciled is_changed
reconcile_each [] = pure tt
reconcile_each (r ∷ rs) =
    (if is_changed r then save_record (reconciled r) else pure tt) >> reconcile_each rs

pub reconcile_scope_state_on_startup : Exec (Unit {0})
unfolding reconcile_each
reconcile_scope_state_on_startup = do records ← load_all_records; reconcile_each records
