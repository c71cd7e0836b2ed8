-- ===== src/Service/Steps/Runs.antt =====
-- toolbox/service.py: what the shared helpers return, and the world they leave, from a sound world.
use toolbox_mcp.Prelude.{suc, String, ◌≡◌, refl, Bool, true, false, Option, if◌then◌else◌}
use toolbox_mcp.Json.{Fields}
use toolbox_mcp.Models.{Scope, ToolsetRecord, AuditOperation, AuditOutcome, ErrorInfo, Result, ok}
use toolbox_mcp.Registry.{
  get_toolset, upsert_toolset, append_audit_event, default_audit_retention_limit,
}
use toolbox_mcp.Host.{Host}
use toolbox_mcp.Effects.{World, Exec, load, ◌>>=◌, pure, ask, utc_now}
use toolbox_mcp.Effects.Spec.{mutate_lem, load_lem}
use toolbox_mcp.Service.Support.{get_record, save_record, append_audit, new_event}
use toolbox_mcp.Transport.{runtime_in, without_runtime}
use toolbox_mcp.Transport.Rules.{closed_world, close_runtime-keeps}
use toolbox_mcp.Service.Steps.{ready, unmounted, asked, Step-IsSound, IsSound, after}

module _ {A : Type 0} (host : Host) (w : World) where
  pub bind_lem :
      {B : Type 0} (m : Exec A) (f : A → Exec B) (a : A) (v : World) {x : Result B × World}
      → m host w ≡ (ok a, v)
      → f a host v ≡ x
      → (m >>= f) host w ≡ x
  unfolding ◌>>=◌
  bind_lem m f a v h k = rw h k

  pub if_true : (b : Bool) (m n : Exec A) → b ≡ true → (if b then m else n) host w ≡ m host w
  if_true true m n h = refl
  if_true false m n h = cc

  pub if_false : (b : Bool) (m n : Exec A) → b ≡ false → (if b then m else n) host w ≡ n host w
  if_false true m n h = cc
  if_false false m n h = refl

module _ (host : Host) (w : World) (s : IsSound w) where
  pub get_record_lem :
      (ns : String) (o : Option ToolsetRecord)
      → get_toolset w.document ns ≡ o
      → get_record ns host w ≡ (ok o, w)
  unfolding get_record pure
  get_record_lem ns o e = bind_lem host w load _ w.document w (load_lem host w (ready s)) (cc e)

  pub save_record_lem :
      (r : ToolsetRecord) → save_record r host w ≡ (ok tt, after (upsert_toolset r) w)
  unfolding save_record
  save_record_lem r = mutate_lem host w (upsert_toolset r) (ready s)

  -- The world after an event was audited.
  abbrev pub audited_world :
      AuditOperation
      → AuditOutcome
      → Option String
      → Option Scope
      → Fields
      → Option ErrorInfo
      → World
  audited_world operation outcome namespace scope details error =
      after
        (append_audit_event default_audit_retention_limit
          (new_event (host.clock w.interactions) operation outcome namespace scope details error))
        (record w { interactions = suc w.interactions })

  pub append_audit_lem :
      (operation : AuditOperation) (outcome : AuditOutcome) (namespace : Option String)
      (scope : Option Scope) (details : Fields) (error : Option ErrorInfo)
      → append_audit operation outcome namespace scope details error host w
        ≡ (ok tt, audited_world operation outcome namespace scope details error)
  unfolding append_audit utc_now ask
  append_audit_lem operation outcome namespace scope details error =
      bind_lem host w utc_now _ (host.clock w.interactions)
        (record w { interactions = suc w.interactions }) refl
        (mutate_lem host (record w { interactions = suc w.interactions }) _
          (ready (Step-IsSound {ns = ""} (asked w) s)))

module _ (host : Host) (w : World) (ns : String) where
  pub closed_world-IsSound : IsSound w → IsSound (closed_world host w ns)
  closed_world-IsSound s =
      let t = Step-IsSound {ns = ns} (unmounted w) s in
      close_runtime-keeps host w ns IsSound (runtime_in w ns) (without_runtime ns w) t
        (Step-IsSound {ns = ns} (asked _) t)
