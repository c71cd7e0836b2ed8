-- ===== src/Registry/Refinement.antt =====
-- toolbox/registry.py: `JsonStateStore` against the store it stands for: three maps from namespaces to
-- records, snapshots and previous snapshots. The state file holds them as lists.
use toolbox_mcp.Prelude.{
  String, ◌≡◌, refl, ◌&&◌, Option, none, some, List, [], ◌∷◌, All, arith, if◌then◌else◌, is_some,
  ◌==◌, string_eq, eq_iff,
}
use toolbox_mcp.Models.{ToolsetRecord, SchemaSnapshot, StoredAuditEvent, StateDocument, ok}
use toolbox_mcp.Models.Policy.{IsValidRecord}
use toolbox_mcp.Host.{Host}
use toolbox_mcp.Effects.{World, Exec, mutate, pure, ◌>>=◌}
use toolbox_mcp.Effects.Spec.{IsReady, mutate_lem}
use toolbox_mcp.Registry.{
  written, get_toolset, get_schema_snapshot, get_previous_schema_snapshot, snapshot_name,
  upsert_toolset, delete_toolset, replace_schema_snapshot, delete_schema_snapshot,
  delete_previous_schema_snapshot, append_audit_event, default_audit_retention_limit,
}
use toolbox_mcp.Registry.Lookup.{
  find_by-without_by, without_by_all, get-upsert_toolset, get-delete_toolset,
  get-replace_schema_snapshot,
}
use toolbox_mcp.Registry.WellFormed.{
  IsWellFormed, upsert_toolset-IsWellFormed, delete_toolset-IsWellFormed,
  replace_schema_snapshot-IsWellFormed, delete_schema_snapshot-IsWellFormed,
  delete_previous_schema_snapshot-IsWellFormed, append_audit_event-IsWellFormed,
  written-IsWellFormed,
}

-- The methods that write.
pub data Write : Type 0 where
  upserts : ToolsetRecord → Write
  deletes : String → Write
  replaces : SchemaSnapshot → Write
  deletes_snapshot : String → Write
  deletes_previous : String → Write
  audits : StoredAuditEvent → Write

unfoldable pub after_write : Write → StateDocument → StateDocument
after_write (upserts r) d = (upsert_toolset r d).1
after_write (deletes k) d = (delete_toolset k d).1
after_write (replaces s) d = (replace_schema_snapshot s d).1
after_write (deletes_snapshot k) d = (delete_schema_snapshot k d).1
after_write (deletes_previous k) d = (delete_previous_schema_snapshot k d).1
after_write (audits e) d = (append_audit_event default_audit_retention_limit e d).1

-- A call of the method.
unfoldable pub perform_write : Write → Exec (Unit {0})
perform_write (upserts r) = mutate (upsert_toolset r)
perform_write (deletes k) = mutate (delete_toolset k)
perform_write (replaces s) = mutate (replace_schema_snapshot s)
perform_write (deletes_snapshot k) = mutate (delete_schema_snapshot k)
perform_write (deletes_previous k) = mutate (delete_previous_schema_snapshot k)
perform_write (audits e) = mutate (append_audit_event default_audit_retention_limit e)

unfoldable pub perform_writes : List Write → Exec (Unit {0})
unfolding perform_write
perform_writes [] = pure tt
perform_writes (x ∷ xs) = perform_write x >>= λ _. perform_writes xs

pub record Store : Type 0 where
  pub toolset : String → Option ToolsetRecord
  pub snapshot : String → Option SchemaSnapshot
  pub previous : String → Option SchemaSnapshot

module _ {A : Type 0} where
  -- A map after one of its values was written.
  abbrev pub put : String → Option A → (String → Option A) → String → Option A
  put k o f j = if k == j then o else f j

-- What a write means for the maps.
abbrev pub store_write : Write → Store → Store
store_write (upserts r) a = record a { toolset = put r.namespace (some r) a.toolset }
store_write (deletes k) a = record a { toolset = put k none a.toolset }
store_write (replaces s) a = record a {
  snapshot = put s.namespace (some s) a.snapshot;
  previous = λ j. if s.namespace == j && is_some (a.snapshot j) then a.snapshot j else a.previous j;
}
store_write (deletes_snapshot k) a = record a { snapshot = put k none a.snapshot }
store_write (deletes_previous k) a = record a { previous = put k none a.previous }
store_write (audits e) a = a

abbrev pub store_writes : List Write → Store → Store
store_writes [] a = a
store_writes (x ∷ xs) a = store_writes xs (store_write x a)

-- The document's look-ups are the maps.
pub record Represents (d : StateDocument) (a : Store) : Type 0 where
  pub toolset : (k : String) → get_toolset d k ≡ a.toolset k
  pub snapshot : (k : String) → get_schema_snapshot d k ≡ a.snapshot k
  pub previous : (k : String) → get_previous_schema_snapshot d k ≡ a.previous k

-- A record is validated before it is written.
abbrev pub IsFit : Write → Type 0
IsFit (upserts r) = IsValidRecord r
IsFit _ = Unit

get-delete_schema_snapshot :
    (d : StateDocument) (j k : String)
    → get_schema_snapshot (delete_schema_snapshot j d).1 k
      ≡ (if j == k then none else get_schema_snapshot d k)
unfolding delete_schema_snapshot get_schema_snapshot
get-delete_schema_snapshot d j k = ground (
  arith,
  find_by-without_by snapshot_name k j d.schema_cache,
  without_by_all snapshot_name j d.schema_cache,
  eq_iff j k,
)

get-delete_previous_schema_snapshot :
    (d : StateDocument) (j k : String)
    → get_previous_schema_snapshot (delete_previous_schema_snapshot j d).1 k
      ≡ (if j == k then none else get_previous_schema_snapshot d k)
unfolding delete_previous_schema_snapshot get_previous_schema_snapshot
get-delete_previous_schema_snapshot d j k = ground (
  arith,
  find_by-without_by snapshot_name k j d.previous_schema_cache,
  without_by_all snapshot_name j d.previous_schema_cache,
  eq_iff j k,
)

after_write-Represents :
    (x : Write) (d : StateDocument) (a : Store)
    → Represents d a
    → Represents (written (after_write x d)) (store_write x a)
unfolding after_write upsert_toolset delete_toolset replace_schema_snapshot delete_schema_snapshot
    delete_previous_schema_snapshot append_audit_event get_toolset get_schema_snapshot
    get_previous_schema_snapshot
after_write-Represents (upserts r) d a h = record {
  toolset = λ k. ground (arith, get-upsert_toolset d r k, h.toolset k);
  snapshot = h.snapshot;
  previous = h.previous;
}
after_write-Represents (deletes j) d a h = record {
  toolset = λ k. ground (arith, get-delete_toolset d j k, h.toolset k);
  snapshot = λ k. ground (arith, h.snapshot k);
  previous = λ k. ground (arith, h.previous k);
}
after_write-Represents (replaces s) d a h = record {
  toolset = h.toolset;
  snapshot = λ k. ground (arith, (get-replace_schema_snapshot d s k).0, h.snapshot k);
  previous = λ k. ground (arith, (get-replace_schema_snapshot d s k).1, h.snapshot k, h.previous k);
}
after_write-Represents (deletes_snapshot j) d a h = record {
  toolset = λ k. ground (arith, h.toolset k);
  snapshot = λ k. ground (arith, get-delete_schema_snapshot d j k, h.snapshot k);
  previous = λ k. ground (arith, h.previous k);
}
after_write-Represents (deletes_previous j) d a h = record {
  toolset = λ k. ground (arith, h.toolset k);
  snapshot = λ k. ground (arith, h.snapshot k);
  previous = λ k. ground (arith, get-delete_previous_schema_snapshot d j k, h.previous k);
}
after_write-Represents (audits e) d a h = record {
  toolset = h.toolset;
  snapshot = h.snapshot;
  previous = h.previous;
}

after_write-IsWellFormed :
    (x : Write) (d : StateDocument) → IsFit x → IsWellFormed d → IsWellFormed (after_write x d)
unfolding after_write
after_write-IsWellFormed (upserts r) d v f = upsert_toolset-IsWellFormed d f r v
after_write-IsWellFormed (deletes k) d v f = delete_toolset-IsWellFormed d f k
after_write-IsWellFormed (replaces s) d v f = replace_schema_snapshot-IsWellFormed d f s
after_write-IsWellFormed (deletes_snapshot k) d v f = delete_schema_snapshot-IsWellFormed d f k
after_write-IsWellFormed (deletes_previous k) d v f =
    delete_previous_schema_snapshot-IsWellFormed d f k
after_write-IsWellFormed (audits e) d v f = append_audit_event-IsWellFormed d f e

abbrev stored_after : Write → World → World
stored_after x w = record w { document = written (after_write x w.document) }

perform_write_lem :
    (host : Host) (w : World) (x : Write)
    → IsReady w
    → perform_write x host w ≡ (ok tt, stored_after x w)
unfolding perform_write after_write
perform_write_lem host w (upserts r) f = mutate_lem host w _ f
perform_write_lem host w (deletes k) f = mutate_lem host w _ f
perform_write_lem host w (replaces s) f = mutate_lem host w _ f
perform_write_lem host w (deletes_snapshot k) f = mutate_lem host w _ f
perform_write_lem host w (deletes_previous k) f = mutate_lem host w _ f
perform_write_lem host w (audits e) f = mutate_lem host w _ f

stored_after-IsReady : (w : World) (x : Write) → IsFit x → IsReady w → IsReady (stored_after x w)
stored_after-IsReady w x fit f = record {
  well_formed = written-IsWellFormed _ (after_write-IsWellFormed x w.document fit f.well_formed);
  readable = f.readable;
  writable = f.writable;
}

-- With a state file that can be read and written, and whose well-formed document represents three maps, every
-- sequence of writes of valid records passes the validation at each load, and leaves a document that represents
-- what the writes mean for the maps.
pub perform_writes-Represents :
    (host : Host) (w : World) (xs : List Write) (a : Store)
    → IsReady w
    → All IsFit xs
    → Represents w.document a
    → let out = perform_writes xs host w in
      (out.0 ≡ ok tt) × IsReady out.1 × Represents out.1.document (store_writes xs a)
unfolding perform_writes pure ◌>>=◌
perform_writes-Represents host w [] a f fit h = (refl, f, h)
perform_writes-Represents host w (x ∷ xs) a f fit h = rw (perform_write_lem host w x f) (
    perform_writes-Represents host (stored_after x w) xs (store_write x a)
      (stored_after-IsReady w x fit.0 f) fit.1 (after_write-Represents x w.document a h))
