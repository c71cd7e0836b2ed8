-- ===== src/Registry/Frame.antt =====
-- toolbox/registry.py: what each write leaves as it was for the other namespaces.
use toolbox_mcp.Prelude.{String, ◌≡◌, refl, false, none, arith, ◌==◌, string_eq, eq_refl}
use toolbox_mcp.Models.{ToolsetRecord, SchemaSnapshot, StoredAuditEvent, StateDocument}
use toolbox_mcp.Registry.{
  written, get_toolset, get_schema_snapshot, get_previous_schema_snapshot, snapshot_name,
  upsert_toolset, delete_toolset, replace_schema_snapshot, delete_schema_snapshot,
  delete_previous_schema_snapshot, append_audit_event, default_audit_retention_limit,
}
use toolbox_mcp.Registry.Lookup.{
  find_by-without_by, without_by_all, get-upsert_toolset, get-delete_toolset,
  get-replace_schema_snapshot,
}

-- What a document holds of a namespace.
pub record SameEntries (k : String) (d e : StateDocument) : Type 0 where
  pub toolset : get_toolset e k ≡ get_toolset d k
  pub snapshot : get_schema_snapshot e k ≡ get_schema_snapshot d k
  pub previous : get_previous_schema_snapshot e k ≡ get_previous_schema_snapshot d k

pub unchanged : (k : String) (d : StateDocument) → SameEntries k d d
unchanged k d = record { toolset = refl; snapshot = refl; previous = refl }

module _ (k : String) (d : StateDocument) where
  pub SameEntries-upsert_toolset :
      (r : ToolsetRecord)
      → (r.namespace == k) ≡ false
      → SameEntries k d (written (upsert_toolset r d).1)
  unfolding upsert_toolset get_toolset get_schema_snapshot get_previous_schema_snapshot
  SameEntries-upsert_toolset r other = record {
    toolset = ground (arith, get-upsert_toolset d r k);
    snapshot = refl;
    previous = refl;
  }

  pub SameEntries-delete_toolset :
      (j : String) → (j == k) ≡ false → SameEntries k d (written (delete_toolset j d).1)
  unfolding delete_toolset get_toolset get_schema_snapshot get_previous_schema_snapshot
  SameEntries-delete_toolset j other = record {
    toolset = ground (arith, get-delete_toolset d j k);
    snapshot = ground arith;
    previous = ground arith;
  }

  pub SameEntries-replace_schema_snapshot :
      (s : SchemaSnapshot)
      → (s.namespace == k) ≡ false
      → SameEntries k d (written (replace_schema_snapshot s d).1)
  unfolding replace_schema_snapshot get_toolset get_schema_snapshot get_previous_schema_snapshot
  SameEntries-replace_schema_snapshot s other = record {
    toolset = refl;
    snapshot = ground (arith, (get-replace_schema_snapshot d s k).0);
    previous = ground (arith, (get-replace_schema_snapshot d s k).1);
  }

  pub SameEntries-delete_schema_snapshot :
      (j : String) → (j == k) ≡ false → SameEntries k d (written (delete_schema_snapshot j d).1)
  unfolding delete_schema_snapshot get_toolset get_schema_snapshot get_previous_schema_snapshot
  SameEntries-delete_schema_snapshot j other = record {
    toolset = ground arith;
    snapshot = ground (arith, find_by-without_by snapshot_name k j d.schema_cache);
    previous = ground arith;
  }

  pub SameEntries-delete_previous_schema_snapshot :
      (j : String)
      → (j == k) ≡ false
      → SameEntries k d (written (delete_previous_schema_snapshot j d).1)
  unfolding delete_previous_schema_snapshot get_toolset get_schema_snapshot
      get_previous_schema_snapshot
  SameEntries-delete_previous_schema_snapshot j other = record {
    toolset = ground arith;
    snapshot = ground arith;
    previous = ground (arith, find_by-without_by snapshot_name k j d.previous_schema_cache);
  }

  pub SameEntries-append_audit_event :
      (e : StoredAuditEvent)
      → SameEntries k d (written (append_audit_event default_audit_retention_limit e d).1)
  unfolding append_audit_event get_toolset get_schema_snapshot get_previous_schema_snapshot
  SameEntries-append_audit_event e = record { toolset = refl; snapshot = refl; previous = refl }

-- What a document holds of a namespace after each of the three deletions of its own entries.
module _ (j : String) (d : StateDocument) where
  pub delete_schema_snapshot_lem :
      get_schema_snapshot (written (delete_schema_snapshot j d).1) j ≡ none
  unfolding delete_schema_snapshot get_schema_snapshot
  delete_schema_snapshot_lem = ground (
    arith,
    find_by-without_by snapshot_name j j d.schema_cache,
    without_by_all snapshot_name j d.schema_cache,
    eq_refl j,
  )

  pub delete_previous_schema_snapshot_lem :
      (get_previous_schema_snapshot (written (delete_previous_schema_snapshot j d).1) j ≡ none)
      × (get_schema_snapshot (written (delete_previous_schema_snapshot j d).1) j
          ≡ get_schema_snapshot d j)
  unfolding delete_previous_schema_snapshot get_previous_schema_snapshot get_schema_snapshot
  delete_previous_schema_snapshot_lem = (
    ground (
      arith,
      find_by-without_by snapshot_name j j d.previous_schema_cache,
      without_by_all snapshot_name j d.previous_schema_cache,
      eq_refl j,
    ),
    ground arith,
  )

  pub delete_toolset_lem :
      (get_toolset (written (delete_toolset j d).1) j ≡ none)
      × (get_schema_snapshot (written (delete_toolset j d).1) j ≡ get_schema_snapshot d j)
      × (get_previous_schema_snapshot (written (delete_toolset j d).1) j
          ≡ get_previous_schema_snapshot d j)
  unfolding delete_toolset get_toolset get_schema_snapshot get_previous_schema_snapshot
  delete_toolset_lem =
      (ground (arith, get-delete_toolset d j j, eq_refl j), ground arith, ground arith)
