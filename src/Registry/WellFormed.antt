-- ===== src/Registry/WellFormed.antt =====
-- toolbox/registry.py: the invariant of the state document, and the writes of the registry.
use toolbox_mcp.Prelude.{
  ◌≤◌, String, ◌≡◌, refl, Option, none, some, List, [], ◌∷◌, map, arith, All, IsDistinct, length,
  string_eq, nat_beq, Bool-cases, inl, inr,
}
use toolbox_mcp.Models.{
  ToolsetRecord, SchemaSnapshot, StoredAuditEvent, StateDocument, default_document, ok,
}
use toolbox_mcp.Models.Policy.{IsValidRecord, validate_scope_policy_of_IsValidRecord}
use toolbox_mcp.Registry.{
  default_audit_retention_limit, validate_records, load_document, without_by, written, record_name,
  snapshot_name, get_toolset, upsert_toolset, delete_toolset, replace_schema_snapshot,
  keep_previous, find_by, delete_schema_snapshot, delete_previous_schema_snapshot,
  append_audit_event,
}
use toolbox_mcp.Registry.Lookup.{
  upsert_by-IsDistinct, without_by-IsDistinct, All-upsert_by, All-without_by, All-find_by,
}
use toolbox_mcp.Registry.Audit.{IsNumbered, append_audit_event-IsNumbered}

pub record IsWellFormed (d : StateDocument) : Type 0 where
  pub current_version : d.version ≡ 2
  pub records_valid : All IsValidRecord d.toolsets
  pub records_distinct : IsDistinct (map record_name d.toolsets)
  pub cache_distinct : IsDistinct (map snapshot_name d.schema_cache)
  pub previous_distinct : IsDistinct (map snapshot_name d.previous_schema_cache)
  pub audit_numbered : IsNumbered d.next_audit_sequence d.audit_log
  pub audit_bounded : length d.audit_log ≤ default_audit_retention_limit

pub default_document-IsWellFormed : IsWellFormed default_document
default_document-IsWellFormed = record {
  current_version = refl;
  records_valid = tt;
  records_distinct = tt;
  cache_distinct = tt;
  previous_distinct = tt;
  audit_numbered = tt;
  audit_bounded = omega arith;
}

validate_records_of_valid :
    (rs : List ToolsetRecord) → All IsValidRecord rs → validate_records rs ≡ ok rs
unfolding validate_records
validate_records_of_valid [] h = refl
validate_records_of_valid (r ∷ rs) h = rw (
  validate_scope_policy_of_IsValidRecord r h.0,
  validate_records,
  validate_records_of_valid rs h.1,
  validate_records,
)

-- A well-formed document passes the validation of a load unchanged.
pub load_document_of_IsWellFormed : (d : StateDocument) → IsWellFormed d → load_document d ≡ ok d
unfolding load_document
load_document_of_IsWellFormed d w =
    rw (validate_records_of_valid d.toolsets w.records_valid, load_document) (cc w.current_version)

pub get_toolset-IsValidRecord :
    (d : StateDocument) (k : String) {r : ToolsetRecord}
    → IsWellFormed d
    → get_toolset d k ≡ some r
    → IsValidRecord r
unfolding get_toolset
get_toolset-IsValidRecord d k w e =
    All-find_by IsValidRecord record_name k d.toolsets w.records_valid e

keep_previous-IsDistinct :
    (o : Option SchemaSnapshot) (ps : List SchemaSnapshot)
    → IsDistinct (map snapshot_name ps)
    → IsDistinct (map snapshot_name (keep_previous o ps))
unfolding keep_previous
keep_previous-IsDistinct none ps h = h
keep_previous-IsDistinct (some c) ps h = upsert_by-IsDistinct snapshot_name c ps h

module _ (d : StateDocument) (w : IsWellFormed d) where
  pub upsert_toolset-IsWellFormed :
      (r : ToolsetRecord) → IsValidRecord r → IsWellFormed (upsert_toolset r d).1
  unfolding upsert_toolset
  upsert_toolset-IsWellFormed r v = record {
    current_version = w.current_version;
    records_valid = All-upsert_by IsValidRecord record_name r d.toolsets v w.records_valid;
    records_distinct = upsert_by-IsDistinct record_name r d.toolsets w.records_distinct;
    cache_distinct = w.cache_distinct;
    previous_distinct = w.previous_distinct;
    audit_numbered = w.audit_numbered;
    audit_bounded = w.audit_bounded;
  }

  pub delete_toolset-IsWellFormed : (k : String) → IsWellFormed (delete_toolset k d).1
  unfolding delete_toolset
  delete_toolset-IsWellFormed k =
      elim (Bool-cases
        (nat_beq (length (without_by record_name k d.toolsets)) (length d.toolsets))) [
          | inl same ↦ rw same w
          | inr fewer ↦ rw fewer (record {
            current_version = w.current_version;
            records_valid = All-without_by IsValidRecord record_name k d.toolsets w.records_valid;
            records_distinct = without_by-IsDistinct record_name k d.toolsets w.records_distinct;
            cache_distinct = w.cache_distinct;
            previous_distinct = w.previous_distinct;
            audit_numbered = w.audit_numbered;
            audit_bounded = w.audit_bounded;
          })
        ]

  pub delete_schema_snapshot-IsWellFormed :
      (k : String) → IsWellFormed (delete_schema_snapshot k d).1
  unfolding delete_schema_snapshot
  delete_schema_snapshot-IsWellFormed k =
      elim (Bool-cases
        (nat_beq (length (without_by snapshot_name k d.schema_cache)) (length d.schema_cache))) [
          | inl same ↦ rw same w
          | inr fewer ↦ rw fewer (record {
            current_version = w.current_version;
            records_valid = w.records_valid;
            records_distinct = w.records_distinct;
            cache_distinct = without_by-IsDistinct snapshot_name k d.schema_cache w.cache_distinct;
            previous_distinct = w.previous_distinct;
            audit_numbered = w.audit_numbered;
            audit_bounded = w.audit_bounded;
          })
        ]

  pub delete_previous_schema_snapshot-IsWellFormed :
      (k : String) → IsWellFormed (delete_previous_schema_snapshot k d).1
  unfolding delete_previous_schema_snapshot
  delete_previous_schema_snapshot-IsWellFormed k =
      elim (Bool-cases (
        nat_beq (length (without_by snapshot_name k d.previous_schema_cache))
          (length d.previous_schema_cache))) [
            | inl same ↦ rw same w
            | inr fewer ↦ rw fewer (record {
              current_version = w.current_version;
              records_valid = w.records_valid;
              records_distinct = w.records_distinct;
              cache_distinct = w.cache_distinct;
              previous_distinct =
                  without_by-IsDistinct snapshot_name k d.previous_schema_cache w.previous_distinct;
              audit_numbered = w.audit_numbered;
              audit_bounded = w.audit_bounded;
            })
          ]

  pub replace_schema_snapshot-IsWellFormed :
      (s : SchemaSnapshot) → IsWellFormed (replace_schema_snapshot s d).1
  unfolding replace_schema_snapshot
  replace_schema_snapshot-IsWellFormed s = record {
    current_version = w.current_version;
    records_valid = w.records_valid;
    records_distinct = w.records_distinct;
    cache_distinct = upsert_by-IsDistinct snapshot_name s d.schema_cache w.cache_distinct;
    previous_distinct =
        keep_previous-IsDistinct (find_by snapshot_name s.namespace d.schema_cache)
          d.previous_schema_cache w.previous_distinct;
    audit_numbered = w.audit_numbered;
    audit_bounded = w.audit_bounded;
  }

  pub append_audit_event-IsWellFormed :
      (e : StoredAuditEvent) → IsWellFormed (append_audit_event default_audit_retention_limit e d).1
  append_audit_event-IsWellFormed e =
      let (_, _, numbered, grown) =
        append_audit_event-IsNumbered default_audit_retention_limit e d (omega arith)
          w.audit_numbered w.audit_bounded in
      record {
        current_version = unfold append_audit_event in w.current_version;
        records_valid = unfold append_audit_event in w.records_valid;
        records_distinct = unfold append_audit_event in w.records_distinct;
        cache_distinct = unfold append_audit_event in w.cache_distinct;
        previous_distinct = unfold append_audit_event in w.previous_distinct;
        audit_numbered = numbered;
        audit_bounded = rw grown (ground arith);
      }

pub written-IsWellFormed : (d : StateDocument) → IsWellFormed d → IsWellFormed (written d)
written-IsWellFormed d w = record {
  current_version = refl;
  records_valid = w.records_valid;
  records_distinct = w.records_distinct;
  cache_distinct = w.cache_distinct;
  previous_distinct = w.previous_distinct;
  audit_numbered = w.audit_numbered;
  audit_bounded = w.audit_bounded;
}
