-- ===== src/Service/Steps/Frame.antt =====
-- toolbox/service.py: what the steps of one namespace leave as it was. A namespace is seen through the
-- registry's look-ups, the table of runtimes and the counters of calls in flight.
use toolbox_mcp.Prelude.{String, ◌≡◌, refl, ◌∙◌, false, arith, ◌==◌, string_eq}
use toolbox_mcp.Models.{StateDocument}
use toolbox_mcp.Registry.Lookup.{find_by-upsert_by, find_by-without_by}
use toolbox_mcp.Registry.Frame.{
  SameEntries, unchanged, SameEntries-upsert_toolset, SameEntries-delete_toolset,
  SameEntries-replace_schema_snapshot, SameEntries-delete_schema_snapshot,
  SameEntries-delete_previous_schema_snapshot, SameEntries-append_audit_event,
}
use toolbox_mcp.Effects.{Runtime, World}
use toolbox_mcp.Transport.{
  entry_name, runtime_in, with_runtime, without_runtime, with_aborted, stopped,
}
use toolbox_mcp.Service.Steps.{
  Step, asked, saved, cached, dropped_record, dropped_snapshot, dropped_previous, audited,
  audited_unnamed, mounted, unmounted, aborted, Reach, here, next,
}

-- What a world holds of a namespace.
pub record SameView (k : String) (w v : World) : Type 0 where
  pub entries : SameEntries k w.document v.document
  pub runtime : runtime_in v k ≡ runtime_in w k
  pub calls : v.in_flight ≡ w.in_flight

module _ (k : String) (w : World) where
  pub document_changed :
      (d : StateDocument) → SameEntries k w.document d → SameView k w (record w { document = d })
  document_changed d same = record { entries = same; runtime = refl; calls = refl }

  SameView-with_runtime :
      (ns : String) (runtime : Runtime)
      → (ns == k) ≡ false
      → SameView k w (with_runtime ns runtime w)
  unfolding with_runtime
  SameView-with_runtime ns runtime other = record {
    entries = unchanged k w.document;
    runtime = ground (arith, find_by-upsert_by entry_name k (ns, runtime) w.runtimes);
    calls = refl;
  }

  SameView-without_runtime : (ns : String) → (ns == k) ≡ false → SameView k w (without_runtime ns w)
  unfolding without_runtime
  SameView-without_runtime ns other = record {
    entries = unchanged k w.document;
    runtime = ground (arith, find_by-without_by entry_name k ns w.runtimes);
    calls = refl;
  }

  SameView-with_aborted :
      (ns : String) (runtime : Runtime)
      → (ns == k) ≡ false
      → SameView k w (with_aborted ns runtime w)
  unfolding with_aborted
  SameView-with_aborted ns runtime other = record {
    entries = unchanged k w.document;
    runtime = ground (arith, find_by-upsert_by entry_name k (ns, stopped runtime) w.runtimes);
    calls = refl;
  }

moved : (ns k m : String) → (ns == k) ≡ false → m ≡ ns → (m == k) ≡ false
moved ns k m other same = rw same other

pub followed : {k : String} {u v w : World} → SameView k w u → SameView k u v → SameView k w v
followed a b = record {
  entries = record {
    toolset = b.entries.toolset ∙ a.entries.toolset;
    snapshot = b.entries.snapshot ∙ a.entries.snapshot;
    previous = b.entries.previous ∙ a.entries.previous;
  };
  runtime = b.runtime ∙ a.runtime;
  calls = b.calls ∙ a.calls;
}

module _ (ns k : String) (other : (ns == k) ≡ false) where
  Step-SameView : {w v : World} → Step ns w v → SameView k w v
  Step-SameView (asked w) = record {
    entries = unchanged k w.document;
    runtime = refl;
    calls = refl;
  }
  Step-SameView (saved w r same v) =
      document_changed k w _ (SameEntries-upsert_toolset k w.document r (moved ns k _ other same))
  Step-SameView (cached w s same) =
      document_changed k w _
        (SameEntries-replace_schema_snapshot k w.document s (moved ns k _ other same))
  Step-SameView (dropped_record w) =
      document_changed k w _ (SameEntries-delete_toolset k w.document ns other)
  Step-SameView (dropped_snapshot w) =
      document_changed k w _ (SameEntries-delete_schema_snapshot k w.document ns other)
  Step-SameView (dropped_previous w) =
      document_changed k w _ (SameEntries-delete_previous_schema_snapshot k w.document ns other)
  Step-SameView (audited w e same) =
      document_changed k w _ (SameEntries-append_audit_event k w.document e)
  Step-SameView (audited_unnamed w e same) =
      document_changed k w _ (SameEntries-append_audit_event k w.document e)
  Step-SameView (mounted w runtime valid) = SameView-with_runtime k w ns runtime other
  Step-SameView (unmounted w) = SameView-without_runtime k w ns other
  Step-SameView (aborted w runtime valid) = SameView-with_aborted k w ns runtime other

  -- Steps of one namespace are not seen from another.
  pub Reach-SameView : {w v : World} → Reach ns w v → SameView k w v
  Reach-SameView {w} here = record {
    entries = unchanged k w.document;
    runtime = refl;
    calls = refl;
  }
  Reach-SameView (next r st) = followed (Reach-SameView r) (Step-SameView st)
