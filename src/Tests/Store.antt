-- ===== src/Tests/Store.antt =====
-- The registry as three maps, at a sequence of writes.
use toolbox_mcp.Prelude.{◌≡◌, refl, none, List, [], ◌∷◌}
use toolbox_mcp.Models.{ok}
use toolbox_mcp.Registry.{find_by, get_toolset, get_schema_snapshot, get_previous_schema_snapshot}
use toolbox_mcp.Effects.Spec.{IsReady}
use toolbox_mcp.Service.Steps.{ready}
use toolbox_mcp.Registry.Refinement.{
  Write, upserts, replaces, deletes, Store, Represents, perform_writes, store_writes,
  perform_writes-Represents,
}
use toolbox_mcp.Tests.{
  demo_host, empty_world, empty_world-IsSound, demo, demo-IsValidRecord, demo_snapshot,
}

abbrev no_entries : Store
no_entries = record { toolset = λ k. none; snapshot = λ k. none; previous = λ k. none }

empty_world-Represents : Represents empty_world.document no_entries
unfolding get_toolset get_schema_snapshot get_previous_schema_snapshot find_by
empty_world-Represents = record { toolset = λ k. refl; snapshot = λ k. refl; previous = λ k. refl }

-- A record is stored, then a snapshot twice, and the record is deleted.
abbrev demo_writes : List Write
demo_writes = upserts demo ∷ replaces demo_snapshot ∷ replaces demo_snapshot ∷ deletes "demo" ∷ []

perform_writes-Represents_example :
    ((perform_writes demo_writes demo_host empty_world).0 ≡ ok tt)
    × IsReady (perform_writes demo_writes demo_host empty_world).1
    × Represents
        (perform_writes demo_writes demo_host empty_world).1.document
        (store_writes demo_writes no_entries)
perform_writes-Represents_example =
    perform_writes-Represents demo_host empty_world demo_writes no_entries
      (ready empty_world-IsSound) (demo-IsValidRecord, (tt, (tt, (tt, tt)))) empty_world-Represents
