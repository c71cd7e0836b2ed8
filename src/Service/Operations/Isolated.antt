-- ===== src/Service/Operations/Isolated.antt =====
-- toolbox/service.py: an operation, seen from a namespace that it does not name.
use toolbox_mcp.Prelude.{
  String, ◌≡◌, refl, Bool, true, false, not, Option, none, some, List, [], ◌∷◌, All, ◌==◌,
  string_eq, contains, arith,
}
use toolbox_mcp.Host.{Host}
use toolbox_mcp.Effects.{World}
use toolbox_mcp.Registry.Frame.{unchanged, SameEntries-append_audit_event}
use toolbox_mcp.Service.Steps.{IsSound}
use toolbox_mcp.Service.Steps.Frame.{SameView, Reach-SameView, followed, document_changed}
use toolbox_mcp.Service.Steps.Visits.{Trace, unvisited, visited, between, noted, Allows}
use toolbox_mcp.Service.Operations.{
  Operation, reconciles, registers, unregisters, activates, deactivates, refreshes, restores,
  clears_stale, checks_health, marks_stale, perform,
}
use toolbox_mcp.Service.Operations.Sound.{Permits, Spec-perform}

-- The operation names its namespaces, and `k` is not one of them.
abbrev lists_others : String → Option (List String) → Bool
lists_others k (some (name ∷ names)) = not (contains (name ∷ names) k)
lists_others k _ = false

unfoldable pub spares : String → Operation → Bool
spares k reconciles = false
spares k (registers request) = not (request.namespace == k)
spares k (unregisters namespaces force) = not (contains namespaces k)
spares k (activates namespaces scope if_not_loaded) = not (contains namespaces k)
spares k (deactivates namespaces scope force) = not (contains namespaces k)
spares k (refreshes namespaces if_stale scope) = lists_others k namespaces
spares k (restores namespaces identity startup) = lists_others k namespaces
spares k (clears_stale namespaces) = lists_others k namespaces
spares k (checks_health namespaces scope) = lists_others k namespaces
spares k (marks_stale namespace reason) = not (namespace == k)

abbrev IsOther : String → String → Type 0
IsOther k name = (name == k) ≡ false

All-others :
    (k : String) (names : List String) → not (contains names k) ≡ true → All (IsOther k) names
All-others k [] h = tt
All-others k (name ∷ names) h = (ground arith, All-others k names (ground arith))

Allows-others :
    (k : String) (names : Option (List String))
    → lists_others k names ≡ true
    → Allows (IsOther k) names
Allows-others k none h = cc
Allows-others k (some []) h = cc
Allows-others k (some (name ∷ names)) h = All-others k (name ∷ names) h

Permits-others : (k : String) (o : Operation) → spares k o ≡ true → Permits (IsOther k) o
unfolding spares Permits
Permits-others k reconciles h = cc
Permits-others k (registers request) h = ground arith
Permits-others k (unregisters namespaces force) h = All-others k namespaces h
Permits-others k (activates namespaces scope if_not_loaded) h = All-others k namespaces h
Permits-others k (deactivates namespaces scope force) h = All-others k namespaces h
Permits-others k (refreshes namespaces if_stale scope) h = Allows-others k namespaces h
Permits-others k (restores namespaces identity startup) h = Allows-others k namespaces h
Permits-others k (clears_stale namespaces) h = Allows-others k namespaces h
Permits-others k (checks_health namespaces scope) h = Allows-others k namespaces h
Permits-others k (marks_stale namespace reason) h = ground arith

Trace-SameView : {k : String} {w v : World} → Trace (IsOther k) w v → SameView k w v
Trace-SameView {k} {w} unvisited = record {
  entries = unchanged k w.document;
  runtime = refl;
  calls = refl;
}
Trace-SameView {k} (visited ns other t r) =
    followed (Trace-SameView t) (Reach-SameView ns k other r)
Trace-SameView {k} (between {u} t) =
    followed (Trace-SameView t)
      (record { entries = unchanged k u.document; runtime = refl; calls = refl })
Trace-SameView {k} (noted {u} e same t) =
    followed (Trace-SameView t)
      (document_changed k u _ (SameEntries-append_audit_event k u.document e))

-- From a sound world an operation leaves every namespace that it does not name as it was: its record, its
-- current and previous snapshot, its runtime, and every counter of calls in flight.
pub perform-SameView :
    (host : Host) (o : Operation) (k : String) (w : World)
    → IsSound w
    → spares k o ≡ true
    → SameView k w (perform o host w).1
perform-SameView host o k w s h =
    let after =
      (Spec-perform o (Permits-others k o h)).at host w (record { sound = s; trace = unvisited }) in
    Trace-SameView after.0.trace
