-- ===== src/Service/Mounted/Calls.antt =====
-- toolbox/service.py: `call_mounted_tool`, by the rules of the service's steps.
use toolbox_mcp.Prelude.{
  ℕ, ◌+◌, ◌-◌, String, ◌≡◌, refl, ◌∙◌, sym, ap, subst, Bool, false, Option, none, some, arith, ◌==◌,
  string_eq, eq_iff, eq_refl, Bool-cases, Option-cases, inl, inr,
}
use toolbox_mcp.Json.{Fields}
use toolbox_mcp.Models.{Exception, Result, ok, err}
use toolbox_mcp.Host.{Host, CallToolResult}
use toolbox_mcp.Effects.{World, raise, gets, attempt, lift, ◌>>=◌}
use toolbox_mcp.Effects.Spec.{Spec, MayRaise, Any, Spec-pure, Spec-raise, Spec-bind, Spec-attempt}
use toolbox_mcp.Registry.Frame.{SameEntries, unchanged}
use toolbox_mcp.Transport.{
  in_flight_count, with_count, note_call_started, note_call_finished, runtime_in,
}
use toolbox_mcp.Transport.InFlight.{count-with_count, note_call_started_lem, note_call_finished_lem}
use toolbox_mcp.Service.Steps.{
  IsSound, Step, asked, saved, cached, dropped_record, dropped_snapshot, dropped_previous, audited,
  audited_unnamed, mounted, unmounted, aborted, Reach, here, next,
}
use toolbox_mcp.Service.Steps.Frame.{Reach-SameView}
use toolbox_mcp.Service.Steps.Rules.{
  From, Spec-get_record, Spec-append_audit, Spec-disconnect, Spec-record_runtime_failure,
  Spec-call_tool,
}
use toolbox_mcp.Service.Steps.Runs.{bind_lem}
use toolbox_mcp.Service.Mounted.{
  MountedTool, resolve_mounted_tool, call_failed, call_ended, call_guarded, call_started,
  call_locked, call_resolved, call_mounted_tool,
}

module _ {ns : String} {start : World} where
  Spec-failed :
      (mounted_name : String) (e : Exception)
      → Spec (From ns start) MayRaise Any (call_failed ns mounted_name e)
  unfolding call_failed
  Spec-failed mounted_name e = Spec-bind _ _ Spec-disconnect λ _ _.
      Spec-bind _ _ (Spec-record_runtime_failure _ _ _ _) λ error _.
        Spec-bind _ _ Spec-get_record
          λ o _. Spec-bind _ _ (Spec-append_audit _ _ _ _ _) λ _ _. Spec-raise e tt

  Spec-ended :
      (mounted_name : String) (r : Result CallToolResult)
      → Spec (From ns start) MayRaise Any (call_ended ns mounted_name r)
  unfolding call_ended
  Spec-ended mounted_name (ok result) = Spec-pure result tt
  Spec-ended mounted_name (err e) = Spec-failed mounted_name e

  Spec-guarded :
      (m : MountedTool) (mounted_name : String) (arguments : Fields)
      → m.namespace ≡ ns
      → Spec (From ns start) MayRaise Any (call_guarded m mounted_name arguments)
  unfolding call_guarded
  Spec-guarded m mounted_name arguments same = rw same (
      Spec-bind _ _ (Spec-attempt _ (Spec-call_tool m.source_name arguments))
        λ r _. Spec-ended mounted_name r)

Step-in_flight : {ns : String} {w v : World} → Step ns w v → v.in_flight ≡ w.in_flight
unfolding toolbox_mcp.Transport.with_runtime toolbox_mcp.Transport.without_runtime
    toolbox_mcp.Transport.with_aborted
Step-in_flight (asked w) = refl
Step-in_flight (saved w r same v) = refl
Step-in_flight (cached w s same) = refl
Step-in_flight (dropped_record w) = refl
Step-in_flight (dropped_snapshot w) = refl
Step-in_flight (dropped_previous w) = refl
Step-in_flight (audited w e same) = refl
Step-in_flight (audited_unnamed w e same) = refl
Step-in_flight (mounted w runtime valid) = refl
Step-in_flight (unmounted w) = refl
Step-in_flight (aborted w runtime valid) = refl

Reach-in_flight : {ns : String} {w v : World} → Reach ns w v → v.in_flight ≡ w.in_flight
Reach-in_flight here = refl
Reach-in_flight (next r st) = Step-in_flight st ∙ Reach-in_flight r

-- A call came to a world: it raised the counter, took steps of its namespace, and lowered the counter.
record Called (ns : String) (w v : World) : Type 0 where
  between : World
  sound : IsSound between
  reached : Reach ns (with_count ns (in_flight_count w ns + 1) w) between
  ended : v ≡ with_count ns (in_flight_count between ns - 1) between

with_count-IsSound : (ns : String) (n : ℕ) (w : World) → IsSound w → IsSound (with_count ns n w)
unfolding with_count
with_count-IsSound ns n w s = record {
  well_formed = s.well_formed;
  readable = s.readable;
  writable = s.writable;
  runtimes_valid = s.runtimes_valid;
}

started-Called :
    (host : Host) (m : MountedTool) (mounted_name : String) (arguments : Fields) (w : World)
    → IsSound w
    → Called m.namespace w (call_started m mounted_name arguments host w).1
unfolding call_started attempt lift
started-Called host m mounted_name arguments w s =
    let ns = m.namespace in
    let w1 = with_count ns (in_flight_count w ns + 1) w in
    let s1 = with_count-IsSound ns (in_flight_count w ns + 1) w s in
    let body =
      (Spec-guarded {start = w1} m mounted_name arguments refl).at host w1
        (record { sound = s1; reached = here }) in
    let (r, w2) = call_guarded m mounted_name arguments host w1 in
    let e = bind_lem host w _ _ tt w1 (note_call_started_lem host w ns) (
      bind_lem host w1 (attempt (call_guarded m mounted_name arguments)) _ r w2 refl (
        bind_lem host w2 _ _ tt (with_count ns (in_flight_count w2 ns - 1) w2)
          (note_call_finished_lem host w2 ns) refl)) in
    record {
      between = w2;
      sound = body.0.sound;
      reached = body.0.reached;
      ended = ap (λ (out : Result CallToolResult × World). out.1) e;
    }

-- The namespace that a call of the name comes to.
unfoldable pub called_namespace : Option MountedTool → Option String
called_namespace none = none
called_namespace (some m) = some m.namespace

-- A call either leaves the world as it was, or is a call of the resolved namespace.
data Effect (ns : Option String) (w v : World) : Type 0 where
  untouched : v ≡ w → Effect ns w v
  called : (k : String) → ns ≡ some k → Called k w v → Effect ns w v

call-Effect :
    (host : Host) (mounted_name : String) (arguments : Fields) (w : World)
    → IsSound w
    → Effect
        (called_namespace (resolve_mounted_tool w mounted_name))
        w
        (call_mounted_tool mounted_name arguments host w).1
unfolding call_mounted_tool call_resolved call_locked gets raise ◌>>=◌ called_namespace
call-Effect host mounted_name arguments w s =
    elim (Option-cases (resolve_mounted_tool w mounted_name)) [
      | inl missing ↦ rw missing (untouched refl)
      | inr (m, found) ↦
          rw (found, found)
            (called m.namespace refl (started-Called host m mounted_name arguments w s))
    ]

Called-IsSound : {ns : String} {w v : World} → Called ns w v → IsSound v
Called-IsSound {ns} c = subst IsSound (sym c.ended) (with_count-IsSound ns _ c.between c.sound)

count_of_in_flight :
    (u v : World) (k : String)
    → u.in_flight ≡ v.in_flight
    → in_flight_count u k ≡ in_flight_count v k
unfolding in_flight_count
count_of_in_flight u v k e = ap (λ l. in_flight_count (record u { in_flight = l }) k) e

Called-count :
    {ns : String} {w v : World} (k : String)
    → Called ns w v
    → in_flight_count v k ≡ in_flight_count w k
Called-count {ns} {w} {v} k c =
    let n = in_flight_count w ns in
    let u = c.between in
    let w1 = with_count ns (n + 1) w in
    let at_k = count_of_in_flight u w1 k (Reach-in_flight c.reached) in
    let at_ns = count_of_in_flight u w1 ns (Reach-in_flight c.reached) in
    let raised = count-with_count w ns k (n + 1) in
    let raised_own = count-with_count w ns ns (n + 1) in
    let lowered = count-with_count u ns k (in_flight_count u ns - 1) in
    ap (λ x. in_flight_count x k) c.ended ∙ elim (Bool-cases (ns == k)) [
      | inl same ↦ ground (
        arith,
        at_ns,
        raised_own,
        lowered,
        eq_refl ns,
        ap (in_flight_count w) ((eq_iff ns k).0 same),
      )
      | inr other ↦ ground (arith, at_k, raised, lowered)
    ]

-- A call of a mounted tool, however it ends, leaves the world sound, and every counter of calls in flight
-- where it was.
pub call_mounted_tool-IsSound :
    (host : Host) (mounted_name : String) (arguments : Fields) (w : World) (k : String)
    → IsSound w
    → let v = (call_mounted_tool mounted_name arguments host w).1 in
      IsSound v × (in_flight_count v k ≡ in_flight_count w k)
call_mounted_tool-IsSound host mounted_name arguments w k s =
    elim (call-Effect host mounted_name arguments w s) [
      | untouched e ↦ (subst IsSound (sym e) s, ap (λ x. in_flight_count x k) e)
      | called ns e c ↦ (Called-IsSound c, Called-count k c)
    ]

-- The call of a name comes to a namespace.
unfoldable pub calls_into : World → String → String → Bool
calls_into w mounted_name k = elim (called_namespace (resolve_mounted_tool w mounted_name)) [
  | none ↦ false
  | some namespace ↦ namespace == k
]

calls_into-other :
    (o : Option String) (ns k : String)
    → (elim o [ none ↦ false | some namespace ↦ namespace == k ]) ≡ false
    → o ≡ some ns
    → (ns == k) ≡ false
calls_into-other none ns k h e = cc
calls_into-other (some j) ns k h e = cc

Called-SameEntries :
    {ns : String} {w v : World} (k : String)
    → (ns == k) ≡ false
    → Called ns w v
    → SameEntries k w.document v.document × (runtime_in v k ≡ runtime_in w k)
unfolding with_count
Called-SameEntries {ns} {w} {v} k other c =
    let seen = Reach-SameView ns k other c.reached in
    subst (λ x. SameEntries k w.document x.document × (runtime_in x k ≡ runtime_in w k))
      (sym c.ended) (seen.entries, seen.runtime)

-- A call of a mounted tool, however it ends, leaves the record, the snapshots and the runtime of every
-- namespace it does not come to as they were.
pub call_mounted_tool-SameEntries :
    (host : Host) (mounted_name : String) (arguments : Fields) (w : World) (k : String)
    → IsSound w
    → calls_into w mounted_name k ≡ false
    → let v = (call_mounted_tool mounted_name arguments host w).1 in
      SameEntries k w.document v.document × (runtime_in v k ≡ runtime_in w k)
unfolding calls_into
call_mounted_tool-SameEntries host mounted_name arguments w k s h =
    elim (call-Effect host mounted_name arguments w s) [
      | untouched e ↦
          subst (λ x. SameEntries k w.document x.document × (runtime_in x k ≡ runtime_in w k))
            (sym e) (unchanged k w.document, refl)
      | called ns e c ↦ Called-SameEntries k (calls_into-other _ ns k h e) c
    ]
