-- ===== src/Transport/Rules.antt =====
-- toolbox/transport_manager.py: what the requests to a runtime guarantee, from an invariant that survives a
-- question to the host and an abort.
use toolbox_mcp.Prelude.{
  arith, eq_refl, none, suc, String, ◌≡◌, refl, Bool, true, false, Option, some, List, All,
  IsDistinct, if◌then◌else◌, string_eq, Bool-cases, inl, inr,
}
use toolbox_mcp.Models.{
  ok, Tool, ToolSchema, ToolsetRecord, Exception, timeout_error, other_error, Result, err,
}
use toolbox_mcp.Validation.{tool_names, validate_tool_inventory}
use toolbox_mcp.Validation.Inventory.{validate_tool_inventory-IsDistinct}
use toolbox_mcp.Registry.{find_by}
use toolbox_mcp.Registry.Lookup.{find_by-without_by, All-find_by}
use toolbox_mcp.Json.{Fields}
use toolbox_mcp.Host.{Host, Reply, reply, failed, CallToolResult}
use toolbox_mcp.Effects.{
  raise, ask, gets, modify, pure, continue, ◌>>=◌, Runtime, World, compute, lift,
}
use toolbox_mcp.Effects.Spec.{
  Spec, Post, MayRaise, Any, Spec-pure, Spec-raise, Spec-bind, Spec-ask, Spec-compute, Spec-lift,
  Spec-modify, Spec-gets, Spec-if,
}
use toolbox_mcp.Transport.{
  entry_name, disconnect, without_runtime, runtime_in, is_present, is_running, IsValidRuntime,
  IsValidEntry, running, stored_runtime, live_runtime, runtime_for, bootstrapped, open_runtime,
  with_aborted, call_answered, call_runtime, call_tool, probe_answered, probe_of, probe_runtime,
  not_connected, close_answered, close_runtime, Closes,
}

abbrev pub MountedAs : Option Runtime → Type 0
MountedAs none = Unit
MountedAs (some runtime) = IsValidRuntime runtime

MountedAs-found :
    (w : World) (ns : String) (o : Option (String × Runtime))
    → All IsValidEntry w.runtimes
    → find_by entry_name ns w.runtimes ≡ o
    → MountedAs (running (stored_runtime o))
MountedAs-found w ns none a e = tt
MountedAs-found w ns (some (k, runtime)) a e =
    at (is_running runtime) (All-find_by IsValidEntry entry_name ns w.runtimes a e)
  where
    at : (b : Bool) → IsValidRuntime runtime → MountedAs (if b then some runtime else none)
    at true v = v
    at false v = tt

pub live_runtime-MountedAs :
    (w : World) (ns : String) → All IsValidEntry w.runtimes → MountedAs (live_runtime w ns)
unfolding live_runtime
live_runtime-MountedAs w ns a = MountedAs-found w ns _ a refl

pub Post-Any : {A : Type 0} (r : Result A) → Post MayRaise Any r
Post-Any (ok a) = tt
Post-Any (err e) = tt

-- An inventory that was validated has no repeated name.
Validated : (tools : List Tool) → Result (List ToolSchema) → Type 0
Validated tools (ok _) = IsDistinct (tool_names tools)
Validated tools (err _) = Unit

Validated-result :
    (host : Host) (namespace : String) (tools : List Tool) (r : Result (List ToolSchema))
    → validate_tool_inventory host namespace tools ≡ r
    → Validated tools r
unfolding Validated
Validated-result host namespace tools (ok ss) e =
    validate_tool_inventory-IsDistinct host namespace tools ss e
Validated-result host namespace tools (err x) e = tt

module _ {I : World → Type 0}
    (asks : (w : World) → I w → I (record w { interactions = suc w.interactions })) where
  Spec-inventory :
      (namespace : String) (tools : List Tool)
      → Spec I MayRaise
          (Validated tools)
          (compute (λ host. validate_tool_inventory host namespace tools))
  Spec-inventory namespace tools =
      Spec-compute _ λ host. Validated-result host namespace tools _ refl

  Spec-inventory_lifted :
      (tools : List Tool) (r : Result (List ToolSchema))
      → Validated tools r
      → Spec I MayRaise (λ _. IsDistinct (tool_names tools)) (lift r)
  unfolding Validated
  Spec-inventory_lifted tools (ok ss) v = Spec-lift (ok ss) v
  Spec-inventory_lifted tools (err e) v = Spec-lift (err e) tt

  Spec-bootstrapped :
      (r : ToolsetRecord) (answer : Reply (List Tool))
      → Spec I MayRaise (λ opened. IsValidRuntime opened.0) (bootstrapped r answer)
  unfolding bootstrapped
  Spec-bootstrapped r (reply tools) =
      Spec-bind _ _ (Spec-inventory r.namespace tools) λ inventory v.
        Spec-bind _ _ (Spec-inventory_lifted tools inventory v) λ normalized d. Spec-pure _ d
  Spec-bootstrapped r (failed (timeout_error _)) = Spec-raise _ tt
  Spec-bootstrapped r (failed (other_error _)) = Spec-raise _ tt

  -- A runtime that was opened has a valid inventory.
  pub Spec-open_runtime :
      (r : ToolsetRecord) → Spec I MayRaise (λ opened. IsValidRuntime opened.0) (open_runtime r)
  unfolding open_runtime
  Spec-open_runtime r =
      Spec-bind {Q = Any} _ _ (Spec-ask _ asks (λ host n. tt))
        λ answer _. Spec-bootstrapped r answer

  module _ (ns : String) (valid : (w : World) → I w → All IsValidEntry w.runtimes)
      (aborts : (w : World) (runtime : Runtime)
        → IsValidRuntime runtime
        → I w
        → I (with_aborted ns runtime w)) where
    pub Spec-runtime_for : {E : Exception → Type 0} → Spec I E MountedAs (runtime_for ns)
    unfolding runtime_for
    Spec-runtime_for = Spec-gets _ λ w h. live_runtime-MountedAs w ns (valid w h)

    Spec-probe_answered :
        (runtime : Runtime) (answer : Reply (List Tool))
        → IsValidRuntime runtime
        → Spec I MayRaise Any (probe_answered ns runtime answer)
    unfolding probe_answered
    Spec-probe_answered runtime (reply tools) v =
        Spec-bind _ _ (Spec-inventory runtime.namespace tools)
          λ inventory _. Spec-lift inventory (Post-Any inventory)
    Spec-probe_answered runtime (failed (timeout_error _)) v =
        Spec-bind _ _ (Spec-modify _ (λ w h. aborts w runtime v h)) λ _ _. Spec-raise _ tt
    Spec-probe_answered runtime (failed (other_error _)) v = Spec-raise _ tt

    Spec-probe_of : (o : Option Runtime) → MountedAs o → Spec I MayRaise Any (probe_of ns o)
    unfolding probe_of
    Spec-probe_of none v = Spec-lift _ (unfold not_connected in tt)
    Spec-probe_of (some runtime) v =
        Spec-bind {Q = Any} _ _ (Spec-ask _ asks (λ host n. tt))
          λ answer _. Spec-probe_answered runtime answer v

    pub Spec-probe_runtime : Spec I MayRaise Any (probe_runtime ns)
    unfolding probe_runtime
    Spec-probe_runtime = Spec-bind _ _ Spec-runtime_for λ o v. Spec-probe_of o v

    Spec-call_answered :
        (tool_name : String) (runtime : Runtime) (answer : Reply CallToolResult)
        → IsValidRuntime runtime
        → Spec I MayRaise Any (call_answered ns runtime tool_name answer)
    unfolding call_answered
    Spec-call_answered tool_name runtime (reply result) v = Spec-pure result tt
    Spec-call_answered tool_name runtime (failed (timeout_error _)) v =
        Spec-bind _ _ (Spec-modify _ (λ w h. aborts w runtime v h)) λ _ _. Spec-raise _ tt
    Spec-call_answered tool_name runtime (failed (other_error _)) v = Spec-raise _ tt

    Spec-call_runtime :
        (tool_name : String) (arguments : Fields) (o : Option Runtime)
        → MountedAs o
        → Spec I MayRaise Any (call_runtime ns tool_name arguments o)
    unfolding call_runtime
    Spec-call_runtime tool_name arguments none v = Spec-lift _ (unfold not_connected in tt)
    Spec-call_runtime tool_name arguments (some runtime) v =
        Spec-bind {Q = Any} _ _ (Spec-ask _ asks (λ host n. tt))
          λ answer _. Spec-call_answered tool_name runtime answer v

    pub Spec-call_tool :
        (tool_name : String) (arguments : Fields)
        → Spec I MayRaise Any (call_tool ns tool_name arguments)
    unfolding call_tool
    Spec-call_tool tool_name arguments =
        Spec-bind _ _ Spec-runtime_for λ o v. Spec-call_runtime tool_name arguments o v

module _ {I : World → Type 0}
    (asks : (w : World) → I w → I (record w { interactions = suc w.interactions })) where
  Spec-close_answered : (answer : Reply (Unit {0})) → Spec I MayRaise Any (close_answered answer)
  unfolding close_answered
  Spec-close_answered (reply _) = Spec-pure tt tt
  Spec-close_answered (failed (timeout_error _)) = Spec-pure tt tt
  Spec-close_answered (failed (other_error _)) = Spec-raise _ tt

  -- A close is at most one question to the host.
  pub Spec-close_runtime : (o : Option Runtime) → Spec I MayRaise Any (close_runtime o)
  unfolding close_runtime
  Spec-close_runtime none = Spec-pure tt tt
  Spec-close_runtime (some runtime) =
      Spec-if (is_running runtime) _ _
        (λ _.
          Spec-bind {Q = Any} _ _ (Spec-ask _ asks (λ host n. tt))
            λ answer _. Spec-close_answered answer)
        (λ _. Spec-pure tt tt)

module _ (host : Host) (w : World) (ns : String) where
  -- The world after the close.
  abbrev pub closed_world : World
  closed_world = (close_runtime (runtime_in w ns) host (without_runtime ns w)).1

  closed_lem :
      (existing : Option Runtime) (r : Result (Unit {0})) (v : World)
      → r ≡ ok tt
      → continue r (λ _. pure (is_present existing)) host v ≡ (ok (is_present existing), v)
  unfolding pure
  closed_lem existing (ok _) v e = refl
  closed_lem existing (err x) v e = cc e

  pub disconnect_lem :
      Closes host w ns → disconnect ns host w ≡ (ok (is_present (runtime_in w ns)), closed_world)
  unfolding disconnect gets modify ◌>>=◌
  disconnect_lem e = closed_lem (runtime_in w ns) _ closed_world e

pub runtime-without_runtime :
    (w : World) (ns : String) → runtime_in (without_runtime ns w) ns ≡ none
unfolding without_runtime
runtime-without_runtime w ns =
    ground (arith, find_by-without_by entry_name ns ns w.runtimes, eq_refl ns)

module _ (host : Host) (w : World) (ns : String) where
  -- The close changes at most the number of questions.
  pub close_runtime-keeps :
      (P : World → Type 0) (o : Option Runtime) (v : World)
      → P v
      → P (record v { interactions = suc v.interactions })
      → P (close_runtime o host v).1
  unfolding close_runtime close_answered ask pure raise ◌>>=◌
  close_runtime-keeps P none v p q = p
  close_runtime-keeps P (some runtime) v p q = elim (Bool-cases (is_running runtime)) [
    | inl runs ↦ rw runs (answered (host.close v.interactions runtime.namespace))
    | inr stopped ↦ rw stopped p
  ]
    where
      answered :
          (answer : Reply (Unit {0}))
          → P (close_answered answer host (record v { interactions = suc v.interactions })).1
      answered (reply _) = q
      answered (failed (timeout_error _)) = q
      answered (failed (other_error _)) = q

  pub runtime-closed_world : runtime_in (closed_world host w ns) ns ≡ none
  runtime-closed_world =
      close_runtime-keeps (λ v. runtime_in v ns ≡ none) (runtime_in w ns) (without_runtime ns w)
        (runtime-without_runtime w ns) (runtime-without_runtime w ns)
