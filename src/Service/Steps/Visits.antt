-- ===== src/Service/Steps/Visits.antt =====
-- toolbox/service.py: the rules for the loops of the handlers. A handler visits namespaces one after the
-- other, each visit takes steps of its namespace only, and it may audit a request that names none.
use toolbox_mcp.Prelude.{suc, String, ◌≡◌, refl, Bool, Option, none, some, List, [], ◌∷◌, All}
use toolbox_mcp.Json.{Fields}
use toolbox_mcp.Models.{
  Scope, ToolsetRecord, StoredAuditEvent, AuditOperation, AuditOutcome, ErrorInfo, Exception,
}
use toolbox_mcp.Registry.{append_audit_event, default_audit_retention_limit}
use toolbox_mcp.Effects.{World, Exec, pure, ◌>>=◌, utc_now}
use toolbox_mcp.Effects.Spec.{Spec, Any, Spec-pure, Spec-bind, Spec-ask, Spec-mutate, Spec-load}
use toolbox_mcp.Service.Support.{
  Report, for_each, empty_report, answer, chosen, names_where, load_all_records, append_audit,
  new_event,
}
use toolbox_mcp.Service.Steps.{
  ready, IsSound, after, asked, audited_unnamed, Reach, here, Step-IsSound,
}
use toolbox_mcp.Service.Steps.Rules.{From}

-- Visits of namespaces that satisfy `P`, and what happens between them.
pub data Trace (P : String → Type 0) (start : World) : World → Type 0 where
  unvisited : Trace P start start
  visited : {u v : World} (ns : String) → P ns → Trace P start u → Reach ns u v → Trace P start v
  between :
      {u : World} → Trace P start u → Trace P start (record u { interactions = suc u.interactions })
  noted :
      {u : World} (e : StoredAuditEvent)
      → e.namespace ≡ none
      → Trace P start u
      → Trace P start (after (append_audit_event default_audit_retention_limit e) u)

-- The invariant of a handler that started at `start`.
pub record Visited (P : String → Type 0) (start w : World) : Type 0 where
  pub sound : IsSound w
  pub trace : Trace P start w

-- The namespaces that a request can come to: those it lists, or any.
abbrev pub Allows : (String → Type 0) → Option (List String) → Type 0
Allows P (some (namespace ∷ rest)) = All P (namespace ∷ rest)
Allows P _ = (k : String) → P k

everywhere : {P : String → Type 0} → ((k : String) → P k) → (names : List String) → All P names
everywhere p [] = tt
everywhere p (ns ∷ rest) = (p ns, everywhere p rest)

module _ {P : String → Type 0} {start : World} {E : Exception → Type 0} where
  -- The body of a handler is a visit.
  pub Spec-visit :
      {A : Type 0} {Q : A → Type 0} (ns : String) (m : Exec A)
      → P ns
      → ((w : World) → Spec (From ns w) E Q m)
      → Spec (Visited P start) E Q m
  Spec-visit ns m p body = record {
    at = λ host w h.
        let (f, q) = (body w).at host w (record { sound = h.sound; reached = here }) in
        (record { sound = f.sound; trace = visited ns p h.trace f.reached }, q);
  }

  pub Spec-for_each :
      {A : Type 0} (body : String → Report A → Exec (Report A))
      → ((ns : String) (report : Report A) (w : World) → Spec (From ns w) E Any (body ns report))
      → (names : List String) (report : Report A) → All P names
      → Spec (Visited P start) E Any (for_each body names report)
  unfolding for_each
  Spec-for_each body h [] report ps = Spec-pure report tt
  Spec-for_each body h (ns ∷ rest) report (p, ps) =
      Spec-bind _ _ (Spec-visit ns (body ns report) p (h ns report))
        λ report' _. Spec-for_each body h rest report' ps

  pub Spec-answered :
      {A : Type 0} (body : String → Report A → Exec (Report A))
      → ((ns : String) (report : Report A) (w : World) → Spec (From ns w) E Any (body ns report))
      → (names : List String) → All P names
      → Spec
          (Visited P start)
          E
          Any
          (for_each body names empty_report >>= λ report. pure (answer report))
  Spec-answered body h names ps =
      Spec-bind _ _ (Spec-for_each body h names empty_report ps) λ report _. Spec-pure _ tt

  Spec-load_all_records : Spec (Visited P start) E (λ rs. Unit) load_all_records
  unfolding load_all_records
  Spec-load_all_records = Spec-bind _ _ (Spec-load (λ w h. ready h.sound)) λ d f. Spec-pure _ tt

  pub Spec-chosen :
      (namespaces : Option (List String)) (test : ToolsetRecord → Bool)
      → Allows P namespaces
      → Spec (Visited P start) E (λ names. All P names) (chosen namespaces test)
  unfolding chosen
  Spec-chosen none test p =
      Spec-bind _ _ Spec-load_all_records λ rs _. Spec-pure _ (everywhere p (names_where test rs))
  Spec-chosen (some []) test p =
      Spec-bind _ _ Spec-load_all_records λ rs _. Spec-pure _ (everywhere p (names_where test rs))
  Spec-chosen (some (ns ∷ rest)) test ps = Spec-pure _ ps

  -- A request that is refused is audited without a namespace.
  pub Spec-noted :
      (operation : AuditOperation) (outcome : AuditOutcome) (scope : Option Scope)
      (details : Fields) (error : Option ErrorInfo)
      → Spec (Visited P start) E Any (append_audit operation outcome none scope details error)
  unfolding append_audit utc_now
  Spec-noted operation outcome scope details error =
      Spec-bind {Q = Any} _ _
        (Spec-ask _
          (λ w h. record {
            sound = Step-IsSound {ns = ""} (asked w) h.sound;
            trace = between h.trace;
          })
          (λ host n. tt))
        λ now _.
          Spec-mutate _ (λ w h. ready h.sound)
            (λ w h.
              let e = new_event now operation outcome none scope details error in
              record {
                sound = Step-IsSound {ns = ""} (audited_unnamed w e refl) h.sound;
                trace = noted e refl h.trace;
              })
