-- ===== src/Program/Budgets.antt =====
-- toolbox/program_runtime.py: the budgets of a run.
use toolbox_mcp.Prelude.{
  ℕ, ◌+◌, ◌≤◌, ◌≡◌, refl, Bool, true, false, String, some, List, [], ◌∷◌, length, all_of, arith,
  if◌then◌else◌, ltb, subst, ap, sym, ◌∙◌,
}
use toolbox_mcp.Models.{Result, ok, err}
use toolbox_mcp.Host.{CallToolResult}
use toolbox_mcp.Program.Values.{Value, Entries, py_none}
use toolbox_mcp.Program.Python.{Python, Outcome, value, raised}
use toolbox_mcp.Program.Machine.{Machine, Action, proceed, ◌>>=◌, reads, updates, throw, give}
use toolbox_mcp.Program.Builtins.{max_loop_iterations, max_tool_calls}
use toolbox_mcp.Program.Run.{ProgramRunResult, run}
use toolbox_mcp.Program.Rules.{Budget, IsTraced, passed, all_but_last, Clean, After, Keeps}
use toolbox_mcp.Program.Kept.{Keeps-loop_body, Keeps-assign_target, counted_Clean}
use toolbox_mcp.Program.Syntax.{Expr, Block}
use toolbox_mcp.Program.Loops.{counted, for_loop, loop_over}
use toolbox_mcp.Program.Assignments.{assign_target}
use toolbox_mcp.Program.Evaluator.{exec_loop_body}

-- What holds of the answer to a run, and of the world it leaves.
pub record IsWithinBudget {W : Type 0} (I : ℕ → W → Type 0) (r : ProgramRunResult) (w : W)
    : Type 0 where
  pub counted : r.call_count ≡ length r.calls
  pub few_traces : length r.calls ≤ max_tool_calls
  pub traced : IsTraced 0 r.calls
  pub passed_before : all_of passed (all_but_last r.calls) ≡ true
  pub all_passed : r.success ≡ true → all_of passed r.calls ≡ true
  pub count : ℕ
  pub few_calls : count ≤ max_tool_calls
  pub called : I count w

-- What holds where the answer could not be made.
pub record IsCutOff {W : Type 0} (py : Python) (I : ℕ → W → Type 0) (w : W) : Type 0 where
  pub deep : Value
  pub overflows : py.too_deep deep ≡ true
  pub count : ℕ
  pub few_calls : count ≤ max_tool_calls
  pub called : I count w

-- A run ends with an answer within the budgets, or with the error that a value is nested too deeply.
abbrev pub EndsWithin :
    {W : Type 0} → Python → (ℕ → W → Type 0) → Result ProgramRunResult → W → Type 0
EndsWithin py I (ok r) w = IsWithinBudget I r w
EndsWithin py I (err e) w = IsCutOff py I w

-- Counted from the start of a run.
abbrev whole : {W : Type 0} → (ℕ → W → Type 0) → Budget W
whole I = record { counted_before = 0; holds = I }

-- Counted from a number of loop iterations, in any world.
abbrev pub counted_from : {W : Type 0} → ℕ → Budget W
counted_from n = record { counted_before = n; holds = λ k w. Unit }

-- Whether the body of a loop ended it.
abbrev pub ended : Outcome (Value × Bool) → Bool
ended (value (v, done)) = done
ended (raised e) = false

-- If there is a value, at least `n` loop iterations were counted and at most 1000.
abbrev Reaches : {W A : Type 0} → ℕ → Outcome A → Machine W → Type 0
Reaches n (value a) m = (n ≤ m.loop_iterations) × (m.loop_iterations ≤ max_loop_iterations)
Reaches n (raised e) m = Unit

module _ {W : Type 0} where
  recounted :
      (n : ℕ) (m : Machine W) → Clean (counted_from n) m → Clean (counted_from m.loop_iterations) m
  recounted n m c = record {
    loops = c.loops;
    since = omega arith;
    room = c.room;
    traced = c.traced;
    all_passed = c.all_passed;
    calls = tt;
  }

  Reaches-if :
      {A : Type 0} (n : ℕ) (b : Bool) (action other : Action W A) (m : Machine W)
      → Reaches n (action m).0 (action m).1
      → (b ≡ false → Reaches n (other m).0 (other m).1)
      → let out = (if b then action else other) m in Reaches n out.0 out.1
  Reaches-if n true action other m h k = h
  Reaches-if n false action other m h k = k refl

  Reaches-proceed :
      {A B : Type 0} (n k : ℕ) (o : Outcome A) (f : A → Action W B) (m : Machine W)
      → After (counted_from k) o m
      → ((a : A) → o ≡ value a → Clean (counted_from k) m → Reaches n (f a m).0 (f a m).1)
      → Reaches n (proceed o f m).0 (proceed o f m).1
  Reaches-proceed n k (value a) f m c h = h a refl c
  Reaches-proceed n k (raised e) f m c h = tt

  Reaches-le :
      {A : Type 0} (n k : ℕ) (o : Outcome A) (m : Machine W) → n ≤ k → Reaches k o m → Reaches n o m
  Reaches-le n k (value a) m le h = (omega (arith, le, h.0), h.1)
  Reaches-le n k (raised e) m le h = tt

  module _ (bind : Value → Action W (Unit {0})) (body : Value → Action W (Value × Bool))
      (binds : (n : ℕ) (v : Value) → Keeps (counted_from n) (bind v))
      (runs : (n : ℕ) (v : Value) → Keeps (counted_from n) (body v))
      (goes_on : (v : Value) (m : Machine W) → ended (body v m).0 ≡ false) where
    for_loop-Reaches :
        (items : List Value) (result : Value) (n : ℕ) (m : Machine W)
        → Clean (counted_from n) m
        → let out = for_loop bind body items result m in
          Reaches (m.loop_iterations + length items) out.0 out.1
    unfolding for_loop ◌>>=◌ reads updates throw give
    for_loop-Reaches [] result n m c = (omega arith, c.loops)
    for_loop-Reaches (item ∷ items) result n m c =
        let k = m.loop_iterations + 1 in
        Reaches-if (m.loop_iterations + length (item ∷ items)) (ltb max_loop_iterations k) _ _
          (counted m) tt
          λ few.
            let start =
              recounted n (counted m) (counted_Clean (counted_from n) m c (ground (arith, few))) in
            Reaches-proceed _ k (bind item (counted m)).0 _ (bind item (counted m)).1
              ((binds k item).at (counted m) start)
              λ u e c1.
                let m1 = (bind item (counted m)).1 in
                Reaches-proceed _ k (body result m1).0 _ (body result m1).1
                  ((runs k result).at m1 c1)
                  λ done e' c2.
                    let m2 = (body result m1).1 in
                    let no : done.1 ≡ false = sym (ap ended e') ∙ goes_on result m1 in
                    rw no (
                      Reaches-le _ (m2.loop_iterations + length items) _ _ (omega (arith, c2.since))
                        (for_loop-Reaches items done.0 k m2 c2))

-- A `for` statement over a list of items that ends without an error, and whose body does not break, counts at least
-- one iteration for each item beside those that were counted before it, and the count is then at most 1000.
pub for_statement-counted :
    {W : Type 0} (py : Python) (invoker : String → Entries → W → Result CallToolResult × W)
    (target : Expr) (body : Block) (iterated : Value) (items : List Value) (n : ℕ) (m : Machine W)
    → Clean (counted_from n) m
    → ((v : Value) (m : Machine W) → ended (exec_loop_body py invoker body v m).0 ≡ false)
    → (v : Value)
    → let out =
        loop_over iterated (some items) (assign_target target) (exec_loop_body py invoker body) m in
      out.0 ≡ value v
      → (m.loop_iterations + length items ≤ out.1.loop_iterations)
        × (out.1.loop_iterations ≤ max_loop_iterations)
unfolding loop_over
for_statement-counted py invoker target body iterated items n m c goes_on v e =
    let bind = assign_target target in
    let run = exec_loop_body py invoker body in
    let out = for_loop bind run items py_none m in
    subst (λ o. Reaches (m.loop_iterations + length items) o out.1) e
      (for_loop-Reaches bind run (λ k u. Keeps-assign_target (counted_from k) target u)
        (λ k u. Keeps-loop_body (counted_from k) py invoker (λ tool arguments j w h. tt) body u)
        goes_on items py_none n m c)
