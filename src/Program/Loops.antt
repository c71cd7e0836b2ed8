-- ===== src/Program/Loops.antt =====
-- toolbox/program_runtime.py: the loop of `_exec_for_loop`, by the assignment of its target and its body.
use toolbox_mcp.Prelude.{
  ◌+◌, Bool, true, false, Option, none, some, List, [], ◌∷◌, if◌then◌else◌, ltb,
}
use toolbox_mcp.Json.{nat, end, field}
use toolbox_mcp.Program.Values.{Value, py_none, class_name}
use toolbox_mcp.Program.Python.{break_signal, continue_signal, Outcome, value, raised}
use toolbox_mcp.Program.Machine.{Machine, Action, give, throw, reads, updates, ◌>>=◌, ◌>>◌}
use toolbox_mcp.Program.Builtins.{value_error_of, budget_issue, max_loop_iterations}

module _ {W : Type 0} where
  abbrev pub counted : Machine W → Machine W
  counted m = record m { loop_iterations = m.loop_iterations + 1 }

  -- After a statement of a loop's body: whether the loop ends, and the result so far.
  unfoldable pub after_statement :
      Value → Outcome Value → (Value → Action W (Value × Bool)) → Action W (Value × Bool)
  after_statement result (value v) next = next v
  after_statement result (raised continue_signal) next = give (result, false)
  after_statement result (raised break_signal) next = give (result, true)
  after_statement result (raised e) next = throw e

  -- The loop over the items of a `for` statement, by the assignment of its target and its body.
  unfoldable pub for_loop :
      (Value → Action W (Unit {0}))
      → (Value → Action W (Value × Bool))
      → List Value
      → Value
      → Action W Value
  for_loop bind body [] result = give result
  for_loop bind body (item ∷ items) result = do
    updates counted
    count ← reads (λ m. m.loop_iterations)
    if ltb max_loop_iterations count
        then throw (
            budget_issue "Program exceeds max loop iteration count of 1000"
              (field "limit" (nat max_loop_iterations) end))
        else (do
          bind item
          done ← body result
          if done.1 then give done.0 else for_loop bind body items done.0)

  -- `_exec_for_loop`, after its iterable was computed.
  unfoldable pub loop_over :
      Value
      → Option (List Value)
      → (Value → Action W (Unit {0}))
      → (Value → Action W (Value × Bool))
      → Action W Value
  unfolding for_loop
  loop_over v none bind body =
      throw (value_error_of ("Value of type " ∷ class_name v ∷ " is not iterable" ∷ []))
  loop_over v (some items) bind body = for_loop bind body items py_none
