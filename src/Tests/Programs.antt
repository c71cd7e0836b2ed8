-- ===== src/Tests/Programs.antt =====
-- The theorems on programs at a concrete input: a program that calls one tool in a loop, over a world that
-- counts the calls, and over the mounted tools.
use toolbox_mcp.Prelude.{
  ℕ, ◌+◌, ◌≤◌, List, length, arith, String, ◌≡◌, refl, true, false, none, some, [], ◌∷◌, contains,
  string_eq,
}
use toolbox_mcp.Json.{pos, end, get_field}
use toolbox_mcp.Models.{Result, ok}
use toolbox_mcp.Host.{CallToolResult}
use toolbox_mcp.Program.Values.{
  Value, py_none, py_str, py_int, Entries, no_entries, entry_and, get_entry,
}
use toolbox_mcp.Program.Syntax.{
  constant, name, call, list, no_exprs, expr_and, no_keywords, assign, for_stmt, pass_stmt, Block,
  no_stmts, stmt_and,
}
use toolbox_mcp.Program.Python.{Python, Outcome, value, raised, other_raised, parsed}
use toolbox_mcp.Program.Machine.{Machine, caught, give, reads, updates, throw, ◌>>=◌}
use toolbox_mcp.Program.Rules.{Clean}
use toolbox_mcp.Program.Builtins.{max_loop_iterations}
use toolbox_mcp.Program.Loops.{after_statement, for_loop, loop_over}
use toolbox_mcp.Program.Assignments.{assign_target}
use toolbox_mcp.Program.Evaluator.{exec_loop_body}
use toolbox_mcp.Effects.{World}
use toolbox_mcp.Program.Run.{ProgramRunResult, fresh_machine, run, serializable_bindings}
use toolbox_mcp.Program.Budgets.{counted_from, ended, for_statement-counted}
use toolbox_mcp.Program.Variables.{shown_or, get-serializable_bindings}
use toolbox_mcp.Service.Programs.{run_tool_program}
use toolbox_mcp.Tests.Calls.{echoed, serving_host, serving_world}

-- `result = call_tool("demo.echo")`.
abbrev call_block : Block
call_block =
    stmt_and
      (assign (expr_and (name "result") no_exprs)
        (call (name "call_tool") (expr_and (constant (py_str "demo.echo")) no_exprs) no_keywords))
      no_stmts

-- `for x in [1, 2]:` and the call.
abbrev demo_block : Block
demo_block =
    stmt_and
      (for_stmt (name "x")
        (list
          (expr_and (constant (py_int (pos 1))) (expr_and (constant (py_int (pos 2))) no_exprs)))
        call_block no_stmts)
      no_stmts

abbrev demo_python : Python
demo_python = record {
  parse = λ s. parsed 20 demo_block;
  truthy_other = λ v. true;
  size_other = λ v. none;
  items_other = λ v. none;
  item_other = λ v k. none;
  equal_other = λ a b. false;
  ordered_other = λ c a b. none;
  arithmetic_other = λ o a b. raised (other_raised "");
  negated_other = λ v. value v;
  unsigned_other = λ v. value v;
  text = λ v. "";
  to_int = λ v. raised (other_raised "");
  to_float = λ v. value v;
  wire_arguments = λ d. end;
  too_deep = λ v. false;
  recursion_message = "";
  type_error = λ s vs. s;
}

abbrev demo_program : String
demo_program = "for x in [1, 2]: result = call_tool('demo.echo')"

-- A world that counts the calls.
abbrev counting : String → Entries → ℕ → Result CallToolResult × ℕ
counting tool arguments n = (ok echoed, n + 1)

abbrev CountIs : ℕ → ℕ → Type 0
CountIs n w = w ≡ n

abbrev counted_run : Result ProgramRunResult × ℕ
counted_run = run demo_python counting demo_program none "result" none 0

-- `for x in [1, 2]: pass`, after one iteration of an earlier loop.
abbrev pass_block : Block
pass_block = stmt_and pass_stmt no_stmts

abbrev two_items : List Value
two_items = py_int (pos 1) ∷ py_int (pos 2) ∷ []

abbrev looped_machine : Machine ℕ
looped_machine = record (fresh_machine none 0) { loop_iterations = 1 }

looped_machine-Clean : Clean (counted_from 1) looped_machine
looped_machine-Clean = record {
  loops = omega arith;
  since = omega arith;
  room = omega arith;
  traced = tt;
  all_passed = refl;
  calls = tt;
}

pass_goes_on :
    (v : Value) (m : Machine ℕ)
    → ended (exec_loop_body demo_python counting pass_block v m).0 ≡ false
unfolding exec_loop_body after_statement caught give ◌>>=◌
pass_goes_on v m = refl

abbrev passed_loop : Outcome Value × Machine ℕ
passed_loop =
    loop_over py_none (some two_items) (assign_target (name "x"))
      (exec_loop_body demo_python counting pass_block) looped_machine

passed_loop_ends : passed_loop.0 ≡ value py_none
unfolding loop_over for_loop assign_target exec_loop_body after_statement caught give reads updates
    throw ◌>>=◌
passed_loop_ends = refl

for_statement-counted_example :
    (1 + length two_items ≤ passed_loop.1.loop_iterations)
    × (passed_loop.1.loop_iterations ≤ max_loop_iterations)
for_statement-counted_example =
    for_statement-counted demo_python counting (name "x") pass_block py_none two_items 1
      looped_machine looped_machine-Clean pass_goes_on py_none passed_loop_ends

abbrev demo_run : Result ProgramRunResult × World
demo_run = run_tool_program demo_python demo_program none "result" none serving_host serving_world

abbrev demo_environment : Entries
demo_environment =
    entry_and "result" (py_str "hello") (entry_and "_key" (py_str "s3cret") no_entries)

get-serializable_bindings_example :
    get_field (serializable_bindings demo_environment (some ("_key" ∷ "result" ∷ []))) "_key"
    ≡ shown_or
        (contains {A = String} ("_key" ∷ "result" ∷ []) "_key")
        "_key"
        (get_entry demo_environment "_key")
        none
get-serializable_bindings_example =
    get-serializable_bindings demo_environment ("_key" ∷ "result" ∷ []) "_key"
