-- ===== src/Program/Kept.antt =====
-- toolbox/program_runtime.py: the evaluator, by the rules of a run.
use toolbox_mcp.Prelude.{
  ℕ, ◌+◌, ◌≤◌, Bool, not, String, Option, none, some, List, [], ◌∷◌, arith, ltb,
}
use toolbox_mcp.Models.{Result}
use toolbox_mcp.Host.{CallToolResult}
use toolbox_mcp.Program.Values.{Value, py_none, Entries}
use toolbox_mcp.Program.Syntax.{
  BoolOperator, Expr, constant, name, dict, list, tuple, attribute, subscript, slice, call, bin_op,
  bool_op, compare, unary_op, if_exp, other_expr, Exprs, no_exprs, expr_and, Keywords, no_keywords,
  keyword_and, Stmt, assign, aug_assign, expr, if_stmt, for_stmt, break_stmt, continue_stmt,
  pass_stmt, other_stmt, Block, no_stmts, stmt_and,
}
use toolbox_mcp.Program.Python.{Python, truthy, items_in}
use toolbox_mcp.Program.Machine.{Machine, Action, reads, updates, throw, ◌>>=◌}
use toolbox_mcp.Program.Builtins.{max_loop_iterations, call_function}
use toolbox_mcp.Program.Assignments.{
  lookup, unpack, unpacked, count_exprs, assign_target, assign_each, assign_all,
  read_assignment_target,
}
use toolbox_mcp.Program.Loops.{counted, for_loop, loop_over}
use toolbox_mcp.Program.Evaluator.{
  eval_expression, eval_all, eval_keywords, eval_until, exec_statement, exec_block, exec_loop_body,
  ends_at, is_slice, function_name, with_function, is_empty_block,
}
use toolbox_mcp.Program.Rules.{
  Budget, Clean, Bounded, After, Keeps, After-if, Keeps-give, Keeps-throw, Keeps-conclude,
  Keeps-reads, Keeps-if, Keeps-updates, Keeps-bind, Keeps-caught,
}
use toolbox_mcp.Program.ToolCalls.{call_tool_builtin-Keeps}

module _ {W : Type 0} (I : Budget W) where
  Keeps-found :
      (o : Option Value) (id : String)
      → Keeps I (elim o as (λ _. Action W Value) [
        | none ↦
            throw (toolbox_mcp.Program.Builtins.value_error_of ("Unknown variable: " ∷ id ∷ []))
        | some v ↦ toolbox_mcp.Program.Machine.give v
      ])
  Keeps-found none id = Keeps-throw I _
  Keeps-found (some v) id = Keeps-give I v

  Keeps-lookup : (id : String) → Keeps I (lookup id)
  unfolding lookup
  Keeps-lookup id = Keeps-bind I _ _ (Keeps-reads I _) λ o. Keeps-found o id

  Keeps-unpack :
      (count : ℕ) (v : Value) (o : Option (List Value)) (each : List Value → Action W (Unit {0}))
      → ((items : List Value) → Keeps I (each items))
      → Keeps I (unpack count v o each)
  unfolding unpack
  Keeps-unpack count v none each h = Keeps-throw I _
  Keeps-unpack count v (some items) each h = Keeps-if I _ _ _ (Keeps-throw I _) (h items)

  mutual
    unfolding assign_target

    pub Keeps-assign_target : (target : Expr) (v : Value) → Keeps I (assign_target target v)
    Keeps-assign_target (name id) v = Keeps-updates I _ (λ m c. record {
      loops = c.loops;
      since = c.since;
      room = c.room;
      traced = c.traced;
      all_passed = c.all_passed;
      calls = c.calls;
    })
    Keeps-assign_target (tuple targets) v =
        Keeps-unpack (count_exprs targets) v (unpacked v) _ (Keeps-assign_each targets)
    Keeps-assign_target (list targets) v =
        Keeps-unpack (count_exprs targets) v (unpacked v) _ (Keeps-assign_each targets)
    Keeps-assign_target (constant _) v = Keeps-throw I _
    Keeps-assign_target (dict _ _) v = Keeps-throw I _
    Keeps-assign_target (attribute _ _) v = Keeps-throw I _
    Keeps-assign_target (subscript _ _) v = Keeps-throw I _
    Keeps-assign_target slice v = Keeps-throw I _
    Keeps-assign_target (call _ _ _) v = Keeps-throw I _
    Keeps-assign_target (bin_op _ _ _) v = Keeps-throw I _
    Keeps-assign_target (bool_op _ _) v = Keeps-throw I _
    Keeps-assign_target (compare _ _ _) v = Keeps-throw I _
    Keeps-assign_target (unary_op _ _) v = Keeps-throw I _
    Keeps-assign_target (if_exp _ _ _) v = Keeps-throw I _
    Keeps-assign_target (other_expr _) v = Keeps-throw I _

    Keeps-assign_each : (targets : Exprs) (items : List Value) → Keeps I (assign_each targets items)
    Keeps-assign_each no_exprs items = Keeps-give I tt
    Keeps-assign_each (expr_and target targets) [] = Keeps-give I tt
    Keeps-assign_each (expr_and target targets) (item ∷ items) =
        Keeps-bind I _ _ (Keeps-assign_target target item) λ _. Keeps-assign_each targets items

  Keeps-assign_all : (targets : Exprs) (v : Value) → Keeps I (assign_all targets v)
  unfolding assign_all
  Keeps-assign_all no_exprs v = Keeps-give I tt
  Keeps-assign_all (expr_and target targets) v =
      Keeps-bind I _ _ (Keeps-assign_target target v) λ _. Keeps-assign_all targets v

  Keeps-read : (target : Expr) → Keeps I (read_assignment_target target)
  unfolding read_assignment_target
  Keeps-read (name id) = Keeps-lookup id
  Keeps-read (tuple _) = Keeps-throw I _
  Keeps-read (list _) = Keeps-throw I _
  Keeps-read (constant _) = Keeps-throw I _
  Keeps-read (dict _ _) = Keeps-throw I _
  Keeps-read (attribute _ _) = Keeps-throw I _
  Keeps-read (subscript _ _) = Keeps-throw I _
  Keeps-read slice = Keeps-throw I _
  Keeps-read (call _ _ _) = Keeps-throw I _
  Keeps-read (bin_op _ _ _) = Keeps-throw I _
  Keeps-read (bool_op _ _) = Keeps-throw I _
  Keeps-read (compare _ _ _) = Keeps-throw I _
  Keeps-read (unary_op _ _) = Keeps-throw I _
  Keeps-read (if_exp _ _ _) = Keeps-throw I _
  Keeps-read (other_expr _) = Keeps-throw I _

  counted_Bounded : (m : Machine W) → Clean I m → Bounded I (counted m)
  counted_Bounded m c =
      let b = toolbox_mcp.Program.Rules.Bounded-of_Clean I m c in
      record {
        loops = omega (arith, c.loops);
        since = omega (arith, c.since);
        room = b.room;
        traced = b.traced;
        passed_before = b.passed_before;
        count = b.count;
        few = b.few;
        calls = b.calls;
      }

  pub counted_Clean :
      (m : Machine W)
      → Clean I m
      → m.loop_iterations + 1 ≤ max_loop_iterations
      → Clean I (counted m)
  counted_Clean m c few = record {
    loops = few;
    since = omega (arith, c.since);
    room = c.room;
    traced = c.traced;
    all_passed = c.all_passed;
    calls = c.calls;
  }

  Keeps-for_loop :
      (bind : Value → Action W (Unit {0})) (body : Value → Action W (Value × Bool))
      → ((v : Value) → Keeps I (bind v))
      → ((v : Value) → Keeps I (body v))
      → (items : List Value) (result : Value) → Keeps I (for_loop bind body items result)
  unfolding for_loop ◌>>=◌ reads updates throw
  Keeps-for_loop bind body hb hs [] result = Keeps-give I result
  Keeps-for_loop bind body hb hs (item ∷ items) result = record {
    at = λ m c.
        After-if I (ltb max_loop_iterations (m.loop_iterations + 1)) _ _ (counted m)
          (λ _. counted_Bounded m c)
          (λ few.
            (Keeps-bind I _ _ (hb item) λ _. Keeps-bind I _ _ (hs result) λ done.
                Keeps-if I done.1 _ _ (Keeps-give I done.0)
                  (Keeps-for_loop bind body hb hs items done.0)).at
              (counted m) (counted_Clean m c (ground (arith, few))));
  }

  Keeps-loop_over :
      (v : Value) (o : Option (List Value)) (bind : Value → Action W (Unit {0}))
      (body : Value → Action W (Value × Bool))
      → ((v : Value) → Keeps I (bind v))
      → ((v : Value) → Keeps I (body v))
      → Keeps I (loop_over v o bind body)
  unfolding loop_over
  Keeps-loop_over v none bind body hb hs = Keeps-throw I _
  Keeps-loop_over v (some items) bind body hb hs = Keeps-for_loop bind body hb hs items py_none

module _ {W : Type 0} (I : Budget W) (py : Python)
    (invoker : String → Entries → W → Result CallToolResult × W)
    (calls : (tool : String) (arguments : Entries) (n : ℕ) (w : W)
      → I.holds n w
      → I.holds (n + 1) (invoker tool arguments w).1) where
  Keeps-call_function :
      (function : String) (positional : List Value) (keywords : Entries)
      → Keeps I (call_function py invoker function positional keywords)
  unfolding call_function
  Keeps-call_function function positional keywords =
      Keeps-if I _ _ _ (call_tool_builtin-Keeps I invoker calls positional keywords)
        (Keeps-conclude I _)

  Keeps-with_function :
      (o : Option String) (f : String → Action W Value)
      → ((function : String) → Keeps I (f function))
      → Keeps I (with_function o f)
  unfolding with_function
  Keeps-with_function none f h = Keeps-throw I _
  Keeps-with_function (some function) f h = h function

  mutual
    unfolding eval_expression

    Keeps-eval : (e : Expr) → Keeps I (eval_expression py invoker e)
    Keeps-eval (constant v) = Keeps-give I v
    Keeps-eval (name id) = Keeps-lookup I id
    Keeps-eval (dict keys values) =
        Keeps-bind I _ _ (Keeps-eval_all keys)
          λ ks. Keeps-bind I _ _ (Keeps-eval_all values) λ vs. Keeps-give I _
    Keeps-eval (list elements) = Keeps-bind I _ _ (Keeps-eval_all elements) λ vs. Keeps-give I _
    Keeps-eval (tuple elements) = Keeps-bind I _ _ (Keeps-eval_all elements) λ vs. Keeps-give I _
    Keeps-eval (attribute base attr) = Keeps-bind I _ _ (Keeps-eval base) λ v. Keeps-conclude I _
    Keeps-eval (subscript base key) = Keeps-bind I _ _ (Keeps-eval base) λ v.
        Keeps-bind I _ _ (Keeps-if I (is_slice key) _ _ (Keeps-throw I _) (Keeps-eval key))
          λ k. Keeps-conclude I _
    Keeps-eval slice = Keeps-throw I _
    Keeps-eval (call function arguments named) = Keeps-with_function (function_name function) _ λ f.
        Keeps-bind I _ _ (Keeps-eval_all arguments)
          λ vs. Keeps-bind I _ _ (Keeps-eval_keywords named) λ ks. Keeps-call_function f vs ks
    Keeps-eval (bin_op operator left right) =
        Keeps-bind I _ _ (Keeps-eval left)
          λ a. Keeps-bind I _ _ (Keeps-eval right) λ b. Keeps-conclude I _
    Keeps-eval (bool_op operator values) = Keeps-eval_until operator values _
    Keeps-eval (compare left operators comparators) =
        Keeps-bind I _ _ (Keeps-eval left)
          λ a. Keeps-bind I _ _ (Keeps-eval_all comparators) λ vs. Keeps-conclude I _
    Keeps-eval (unary_op operator operand) =
        Keeps-bind I _ _ (Keeps-eval operand) λ v. Keeps-conclude I _
    Keeps-eval (if_exp test body orelse) =
        Keeps-bind I _ _ (Keeps-eval test)
          λ v. Keeps-if I (truthy py v) _ _ (Keeps-eval body) (Keeps-eval orelse)
    Keeps-eval (other_expr class) = Keeps-throw I _

    Keeps-eval_all : (es : Exprs) → Keeps I (eval_all py invoker es)
    Keeps-eval_all no_exprs = Keeps-give I _
    Keeps-eval_all (expr_and e es) =
        Keeps-bind I _ _ (Keeps-eval e)
          λ v. Keeps-bind I _ _ (Keeps-eval_all es) λ vs. Keeps-give I _

    Keeps-eval_keywords : (ks : Keywords) → Keeps I (eval_keywords py invoker ks)
    Keeps-eval_keywords no_keywords = Keeps-give I _
    Keeps-eval_keywords (keyword_and none e rest) = Keeps-eval_keywords rest
    Keeps-eval_keywords (keyword_and (some key) e rest) =
        Keeps-bind I _ _ (Keeps-eval e)
          λ v. Keeps-bind I _ _ (Keeps-eval_keywords rest) λ vs. Keeps-give I _

    Keeps-eval_until :
        (operator : BoolOperator) (es : Exprs) (v : Value)
        → Keeps I (eval_until py invoker operator es v)
    Keeps-eval_until operator no_exprs v = Keeps-give I v
    Keeps-eval_until operator (expr_and e es) v = Keeps-bind I _ _ (Keeps-eval e) λ u.
        Keeps-if I (ends_at py operator u) _ _ (Keeps-give I u) (Keeps-eval_until operator es u)

  mutual
    unfolding exec_statement

    Keeps-exec : (s : Stmt) → Keeps I (exec_statement py invoker s)
    Keeps-exec (assign targets e) =
        Keeps-bind I _ _ (Keeps-eval e)
          λ v. Keeps-bind I _ _ (Keeps-assign_all I targets v) λ _. Keeps-give I v
    Keeps-exec (aug_assign target operator e) = Keeps-bind I _ _ (Keeps-read I target) λ current.
        Keeps-bind I _ _ (Keeps-eval e) λ v. Keeps-bind I _ _ (Keeps-conclude I _) λ updated.
          Keeps-bind I _ _ (Keeps-assign_target I target updated) λ _. Keeps-give I updated
    Keeps-exec (expr e) = Keeps-eval e
    Keeps-exec (if_stmt test body orelse) = Keeps-bind I _ _ (Keeps-eval test) λ v.
        Keeps-if I (truthy py v) _ _ (Keeps-exec_block body py_none)
          (Keeps-exec_block orelse py_none)
    Keeps-exec (for_stmt target iterable body orelse) =
        Keeps-if I (not (is_empty_block orelse)) _ _ (Keeps-throw I _) (
          Keeps-bind I _ _ (Keeps-eval iterable) λ v.
            Keeps-loop_over I v (items_in py v) _ _ (Keeps-assign_target I target)
              (Keeps-loop_body body))
    Keeps-exec break_stmt = Keeps-throw I _
    Keeps-exec continue_stmt = Keeps-throw I _
    Keeps-exec pass_stmt = Keeps-give I py_none
    Keeps-exec (other_stmt class) = Keeps-throw I _

    pub Keeps-exec_block : (b : Block) (result : Value) → Keeps I (exec_block py invoker b result)
    Keeps-exec_block no_stmts result = Keeps-give I result
    Keeps-exec_block (stmt_and s rest) result =
        Keeps-bind I _ _ (Keeps-exec s) (Keeps-exec_block rest)

    pub Keeps-loop_body :
        (b : Block) (result : Value) → Keeps I (exec_loop_body py invoker b result)
    Keeps-loop_body no_stmts result = Keeps-give I _
    Keeps-loop_body (stmt_and s rest) result =
        Keeps-caught I result _ _ (Keeps-exec s) (Keeps-loop_body rest)
