-- ===== src/Program/Evaluator.antt =====
-- toolbox/program_runtime.py: `_eval_expression` and `_exec_statement`, with the functions they call. They
-- recur on the syntax tree; a loop recurs on its items.
use toolbox_mcp.Prelude.{
  Bool, true, false, not, String, Option, none, some, List, [], ◌∷◌, if◌then◌else◌,
}
use toolbox_mcp.Models.{Result}
use toolbox_mcp.Host.{CallToolResult}
use toolbox_mcp.Program.Values.{
  Value, py_none, py_bool, py_list, py_dict, Entries, no_entries, get_entry, set_entry, values_of,
  class_name,
}
use toolbox_mcp.Program.Syntax.{
  Comparison, BoolOperator, and_, or_, UnaryOperator, not_, u_sub, u_add, other_unary, Expr,
  constant, name, dict, list, tuple, attribute, subscript, slice, call, bin_op, bool_op, compare,
  unary_op, if_exp, other_expr, Exprs, no_exprs, expr_and, Keywords, no_keywords, keyword_and, Stmt,
  assign, aug_assign, expr, if_stmt, for_stmt, break_stmt, continue_stmt, pass_stmt, other_stmt,
  Block, no_stmts, stmt_and,
}
use toolbox_mcp.Program.Python.{
  Python, Raised, value_error, break_signal, continue_signal, Outcome, value, raised, truthy,
  items_in, text_for, item_of, apply_binary_operator, negative, positive,
}
use toolbox_mcp.Program.Python.Order.{comparison_operator}
use toolbox_mcp.Program.Machine.{Action, give, throw, conclude, ◌>>=◌, ◌>>◌, caught}
use toolbox_mcp.Program.Builtins.{value_error_of, call_function}
use toolbox_mcp.Program.Assignments.{lookup, assign_target, assign_all, read_assignment_target}
use toolbox_mcp.Program.Loops.{after_statement, loop_over}

abbrev pub is_empty_block : Block → Bool
is_empty_block no_stmts = true
is_empty_block (stmt_and _ _) = false

unfoldable pub attribute_of : String → Value → Outcome Value
unfolding get_entry
attribute_of attr base =
    let refusal = raised (
      value_error_of
        ("Cannot access attribute '" ∷ attr ∷ "' on value of type " ∷ class_name base ∷ [])) in
    elim base [
      | py_dict entries ↦ elim (get_entry entries attr) [ none ↦ refusal | some v ↦ value v ]
      | _ ↦ refusal
    ]

module _ (py : Python) where
  -- A comparison chain over values that are computed already.
  unfoldable pub compare_chain : Value → List Comparison → List Value → Outcome Value
  unfolding comparison_operator
  compare_chain current (c ∷ cs) (v ∷ vs) =
      let rest = compare_chain v cs vs in
      elim (comparison_operator py c current v) [
        | value answer ↦ if not answer then value (py_bool false) else rest
        | raised e ↦ raised e
      ]
  compare_chain current _ _ = value (py_bool true)

  unfoldable pub subscript_of : Value → Value → Outcome Value
  unfolding item_of text_for
  subscript_of base key = elim (item_of py base key) [
    | none ↦
        raised (value_error_of ("Subscript lookup failed for key '" ∷ text_for py key ∷ "'" ∷ []))
    | some v ↦ value v
  ]

  -- The end of `_eval_unary`.
  unfoldable pub apply_unary : UnaryOperator → Value → Outcome Value
  unfolding negative positive
  apply_unary not_ v = value (py_bool (not (truthy py v)))
  apply_unary u_sub v = negative py v
  apply_unary u_add v = positive py v
  apply_unary (other_unary class) v =
      raised (value_error_of ("Unsupported unary operator: " ∷ class ∷ []))

  -- `{str(key): value for key, value in zip(keys, values)}`.
  unfoldable pub zip_entries : List Value → List Value → Entries → Entries
  unfolding set_entry text_for
  zip_entries (key ∷ keys) (v ∷ values) entries =
      zip_entries keys values (set_entry (text_for py key) v entries)
  zip_entries _ _ entries = entries

  -- Whether a Boolean operator ends at a value.
  abbrev pub ends_at : BoolOperator → Value → Bool
  ends_at and_ v = not (truthy py v)
  ends_at or_ v = truthy py v

abbrev pub is_slice : Expr → Bool
is_slice slice = true
is_slice _ = false

abbrev slice_error : Raised
slice_error = value_error "Slice syntax is not supported"

-- The name of a function that is called by its name.
abbrev pub function_name : Expr → Option String
function_name (name id) = some id
function_name _ = none

module _ {W : Type 0} where
  unfoldable pub with_function : Option String → (String → Action W Value) → Action W Value
  with_function none f = throw (value_error "Only direct builtin function calls are supported")
  with_function (some function) f = f function

module _ {W : Type 0} (py : Python)
    (invoker : String → Entries → W → Result CallToolResult × W) where
  unfoldable mutual
    unfolding with_function compare_chain attribute_of subscript_of apply_unary zip_entries lookup
        call_function apply_binary_operator

    -- `_eval_expression`.
    pub eval_expression : Expr → Action W Value
    eval_expression (constant v) = give v
    eval_expression (name id) = lookup id
    eval_expression (dict keys values) = do
      ks ← eval_all keys
      vs ← eval_all values
      give (py_dict (zip_entries py ks vs no_entries))
    eval_expression (list elements) = do vs ← eval_all elements; give (py_list (values_of vs))
    eval_expression (tuple elements) = do vs ← eval_all elements; give (py_list (values_of vs))
    eval_expression (attribute base attr) = do
      v ← eval_expression base
      conclude (attribute_of attr v)
    eval_expression (subscript base key) = do
      v ← eval_expression base
      k ← if is_slice key then throw slice_error else eval_expression key
      conclude (subscript_of py v k)
    eval_expression (call function arguments named) =
        with_function (function_name function) λ function. eval_all arguments >>= λ vs.
        eval_keywords named >>= λ ks. call_function py invoker function vs ks
    eval_expression (bin_op operator left right) = do
      a ← eval_expression left
      b ← eval_expression right
      conclude (apply_binary_operator py operator a b)
    eval_expression (bool_op operator values) = eval_until operator values (py_bool true)
    eval_expression (compare left operators comparators) = do
      a ← eval_expression left
      vs ← eval_all comparators
      conclude (compare_chain py a operators vs)
    eval_expression (unary_op operator operand) = do
      v ← eval_expression operand
      conclude (apply_unary py operator v)
    eval_expression (if_exp test body orelse) = do
      v ← eval_expression test
      if truthy py v then eval_expression body else eval_expression orelse
    eval_expression slice = throw (value_error "Unsupported expression type: Slice")
    eval_expression (other_expr class) =
        throw (value_error_of ("Unsupported expression type: " ∷ class ∷ []))

    -- The expressions of a list, from left to right.
    pub eval_all : Exprs → Action W (List Value)
    eval_all no_exprs = give []
    eval_all (expr_and e es) = do v ← eval_expression e; vs ← eval_all es; give (v ∷ vs)

    -- The keyword arguments that have a name; the others are skipped.
    pub eval_keywords : Keywords → Action W Entries
    eval_keywords no_keywords = give no_entries
    eval_keywords (keyword_and none e rest) = eval_keywords rest
    eval_keywords (keyword_and (some key) e rest) = do
      v ← eval_expression e
      vs ← eval_keywords rest
      give (set_entry key v vs)

    -- `_eval_boolop`: values are computed up to the first that decides.
    pub eval_until : BoolOperator → Exprs → Value → Action W Value
    eval_until operator no_exprs result = give result
    eval_until operator (expr_and e es) result = do
      v ← eval_expression e
      if ends_at py operator v then give v else eval_until operator es v

  unfoldable mutual
    unfolding eval_expression assign_all read_assignment_target apply_binary_operator
        after_statement loop_over items_in

    -- `_exec_statement`.
    pub exec_statement : Stmt → Action W Value
    exec_statement (assign targets e) = do v ← eval_expression e; assign_all targets v; give v
    exec_statement (aug_assign target operator e) = do
      current ← read_assignment_target target
      v ← eval_expression e
      updated ← conclude (apply_binary_operator py operator current v)
      assign_target target updated
      give updated
    exec_statement (expr e) = eval_expression e
    exec_statement (if_stmt test body orelse) = do
      v ← eval_expression test
      if truthy py v then exec_block body py_none else exec_block orelse py_none
    exec_statement (for_stmt target iterable body orelse) =
        let inner = exec_loop_body body in
        if not (is_empty_block orelse)
        then throw (value_error "For-else blocks are not supported")
        else eval_expression iterable >>= λ v.
            loop_over v (items_in py v) (assign_target target) inner
    exec_statement break_stmt = throw break_signal
    exec_statement continue_stmt = throw continue_signal
    exec_statement pass_stmt = give py_none
    exec_statement (other_stmt class) =
        throw (value_error_of ("Unsupported statement type: " ∷ class ∷ []))

    -- The statements of a block, with the value of the last one.
    pub exec_block : Block → Value → Action W Value
    exec_block no_stmts result = give result
    exec_block (stmt_and s rest) result = exec_statement s >>= exec_block rest

    -- The body of a loop, once; a signal ends it with the result so far.
    pub exec_loop_body : Block → Value → Action W (Value × Bool)
    exec_loop_body no_stmts result = give (result, false)
    exec_loop_body (stmt_and s rest) result = do
      outcome ← caught (exec_statement s)
      after_statement result outcome (exec_loop_body rest)
