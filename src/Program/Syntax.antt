-- ===== src/Program/Syntax.antt =====
-- toolbox/program_runtime.py: the syntax trees of Python's `ast` module, by what the interpreter reads of
-- them. A node of a class that it refuses is the name of its class.
use toolbox_mcp.Prelude.{String, Option, List}
use toolbox_mcp.Program.Values.{Value}

-- `ast.operator`.
pub data Operator : Type 0 where
  add sub mult div : Operator
  other_operator : String → Operator

-- `ast.cmpop`.
pub data Comparison : Type 0 where
  eq not_eq lt lt_e gt gt_e in_ not_in : Comparison
  other_comparison : String → Comparison

-- `ast.boolop`.
pub data BoolOperator : Type 0 where
  and_ or_ : BoolOperator

-- `ast.unaryop`.
pub data UnaryOperator : Type 0 where
  not_ u_sub u_add : UnaryOperator
  other_unary : String → UnaryOperator

mutual
  pub data Expr : Type 0 where
    constant : Value → Expr
    name : String → Expr
    dict : Exprs → Exprs → Expr
    list : Exprs → Expr
    tuple : Exprs → Expr
    attribute : Expr → String → Expr
    subscript : Expr → Expr → Expr
    -- `a:b` between the brackets of a subscript.
    slice : Expr
    call : Expr → Exprs → Keywords → Expr
    bin_op : Operator → Expr → Expr → Expr
    bool_op : BoolOperator → Exprs → Expr
    compare : Expr → List Comparison → Exprs → Expr
    unary_op : UnaryOperator → Expr → Expr
    if_exp : Expr → Expr → Expr → Expr
    other_expr : String → Expr

  pub data Exprs : Type 0 where
    no_exprs : Exprs
    expr_and : Expr → Exprs → Exprs

  -- `f(name=value)`, and `f(**value)`, which has no name.
  pub data Keywords : Type 0 where
    no_keywords : Keywords
    keyword_and : Option String → Expr → Keywords → Keywords

mutual
  pub data Stmt : Type 0 where
    assign : Exprs → Expr → Stmt
    aug_assign : Expr → Operator → Expr → Stmt
    expr : Expr → Stmt
    if_stmt : Expr → Block → Block → Stmt
    for_stmt : Expr → Expr → Block → Block → Stmt
    break_stmt : Stmt
    continue_stmt : Stmt
    pass_stmt : Stmt
    other_stmt : String → Stmt

  pub data Block : Type 0 where
    no_stmts : Block
    stmt_and : Stmt → Block → Block
