-- ===== src/Program/Assignments.antt =====
-- toolbox/program_runtime.py: `_assign_target` and `_read_assignment_target`, and what they call.
use toolbox_mcp.Prelude.{
  ℕ, suc, not, String, Option, none, some, List, [], ◌∷◌, length, if◌then◌else◌, nat_beq, show_nat,
}
use toolbox_mcp.Program.Values.{
  Value, py_list, py_tuple, get_entry, set_entry, values_list, class_name,
}
use toolbox_mcp.Program.Syntax.{
  Expr, constant, name, dict, list, tuple, attribute, subscript, slice, call, bin_op, bool_op,
  compare, unary_op, if_exp, other_expr, Exprs, no_exprs, expr_and,
}
use toolbox_mcp.Program.Machine.{Action, give, throw, reads, updates, ◌>>=◌, ◌>>◌}
use toolbox_mcp.Program.Builtins.{value_error_of}

-- The class of a node, by which an error names it.
abbrev pub expr_class : Expr → String
expr_class (constant _) = "Constant"
expr_class (name _) = "Name"
expr_class (dict _ _) = "Dict"
expr_class (list _) = "List"
expr_class (tuple _) = "Tuple"
expr_class (attribute _ _) = "Attribute"
expr_class (subscript _ _) = "Subscript"
expr_class slice = "Slice"
expr_class (call _ _ _) = "Call"
expr_class (bin_op _ _ _) = "BinOp"
expr_class (bool_op _ _) = "BoolOp"
expr_class (compare _ _ _) = "Compare"
expr_class (unary_op _ _) = "UnaryOp"
expr_class (if_exp _ _ _) = "IfExp"
expr_class (other_expr class) = class

abbrev pub count_exprs : Exprs → ℕ
count_exprs no_exprs = 0
count_exprs (expr_and _ rest) = suc (count_exprs rest)

-- The items of a list or a tuple, and no others.
abbrev pub unpacked : Value → Option (List Value)
unpacked (py_list items) = some (values_list items)
unpacked (py_tuple items) = some (values_list items)
unpacked _ = none

module _ {W : Type 0} where
  -- A name that is read.
  unfoldable pub lookup : String → Action W Value
  unfolding get_entry
  lookup id = do
    found ← reads (λ m. get_entry m.environment id)
    elim found [ none ↦ throw (value_error_of ("Unknown variable: " ∷ id ∷ [])) | some v ↦ give v ]

  -- A list or a tuple of as many items as there are targets.
  unfoldable pub unpack :
      ℕ → Value → Option (List Value) → (List Value → Action W (Unit {0})) → Action W (Unit {0})
  unpack count v none each =
      throw (value_error_of ("Cannot unpack value of type " ∷ class_name v ∷ []))
  unpack count v (some items) each =
      if not (nat_beq count (length items))
      then throw (
          value_error_of (
            "Cannot unpack "
            ∷ show_nat (length items)
            ∷ " value(s) into "
            ∷ show_nat count
            ∷ " target(s)"
            ∷ []))
      else each items

  unfoldable mutual
    unfolding set_entry unpack

    -- `_assign_target`.
    pub assign_target : Expr → Value → Action W (Unit {0})
    assign_target (name id) v =
        updates (λ m. record m { environment = set_entry id v m.environment })
    assign_target (tuple targets) v =
        unpack (count_exprs targets) v (unpacked v) (assign_each targets)
    assign_target (list targets) v =
        unpack (count_exprs targets) v (unpacked v) (assign_each targets)
    assign_target target v =
        throw (value_error_of ("Unsupported assignment target: " ∷ expr_class target ∷ []))

    pub assign_each : Exprs → List Value → Action W (Unit {0})
    assign_each no_exprs items = give tt
    assign_each (expr_and target targets) [] = give tt
    assign_each (expr_and target targets) (item ∷ items) =
        assign_target target item >> assign_each targets items

  -- The loop over `statement.targets`.
  unfoldable pub assign_all : Exprs → Value → Action W (Unit {0})
  unfolding assign_target
  assign_all no_exprs v = give tt
  assign_all (expr_and target targets) v = assign_target target v >> assign_all targets v

  -- `_read_assignment_target`.
  unfoldable pub read_assignment_target : Expr → Action W Value
  unfolding lookup
  read_assignment_target (name id) = lookup id
  read_assignment_target target =
      throw (value_error_of ("Unsupported assignment target: " ∷ expr_class target ∷ []))
