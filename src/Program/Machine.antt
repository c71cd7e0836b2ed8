-- ===== src/Program/Machine.antt =====
-- toolbox/program_runtime.py: the state of a `ToolProgramRuntime` during a run, and actions on it. The type
-- `W` is the world that the tool invoker acts on. What an action wrote before it raised stays written.
use toolbox_mcp.Prelude.{ℕ, String, Bool, Option, List}
use toolbox_mcp.Json.{Json, Fields}
use toolbox_mcp.Program.Values.{Entries}
use toolbox_mcp.Program.Python.{Raised, Outcome, value, raised}

-- toolbox/models.py: `ProgramCallTrace`. The field `data` is `data_value`, with `null` for `None`.
pub record ProgramCallTrace : Type 0 where
  pub index : ℕ
  pub tool : String
  pub arguments : Fields
  pub data_value : Json
  pub text : Option String
  pub is_error : Bool
  pub error_message : Option String

pub record Machine (W : Type 0) : Type 0 where
  pub traces : List ProgramCallTrace
  pub loop_iterations : ℕ
  pub environment : Entries
  pub world : W

abbrev pub Action : Type 0 → Type 0 → Type 0
Action W A = Machine W → Outcome A × Machine W

module _ {W A : Type 0} where
  unfoldable pub give : A → Action W A
  give a m = (value a, m)

  unfoldable pub throw : Raised → Action W A
  throw e m = (raised e, m)

  unfoldable pub conclude : Outcome A → Action W A
  conclude o m = (o, m)

  unfoldable pub reads : (Machine W → A) → Action W A
  reads f m = (value (f m), m)

module _ {W : Type 0} where
  unfoldable pub updates : (Machine W → Machine W) → Action W (Unit {0})
  updates f m = (value tt, f m)

module _ {W A B : Type 0} where
  abbrev pub proceed : Outcome A → (A → Action W B) → Action W B
  proceed (value a) f m = f a m
  proceed (raised e) f m = (raised e, m)

  infixl 5 ◌>>=◌ ◌>>◌
  unfoldable pub ◌>>=◌ : Action W A → (A → Action W B) → Action W B
  ◌>>=◌ action f m = let (o, m') = action m in proceed o f m'

  abbrev pub ◌>>◌ : Action W A → Action W B → Action W B
  action >> next = action >>= λ _. next

module _ {W A : Type 0} where
  -- A `try` statement: what it makes of the outcome of its body.
  unfoldable pub caught : Action W A → Action W (Outcome A)
  caught action m = let (o, m') = action m in (value o, m')
