-- ===== src/Program.antt =====
-- toolbox/program_runtime.py: the interpreter for restricted programs over mounted tools.
pub mod Integers
pub mod Values
pub mod Syntax
pub mod Python
pub mod Machine
pub mod Builtins
pub mod Assignments
pub mod Loops
pub mod Evaluator
pub mod Run
pub mod Rules
pub mod ToolCalls
pub mod Kept
pub mod Budgets
pub mod Variables
