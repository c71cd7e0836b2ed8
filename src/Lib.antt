-- ===== src/Lib.antt =====
-- Toolbox MCP: a model of the Toolbox control plane and its program runtime, and what holds of it.
--
-- The program keeps a registry of toolsets (downstream MCP servers) in a JSON state file, starts and stops
-- their runtimes, and moves each toolset's record through registration, activation, refresh, health
-- checks, restore, deactivation and unregistration. Each call of the service goes over namespaces, and for
-- each one reads the record, asks the transport manager, writes the record, its snapshots and an audit
-- event. The tools of running toolsets are called by their dotted names, one at a time, in batches whose
-- steps may refer to the results of earlier ones, or from programs in a part of Python.
--
-- The files, by the part of the program that they model:
--   * Prelude: Booleans, lists, equality, sorting and text that all parts share.
--   * Json: JSON values, as details of audit events and tool schemas hold them.
--   * Models (toolbox/models.py): scopes, records, snapshots, audit events and the state document;
--     Models/Policy is the validator `ToolsetRecord.validate_scope_policy` and what a valid record is.
--   * ScopeManager (toolbox/scope_manager.py): every method of `ScopeManager`; a method that changes its
--     record returns whether it did and the new record.
--   * Validation (toolbox/validation.py): inventories of tools, their hashes and their difference.
--   * Content: the redaction of arguments and the text of a result, which toolbox/service.py and
--     toolbox/program_runtime.py each have.
--   * Secrets (toolbox/transport_secrets.py): how the state file keeps the arguments and the environment of
--     a transport. Secrets/Providers has the two providers and the key file.
--   * Registry (toolbox/registry.py): `JsonStateStore` as functions on the state document; `_mutate` and
--     `load` are actions in Effects. Lookup, Frame, Audit and WellFormed hold the lemmas, and
--     Refinement the three maps that the document stands for.
--   * Host: what the program calls and does not implement, as a record of functions. An answer may depend
--     on how many questions came before it, so a theorem for every host covers every course of events.
--     How the close of a runtime ends is such an answer too.
--   * Effects: the world (state file, table of runtimes, counters) and actions on it that may raise.
--     Effects/Spec has one rule for each way to build an action.
--   * Transport (toolbox/transport_manager.py): `TransportManager` and the calls and probes of a runtime.
--   * Program (toolbox/program_runtime.py): `ToolProgramRuntime`. Values, Syntax and Python are the values,
--     the syntax trees and Python's operators and functions; Builtins, Assignments, Loops and Evaluator are
--     the interpreter, Run is `run` and its result. A method is an action on a machine that holds the traces,
--     the count of iterations, the variables and the world of the tool invoker; `break` and `continue` are
--     exceptions, as in the source. Rules, ToolCalls and Kept hold the lemmas of Budgets.
--   * Service (toolbox/service.py): `ToolboxService`, one module for each operation. A handler is cut at its
--     early returns, as `activate_found` after the look-up. Its `try` block is an `attempt` for each part
--     after which the record has another value, since the `except` branch writes the record as it then is.
--     Service/Steps says what a handler may do for a namespace, as a step relation on worlds, and
--     Service/Operations puts the operations together. Mounted is `call_mounted_tool` with the
--     resolution of names, References and Batch are `run_tool_batch`, Programs is `run_tool_program`, and
--     Contracts the inspection and the difference of tool contracts.
--   * Tests: the theorems at concrete inputs.
--
-- Numbers are natural numbers: the sizes and sequence numbers of the program are never negative. Integers of
-- programs may be negative. No fuel is needed: every loop runs over a list, the interpreter recurs on the
-- syntax tree, and a range is counted up to the distance of its ends.
--
-- Parameters: Host stands for the clock, the servers and the libraries; Program/Python's record for
-- `ast.parse`, floats, the limit of recursion, constants of other classes and the texts of containers and of
-- Python's own errors; Secrets/Providers' record for ciphers, base64, JSON and the operating
-- system.
--
-- Not modelled: the encoding of the state file (`_restore_payload`, `_serialize_document`). What a reading or a
-- writing of it raises is a part of the world: `load` and `mutate` raise it, and a sound world is one whose file
-- can be read and written. The limit of Python's recursion is modelled where the answer to a program is built,
-- outside of its `try`, and nowhere else. Not modelled either: the actor behind a runtime's queue
-- (toolbox/stdio_transport.py and `_runtime_actor`), the table of namespace locks (a handler's body for a
-- namespace is one action), search, list and status views, the contract summaries that a program's caller may
-- ask for, and the forwarding of toolbox/server.py. The default toolset that the service registers on its
-- first start is not modelled either.
pub mod Prelude
pub mod Json
pub mod Models
pub mod ScopeManager
pub mod Host
pub mod Content
pub mod Validation
pub mod Secrets
pub mod Registry
pub mod Effects
pub mod Transport
pub mod Program
pub mod Service
pub mod Tests
