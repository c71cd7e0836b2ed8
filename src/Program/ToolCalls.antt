-- ===== src/Program/ToolCalls.antt =====
-- toolbox/program_runtime.py: `_call_tool_builtin`, by the rules of a run.
use toolbox_mcp.Prelude.{
  ℕ, ◌+◌, ◌<◌, ◌≡◌, refl, ap, sym, ◌∙◌, subst, Bool, true, false, not, String, List, [], ◌∷◌, ◌++◌,
  length, length-append, all_of, if◌then◌else◌, arith, leb,
}
use toolbox_mcp.Json.{arr, obj}
use toolbox_mcp.Models.{timeout_error, other_error, Result, ok, err}
use toolbox_mcp.Host.{CallToolResult}
use toolbox_mcp.Content.{redacted_value, redacted_items, redacted_fields}
use toolbox_mcp.Program.Values.{
  Value, py_none, py_bool, py_int, py_float, py_str, py_list, py_tuple, py_dict, py_opaque, Values,
  no_values, value_and, Entries, no_entries, entry_and, redacted_argument_value,
  redacted_argument_items, redacted_argument_entries,
}
use toolbox_mcp.Program.Machine.{
  ProgramCallTrace, Machine, Action, give, throw, reads, updates, ◌>>=◌,
}
use toolbox_mcp.Program.Builtins.{
  max_tool_calls, invoke, new_trace, call_traced, call_returned, call_named, call_positional,
  call_checked, call_tool_builtin,
}
use toolbox_mcp.Program.Rules.{
  Budget, IsTraced, IsTraced-append, passed, all_but_last, all_but_last-append, all_of-append,
  Clean, Bounded, After, Keeps, After-if, Keeps-throw, AfterRaise-of_Clean, Keeps-bind, Keeps-if,
}

mutual
  unfolding redacted_value redacted_argument_value

  redacted_value-idempotent :
      (v : Value) → redacted_value (redacted_argument_value v) ≡ redacted_argument_value v
  redacted_value-idempotent py_none = refl
  redacted_value-idempotent (py_list items) = ap arr (redacted_items-idempotent items)
  redacted_value-idempotent (py_tuple items) = ap arr (redacted_items-idempotent items)
  redacted_value-idempotent (py_dict arguments) = ap obj (redacted_fields-idempotent arguments)
  redacted_value-idempotent (py_bool b) = refl
  redacted_value-idempotent (py_int n) = refl
  redacted_value-idempotent (py_float text) = refl
  redacted_value-idempotent (py_str text) = refl
  redacted_value-idempotent (py_opaque class text) = refl

  redacted_items-idempotent :
      (vs : Values) → redacted_items (redacted_argument_items vs) ≡ redacted_argument_items vs
  redacted_items-idempotent no_values = refl
  redacted_items-idempotent (value_and v vs) =
      cc (redacted_value-idempotent v, redacted_items-idempotent vs)

  redacted_fields-idempotent :
      (d : Entries) → redacted_fields (redacted_argument_entries d) ≡ redacted_argument_entries d
  redacted_fields-idempotent no_entries = refl
  redacted_fields-idempotent (entry_and key v d) =
      cc (redacted_value-idempotent v, redacted_fields-idempotent d)

module _ {W : Type 0} (I : Budget W) (invoker : String → Entries → W → Result CallToolResult × W)
    (calls : (tool : String) (arguments : Entries) (n : ℕ) (w : W)
      → I.holds n w
      → I.holds (n + 1) (invoker tool arguments w).1) where
  module _ (m : Machine W) (c : Clean I m) (free : length m.traces < max_tool_calls) (w : W)
      (called : I.holds (length m.traces + 1) w) where
    ended : Bounded I (record m { world = w })
    ended = record {
      loops = omega (arith, c.loops);
      since = c.since;
      room = c.room;
      traced = c.traced;
      passed_before = toolbox_mcp.Program.Rules.all_of-all_but_last m.traces c.all_passed;
      count = length m.traces + 1;
      few = omega (arith, free);
      calls = called;
    }

    module _ (t : ProgramCallTrace) (i : t.index ≡ length m.traces + 1)
        (r : redacted_fields t.arguments ≡ t.arguments) where
      abbrev longer : Machine W
      longer = record m { world = w; traces = m.traces ++ (t ∷ []) }

      grown : length (m.traces ++ (t ∷ [])) ≡ length m.traces + 1
      grown = length-append m.traces (t ∷ [])

      traced_Clean : passed t ≡ true → Clean I longer
      traced_Clean p = record {
        loops = c.loops;
        since = c.since;
        room = omega (arith, free, grown);
        traced = IsTraced-append 0 m.traces t c.traced (omega (arith, i)) r;
        all_passed = all_of-append m.traces t c.all_passed p;
        calls = subst (λ n. I.holds n w) (sym grown) called;
      }

      traced_Bounded : Bounded I longer
      traced_Bounded = record {
        loops = omega (arith, c.loops);
        since = c.since;
        room = omega (arith, free, grown);
        traced = IsTraced-append 0 m.traces t c.traced (omega (arith, i)) r;
        passed_before = ap (all_of passed) (all_but_last-append m.traces t) ∙ c.all_passed;
        count = length m.traces + 1;
        few = omega (arith, free);
        calls = called;
      }

      After-call_traced :
          (tool : String) → After I (call_traced tool t longer).0 (call_traced tool t longer).1
      unfolding call_traced give throw
      After-call_traced tool =
          After-if I t.is_error _ _ longer (λ _. traced_Bounded)
            (λ fine. traced_Clean (ap not fine))

    After-call_returned :
        (tool : String) (arguments : Entries) (r : Result CallToolResult)
        → let out = call_returned tool arguments r (record m { world = w }) in After I out.0 out.1
    unfolding call_returned throw ◌>>=◌ reads updates
    After-call_returned tool arguments (err (timeout_error message)) = ended
    After-call_returned tool arguments (err (other_error message)) = ended
    After-call_returned tool arguments (ok result) =
        After-call_traced (new_trace (length m.traces) tool arguments result) (index_lem)
          (arguments_lem) tool
      where
        index_lem : (new_trace (length m.traces) tool arguments result).index ≡ length m.traces + 1
        index_lem = refl

        arguments_lem :
            redacted_fields (new_trace (length m.traces) tool arguments result).arguments
            ≡ (new_trace (length m.traces) tool arguments result).arguments
        arguments_lem = redacted_fields-idempotent arguments

  After-called :
      (tool : String) (arguments : Entries) (m : Machine W)
      → Clean I m
      → length m.traces < max_tool_calls
      → let out = (invoke invoker tool arguments >>= call_returned tool arguments) m in
        After I out.0 out.1
  unfolding invoke ◌>>=◌
  After-called tool arguments m c free =
      let (r, w) = invoker tool arguments m.world in
      After-call_returned m c free w (calls tool arguments (length m.traces) m.world c.calls) tool
        arguments r

  -- What an action keeps while there is room for a call.
  record KeepsWithRoom (action : Action W Value) : Type 0 where
    within :
        (m : Machine W)
        → Clean I m
        → length m.traces < max_tool_calls
        → After I (action m).0 (action m).1

  KeepsWithRoom-of_Keeps : (action : Action W Value) → Keeps I action → KeepsWithRoom action
  KeepsWithRoom-of_Keeps action h = record { within = λ m c free. h.at m c }

  call_named-Keeps : (tool arguments : Value) → KeepsWithRoom (call_named invoker tool arguments)
  unfolding call_named
  call_named-Keeps (py_str tool) py_none = record { within = After-called tool no_entries }
  call_named-Keeps (py_str tool) (py_dict arguments) = record {
    within = After-called tool arguments;
  }
  call_named-Keeps (py_str tool) (py_bool _) = KeepsWithRoom-of_Keeps _ (Keeps-throw I _)
  call_named-Keeps (py_str tool) (py_int _) = KeepsWithRoom-of_Keeps _ (Keeps-throw I _)
  call_named-Keeps (py_str tool) (py_float _) = KeepsWithRoom-of_Keeps _ (Keeps-throw I _)
  call_named-Keeps (py_str tool) (py_str _) = KeepsWithRoom-of_Keeps _ (Keeps-throw I _)
  call_named-Keeps (py_str tool) (py_list _) = KeepsWithRoom-of_Keeps _ (Keeps-throw I _)
  call_named-Keeps (py_str tool) (py_tuple _) = KeepsWithRoom-of_Keeps _ (Keeps-throw I _)
  call_named-Keeps (py_str tool) (py_opaque _ _) = KeepsWithRoom-of_Keeps _ (Keeps-throw I _)
  call_named-Keeps py_none arguments = KeepsWithRoom-of_Keeps _ (Keeps-throw I _)
  call_named-Keeps (py_bool _) arguments = KeepsWithRoom-of_Keeps _ (Keeps-throw I _)
  call_named-Keeps (py_int _) arguments = KeepsWithRoom-of_Keeps _ (Keeps-throw I _)
  call_named-Keeps (py_float _) arguments = KeepsWithRoom-of_Keeps _ (Keeps-throw I _)
  call_named-Keeps (py_list _) arguments = KeepsWithRoom-of_Keeps _ (Keeps-throw I _)
  call_named-Keeps (py_tuple _) arguments = KeepsWithRoom-of_Keeps _ (Keeps-throw I _)
  call_named-Keeps (py_dict _) arguments = KeepsWithRoom-of_Keeps _ (Keeps-throw I _)
  call_named-Keeps (py_opaque _ _) arguments = KeepsWithRoom-of_Keeps _ (Keeps-throw I _)

  call_positional-Keeps :
      (positional : List Value) (keywords : Entries)
      → KeepsWithRoom (call_positional invoker positional keywords)
  unfolding call_positional
  call_positional-Keeps [] keywords = call_named-Keeps _ _
  call_positional-Keeps (tool ∷ []) keywords = call_named-Keeps tool py_none
  call_positional-Keeps (tool ∷ arguments ∷ rest) keywords = call_named-Keeps tool arguments

  KeepsWithRoom-if :
      (b : Bool) (action other : Action W Value)
      → KeepsWithRoom action
      → KeepsWithRoom other
      → KeepsWithRoom (if b then action else other)
  KeepsWithRoom-if true action other h k = h
  KeepsWithRoom-if false action other h k = k

  call_checked-Keeps :
      (positional : List Value) (keywords : Entries)
      → KeepsWithRoom (call_checked invoker positional keywords)
  unfolding call_checked
  call_checked-Keeps positional keywords =
      KeepsWithRoom-if _ _ _ (KeepsWithRoom-of_Keeps _ (Keeps-throw I _))
        (call_positional-Keeps positional keywords)

  -- A call of a tool from a program keeps the budget of calls and the traces.
  pub call_tool_builtin-Keeps :
      (positional : List Value) (keywords : Entries)
      → Keeps I (call_tool_builtin invoker positional keywords)
  unfolding call_tool_builtin ◌>>=◌ reads
  call_tool_builtin-Keeps positional keywords = record {
    at = λ m c.
        After-if I (leb max_tool_calls (length m.traces)) _ _ m (λ _. (Keeps-throw I _).at m c)
          (λ free. (call_checked-Keeps positional keywords).within m c (ground (arith, free)));
  }
