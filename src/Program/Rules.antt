-- ===== src/Program/Rules.antt =====
-- toolbox/program_runtime.py: what an action of a run keeps. One rule for each way to build an action.
use toolbox_mcp.Prelude.{
  ℕ, ◌+◌, ◌-◌, ◌≤◌, ◌≡◌, refl, ap, Bool, true, false, not, List, [], ◌∷◌, ◌++◌, length,
  length-append, take, all_of, if◌then◌else◌, arith,
}
use toolbox_mcp.Content.{redacted_fields}
use toolbox_mcp.Program.Values.{Value}
use toolbox_mcp.Program.Python.{
  Raised, issue, value_error, syntax_error, break_signal, continue_signal, other_raised, Outcome,
  value, raised,
}
use toolbox_mcp.Program.Machine.{
  ProgramCallTrace, Machine, Action, give, throw, conclude, reads, updates, ◌>>=◌, proceed, caught,
}
use toolbox_mcp.Program.Builtins.{max_loop_iterations, max_tool_calls}
use toolbox_mcp.Program.Loops.{after_statement}

-- Traces that are numbered without gaps and hold redacted arguments.
abbrev pub IsTraced : ℕ → List ProgramCallTrace → Type 0
IsTraced k [] = Unit
IsTraced k (t ∷ ts) =
    (t.index ≡ k + 1) × (redacted_fields t.arguments ≡ t.arguments) × IsTraced (k + 1) ts

abbrev pub passed : ProgramCallTrace → Bool
passed t = not t.is_error

abbrev pub all_but_last : List ProgramCallTrace → List ProgramCallTrace
all_but_last ts = take (length ts - 1) ts

pub IsTraced-append :
    (k : ℕ) (ts : List ProgramCallTrace) (t : ProgramCallTrace)
    → IsTraced k ts
    → t.index ≡ k + length ts + 1
    → redacted_fields t.arguments ≡ t.arguments
    → IsTraced k (ts ++ (t ∷ []))
IsTraced-append k [] t h i r = (omega arith, r, tt)
IsTraced-append k (x ∷ ts) t (a, b, h) i r = (a, b, IsTraced-append (k + 1) ts t h (omega arith) r)

pub all_but_last-append :
    (ts : List ProgramCallTrace) (t : ProgramCallTrace) → all_but_last (ts ++ (t ∷ [])) ≡ ts
all_but_last-append ts t = rw (shorter) (front ts)
  where
    shorter : length (ts ++ (t ∷ [])) - 1 ≡ length ts
    shorter = omega (arith, length-append ts (t ∷ []))

    front : (xs : List ProgramCallTrace) → take (length xs) (xs ++ (t ∷ [])) ≡ xs
    front [] = refl
    front (x ∷ xs) = ap (λ rest. x ∷ rest) (front xs)

pub all_of-all_but_last :
    (ts : List ProgramCallTrace) → all_of passed ts ≡ true → all_of passed (all_but_last ts) ≡ true
all_of-all_but_last [] h = refl
all_of-all_but_last (x ∷ []) h = refl
all_of-all_but_last (x ∷ y ∷ ts) h = ground (arith, all_of-all_but_last (y ∷ ts))

pub all_of-append :
    (ts : List ProgramCallTrace) (t : ProgramCallTrace)
    → all_of passed ts ≡ true
    → passed t ≡ true
    → all_of passed (ts ++ (t ∷ [])) ≡ true
all_of-append [] t h p = ground arith
all_of-append (x ∷ ts) t h p = ground (arith, all_of-append ts t)

-- What a run is measured by.
pub record Budget (W : Type 0) : Type 1 where
  -- The loop iterations that were counted at the start.
  pub counted_before : ℕ
  -- Which worlds there may be after a number of calls of tools.
  pub holds : ℕ → W → Type 0

module _ {W : Type 0} (I : Budget W) where
  -- A machine whose program goes on.
  pub record Clean (m : Machine W) : Type 0 where
    pub loops : m.loop_iterations ≤ max_loop_iterations
    pub since : I.counted_before ≤ m.loop_iterations
    pub room : length m.traces ≤ max_tool_calls
    pub traced : IsTraced 0 m.traces
    pub all_passed : all_of passed m.traces ≡ true
    pub calls : I.holds (length m.traces) m.world

  -- A machine whose program was ended by an issue.
  pub record Bounded (m : Machine W) : Type 0 where
    pub loops : m.loop_iterations ≤ max_loop_iterations + 1
    pub since : I.counted_before ≤ m.loop_iterations
    pub room : length m.traces ≤ max_tool_calls
    pub traced : IsTraced 0 m.traces
    pub passed_before : all_of passed (all_but_last m.traces) ≡ true
    pub count : ℕ
    pub few : count ≤ max_tool_calls
    pub calls : I.holds count m.world

  pub Bounded-of_Clean : (m : Machine W) → Clean m → Bounded m
  Bounded-of_Clean m c = record {
    loops = omega (arith, c.loops);
    since = c.since;
    room = c.room;
    traced = c.traced;
    passed_before = all_of-all_but_last m.traces c.all_passed;
    count = length m.traces;
    few = c.room;
    calls = c.calls;
  }

  abbrev pub AfterRaise : Raised → Machine W → Type 0
  AfterRaise (issue code message details) m = Bounded m
  AfterRaise _ m = Clean m

  pub AfterRaise-of_Clean : (e : Raised) (m : Machine W) → Clean m → AfterRaise e m
  AfterRaise-of_Clean (issue code message details) m c = Bounded-of_Clean m c
  AfterRaise-of_Clean (value_error message) m c = c
  AfterRaise-of_Clean (syntax_error message line offset) m c = c
  AfterRaise-of_Clean break_signal m c = c
  AfterRaise-of_Clean continue_signal m c = c
  AfterRaise-of_Clean (other_raised message) m c = c

  pub Bounded-of_AfterRaise : (e : Raised) (m : Machine W) → AfterRaise e m → Bounded m
  Bounded-of_AfterRaise (issue code message details) m b = b
  Bounded-of_AfterRaise (value_error message) m c = Bounded-of_Clean m c
  Bounded-of_AfterRaise (syntax_error message line offset) m c = Bounded-of_Clean m c
  Bounded-of_AfterRaise break_signal m c = Bounded-of_Clean m c
  Bounded-of_AfterRaise continue_signal m c = Bounded-of_Clean m c
  Bounded-of_AfterRaise (other_raised message) m c = Bounded-of_Clean m c

  module _ {A : Type 0} where
    abbrev pub After : Outcome A → Machine W → Type 0
    After (value a) m = Clean m
    After (raised e) m = AfterRaise e m

    pub record Keeps (action : Action W A) : Type 0 where
      pub at : (m : Machine W) → Clean m → After (action m).0 (action m).1

    pub Keeps-give : (a : A) → Keeps (give a)
    unfolding give
    Keeps-give a = record { at = λ m c. c }

    pub Keeps-throw : (e : Raised) → Keeps (throw e)
    unfolding throw
    Keeps-throw e = record { at = λ m c. AfterRaise-of_Clean e m c }

    pub Keeps-conclude : (o : Outcome A) → Keeps (conclude o)
    unfolding conclude
    Keeps-conclude (value a) = record { at = λ m c. c }
    Keeps-conclude (raised e) = record { at = λ m c. AfterRaise-of_Clean e m c }

    pub Keeps-reads : (f : Machine W → A) → Keeps (reads f)
    unfolding reads
    Keeps-reads f = record { at = λ m c. c }

    pub After-if :
        (b : Bool) (action other : Action W A) (m : Machine W)
        → (b ≡ true → After (action m).0 (action m).1)
        → (b ≡ false → After (other m).0 (other m).1)
        → let out = (if b then action else other) m in After out.0 out.1
    After-if true action other m h k = h refl
    After-if false action other m h k = k refl

    pub Keeps-if :
        (b : Bool) (action other : Action W A)
        → Keeps action
        → Keeps other
        → Keeps (if b then action else other)
    Keeps-if true action other h k = h
    Keeps-if false action other h k = k

  pub Keeps-updates :
      (f : Machine W → Machine W) → ((m : Machine W) → Clean m → Clean (f m)) → Keeps (updates f)
  unfolding updates
  Keeps-updates f h = record { at = h }

  module _ {A B : Type 0} where
    After-proceed :
        (o : Outcome A) (f : A → Action W B) (m : Machine W)
        → ((a : A) → Keeps (f a))
        → After o m
        → After (proceed o f m).0 (proceed o f m).1
    After-proceed (value a) f m h c = (h a).at m c
    After-proceed (raised e) f m h c = c

    pub Keeps-bind :
        (action : Action W A) (f : A → Action W B)
        → Keeps action
        → ((a : A) → Keeps (f a))
        → Keeps (action >>= f)
    unfolding ◌>>=◌
    Keeps-bind action f h k = record {
      at = λ m c. let (o, m') = action m in After-proceed o f m' k (h.at m c);
    }

  module _ where
    after_statement_lem :
        (result : Value) (o : Outcome Value) (next : Value → Action W (Value × Bool))
        (m : Machine W)
        → ((v : Value) → Keeps (next v))
        → After o m
        → After (after_statement result o next m).0 (after_statement result o next m).1
    unfolding after_statement give throw
    after_statement_lem result (value v) next m h c = (h v).at m c
    after_statement_lem result (raised continue_signal) next m h c = c
    after_statement_lem result (raised break_signal) next m h c = c
    after_statement_lem result (raised (issue code message details)) next m h c = c
    after_statement_lem result (raised (value_error message)) next m h c = c
    after_statement_lem result (raised (syntax_error message line offset)) next m h c = c
    after_statement_lem result (raised (other_raised message)) next m h c = c

  pub Keeps-caught :
      (result : Value) (action : Action W Value) (next : Value → Action W (Value × Bool))
      → Keeps action
      → ((v : Value) → Keeps (next v))
      → Keeps (caught action >>= λ outcome. after_statement result outcome next)
  unfolding caught ◌>>=◌
  Keeps-caught result action next h k = record {
    at = λ m c. let (o, m') = action m in after_statement_lem result o next m' k (h.at m c);
  }
