-- ===== src/Registry/Audit.antt =====
-- toolbox/registry.py: the audit log, its numbering, its retention and its queries.
use toolbox_mcp.Prelude.{
  ℕ, zero, suc, ◌+◌, ◌-◌, ◌≤◌, ◌<◌, ◌≡◌, ◌↔◌, ◌⊎◌, refl, sym, ap, subst, String, Bool, true, false,
  Option, none, some, List, [], ◌∷◌, ◌++◌, map, arith, if◌then◌else◌, ◌==◌, string_eq, eq_iff,
  filter_by, length, drop, take, take_last, ltb, length-append, length-drop, Bool-cases, inl, inr,
}
use toolbox_mcp.Models.{StoredAuditEvent, AuditEvent, StateDocument, operation_eq, outcome_eq}
use toolbox_mcp.Registry.{
  retained, append_audit_event, AuditFilter, passes, is_namespace, is_presence, selects,
  to_audit_event, limited, list_audit_events,
}

-- The events are numbered without gaps, and the last one stands just below `next`.
abbrev pub IsNumbered : ℕ → List StoredAuditEvent → Type 0
IsNumbered next [] = Unit
IsNumbered next (e ∷ es) = (e.sequence + length (e ∷ es) ≡ next) × IsNumbered next es

IsNumbered-append :
    (next : ℕ) (log : List StoredAuditEvent) (e : StoredAuditEvent)
    → e.sequence ≡ next
    → IsNumbered next log
    → IsNumbered (next + 1) (log ++ e ∷ [])
IsNumbered-append next [] e h n = (omega arith, tt)
IsNumbered-append next (x ∷ log) e h n =
    (omega (arith, length-append log (e ∷ [])), IsNumbered-append next log e h n.1)

IsNumbered-drop :
    (next k : ℕ) (log : List StoredAuditEvent) → IsNumbered next log → IsNumbered next (drop k log)
IsNumbered-drop next zero log h = h
IsNumbered-drop next (suc k) [] h = h
IsNumbered-drop next (suc k) (x ∷ log) h = IsNumbered-drop next k log h.1

take_last-IsNumbered :
    (next limit : ℕ) (log : List StoredAuditEvent)
    → IsNumbered next log
    → IsNumbered next (take_last limit log)
take_last-IsNumbered next zero log h = h
take_last-IsNumbered next (suc limit) log h = IsNumbered-drop next (length log - suc limit) log h

retained-IsNumbered :
    (next limit : ℕ) (log : List StoredAuditEvent)
    → IsNumbered next log
    → IsNumbered next (retained limit log)
unfolding retained
retained-IsNumbered next limit log h = elim (Bool-cases (ltb limit (length log))) [
  | inl cut ↦ rw cut (take_last-IsNumbered next limit log h)
  | inr short ↦ rw short h
]

length-take_last :
    (limit : ℕ) (log : List StoredAuditEvent)
    → 0 < limit
    → limit < length log
    → length (take_last limit log) ≡ limit
length-take_last zero log p h = absurd (omega arith)
length-take_last (suc limit) log p h = omega (arith, length-drop (length log - suc limit) log)

length-retained :
    (limit : ℕ) (log : List StoredAuditEvent)
    → 0 < limit
    → length (retained limit log) ≡ (if ltb limit (length log) then limit else length log)
unfolding retained
length-retained limit log p = ground (arith, length-take_last limit log)

-- An appended event gets the next number, the numbering stays without gaps, and the log grows by one up
-- to the retention limit, which it never passes. This needs a positive limit.
pub append_audit_event-IsNumbered :
    (limit : ℕ) (event : StoredAuditEvent) (d : StateDocument)
    → 0 < limit
    → IsNumbered d.next_audit_sequence d.audit_log
    → length d.audit_log ≤ limit
    → let (shown, d') = append_audit_event limit event d in
      (shown.sequence ≡ d.next_audit_sequence)
      × (d'.next_audit_sequence ≡ d.next_audit_sequence + 1)
      × IsNumbered d'.next_audit_sequence d'.audit_log
      × (length d'.audit_log
          ≡ (if ltb (length d.audit_log) limit then length d.audit_log + 1 else limit))
unfolding append_audit_event
append_audit_event-IsNumbered limit event d p n h =
    let stored = record event { sequence = d.next_audit_sequence } in
    (
      refl,
      refl,
      retained-IsNumbered (d.next_audit_sequence + 1) limit (d.audit_log ++ stored ∷ [])
          (IsNumbered-append d.next_audit_sequence d.audit_log stored refl n),
      ground (
        arith,
        length-retained limit (d.audit_log ++ stored ∷ []),
        length-append d.audit_log (stored ∷ []),
      ),
    )

-- With a retention limit of zero `log[-0:]` is the whole log: nothing is ever cut.
pub append_audit_event-unbounded :
    (event : StoredAuditEvent) (d : StateDocument)
    → length (append_audit_event 0 event d).1.audit_log ≡ length d.audit_log + 1
unfolding append_audit_event retained
append_audit_event-unbounded event d =
    let stored = record event { sequence = d.next_audit_sequence } in
    ground (arith, length-append d.audit_log (stored ∷ []))

-- The sub-sequence of the elements that satisfy `P`.
pub data IsSelection {A : Type 0} (P : A → Type 0) : List A → List A → Type 0 where
  ends : IsSelection P [] []
  keeps : {x : A} {xs ys : List A} → P x → IsSelection P xs ys → IsSelection P (x ∷ xs) (x ∷ ys)
  skips : {x : A} {xs ys : List A} → ¬ P x → IsSelection P xs ys → IsSelection P (x ∷ xs) ys

-- What a filter that may be absent asks for.
abbrev pub Agrees {ℓ} : {A : Type ℓ} → Option A → (A → Type 0) → Type 0
Agrees none P = Unit
Agrees (some wanted) P = P wanted

-- What the filters of a query ask of an event.
abbrev pub Matches : AuditFilter → AuditEvent → Type 0
Matches f e =
    Agrees f.namespace (λ wanted. e.namespace ≡ some wanted)
    × Agrees f.operation (λ wanted. e.operation ≡ wanted)
    × Agrees f.outcome (λ wanted. e.outcome ≡ wanted)
    × Agrees f.registration_present (λ wanted. e.registration_present ≡ some wanted)

passes_iff {ℓ} :
    {A : Type ℓ} (test : A → Bool) (P : A → Type 0) (o : Option A)
    → ((a : A) → (test a ≡ true) ↔ P a)
    → (passes test o ≡ true) ↔ Agrees o P
unfolding passes
passes_iff test P none h = (λ e. tt, λ u. refl)
passes_iff test P (some wanted) h = h wanted

is_namespace_iff :
    (o : Option String) (wanted : String) → (is_namespace o wanted ≡ true) ↔ (o ≡ some wanted)
is_namespace_iff none wanted = (λ h. cc h, λ h. cc h)
is_namespace_iff (some n) wanted =
    (λ h. ap some ((eq_iff n wanted).0 h), λ h. (eq_iff n wanted).1 (cc h))

is_presence_iff :
    (o : Option Bool) (wanted : Bool) → (is_presence o wanted ≡ true) ↔ (o ≡ some wanted)
is_presence_iff none wanted = (λ h. cc h, λ h. cc h)
is_presence_iff (some true) true = (λ h. refl, λ h. refl)
is_presence_iff (some true) false = (λ h. cc h, λ h. cc h)
is_presence_iff (some false) true = (λ h. cc h, λ h. cc h)
is_presence_iff (some false) false = (λ h. refl, λ h. refl)

selects_iff : (f : AuditFilter) (e : AuditEvent) → (selects f e ≡ true) ↔ Matches f e
unfolding selects
selects_iff f e =
    let n = passes_iff (is_namespace e.namespace) _ f.namespace (is_namespace_iff e.namespace) in
    let o =
      passes_iff (λ wanted. e.operation == wanted) _ f.operation
        (operation_eq.beq_iff e.operation) in
    let u = passes_iff (λ wanted. e.outcome == wanted) _ f.outcome (outcome_eq.beq_iff e.outcome) in
    let p =
      passes_iff (is_presence e.registration_present) _ f.registration_present
        (is_presence_iff e.registration_present) in
    (
      λ h. (n.0 (ground arith), o.0 (ground arith), u.0 (ground arith), p.0 (ground arith)),
      λ m. ground (arith, n.1 m.0, o.1 m.1, u.1 m.2, p.1 m.3),
    )

filter_by-IsSelection :
    (f : AuditFilter) (es : List AuditEvent) → IsSelection (Matches f) es (filter_by (selects f) es)
filter_by-IsSelection f [] = ends
filter_by-IsSelection f (e ∷ es) = elim (Bool-cases (selects f e)) [
  | inl kept ↦ rw kept (keeps ((selects_iff f e).0 kept) (filter_by-IsSelection f es))
  | inr cut ↦
      rw cut (skips (λ m. absurd (cc (cut, (selects_iff f e).1 m))) (filter_by-IsSelection f es))
]

-- A limited list is a last part, and not shorter than the limit unless it is the whole.
record IsLastPart (limit : ℕ) (xs ys : List AuditEvent) : Type 0 where
  older : List AuditEvent
  parted : xs ≡ older ++ ys
  short : length ys ≤ limit
  full : (older ≡ []) ⊎ (length ys ≡ limit)

drop-parted : (n : ℕ) (xs : List AuditEvent) → take n xs ++ drop n xs ≡ xs
drop-parted zero xs = refl
drop-parted (suc n) [] = refl
drop-parted (suc n) (x ∷ xs) = ap (λ ys. x ∷ ys) (drop-parted n xs)

append_nil : (xs : List AuditEvent) → xs ++ [] ≡ xs
append_nil [] = refl
append_nil (x ∷ xs) = ap (λ ys. x ∷ ys) (append_nil xs)

limited-IsLastPart :
    (limit : ℕ) (es : List AuditEvent) → IsLastPart limit es (limited (some limit) es)
limited-IsLastPart zero es = record {
  older = es;
  parted = sym (append_nil es);
  short = omega arith;
  full = inr refl;
}
limited-IsLastPart (suc n) es = record {
  older = take (length es - suc n) es;
  parted = sym (drop-parted (length es - suc n) es);
  short = omega (arith, length-drop (length es - suc n) es);
  full = elim (Bool-cases (ltb n (length es))) [
    | inl more ↦ inr (ground (arith, length-drop (length es - suc n) es))
    | inr fits ↦ let none_cut : length es - suc n ≡ 0 = ground arith in inl (rw none_cut refl)
  ];
}

-- A query selects from the log, in its order, the events that agree with each of its filters, and shows the
-- last ones of them: at most as many as the limit, and all of them or as many as the limit.
pub list_audit_events_lem :
    (d : StateDocument) (f : AuditFilter) (limit : ℕ)
    → let shown = list_audit_events d f (some limit) in
      (older : List AuditEvent) × IsSelection
        (Matches f)
        (map (λ stored. to_audit_event stored d) d.audit_log)
        (older ++ shown)
      × (length shown ≤ limit)
      × ((older ≡ []) ⊎ (length shown ≡ limit))
unfolding list_audit_events
list_audit_events_lem d f limit =
    let log = map (λ stored. to_audit_event stored d) d.audit_log in
    let part = limited-IsLastPart limit (filter_by (selects f) log) in
    (
      part.older,
      subst (IsSelection (Matches f) log) part.parted (filter_by-IsSelection f log),
      part.short,
      part.full,
    )
