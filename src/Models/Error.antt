-- ===== src/Models/Error.antt =====
-- toolbox/models.py: the enumerations, `ErrorInfo`, and the exceptions that the handlers catch.
use toolbox_mcp.Prelude.{
  ℕ, String, ◌≡◌, ◌↔◌, Bool, true, false, Option, arith, HasEquality, nat_beq,
}
use toolbox_mcp.Json.{Fields}

-- `TransportKind`, and `Literal["stdio"]` of `ToolsetTransport`.
pub data TransportKind : Type 0 where
  stdio : TransportKind

pub data TransportState : Type 0 where
  inactive connecting connected degraded stale_state failed_state : TransportState

pub data AuditOperation : Type 0 where
  register activate refresh deactivate unregister restore clear_stale call health_check :
      AuditOperation

pub data AuditOutcome : Type 0 where
  success failure skipped : AuditOutcome

pub data HealthStatus : Type 0 where
  healthy health_stale health_failed : HealthStatus

-- `operation.value`, as the position in the enumeration.
abbrev operation_index : AuditOperation → ℕ
operation_index register = 0
operation_index activate = 1
operation_index refresh = 2
operation_index deactivate = 3
operation_index unregister = 4
operation_index restore = 5
operation_index clear_stale = 6
operation_index call = 7
operation_index health_check = 8

abbrev pub operation_beq : AuditOperation → AuditOperation → Bool
operation_beq a b = nat_beq (operation_index a) (operation_index b)

pub operation_beq_iff : (a b : AuditOperation) → (operation_beq a b ≡ true) ↔ (a ≡ b)
operation_beq_iff a b = ground arith

instance abbrev pub operation_eq : HasEquality AuditOperation
operation_eq = record { beq = operation_beq; beq_iff = operation_beq_iff }

abbrev outcome_index : AuditOutcome → ℕ
outcome_index success = 0
outcome_index failure = 1
outcome_index skipped = 2

abbrev pub outcome_beq : AuditOutcome → AuditOutcome → Bool
outcome_beq a b = nat_beq (outcome_index a) (outcome_index b)

pub outcome_beq_iff : (a b : AuditOutcome) → (outcome_beq a b ≡ true) ↔ (a ≡ b)
outcome_beq_iff a b = ground arith

instance abbrev pub outcome_eq : HasEquality AuditOutcome
outcome_eq = record { beq = outcome_beq; beq_iff = outcome_beq_iff }

pub record ErrorInfo : Type 0 where
  pub code : String
  pub message : String
  pub namespace : Option String
  pub retryable : Bool
  pub details : Option Fields

-- A raised exception by what the handlers read of it: `isinstance(exc, TimeoutError)`, `str(exc)`.
pub data Exception : Type 0 where
  timeout_error other_error : String → Exception

-- `str(exc)`.
abbrev pub str_of : Exception → String
str_of (timeout_error message) = message
str_of (other_error message) = message

abbrev pub is_timeout : Exception → Bool
is_timeout (timeout_error _) = true
is_timeout (other_error _) = false

-- What a call that may raise gives.
pub data Result {ℓ} (A : Type ℓ) : Type ℓ where
  ok : A → Result A
  err : Exception → Result A

-- A raise ends the rest of a computation.
unfoldable pub then_ok {ℓ κ} : {A : Type ℓ} {B : Type κ} → Result A → (A → Result B) → Result B
then_ok (err e) f = err e
then_ok (ok a) f = f a
