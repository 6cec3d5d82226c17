-- ===== src/Agent/Execute/Tests.antt =====
-- Runs of `executeTask` of backend/agent.ts: the state counts the calls, the guard refuses a payment
-- without an amount, and the audit log takes results until the count is ten.
use synapse_stellar.Prelude.{ℕ, ◌+◌, true, false, none, some, List, [], String, ltb, if◌then◌else◌}
use synapse_stellar.Prelude.Results.{Result, ok, err}
use synapse_stellar.Values.{Value, undefined, object, end, field, text}
use synapse_stellar.Errors.{ErrorType}
use synapse_stellar.Agent.Execute.{
  TaskType, stellar_payment, AgentTask, AgentResult, Report, execute_task, dispatch,
}

abbrev guard : Value → ℕ → Result String (Unit {0}) × ℕ
guard undefined s = (err "no amount", s + 1)
guard _ s = (ok tt, s + 1)

abbrev tool : TaskType → Value → ℕ → Result String Value × ℕ
tool type payload s = (ok payload, s + 2)

abbrev save : AgentResult → ℕ → Result String (Unit {0}) × ℕ
save r s = (if ltb s 10 then ok tt else err "disk full", s)

abbrev error_type : String → ErrorType
error_type e = ErrorType.unknown_error

abbrev paid : AgentTask
paid = record { type = stellar_payment; payload = object (field "amount" (text "5") end) }

abbrev execute : AgentTask → String → ℕ → AgentResult × ℕ × List Report
execute =
    execute_task ℕ String guard tool (λ v. v) save (λ t. t) (λ e. e) error_type (λ e. false) []

abbrev dispatched : AgentTask → ℕ → Result String Value × ℕ
dispatched = dispatch ℕ String guard tool (λ v. v) save (λ t. t) (λ e. e) error_type (λ e. false)

abbrev done : AgentResult
done = record {
  success = true;
  task_type = stellar_payment;
  result = some paid.payload;
  error = none;
  error_type = none;
  correlation_id = "id";
}

abbrev failure : String → AgentResult
failure e = record {
  success = false;
  task_type = stellar_payment;
  result = none;
  error = some e;
  error_type = some ErrorType.unknown_error;
  correlation_id = "id";
}
