-- ===== src/Agent/Execute.antt =====
-- `executeTask` of backend/agent.ts: the dispatch of one task through the spending guard to a tool,
-- the middleware round it, and what is reported. The tools, the audit log and the middlewares are
-- parameters, functions of the state that they share. The text of an error is a parameter, and
-- listeners of the events do not throw.
mod Tests
use synapse_stellar.Prelude.{
  ℕ, ◌+◌, ◌≡◌, ◌≢◌, refl, sym, ◌∙◌, ◌⊎◌, inl, inr, Bool, true, false, Option, none, some, List, [],
  ◌∷◌, ◌++◌, String, arith,
}
use synapse_stellar.Prelude.Results.{Result, ok, err, Result-cases}
use synapse_stellar.Values.{Value, property}
use synapse_stellar.Errors.{ErrorType}

pub data TaskType : Type 0 where
  stellar_payment soroban_invoke soroban_query x402_respond account_info change_trust : TaskType
  multisig_payment batch_payment balance_check path_payment fee_bump dex_offer : TaskType
  liquidity_pool stellar_toml data_entry sequence_number sponsored_account anchor_quote : TaskType
  inflation soroban_deploy swap account_history : TaskType
  unknown : String → TaskType

pub record AgentTask : Type 0 where
  pub type : TaskType
  pub payload : Value

pub record AgentResult : Type 0 where
  pub success : Bool
  pub task_type : TaskType
  pub result : Option Value
  pub error : Option String
  pub error_type : Option ErrorType
  pub correlation_id : String

-- What an execution reports, in order.
pub data Report : Type 0 where
  task_complete task_failed webhook : AgentResult → Report
  retry_exhausted : TaskType → Report

module _ (State E : Type 0) (spending_guard : Value → State → Result E (Unit {0}) × State)
    (tool : TaskType → Value → State → Result E Value × State) (with_network : Value → Value)
    (save_result : AgentResult → State → Result E (Unit {0}) × State)
    (unknown_task_type : String → E) (describe_error : E → String) (get_error_type : E → ErrorType)
    (is_stellar_rpc_error : E → Bool) where
  -- An asynchronous computation: what it gives or throws, the state, and what it reported.
  abbrev Outcome : Type 0
  Outcome = Result E AgentResult × State × List Report

  abbrev Middleware : Type 0
  Middleware = AgentTask → (State → Outcome) → State → Outcome

  -- What the `case` makes of the tool's answer.
  abbrev finished : (Value → Value) → Result E Value × State → Result E Value × State
  finished finish (ok v, s) = (ok (finish v), s)
  finished finish (err e, s) = (err e, s)

  -- Run the guard on `payload.amount` and then the tool.
  guarded : TaskType → Value → (Value → Value) → State → Result E Value × State
  guarded type payload finish s = elim (spending_guard (property payload "amount") s).0 [
    | err e ↦ (err e, (spending_guard (property payload "amount") s).1)
    | ok _ ↦ finished finish (tool type payload (spending_guard (property payload "amount") s).1)
  ]

  -- The `switch`.
  pub dispatch : AgentTask → State → Result E Value × State
  unfolding guarded
  dispatch task s = elim task.type [
    | stellar_payment ↦ guarded stellar_payment task.payload with_network s
    | x402_respond ↦ guarded x402_respond task.payload (λ v. v) s
    | unknown name ↦ (err (unknown_task_type name), s)
    | type ↦ tool type task.payload s
  ]

  abbrev success_result : AgentTask → String → Value → AgentResult
  success_result task correlation_id v = record {
    success = true;
    task_type = task.type;
    result = some v;
    error = none;
    error_type = none;
    correlation_id = correlation_id;
  }

  abbrev failure_result : AgentTask → String → E → AgentResult
  failure_result task correlation_id e = record {
    success = false;
    task_type = task.type;
    result = none;
    error = some (describe_error e);
    error_type = some (get_error_type e);
    correlation_id = correlation_id;
  }

  -- The `catch` of the inner function.
  failed : AgentTask → String → List Report → E → State → Outcome
  failed task correlation_id before e s =
      let r = failure_result task correlation_id e in
      (ok r, s, before ++ task_failed r ∷ webhook r ∷ [])

  -- After the tool: `task:complete`, the audit log, the webhook, all inside the `try`.
  report : AgentTask → String → Result E Value × State → Outcome
  unfolding failed
  report task correlation_id (err e, s) = failed task correlation_id [] e s
  report task correlation_id (ok v, s) =
      let r = success_result task correlation_id v in
      elim (save_result r s).0 [
        | ok _ ↦ (ok r, (save_result r s).1, task_complete r ∷ webhook r ∷ [])
        | err e ↦ failed task correlation_id (task_complete r ∷ []) e (save_result r s).1
      ]

  run_tool : AgentTask → String → State → Outcome
  unfolding report
  run_tool task correlation_id s = report task correlation_id (dispatch task s)

  -- The loop that builds the chain, from the last middleware to the first.
  pub chain : AgentTask → List Middleware → (State → Outcome) → State → Outcome
  chain task [] inner = inner
  chain task (m ∷ ms) inner = m task (chain task ms inner)

  abbrev exhausted : TaskType → Bool → List Report
  exhausted type true = retry_exhausted type ∷ []
  exhausted type false = []

  -- The outer `catch`. (`durationMs` is left out of the result.)
  settled : AgentTask → String → Outcome → AgentResult × State × List Report
  settled task correlation_id (ok r, s, reports) = (r, s, reports)
  settled task correlation_id (err e, s, reports) =
      let r = failure_result task correlation_id e in
      (
        r,
        s,
        reports ++ exhausted task.type (is_stellar_rpc_error e) ++ task_failed r ∷ webhook r ∷ [],
      )

  pub execute_task :
      List Middleware → AgentTask → String → State → AgentResult × State × List Report
  unfolding settled run_tool
  execute_task ms task correlation_id s =
      settled task correlation_id (chain task ms (run_tool task correlation_id) s)
