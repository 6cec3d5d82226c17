-- ===== src/Agent/Tests.antt =====
-- Runs of backend/agent.ts: a payment through `assertWithinSpendingLimit` on the mainnet, a sequence of
-- tasks, and a payload.
use synapse_stellar.Prelude.{
  ◌≡◌, refl, ◌↔◌, ◌⊎◌, true, false, arith, ℕ, ◌+◌, String, none, List, [], ◌∷◌, string_eq,
}
use synapse_stellar.Prelude.Int.{pos, ◌+ℤ◌, ◌≤ℤ◌}
use synapse_stellar.Prelude.Results.{Result, ok, err}
use synapse_stellar.Spending.{total}
use synapse_stellar.Spending.Tests.{in_memory, parse, busy, busy-Inv}
use synapse_stellar.Values.{Value, text, undefined, put, object, field, end}
use synapse_stellar.Errors.{ErrorType}
use synapse_stellar.Agent.Execute.{TaskType, stellar_payment, AgentTask, AgentResult}
use synapse_stellar.Agent.Sequence.{SequenceResult, run_sequence, Ends, run_sequence-Ends}
use synapse_stellar.Agent.Sanitize.{names_secret, sanitize_payload}
use synapse_stellar.Agent.Guard.{
  mainnet_spending_cap, assert_within_spending_limit, assert_within_spending_limit_iff,
}

assert_within_spending_limit_iff_example :
    ((assert_within_spending_limit in_memory parse "200" true busy 1100 1101 (text "100")).0
      ≡ ok tt)
    ↔ ((pos 100 ≤ℤ pos 200)
        × ((true ≡ false) ⊎ (pos 100 ≤ℤ mainnet_spending_cap))
        × (((total in_memory busy 1101).0 +ℤ pos 100) ≤ℤ pos 200))
assert_within_spending_limit_iff_example =
    assert_within_spending_limit_iff in_memory parse "200" true busy 1000 1100 1101 "100" (pos 100)
      (pos 200) busy-Inv (omega arith) (omega arith) (omega arith) refl refl

abbrev guard : Value → ℕ → Result String (Unit {0}) × ℕ
guard undefined s = (err "no amount", s + 1)
guard _ s = (ok tt, s + 1)

abbrev tool : TaskType → Value → ℕ → Result String Value × ℕ
tool type payload s = (ok payload, s + 2)

abbrev save : AgentResult → ℕ → Result String (Unit {0}) × ℕ
save r s = (ok tt, s)

abbrev error_type : String → ErrorType
error_type e = ErrorType.unknown_error

abbrev paid : AgentTask
paid = record { type = stellar_payment; payload = object (field "amount" (text "5") end) }

abbrev unpaid : AgentTask
unpaid = record { type = stellar_payment; payload = object end }

abbrev results : List AgentTask → ℕ → List SequenceResult × ℕ
results =
    run_sequence ℕ String guard tool (λ v. v) save (λ t. t) (λ e. e) error_type (λ e. false) []
      (λ s. "id") (λ s. none) (λ s. s)

run_sequence-Ends_example :
    Ends ℕ String guard tool
      (λ v. v)
      save
      (λ t. t)
      (λ e. e)
      error_type
      (λ e. false)
      []
      (λ s. "id")
      (λ s. none)
      (λ s. s)
      0
      (paid ∷ unpaid ∷ paid ∷ [])
      3
      (results (paid ∷ unpaid ∷ paid ∷ []) 3).0
      (results (paid ∷ unpaid ∷ paid ∷ []) 3).1
run_sequence-Ends_example =
    run_sequence-Ends ℕ String guard tool (λ v. v) save (λ t. t) (λ e. e) error_type (λ e. false) []
      (λ s. "id") (λ s. none) (λ s. s) (paid ∷ unpaid ∷ paid ∷ []) 3

abbrev payload : Value
payload =
    object
      (field "amount" (text "5") (field "signer" (object (field "mySecretKey" (text "S") end)) end))

abbrev trim : String → String
trim s = s

drops_the_key :
    sanitize_payload trim payload
    ≡ object (field "amount" (text "5") (field "signer" (object end) end))
unfolding sanitize_payload names_secret put
drops_the_key = refl
