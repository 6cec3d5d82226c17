-- ===== src/Soroban/Tests.antt =====
-- Runs of backend/tools/SorobanInvokeTool.ts.
use synapse_stellar.Prelude.{
  ℕ, zero, suc, ◌+◌, ◌≡◌, refl, ◌↔◌, ◌⊎◌, Bool, true, false, Option, none, some, [], ◌∷◌, String,
  arith,
}
use synapse_stellar.Prelude.Int.{ℤ, pos, ◌+ℤ◌, ◌≤ℤ◌}
use synapse_stellar.Prelude.Results.{Result, ok}
use synapse_stellar.Spending.{
  sum_amounts, total_of, shift_expired, prune_old, persist, total, record_amount, record_payment,
}
use synapse_stellar.Spending.Tests.{in_memory, busy, busy-Inv}
use synapse_stellar.Agent.Guard.{mainnet_spending_cap}
use synapse_stellar.Soroban.Decimal.{stroops, sac_raw_to_decimal, stroops-sac_raw_to_decimal}
use synapse_stellar.Soroban.{
  Native, text, bigint, DiagnosticEvent, extract_sac_transfer_total, debit,
  assert_sac_transfers_within_spending_limit, Fee, Prepared, Status, success, not_found,
  InvokeError, InvokeResult, tx_hash, World, execute, poll_for_confirmation,
}
use synapse_stellar.Soroban.Gate.{ReadsDecimals, gate_iff, Confirmed, execute-Confirmed}
use synapse_stellar.Soroban.Poll.{ConfirmedAt, poll_for_confirmation_iff}

abbrev parse : String → Option ℤ
parse s = elim (stroops 0 s) [ none ↦ none | some n ↦ some (pos n) ]

reads : ReadsDecimals parse
reads s n few e = rw (e, parse) refl

limit_read : parse "0.0000200" ≡ some (pos 200)
unfolding stroops
limit_read = refl

-- Scalar values are numbers: 0 is the name of a transfer and 1 the agent.
abbrev native : ℕ → Option Native
native n = elim n [
  | zero ↦ some (text "transfer")
  | suc zero ↦ some (text "GA")
  | k ↦ some (bigint (pos k))
]

abbrev transfer : Bool → ℕ → DiagnosticEvent ℕ
transfer succeeded amount = record {
  in_successful_contract_call = succeeded;
  v0 = some (0 ∷ 1 ∷ [], amount);
}

counted :
    extract_sac_transfer_total ℕ native "GA"
      (transfer true 30 ∷ transfer false 50 ∷ transfer true 4 ∷ [])
    ≡ pos 34
unfolding extract_sac_transfer_total debit ◌+ℤ◌
counted = refl

gate_iff_example :
    ((assert_sac_transfers_within_spending_limit in_memory parse "0.0000200" true true busy 1100
        1101
        (pos (suc 29))).0
      ≡ ok tt)
    ↔ ((pos 30 ≤ℤ pos 200)
        × ((true ≡ false) ⊎ (pos 30 ≤ℤ mainnet_spending_cap))
        × (((total in_memory busy 1101).0 +ℤ pos 30) ≤ℤ pos 200))
gate_iff_example =
    gate_iff in_memory parse "0.0000200" true busy 1000 1100 1101 29 (pos 200) (omega arith) reads
      busy-Inv (omega arith) (omega arith) (omega arith) limit_read

abbrev prepared : Prepared ℕ ℕ
prepared = record {
  tx = 9;
  fee = Fee.stroops 50;
  has_time_bounds = true;
  events = transfer true 30 ∷ transfer false 50 ∷ [];
}

abbrev prepare : ℕ → Result String (Prepared ℕ ℕ) × ℕ
prepare n = (ok prepared, n + 1)

abbrev send : ℕ → ℕ → Result String (Option String) × ℕ
send tx n = (ok (some "hash"), n + 1)

-- Found at the second poll.
abbrev get_transaction : String → ℕ → Result String Status × ℕ
get_transaction hash n = elim n [ suc (suc zero) ↦ (ok not_found, 3) | _ ↦ (ok success, 4) ]

abbrev W : Type 0
W =
    World ℕ ℕ ℕ String native "GA" in_memory parse "0.0000200" true 100 prepare (λ tx. tx) (λ tx. 1)
      send (λ n. n) get_transaction

abbrev run : Bool → ℕ → ℕ → W → Result (InvokeError String) (InvokeResult ℕ) × W
run =
    execute ℕ ℕ ℕ String native "GA" in_memory parse "0.0000200" true 100 prepare (λ tx. tx)
      (λ tx. 1) send (λ n. n) get_transaction

abbrev world : W
world = record { tracker = busy; net = 0 }

stroops-sac_raw_to_decimal_example : stroops 0 (sac_raw_to_decimal 1000000000) ≡ some 1000000000
stroops-sac_raw_to_decimal_example = stroops-sac_raw_to_decimal 1000000000

confirms : (run false 1100 1101 world).0 ≡ ok (tx_hash "hash")
unfolding execute assert_sac_transfers_within_spending_limit extract_sac_transfer_total debit ◌+ℤ◌
    poll_for_confirmation stroops sac_raw_to_decimal record_payment record_amount persist prune_old
    shift_expired total total_of sum_amounts
confirms = refl

execute-Confirmed_example :
    Confirmed ℕ ℕ ℕ String native "GA" in_memory parse "0.0000200" true 100 prepare
      (λ tx. tx)
      (λ tx. 1)
      send
      (λ n. n)
      get_transaction
      (pos 200)
      1101
      world
      prepared
      (run false 1100 1101 world).1
unfolding extract_sac_transfer_total debit ◌+ℤ◌
execute-Confirmed_example =
    execute-Confirmed ℕ ℕ ℕ String native "GA" in_memory parse "0.0000200" true 100 prepare
      (λ tx. tx) (λ tx. 1) send (λ n. n) get_transaction 1000 1100 1101 (pos 200) world prepared
      "hash" reads busy-Inv (omega arith) (omega arith) (omega arith) limit_read refl (omega arith)
      confirms

poll_for_confirmation_iff_example :
    ((poll_for_confirmation ℕ String (λ n. n) get_transaction 10 "hash" 2).0 ≡ ok "hash")
    ↔ ((k : ℕ) × ConfirmedAt ℕ String (λ n. n) get_transaction 10 "hash" 2 k)
poll_for_confirmation_iff_example =
    poll_for_confirmation_iff ℕ String (λ n. n) get_transaction 10 "hash" 2
