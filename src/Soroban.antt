-- ===== src/Soroban.antt =====
-- backend/tools/SorobanInvokeTool.ts. The simulation, the signing and the RPC are functions of a network
-- state; `scValToNative` is a parameter, `none` where it throws. The spending tracker is that of
-- Spending. An amount is an integer of base units of 10⁻⁷.
pub mod Decimal
pub mod Totals
pub mod Gate
pub mod Poll
mod Tests
use synapse_stellar.Prelude.{
  ℕ, zero, suc, ◌+◌, ◌*◌, ◌≡◌, Bool, true, false, ◌&&◌, ◌||◌, not, Option, none, some, List, [],
  ◌∷◌, String, ltb, leb, ◌==◌, string_eq, nat_eq, if◌then◌else◌,
}
use synapse_stellar.Prelude.Int.{ℤ, pos, negsuc, ◌+ℤ◌}
use synapse_stellar.Prelude.Results.{Result, ok, err}
use synapse_stellar.Persistence.{SpendingTable}
use synapse_stellar.Spending.{Tracker, SpendingError, record_payment}
use synapse_stellar.Agent.Guard.{mainnet_spending_cap, is_over}
use synapse_stellar.Soroban.Decimal.{sac_raw_to_decimal}

-- What `scValToNative` gives, as far as the code tells it apart. A `number` is an integer.
pub data Native : Type 0 where
  text : String → Native
  bigint number : ℤ → Native
  other : Native

-- `v0` of the body, if there is one: the topics and the data.
pub record DiagnosticEvent (ScVal : Type 0) : Type 0 where
  pub in_successful_contract_call : Bool
  pub v0 : Option (List ScVal × ScVal)

module _ (ScVal : Type 0) (sc_val_to_native : ScVal → Option Native) (agent_address : String) where
  abbrev is_value_out : String → Bool
  is_value_out name = name == "transfer" || name == "transfer_from" || name == "burn"

  abbrev amount_of : Option Native → ℤ
  amount_of (some (bigint n)) = n
  amount_of (some (number n)) = n
  amount_of _ = pos 0

  from_party : ScVal → Option Native → ℤ
  from_party amount (some (text from)) =
      if from == agent_address then amount_of (sc_val_to_native amount) else pos 0
  from_party amount _ = pos 0

  from_name : List ScVal → ScVal → Option Native → ℤ
  unfolding from_party
  from_name (from ∷ _) amount (some (text name)) =
      if is_value_out name then from_party amount (sc_val_to_native from) else pos 0
  from_name _ amount _ = pos 0

  from_body : Option (List ScVal × ScVal) → ℤ
  unfolding from_name
  from_body (some (name ∷ topics, amount)) = from_name topics amount (sc_val_to_native name)
  from_body _ = pos 0

  -- What one event adds to the total.
  pub debit : DiagnosticEvent ScVal → ℤ
  unfolding from_body
  debit d = if d.in_successful_contract_call then from_body d.v0 else pos 0

  sum_debits : ℤ → List (DiagnosticEvent ScVal) → ℤ
  sum_debits total [] = total
  sum_debits total (d ∷ events) = sum_debits (total +ℤ debit d) events

  pub extract_sac_transfer_total : List (DiagnosticEvent ScVal) → ℤ
  unfolding sum_debits
  extract_sac_transfer_total = sum_debits (pos 0)

pub data GateError : Type 0 where
  exceeds_limit exceeds_mainnet_cap : String → GateError
  window : SpendingError → GateError

module _ (table : SpendingTable) (parse_float : String → Option ℤ) (agent_spending_limit : String)
    (is_mainnet : Bool) where
  abbrev recorded :
      Result SpendingError (Unit {0}) × Tracker table → Result GateError (Unit {0}) × Tracker table
  recorded (ok _, t) = (ok tt, t)
  recorded (err e, t) = (err (window e), t)

  assert_amount :
      Bool → Tracker table → ℕ → ℕ → String → Result GateError (Unit {0}) × Tracker table
  assert_amount recording t now later amount =
      if is_over table parse_float agent_spending_limit is_mainnet (parse_float amount)
        (parse_float agent_spending_limit)
      then (err (exceeds_limit amount), t)
      else if is_mainnet
          && is_over table parse_float agent_spending_limit is_mainnet (parse_float amount)
              (some mainnet_spending_cap)
      then (err (exceeds_mainnet_cap amount), t)
      else if recording
      then recorded (record_payment table parse_float agent_spending_limit t now later amount)
      else (ok tt, t)

  -- On the total of the events. One that is not positive skips the checks.
  pub assert_sac_transfers_within_spending_limit :
      Bool → Tracker table → ℕ → ℕ → ℤ → Result GateError (Unit {0}) × Tracker table
  unfolding assert_amount
  assert_sac_transfers_within_spending_limit recording t now later (negsuc n) = (ok tt, t)
  assert_sac_transfers_within_spending_limit recording t now later (pos zero) = (ok tt, t)
  assert_sac_transfers_within_spending_limit recording t now later (pos (suc n)) =
      assert_amount recording t now later (sac_raw_to_decimal (suc n))

-- The fee of a prepared transaction: undefined, null or empty; not a number; or a number.
pub data Fee : Type 0 where
  unset invalid : Fee
  stroops : ℕ → Fee

pub record Prepared (ScVal Tx : Type 0) : Type 0 where
  pub tx : Tx
  pub fee : Fee
  pub has_time_bounds : Bool
  pub events : List (DiagnosticEvent ScVal)

pub data Status : Type 0 where
  success failed not_found : Status

pub data InvokeError (E : Type 0) : Type 0 where
  invalid_fee : InvokeError E
  fee_exceeds_maximum : ℕ → InvokeError E
  gate : GateError → InvokeError E
  no_time_bounds no_signatures submit_failed failed_on_chain not_confirmed : InvokeError E
  rpc : E → InvokeError E

pub data InvokeResult (Tx : Type 0) : Type 0 where
  tx_hash : String → InvokeResult Tx
  simulation_result : Tx → InvokeResult Tx

module _ (Net E : Type 0) (sleep : Net → Net)
    (get_transaction : String → Net → Result E Status × Net) where
  polled :
      (Net → Result (InvokeError E) String × Net)
      → String
      → Result E Status × Net
      → Result (InvokeError E) String × Net
  polled next hash (err e, net) = (err (rpc e), net)
  polled next hash (ok success, net) = (ok hash, net)
  polled next hash (ok failed, net) = (err failed_on_chain, net)
  polled next hash (ok not_found, net) = next net

  -- The loop on the attempts that are left.
  pub poll_for_confirmation : ℕ → String → Net → Result (InvokeError E) String × Net
  unfolding polled
  poll_for_confirmation zero hash net = (err not_confirmed, net)
  poll_for_confirmation (suc left) hash net =
      polled (λ net'. poll_for_confirmation left hash net') hash (get_transaction hash (sleep net))

module _ (ScVal Tx Net E : Type 0) (sc_val_to_native : ScVal → Option Native)
    (agent_address : String) (table : SpendingTable) (parse_float : String → Option ℤ)
    (agent_spending_limit : String) (is_mainnet : Bool) (max_soroban_fee_stroops : ℕ)
    (prepare : Net → Result E (Prepared ScVal Tx) × Net) (sign : Tx → Tx)
    (count_signatures : Tx → ℕ) (send : Tx → Net → Result E (Option String) × Net)
    (sleep : Net → Net) (get_transaction : String → Net → Result E Status × Net) where
  pub record World : Type 0 where
    pub tracker : Tracker table
    pub net : Net

  abbrev Ran : Type 0
  Ran = Result (InvokeError E) (InvokeResult Tx) × World

  abbrev fee_error : Fee → Option (InvokeError E)
  fee_error unset = none
  fee_error invalid = some invalid_fee
  fee_error (stroops n) =
      if ltb max_soroban_fee_stroops n then some (fee_exceeds_maximum n) else none

  confirmed : Tracker table → Result (InvokeError E) String × Net → Ran
  confirmed t (ok hash, net) = (ok (tx_hash hash), record { tracker = t; net = net })
  confirmed t (err e, net) = (err e, record { tracker = t; net = net })

  -- `none` is the status ERROR.
  sent : Tracker table → Result E (Option String) × Net → Ran
  unfolding confirmed
  sent t (err e, net) = (err (rpc e), record { tracker = t; net = net })
  sent t (ok none, net) = (err submit_failed, record { tracker = t; net = net })
  sent t (ok (some hash), net) =
      confirmed t (poll_for_confirmation Net E sleep get_transaction 10 hash net)

  broadcast : Prepared ScVal Tx → World → Ran
  unfolding sent
  broadcast p w =
      if not p.has_time_bounds
      then (err no_time_bounds, w)
      else if count_signatures (sign p.tx) == 0
      then (err no_signatures, w)
      else sent w.tracker (send (sign p.tx) w.net)

  gated : Bool → Prepared ScVal Tx → Result GateError (Unit {0}) × Tracker table → Net → Ran
  unfolding broadcast
  gated simulate_only p (err e, t) net = (err (gate e), record { tracker = t; net = net })
  gated simulate_only p (ok _, t) net =
      if simulate_only
      then (ok (simulation_result p.tx), record { tracker = t; net = net })
      else broadcast p (record { tracker = t; net = net })

  simulated : Bool → ℕ → ℕ → Tracker table → Result E (Prepared ScVal Tx) × Net → Ran
  unfolding gated
  simulated simulate_only now later t (err e, net) =
      (err (rpc e), record { tracker = t; net = net })
  simulated simulate_only now later t (ok p, net) = elim (fee_error p.fee) [
    | some e ↦ (err e, record { tracker = t; net = net })
    | none ↦
        gated simulate_only p
          (assert_sac_transfers_within_spending_limit table parse_float agent_spending_limit
            is_mainnet (not simulate_only) t now later
            (extract_sac_transfer_total ScVal sc_val_to_native agent_address p.events))
          net
  ]

  -- `prepare` stands for the building and the simulation of the transaction of a parsed input.
  pub execute : Bool → ℕ → ℕ → World → Ran
  unfolding simulated
  execute simulate_only now later w = simulated simulate_only now later w.tracker (prepare w.net)
