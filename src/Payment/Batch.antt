-- ===== src/Payment/Batch.antt =====
-- backend/tools/BatchPaymentTool.ts. Amounts are exact numbers of stroops, as everywhere. The SDK and the
-- network are the parameters of Payment.
pub mod Laws
use synapse_stellar.Prelude.{
  ℕ, zero, suc, ◌+◌, ◌-◌, ◌≡◌, refl, Bool, true, false, ◌&&◌, ◌||◌, not, Option, none, some, List,
  [], ◌∷◌, ◌++◌, String, length, all, leb, ◌==◌, string_eq, nat_eq, if◌then◌else◌,
}
use synapse_stellar.Prelude.Int.{ℤ, pos, ◌+ℤ◌, ltb_ℤ}
use synapse_stellar.Prelude.Results.{Result, ok, err}
use synapse_stellar.Payment.{PaymentInput, is_valid, has_issuer}

-- `problems` are the positions of the payments that the messages name.
pub record Preflight : Type 0 where
  pub problems : List ℕ
  pub skipped : ℕ

pub data BatchError (E : Type 0) : Type 0 where
  invalid_input over_limit : BatchError E
  preflight_error : Preflight → BatchError E
  thrown : E → BatchError E

-- `p.assetCode !== 'XLM' && !p.assetIssuer`
abbrev pub lacks_issuer : PaymentInput → Bool
lacks_issuer p = not (p.asset_code == "XLM") && not (has_issuer p.asset_issuer)

-- The end of the loop.
abbrev reported : List ℕ → Result Preflight (Unit {0})
reported [] = ok tt
reported (i ∷ problems) = err (record { problems = i ∷ problems; skipped = 0 })

-- The loop from position `i` on, with the problems found so far.
unfoldable pub preflight_from :
    Bool → ℕ → List PaymentInput → ℕ → List ℕ → Result Preflight (Unit {0})
preflight_from fail_fast total [] i problems = reported problems
preflight_from fail_fast total (p ∷ rest) i problems =
    let found = problems ++ i ∷ [] in
    let after = preflight_from fail_fast total rest (suc i) found in
    let clean = preflight_from fail_fast total rest (suc i) problems in
    if lacks_issuer p
    then if fail_fast then err (record { problems = i ∷ []; skipped = total - i - 1 }) else after
    else clean

abbrev pub preflight : Bool → List PaymentInput → Result Preflight (Unit {0})
preflight fail_fast payments = preflight_from fail_fast (length payments) payments 0 []

abbrev plus : Option ℤ → Option ℤ → Option ℤ
plus (some a) (some b) = some (a +ℤ b)
plus _ _ = none

-- `reduce((sum, p) => sum + parseFloat(p.amount), 0)`
pub batch_total : (String → Option ℤ) → Option ℤ → List PaymentInput → Option ℤ
batch_total parse_float sum [] = sum
batch_total parse_float sum (p ∷ rest) =
    batch_total parse_float (plus sum (parse_float p.amount)) rest

-- `>` of two numbers, with `none` for NaN.
abbrev exceeds : Option ℤ → Option ℤ → Bool
exceeds (some a) (some b) = ltb_ℤ b a
exceeds _ _ = false

module _ (parse_float : String → Option ℤ) (is_valid_public_key : String → Bool)
    (agent_spending_limit : String) (Account Tx Submitted Net E : Type 0)
    (load_account : Net → Result E Account × Net) (build : Account → List PaymentInput → Tx)
    (submit_transaction : Tx → Net → Result E Submitted × Net) where
  abbrev BatchRan : Type 0
  BatchRan = Result (BatchError E) Submitted × Net

  -- The test of `BatchPaymentInputSchema`.
  pub is_batch : List PaymentInput → Bool
  is_batch payments =
      leb 1 (length payments)
      && leb (length payments) 100
      && all (is_valid parse_float is_valid_public_key) payments

  batch_submitted : Result E Submitted × Net → BatchRan
  batch_submitted (ok r, net) = (ok r, net)
  batch_submitted (err e, net) = (err (thrown e), net)

  batch_loaded : List PaymentInput → Result E Account × Net → BatchRan
  unfolding batch_submitted
  batch_loaded payments (err e, net) = (err (thrown e), net)
  batch_loaded payments (ok source, net) =
      batch_submitted (submit_transaction (build source payments) net)

  checked : List PaymentInput → Result Preflight (Unit {0}) → Net → BatchRan
  unfolding batch_loaded
  checked payments (err e) net = (err (preflight_error e), net)
  checked payments (ok _) net = batch_loaded payments (load_account net)

  unfoldable pub execute_batch : List PaymentInput → Bool → Net → BatchRan
  unfolding checked is_batch batch_total preflight_from
  execute_batch payments fail_fast net =
      if not (is_batch payments)
      then (err invalid_input, net)
      else if exceeds (batch_total parse_float (some (pos 0)) payments)
          (parse_float agent_spending_limit)
      then (err over_limit, net)
      else checked payments (preflight fail_fast payments) net
