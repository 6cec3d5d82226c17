-- ===== src/Payment/Swap.antt =====
-- backend/tools/SwapTool.ts. A percentage counts units of 10⁻⁷, as amounts do, and is exact; `toFixed(7)`
-- of a number of stroops, which rounds half up, is the text of `sacRawToDecimal`.
pub mod Quotes
pub mod Laws
mod Tests
use synapse_stellar.Prelude.{
  ℕ, ◌+◌, ◌-◌, ◌*◌, ◌/◌, ◌≡◌, Bool, true, false, ◌&&◌, ◌||◌, not, Option, none, some, List, [], ◌∷◌,
  map, String, leb, ltb, ◌==◌, string_eq, if◌then◌else◌,
}
use synapse_stellar.Prelude.Int.{ℤ, pos, negsuc, ltb_ℤ}
use synapse_stellar.Prelude.Results.{Result, ok, err}
use synapse_stellar.Soroban.Decimal.{sac_raw_to_decimal}
use synapse_stellar.Payment.Memos.{Memo}
use synapse_stellar.Payment.{is_decimal, is_positive}
use synapse_stellar.Payment.Path.{
  AssetInput, PathPaymentInput, Hop, PathError, PathOperation, to_asset, execute_path,
}

pub record SwapInput : Type 0 where
  pub sell_asset : AssetInput
  pub buy_asset : AssetInput
  pub sell_amount : String
  pub max_slippage_pct : ℕ

abbrev pub hundred_pct : ℕ
hundred_pct = 1000000000

-- A record of `strictSendPaths`.
pub record PathRecord : Type 0 where
  pub destination_amount : String
  pub path : List Hop

pub data SwapError (E : Type 0) : Type 0 where
  invalid_input no_swap_path zero_amount slippage : SwapError E
  path_error : PathError E → SwapError E
  thrown : E → SwapError E

pub is_valid_swap : (String → Option ℤ) → SwapInput → Bool
is_valid_swap parse_float input =
    is_decimal input.sell_amount
    && is_positive (parse_float input.sell_amount)
    && leb input.max_slippage_pct hundred_pct

-- `Math.max` and `Math.min` of two numbers, with `none` for NaN.
abbrev max_of : Option ℤ → Option ℤ → Option ℤ
max_of (some a) (some b) = if ltb_ℤ a b then some b else some a
max_of _ _ = none

abbrev min_of : Option ℤ → Option ℤ → Option ℤ
min_of (some a) (some b) = if ltb_ℤ b a then some b else some a
min_of _ _ = none

-- `Math.max(...amounts)`, of the first amount and the others.
pub best_of : Option ℤ → List (Option ℤ) → Option ℤ
best_of a [] = a
best_of a (b ∷ rest) = best_of (max_of a b) rest

pub worst_of : Option ℤ → List (Option ℤ) → Option ℤ
worst_of a [] = a
worst_of a (b ∷ rest) = worst_of (min_of a b) rest

-- `best - worst`, of a best amount that is positive.
abbrev pub gap : ℕ → ℤ → ℕ
gap best (pos w) = best - w
gap best (negsuc k) = best + k + 1

-- `((best - worst) / best) * 100 > max_slippage_pct`
abbrev deviates : ℕ → ℤ → ℕ → Bool
deviates best worst pct = ltb (pct * best) (gap best worst * hundred_pct)

-- `(best * (1 - pct / 100)).toFixed(7)`
abbrev pub dest_min_stroops : ℕ → ℕ → ℕ
dest_min_stroops best pct = (best * (hundred_pct - pct) + 500000000) / hundred_pct

-- `parseFloat(candidate) > parseFloat(best)`
abbrev beats : Option ℤ → Option ℤ → Bool
beats (some a) (some b) = ltb_ℤ b a
beats _ _ = false

pub best_record : (String → Option ℤ) → PathRecord → List PathRecord → PathRecord
best_record parse_float best [] = best
best_record parse_float best (candidate ∷ rest) =
    let found = best_record parse_float candidate rest in
    let kept = best_record parse_float best rest in
    if beats (parse_float candidate.destination_amount) (parse_float best.destination_amount)
    then found
    else kept

-- `pathAssetsFromRecord`
abbrev issuer_of : Option String → Option String
issuer_of none = none
issuer_of (some i) = if i == "" then none else some i

abbrev code_of : Option String → String
code_of none = ""
code_of (some c) = c

abbrev asset_of : Hop → AssetInput
asset_of step =
    if step.asset_type == "native"
    then record { code = "XLM"; issuer = none }
    else record { code = code_of step.asset_code; issuer = issuer_of step.asset_issuer }

pub path_assets_from_record : List Hop → List AssetInput
path_assets_from_record hops = map asset_of hops

module _ (parse_float : String → Option ℤ) (Asset Account Tx Submitted Net E : Type 0)
    (native : Asset) (new_asset : Option String → Option String → Result E Asset)
    (public_key : String)
    (strict_send_paths : Asset → String → Asset → Net → Result E (List PathRecord) × Net)
    (load_account : Bool → Net → Result E Account × Net)
    (build : Account → PathOperation Asset → Option Memo → Tx)
    (submit_transaction : Tx → Net → Result E Submitted × Net) (is_bad_seq : E → Bool) where
  abbrev Ran : Type 0
  Ran = Result (SwapError E) Submitted × Net

  -- The same answers, as PathPaymentTool reads them.
  abbrev pub paths : Result E (List PathRecord) × Net → Result E (List (Option (List Hop))) × Net
  paths (err e, net) = (err e, net)
  paths (ok records, net) = (ok (map (λ r. some r.path) records), net)

  pub pay : PathPaymentInput → Net → Result (PathError E) Submitted × Net
  pay =
      execute_path parse_float Asset Account Tx Submitted Net E native new_asset public_key
        (λ a amount b net. paths (strict_send_paths a amount b net)) load_account build
        submit_transaction is_bad_seq

  pub path_payment : SwapInput → String → PathRecord → PathPaymentInput
  unfolding path_assets_from_record
  path_payment input dest_min_amount best = record {
    destination = public_key;
    send_asset = input.sell_asset;
    send_amount = input.sell_amount;
    dest_asset = input.buy_asset;
    dest_min_amount = dest_min_amount;
    path = path_assets_from_record best.path;
    allow_self_payment = true;
    memo_type = "text";
    memo = none;
  }

  pub paid : Result (PathError E) Submitted × Net → Ran
  paid (ok r, net) = (ok r, net)
  paid (err e, net) = (err (path_error e), net)

  -- The checks on the best and the worst amount, and the payment.
  pub within : SwapInput → PathRecord → Option ℤ → Option ℤ → Net → Ran
  unfolding path_payment paid pay
  within input best (some (pos b)) (some w) net =
      if leb b 0
      then (err zero_amount, net)
      else if deviates b w input.max_slippage_pct
      then (err slippage, net)
      else paid (
          pay
            (path_payment input (sac_raw_to_decimal (dest_min_stroops b input.max_slippage_pct))
              best)
            net)
  within input best (some (negsuc k)) w net = (err zero_amount, net)
  within input best _ _ net = paid (pay (path_payment input "NaN" best) net)

  abbrev pub amounts : List PathRecord → List (Option ℤ)
  amounts = map λ r. parse_float r.destination_amount

  pub swapped : SwapInput → Result E (List PathRecord) × Net → Ran
  unfolding within best_of worst_of best_record
  swapped input (err e, net) = (err (thrown e), net)
  swapped input (ok [], net) = (err no_swap_path, net)
  swapped input (ok (first ∷ rest), net) =
      within input (best_record parse_float first rest)
        (best_of (parse_float first.destination_amount) (amounts rest))
        (worst_of (parse_float first.destination_amount) (amounts rest)) net

  pub between : SwapInput → Result (PathError E) Asset → Result (PathError E) Asset → Net → Ran
  unfolding swapped
  between input (err e) buy net = (err (path_error e), net)
  between input (ok a) (err e) net = (err (path_error e), net)
  between input (ok a) (ok b) net = swapped input (strict_send_paths a input.sell_amount b net)

  pub execute_swap : SwapInput → Net → Ran
  unfolding between is_valid_swap
  execute_swap input net =
      if not (is_valid_swap parse_float input)
      then (err invalid_input, net)
      else between input (to_asset Asset E native new_asset input.sell_asset)
          (to_asset Asset E native new_asset input.buy_asset) net
