-- ===== src/Payment/Swap/Tests.antt =====
-- Runs of backend/tools/PathPaymentTool.ts and backend/tools/SwapTool.ts. An asset is its code.
use synapse_stellar.Prelude.{
  ℕ, ◌+◌, ◌≡◌, ◌↔◌, refl, Bool, true, false, ◌&&◌, not, Option, none, some, List, [], ◌∷◌, String,
  ◌==◌, string_eq, nat_eq,
}
use synapse_stellar.Prelude.Int.{ℤ, pos}
use synapse_stellar.Prelude.Options.{get_or}
use synapse_stellar.Prelude.Results.{Result, ok}
use synapse_stellar.Soroban.Decimal.{stroops}
use synapse_stellar.Payment.{is_decimal}
use synapse_stellar.Payment.Memos.{Memo, build_memo}
use synapse_stellar.Payment.Submit.{submit_with_retry}
use synapse_stellar.Payment.Path.{
  AssetInput, PathPaymentInput, Hop, PathError, PathOperation, is_valid_path, execute_path,
}
use synapse_stellar.Payment.Path.Laws.{Taken, searched, Sends, execute_path_iff}
use synapse_stellar.Payment.Path.Routes.{Each, IsAsset}
use synapse_stellar.Payment.Swap.{PathRecord, SwapInput, SwapError, execute_swap}

abbrev parse : String → Option ℤ
parse s = elim (stroops 0 s) [ none ↦ none | some n ↦ some (pos n) ]

abbrev new_asset : Option String → Option String → Result String String
new_asset code issuer = ok (get_or code "")

abbrev agent : String
agent = "GAAAAAAAAAAAAAAAAAAAAAAAAAAAAAAAAAAAAAAAAAAAAAAAAAAAAAAA"

abbrev load_account : Bool → ℕ → Result String ℕ × ℕ
load_account fresh n = (ok 4, n)

abbrev build : ℕ → PathOperation String → Option Memo → String
build source op memo = op.dest_min

abbrev submit_transaction : String → ℕ → Result String String × ℕ
submit_transaction tx n = (ok tx, n + 1)

abbrev is_bad_seq : String → Bool
is_bad_seq e = e == "tx_bad_seq"

abbrev xlm : AssetInput
xlm = record { code = "XLM"; issuer = none }

abbrev usdc : AssetInput
usdc = record { code = "USDC"; issuer = some "GI" }

abbrev input : PathPaymentInput
input = record {
  destination = agent;
  send_asset = xlm;
  send_amount = "0.0000100";
  dest_asset = usdc;
  dest_min_amount = "0.0000010";
  path = [];
  allow_self_payment = true;
  memo_type = "text";
  memo = none;
}

abbrev paths : String → String → String → ℕ → Result String (List (Option (List Hop))) × ℕ
paths a amount b n = (ok (some [] ∷ []), n)

abbrev pays : PathPaymentInput → ℕ → Result (PathError String) String × ℕ
pays =
    execute_path parse String ℕ String String ℕ String "XLM" new_asset agent paths load_account
      build submit_transaction is_bad_seq

pays_to_itself : pays input 0 ≡ (ok "0.0000010", 1)
unfolding execute_path submit_with_retry build_memo stroops is_decimal
pays_to_itself = refl

execute_path_iff_example :
    let named = IsAsset String String "XLM" new_asset in
    ((pays input 0).0 ≡ ok "0.0000010") ↔ (
      (is_valid_path parse input ≡ true)
      × ((not true && agent == agent) ≡ false)
      × ((a : String) × (b : String) × (given : List String) × (path : List String) × named xlm a
          × named usdc b
          × Each named [] given
          × Taken parse String ℕ String String ℕ String "XLM" new_asset agent paths load_account
              build submit_transaction is_bad_seq a b "0.0000100" given 0 path
          × Sends parse String ℕ String String ℕ String "XLM" new_asset agent paths load_account
              build submit_transaction is_bad_seq input
              (record {
                send_asset = a;
                send_amount = "0.0000100";
                destination = agent;
                dest_asset = b;
                dest_min = "0.0000010";
                path = path;
              })
              (searched parse String ℕ String String ℕ String "XLM" new_asset agent paths
                load_account build submit_transaction is_bad_seq a b "0.0000100" given 0)
              "0.0000010"))
execute_path_iff_example =
    execute_path_iff parse String ℕ String String ℕ String "XLM" new_asset agent paths load_account
      build submit_transaction is_bad_seq input 0 "0.0000010"

-- A hop through another asset.
abbrev eurc : Hop
eurc = record {
  asset_type = "credit_alphanum4";
  asset_code = some "EURC";
  code = none;
  asset_issuer = some "GI";
  issuer = none;
}

-- Two paths, the second the better.
abbrev quotes : String → String → String → ℕ → Result String (List PathRecord) × ℕ
quotes a amount b n = (
  ok (
      record { destination_amount = "0.0000195"; path = [] }
      ∷ record { destination_amount = "0.0000200"; path = eurc ∷ [] }
      ∷ []),
  n,
)

abbrev swap : SwapInput
swap = record {
  sell_asset = xlm;
  buy_asset = usdc;
  sell_amount = "0.0000100";
  max_slippage_pct = 50000000;
}

abbrev swaps : SwapInput → ℕ → Result (SwapError String) String × ℕ
swaps =
    execute_swap parse String ℕ String String ℕ String "XLM" new_asset agent quotes load_account
      build submit_transaction is_bad_seq
