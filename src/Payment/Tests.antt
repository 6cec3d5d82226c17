-- ===== src/Payment/Tests.antt =====
-- Runs of backend/tools/StellarPaymentTool.ts and backend/tools/BatchPaymentTool.ts.
use synapse_stellar.Prelude.{
  ℕ, ◌+◌, ◌≡◌, refl, ◌↔◌, Bool, true, false, ◌&&◌, not, Option, none, some, List, [], ◌∷◌, String,
  ◌==◌, string_eq, nat_eq, if◌then◌else◌,
}
use synapse_stellar.Prelude.Int.{ℤ, pos, ◌+ℤ◌}
use synapse_stellar.Prelude.Results.{Result, ok, err}
use synapse_stellar.Soroban.Decimal.{stroops}
use synapse_stellar.Payment.Memos.{integer, Memo, memo_id, build_memo}
use synapse_stellar.Payment.Submit.{submit_with_retry}
use synapse_stellar.Payment.{
  PaymentInput, PaymentError, thrown, build_tx, is_decimal, is_valid, has_issuer, execute,
}
use synapse_stellar.Payment.Laws.{execute_iff}
use synapse_stellar.Payment.Submit.Laws.{Accepted}
use synapse_stellar.Payment.Batch.{preflight_from, preflight, BatchError, execute_batch}

id_made : build_memo "id" (some (integer (pos 7))) ≡ ok (some (memo_id 7))
unfolding build_memo
id_made = refl

abbrev parse : String → Option ℤ
parse s = elim (stroops 0 s) [ none ↦ none | some n ↦ some (pos n) ]

abbrev valid_key : String → Bool
valid_key key = true

abbrev input : PaymentInput
input = record {
  destination = "GBBBBBBBBBBBBBBBBBBBBBBBBBBBBBBBBBBBBBBBBBBBBBBBBBBBBBBB";
  amount = "0.0000030";
  asset_code = "XLM";
  asset_issuer = none;
  memo_type = "id";
  memo = some (integer (pos 7));
}

decimals :
    (is_decimal "0.0000030" ≡ true)
    × (is_decimal "0.00" ≡ false)
    × (is_decimal "00" ≡ true)
    × (is_decimal "1.12345678" ≡ false)
unfolding is_decimal
decimals = (refl, refl, refl, refl)

-- The sequence number is the account; the first submission finds it used.
abbrev load_account : Bool → ℕ → Result String ℕ × ℕ
load_account fresh n = (ok (if fresh then 5 else 4), n)

abbrev build : ℕ → PaymentInput → Option Memo → ℕ
build source _ _ = source

abbrev submit_transaction : ℕ → ℕ → Result String String × ℕ
submit_transaction tx n = if tx == 5 then (ok "hash", n + 1) else (err "tx_bad_seq", n + 1)

abbrev is_bad_seq : String → Bool
is_bad_seq e = e == "tx_bad_seq"

abbrev run : PaymentInput → ℕ → Result (PaymentError String) String × ℕ
run =
    execute parse valid_key ℕ ℕ String ℕ String "GA" load_account build submit_transaction
      is_bad_seq

submits_again : run input 0 ≡ (ok "hash", 2)
unfolding execute submit_with_retry build_memo stroops
submits_again = refl

execute_iff_example : ((run input 0).0 ≡ ok "hash") ↔ (
    (is_valid parse valid_key input ≡ true)
    × ((input.destination == "GA") ≡ false)
    × ((not (input.asset_code == "XLM") && not (has_issuer input.asset_issuer)) ≡ false)
    × Accepted ℕ ℕ String ℕ String
        (PaymentError String)
        thrown
        load_account
        (build_tx build input)
        submit_transaction
        is_bad_seq
        "hash"
        (load_account false 0))
execute_iff_example =
    execute_iff parse valid_key ℕ ℕ String ℕ String "GA" load_account build submit_transaction
      is_bad_seq input 0 "hash"

abbrev bare : PaymentInput
bare = record input { asset_code = "USDC" }

abbrev payments : List PaymentInput
payments = input ∷ bare ∷ input ∷ bare ∷ []

first_problem : preflight true payments ≡ err (record { problems = 1 ∷ []; skipped = 2 })
unfolding preflight_from
first_problem = refl

abbrev load : ℕ → Result String ℕ × ℕ
load n = (ok 5, n)

abbrev build_all : ℕ → List PaymentInput → ℕ
build_all source _ = source

abbrev run_batch : List PaymentInput → Bool → ℕ → Result (BatchError String) String × ℕ
run_batch =
    execute_batch parse valid_key "0.0000200" ℕ ℕ String ℕ String load build_all submit_transaction

submits_batch : run_batch (input ∷ input ∷ []) true 0 ≡ (ok "hash", 1)
unfolding execute_batch stroops is_valid ◌+ℤ◌
submits_batch = refl
