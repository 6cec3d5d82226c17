-- ===== src/Payment/Laws.antt =====
-- What a payment of backend/tools/StellarPaymentTool.ts has passed.
use synapse_stellar.Prelude.{
  ◌≡◌, refl, ◌↔◌, inl, inr, Bool, true, false, ◌&&◌, not, Option, String, ◌==◌, string_eq,
  Bool-cases, Option-cases, some, arith,
}
use synapse_stellar.Prelude.Int.{ℤ, pos, ◌<ℤ◌}
use synapse_stellar.Prelude.Results.{Result, ok}
use synapse_stellar.Payment.Memos.{Memo}
use synapse_stellar.Payment.Submit.Laws.{Accepted, submit_with_retry_iff}
use synapse_stellar.Payment.{
  PaymentInput, PaymentError, thrown, is_valid, has_issuer, build_tx, execute,
}

module _ (parse_float : String → Option ℤ) (is_valid_public_key : String → Bool)
    (Account Tx Submitted Net E : Type 0) (public_key : String)
    (load_account : Bool → Net → Result E Account × Net)
    (build : Account → PaymentInput → Option Memo → Tx)
    (submit_transaction : Tx → Net → Result E Submitted × Net) (is_bad_seq : E → Bool) where
  abbrev Ran : Type 0
  Ran = Result (PaymentError E) Submitted × Net

  abbrev run : PaymentInput → Net → Ran
  run =
      execute parse_float is_valid_public_key Account Tx Submitted Net E public_key load_account
        build submit_transaction is_bad_seq

  -- A payment succeeds exactly when its input is valid, does not pay the agent itself, names an issuer
  -- unless the asset is XLM, and the network accepts it at the first submission, or refuses the first
  -- for its sequence number and accepts the one that is built on the reloaded account: it is tried
  -- again once at most, and on no other error.
  pub execute_iff :
      (input : PaymentInput) (net : Net) (r : Submitted)
      → ((run input net).0 ≡ ok r) ↔ (
          (is_valid parse_float is_valid_public_key input ≡ true)
          × ((input.destination == public_key) ≡ false)
          × ((not (input.asset_code == "XLM") && not (has_issuer input.asset_issuer)) ≡ false)
          × Accepted Account Tx Submitted Net E
              (PaymentError E)
              thrown
              load_account
              (build_tx build input)
              submit_transaction
              is_bad_seq
              r
              (load_account false net))
  unfolding execute
  execute_iff input net r = elim (Bool-cases (is_valid parse_float is_valid_public_key input)) [
    | inr invalid ↦ rw invalid (λ h. cc, λ h. cc (h.0))
    | inl valid ↦ rw valid (elim (Bool-cases (input.destination == public_key)) [
      | inl own ↦ rw own (λ h. cc, λ h. cc (h.1))
      | inr other ↦
          rw other
            (elim (Bool-cases
              (not (input.asset_code == "XLM") && not (has_issuer input.asset_issuer))) [
                | inl missing ↦ rw missing (λ h. cc, λ h. cc (h.2))
                | inr named ↦
                    let (there, back) =
                      submit_with_retry_iff Account Tx Submitted Net E (PaymentError E) thrown
                        load_account (build_tx build input) submit_transaction is_bad_seq net r in
                    rw named (λ h. (refl, refl, refl, there h), λ (_, _, _, a). back a)
              ])
    ])
  ]

-- The amount of a valid input is positive.
pub amount_positive :
    (parse_float : String → Option ℤ) (is_valid_public_key : String → Bool) (input : PaymentInput)
    → is_valid parse_float is_valid_public_key input ≡ true
    → (n : ℤ) × (parse_float input.amount ≡ some n) × (pos 0 <ℤ n)
unfolding is_valid
amount_positive parse_float is_valid_public_key input =
    elim (Option-cases (parse_float input.amount)) [
      | inl missing ↦ rw missing (λ h. ground arith)
      | inr (n, read) ↦ rw read (λ h. (n, refl, ground arith))
    ]
