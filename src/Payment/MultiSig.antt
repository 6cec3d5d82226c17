-- ===== src/Payment/MultiSig.antt =====
-- backend/tools/MultiSigPaymentTool.ts. The SDK's assets, transactions and signatures and the network are
-- parameters, as in Payment. The second test of `minSignatures` repeats the schema's and is left out.
pub mod Laws
mod Tests
use Prim.Native.String.{count}
use synapse_stellar.Prelude.{
  ℕ, zero, suc, ◌+◌, ◌≡◌, Bool, true, false, ◌&&◌, not, Option, none, some, List, [], ◌∷◌, String,
  length, all, leb, ◌==◌, string_eq, nat_eq, if◌then◌else◌,
}
use synapse_stellar.Prelude.Int.{ℤ}
use synapse_stellar.Prelude.Results.{Result, ok, err}
use synapse_stellar.Payment.{is_decimal, is_positive, has_issuer}
use synapse_stellar.Payment.Memos.{byte_length}

pub record MultiSigInput : Type 0 where
  pub destination : String
  pub amount : String
  pub asset_code : String
  pub asset_issuer : Option String
  pub memo : Option String
  pub additional_signers : List String
  pub min_signatures : ℕ
  pub signatures : Option (List String)

pub data MultiSigError (E : Type 0) : Type 0 where
  invalid_input issuer_required : MultiSigError E
  bad_signature thrown : E → MultiSigError E

pub data MultiSigResult (Submitted : Type 0) : Type 0 where
  unsigned : String → MultiSigResult Submitted
  settled : Submitted → MultiSigResult Submitted

abbrev is_short : Option String → Bool
is_short none = true
is_short (some memo) = leb (byte_length memo) 28

-- The tests of `MultiSigInputSchema` on an input whose fields have their types.
pub is_valid_multi_sig : (String → Option ℤ) → (String → Bool) → MultiSigInput → Bool
is_valid_multi_sig parse_float is_valid_public_key input =
    count input.destination == 56
    && is_decimal input.amount
    && is_positive (parse_float input.amount)
    && is_short input.memo
    && all (λ signer. count signer == 56 && is_valid_public_key signer) input.additional_signers
    && leb 1 input.min_signatures
    && leb input.min_signatures (length input.additional_signers + 1)

module _ (parse_float : String → Option ℤ) (is_valid_public_key : String → Bool)
    (Asset Account Tx Decorated Submitted Net E : Type 0)
    (asset_of : MultiSigInput → Result E Asset) (load_account : Net → Result E Account × Net)
    (build : Account → Asset → MultiSigInput → Result E Tx) (sign : Tx → Tx)
    (from_xdr : String → Result E Decorated) (add : Tx → Decorated → Tx) (to_xdr : Tx → String)
    (submit_transaction : Tx → Net → Result E Submitted × Net) where
  abbrev pub Outcome : Type 0
  Outcome = Result (MultiSigError E) (MultiSigResult Submitted) × Net

  -- The loop over the signatures that came with the input.
  pub add_signatures : Tx → List String → Result E Tx
  add_signatures tx [] = ok tx
  add_signatures tx (s ∷ rest) = elim (from_xdr s) [
    | err e ↦ err e
    | ok d ↦ add_signatures (add tx d) rest
  ]

  abbrev pub multi_submitted : Result E Submitted × Net → Outcome
  multi_submitted (ok r, net) = (ok (settled r), net)
  multi_submitted (err e, net) = (err (thrown e), net)

  abbrev pub multi_signed : Result E Tx → Net → Outcome
  multi_signed (err e) net = (err (bad_signature e), net)
  multi_signed (ok tx) net = multi_submitted (submit_transaction tx net)

  abbrev pub collected : MultiSigInput → Option (List String) → Tx → Net → Outcome
  collected input none tx net = (ok (unsigned (to_xdr tx)), net)
  collected input (some sigs) tx net =
      if leb input.min_signatures (length sigs)
      then multi_signed (add_signatures (sign tx) sigs) net
      else (ok (unsigned (to_xdr tx)), net)

  abbrev pub multi_built : MultiSigInput → Result E Tx → Net → Outcome
  multi_built input (err e) net = (err (thrown e), net)
  multi_built input (ok tx) net = collected input input.signatures tx net

  abbrev pub multi_loaded : MultiSigInput → Asset → Result E Account × Net → Outcome
  multi_loaded input asset (err e, net) = (err (thrown e), net)
  multi_loaded input asset (ok source, net) = multi_built input (build source asset input) net

  abbrev pub with_asset : MultiSigInput → Result E Asset → Net → Outcome
  with_asset input (err e) net = (err (thrown e), net)
  with_asset input (ok asset) net = multi_loaded input asset (load_account net)

  pub execute_multi_sig : MultiSigInput → Net → Outcome
  execute_multi_sig input net =
      if not (is_valid_multi_sig parse_float is_valid_public_key input)
      then (err invalid_input, net)
      else if not (input.asset_code == "XLM") && not (has_issuer input.asset_issuer)
      then (err issuer_required, net)
      else with_asset input (asset_of input) net
