-- ===== src/Payment/MultiSig/Tests.antt =====
-- A payment of three signers: texts for accounts and signatures, a list of signatures for a transaction.
use synapse_stellar.Prelude.{
  ℕ, ◌+◌, ◌≡◌, refl, ◌↔◌, Bool, true, false, ◌&&◌, not, Option, none, some, List, [], ◌∷◌, ◌++◌,
  String, ◌==◌, string_eq, nat_eq, arith,
}
use synapse_stellar.Prelude.Int.{ℤ, pos}
use synapse_stellar.Prelude.Results.{Result, ok}
use synapse_stellar.Payment.{has_issuer, is_decimal}
use synapse_stellar.Payment.MultiSig.{
  MultiSigInput, MultiSigError, MultiSigResult, settled, is_valid_multi_sig, execute_multi_sig,
  add_signatures,
}
use synapse_stellar.Payment.MultiSig.Laws.{Settles, execute_multi_sig_iff, others_short}

abbrev key : String
key = "GAAAAAAAAAAAAAAAAAAAAAAAAAAAAAAAAAAAAAAAAAAAAAAAAAAAAAAA"

abbrev input : MultiSigInput
input = record {
  destination = key;
  amount = "1.5";
  asset_code = "XLM";
  asset_issuer = none;
  memo = none;
  additional_signers = key ∷ key ∷ [];
  min_signatures = 2;
  signatures = some ("b" ∷ "c" ∷ []);
}

abbrev parse : String → Option ℤ
parse s = some (pos 15)

abbrev valid_key : String → Bool
valid_key s = true

abbrev asset_of : MultiSigInput → Result String String
asset_of i = ok "native"

abbrev load_account : ℕ → Result String ℕ × ℕ
load_account n = (ok 4, n)

abbrev build : ℕ → String → MultiSigInput → Result String (List String)
build source asset i = ok []

abbrev sign : List String → List String
sign tx = tx ++ "a" ∷ []

abbrev from_xdr : String → Result String String
from_xdr s = ok s

abbrev add : List String → String → List String
add tx s = tx ++ s ∷ []

abbrev to_xdr : List String → String
to_xdr tx = "xdr"

abbrev submit_transaction : List String → ℕ → Result String String × ℕ
submit_transaction tx n = (ok "hash", n + 1)

abbrev run : MultiSigInput → ℕ → Result (MultiSigError String) (MultiSigResult String) × ℕ
run =
    execute_multi_sig parse valid_key String ℕ (List String) String String ℕ String asset_of
      load_account build sign from_xdr add to_xdr submit_transaction

settles : run input 0 ≡ (ok (settled "hash"), 1)
unfolding execute_multi_sig add_signatures is_valid_multi_sig is_decimal
settles = refl

execute_multi_sig_iff_example : ((run input 0).0 ≡ ok (settled "hash")) ↔ (
    (is_valid_multi_sig parse valid_key input ≡ true)
    × ((not (input.asset_code == "XLM") && not (has_issuer input.asset_issuer)) ≡ false)
    × Settles parse valid_key String ℕ
        (List String)
        String
        String
        ℕ
        String
        asset_of
        load_account
        build
        sign
        from_xdr
        add
        to_xdr
        submit_transaction
        input
        0
        "hash")
execute_multi_sig_iff_example =
    execute_multi_sig_iff parse valid_key String ℕ (List String) String String ℕ String asset_of
      load_account build sign from_xdr add to_xdr submit_transaction input 0 "hash"

abbrev unanimous : MultiSigInput
unanimous = record input { min_signatures = 3 }

others_short_example : ¬ ((run unanimous 0).0 ≡ ok (settled "hash"))
others_short_example =
    others_short parse valid_key String ℕ (List String) String String ℕ String asset_of load_account
      build sign from_xdr add to_xdr submit_transaction unanimous 0 "hash" ("b" ∷ "c" ∷ []) refl
      (omega arith) refl
