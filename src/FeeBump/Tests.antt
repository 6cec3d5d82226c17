-- ===== src/FeeBump/Tests.antt =====
-- A fee bump with numbers for transactions: the inner one is its fee, the envelope what it offers.
use synapse_stellar.Prelude.{
  ℕ, ◌+◌, ◌*◌, ◌≤◌, ◌≡◌, refl, ◌↔◌, Bool, true, none, [], ◌∷◌, String, string_eq, nat_eq, arith,
}
use synapse_stellar.Prelude.Results.{Result, ok}
use synapse_stellar.Xdr.{validate_xdr}
use synapse_stellar.FeeBump.{
  plain, BumpSdk, FeeBumpInput, is_valid_bump, BumpError, fee_bump_fee, new_fee_per_op, bump_of,
  prepare, execute_bump, same_network,
}
use synapse_stellar.FeeBump.Fees.{fee_overpaid}
use synapse_stellar.FeeBump.Laws.{BumpOf, execute_bump_iff}

ok_injective : {A : Type 0} {x y : A} (r : Result String A) → ok x ≡ r → r ≡ ok y → y ≡ x
ok_injective r g h = cc

abbrev sdk : BumpSdk String
sdk = record {
  Inner = ℕ;
  Key = String;
  Signature = Bool;
  Bump = ℕ;
  from_xdr = λ xdr. ok (plain 200);
  source = λ inner. "GA";
  fee = λ inner. inner;
  operations = λ inner. 2;
  signatures = λ inner. true ∷ [];
  from_public_key = λ key. ok key;
  signature_hint = λ key. "hint";
  hint = λ s. "hint";
  verify = λ key inner s. s;
  build_fee_bump_transaction = λ account base inner. ok (base * 3);
  sign = λ b. b;
  max_fee = λ b. b;
  max_fee-build = λ account base inner b h. let same = ok_injective (ok b) h refl in omega arith;
  max_fee-sign = λ b. refl;
}

abbrev is_base64 : String → Bool
is_base64 s = true

abbrev input : FeeBumpInput
input = record { inner_tx_xdr = "AAAA"; fee_account = none; base_fee_multiplier = 2 }

abbrev submit_transaction : ℕ → ℕ → Result String String × ℕ
submit_transaction bump net = (ok "hash", net + 1)

abbrev run : FeeBumpInput → ℕ → Result (BumpError String) String × ℕ
run = execute_bump String is_base64 sdk String ℕ "GA" submit_transaction

offers_threefold : prepare String is_base64 sdk String ℕ "GA" submit_transaction input ≡ ok 1800
unfolding prepare same_network fee_bump_fee new_fee_per_op bump_of validate_xdr is_valid_bump
offers_threefold = refl

execute_bump_iff_example : ((run input 0).0 ≡ ok "hash") ↔ (
    (inner : ℕ) × (bump : ℕ) × BumpOf String is_base64 sdk String ℕ "GA" submit_transaction input
      inner bump
    × ((submit_transaction bump 0).0 ≡ ok "hash"))
execute_bump_iff_example =
    execute_bump_iff String is_base64 sdk String ℕ "GA" submit_transaction input 0 "hash"

fee_overpaid_example : 3 * 3 * (200 * 2) ≤ 2 * 1800
unfolding bump_of fee_bump_fee new_fee_per_op
fee_overpaid_example =
    fee_overpaid String is_base64 sdk String ℕ "GA" submit_transaction input 200 1800 refl
