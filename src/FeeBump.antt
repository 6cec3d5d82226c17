-- ===== src/FeeBump.antt =====
-- backend/tools/FeeBumpTool.ts. The transactions and keys of the SDK are a parameter with the laws that
-- its documentation states; so is `submitTransaction`, a function of a network state. A multiplier below
-- zero, which the schema refuses like 0 and 1, is left out.
pub mod Guard
pub mod Fees
pub mod Laws
mod Tests
use Prim.Native.String.{count}
use synapse_stellar.Prelude.{
  ℕ, zero, suc, ◌+◌, ◌-◌, ◌*◌, ◌/◌, ◌≤◌, max, ◌≡◌, Bool, true, false, ◌&&◌, not, Option, none, some,
  List, [], ◌∷◌, String, leb, ◌==◌, string_eq, nat_eq, if◌then◌else◌,
}
use synapse_stellar.Prelude.Results.{Result, ok, err, ◌>>=◌}
use synapse_stellar.Xdr.{InvalidXdrFormat, validate_xdr}

-- The transactions that `TransactionBuilder.fromXDR` reads.
pub data Envelope (Inner : Type 0) : Type 0 where
  plain : Inner → Envelope Inner
  fee_bump : Envelope Inner

pub record BumpSdk (E : Type 0) : Type 1 where
  pub Inner : Type 0
  pub Key : Type 0
  pub Signature : Type 0
  pub Bump : Type 0
  pub from_xdr : String → Result E (Envelope Inner)
  pub source : Inner → String
  -- `parseInt(innerTx.fee, 10)`
  pub fee : Inner → ℕ
  pub operations : Inner → ℕ
  pub signatures : Inner → List Signature
  pub from_public_key : String → Result E Key
  pub signature_hint : Key → String
  pub hint : Signature → String
  -- Whether the signature is one of the transaction's hash on the agent's network.
  pub verify : Key → Inner → Signature → Bool
  pub build_fee_bump_transaction : String → ℕ → Inner → Result E Bump
  pub sign : Bump → Bump
  pub max_fee : Bump → ℕ
  -- The second argument is documented as the maximum fee per operation of the inner transaction, and the
  -- bump itself counts as one.
  pub max_fee-build :
      (account : String) (base : ℕ) (inner : Inner) (b : Bump)
      → build_fee_bump_transaction account base inner ≡ ok b
      → base * (operations inner + 1) ≤ max_fee b
  pub max_fee-sign : (b : Bump) → max_fee (sign b) ≡ max_fee b

pub record FeeBumpInput : Type 0 where
  pub inner_tx_xdr : String
  pub fee_account : Option String
  pub base_fee_multiplier : ℕ

abbrev is_account : Option String → Bool
is_account none = true
is_account (some account) = count account == 56

-- The tests of `FeeBumpInputSchema` on an input whose fields have their types.
pub is_valid_bump : FeeBumpInput → Bool
is_valid_bump input =
    leb 1 (count input.inner_tx_xdr)
    && is_account input.fee_account
    && leb 2 input.base_fee_multiplier

pub data BumpError (E : Type 0) : Type 0 where
  invalid_input nested wrong_network undeserializable : BumpError E
  invalid_xdr : InvalidXdrFormat → BumpError E
  thrown : E → BumpError E

abbrev pub base_fee : ℕ
base_fee = 100

-- `innerTx.operations.length || 1`
abbrev pub operation_count : ℕ → ℕ
operation_count zero = 1
operation_count (suc n) = suc n

-- `newFeePerOp`, with `Math.ceil` of the quotient.
pub new_fee_per_op : (fee operations multiplier : ℕ) → ℕ
new_fee_per_op fee operations multiplier =
    let n = operation_count operations in max ((fee + n - 1) / n * multiplier) base_fee

pub fee_bump_fee : (fee operations multiplier : ℕ) → ℕ
fee_bump_fee fee operations multiplier =
    (operation_count operations + 1) * new_fee_per_op fee operations multiplier

module _ (E : Type 0) (is_base64 : String → Bool) (sdk : BumpSdk E) (Submitted Net : Type 0)
    (public_key : String) (submit_transaction : sdk.Bump → Net → Result E Submitted × Net) where
  abbrev pub read_xdr : Result InvalidXdrFormat String → Result (BumpError E) String
  read_xdr (ok xdr) = ok xdr
  read_xdr (err e) = err (invalid_xdr e)

  abbrev pub opened : Result E (Envelope sdk.Inner) → Result (BumpError E) sdk.Inner
  opened (err e) = err undeserializable
  opened (ok fee_bump) = err nested
  opened (ok (plain inner)) = ok inner

  abbrev pub rethrown : {A : Type 0} → Result E A → Result (BumpError E) A
  rethrown (ok a) = ok a
  rethrown (err e) = err (thrown e)

  -- `innerTx.signatures.find`
  pub hinted : String → List sdk.Signature → Option sdk.Signature
  hinted h [] = none
  hinted h (s ∷ rest) = let later = hinted h rest in if sdk.hint s == h then some s else later

  abbrev pub verified : sdk.Key → sdk.Inner → Option sdk.Signature → Result (BumpError E) sdk.Inner
  verified key inner none = ok inner
  verified key inner (some s) = if sdk.verify key inner s then ok inner else err wrong_network

  abbrev pub signed_by : sdk.Inner → List sdk.Signature → Result (BumpError E) sdk.Inner
  signed_by inner [] = ok inner
  signed_by inner (s ∷ rest) = do
    key ← rethrown (sdk.from_public_key (sdk.source inner))
    verified key inner (hinted (sdk.signature_hint key) (s ∷ rest))

  -- The guard on the network's passphrase.
  pub same_network : sdk.Inner → Result (BumpError E) sdk.Inner
  unfolding hinted
  same_network inner = signed_by inner (sdk.signatures inner)

  abbrev pub account_of : Option String → String
  account_of none = public_key
  account_of (some account) = account

  pub bump_of : FeeBumpInput → sdk.Inner → Result E sdk.Bump
  unfolding fee_bump_fee new_fee_per_op
  bump_of input inner =
      sdk.build_fee_bump_transaction (account_of input.fee_account)
        (fee_bump_fee (sdk.fee inner) (sdk.operations inner) input.base_fee_multiplier) inner

  -- `execute` up to the signing.
  pub prepare : FeeBumpInput → Result (BumpError E) sdk.Bump
  unfolding bump_of same_network
  prepare input = if not (is_valid_bump input) then err invalid_input else (do
    xdr ← read_xdr (validate_xdr is_base64 input.inner_tx_xdr)
    inner ← opened (sdk.from_xdr xdr)
    checked ← same_network inner
    rethrown (bump_of input checked))

  -- Signing and submission.
  abbrev pub bump_sent : Result (BumpError E) sdk.Bump → Net → Result (BumpError E) Submitted × Net
  bump_sent (err e) net = (err e, net)
  bump_sent (ok bump) net =
      let (out, net') = submit_transaction (sdk.sign bump) net in (rethrown out, net')

  pub execute_bump : FeeBumpInput → Net → Result (BumpError E) Submitted × Net
  execute_bump input net = bump_sent (prepare input) net
