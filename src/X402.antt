-- ===== src/X402.antt =====
-- backend/tools/X402PaymentTool.ts, over any nonce store that keeps the contract of Nonce. The payment
-- tool and Horizon are functions of a network state. The tests of zod on one text, the parsing of
-- dates and URLs, and SHA-256 are parameters. `Times` has one field for each reading of the clock.
pub mod Replay
pub mod Limit
pub mod Guards
pub mod Verify
mod Tests
use Prim.Native.String.{count}
use synapse_stellar.Prelude.{
  ℕ, ◌+◌, ◌-◌, ◌≡◌, Bool, true, false, ◌&&◌, ◌||◌, not, Option, none, some, List, String, ltb, leb,
  any, ◌==◌, string_eq, nat_eq, if◌then◌else◌,
}
use synapse_stellar.Prelude.Options.{◌>>=◌, get_or}
use synapse_stellar.Prelude.Results.{Result, ok, err}
use synapse_stellar.Values.{Value, undefined, text, property}
use synapse_stellar.Nonce.{NonceStore, max_nonce_ttl_ms}

pub record X402Challenge : Type 0 where
  pub resource : String
  pub amount : String
  pub asset_code : String
  pub asset_issuer : String
  pub pay_to : String
  pub nonce : String
  pub expires_at : String

pub record X402PaymentProof : Type 0 where
  pub network : String
  pub tx_hash : String
  pub nonce : String
  pub payer : String
  pub signed_at : String

-- What the payment tool is called with. `asset_issuer` is undefined for XLM.
pub record Payment : Type 0 where
  pub destination : String
  pub amount : String
  pub asset_code : String
  pub asset_issuer : Option String
  pub memo : String

pub record PaymentResult : Type 0 where
  pub tx_hash : String
  pub ledger : ℕ

pub data X402Error (E : Type 0) : Type 0 where
  rate_limit_exceeded invalid_challenge own_address untrusted_origin expired : X402Error E
  nonce_already_used nonce_store_failed : X402Error E
  transaction_failure : E → X402Error E

abbrev pub rate_limit_window_ms : ℕ
rate_limit_window_ms = 60000

pub record Times : Type 0 where
  pub at_start : ℕ
  pub at_expiry_check : ℕ
  pub at_has : ℕ
  pub at_add : ℕ
  pub at_mark : ℕ
  pub at_prune : ℕ
  pub at_end : String

-- The configuration. `allowed_x402_origins` is the list split at its commas and trimmed, if it is set.
pub record Config : Type 0 where
  pub max_x402_payments_per_minute : ℕ
  pub x402_asset_code : String
  pub x402_asset_issuer : String
  pub allowed_x402_origins : Option (List String)
  pub stellar_network : String

-- What zod, `URL`, `Date` and SHA-256 compute.
pub record Formats : Type 0 where
  pub is_url : String → Bool
  pub is_uuid : String → Bool
  pub is_datetime : String → Bool
  pub hostname : String → String
  pub date : String → ℕ
  -- the first 28 hex digits of the hash
  pub sha256_28 : String → String

abbrev as_text : Value → Option String
as_text (text s) = some s
as_text _ = none

-- `z.string().default(…)`
abbrev as_text_or : String → Value → Option String
as_text_or default undefined = some default
as_text_or default v = as_text v

abbrev check : (String → Bool) → String → Option String
check test s = if test s then some s else none

module _ (config : Config) (formats : Formats) where
  open config use {
    max_x402_payments_per_minute, x402_asset_code, x402_asset_issuer, allowed_x402_origins,
    stellar_network,
  }
  open formats use {is_url, is_uuid, is_datetime, hostname, date, sha256_28}

  abbrev names_its_asset : X402Challenge → Bool
  names_its_asset c = c.asset_code == "XLM" || not (c.asset_issuer == "")

  -- `X402ChallengeSchema.parse`; `none` is a `ZodError`.
  pub parse_challenge : Value → Option X402Challenge
  parse_challenge raw = do
    resource ← as_text (property raw "resource") >>= check is_url
    amount ← as_text (property raw "amount")
    asset_code ← as_text_or x402_asset_code (property raw "assetCode")
    asset_issuer ← as_text_or x402_asset_issuer (property raw "assetIssuer")
    pay_to ← as_text (property raw "payTo") >>= check (λ s. count s == 56)
    nonce ← as_text (property raw "nonce") >>= check is_uuid
    expires_at ← as_text (property raw "expiresAt") >>= check is_datetime
    let challenge : X402Challenge = record {
      resource = resource;
      amount = amount;
      asset_code = asset_code;
      asset_issuer = asset_issuer;
      pay_to = pay_to;
      nonce = nonce;
      expires_at = expires_at;
    }
    if names_its_asset challenge then some challenge else none

  pub is_trusted : Option (List String) → String → Bool
  is_trusted none resource = true
  is_trusted (some origins) resource = any (λ o. o == hostname resource) origins

  abbrev pub payment_for : X402Challenge → Payment
  payment_for c = record {
    destination = c.pay_to;
    amount = c.amount;
    asset_code = c.asset_code;
    asset_issuer = if c.asset_code == "XLM" then none else some c.asset_issuer;
    memo = sha256_28 c.nonce;
  }

  -- The guards between the parsing and the nonce store.
  pub refusal : (E : Type 0) → String → X402Challenge → ℕ → Option (X402Error E)
  unfolding is_trusted
  refusal E public_key c now =
      if c.pay_to == public_key
      then some own_address
      else if not (is_trusted allowed_x402_origins c.resource)
      then some untrusted_origin
      else if ltb (date c.expires_at) now
      then some expired
      else none

  module _ (store : NonceStore) (Net E : Type 0) (public_key : String)
      (pay : Payment → Net → Result E PaymentResult × Net)
      (closed_at : ℕ → Net → Option String) where
    pub record Tool : Type 0 where
      pub nonces : store.Store
      pub payment_count : ℕ
      pub window_start : ℕ
      pub net : Net

    abbrev Answer : Type 0
    Answer = Result (X402Error E) X402PaymentProof × Tool

    pub renew : ℕ → Tool → Tool
    renew now t =
        if leb rate_limit_window_ms (now - t.window_start)
        then record t { payment_count = 0; window_start = now }
        else t

    pub proof_of : Times → X402Challenge → PaymentResult → Net → X402PaymentProof
    proof_of times c paid net = record {
      network = stellar_network;
      tx_hash = paid.tx_hash;
      nonce = c.nonce;
      payer = public_key;
      signed_at = get_or (closed_at paid.ledger net) times.at_end;
    }

    -- `add`, and `prune`, whose failure is not awaited.
    marked : Times → X402Challenge → PaymentResult → Option (Unit {0}) × store.Store → Tool → Answer
    marked times c paid (none, s) t = (err nonce_store_failed, record t { nonces = s })
    marked times c paid (some _, s) t = (
      ok (proof_of times c paid t.net),
      record t { nonces = (store.prune s times.at_prune max_nonce_ttl_ms).1 },
    )

    paid : Times → X402Challenge → Result E PaymentResult × Net → Tool → Answer
    unfolding marked
    paid times c (err e, net) t = (err (transaction_failure e), record t { net = net })
    paid times c (ok r, net) t =
        marked times c r (store.add t.nonces times.at_add times.at_mark c.nonce)
          (record t { net = net })

    asked : Times → X402Challenge → Option Bool × store.Store → Tool → Answer
    unfolding paid
    asked times c (none, s) t = (err nonce_store_failed, record t { nonces = s })
    asked times c (some true, s) t = (err nonce_already_used, record t { nonces = s })
    asked times c (some false, s) t =
        paid times c (pay (payment_for c) t.net) (record t { nonces = s })

    unrefused : Times → X402Challenge → Option (X402Error E) → Tool → Answer
    unfolding asked
    unrefused times c (some e) t = (err e, t)
    unrefused times c none t = asked times c (store.has t.nonces times.at_has c.nonce) t

    parsed : Times → Option X402Challenge → Tool → Answer
    unfolding unrefused
    parsed times none t = (err invalid_challenge, t)
    parsed times (some c) t = unrefused times c (refusal E public_key c times.at_expiry_check) t

    counted : Times → Value → Tool → Answer
    unfolding parsed
    counted times raw t =
        if leb max_x402_payments_per_minute t.payment_count
        then (err rate_limit_exceeded, t)
        else parsed times (parse_challenge raw) (record t { payment_count = t.payment_count + 1 })

    pub respond : Times → Value → Tool → Answer
    unfolding renew counted
    respond times raw t = counted times raw (renew times.at_start t)
