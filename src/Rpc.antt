-- ===== src/Rpc.antt =====
-- backend/rpc_client.ts without `withRetry`, which is in Retry: the account cache, submission, and the
-- preparation of a Soroban transaction. Loads and submissions are split where they await Horizon,
-- since others run meanwhile. An account is a reference to the object that Horizon's answer is: its
-- sequence, which the builders of the SDK increment in place, is not the cache's and not modelled. A
-- guarded, bounded and retried call of the Soroban RPC is a parameter, a function of a network state;
-- so are the SDK's transactions.
pub mod Cache
pub mod Auth
mod Tests
use Prim.Native.String.{◌++◌ as concat}
use synapse_stellar.Prelude.{
  ℕ, ◌+◌, ◌≡◌, Bool, true, false, ◌&&◌, ◌||◌, not, Option, none, some, List, [], ◌∷◌, ◌++◌, String,
  ltb, ◌==◌, string_eq, if◌then◌else◌,
}
use synapse_stellar.Prelude.Maps
use synapse_stellar.Prelude.Maps.{Map, empty}
use synapse_stellar.Prelude.Results.{Result, ok, err}
use synapse_stellar.Errors.{
  ErrorClass, StructuredError, new_contract_error, config_error, simulation_budget_error,
}
use synapse_stellar.Values.{Value, undefined, null, text, object, field, end}

pub data Network : Type 0 where
  public futurenet testnet : Network

-- `Networks.PUBLIC` and its kin are constants of the SDK.
pub resolve_network_passphrase : String → Result StructuredError Network
resolve_network_passphrase network =
    if network == "mainnet"
    then ok public
    else if network == "futurenet"
    then ok futurenet
    else if network == "testnet"
    then ok testnet
    else err (record {
      class = config_error;
      message = concat "Unsupported network: " network;
      cause = undefined;
    })

-- What `DEFAULT_IS_RETRYABLE` sees of a thrown value.
pub data Failed : Type 0 where
  zod_error type_error rate_limit_error : Failed
  error_saying : (budget_exceeded simulation_failed : Bool) → Failed
  no_error : Failed

pub default_is_retryable : Failed → Bool
default_is_retryable zod_error = false
default_is_retryable type_error = false
default_is_retryable rate_limit_error = true
default_is_retryable (error_saying budget_exceeded simulation_failed) =
    not (budget_exceeded || simulation_failed)
default_is_retryable no_error = true

module _ (Account : Type 0) where
  pub record CachedAccount : Type 0 where
    pub account : Account
    pub expires_at : ℕ

  abbrev pub AccountCache : Type 0
  AccountCache = Map CachedAccount

  pub invalidate_account_cache : Option String → AccountCache → AccountCache
  invalidate_account_cache none cache = empty
  invalidate_account_cache (some public_key) cache = Maps.delete cache public_key

  module _ (E Submitted : Type 0) (ttl : ℕ) where
    -- An entry that is found is served until it expires, and removed then.
    looked_up : String → ℕ → AccountCache → Option CachedAccount → Option Account × AccountCache
    looked_up public_key now cache none = (none, cache)
    looked_up public_key now cache (some cached) =
        if ltb now cached.expires_at
        then (some cached.account, cache)
        else (none, Maps.delete cache public_key)

    -- `loadAccount` up to its `await`: the account that it returns at once, or that it asks Horizon.
    pub begin_load : String → Bool → ℕ → AccountCache → Option Account × AccountCache
    unfolding looked_up
    begin_load public_key force_refresh now cache =
        if force_refresh
        then (none, Maps.delete cache public_key)
        else if ltb 0 ttl
        then looked_up public_key now cache (Maps.get cache public_key)
        else (none, cache)

    -- The rest of `loadAccount`, at the time `now` at which Horizon has answered or failed.
    pub end_load : String → ℕ → Result E Account → AccountCache → Result E Account × AccountCache
    end_load public_key now (err e) cache = (err e, cache)
    end_load public_key now (ok a) cache = (
      ok a,
      if ltb 0 ttl
          then Maps.set cache public_key (record { account = a; expires_at = now + ttl })
          else cache,
    )

    -- The end of `submitTransaction`: the `finally` clears the cache, whatever Horizon has answered. A
    -- transaction that is no XDR is refused before the `try`, with the cache as it was.
    pub end_submit : Result E Submitted → AccountCache → Result E Submitted × AccountCache
    unfolding invalidate_account_cache
    end_submit r cache = (r, invalidate_account_cache none cache)

-- An authorisation entry: without credentials, with credentials of the source account, or with those
-- of an address, whose two forms of a key may each be missing.
pub data AuthEntry (Key : Type 0) : Type 0 where
  no_credentials source_account : AuthEntry Key
  address : (ed25519 muxed_ed25519 : Option Key) → AuthEntry Key

-- `ed25519 ?? muxedEd25519`
abbrev pub raw_key : {Key : Type 0} → Option Key → Option Key → Option Key
raw_key (some k) muxed = some k
raw_key none muxed = muxed

pub record SimulationResult (Tx Event : Type 0) : Type 0 where
  pub assembled : Tx
  pub events : List Event

module _ (Key Tx Event Net : Type 0) (encode : Key → String) (agent_public_key : String) where
  abbrev unauthorized : String → Value → StructuredError
  unauthorized message signer = record {
    class = ErrorClass.unauthorized_error;
    message = message;
    cause = object (field "signer" signer (field "expected" (text agent_public_key) end));
  }

  abbrev check_key : Option Key → Option StructuredError
  check_key none = some (unauthorized "Unexpected Soroban auth signer format" null)
  check_key (some k) =
      if encode k == agent_public_key
      then none
      else some
          (unauthorized (concat "Unexpected Soroban auth signer: " (encode k)) (text (encode k)))

  check_entry : AuthEntry Key → Option StructuredError
  check_entry (address ed25519 muxed) = check_key (raw_key ed25519 muxed)
  check_entry _ = none

  -- The inner loop, up to the first entry that throws.
  check_entries : List (AuthEntry Key) → Option StructuredError
  check_entries [] = none
  check_entries (a ∷ as') =
      let rest = check_entries as' in elim (check_entry a) [ some e ↦ some e | none ↦ rest ]

  -- The entries of each operation; `none` is that nothing is thrown.
  pub validate_soroban_auth : List (List (AuthEntry Key)) → Option StructuredError
  validate_soroban_auth [] = none
  validate_soroban_auth (op ∷ ops) =
      let rest = validate_soroban_auth ops in
      elim (check_entries op) [ some e ↦ some e | none ↦ rest ]

  module _ (mentions_budget_exceeded : String → Bool) (auth_of : Tx → List (List (AuthEntry Key)))
      (simulate : Tx
        → Net
        → Result StructuredError (Result String (SimulationResult Tx Event)) × Net) where
    simulation_error : String → StructuredError
    simulation_error e =
        let message : String = concat "Soroban simulation failed: " e in
        if mentions_budget_exceeded e
        then record { class = simulation_budget_error; message = message; cause = undefined }
        else new_contract_error message none (text e)

    validated :
        SimulationResult Tx Event
        → Option StructuredError
        → Result StructuredError (SimulationResult Tx Event)
    validated built (some e) = err e
    validated built none = ok built

    simulated :
        Result StructuredError (Result String (SimulationResult Tx Event)) × Net
        → Result StructuredError (SimulationResult Tx Event) × Net
    unfolding simulation_error validated
    simulated (err e, net) = (err e, net)
    simulated (ok (err e), net) = (err (simulation_error e), net)
    simulated (ok (ok built), net) =
        (validated built (validate_soroban_auth (auth_of built.assembled)), net)

    pub prepare_soroban_tx_with_events :
        Tx → Net → Result StructuredError (SimulationResult Tx Event) × Net
    unfolding simulated
    prepare_soroban_tx_with_events tx net = simulated (simulate tx net)
