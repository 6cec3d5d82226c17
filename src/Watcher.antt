-- ===== src/Watcher.antt =====
-- backend/tools/ContractStorageWatcherTool.ts. The fields of the class are the state, with the events that
-- were emitted and the delay of the pending timer. `getLedgerEntries` is a function of a network state,
-- the codecs of the SDK are parameters. No listener throws, and there is one for 'error', without
-- which `emit` would throw; `poll` is called by the timer alone, so one poll runs at a time.
pub mod Compare
pub mod Replay
pub mod Current
mod Tests
use synapse_stellar.Prelude.{
  ℕ, ◌+◌, ◌≡◌, Bool, true, false, ◌||◌, not, Option, none, some, List, [], ◌∷◌, ◌++◌, String, leb,
  ◌==◌, string_eq, if◌then◌else◌,
}
use synapse_stellar.Prelude.Maps
use synapse_stellar.Prelude.Maps.{Map, empty}
use synapse_stellar.Prelude.Results.{Result, ok, err}

-- A key as the caller gives it.
pub data KeyInput (LedgerKey ScVal : Type 0) : Type 0 where
  ledger_key : LedgerKey → KeyInput LedgerKey ScVal
  sc_val : ScVal → KeyInput LedgerKey ScVal
  text : String → KeyInput LedgerKey ScVal

module _ (LedgerKey ScVal Durability : Type 0) (contract_data : ScVal → Durability → LedgerKey)
    (symbol : String → ScVal) (ledger_key_from_xdr : String → Option LedgerKey)
    (sc_val_from_xdr : String → Option ScVal) where
  normalize_text : String → Durability → LedgerKey
  normalize_text key durability = elim (ledger_key_from_xdr key) [
    | some k ↦ k
    | none ↦ elim (sc_val_from_xdr key) [
      | some v ↦ contract_data v durability
      | none ↦ contract_data (symbol key) durability
    ]
  ]

  -- For a contract whose id has parsed.
  pub normalize_ledger_key : KeyInput LedgerKey ScVal → Durability → LedgerKey
  unfolding normalize_text
  normalize_ledger_key (ledger_key k) durability = k
  normalize_ledger_key (sc_val v) durability = contract_data v durability
  normalize_ledger_key (text key) durability = normalize_text key durability

-- An entry of a response, with the texts of its key and its value.
pub record LedgerEntry (LedgerKey : Type 0) : Type 0 where
  pub key : LedgerKey
  pub key_xdr : String
  pub val_xdr : String

pub record Response (LedgerKey : Type 0) : Type 0 where
  pub entries : List (LedgerEntry LedgerKey)
  pub latest_ledger : Option ℕ

pub record StorageChange (LedgerKey : Type 0) : Type 0 where
  pub key : LedgerKey
  pub key_xdr : String
  pub old_value : Option String
  pub new_value : Option String
  pub ledger : Option ℕ

pub data Event (LedgerKey E : Type 0) : Type 0 where
  change : StorageChange LedgerKey → Event LedgerKey E
  polled : ℕ → Event LedgerKey E
  error : E → Event LedgerKey E
  done : ℕ → Event LedgerKey E

-- The timer fires, and `stop` is called before the poll ends or not; or `stop` is called between polls.
pub data Step : Type 0 where
  polls : (stop_called : Bool) → Step
  stops : Step

-- `prevVal !== valXdr`
abbrev pub differs : Option String → String → Bool
differs none v = true
differs (some w) v = not (w == v)

-- `maxPolls !== undefined && pollCount >= maxPolls`
abbrev pub is_last : ℕ → Option ℕ → Bool
is_last count none = false
is_last count (some m) = leb m count

module _ (Net E LedgerKey : Type 0) (normalize_key : String → LedgerKey)
    (get_ledger_entries : Net → Result E (Response LedgerKey) × Net) (max_polls : Option ℕ)
    (poll_interval_ms : ℕ) where
  pub record Watcher : Type 0 where
    pub key_map : Map LedgerKey
    pub poll_count : ℕ
    pub is_stopped : Bool
    pub is_initialized : Bool
    pub timer : Option ℕ
    pub state_cache : Map String
    pub emitted : List (Event LedgerKey E)

  abbrev pub Entries : Type 0
  Entries = List (String × LedgerEntry LedgerKey)

  abbrev pub Change : Type 0
  Change = StorageChange LedgerKey

  -- The constructor, of the keys as `normalizeLedgerKey` and `toXDR` give them, and the initial state.
  keyed : List (String × LedgerKey) → Map LedgerKey → Map LedgerKey
  keyed [] m = m
  keyed ((k, key) ∷ rest) m = keyed rest (Maps.set m k key)

  seeded : List (String × String) → Map String → Map String
  seeded [] m = m
  seeded ((k, v) ∷ rest) m = seeded rest (Maps.set m k v)

  given : Option (List (String × String)) → Map String × Bool
  unfolding seeded
  given none = (empty, false)
  given (some initial) = (seeded initial empty, true)

  pub new_watcher : List (String × LedgerKey) → Option (List (String × String)) → Watcher
  unfolding keyed given
  new_watcher keys initial_state =
      let (cache, is_initialized) = given initial_state in
      record {
        key_map = keyed keys empty;
        poll_count = 0;
        is_stopped = false;
        is_initialized = is_initialized;
        timer = some 0;
        state_cache = cache;
        emitted = [];
      }

  pub stop : Watcher → Watcher
  stop s = record s { is_stopped = true; timer = none }

  -- `currentMap`
  pub current_map :
      List (LedgerEntry LedgerKey) → Map (LedgerEntry LedgerKey) → Map (LedgerEntry LedgerKey)
  current_map [] m = m
  current_map (entry ∷ rest) m = current_map rest (Maps.set m entry.key_xdr entry)

  -- The first poll.
  pub baseline : Entries → Map String → Map String
  baseline [] cache = cache
  baseline ((k, entry) ∷ rest) cache = baseline rest (Maps.set cache k entry.val_xdr)

  key_or : Option LedgerKey → LedgerKey → LedgerKey
  key_or none k = k
  key_or (some key) k = key

  -- The loop over modified and new keys.
  pub updates : Map LedgerKey → Option ℕ → Entries → Map String → List Change × Map String
  unfolding key_or
  updates keys ledger [] cache = ([], cache)
  updates keys ledger ((k, entry) ∷ rest) cache =
      let old = Maps.get cache k in
      let c : Change = record {
        key = key_or (Maps.get keys k) entry.key;
        key_xdr = k;
        old_value = old;
        new_value = some entry.val_xdr;
        ledger = ledger;
      } in
      let (later, last) = updates keys ledger rest (Maps.set cache k entry.val_xdr) in
      let unchanged = updates keys ledger rest cache in
      if differs old entry.val_xdr then (c ∷ later, last) else unchanged

  -- The loop over deleted keys, of the entries that the cache has when it starts.
  pub deletions :
      Map LedgerKey
      → Option ℕ
      → Map (LedgerEntry LedgerKey)
      → List (String × String)
      → Map String
      → List Change × Map String
  unfolding key_or
  deletions keys ledger current [] cache = ([], cache)
  deletions keys ledger current ((k, old) ∷ rest) cache =
      let c : Change = record {
        key = key_or (Maps.get keys k) (normalize_key k);
        key_xdr = k;
        old_value = some old;
        new_value = none;
        ledger = ledger;
      } in
      let (later, last) = deletions keys ledger current rest (Maps.delete cache k) in
      let present = deletions keys ledger current rest cache in
      if not (Maps.has current k) then (c ∷ later, last) else present

  pub changes_of : List Change → List (Event LedgerKey E)
  changes_of [] = []
  changes_of (c ∷ cs) = change c ∷ changes_of cs

  -- What a response comes to once there is a state to compare it with.
  pub compared :
      Map LedgerKey → Option ℕ → Map (LedgerEntry LedgerKey) → Map String → List Change × Map String
  unfolding updates deletions
  compared keys ledger current cache =
      let (changed, cache') = updates keys ledger (Maps.entries_of current) cache in
      let (deleted, cache'') = deletions keys ledger current (Maps.entries_of cache') cache' in
      (changed ++ deleted, cache'')

  pub answered : Watcher → Response LedgerKey → Watcher
  unfolding baseline compared changes_of current_map
  answered s r =
      let current = current_map r.entries empty in
      let (cs, cache) = compared s.key_map r.latest_ledger current s.state_cache in
      if s.is_initialized
      then record s {
        state_cache = cache;
        emitted = s.emitted ++ changes_of cs ++ polled s.poll_count ∷ [];
      }
      else record s {
        state_cache = baseline (Maps.entries_of current) s.state_cache;
        is_initialized = true;
        emitted = s.emitted ++ polled s.poll_count ∷ [];
      }

  -- The `try` block and its `catch`.
  pub read : Watcher → Result E (Response LedgerKey) × Net → Watcher × Net
  unfolding answered
  read s (ok r, net) = (answered s r, net)
  read s (err e, net) = (record s { emitted = s.emitted ++ error e ∷ [] }, net)

  -- What follows: the end, or the next timer.
  pub scheduled : Watcher → Watcher
  unfolding stop
  scheduled s =
      if is_last s.poll_count max_polls
      then record (stop s) { emitted = s.emitted ++ done s.poll_count ∷ [] }
      else if s.is_stopped
      then s
      else record s { timer = some poll_interval_ms }

  pub begun : Bool → Watcher → Net → Watcher × Net
  unfolding read scheduled
  begun stop_called s net =
      let (s', net') = read (record s { poll_count = s.poll_count + 1 }) (get_ledger_entries net) in
      (scheduled (record s' { is_stopped = s'.is_stopped || stop_called }), net')

  pub poll : Bool → Watcher → Net → Watcher × Net
  unfolding begun
  poll stop_called s net = if s.is_stopped then (s, net) else begun stop_called s net

  pub step : Watcher × Net → Step → Watcher × Net
  unfolding poll stop
  step (s, net) stops = (stop s, net)
  step (s, net) (polls stop_called) = elim s.timer [
    | none ↦ (s, net)
    | some _ ↦ poll stop_called (record s { timer = none }) net
  ]

  pub steps : Watcher × Net → List Step → Watcher × Net
  steps s [] = s
  steps s (e ∷ es) = steps (step s e) es
