-- ===== src/Listener.antt =====
-- `listen` of backend/tools/ContractEventListener.ts. Its local variables are the state, with the events
-- that `onEvent` was called with, the error that was emitted, and the pending timer. A promise that has
-- settled is its result. The RPC server is a pair of functions of a network state.
pub mod Laws
pub mod Delivery
mod Tests
use synapse_stellar.Prelude.{
  ℕ, zero, suc, ◌+◌, ◌-◌, ◌*◌, ◌^◌, min, Bool, true, false, ◌||◌, not, Option, none, some, List, [],
  ◌∷◌, ◌++◌, String, any, leb, ◌==◌, string_eq, if◌then◌else◌,
}
use synapse_stellar.Prelude.Results.{Result, ok, err}

-- `topic` are the texts that `toString` gives.
pub record ContractEvent : Type 0 where
  pub topic : List String
  pub paging_token : String

pub record Response : Type 0 where
  pub events : List ContractEvent
  pub cursor : Option String

pub data Request : Type 0 where
  from_cursor : String → Request
  from_ledger : ℕ → Request

-- What a listener undergoes: its timer fires, and `stop` is called before the poll ends or not; or
-- `stop` is called between two polls.
pub data Step : Type 0 where
  polls : (stop_called : Bool) → Step
  stops : Step

abbrev included : List String → String → Bool
included event_types t = any (λ u. u == t) event_types

pub is_match : List String → ContractEvent → Bool
is_match [] event = true
is_match (t ∷ event_types) event = any (included (t ∷ event_types)) event.topic

-- A text that is not empty: the empty cursor is falsy.
abbrev pub truthy : Option String → Option String
truthy none = none
truthy (some c) = if c == "" then none else some c

pub last_token : Option String → List ContractEvent → Option String
last_token before [] = before
last_token before (event ∷ rest) = last_token (some event.paging_token) rest

pub next_cursor : Option String → Response → Option String
unfolding last_token
next_cursor before response = elim response.events [
  | [] ↦ elim (truthy response.cursor) [ none ↦ before | some c ↦ some c ]
  | event ∷ rest ↦ last_token before (event ∷ rest)
]

module _ (Net E : Type 0) (get_latest_ledger : Net → Result E ℕ × Net)
    (get_events : Request → Net → Result E Response × Net) (on_event : ContractEvent → Option E)
    (event_types : List String) (max_reconnect_attempts poll_interval_ms : ℕ) where
  -- A timer that is pending has its delay.
  pub record Listener : Type 0 where
    pub cursor : Option String
    pub start_ledger : Option (Result E ℕ)
    pub reconnect_attempts : ℕ
    pub is_stopped : Bool
    pub timer : Option ℕ
    pub delivered : List ContractEvent
    pub emitted : Option E

  -- The first poll is due at once.
  abbrev pub listen : Listener
  listen = record {
    cursor = none;
    start_ledger = none;
    reconnect_attempts = 0;
    is_stopped = false;
    timer = some 0;
    delivered = [];
    emitted = none;
  }

  pub stop : Listener → Listener
  stop s = record s { is_stopped = true; timer = none }

  pub from_promise : Result E ℕ → Result E Request
  from_promise (ok n) = ok (from_ledger n)
  from_promise (err e) = err e

  -- The promise of the first ledger, made once.
  pub promised : Option (Result E ℕ) → Listener → Net → Result E ℕ × Listener × Net
  promised (some p) s net = (p, s, net)
  promised none s net =
      let (p, net') = get_latest_ledger net in (p, record s { start_ledger = some p }, net')

  pub started : Listener → Net → Result E ℕ × Listener × Net
  unfolding promised
  started s net = promised s.start_ledger s net

  pub request : Listener → Net → Result E Request × Listener × Net
  unfolding from_promise started
  request s net = elim (truthy s.cursor) [
    | some c ↦ (ok (from_cursor c), s, net)
    | none ↦ let (p, s', net') = started s net in (from_promise p, s', net')
  ]

  -- The loop over the events: the calls of `onEvent`, up to one that throws.
  pub deliver : List ContractEvent → List ContractEvent → Option E × List ContractEvent
  deliver [] delivered = (none, delivered)
  deliver (event ∷ rest) delivered =
      let skipped = deliver rest delivered in
      let called = deliver rest (delivered ++ event ∷ []) in
      if is_match event_types event
      then elim (on_event event) [ none ↦ called | some e ↦ (some e, delivered ++ event ∷ []) ]
      else skipped

  -- The `catch` block. A `stop` during the poll has cleared the flag by now.
  pub failed : E → Bool → Listener → Listener
  failed e stop_called s =
      let attempts = s.reconnect_attempts + 1 in
      let stopped = s.is_stopped || stop_called in
      if leb max_reconnect_attempts attempts
      then record s {
        reconnect_attempts = attempts;
        is_stopped = true;
        timer = none;
        emitted = some e;
      }
      else record s {
        reconnect_attempts = attempts;
        is_stopped = stopped;
        timer = if stopped then none else some (min (poll_interval_ms * 2 ^ (attempts - 1)) 30000);
      }

  pub settled : Bool → Response → Listener → Option E × List ContractEvent → Listener
  unfolding failed next_cursor
  settled stop_called response s (some e, delivered) =
      failed e stop_called (record s { delivered = delivered })
  settled stop_called response s (none, delivered) =
      let stopped = s.is_stopped || stop_called in
      record s {
        delivered = delivered;
        cursor = next_cursor s.cursor response;
        is_stopped = stopped;
        timer = if stopped then none else some poll_interval_ms;
      }

  pub received : Bool → Listener → Result E Response × Net → Listener × Net
  unfolding settled deliver
  received stop_called s (err e, net) = (failed e stop_called s, net)
  received stop_called s (ok response, net) = (
    settled stop_called response (record s { reconnect_attempts = 0 })
        (deliver response.events s.delivered),
    net,
  )

  pub asked : Bool → Result E Request × Listener × Net → Listener × Net
  unfolding received
  asked stop_called (err e, s, net) = (failed e stop_called s, net)
  asked stop_called (ok r, s, net) = received stop_called s (get_events r net)

  pub poll : Bool → Listener → Net → Listener × Net
  unfolding asked request
  poll stop_called s net = if s.is_stopped then (s, net) else asked stop_called (request s net)

  -- A timer that fires is no longer pending.
  pub step : Listener × Net → Step → Listener × Net
  unfolding poll stop
  step (s, net) stops = (stop s, net)
  step (s, net) (polls stop_called) = elim s.timer [
    | none ↦ (s, net)
    | some _ ↦ poll stop_called (record s { timer = none }) net
  ]

  pub steps : Listener × Net → List Step → Listener × Net
  steps s [] = s
  steps s (e ∷ es) = steps (step s e) es
