-- ===== src/Network.antt =====
-- backend/network.ts: the backoff after a 429. The module's one `globalBackoff` is the state. A queued
-- callback is the generation that it captured and the request that it stands for, of any type; it
-- runs up to its first wait, which changes nothing here. `parseInt` is a parameter.
pub mod Laws
pub mod Timers
mod Tests
use synapse_stellar.Prelude.{
  ℕ, ◌+◌, ◌*◌, ◌-◌, ◌≡◌, Bool, true, false, ◌&&◌, not, Option, none, some, List, [], ◌∷◌, ◌++◌, map,
  filter, any, length, leb, ltb, ◌==◌, nat_eq, string_eq, String, if◌then◌else◌,
}
use synapse_stellar.Prelude.Int.{ℤ, pos}

-- What becomes of a request: it is sent, or rejected because its backoff was superseded.
pub data Effect (Task : Type 0) : Type 0 where
  sent superseded : Task → Effect Task

-- A call of `setTimeout`: the generation that it captured and the time from which it may fire.
pub record Timer : Type 0 where
  pub generation : ℕ
  pub due : ℕ

module _ (Task : Type 0) where
  pub record BackoffState : Type 0 where
    pub active : Bool
    pub until : ℕ
    pub retry_after_seconds : ℕ
    pub queue : List (ℕ × Task)
    pub generation : ℕ

  abbrev pub global_backoff : BackoffState
  global_backoff = record {
    active = false;
    until = 0;
    retry_after_seconds = 0;
    queue = [];
    generation = 0;
  }

  -- A queued callback that is called under the given generation.
  call : ℕ → ℕ × Task → Effect Task
  call generation (enqueued_generation, fn) =
      if generation == enqueued_generation then sent fn else superseded fn

  cleared : BackoffState → List (Effect Task) × BackoffState
  unfolding call
  cleared b = (
    map (call b.generation) b.queue,
    record b { active = false; retry_after_seconds = 0; until = 0; queue = [] },
  )

  -- `clearBackoff()`, and `clearBackoff(generation)`
  clear_backoff : Option ℕ → BackoffState → List (Effect Task) × BackoffState
  unfolding cleared
  clear_backoff none b = cleared b
  clear_backoff (some generation) b = if generation == b.generation then cleared b else ([], b)

  pub is_throttled : ℕ → BackoffState → Bool × List (Effect Task) × BackoffState
  unfolding clear_backoff
  is_throttled now b =
      if not b.active
      then (false, [], b)
      else if leb b.until now
      then (false, (clear_backoff none b).0, (clear_backoff none b).1)
      else (true, [], b)

  module _ (parse_int : String → Option ℤ) where
    abbrev positive_or_default : Option ℤ → ℕ
    positive_or_default (some (pos n)) = if ltb 0 n then n else 30
    positive_or_default _ = 30

    pub wait_seconds : Option String → ℕ
    wait_seconds none = 30
    wait_seconds (some header) = if header == "" then 30 else positive_or_default (parse_int header)

    -- `setTimeout` takes a delay that does not fit into 31 bits for 1.
    abbrev pub max_delay : ℕ
    max_delay = 2147483647

    abbrev pub timeout_delay : ℕ → ℕ
    timeout_delay ms = if ltb max_delay ms then 1 else ms

    -- The clock is read at `now`, and again at `later` for the delay of the timer.
    pub handle_rate_limit_response : Option String → ℕ → ℕ → BackoffState → Timer × BackoffState
    unfolding wait_seconds
    handle_rate_limit_response header now later b =
        let wait = wait_seconds header in
        let until = now + wait * 1000 in
        (
          record { generation = b.generation + 1; due = later + timeout_delay (until - later) },
          record b {
            active = true;
            until = until;
            retry_after_seconds = wait;
            generation = b.generation + 1;
          },
        )

  enqueue : Task → BackoffState → BackoffState
  enqueue fn b = record b { queue = b.queue ++ (b.generation, fn) ∷ [] }

  guard : Task → Bool × List (Effect Task) × BackoffState → List (Effect Task) × BackoffState
  unfolding enqueue
  guard fn (true, effects, b) = (effects, enqueue fn b)
  guard fn (false, effects, b) = (effects ++ sent fn ∷ [], b)

  pub with_backoff_guard : ℕ → Task → BackoffState → List (Effect Task) × BackoffState
  unfolding guard
  with_backoff_guard now fn b = guard fn (is_throttled now b)

  -- `queueSize` of `getBackoffStatus`
  pub queue_size : BackoffState → ℕ
  queue_size b = length b.queue

  pub data Event : Type 0 where
    request : (now : ℕ) → Task → Event
    rate_limited : (header : Option String) (now later : ℕ) → Event
    checked : (now : ℕ) → Event
    fires : (generation now : ℕ) → Event

  -- The state, the timers that have not fired, and the history.
  pub record Run : Type 0 where
    pub state : BackoffState
    pub timers : List Timer
    pub requests : List Task
    pub effects : List (Effect Task)

  abbrev pub fresh_run : Run
  fresh_run = record { state = global_backoff; timers = []; requests = []; effects = [] }

  abbrev after : Run → List (Effect Task) × BackoffState → Run
  after r (effects, b) = record r { state = b; effects = r.effects ++ effects }

  abbrev scheduled : Run → Timer × BackoffState → Run
  scheduled r (t, b) = record r { state = b; timers = t ∷ r.timers }

  is_due : ℕ → ℕ → Timer → Bool
  is_due generation now t = t.generation == generation && leb t.due now

  -- A timer fires once, and not before its time.
  pub step : (String → Option ℤ) → Run → Event → Run
  unfolding with_backoff_guard handle_rate_limit_response is_due clear_backoff
  step parse_int r (request now fn) =
      after (record r { requests = r.requests ++ fn ∷ [] }) (with_backoff_guard now fn r.state)
  step parse_int r (rate_limited header now later) =
      scheduled r (handle_rate_limit_response parse_int header now later r.state)
  step parse_int r (checked now) =
      let (_, effects, b) = is_throttled now r.state in after r (effects, b)
  step parse_int r (fires generation now) =
      if any (is_due generation now) r.timers
      then after (record r { timers = filter (λ t. not (t.generation == generation)) r.timers })
          (clear_backoff (some generation) r.state)
      else r

  pub steps : (String → Option ℤ) → Run → List Event → Run
  steps parse_int r [] = r
  steps parse_int r (e ∷ es) = steps parse_int (step parse_int r e) es
