-- ===== src/Network/Tests.antt =====
-- Two rate limits and two requests: runs of backend/network.ts.
use synapse_stellar.Prelude.{
  ℕ, ◌≡◌, refl, Option, none, some, List, [], ◌∷◌, ◌++◌, String, arith, ◌==◌, string_eq,
  if◌then◌else◌,
}
use synapse_stellar.Prelude.Int.{ℤ, pos}
use synapse_stellar.Network.{
  Event, request, rate_limited, checked, fires, sent, superseded, fresh_run, step, steps,
  is_throttled, clear_backoff, cleared, call, guard, enqueue, with_backoff_guard,
  handle_rate_limit_response, wait_seconds, is_due,
}
use synapse_stellar.Network.Laws.{InOrder, steps-InOrder}
use synapse_stellar.Network.Timers.{effects_locked}

abbrev parse_int : String → Option ℤ
parse_int s = if s == "2" then some (pos 2) else none

-- The first request waits for two seconds and is overtaken by the second rate limit.
abbrev events : List (Event ℕ)
events =
    rate_limited (some "2") 1000 1000
    ∷ request 1500 1
    ∷ rate_limited (some "2") 2000 2001
    ∷ request 2500 2
    ∷ fires 1 3000
    ∷ []

run :
    (steps ℕ parse_int (fresh_run ℕ) (events ++ fires 2 4000 ∷ request 4100 3 ∷ [])).effects
    ≡ superseded 1 ∷ sent 2 ∷ sent 3 ∷ []
unfolding steps step is_throttled clear_backoff cleared call guard enqueue with_backoff_guard
    handle_rate_limit_response wait_seconds is_due
run = refl

steps-InOrder_example : InOrder ℕ (steps ℕ parse_int (fresh_run ℕ) events)
steps-InOrder_example = steps-InOrder ℕ parse_int events

effects_locked_example :
    (step ℕ parse_int (steps ℕ parse_int (fresh_run ℕ) events) (checked 3999)).effects
    ≡ (steps ℕ parse_int (fresh_run ℕ) events).effects
unfolding steps step is_throttled clear_backoff cleared call guard enqueue with_backoff_guard
    handle_rate_limit_response wait_seconds is_due
effects_locked_example =
    effects_locked ℕ parse_int events (checked 3999)
      (omega arith, (tt, (omega arith, (tt, (tt, tt))))) refl (omega arith)
