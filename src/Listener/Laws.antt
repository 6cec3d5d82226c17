-- ===== src/Listener/Laws.antt =====
-- The listener of backend/tools/ContractEventListener.ts when the first ledger is not to be had.
use synapse_stellar.Prelude.{
  ℕ, zero, suc, ◌+◌, ◌≡◌, ◌≤◌, refl, true, false, Option, none, some, List, [], String, leb,
  replicate, min, ◌*◌, ◌^◌, ◌-◌, ap, sym, subst, arith,
}
use synapse_stellar.Prelude.Results.{Result, err}
use synapse_stellar.Listener.{
  ContractEvent, Request, Response, Step, polls, Listener, listen, started, request, failed, step,
  steps,
}

module _ (Net E : Type 0) (get_latest_ledger : Net → Result E ℕ × Net)
    (get_events : Request → Net → Result E Response × Net) (on_event : ContractEvent → Option E)
    (event_types : List String) (max_reconnect_attempts poll_interval_ms : ℕ) where
  abbrev S : Type 0
  S =
      Listener Net E get_latest_ledger get_events on_event event_types max_reconnect_attempts
        poll_interval_ms

  abbrev begun : S
  begun =
      listen Net E get_latest_ledger get_events on_event event_types max_reconnect_attempts
        poll_interval_ms

  abbrev run : S × Net → List Step → S × Net
  run =
      steps Net E get_latest_ledger get_events on_event event_types max_reconnect_attempts
        poll_interval_ms

  -- Stuck on the rejected promise: `k` polls have failed, and fewer than the maximum.
  abbrev stuck : E → ℕ → ℕ → S
  stuck e attempts delay = record begun {
    start_ledger = some (err e);
    reconnect_attempts = attempts;
    timer = some delay;
  }

  abbrev one : S × Net → Step → S × Net
  one =
      step Net E get_latest_ledger get_events on_event event_types max_reconnect_attempts
        poll_interval_ms

  abbrev backoff : ℕ → ℕ
  backoff attempts = min (poll_interval_ms * 2 ^ (attempts + 1 - 1)) 30000

  again :
      (e : E) (attempts delay : ℕ) (net : Net)
      → leb max_reconnect_attempts (attempts + 1) ≡ false
      → one (stuck e attempts delay, net) (polls false)
        ≡ (stuck e (attempts + 1) (backoff attempts), net)
  unfolding step failed
  again e attempts delay net more = rw more refl

  gives_up :
      (e : E) (attempts delay : ℕ) (net : Net)
      → leb max_reconnect_attempts (attempts + 1) ≡ true
      → one (stuck e attempts delay, net) (polls false) ≡ (
        record (stuck e (attempts + 1) delay) { timer = none; is_stopped = true; emitted = some e },
        net,
      )
  unfolding step failed
  gives_up e attempts delay net last = rw last refl

  abbrev pub Lost : E → Net → S × Net → Type 0
  Lost e net out =
      (out.0.emitted ≡ some e) × (out.0.is_stopped ≡ true) × (out.0.delivered ≡ []) × (out.1 ≡ net)

  steps-stuck :
      (k : ℕ) (e : E) (attempts delay : ℕ) (net : Net)
      → suc (attempts + k) ≡ max_reconnect_attempts
      → Lost e net (run (stuck e attempts delay, net) (replicate (suc k) (polls false)))
  unfolding steps
  steps-stuck zero e attempts delay net h =
      rw (gives_up e attempts delay net (ground (arith, h))) (refl, refl, refl, refl)
  steps-stuck (suc k) e attempts delay net h =
      subst (λ s. Lost e net (run s (replicate (suc k) (polls false))))
        (sym (again e attempts delay net (ground (arith, h))))
        (steps-stuck k e (attempts + 1) (backoff attempts) net (omega (arith, h)))

  first_stuck :
      (e : E) (net : Net)
      → (get_latest_ledger net).0 ≡ err e
      → one (begun, net) (polls false) ≡ one (stuck e 0 0, (get_latest_ledger net).1) (polls false)
  unfolding step request started
  first_stuck e net h = rw h refl

  run_once :
      (k : ℕ) (e : E) (net : Net)
      → (get_latest_ledger net).0 ≡ err e
      → run (begun, net) (replicate (suc k) (polls false))
        ≡ run (stuck e 0 0, (get_latest_ledger net).1) (replicate (suc k) (polls false))
  unfolding steps
  run_once k e net h = ap (λ s. run s (replicate k (polls false))) (first_stuck e net h)

  -- If the first ledger cannot be had at the first poll, it is never asked for again: every later poll
  -- fails with the same error, nothing is asked of the server and nothing delivered, and after the
  -- maximum number of polls the listener emits that error and stops, whatever the server would have
  -- answered. The maximum is positive.
  pub steps-Lost :
      (e : E) (net : Net)
      → (get_latest_ledger net).0 ≡ err e
      → 1 ≤ max_reconnect_attempts
      → Lost e
          (get_latest_ledger net).1
          (run (begun, net) (replicate max_reconnect_attempts (polls false)))
  steps-Lost e net h positive = go max_reconnect_attempts refl positive
    where
      go :
          (n : ℕ)
          → n ≡ max_reconnect_attempts
          → 1 ≤ n
          → Lost e (get_latest_ledger net).1 (run (begun, net) (replicate n (polls false)))
      go zero q positive = ground (arith, positive)
      go (suc k) q positive =
          rw (run_once k e net h) (steps-stuck k e 0 0 (get_latest_ledger net).1 (omega (arith, q)))
