-- ===== src/Network/Timers.antt =====
-- The timers of backend/network.ts: what a stale one cannot do.
use synapse_stellar.Prelude.{
  ℕ, ◌+◌, ◌-◌, ◌*◌, ◌≤◌, ◌<◌, ◌≡◌, refl, ap, ◌∙◌, ◌⊎◌, inl, inr, Bool, true, false, not, Bool-cases,
  Option, none, some, List, [], ◌∷◌, ◌++◌, append-nil, filter, any, All, leb, ◌==◌, nat_eq, String,
  arith,
}
use synapse_stellar.Prelude.Int.{ℤ}
use synapse_stellar.Network.{
  Effect, Timer, BackoffState, cleared, clear_backoff, is_throttled, handle_rate_limit_response,
  enqueue, guard, with_backoff_guard, Event, request, rate_limited, checked, fires, Run, fresh_run,
  is_due, step, steps, wait_seconds, timeout_delay,
}

module _ (Task : Type 0) where
  -- A timer is stale, or due no earlier than the backoff ends.
  abbrev OnTime : BackoffState Task → Timer → Type 0
  OnTime b t = (t.generation < b.generation) ⊎ ((t.generation ≡ b.generation) × (b.until ≤ t.due))

  abbrev Timely : BackoffState Task → List Timer → Type 0
  Timely b ts = All (OnTime b) ts

  -- The generation stays, and the backoff ends no later.
  abbrev Eases : BackoffState Task → BackoffState Task → Type 0
  Eases b b' = (b'.generation ≡ b.generation) × (b'.until ≤ b.until)

  Timely-Eases :
      (b b' : BackoffState Task) (ts : List Timer) → Eases b b' → Timely b ts → Timely b' ts
  Timely-Eases b b' [] h v = tt
  Timely-Eases b b' (t ∷ ts) h (o, v) = (omega arith, Timely-Eases b b' ts h v)

  Timely-limited :
      (b b' : BackoffState Task) (ts : List Timer)
      → b'.generation ≡ b.generation + 1
      → Timely b ts
      → Timely b' ts
  Timely-limited b b' [] h v = tt
  Timely-limited b b' (t ∷ ts) h (o, v) = (omega arith, Timely-limited b b' ts h v)

  Timely-filter :
      (b : BackoffState Task) (p : Timer → Bool) (ts : List Timer)
      → Timely b ts
      → Timely b (filter p ts)
  Timely-filter b p [] v = tt
  Timely-filter b p (t ∷ ts) (o, v) = elim (Bool-cases (p t)) [
    | inl e ↦ rw e (o, Timely-filter b p ts v)
    | inr e ↦ rw e (Timely-filter b p ts v)
  ]

  clear_backoff-Eases : (g : Option ℕ) (b : BackoffState Task) → Eases b (clear_backoff Task g b).1
  unfolding clear_backoff cleared
  clear_backoff-Eases none b = (refl, omega arith)
  clear_backoff-Eases (some g) b = elim (Bool-cases (g == b.generation)) [
    | inl e ↦ rw e (refl, omega arith)
    | inr e ↦ rw e (refl, omega arith)
  ]

  is_throttled-Eases : (now : ℕ) (b : BackoffState Task) → Eases b (is_throttled Task now b).2
  unfolding is_throttled
  is_throttled-Eases now b = elim (Bool-cases b.active) [
    | inl a ↦ rw a (elim (Bool-cases (leb b.until now)) [
      | inl e ↦ rw e (clear_backoff-Eases none b)
      | inr e ↦ rw e (refl, omega arith)
    ])
    | inr a ↦ rw a (refl, omega arith)
  ]

  guard-Eases :
      (fn : Task) (out : Bool × List (Effect Task) × BackoffState Task)
      → Eases out.2 (guard Task fn out).1
  unfolding guard enqueue
  guard-Eases fn (true, es, b) = (refl, omega arith)
  guard-Eases fn (false, es, b) = (refl, omega arith)

  -- The delay of a rate limit is one that `setTimeout` takes: less than 25 days.
  abbrev pub Schedulable : (String → Option ℤ) → Event Task → Type 0
  Schedulable parse_int (rate_limited header now later) =
      (now + wait_seconds Task parse_int header * 1000) - later ≤ 2147483647
  Schedulable parse_int _ = Unit {0}

  timed :
      (parse_int : String → Option ℤ) (until later : ℕ)
      → until - later ≤ 2147483647
      → until ≤ later + timeout_delay Task parse_int (until - later)
  timed parse_int until later ok = ground (arith, ok)

  step-Timely :
      (parse_int : String → Option ℤ) (r : Run Task) (e : Event Task)
      → Schedulable parse_int e
      → Timely r.state r.timers
      → let r' = step Task parse_int r e in Timely r'.state r'.timers
  unfolding step with_backoff_guard handle_rate_limit_response
  step-Timely parse_int r (request now fn) ok v =
      let out = is_throttled Task now r.state in
      Timely-Eases out.2 (guard Task fn out).1 r.timers (guard-Eases fn out)
        (Timely-Eases r.state out.2 r.timers (is_throttled-Eases now r.state) v)
  step-Timely parse_int r (rate_limited header now later) ok v =
      let b' = (handle_rate_limit_response Task parse_int header now later r.state).1 in
      (
        inr (refl, timed parse_int (now + wait_seconds Task parse_int header * 1000) later ok),
        Timely-limited r.state b' r.timers refl v,
      )
  step-Timely parse_int r (checked now) ok v =
      Timely-Eases r.state (is_throttled Task now r.state).2 r.timers
        (is_throttled-Eases now r.state) v
  step-Timely parse_int r (fires generation now) ok v =
      elim (Bool-cases (any (is_due Task generation now) r.timers)) [
        | inl e ↦ rw e (
            Timely-Eases r.state (clear_backoff Task (some generation) r.state).1
              (filter (λ t. not (t.generation == generation)) r.timers)
              (clear_backoff-Eases (some generation) r.state)
              (Timely-filter r.state (λ t. not (t.generation == generation)) r.timers v))
        | inr e ↦ rw e v
      ]

  steps-Timely :
      (parse_int : String → Option ℤ) (r : Run Task) (es : List (Event Task))
      → All (Schedulable parse_int) es
      → Timely r.state r.timers
      → let r' = steps Task parse_int r es in Timely r'.state r'.timers
  unfolding steps
  steps-Timely parse_int r [] ok v = v
  steps-Timely parse_int r (e ∷ es) (ok, oks) v =
      steps-Timely parse_int (step Task parse_int r e) es oks (step-Timely parse_int r e ok v)

  none_due :
      (b : BackoffState Task) (now : ℕ) (ts : List Timer)
      → Timely b ts
      → now < b.until
      → any (is_due Task b.generation now) ts ≡ false
  unfolding is_due
  none_due b now [] v h = refl
  none_due b now (t ∷ ts) (o, v) h = ground (arith, none_due b now ts v h)

  is_throttled_locked :
      (now : ℕ) (b : BackoffState Task)
      → b.active ≡ true
      → now < b.until
      → ((is_throttled Task now b).0 ≡ true) × ((is_throttled Task now b).1 ≡ [])
  unfolding is_throttled
  is_throttled_locked now b a h =
      let later : leb b.until now ≡ false = ground arith in rw (a, later) (refl, refl)

  guard_locked :
      (fn : Task) (out : Bool × List (Effect Task) × BackoffState Task)
      → out.0 ≡ true
      → out.1 ≡ []
      → (guard Task fn out).0 ≡ []
  unfolding guard
  guard_locked fn (true, es, b) t h = h
  guard_locked fn (false, es, b) t h = cc

  clear_backoff_stale :
      (generation now : ℕ) (b : BackoffState Task) (ts : List Timer)
      → Timely b ts
      → now < b.until
      → any (is_due Task generation now) ts ≡ true
      → (clear_backoff Task (some generation) b).0 ≡ []
  unfolding clear_backoff
  clear_backoff_stale generation now b ts v h due = elim (Bool-cases (generation == b.generation)) [
    | inl e ↦
        let same : generation ≡ b.generation = ground arith in
        let not_due : any (is_due Task generation now) ts ≡ false =
          rw same (none_due b now ts v h) in
        cc
    | inr e ↦ rw e refl
  ]

  abbrev pub time_of : Event Task → ℕ
  time_of (request now fn) = now
  time_of (rate_limited header now later) = now
  time_of (checked now) = now
  time_of (fires generation now) = now

  step_locked :
      (parse_int : String → Option ℤ) (r : Run Task) (e : Event Task)
      → Timely r.state r.timers
      → r.state.active ≡ true
      → time_of e < r.state.until
      → (step Task parse_int r e).effects ≡ r.effects
  unfolding step with_backoff_guard
  step_locked parse_int r (request now fn) v a h =
      let (throttled, none_called) = is_throttled_locked now r.state a h in
      ap (◌++◌ r.effects) (guard_locked fn (is_throttled Task now r.state) throttled none_called)
      ∙ append-nil r.effects
  step_locked parse_int r (rate_limited header now later) v a h = refl
  step_locked parse_int r (checked now) v a h =
      ap (◌++◌ r.effects) ((is_throttled_locked now r.state a h).1) ∙ append-nil r.effects
  step_locked parse_int r (fires generation now) v a h =
      elim (Bool-cases (any (is_due Task generation now) r.timers)) [
        | inl e ↦ rw e (
            ap (◌++◌ r.effects) (clear_backoff_stale generation now r.state r.timers v h e)
            ∙ append-nil r.effects)
        | inr e ↦ rw e refl
      ]

  -- While a backoff is active and before its end nothing is sent and nothing is rejected, whatever
  -- has led to it and whatever comes: a request waits, and a timer of an earlier backoff that
  -- fires clears nothing. The delays are ones that `setTimeout` takes: at most 2^31 - 1 ms.
  pub effects_locked :
      (parse_int : String → Option ℤ) (es : List (Event Task)) (e : Event Task)
      → All (Schedulable parse_int) es
      → (steps Task parse_int (fresh_run Task) es).state.active ≡ true
      → time_of e < (steps Task parse_int (fresh_run Task) es).state.until
      → (step Task parse_int (steps Task parse_int (fresh_run Task) es) e).effects
        ≡ (steps Task parse_int (fresh_run Task) es).effects
  effects_locked parse_int es e ok a h =
      step_locked parse_int (steps Task parse_int (fresh_run Task) es) e
        (steps-Timely parse_int (fresh_run Task) es ok tt) a h
