-- ===== src/Retry.antt =====
-- `withRetry` of backend/rpc_client.ts. The call, the backoff of backend/network.ts and the wait between
-- two attempts are functions of a state; `Math.random` is in the wait, which is given the
-- delay before the jitter. An error is one of this file, or any other, of type
-- `E`; `undefined` is `lastErr` before the first. A `StellarRPCError` keeps its cause in the form that
-- `sanitizeCause` of Errors makes of it.
mod Tests
use synapse_stellar.Prelude.{
  ℕ, zero, suc, ◌+◌, ◌-◌, ◌*◌, ◌^◌, ◌≤◌, min, ◌≡◌, refl, ap, ◌⊎◌, inl, inr, Bool, true, false, ◌&&◌,
  not, Bool-cases, Option, none, some, List, [], ◌∷◌, ◌++◌, All, All-append, arith, if◌then◌else◌,
}
use synapse_stellar.Prelude.Results.{Result, ok, err}

pub data Failure (E : Type 0) : Type 0 where
  rate_limit_error : (retry_after_seconds : ℕ) → Failure E
  stellar_rpc_error : (cause : Failure E) → Failure E
  thrown : E → Failure E
  undefined : Failure E

-- What the loop does, in order: an attempt is logged with the error that it throws, if it does.
pub data Action (E : Type 0) : Type 0 where
  attempts : Option (Failure E) → Action E
  waits : (delay : ℕ) → Action E

abbrev pub count_attempts : {E : Type 0} → List (Action E) → ℕ
count_attempts [] = 0
count_attempts (attempts e ∷ log) = suc (count_attempts log)
count_attempts (waits n ∷ log) = count_attempts log

-- What the attempts have thrown, in order.
abbrev pub last_thrown : {E : Type 0} → List (Action E) → List (Option (Failure E))
last_thrown [] = []
last_thrown (attempts e ∷ log) = e ∷ last_thrown log
last_thrown (waits n ∷ log) = last_thrown log

module _ (State E T : Type 0) (throttled : State → Bool × State) (mentions_429 : Failure E → Bool)
    (rate_limited : Failure E → State → State) (sleep : ℕ → State → State)
    (is_retryable : Failure E → Bool) (delay_ms max_delay_ms : ℕ)
    (fn : State → Result (Failure E) T × State) where
  abbrev Outcome : Type 0
  Outcome = Result (Failure E) T × State × List (Action E)

  abbrev is_rate_limit_error : Failure E → Bool
  is_rate_limit_error (rate_limit_error _) = true
  is_rate_limit_error _ = false

  -- The body of the `try`.
  attempt_call : Bool × State → Result (Failure E) T × State
  attempt_call (true, s) = (err (rate_limit_error 30), s)
  attempt_call (false, s) = fn s

  capped : ℕ → ℕ
  capped attempt = min (delay_ms * 2 ^ (attempt - 1)) max_delay_ms

  last_error : Failure E → Failure E
  last_error e = if mentions_429 e then rate_limit_error 30 else e

  noted : Failure E → State → State
  noted e s = if mentions_429 e then rate_limited e s else s

  -- `attempt < retries`, where `left` attempts come after this one
  pause : ℕ → ℕ → State → State × List (Action E)
  unfolding capped
  pause attempt zero s = (s, [])
  pause attempt (suc left) s = (sleep (capped attempt) s, waits (capped attempt) ∷ [])

  logged : List (Action E) → Outcome → Outcome
  logged log (r, s, rest) = (r, s, log ++ rest)

  -- The `catch`; `next` is the loop from the following attempt on.
  abbrev caught : ℕ → ℕ → (Failure E → State → Outcome) → Result (Failure E) T × State → Outcome
  caught attempt left next (ok v, s) = (ok v, s, attempts none ∷ [])
  caught attempt left next (err e, s) =
      if not (is_retryable e) && not (is_rate_limit_error e)
      then (err e, noted e s, attempts (some e) ∷ [])
      else logged (attempts (some e) ∷ (pause attempt left (noted e s)).1)
          (next (last_error e) (pause attempt left (noted e s)).0)

  -- The loop, with the number of the attempt, those that are left and `lastErr`.
  loop : ℕ → ℕ → Failure E → State → Outcome
  unfolding logged pause noted last_error attempt_call
  loop attempt zero last_err s = (err (stellar_rpc_error last_err), s, [])
  loop attempt (suc left) last_err s =
      caught attempt left (λ e s'. loop (suc attempt) left e s') (attempt_call (throttled s))

  pub with_retry : ℕ → State → Outcome
  unfolding loop
  with_retry retries s = loop 1 retries undefined s

  abbrev pub IsCapped : Action E → Type 0
  IsCapped (attempts e) = Unit {0}
  IsCapped (waits n) = n ≤ max_delay_ms

  -- The cause that is given is what became of the error of the last attempt.
  abbrev pub Last : Failure E → Failure E → List (Option (Failure E)) → Type 0
  Last start cause [] = cause ≡ start
  Last start cause (e ∷ []) =
      (x : Failure E) × (e ≡ some x) × (cause ≡ (if mentions_429 x then rate_limit_error 30 else x))
  Last start cause (e ∷ e' ∷ es) = Last start cause (e' ∷ es)

  -- All the attempts but the last have thrown.
  abbrev pub Tried : List (Option (Failure E)) → Option (Failure E) → Type 0
  Tried [] final = ⊥
  Tried (e ∷ []) final = e ≡ final
  Tried (e ∷ e' ∷ es) final = ((x : Failure E) × (e ≡ some x)) × Tried (e' ∷ es) final

  -- How a run of the loop with so many attempts left and this `lastErr` ends.
  abbrev pub Ended : ℕ → Failure E → Outcome → Type 0
  Ended left start (ok v, s, log) = (count_attempts log ≤ left) × Tried (last_thrown log) none
  Ended left start (err e, s, log) =
      (count_attempts log ≤ left)
      × (((is_retryable e ≡ false) × Tried (last_thrown log) (some e))
          ⊎ ((cause : Failure E) × (e ≡ stellar_rpc_error cause)
              × (count_attempts log ≡ left)
              × Last start cause (last_thrown log)))

  count-pause :
      (attempt left : ℕ) (s : State) (log : List (Action E))
      → count_attempts ((pause attempt left s).1 ++ log) ≡ count_attempts log
  unfolding pause
  count-pause attempt zero s log = refl
  count-pause attempt (suc left) s log = refl

  last_thrown-pause :
      (attempt left : ℕ) (s : State) (log : List (Action E))
      → last_thrown ((pause attempt left s).1 ++ log) ≡ last_thrown log
  unfolding pause
  last_thrown-pause attempt zero s log = refl
  last_thrown-pause attempt (suc left) s log = refl

  pause-IsCapped : (attempt left : ℕ) (s : State) → All IsCapped (pause attempt left s).1
  unfolding pause capped
  pause-IsCapped attempt zero s = tt
  pause-IsCapped attempt (suc left) s = (omega arith, tt)

  Tried-cons :
      (x : Failure E) (es : List (Option (Failure E))) (final : Option (Failure E))
      → Tried es final
      → Tried (some x ∷ es) final
  Tried-cons x [] final h = absurd h
  Tried-cons x (e ∷ es) final h = ((x, refl), h)

  Last-start :
      (start start' cause : Failure E) (e : Option (Failure E)) (es : List (Option (Failure E)))
      → Last start cause (e ∷ es)
      → Last start' cause (e ∷ es)
  Last-start start start' cause e [] h = h
  Last-start start start' cause e (e' ∷ es) h = Last-start start start' cause e' es h

  Last-cons :
      (start x cause : Failure E) (es : List (Option (Failure E)))
      → Last (last_error x) cause es
      → Last start cause (some x ∷ es)
  unfolding last_error
  Last-cons start x cause [] h = (x, refl, h)
  Last-cons start x cause (e ∷ es) h = Last-start (last_error x) start cause e es h

  logged-Ended :
      (attempt left : ℕ) (s : State) (start x : Failure E) (out : Outcome)
      → Ended left (last_error x) out
      → Ended (suc left) start (logged (attempts (some x) ∷ (pause attempt left s).1) out)
  unfolding logged
  logged-Ended attempt left s start x (ok v, s', log) (most, tried) =
      rw (count-pause attempt left s log, last_thrown-pause attempt left s log)
        (omega arith, Tried-cons x (last_thrown log) none tried)
  logged-Ended attempt left s start x (err e, s', log) (most, inl (final, tried)) =
      rw (count-pause attempt left s log, last_thrown-pause attempt left s log)
        (omega arith, inl (final, Tried-cons x (last_thrown log) (some e) tried))
  logged-Ended attempt left s start x (err e, s', log)
        (most, inr (cause, is_last, all_made, last)) =
      rw (count-pause attempt left s log, last_thrown-pause attempt left s log)
        (
          omega arith,
          inr (cause, is_last, ap suc all_made, Last-cons start x cause (last_thrown log) last),
        )

  caught-Ended :
      (attempt left : ℕ) (start : Failure E) (next : Failure E → State → Outcome)
      (out : Result (Failure E) T × State)
      → ((e : Failure E) (s : State) → Ended left e (next e s))
      → Ended (suc left) start (caught attempt left next out)
  caught-Ended attempt left start next (ok v, s) h = (omega arith, refl)
  caught-Ended attempt left start next (err e, s) h =
      elim (Bool-cases (not (is_retryable e) && not (is_rate_limit_error e))) [
        | inl final ↦ rw final (omega arith, inl (ground arith, refl))
        | inr again ↦ rw again (
            logged-Ended attempt left (noted e s) start e
              (next (last_error e) (pause attempt left (noted e s)).0)
              (h (last_error e) (pause attempt left (noted e s)).0))
      ]

  loop-Ended :
      (attempt left : ℕ) (last_err : Failure E) (s : State)
      → Ended left last_err (loop attempt left last_err s)
  unfolding loop
  loop-Ended attempt zero last_err s = (omega arith, inr (last_err, refl, refl, refl))
  loop-Ended attempt (suc left) last_err s =
      caught-Ended attempt left last_err (λ e s'. loop (suc attempt) left e s')
        (attempt_call (throttled s)) (λ e s'. loop-Ended (suc attempt) left e s')

  logged-IsCapped :
      (log : List (Action E)) (out : Outcome)
      → All IsCapped log
      → All IsCapped out.2
      → All IsCapped (logged log out).2
  unfolding logged
  logged-IsCapped log (r, s, rest) h k = All-append IsCapped log rest h k

  caught-IsCapped :
      (attempt left : ℕ) (next : Failure E → State → Outcome) (out : Result (Failure E) T × State)
      → ((e : Failure E) (s : State) → All IsCapped (next e s).2)
      → All IsCapped (caught attempt left next out).2
  caught-IsCapped attempt left next (ok v, s) h = (tt, tt)
  caught-IsCapped attempt left next (err e, s) h =
      elim (Bool-cases (not (is_retryable e) && not (is_rate_limit_error e))) [
        | inl final ↦ rw final (tt, tt)
        | inr again ↦
            let after = pause attempt left (noted e s) in
            rw again (
              logged-IsCapped (attempts (some e) ∷ after.1) (next (last_error e) after.0)
                (tt, pause-IsCapped attempt left (noted e s)) (h (last_error e) after.0))
      ]

  loop-IsCapped :
      (attempt left : ℕ) (last_err : Failure E) (s : State)
      → All IsCapped (loop attempt left last_err s).2
  unfolding loop
  loop-IsCapped attempt zero last_err s = tt
  loop-IsCapped attempt (suc left) last_err s =
      caught-IsCapped attempt left (λ e s'. loop (suc attempt) left e s')
        (attempt_call (throttled s)) (λ e s'. loop-IsCapped (suc attempt) left e s')

  -- However the call behaves, `withRetry` makes at most `retries` attempts and waits at most
  -- `maxDelayMs`, jitter apart, between two of them. It answers after attempts of which all but the last
  -- have thrown, and it throws either the error of the last attempt, which is not retryable, or, after
  -- exactly `retries` attempts, a `StellarRPCError` with the error of the last one, or with a
  -- `RateLimitError` in its place if it mentions a 429; without any attempt the cause is undefined.
  pub with_retry_lem :
      (retries : ℕ) (s : State)
      → Ended retries undefined (with_retry retries s) × All IsCapped (with_retry retries s).2
  unfolding with_retry
  with_retry_lem retries s = (loop-Ended 1 retries undefined s, loop-IsCapped 1 retries undefined s)
