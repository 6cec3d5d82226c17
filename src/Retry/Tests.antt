-- ===== src/Retry/Tests.antt =====
-- A call that fails twice and then answers: runs of `withRetry` of backend/rpc_client.ts.
use synapse_stellar.Prelude.{
  ℕ, ◌+◌, ◌≡◌, refl, none, some, true, false, List, [], ◌∷◌, All, String, ltb, if◌then◌else◌,
}
use synapse_stellar.Prelude.Results.{Result, ok, err}
use synapse_stellar.Retry.{
  Failure, Action, thrown, undefined, stellar_rpc_error, attempts, waits, attempt_call, capped,
  last_error, noted, pause, logged, loop, with_retry, Ended, IsCapped, with_retry_lem,
}

-- The state counts the calls.
abbrev flaky : ℕ → Result (Failure String) ℕ × ℕ
flaky s = (if ltb s 2 then err (thrown "timeout") else ok 7, s + 1)

abbrev run : ℕ → Result (Failure String) ℕ × ℕ × List (Action String)
run retries =
    with_retry ℕ String ℕ (λ s. (false, s)) (λ e. false) (λ e s. s) (λ n s. s) (λ e. true) 100 150
      flaky retries 0

third_time : run 3 ≡ (
  ok 7,
  3,
  attempts (some (thrown "timeout"))
      ∷ waits 100
      ∷ attempts (some (thrown "timeout"))
      ∷ waits 150
      ∷ attempts none
      ∷ [],
)
unfolding with_retry loop attempt_call capped last_error noted pause logged
third_time = refl

gives_up : (run 2).0 ≡ err (stellar_rpc_error (thrown "timeout"))
unfolding with_retry loop attempt_call capped last_error noted pause logged
gives_up = refl

with_retry_lem_example :
    let at_most =
      IsCapped ℕ String ℕ
        (λ s. (false, s))
        (λ e. false)
        (λ e s. s)
        (λ n s. s)
        (λ e. true)
        100
        150
        flaky in
    Ended ℕ String ℕ
      (λ s. (false, s))
      (λ e. false)
      (λ e s. s)
      (λ n s. s)
      (λ e. true)
      100
      150
      flaky
      2
      undefined
      (run 2)
    × All at_most (run 2).2
with_retry_lem_example =
    with_retry_lem ℕ String ℕ (λ s. (false, s)) (λ e. false) (λ e s. s) (λ n s. s) (λ e. true) 100
      150 flaky 2 0
