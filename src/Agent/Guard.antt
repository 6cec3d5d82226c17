-- ===== src/Agent/Guard.antt =====
-- `assertWithinSpendingLimit` of backend/agent.ts, over the tracker of Spending. An amount that is no
-- text passes: the tool's own schema is left to refuse it.
use synapse_stellar.Prelude.{
  ℕ, ◌+◌, ◌*◌, ◌≤◌, ◌≡◌, refl, ◌↔◌, ◌⊎◌, inl, inr, Bool, false, ◌&&◌, Option, some, String, arith,
  Bool-cases, if◌then◌else◌,
}
use synapse_stellar.Prelude.Int.{ℤ, pos, ◌+ℤ◌, ◌≤ℤ◌, ltb_ℤ}
use synapse_stellar.Prelude.Results.{Result, ok, err}
use synapse_stellar.Persistence.{SpendingTable}
use synapse_stellar.Spending.{Tracker, SpendingError, record_payment, total}
use synapse_stellar.Spending.Limit.{Inv, record_payment_lem}
use synapse_stellar.Values.{Value, text}

pub data GuardError : Type 0 where
  exceeds_limit exceeds_mainnet_cap : String → GuardError
  window : SpendingError → GuardError

-- 10000, in units of 10⁻⁷.
abbrev pub mainnet_spending_cap : ℤ
mainnet_spending_cap = pos (10000 * 10000000)

module _ (table : SpendingTable) (parse_float : String → Option ℤ) (agent_spending_limit : String)
    (is_mainnet : Bool) where
  -- `!isNaN(parsed) && parsed > limit`, false where the limit is NaN
  abbrev pub is_over : Option ℤ → Option ℤ → Bool
  is_over (some parsed) (some limit) = ltb_ℤ limit parsed
  is_over _ _ = false

  abbrev lift :
      Result SpendingError (Unit {0}) × Tracker table → Result GuardError (Unit {0}) × Tracker table
  lift (ok _, t) = (ok tt, t)
  lift (err e, t) = (err (window e), t)

  assert_text : Tracker table → ℕ → ℕ → String → Result GuardError (Unit {0}) × Tracker table
  assert_text t now later amount =
      if is_over (parse_float amount) (parse_float agent_spending_limit)
      then (err (exceeds_limit amount), t)
      else if is_mainnet && is_over (parse_float amount) (some mainnet_spending_cap)
      then (err (exceeds_mainnet_cap amount), t)
      else lift (record_payment table parse_float agent_spending_limit t now later amount)

  pub assert_within_spending_limit :
      Tracker table → ℕ → ℕ → Value → Result GuardError (Unit {0}) × Tracker table
  unfolding assert_text
  assert_within_spending_limit t now later (text amount) = assert_text t now later amount
  assert_within_spending_limit t now later _ = (ok tt, t)

  lift_ok :
      (out : Result SpendingError (Unit {0}) × Tracker table)
      → (lift out).0 ≡ ok tt
      → (out.0 ≡ ok tt) × ((lift out).1 ≡ out.1)
  lift_ok (ok _, t) h = (refl, refl)
  lift_ok (err e, t) h = cc

  assert_text_ok :
      (t : Tracker table) (now later : ℕ) (amount : String)
      → (assert_text t now later amount).0 ≡ ok tt
      → let recorded = record_payment table parse_float agent_spending_limit t now later amount in
        (is_over (parse_float amount) (parse_float agent_spending_limit) ≡ false)
        × ((is_mainnet && is_over (parse_float amount) (some mainnet_spending_cap)) ≡ false)
        × (recorded.0 ≡ ok tt)
        × ((assert_text t now later amount).1 ≡ recorded.1)
  unfolding assert_text
  assert_text_ok t now later amount =
      elim (Bool-cases (is_over (parse_float amount) (parse_float agent_spending_limit))) [
        | inl over ↦ rw over (λ e. cc)
        | inr within ↦
            rw within
              (elim (Bool-cases
                (is_mainnet && is_over (parse_float amount) (some mainnet_spending_cap))) [
                  | inl over ↦ rw over (λ e. cc)
                  | inr below ↦
                      rw below λ e. let (done, same) = lift_ok _ e in (refl, refl, done, same)
                ])
      ]

  assert_text_accepts :
      (t : Tracker table) (now later : ℕ) (amount : String)
      → is_over (parse_float amount) (parse_float agent_spending_limit) ≡ false
      → (is_mainnet && is_over (parse_float amount) (some mainnet_spending_cap)) ≡ false
      → (record_payment table parse_float agent_spending_limit t now later amount).0 ≡ ok tt
      → (assert_text t now later amount).0 ≡ ok tt
  unfolding assert_text
  assert_text_accepts t now later amount within below accepted =
      rw (within, below)
        (accepts (record_payment table parse_float agent_spending_limit t now later amount)
          accepted)
    where
      accepts :
          (out : Result SpendingError (Unit {0}) × Tracker table)
          → out.0 ≡ ok tt
          → (lift out).0 ≡ ok tt
      accepts (ok _, t) h = refl
      accepts (err e, t) h = cc

  -- The guard lets a numeric payment through exactly when the payment is within the limit by itself, on
  -- the mainnet is within the cap, and with it the sum of the window is within the limit. The limit is
  -- a number, the clock does not run back, and the two readings of it within one call are no
  -- further apart than the window.
  pub assert_within_spending_limit_iff :
      (t : Tracker table) (s now later : ℕ) (amount : String) (a limit : ℤ)
      → Inv table s t
      → s ≤ now
      → now ≤ later
      → later ≤ now + t.window_ms
      → parse_float agent_spending_limit ≡ some limit
      → parse_float amount ≡ some a
      → ((assert_within_spending_limit t now later (text amount)).0 ≡ ok tt) ↔ (
          (a ≤ℤ limit)
          × ((is_mainnet ≡ false) ⊎ (a ≤ℤ mainnet_spending_cap))
          × (((total table t later).0 +ℤ a) ≤ℤ limit))
  unfolding assert_within_spending_limit
  assert_within_spending_limit_iff t s now later amount a limit v h k w p q =
      let (verdict, _, _) =
        record_payment_lem table parse_float agent_spending_limit t s now later amount a limit v h k
          w p q in
      (
        λ e.
            let (within, below, accepted, _) = assert_text_ok t now later amount e in
            (ground (arith, within), ground (arith, below), verdict.0 accepted),
        λ (e, c, w).
            assert_text_accepts t now later amount (ground arith) (ground (arith, c)) (verdict.1 w),
      )
