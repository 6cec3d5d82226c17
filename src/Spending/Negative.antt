-- ===== src/Spending/Negative.antt =====
-- Negative amounts in backend/spending_tracker.ts, which `record` takes like any other.
use synapse_stellar.Prelude.{ℕ, ◌≤◌, ◌≡◌, ◌∙◌, ap, String, Option, some, arith}
use synapse_stellar.Prelude.Int.{ℤ, negsuc, ◌+ℤ◌, ◌≤ℤ◌, int_laws}
use synapse_stellar.Prelude.Results.{ok}
use synapse_stellar.Persistence.{SpendingTable}
use synapse_stellar.Spending.Limit.{Inv, record_payment_lem, window_ms-record_amount}
use synapse_stellar.Spending.{Tracker, total, record_payment}

module _ (table : SpendingTable) (parse_float : String → Option ℤ)
    (agent_spending_limit : String) where
  window_ms-record_payment :
      (t : Tracker table) (now later : ℕ) (amount_str : String) (a : ℤ)
      → parse_float amount_str ≡ some a
      → (record_payment table parse_float agent_spending_limit t now later amount_str).1.window_ms
        ≡ t.window_ms
  unfolding record_payment
  window_ms-record_payment t now later amount_str a e =
      rw (e, record_payment)
        (window_ms-record_amount table parse_float agent_spending_limit t now later a)

  -- A negative amount makes room: when the window's sum is within the limit, and a payment of `a`
  -- fits only after k + 1 is taken off the sum, then recording -(k + 1) and after it `a`, at one
  -- moment, is accepted both times.
  pub negative_makes_room :
      (t : Tracker table) (s now k : ℕ) (refund payment : String) (a limit : ℤ)
      → Inv table s t
      → s ≤ now
      → parse_float agent_spending_limit ≡ some limit
      → parse_float refund ≡ some (negsuc k)
      → parse_float payment ≡ some a
      → (total table t now).0 ≤ℤ limit
      → (total table t now).0 +ℤ negsuc k +ℤ a ≤ℤ limit
      → let first = record_payment table parse_float agent_spending_limit t now now refund in
        let second =
          record_payment table parse_float agent_spending_limit first.1 now now payment in
        (first.0 ≡ ok tt)
        × (second.0 ≡ ok tt)
        × ((total table second.1 now).0 ≡ (total table t now).0 +ℤ negsuc k +ℤ a)
  negative_makes_room t s now k refund payment a limit v h p q r fits room =
      let one =
        record_payment_lem table parse_float agent_spending_limit t s now now refund (negsuc k)
          limit v h (omega arith) (omega arith) p q in
      let first = record_payment table parse_float agent_spending_limit t now now refund in
      let two =
        record_payment_lem table parse_float agent_spending_limit first.1 now now now payment a
          limit one.2 (omega arith) (omega arith) (omega arith) p r in
      (one.0.1 (omega int_laws), two.0.1 (rw one.1 room), two.1 ∙ ap (λ x. x +ℤ a) one.1)
