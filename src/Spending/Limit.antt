-- ===== src/Spending/Limit.antt =====
-- The cumulative limit of backend/spending_tracker.ts.
use synapse_stellar.Prelude.{
  ℕ, ◌+◌, ◌-◌, ◌≤◌, ◌≡◌, refl, ◌∙◌, ap, Option, some, List, [], ◌∷◌, ◌++◌, ◌↔◌, String, filter,
  filter-append, All-append, arith,
}
use synapse_stellar.Prelude.Int.{ℤ, ◌+ℤ◌, ◌≤ℤ◌}
use synapse_stellar.Prelude.Results.{ok}
use synapse_stellar.Persistence.{SpendingRecord, SpendingTable, is_since, IsSorted}
use synapse_stellar.Spending.Window.{
  IsPast, shift_expired-filter, shift_expired-IsSorted, shift_expired-IsPast, IsPast-mono,
  IsSorted-append, filter-since_twice, total_of-filter_snoc,
}
use synapse_stellar.Spending.{
  total_of, Tracker, prune_old, total, record_amount, record_payment, persist, pushed, check_limit,
}

-- The records are in the order of their times, and none is younger than `now`.
pub record Inv (table : SpendingTable) (now : ℕ) (t : Tracker table) : Type 0 where
  pub sorted : IsSorted 0 t.records
  pub past : IsPast now t.records

-- The record that a payment at `now` leaves.
abbrev pub entry : ℤ → ℕ → SpendingRecord
entry amount now = record { amount = amount; timestamp = now }

-- What the tracker has on its books for the window that ends at `now`.
abbrev pub in_window : (table : SpendingTable) → Tracker table → ℕ → List SpendingRecord
in_window table t now = filter (is_since (now - t.window_ms)) t.records

module _ (table : SpendingTable) where
  pub records-prune_old :
      (t : Tracker table) (now s : ℕ)
      → Inv table s t
      → (prune_old table t now).records ≡ in_window table t now
  unfolding prune_old
  records-prune_old t now s v = shift_expired-filter (now - t.window_ms) 0 t.records v.sorted

  pub prune_old-Inv :
      (t : Tracker table) (now s : ℕ) → Inv table s t → Inv table s (prune_old table t now)
  unfolding prune_old
  prune_old-Inv t now s v = record {
    sorted = shift_expired-IsSorted (now - t.window_ms) 0 t.records v.sorted;
    past = shift_expired-IsPast (now - t.window_ms) s t.records v.past;
  }

  -- `total()` is the sum of the records of the window, whatever was pruned before.
  pub total-eq-total_of :
      (t : Tracker table) (now s : ℕ)
      → Inv table s t
      → (total table t now).0 ≡ total_of (in_window table t now)
  unfolding total
  total-eq-total_of t now s v = ap total_of (records-prune_old t now s v)

  pub window_ms-prune_old :
      (t : Tracker table) (now : ℕ) → (prune_old table t now).window_ms ≡ t.window_ms
  unfolding prune_old
  window_ms-prune_old t now = refl

  -- A record of the present, written to both places.
  pub booked : Tracker table → ℕ → ℤ → Tracker table
  booked t now a = persist table (pushed table (prune_old table t now) (entry a now)) (entry a now)

  pub booked-Inv :
      (t : Tracker table) (s now : ℕ) (a : ℤ)
      → s ≤ now
      → Inv table s t
      → Inv table now (booked t now a)
  unfolding booked persist
  booked-Inv t s now a h v =
      let w = prune_old-Inv t now s v in
      let recent = IsPast-mono s now (prune_old table t now).records h w.past in
      record {
        sorted =
            IsSorted-append 0 now (prune_old table t now).records (entry a now) (omega arith) refl
              w.sorted recent;
        past =
            All-append (λ r. r.timestamp ≤ now) (prune_old table t now).records (entry a now ∷ [])
              recent (omega arith);
      }

  pub in_window-booked :
      (t : Tracker table) (s now later : ℕ) (a : ℤ)
      → now ≤ later
      → Inv table s t
      → in_window table (booked t now a) later
        ≡ filter (is_since (later - t.window_ms)) (t.records ++ entry a now ∷ [])
  unfolding booked persist
  in_window-booked t s now later a k v = rw (
    window_ms-prune_old t now,
    records-prune_old t now s v,
    filter-append (is_since (later - t.window_ms)) (in_window table t now) (entry a now ∷ []),
    filter-append (is_since (later - t.window_ms)) t.records (entry a now ∷ []),
    filter-since_twice (now - t.window_ms) (later - t.window_ms) t.records (omega arith),
  )

  check_limit_iff : (limit sum : ℤ) → (check_limit table (some limit) sum ≡ ok tt) ↔ (sum ≤ℤ limit)
  check_limit_iff limit sum = ground arith

  module _ (parse_float : String → Option ℤ) (agent_spending_limit : String) where
    pub record_amount-Inv :
        (t : Tracker table) (s now later : ℕ) (a : ℤ)
        → s ≤ now
        → Inv table s t
        → Inv table now (record_amount table parse_float agent_spending_limit t now later a).1
    unfolding record_amount total booked
    record_amount-Inv t s now later a h v =
        prune_old-Inv (booked t now a) later now (booked-Inv t s now a h v)

    pub records-record_amount :
        (t : Tracker table) (s now later : ℕ) (a : ℤ)
        → s ≤ now
        → now ≤ later
        → Inv table s t
        → (record_amount table parse_float agent_spending_limit t now later a).1.records
          ≡ filter (is_since (later - t.window_ms)) (t.records ++ entry a now ∷ [])
    unfolding record_amount total booked persist
    records-record_amount t s now later a h k v =
        records-prune_old (booked t now a) later now (booked-Inv t s now a h v)
        ∙ in_window-booked t s now later a k v

    -- The verdict of `record` is a comparison of the window's sum, the new amount included.
    pub record_amount-eq-check :
        (t : Tracker table) (s now later : ℕ) (a limit : ℤ)
        → s ≤ now
        → now ≤ later
        → later ≤ now + t.window_ms
        → Inv table s t
        → parse_float agent_spending_limit ≡ some limit
        → (record_amount table parse_float agent_spending_limit t now later a).0
          ≡ check_limit table (some limit) (total_of (in_window table t later) +ℤ a)
    unfolding record_amount total booked persist
    record_amount-eq-check t s now later a limit h k w v p = rw (
      p,
      records-record_amount t s now later a h k v,
      total_of-filter_snoc (later - t.window_ms) t.records (entry a now) (omega arith),
    )

    pub window_ms-record_amount :
        (t : Tracker table) (now later : ℕ) (a : ℤ)
        → (record_amount table parse_float agent_spending_limit t now later a).1.window_ms
          ≡ t.window_ms
    unfolding record_amount total persist prune_old
    window_ms-record_amount t now later a = refl

    pub total-record_amount :
        (t : Tracker table) (s now later : ℕ) (a : ℤ)
        → s ≤ now
        → now ≤ later
        → later ≤ now + t.window_ms
        → Inv table s t
        → (total table
            (record_amount table parse_float agent_spending_limit t now later a).1
            later).0
          ≡ (total table t later).0 +ℤ a
    total-record_amount t s now later a h k w v = rw (
      total-eq-total_of _ later now (record_amount-Inv t s now later a h v),
      total-eq-total_of t later s v,
      window_ms-record_amount t now later a,
      records-record_amount t s now later a h k v,
      filter-since_twice (later - t.window_ms) (later - t.window_ms) (t.records ++ entry a now ∷ [])
          (omega arith),
      total_of-filter_snoc (later - t.window_ms) t.records (entry a now) (omega arith),
    )

    -- `record` of a number accepts it exactly when the sum of the window, the new amount included, is
    -- within the limit, and puts it on the books in either case.
    pub record_payment_lem :
        (t : Tracker table) (s now later : ℕ) (amount_str : String) (a limit : ℤ)
        → Inv table s t
        → s ≤ now
        → now ≤ later
        → later ≤ now + t.window_ms
        → parse_float agent_spending_limit ≡ some limit
        → parse_float amount_str ≡ some a
        → let out = record_payment table parse_float agent_spending_limit t now later amount_str in
          let sum = (total table t later).0 +ℤ a in
          ((out.0 ≡ ok tt) ↔ (sum ≤ℤ limit))
          × ((total table out.1 later).0 ≡ sum)
          × Inv table now out.1
    unfolding record_payment
    record_payment_lem t s now later amount_str a limit v h k w p q =
        rw (q, record_payment)
          (
            verdict,
            total-record_amount t s now later a h k w v,
            record_amount-Inv t s now later a h v,
          )
      where
        verdict :
            ((record_amount table parse_float agent_spending_limit t now later a).0 ≡ ok tt)
            ↔ ((total table t later).0 +ℤ a ≤ℤ limit)
        verdict =
            rw
              (
                record_amount-eq-check t s now later a limit h k w v p,
                total-eq-total_of t later s v,
              )
              (check_limit_iff limit (total_of (in_window table t later) +ℤ a))
