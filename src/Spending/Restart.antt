-- ===== src/Spending/Restart.antt =====
-- A restart of backend/spending_tracker.ts: the window that the database gives back.
use synapse_stellar.Prelude.{
  ℕ, ◌-◌, ◌≤◌, ◌≡◌, refl, sym, ◌∙◌, ap, Option, some, List, [], ◌∷◌, ◌⊎◌, inl, inr, String, filter,
  filter-append, Option-cases, All-append, arith,
}
use synapse_stellar.Prelude.Int.{ℤ}
use synapse_stellar.Persistence.{SpendingRecord, SpendingTable, is_since}
use synapse_stellar.Spending.Window.{
  IsPast, IsPast-mono, IsSorted-append, filter-since_twice, total_of-append,
}
use synapse_stellar.Spending.Rows.{total_of-filter-perm, IsPast-perm, IsPast-filter}
use synapse_stellar.Spending.Limit.{
  Inv, entry, window_ms-prune_old, records-prune_old, total-eq-total_of, prune_old-Inv,
}
use synapse_stellar.Spending.{
  total_of, Tracker, prune_old, total, record_amount, record_payment, new_tracker, persist, pushed,
}

-- No statement of the module throws.
pub record IsReliable (table : SpendingTable) : Type 0 where
  pub saves :
      (d : table.Db) (r : SpendingRecord)
      → (d' : table.Db) × (table.save_spending_record d r ≡ some d')
  pub loads :
      (d : table.Db) (c : ℕ)
      → (rs : List SpendingRecord) × (table.load_spending_records d c ≡ some rs)

module _ (table : SpendingTable) where
  -- The rows and the window in memory have the same sums, for every window that can still be asked
  -- for from `now` on.
  pub record IsSynced (now : ℕ) (t : Tracker table) : Type 0 where
    pub inv : Inv table now t
    pub totals :
        (c : ℕ)
        → now - t.window_ms ≤ c
        → total_of (filter (is_since c) (table.rows t.db))
          ≡ total_of (filter (is_since c) t.records)
    pub rows_past : IsPast now (table.rows t.db)

  -- A tracker that has just been restored.
  new_tracker-IsSynced :
      (window_ms now : ℕ) (d : table.Db)
      → IsReliable table
      → IsPast now (table.rows d)
      → IsSynced now (new_tracker table window_ms now d)
  unfolding new_tracker
  new_tracker-IsSynced window_ms now d reliable past =
      let (rs, e) = reliable.loads d (now - window_ms) in
      let p = table.load-perm d (now - window_ms) rs e in
      record {
        inv = rw e (record {
          sorted = table.load-IsSorted d (now - window_ms) rs e;
          past = IsPast-perm now p (IsPast-filter (now - window_ms) now (table.rows d) past);
        });
        totals = λ c h. rw e (
            sym (
              total_of-filter-perm c p
              ∙ ap total_of (filter-since_twice (now - window_ms) c (table.rows d) h)));
        rows_past = past;
      }

  -- `pruneOld` leaves the rows alone or deletes those before its cutoff.
  rows-prune_old :
      (t : Tracker table) (now : ℕ)
      → (table.rows (prune_old table t now).db ≡ table.rows t.db)
        ⊎ (table.rows (prune_old table t now).db
            ≡ filter (is_since (now - t.window_ms)) (table.rows t.db))
  unfolding prune_old
  rows-prune_old t now =
      elim (Option-cases (table.prune_spending_records t.db (now - t.window_ms))) [
        | inl e ↦ ground (arith, e)
        | inr (d', e) ↦ ground (arith, table.rows-prune t.db d' (now - t.window_ms) e)
      ]

  filter-rows-prune_old :
      (t : Tracker table) (now c : ℕ)
      → now - t.window_ms ≤ c
      → filter (is_since c) (table.rows (prune_old table t now).db)
        ≡ filter (is_since c) (table.rows t.db)
  filter-rows-prune_old t now c h = elim (rows-prune_old t now) [
    | inl e ↦ rw e
    | inr e ↦ rw e (filter-since_twice (now - t.window_ms) c (table.rows t.db) h)
  ]

  prune_old-IsSynced :
      (t : Tracker table) (s now : ℕ)
      → s ≤ now
      → IsSynced s t
      → IsSynced now (prune_old table t now)
  prune_old-IsSynced t s now h v = record {
    inv = later_inv;
    totals = λ c k. same c (rw (window_ms-prune_old table t now) at k);
    rows_past = later_rows;
  }
    where
      earlier : Inv table s (prune_old table t now)
      earlier = prune_old-Inv table t now s v.inv

      later_inv : Inv table now (prune_old table t now)
      later_inv = record {
        sorted = earlier.sorted;
        past = IsPast-mono s now (prune_old table t now).records h earlier.past;
      }

      later_rows : IsPast now (table.rows (prune_old table t now).db)
      later_rows = elim (rows-prune_old t now) [
        | inl e ↦ rw e (IsPast-mono s now (table.rows t.db) h v.rows_past)
        | inr e ↦ rw e (
            IsPast-filter (now - t.window_ms) now (table.rows t.db)
              (IsPast-mono s now (table.rows t.db) h v.rows_past))
      ]

      same :
          (c : ℕ)
          → now - t.window_ms ≤ c
          → total_of (filter (is_since c) (table.rows (prune_old table t now).db))
            ≡ total_of (filter (is_since c) (prune_old table t now).records)
      same c k =
          rw
            (
              filter-rows-prune_old t now c k,
              records-prune_old table t now s v.inv,
              filter-since_twice (now - t.window_ms) c t.records k,
            )
            (v.totals c (omega arith))

  persist-IsSynced :
      (t : Tracker table) (now : ℕ) (a : ℤ)
      → IsReliable table
      → IsSynced now t
      → IsSynced now (persist table (pushed table t (entry a now)) (entry a now))
  unfolding persist
  persist-IsSynced t now a reliable v =
      let (d', e) = reliable.saves t.db (entry a now) in
      let rows' = table.rows-save t.db d' (entry a now) e in
      record {
        inv = record {
          sorted =
              IsSorted-append 0 now t.records (entry a now) (omega arith) refl v.inv.sorted
                v.inv.past;
          past =
              All-append (λ r. r.timestamp ≤ now) t.records (entry a now ∷ []) v.inv.past
                (omega arith);
        };
        totals = λ c k. rw (
          e,
          rows',
          filter-append (is_since c) (table.rows t.db) (entry a now ∷ []),
          filter-append (is_since c) t.records (entry a now ∷ []),
          total_of-append (filter (is_since c) (table.rows t.db))
              (filter (is_since c) (entry a now ∷ [])),
          total_of-append (filter (is_since c) t.records) (filter (is_since c) (entry a now ∷ [])),
          v.totals c k,
        );
        rows_past =
            rw (e, rows')
              (All-append (λ r. r.timestamp ≤ now) (table.rows t.db) (entry a now ∷ []) v.rows_past
                (omega arith));
      }

  IsSynced-mono : (t : Tracker table) (s now : ℕ) → s ≤ now → IsSynced s t → IsSynced now t
  IsSynced-mono t s now h v = record {
    inv = record { sorted = v.inv.sorted; past = IsPast-mono s now t.records h v.inv.past };
    totals = λ c k. v.totals c (omega arith);
    rows_past = IsPast-mono s now (table.rows t.db) h v.rows_past;
  }

  -- After a restart at `now` the window has the same sum as before it.
  restored_total :
      (t : Tracker table) (s now : ℕ)
      → s ≤ now
      → IsReliable table
      → IsSynced s t
      → (total table (new_tracker table t.window_ms now t.db) now).0 ≡ (total table t now).0
  unfolding new_tracker
  restored_total t s now h reliable v =
      let fresh =
        new_tracker-IsSynced t.window_ms now t.db reliable
          (IsPast-mono s now (table.rows t.db) h v.rows_past) in
      total-eq-total_of table _ now now fresh.inv
      ∙ sym (fresh.totals (now - t.window_ms) (omega arith))
      ∙ v.totals (now - t.window_ms) (omega arith)
      ∙ sym (total-eq-total_of table t now s v.inv)

module _ (table : SpendingTable) (parse_float : String → Option ℤ)
    (agent_spending_limit : String) where
  record_payment-IsSynced :
      (t : Tracker table) (s now later : ℕ) (amount_str : String)
      → s ≤ now
      → now ≤ later
      → IsReliable table
      → IsSynced table s t
      → IsSynced table later
          (record_payment table parse_float agent_spending_limit t now later amount_str).1
  unfolding record_payment record_amount total
  record_payment-IsSynced t s now later amount_str h k reliable v =
      elim (Option-cases (parse_float amount_str)) [
        | inl e ↦ rw (e, record_payment) (IsSynced-mono table t s later (omega arith) v)
        | inr (a, e) ↦
            rw (e, record_payment)
              (prune_old-IsSynced table _ now later k
                (persist-IsSynced table _ now a reliable (prune_old-IsSynced table t s now h v)))
      ]

  -- The lives of an agent, one process after another: a start on a database with no row of the
  -- future, payments with a clock that does not run back, and restarts on the database left behind.
  pub data History (window_ms : ℕ) : Tracker table → ℕ → Type 0 where
    start :
        (now : ℕ) (d : table.Db)
        → IsPast now (table.rows d)
        → History window_ms (new_tracker table window_ms now d) now
    pay :
        {t : Tracker table} {s : ℕ} (now later : ℕ) (amount_str : String)
        → History window_ms t s
        → s ≤ now
        → now ≤ later
        → History window_ms
            (record_payment table parse_float agent_spending_limit t now later amount_str).1
            later
    restart :
        {t : Tracker table} {s : ℕ} (now : ℕ)
        → History window_ms t s
        → s ≤ now
        → History window_ms (new_tracker table t.window_ms now t.db) now

  History-IsSynced :
      {window_ms now : ℕ} {t : Tracker table}
      → IsReliable table
      → History window_ms t now
      → IsSynced table now t
  History-IsSynced {window_ms} reliable (start now d past) =
      new_tracker-IsSynced table window_ms now d reliable past
  History-IsSynced reliable (pay {t} {s} now later amount_str earlier h k) =
      record_payment-IsSynced t s now later amount_str h k reliable
        (History-IsSynced reliable earlier)
  History-IsSynced reliable (restart {t} {s} now earlier h) =
      let v = History-IsSynced reliable earlier in
      new_tracker-IsSynced table t.window_ms now t.db reliable
        (IsPast-mono s now (table.rows t.db) h v.rows_past)

  -- With a database that answers, a restart forgets nothing: after any history of payments and
  -- restarts, a tracker built anew on the database reports the sum that the old one would.
  pub total-restart :
      {window_ms s : ℕ} {t : Tracker table} (now : ℕ)
      → IsReliable table
      → History window_ms t s
      → s ≤ now
      → (total table (new_tracker table t.window_ms now t.db) now).0 ≡ (total table t now).0
  total-restart {s} {t} now reliable past h =
      restored_total table t s now h reliable (History-IsSynced reliable past)
