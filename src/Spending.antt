-- ===== src/Spending.antt =====
-- backend/spending_tracker.ts. The clock is an argument of each operation, `Date.now()` read once
-- at its start. `parseFloat` is a parameter: `none` is NaN, and a number is a signed count of
-- stroops. The log lines (the warning at 80% of the limit too) are left out.
pub mod Window
pub mod Limit
pub mod Rows
pub mod Restart
pub mod Negative
pub mod Tests
use synapse_stellar.Prelude.{
  ℕ, ◌+◌, ◌-◌, ◌≡◌, Bool, true, false, Option, none, some, List, [], ◌∷◌, ◌++◌, String, length, ltb,
  if◌then◌else◌,
}
use synapse_stellar.Prelude.Int.{ℤ, pos, ◌+ℤ◌, ltb_ℤ}
use synapse_stellar.Prelude.Results.{Result, ok, err}
use synapse_stellar.Persistence.{SpendingRecord, SpendingTable, is_before}

-- `records.reduce((sum, r) => sum + r.amount, 0)`
unfoldable pub sum_amounts : ℤ → List SpendingRecord → ℤ
sum_amounts sum [] = sum
sum_amounts sum (r ∷ rs) = sum_amounts (sum +ℤ r.amount) rs

unfoldable pub total_of : List SpendingRecord → ℤ
unfolding sum_amounts
total_of = sum_amounts (pos 0)

-- The loop of `pruneOld`: the records that are left.
unfoldable pub shift_expired : ℕ → List SpendingRecord → List SpendingRecord
shift_expired cutoff [] = []
shift_expired cutoff (first ∷ rest) =
    let shifted = shift_expired cutoff rest in
    if is_before cutoff first then shifted else first ∷ rest

-- `Error("Cumulative spending ${total} exceeds limit ${limit}")`
pub data SpendingError : Type 0 where
  cumulative_limit : (total limit : ℤ) → SpendingError

module _ (table : SpendingTable) where
  open table use {
    Db, save_spending_record, load_spending_records, prune_spending_records, clear_spending_records,
  }

  pub record Tracker : Type 0 where
    pub window_ms : ℕ
    pub records : List SpendingRecord
    pub db : Db

  -- `try { … } catch { }` around a statement: a failure leaves the database as it was.
  abbrev attempt : Option Db → Db → Db
  attempt none d = d
  attempt (some d') d = d'

  -- `restore`: an unreadable database gives an empty window.
  abbrev restored : Option (List SpendingRecord) → List SpendingRecord
  restored none = []
  restored (some rs) = rs

  -- `constructor` with `restore`. A cutoff before time 0 is 0 here: `timestamp < cutoff` and
  -- `timestamp >= cutoff` say the same of it.
  pub new_tracker : ℕ → ℕ → Db → Tracker
  new_tracker window_ms now db = record {
    window_ms = window_ms;
    records = restored (load_spending_records db (now - window_ms));
    db = db;
  }

  abbrev evicts : ℕ → List SpendingRecord → Bool
  evicts cutoff [] = false
  evicts cutoff (first ∷ _) = is_before cutoff first

  unfoldable pub prune_old : Tracker → ℕ → Tracker
  prune_old t now =
      let cutoff = now - t.window_ms in
      record t {
        records = shift_expired cutoff t.records;
        db =
            if evicts cutoff t.records
            then attempt (prune_spending_records t.db cutoff) t.db
            else t.db;
      }

  unfoldable pub persist : Tracker → SpendingRecord → Tracker
  persist t r = record t { db = attempt (save_spending_record t.db r) t.db }

  -- `total()` and the tracker that it leaves.
  unfoldable pub total : Tracker → ℕ → ℤ × Tracker
  total t now = let pruned = prune_old t now in (total_of pruned.records, pruned)

  pub record WindowStatus : Type 0 where
    pub total : ℤ
    pub record_count : ℕ
    pub window_ms : ℕ
    pub oldest_timestamp : Option ℕ

  abbrev oldest : List SpendingRecord → Option ℕ
  oldest [] = none
  oldest (r ∷ _) = some r.timestamp

  pub get_window_status : Tracker → ℕ → WindowStatus × Tracker
  get_window_status t now =
      let pruned = prune_old t now in
      (
        record {
          total = total_of pruned.records;
          record_count = length pruned.records;
          window_ms = pruned.window_ms;
          oldest_timestamp = oldest pruned.records;
        },
        pruned,
      )

  pub clear : Tracker → Tracker
  clear t = record t { records = []; db = attempt (clear_spending_records t.db) t.db }

  abbrev pub pushed : Tracker → SpendingRecord → Tracker
  pushed t r = record t { records = t.records ++ r ∷ [] }

  -- The end of `record`: the check of the limit, after the amount is on the books.
  abbrev check_limit : Option ℤ → ℤ → Result SpendingError (Unit {0})
  check_limit none sum = ok tt
  check_limit (some limit) sum = if ltb_ℤ limit sum then err (cumulative_limit sum limit) else ok tt

  module _ (parse_float : String → Option ℤ) (agent_spending_limit : String) where
    -- `record` for a parsed amount: `now` is its own reading of the clock, `later` that of `total()`.
    unfoldable pub record_amount : Tracker → ℕ → ℕ → ℤ → Result SpendingError (Unit {0}) × Tracker
    unfolding persist
    record_amount t now later amount =
        let r : SpendingRecord = record { amount = amount; timestamp = now } in
        let (sum, t') = total (persist (pushed (prune_old t now) r) r) later in
        (check_limit (parse_float agent_spending_limit) sum, t')

    unfoldable pub record_payment :
        Tracker → ℕ → ℕ → String → Result SpendingError (Unit {0}) × Tracker
    record_payment t now later amount_str = elim (parse_float amount_str) [
      | none ↦ (ok tt, t)
      | some amount ↦ record_amount t now later amount
    ]
