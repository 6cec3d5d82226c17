-- ===== src/Persistence.antt =====
-- backend/persistence.ts: the table of spending records. SQLite itself is a parameter: a database,
-- the rows that it holds in the order of their ids, and the four statements of the module. `none` is
-- a throw. The laws state what the SQL text of each statement documents.
use synapse_stellar.Prelude.{ℕ, ◌≤◌, ◌≡◌, Bool, Option, some, List, [], ◌∷◌, ◌++◌, filter, ltb, leb}
use synapse_stellar.Prelude.Int.{ℤ}
use mathlib.Core.List.{Perm}

-- A row: `SpendingRecord` and the entries of `SpendingTracker.records`.
pub record SpendingRecord : Type 0 where
  pub amount : ℤ
  pub timestamp : ℕ

-- `timestamp < ?` and `timestamp >= ?`.
abbrev pub is_before : ℕ → SpendingRecord → Bool
is_before cutoff r = ltb r.timestamp cutoff

abbrev pub is_since : ℕ → SpendingRecord → Bool
is_since cutoff r = leb cutoff r.timestamp

-- The timestamps rise along the list, from `lo` on.
abbrev pub IsSorted : ℕ → List SpendingRecord → Type 0
IsSorted lo [] = Unit {0}
IsSorted lo (r ∷ rs) = (lo ≤ r.timestamp) × IsSorted r.timestamp rs

pub record SpendingTable : Type 1 where
  pub Db : Type 0
  pub rows : Db → List SpendingRecord
  pub save_spending_record : Db → SpendingRecord → Option Db
  pub load_spending_records : Db → ℕ → Option (List SpendingRecord)
  pub prune_spending_records : Db → ℕ → Option Db
  pub clear_spending_records : Db → Option Db
  pub rows-save :
      (d d' : Db) (r : SpendingRecord)
      → save_spending_record d r ≡ some d'
      → rows d' ≡ rows d ++ r ∷ []
  pub load-perm :
      (d : Db) (cutoff : ℕ) (rs : List SpendingRecord)
      → load_spending_records d cutoff ≡ some rs
      → Perm rs (filter (is_since cutoff) (rows d))
  pub load-IsSorted :
      (d : Db) (cutoff : ℕ) (rs : List SpendingRecord)
      → load_spending_records d cutoff ≡ some rs
      → IsSorted 0 rs
  pub rows-prune :
      (d d' : Db) (cutoff : ℕ)
      → prune_spending_records d cutoff ≡ some d'
      → rows d' ≡ filter (is_since cutoff) (rows d)
  pub rows-clear : (d d' : Db) → clear_spending_records d ≡ some d' → rows d' ≡ []
