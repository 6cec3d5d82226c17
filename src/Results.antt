-- ===== src/Results.antt =====
-- The table of results of backend/persistence.ts. SQLite is a parameter: a database, the rows in the order
-- of their ids, and the two statements; the laws state what the SQL texts document. What is thrown is
-- an `E`. The data of a result are values that JSON can write.
pub mod Log
use synapse_stellar.Prelude.{
  ℕ, zero, suc, ◌+◌, ◌-◌, ◌≡◌, Bool, true, false, Option, none, some, List, [], ◌∷◌, ◌++◌, map,
  take, drop, String, ◌==◌, nat_eq, if◌then◌else◌,
}
use mathlib.Core.List.{reverse}
use synapse_stellar.Prelude.Results.{Result, ok, err}

pub record ResultRow : Type 0 where
  pub timestamp : String
  pub task_type : String
  pub success : ℕ
  pub result_data : Option String
  pub error : Option String
  pub correlation_id : Option String

pub record ResultTable (E : Type 0) : Type 1 where
  pub Db : Type 0
  pub rows : Db → List ResultRow
  pub insert : Db → ResultRow → Result E Db
  pub select : Db → ℕ → ℕ → Result E (List ResultRow)
  pub rows-insert : (d d' : Db) (r : ResultRow) → insert d r ≡ ok d' → rows d' ≡ rows d ++ r ∷ []
  -- `ORDER BY id DESC LIMIT ? OFFSET ?`
  pub select-rows :
      (d : Db) (limit offset : ℕ) (rs : List ResultRow)
      → select d limit offset ≡ ok rs
      → rs ≡ take limit (drop offset (reverse (rows d)))

module _ (E Data : Type 0) (stringify : Data → String) (parse : String → Result E Data) where
  -- `AgentResult & { timestamp }`, with the fields that no column holds.
  pub record PersistedResult : Type 0 where
    pub timestamp : String
    pub task_type : String
    pub success : Bool
    pub result_data : Option Data
    pub error : Option String
    pub correlation_id : Option String
    pub error_type : Option String
    pub duration_ms : Option ℕ
    pub sequence_index : Option ℕ

  abbrev text_of : Option Data → Option String
  text_of none = none
  text_of (some v) = some (stringify v)

  unfoldable pub encode : PersistedResult → ResultRow
  encode r = record {
    timestamp = r.timestamp;
    task_type = r.task_type;
    success = if r.success then 1 else 0;
    result_data = text_of r.result_data;
    error = r.error;
    correlation_id = r.correlation_id;
  }

  abbrev data_of : Option String → Result E (Option Data)
  data_of none = ok none
  data_of (some text) = elim (parse text) [ ok v ↦ ok (some v) | err e ↦ err e ]

  abbrev with_data : ResultRow → Result E (Option Data) → Result E PersistedResult
  with_data r (err e) = err e
  with_data r (ok contents) = ok (record {
    timestamp = r.timestamp;
    task_type = r.task_type;
    success = r.success == 1;
    result_data = contents;
    error = r.error;
    correlation_id = r.correlation_id;
    error_type = none;
    duration_ms = none;
    sequence_index = none;
  })

  pub decode : ResultRow → Result E PersistedResult
  decode r = with_data r (data_of r.result_data)

  abbrev prepended :
      Result E PersistedResult → Result E (List PersistedResult) → Result E (List PersistedResult)
  prepended (err e) rest = err e
  prepended (ok r) (err e) = err e
  prepended (ok r) (ok rest) = ok (r ∷ rest)

  -- `rows.map` with `JSON.parse`, which may throw.
  pub decode_all : List ResultRow → Result E (List PersistedResult)
  unfolding decode
  decode_all [] = ok []
  decode_all (r ∷ rs) = let rest = decode_all rs in prepended (decode r) rest

  module _ (table : ResultTable E) where
    unfoldable pub save_result : PersistedResult → table.Db → Result E (table.Db)
    unfolding encode
    save_result r d = table.insert d (encode r)

    pub get_results : table.Db → ℕ → ℕ → Result E (List PersistedResult)
    unfolding decode_all
    get_results d limit offset = elim (table.select d limit offset) [
      | err e ↦ err e
      | ok rows ↦ decode_all rows
    ]
