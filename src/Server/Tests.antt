-- ===== src/Server/Tests.antt =====
-- A table of results kept in memory, and what backend/server.ts tells of it.
use synapse_stellar.Prelude.{
  ◌≡◌, refl, true, false, none, some, List, [], ◌∷◌, ◌++◌, map, take, drop, String,
}
use mathlib.Core.List.{reverse}
use synapse_stellar.Prelude.Results.{Result, ok}
use synapse_stellar.Spending.{Tracker, new_tracker}
use synapse_stellar.Spending.Tests.{in_memory}
use synapse_stellar.Errors.{ErrorClass, Thrown}
use synapse_stellar.Results.{
  ResultRow, ResultTable, PersistedResult, encode, save_result, get_results,
}
use synapse_stellar.Results.Log.{stored, save_all, get_results-save_all}
use synapse_stellar.Server.{handle, results}
use synapse_stellar.Server.Status.{status-save_all}

ok_injective : {E A : Type 0} {x y : A} (r : Result E A) → ok x ≡ r → r ≡ ok y → y ≡ x
ok_injective r g h = cc

abbrev listed : ResultTable Thrown
listed = record {
  Db = List ResultRow;
  rows = λ d. d;
  insert = λ d r. ok (d ++ r ∷ []);
  select = λ d limit offset. ok (take limit (drop offset (reverse d)));
  rows-insert = λ d d' r h. ok_injective (ok d') h refl;
  select-rows = λ d limit offset rs h. ok_injective (ok rs) h refl;
}

abbrev stringify : String → String
stringify s = s

abbrev parse : String → Result Thrown String
parse s = ok s

abbrev Saved : Type 0
Saved = PersistedResult Thrown String stringify parse

abbrev paid : Saved
paid = record {
  timestamp = "t0";
  task_type = "stellar_payment";
  success = true;
  result_data = some "{}";
  error = none;
  correlation_id = none;
  error_type = none;
  duration_ms = some 12;
  sequence_index = none;
}

abbrev failed : Saved
failed = record {
  timestamp = "t1";
  task_type = "swap";
  success = false;
  result_data = none;
  error = some "no path";
  correlation_id = some "c";
  error_type = some "Unknown";
  duration_ms = some 3;
  sequence_index = some 1;
}

abbrev db : List ResultRow
db = encode Thrown String stringify parse paid ∷ encode Thrown String stringify parse failed ∷ []

get_results-save_all_example :
    get_results Thrown String stringify parse listed db 1 1
    ≡ ok (
        take 1 (drop 1 (reverse (map (stored Thrown String stringify parse) (paid ∷ failed ∷ [])))))
unfolding save_all save_result encode
get_results-save_all_example =
    get_results-save_all Thrown String stringify parse (λ v. refl) listed (paid ∷ failed ∷ []) [] db
      1 1 (encode Thrown String stringify parse paid ∷ []) refl refl refl

abbrev class_name : ErrorClass → String
class_name c = "StructuredError"

abbrev tracker : Tracker in_memory
tracker = new_tracker in_memory 1000 0 []

status-save_all_example :
    handle String stringify parse listed in_memory class_name
      (some "s3cret")
      "testnet"
      "GA"
      none
      (record { method = "GET"; url = "/status"; authorization = none })
      7
      db
      tracker
    ≡ (
      record {
        status = 200;
        body =
            results
              (take 10 (reverse (map (stored Thrown String stringify parse) (paid ∷ failed ∷ []))));
        retry_after = none;
      },
      tracker,
    )
unfolding save_all save_result encode
status-save_all_example =
    status-save_all String stringify parse listed in_memory class_name (some "s3cret") "testnet"
      "GA" none (λ v. refl) none (paid ∷ failed ∷ []) [] db (reverse db) 7 tracker refl refl refl
