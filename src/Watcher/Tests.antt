-- ===== src/Watcher/Tests.antt =====
-- Runs of backend/tools/ContractStorageWatcherTool.ts. A key is its text.
use synapse_stellar.Prelude.{
  ℕ, zero, suc, ◌≡◌, refl, true, false, none, some, List, [], ◌∷◌, String,
}
use synapse_stellar.Prelude.Maps
use synapse_stellar.Prelude.Maps.{Map, get-empty}
use synapse_stellar.Prelude.Results.{Result, ok, err}
use synapse_stellar.Watcher.{
  LedgerEntry, Response, Step, polls, Watcher, new_watcher, answered, steps,
}
use synapse_stellar.Watcher.Replay.{Grows, steps-Grows}
use synapse_stellar.Watcher.Current.{reported, answered_lem}

abbrev entry : String → String → LedgerEntry String
entry k v = record { key = k; key_xdr = k; val_xdr = v }

abbrev reply : List (LedgerEntry String) → Response String
reply entries = record { entries = entries; latest_ledger = some 7 }

-- The key "a" changes, then the server fails, then "b" is gone.
abbrev serve : ℕ → Result String (Response String) × ℕ
serve zero = (ok (reply (entry "a" "2" ∷ entry "b" "1" ∷ [])), 1)
serve (suc zero) = (err "down", 2)
serve (suc (suc n)) = (ok (reply (entry "a" "2" ∷ [])), n)

abbrev W : Type 0
W = Watcher ℕ String String (λ k. k) serve (some 3) 5000

abbrev keys : List (String × String)
keys = ("a", "a") ∷ ("b", "b") ∷ []

abbrev watching : W
watching =
    new_watcher ℕ String String (λ k. k) serve (some 3) 5000 keys
      (some (("a", "1") ∷ ("b", "1") ∷ []))

abbrev three : List Step
three = polls false ∷ polls false ∷ polls false ∷ []

abbrev run : W × ℕ → List Step → W × ℕ
run = steps ℕ String String (λ k. k) serve (some 3) 5000

known : watching.is_initialized ≡ true
unfolding new_watcher
known = refl

steps-Grows_example :
    Grows ℕ String String (λ k. k) serve (some 3) 5000 watching (run (watching, 0) three).0
steps-Grows_example =
    steps-Grows ℕ String String (λ k. k) serve (some 3) 5000 three watching 0 known

abbrev blank : W
blank = new_watcher ℕ String String (λ k. k) serve (some 3) 5000 keys none

blank_knows : (k : String) → blank.is_initialized ≡ false → Maps.get blank.state_cache k ≡ none
unfolding new_watcher
blank_knows k h = get-empty k

answered_lem_example :
    Maps.get
      (answered ℕ String String
        (λ k. k)
        serve
        (some 3)
        5000
        blank
        (reply (entry "a" "1" ∷ entry "a" "2" ∷ []))).state_cache
      "a"
    ≡ reported String (entry "a" "1" ∷ entry "a" "2" ∷ []) "a" none
answered_lem_example =
    answered_lem ℕ String String (λ k. k) serve (some 3) 5000 blank
      (reply (entry "a" "1" ∷ entry "a" "2" ∷ [])) "a" (blank_knows "a")

last_wins : reported String (entry "a" "1" ∷ entry "a" "2" ∷ []) "a" none ≡ some "2"
unfolding reported
last_wins = refl
