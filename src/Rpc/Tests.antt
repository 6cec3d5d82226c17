-- ===== src/Rpc/Tests.antt =====
-- Runs of backend/rpc_client.ts: an account is a number, and a text is a key.
use synapse_stellar.Prelude.{
  ℕ, ◌<◌, ◌≡◌, refl, ◌↔◌, inl, inr, arith, Bool, true, false, none, some, List, [], ◌∷◌, String,
}
use synapse_stellar.Prelude.Results.{Result, ok}
use synapse_stellar.Errors.{StructuredError}
use synapse_stellar.Rpc.{AuthEntry, address, source_account, SimulationResult, begin_load}
use synapse_stellar.Rpc.Cache.{Event, begins, answers, submits, after, Current, begin_load_iff}

-- A submission ends while two loads are pending, which are answered at 110 and at 120.
abbrev events : List (Event ℕ String String 50)
events =
    begins "GA" false 150
    ∷ answers "GA" 120 (ok 8)
    ∷ answers "GA" 110 (ok 7)
    ∷ submits (ok "tx")
    ∷ begins "GA" false 101
    ∷ begins "GA" true 100
    ∷ []

served : (begin_load ℕ String String 50 "GA" false 165 (after ℕ String String 50 events)).0 ≡ some 8
served =
    (begin_load_iff ℕ String String 50 events "GA" false 165 8).1
      (refl, omega arith, 170, omega arith, (inr (refl, omega arith), inl (refl, refl, refl)))

begin_load_iff_example :
    ((begin_load ℕ String String 50 "GA" false 165 (after ℕ String String 50 events)).0 ≡ some 8)
    ↔ ((◌≡◌ {A = Bool} false false)
        × (0 < 50)
        × (t : ℕ) × (165 < t)
        × Current ℕ String String 50 "GA" 8 t events)
begin_load_iff_example = begin_load_iff ℕ String String 50 events "GA" false 165 8

abbrev entries : List (List (AuthEntry String))
entries = (source_account ∷ address none (some "GA") ∷ []) ∷ []

abbrev built : SimulationResult String String
built = record { assembled = "tx"; events = [] }

abbrev simulate :
    String → ℕ → Result StructuredError (Result String (SimulationResult String String)) × ℕ
simulate tx n = (ok (ok built), n)
