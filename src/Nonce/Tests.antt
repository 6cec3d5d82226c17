-- ===== src/Nonce/Tests.antt =====
-- An instance of the replay theorem for the stores of backend/nonce_store.ts.
use synapse_stellar.Prelude.{ℕ, ◌≡◌, refl, true, arith}
use synapse_stellar.Prelude.Maps.{Map, empty, get-empty}
use synapse_stellar.Nonce.InMemory.{in_memory, has, add}
use synapse_stellar.Nonce.Replay.{Runs, has-add}

-- Used at 1000, asked again at 1400, with a lifetime of 500 ms.
abbrev marked : Map ℕ
marked = add 500 empty 1000 1000 "n"

has-add_example : (has 500 marked 1400 "n").0 ≡ true
has-add_example =
    has-add (in_memory 500) empty marked 1000 1000 1400 "n" (has 500 marked 1400 "n").0
      (rw (get-empty {V = ℕ} "n")) refl Runs.here (omega arith) refl
