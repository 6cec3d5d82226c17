-- ===== src/Listener/Tests.antt =====
-- Runs of `listen` of backend/tools/ContractEventListener.ts.
use synapse_stellar.Prelude.{
  ℕ, zero, suc, ◌≡◌, refl, inl, inr, true, false, Option, none, some, List, [], ◌∷◌, String,
  replicate, subst, ap, ◌==◌, string_eq, if◌then◌else◌, Bool-cases, arith,
}
use synapse_stellar.Prelude.Results.{Result, ok, err}
use synapse_stellar.Listener.{
  ContractEvent, Request, from_cursor, from_ledger, Response, Step, polls, is_match, last_token,
  Listener, listen, step, steps,
}
use synapse_stellar.Listener.Laws.{Lost, steps-Lost}
use synapse_stellar.Listener.Delivery.{Page, Inv, steps-Inv}

abbrev first : ContractEvent
first = record { topic = "mint" ∷ []; paging_token = "a" }

abbrev second : ContractEvent
second = record { topic = "transfer" ∷ []; paging_token = "b" }

abbrev behind : String → List ContractEvent
behind c = if c == "a" then second ∷ [] else []

abbrev ahead : Request → List ContractEvent
ahead (from_ledger n) = first ∷ second ∷ []
ahead (from_cursor c) = behind c

abbrev latest : ℕ → Result String ℕ × ℕ
latest net = (ok 40, net)

-- The first request fails.
abbrev serve : Request → ℕ → Result String Response × ℕ
serve (from_ledger n) zero = (err "down", 1)
serve (from_ledger n) (suc k) = (ok (record { events = first ∷ []; cursor = none }), suc k)
serve (from_cursor c) net = (ok (record { events = behind c; cursor = none }), net)

abbrev on_event : ContractEvent → Option String
on_event event = none

page_at :
    (req : Request) (page r : Response)
    → ◌≡◌ {A = Result String Response} (ok page) (ok r)
    → Page ahead req page.events page.cursor
    → Page ahead req r.events r.cursor
page_at req page r h p =
    let q : page ≡ r = cc in subst (λ (r : Response). Page ahead req r.events r.cursor) q p

page_behind : (c : String) → Page ahead (from_cursor c) (behind c) none
unfolding last_token
page_behind c = elim (Bool-cases (c == "a")) [
  | inl a ↦ rw a ("b", refl, refl, ap (λ found. if found then second ∷ [] else []) a)
  | inr other ↦ rw other (λ c h. cc)
]

pages :
    (req : Request) (net : ℕ) (r : Response)
    → (serve req net).0 ≡ ok r
    → Page ahead req r.events r.cursor
unfolding last_token
pages (from_ledger n) zero r h = cc
pages (from_ledger n) (suc k) r h =
    page_at (from_ledger n) (record { events = first ∷ []; cursor = none }) r h
      ("a", refl, refl, refl)
pages (from_cursor c) net r h =
    page_at (from_cursor c) (record { events = behind c; cursor = none }) r h (page_behind c)

abbrev S : Type 0
S = Listener ℕ String latest serve on_event ("transfer" ∷ []) 5 1000

abbrev start : S
start = record (listen ℕ String latest serve on_event ("transfer" ∷ []) 5 1000) {
  start_ledger = some (ok 40);
}

abbrev four : List Step
four = polls false ∷ polls false ∷ polls false ∷ polls true ∷ []

delivers_once :
    (steps ℕ String latest serve on_event ("transfer" ∷ []) 5 1000 (start, 0) four).0.delivered
    ≡ second ∷ []
unfolding steps is_match step
delivers_once = refl

steps-Inv_example :
    Inv ℕ String latest serve on_event
      ("transfer" ∷ [])
      5
      1000
      ahead
      pages
      (λ event. refl)
      40
      (steps ℕ String latest serve on_event ("transfer" ∷ []) 5 1000 (start, 0) four).0
steps-Inv_example =
    steps-Inv ℕ String latest serve on_event ("transfer" ∷ []) 5 1000 ahead pages (λ event. refl) 40
      four start 0 (refl, refl)

-- The ledger is there from the second request on.
abbrev late : ℕ → Result String ℕ × ℕ
late zero = (err "down", 1)
late (suc k) = (ok 40, suc k)

steps-Lost_example : Lost ℕ String late serve on_event ("transfer" ∷ []) 3 1000 "down" 1 (
    steps ℕ String late serve on_event
      ("transfer" ∷ [])
      3
      1000
      (listen ℕ String late serve on_event ("transfer" ∷ []) 3 1000, 0)
      (replicate 3 (polls false)))
steps-Lost_example =
    steps-Lost ℕ String late serve on_event ("transfer" ∷ []) 3 1000 "down" 0 refl (omega arith)
