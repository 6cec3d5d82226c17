-- ===== src/Payment/Batch/Laws.antt =====
-- The preflight of backend/tools/BatchPaymentTool.ts, and what a batch that is submitted has passed.
use synapse_stellar.Prelude.{
  ℕ, suc, ◌-◌, ◌≡◌, refl, inl, inr, Bool, true, false, Option, some, List, [], ◌∷◌, ◌++◌,
  append-nil, append_assoc, ap, ◌∙◌, String, length, string_eq, nat_eq, if◌then◌else◌, Bool-cases,
}
use synapse_stellar.Prelude.Int.{ℤ, pos, ◌≤ℤ◌, ◌<ℤ◌}
use synapse_stellar.Prelude.Results.{Result, ok, err}
use synapse_stellar.Payment.{PaymentInput}
use synapse_stellar.Payment.Batch.{
  Preflight, BatchError, lacks_issuer, preflight_from, preflight, is_batch, batch_loaded, checked,
  execute_batch,
}

-- The positions, counted from `i`, of the payments that lack an issuer.
pub unusable : ℕ → List PaymentInput → List ℕ
unusable i [] = []
unusable i (p ∷ rest) =
    let more = unusable (suc i) rest in if lacks_issuer p then i ∷ more else more

-- What the caller is told: with `fail_fast`, the first problem and how many payments stand behind it;
-- without, every problem.
abbrev pub report : Bool → ℕ → List ℕ → Result Preflight (Unit {0})
report fail_fast total [] = ok tt
report true total (i ∷ more) = err (record { problems = i ∷ []; skipped = total - i - 1 })
report false total (i ∷ more) = err (record { problems = i ∷ more; skipped = 0 })

preflight_fast :
    (total : ℕ) (ps : List PaymentInput) (i : ℕ)
    → preflight_from true total ps i [] ≡ report true total (unusable i ps)
unfolding preflight_from unusable
preflight_fast total [] i = refl
preflight_fast total (p ∷ rest) i = elim (Bool-cases (lacks_issuer p)) [
  | inl lacks ↦ rw lacks refl
  | inr fine ↦ rw fine (preflight_fast total rest (suc i))
]

preflight_all :
    (total : ℕ) (ps : List PaymentInput) (i : ℕ) (found : List ℕ)
    → preflight_from false total ps i found ≡ report false total (found ++ unusable i ps)
unfolding preflight_from unusable
preflight_all total [] i [] = refl
preflight_all total [] i (k ∷ found) = rw (append-nil found) refl
preflight_all total (p ∷ rest) i found = elim (Bool-cases (lacks_issuer p)) [
  | inl lacks ↦ rw lacks (
      preflight_all total rest (suc i) (found ++ i ∷ [])
      ∙ ap (report false total) (append_assoc found (i ∷ []) (unusable (suc i) rest)))
  | inr fine ↦ rw fine (preflight_all total rest (suc i) found)
]

-- The preflight reports the payments that lack an issuer, and them only: without `fail_fast` all of
-- them in order, with nothing skipped; with it the first and the number of the payments behind it.
pub preflight-report :
    (fail_fast : Bool) (ps : List PaymentInput)
    → preflight fail_fast ps ≡ report fail_fast (length ps) (unusable 0 ps)
preflight-report true ps = preflight_fast (length ps) ps 0
preflight-report false ps = preflight_all (length ps) ps 0 []

-- A payment whose amount is positive and at most the sum.
abbrev pub PartOf : (String → Option ℤ) → ℤ → PaymentInput → Type 0
PartOf parse_float sum p = (n : ℤ) × (parse_float p.amount ≡ some n) × (pos 0 <ℤ n) × (n ≤ℤ sum)

module _ (parse_float : String → Option ℤ) (is_valid_public_key : String → Bool)
    (agent_spending_limit : String) (Account Tx Submitted Net E : Type 0)
    (load_account : Net → Result E Account × Net) (build : Account → List PaymentInput → Tx)
    (submit_transaction : Tx → Net → Result E Submitted × Net) where
  abbrev BatchRan : Type 0
  BatchRan = Result (BatchError E) Submitted × Net

  abbrev loaded_run : List PaymentInput → Result E Account × Net → BatchRan
  loaded_run =
      batch_loaded parse_float is_valid_public_key agent_spending_limit Account Tx Submitted Net E
        load_account build submit_transaction

  abbrev checked_run : List PaymentInput → Result Preflight (Unit {0}) → Net → BatchRan
  checked_run =
      checked parse_float is_valid_public_key agent_spending_limit Account Tx Submitted Net E
        load_account build submit_transaction

  abbrev run : List PaymentInput → Bool → Net → BatchRan
  run =
      execute_batch parse_float is_valid_public_key agent_spending_limit Account Tx Submitted Net E
        load_account build submit_transaction

  abbrev batch : List PaymentInput → Bool
  batch =
      is_batch parse_float is_valid_public_key agent_spending_limit Account Tx Submitted Net E
        load_account build submit_transaction

  -- The one transaction of all the payments is accepted.
  abbrev pub Applied : List PaymentInput → Submitted → Result E Account × Net → Type 0
  Applied ps r out =
      (source : Account) × (out.0 ≡ ok source)
      × ((submit_transaction (build source ps) out.1).0 ≡ ok r)
