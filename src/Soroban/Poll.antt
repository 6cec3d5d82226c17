-- ===== src/Soroban/Poll.antt =====
-- `pollForConfirmation` of backend/tools/SorobanInvokeTool.ts.
use synapse_stellar.Prelude.{
  ℕ, zero, suc, ◌<◌, ◌≡◌, refl, ap, ◌∙◌, ◌↔◌, ◌⊎◌, inl, inr, String, arith,
}
use synapse_stellar.Prelude.Results.{Result, ok, err}
use synapse_stellar.Soroban.{
  Status, success, failed, not_found, InvokeError, polled, poll_for_confirmation,
}

module _ (Net E : Type 0) (sleep : Net → Net)
    (get_transaction : String → Net → Result E Status × Net) where
  -- The network after so many polls, and the answer of the next one.
  after_polls : ℕ → String → Net → Net
  after_polls zero hash net = net
  after_polls (suc k) hash net = after_polls k hash (get_transaction hash (sleep net)).1

  pub answer : ℕ → String → Net → Result E Status
  unfolding after_polls
  answer k hash net = (get_transaction hash (sleep (after_polls k hash net))).0

  abbrev pub ConfirmedAt : ℕ → String → Net → ℕ → Type 0
  ConfirmedAt attempts hash net k =
      (k < attempts)
      × (answer k hash net ≡ ok success)
      × ((i : ℕ) → i < k → answer i hash net ≡ ok not_found)

  abbrev poll : ℕ → String → Net → Result (InvokeError E) String × Net
  poll = poll_for_confirmation Net E sleep get_transaction

  module _ (next : Net → Result (InvokeError E) String × Net) (hash : String) where
    abbrev outcome : Result E Status × Net → Result (InvokeError E) String × Net
    outcome = polled Net E sleep get_transaction next hash

    polled_success : (out : Result E Status × Net) → out.0 ≡ ok success → (outcome out).0 ≡ ok hash
    unfolding polled
    polled_success (err e, net) h = cc
    polled_success (ok success, net) h = refl
    polled_success (ok failed, net) h = cc
    polled_success (ok not_found, net) h = cc

    polled_not_found :
        (out : Result E Status × Net) → out.0 ≡ ok not_found → outcome out ≡ next out.1
    unfolding polled
    polled_not_found (err e, net) h = cc
    polled_not_found (ok success, net) h = cc
    polled_not_found (ok failed, net) h = cc
    polled_not_found (ok not_found, net) h = refl

    polled_ok :
        (out : Result E Status × Net) (h : String)
        → (outcome out).0 ≡ ok h
        → ((out.0 ≡ ok success) × (h ≡ hash)) ⊎ ((out.0 ≡ ok not_found) × ((next out.1).0 ≡ ok h))
    unfolding polled
    polled_ok (err e, net) h p = cc
    polled_ok (ok success, net) h p = inl (refl, cc)
    polled_ok (ok failed, net) h p = cc
    polled_ok (ok not_found, net) h p = inr (refl, p)

  earlier :
      (hash : String) (net : Net) (k : ℕ)
      → answer 0 hash net ≡ ok not_found
      → ((i : ℕ) → i < k → answer i hash (get_transaction hash (sleep net)).1 ≡ ok not_found)
      → (i : ℕ) → i < suc k
      → answer i hash net ≡ ok not_found
  unfolding answer
  earlier hash net k first rest zero h = first
  earlier hash net k first rest (suc i) h = rest i (omega arith)

  confirmed_at :
      (attempts : ℕ) (hash h : String) (net : Net)
      → (poll attempts hash net).0 ≡ ok h
      → (h ≡ hash) × (k : ℕ) × ConfirmedAt attempts hash net k
  unfolding poll_for_confirmation answer
  confirmed_at zero hash h net e = cc
  confirmed_at (suc left) hash h net e =
      let out = get_transaction hash (sleep net) in
      elim (polled_ok (λ net'. poll left hash net') hash out h e) [
        | inl (found, same) ↦ (same, 0, (omega arith, found, λ i lt. absurd (omega arith)))
        | inr (first, rest) ↦
            let (same, k, (in_time, found, before)) = confirmed_at left hash h out.1 rest in
            (same, suc k, (omega arith, found, earlier hash net k first before))
      ]

  is_confirmed :
      (attempts : ℕ) (hash : String) (net : Net) (k : ℕ)
      → ConfirmedAt attempts hash net k
      → (poll attempts hash net).0 ≡ ok hash
  unfolding poll_for_confirmation answer
  is_confirmed zero hash net k (h, s, before) = absurd (omega arith)
  is_confirmed (suc left) hash net zero (h, s, before) =
      polled_success (λ net'. poll left hash net') hash (get_transaction hash (sleep net)) s
  is_confirmed (suc left) hash net (suc k) (h, s, before) =
      let out = get_transaction hash (sleep net) in
      let rest =
        is_confirmed left hash out.1 k (omega arith, s, λ i lt. before (suc i) (omega arith)) in
      ap (λ r. r.0)
        (polled_not_found (λ net'. poll left hash net') hash out (before 0 (omega arith)))
      ∙ rest

  -- The polling confirms a transaction exactly when one of its polls reports success and every poll
  -- before that one reports that the transaction is not found.
  pub poll_for_confirmation_iff :
      (attempts : ℕ) (hash : String) (net : Net)
      → ((poll_for_confirmation Net E sleep get_transaction attempts hash net).0 ≡ ok hash)
        ↔ ((k : ℕ) × ConfirmedAt attempts hash net k)
  poll_for_confirmation_iff attempts hash net = (
    λ e. let (_, k, c) = confirmed_at attempts hash hash net e in (k, c),
    λ (k, c). is_confirmed attempts hash net k c,
  )
