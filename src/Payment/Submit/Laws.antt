-- ===== src/Payment/Submit/Laws.antt =====
-- When the shared end of the payment tools succeeds.
use synapse_stellar.Prelude.{◌≡◌, refl, ◌↔◌, ◌⊎◌, inl, inr, Bool, true, false, Bool-cases}
use synapse_stellar.Prelude.Results.{Result, ok, err}
use synapse_stellar.Payment.Submit.{
  submitted, submit_built, retried, first_submitted, first_built, loaded, submit_with_retry,
}

module _ (Account Tx Submitted Net E F : Type 0) (thrown : E → F)
    (load_account : Bool → Net → Result E Account × Net) (build_tx : Account → Result F Tx)
    (submit_transaction : Tx → Net → Result E Submitted × Net) (is_bad_seq : E → Bool) where
  abbrev Ran : Type 0
  Ran = Result F Submitted × Net

  abbrev submitted_run : Result E Submitted × Net → Ran
  submitted_run =
      submitted Account Tx Submitted Net E F thrown load_account build_tx submit_transaction
        is_bad_seq

  abbrev submit_built_run : Result F Tx → Net → Ran
  submit_built_run =
      submit_built Account Tx Submitted Net E F thrown load_account build_tx submit_transaction
        is_bad_seq

  abbrev retried_run : Result E Account × Net → Ran
  retried_run =
      retried Account Tx Submitted Net E F thrown load_account build_tx submit_transaction
        is_bad_seq

  abbrev first_submitted_run : Result E Submitted × Net → Ran
  first_submitted_run =
      first_submitted Account Tx Submitted Net E F thrown load_account build_tx submit_transaction
        is_bad_seq

  abbrev first_built_run : Result F Tx → Net → Ran
  first_built_run =
      first_built Account Tx Submitted Net E F thrown load_account build_tx submit_transaction
        is_bad_seq

  abbrev loaded_run : Result E Account × Net → Ran
  loaded_run =
      loaded Account Tx Submitted Net E F thrown load_account build_tx submit_transaction is_bad_seq

  -- The account is loaded, and the transaction built on it is accepted.
  abbrev pub AcceptedOn : Submitted → Result E Account × Net → Type 0
  AcceptedOn r out =
      (source : Account) × (tx : Tx) × (out.0 ≡ ok source)
      × (build_tx source ≡ ok tx)
      × ((submit_transaction tx out.1).0 ≡ ok r)

  -- The first submission is refused for its sequence number, and one on a reloaded account is accepted.
  abbrev pub AcceptedThen : Submitted → Result E Submitted × Net → Type 0
  AcceptedThen r out =
      (e : E) × (out.0 ≡ err e) × (is_bad_seq e ≡ true) × AcceptedOn r (load_account true out.1)

  abbrev pub Accepted : Submitted → Result E Account × Net → Type 0
  Accepted r out =
      (source : Account) × (tx : Tx) × (out.0 ≡ ok source)
      × (build_tx source ≡ ok tx)
      × (((submit_transaction tx out.1).0 ≡ ok r) ⊎ AcceptedThen r (submit_transaction tx out.1))

  submitted_iff :
      (out : Result E Submitted × Net) (r : Submitted)
      → ((submitted_run out).0 ≡ ok r) ↔ (out.0 ≡ ok r)
  unfolding submitted
  submitted_iff (ok s, net) r = (λ h. cc, λ h. cc)
  submitted_iff (err e, net) r = (λ h. cc, λ h. cc)

  submit_built_iff :
      (b : Result (F) Tx) (net : Net) (r : Submitted)
      → ((submit_built_run b net).0 ≡ ok r)
        ↔ ((tx : Tx) × (b ≡ ok tx) × ((submit_transaction tx net).0 ≡ ok r))
  unfolding submit_built
  submit_built_iff (err e) net r = (λ h. cc, λ (tx, b, h). cc)
  submit_built_iff (ok tx) net r = (
    λ h. (tx, refl, (submitted_iff (submit_transaction tx net) r).0 h),
    λ (tx', same, h). (submitted_iff (submit_transaction tx net) r).1 cc,
  )

  retried_iff :
      (out : Result E Account × Net) (r : Submitted)
      → ((retried_run out).0 ≡ ok r) ↔ AcceptedOn r out
  unfolding retried
  retried_iff (err e, net) r = (λ h. cc, λ (source, tx, bad, b, h). cc)
  retried_iff (ok source, net) r = (
    λ h.
        let (tx, b, s) = (submit_built_iff (build_tx source) net r).0 h in (source, tx, refl, b, s),
    λ (source', tx, same, b, s).
        (submit_built_iff (build_tx source) net r).1 (tx, again source source' tx same b, s),
  )
    where
      again :
          (source source' : Account) (tx : Tx)
          → ◌≡◌ {A = Result E Account} (ok source) (ok source')
          → build_tx source' ≡ ok tx
          → build_tx source ≡ ok tx
      again source source' tx same b = let q : source ≡ source' = cc in rw q b

  first_submitted_iff :
      (out : Result E Submitted × Net) (r : Submitted)
      → ((first_submitted_run out).0 ≡ ok r) ↔ ((out.0 ≡ ok r) ⊎ AcceptedThen r out)
  unfolding first_submitted
  first_submitted_iff (ok s, net) r =
      (λ h. inl cc, λ h. elim h [ inl same ↦ cc | inr (e, bad, q, rest) ↦ cc ])
  first_submitted_iff (err e, net) r =
      let (there, back) = retried_iff (load_account true net) r in
      elim (Bool-cases (is_bad_seq e)) [
        | inl bad ↦ rw bad (
          λ h. inr (e, refl, bad, there h),
          λ h. elim h [ inl wrong ↦ cc | inr (e', same, bad', rest) ↦ back rest ],
        )
        | inr other ↦
            rw other (λ h. cc, λ h. elim h [ inl wrong ↦ cc | inr (e', same, bad', rest) ↦ cc ])
      ]

  first_built_iff :
      (b : Result (F) Tx) (net : Net) (r : Submitted)
      → ((first_built_run b net).0 ≡ ok r) ↔ (
          (tx : Tx) × (b ≡ ok tx)
          × (((submit_transaction tx net).0 ≡ ok r) ⊎ AcceptedThen r (submit_transaction tx net)))
  unfolding first_built
  first_built_iff (err e) net r = (λ h. cc, λ (tx, b, h). cc)
  first_built_iff (ok tx) net r = (
    λ h. (tx, refl, (first_submitted_iff (submit_transaction tx net) r).0 h),
    λ (tx', same, h). (first_submitted_iff (submit_transaction tx net) r).1 (again tx' same h),
  )
    where
      again :
          (tx' : Tx)
          → ◌≡◌ {A = Result (F) Tx} (ok tx) (ok tx')
          → ((submit_transaction tx' net).0 ≡ ok r) ⊎ AcceptedThen r (submit_transaction tx' net)
          → ((submit_transaction tx net).0 ≡ ok r) ⊎ AcceptedThen r (submit_transaction tx net)
      again tx' same h = let q : tx ≡ tx' = cc in rw q h

  loaded_iff :
      (out : Result E Account × Net) (r : Submitted) → ((loaded_run out).0 ≡ ok r) ↔ Accepted r out
  unfolding loaded
  loaded_iff (err e, net) r = (λ h. cc, λ (source, tx, bad, b, h). cc)
  loaded_iff (ok source, net) r = (
    λ h. let (tx, b, s) = (first_built_iff (build_tx source) net r).0 h in (source, tx, refl, b, s),
    λ (source', tx, same, b, s).
        (first_built_iff (build_tx source) net r).1 (tx, again source' tx same b, s),
  )
    where
      again :
          (source' : Account) (tx : Tx)
          → ◌≡◌ {A = Result E Account} (ok source) (ok source')
          → build_tx source' ≡ ok tx
          → build_tx source ≡ ok tx
      again source' tx same b = let q : source ≡ source' = cc in rw q b

  pub submit_with_retry_iff :
      (net : Net) (r : Submitted)
      → ((submit_with_retry Account Tx Submitted Net E F thrown load_account build_tx
            submit_transaction is_bad_seq net).0
          ≡ ok r)
        ↔ Accepted r (load_account false net)
  unfolding submit_with_retry
  submit_with_retry_iff net r = loaded_iff (load_account false net) r
