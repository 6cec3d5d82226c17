-- ===== src/Payment/MultiSig/Laws.antt =====
-- When backend/tools/MultiSigPaymentTool.ts submits a payment.
use synapse_stellar.Prelude.{
  ℕ, ◌+◌, ◌≤◌, ◌≡◌, refl, ap, ◌∙◌, [], ◌∷◌, ◌↔◌, Bool, true, false, ◌&&◌, not, Option, none, some,
  List, String, length, leb, ◌==◌, string_eq, nat_eq, Bool-cases, arith, inl, inr,
}
use synapse_stellar.Prelude.Int.{ℤ}
use synapse_stellar.Prelude.Results.{Result, ok, err}
use synapse_stellar.Payment.{has_issuer}
use synapse_stellar.Payment.MultiSig.{
  MultiSigInput, settled, is_valid_multi_sig, add_signatures, multi_submitted, multi_signed,
  collected, multi_built, multi_loaded, with_asset, execute_multi_sig, Outcome,
}

too_few : {A : Type 0} (n m : ℕ) → leb n m ≡ false → n ≤ m → A
too_few n m few enough = absurd (ground arith)

module _ (parse_float : String → Option ℤ) (is_valid_public_key : String → Bool)
    (Asset Account Tx Decorated Submitted Net E : Type 0)
    (asset_of : MultiSigInput → Result E Asset) (load_account : Net → Result E Account × Net)
    (build : Account → Asset → MultiSigInput → Result E Tx) (sign : Tx → Tx)
    (from_xdr : String → Result E Decorated) (add : Tx → Decorated → Tx) (to_xdr : Tx → String)
    (submit_transaction : Tx → Net → Result E Submitted × Net) where
  abbrev run :
      MultiSigInput
      → Net
      → Outcome parse_float is_valid_public_key Asset Account Tx Decorated Submitted Net E asset_of
          load_account build sign from_xdr add to_xdr submit_transaction
  run =
      execute_multi_sig parse_float is_valid_public_key Asset Account Tx Decorated Submitted Net E
        asset_of load_account build sign from_xdr add to_xdr submit_transaction

  abbrev all_added : Tx → List String → Result E Tx
  all_added =
      add_signatures parse_float is_valid_public_key Asset Account Tx Decorated Submitted Net E
        asset_of load_account build sign from_xdr add to_xdr submit_transaction

  abbrev Ran : Type 0
  Ran =
      Outcome parse_float is_valid_public_key Asset Account Tx Decorated Submitted Net E asset_of
        load_account build sign from_xdr add to_xdr submit_transaction

  abbrev signed_run : Result E Tx → Net → Ran
  signed_run =
      multi_signed parse_float is_valid_public_key Asset Account Tx Decorated Submitted Net E
        asset_of load_account build sign from_xdr add to_xdr submit_transaction

  abbrev collected_run : MultiSigInput → Option (List String) → Tx → Net → Ran
  collected_run =
      collected parse_float is_valid_public_key Asset Account Tx Decorated Submitted Net E asset_of
        load_account build sign from_xdr add to_xdr submit_transaction

  abbrev built_run : MultiSigInput → Result E Tx → Net → Ran
  built_run =
      multi_built parse_float is_valid_public_key Asset Account Tx Decorated Submitted Net E
        asset_of load_account build sign from_xdr add to_xdr submit_transaction

  abbrev loaded_run : MultiSigInput → Asset → Result E Account × Net → Ran
  loaded_run =
      multi_loaded parse_float is_valid_public_key Asset Account Tx Decorated Submitted Net E
        asset_of load_account build sign from_xdr add to_xdr submit_transaction

  abbrev asset_run : MultiSigInput → Result E Asset → Net → Ran
  asset_run =
      with_asset parse_float is_valid_public_key Asset Account Tx Decorated Submitted Net E asset_of
        load_account build sign from_xdr add to_xdr submit_transaction

  submitted_iff :
      (out : Result E Submitted × Net) (r : Submitted)
      → ((multi_submitted parse_float is_valid_public_key Asset Account Tx Decorated Submitted Net E
            asset_of load_account build sign from_xdr add to_xdr submit_transaction out).0
          ≡ ok (settled r))
        ↔ (out.0 ≡ ok r)
  submitted_iff (ok x, net) r = (λ h. cc, λ h. cc)
  submitted_iff (err e, net) r = (λ h. cc, λ h. cc)

  -- Each text reads as the signature at its place.
  abbrev pub Reads : List String → List Decorated → Type 0
  Reads [] [] = Unit {0}
  Reads (s ∷ texts) (d ∷ ds) = (from_xdr s ≡ ok d) × Reads texts ds
  Reads _ _ = ⊥

  abbrev pub with_all : Tx → List Decorated → Tx
  with_all tx [] = tx
  with_all tx (d ∷ ds) = with_all (add tx d) ds

  added_iff :
      (tx : Tx) (texts : List String) (complete : Tx)
      → (all_added tx texts ≡ ok complete)
        ↔ ((ds : List Decorated) × Reads texts ds × (complete ≡ with_all tx ds))
  unfolding add_signatures
  added_iff tx [] complete = (λ h. ([], tt, cc), back)
    where
      back :
          (ds : List Decorated) × Reads [] ds × (complete ≡ with_all tx ds)
          → ◌≡◌ {A = Result E Tx} (ok tx) (ok complete)
      back ([], _, q) = cc
      back (d ∷ ds, bad, q) = absurd bad
  added_iff tx (s ∷ texts) complete = added_cons (λ t. added_iff t texts complete) (from_xdr s) refl
    where
      no_read :
          {A : Type 0} {e : E} (ds : List Decorated) → from_xdr s ≡ err e → Reads (s ∷ texts) ds → A
      no_read [] q bad = absurd bad
      no_read (d ∷ ds) q (reads, _) = cc

      added_cons :
          ((t : Tx)
            → (all_added t texts ≡ ok complete)
              ↔ ((ds : List Decorated) × Reads texts ds × (complete ≡ with_all t ds)))
          → (out : Result E Decorated) → from_xdr s ≡ out
          → ((elim out [ err e ↦ err e | ok d ↦ all_added (add tx d) texts ]) ≡ ok complete)
            ↔ ((ds : List Decorated) × Reads (s ∷ texts) ds × (complete ≡ with_all tx ds))
      added_cons rest (err e) q = (λ h. cc, λ (ds, reads, _). no_read ds q reads)
      added_cons rest (ok d) q =
          let (there, back) = rest (add tx d) in
          (
            λ h. let (ds, reads, same) = there h in (d ∷ ds, (q, reads), same),
            λ (ds, reads, same). back (read_first ds reads same),
          )
        where
          read_first :
              (ds : List Decorated)
              → Reads (s ∷ texts) ds
              → complete ≡ with_all tx ds
              → (more : List Decorated) × Reads texts more × (complete ≡ with_all (add tx d) more)
          read_first [] bad same = absurd bad
          read_first (x ∷ ds) (reads_x, reads) same =
              let first : x ≡ d = cc in (ds, reads, same ∙ ap (λ y. with_all (add tx y) ds) first)

  -- Enough signatures have come, every one of them reads, and the network accepts the transaction that the
  -- agent has signed and that they all are added to.
  abbrev pub Completes : MultiSigInput → Option (List String) → Tx → Net → Submitted → Type 0
  Completes input given tx net r =
      (sigs : List String) × (ds : List Decorated) × (given ≡ some sigs)
      × (input.min_signatures ≤ length sigs)
      × Reads sigs ds
      × ((submit_transaction (with_all (sign tx) ds) net).0 ≡ ok r)

  signed_iff :
      (out : Result E Tx) (net : Net) (r : Submitted)
      → ((signed_run out net).0 ≡ ok (settled r))
        ↔ ((complete : Tx) × (out ≡ ok complete) × ((submit_transaction complete net).0 ≡ ok r))
  signed_iff (err e) net r = (λ h. cc, λ (c, bad, _). cc)
  signed_iff (ok tx) net r =
      let (there, back) = submitted_iff (submit_transaction tx net) r in
      (λ h. (tx, refl, there h), λ (c, same, h). let same' : c ≡ tx = cc in back (rw (← same') h))

  collected_iff :
      (input : MultiSigInput) (given : Option (List String)) (tx : Tx) (net : Net) (r : Submitted)
      → ((collected_run input given tx net).0 ≡ ok (settled r)) ↔ Completes input given tx net r
  collected_iff input none tx net r = (λ h. cc, λ (sigs, c, bad, _, _, _). cc)
  collected_iff input (some sigs) tx net r =
      let (there, back) = signed_iff (all_added (sign tx) sigs) net r in
      elim (Bool-cases (leb input.min_signatures (length sigs))) [
        | inl enough ↦ rw enough (
          λ h.
              let (c, added, accepts) = there h in
              let (ds, reads, q) = (added_iff (sign tx) sigs c).0 added in
              (sigs, ds, refl, ground arith, reads, rw (← q) accepts),
          λ (sigs', ds, same, _, reads, accepts).
              let same' : sigs' ≡ sigs = cc in
              let c = with_all (sign tx) ds in
              back (c, (added_iff (sign tx) sigs c).1 (ds, rw (← same') reads, refl), accepts),
        )
        | inr few ↦ rw few (
          λ h. cc,
          λ (sigs', c, same, enough, _, _).
              let same' : sigs' ≡ sigs = cc in
              too_few input.min_signatures (length sigs) few (rw (← same') enough),
        )
      ]

  -- The payment is built on the agent's account, and completed.
  abbrev pub Settles : MultiSigInput → Net → Submitted → Type 0
  Settles input net r =
      (asset : Asset) × (asset_of input ≡ ok asset)
      × ((source : Account) × ((load_account net).0 ≡ ok source)
          × ((tx : Tx) × (build source asset input ≡ ok tx)
              × Completes input input.signatures tx (load_account net).1 r))

  built_iff :
      (input : MultiSigInput) (out : Result E Tx) (net : Net) (r : Submitted)
      → ((built_run input out net).0 ≡ ok (settled r))
        ↔ ((tx : Tx) × (out ≡ ok tx) × Completes input input.signatures tx net r)
  built_iff input (err e) net r = (λ h. cc, λ (tx, bad, _). cc)
  built_iff input (ok tx) net r =
      let (there, back) = collected_iff input input.signatures tx net r in
      (
        λ h. (tx, refl, there h),
        λ (tx', same, h). let same' : tx' ≡ tx = cc in back (rw (← same') h),
      )

  loaded_iff :
      (input : MultiSigInput) (asset : Asset) (out : Result E Account × Net) (r : Submitted)
      → ((loaded_run input asset out).0 ≡ ok (settled r)) ↔ (
          (source : Account) × (out.0 ≡ ok source)
          × ((tx : Tx) × (build source asset input ≡ ok tx)
              × Completes input input.signatures tx out.1 r))
  loaded_iff input asset (err e, net) r = (λ h. cc, λ (source, bad, _). cc)
  loaded_iff input asset (ok source, net) r =
      let (there, back) = built_iff input (build source asset input) net r in
      (
        λ h. (source, refl, there h),
        λ (source', same, h). let same' : source' ≡ source = cc in back (rw (← same') h),
      )

  asset_iff :
      (input : MultiSigInput) (out : Result E Asset) (net : Net) (r : Submitted)
      → ((asset_run input out net).0 ≡ ok (settled r)) ↔ (
          (asset : Asset) × (out ≡ ok asset)
          × ((source : Account) × ((load_account net).0 ≡ ok source)
              × ((tx : Tx) × (build source asset input ≡ ok tx)
                  × Completes input input.signatures tx (load_account net).1 r)))
  asset_iff input (err e) net r = (λ h. cc, λ (asset, bad, _). cc)
  asset_iff input (ok asset) net r =
      let (there, back) = loaded_iff input asset (load_account net) r in
      (
        λ h. (asset, refl, there h),
        λ (asset', same, h). let same' : asset' ≡ asset = cc in back (rw (← same') h),
      )

  -- A payment is submitted and settles exactly when its input is valid and names an issuer unless the asset
  -- is XLM, when the asset, the account and the transaction can be had, when at least `minSignatures`
  -- signatures have come with the input, all of them readable, and when the network accepts the
  -- transaction that the agent and they have signed.
  pub execute_multi_sig_iff :
      (input : MultiSigInput) (net : Net) (r : Submitted)
      → ((run input net).0 ≡ ok (settled r)) ↔ (
          (is_valid_multi_sig parse_float is_valid_public_key input ≡ true)
          × ((not (input.asset_code == "XLM") && not (has_issuer input.asset_issuer)) ≡ false)
          × Settles input net r)
  unfolding execute_multi_sig
  execute_multi_sig_iff input net r =
      let (there, back) = asset_iff input (asset_of input) net r in
      elim (Bool-cases (is_valid_multi_sig parse_float is_valid_public_key input)) [
        | inr bad ↦ rw bad (λ h. cc, λ (valid, _, _). cc)
        | inl good ↦
            elim (Bool-cases
              (not (input.asset_code == "XLM") && not (has_issuer input.asset_issuer))) [
                | inl lacks ↦ rw (good, lacks) (λ h. cc, λ (_, clean, _). cc)
                | inr clean ↦ rw (good, clean) (λ h. (refl, refl, there h), λ (_, _, s). back s)
              ]
      ]

  -- The agent's own signature does not count: where all signers are asked for, the agent among them, the
  -- signatures of all the others are too few, and the payment does not settle.
  pub others_short :
      (input : MultiSigInput) (net : Net) (r : Submitted) (sigs : List String)
      → input.signatures ≡ some sigs
      → length sigs ≤ length input.additional_signers
      → input.min_signatures ≡ length input.additional_signers + 1
      → ¬ ((run input net).0 ≡ ok (settled r))
  others_short input net r sigs given others everyone h =
      let (_, _, (_, _, (_, _, (_, _, (sigs', _, given', enough, _, _))))) =
        (execute_multi_sig_iff input net r).0 h in
      let same : sigs' ≡ sigs = cc in
      too_few input.min_signatures (length sigs) (ground arith) (rw (← same) enough)
