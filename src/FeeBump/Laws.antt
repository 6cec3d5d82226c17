-- ===== src/FeeBump/Laws.antt =====
-- When a fee bump of backend/tools/FeeBumpTool.ts succeeds.
use synapse_stellar.Prelude.{
  ◌≡◌, refl, sym, ap, ◌∙◌, ◌↔◌, inl, inr, Bool, true, String, string_eq, nat_eq, arith, Bool-cases,
}
use synapse_stellar.Prelude.Results.{Result, ok, err, ◌>>=◌, bind-ok_iff}
use synapse_stellar.Xdr.{InvalidXdrFormat, validate_xdr}
use synapse_stellar.FeeBump.{
  Envelope, plain, fee_bump, BumpSdk, FeeBumpInput, is_valid_bump, BumpError, opened, rethrown,
  same_network, bump_of, prepare, bump_sent, execute_bump, read_xdr,
}
use synapse_stellar.FeeBump.Guard.{PassesGuard, rethrown-ok_iff, signed_by-PassesGuard}

module _ (E : Type 0) (is_base64 : String → Bool) (sdk : BumpSdk E) (Submitted Net : Type 0)
    (public_key : String) (submit_transaction : sdk.Bump → Net → Result E Submitted × Net) where
  abbrev guarded : sdk.Inner → Result (BumpError E) sdk.Inner
  guarded = same_network E is_base64 sdk Submitted Net public_key submit_transaction

  abbrev Signed : sdk.Inner → Type 0
  Signed inner =
      PassesGuard E is_base64 sdk Submitted Net public_key submit_transaction inner
        (sdk.signatures inner)

  guard_iff : (inner x : sdk.Inner) → (guarded inner ≡ ok x) ↔ ((x ≡ inner) × Signed inner)
  unfolding same_network
  guard_iff inner x =
      signed_by-PassesGuard E is_base64 sdk Submitted Net public_key submit_transaction inner x
        (sdk.signatures inner)

  abbrev prepared : FeeBumpInput → Result (BumpError E) sdk.Bump
  prepared = prepare E is_base64 sdk Submitted Net public_key submit_transaction

  abbrev bumped : FeeBumpInput → sdk.Inner → Result E sdk.Bump
  bumped = bump_of E is_base64 sdk Submitted Net public_key submit_transaction

  abbrev run : FeeBumpInput → Net → Result (BumpError E) Submitted × Net
  run = execute_bump E is_base64 sdk Submitted Net public_key submit_transaction

  -- The bump is the one that the SDK builds around the transaction in the input.
  abbrev pub BumpOf : FeeBumpInput → sdk.Inner → sdk.Bump → Type 0
  BumpOf input inner bump =
      (is_valid_bump input ≡ true)
      × (validate_xdr is_base64 input.inner_tx_xdr ≡ ok input.inner_tx_xdr)
      × (sdk.from_xdr input.inner_tx_xdr ≡ ok (plain inner))
      × Signed inner
      × (bumped input inner ≡ ok bump)

  validate_xdr_same : (raw xdr : String) → validate_xdr is_base64 raw ≡ ok xdr → xdr ≡ raw
  unfolding validate_xdr
  validate_xdr_same raw xdr h = ground (arith, h)

  opened-ok_iff :
      (out : Result E (Envelope sdk.Inner)) (inner : sdk.Inner)
      → (opened E is_base64 sdk Submitted Net public_key submit_transaction out ≡ ok inner)
        ↔ (out ≡ ok (plain inner))
  opened-ok_iff (err e) inner = (λ h. cc, λ h. cc)
  opened-ok_iff (ok fee_bump) inner = (λ h. cc, λ h. cc)
  opened-ok_iff (ok (plain i)) inner = (λ h. cc, λ h. cc)

  abbrev read : FeeBumpInput → Result (BumpError E) String
  read input =
      read_xdr E is_base64 sdk Submitted Net public_key submit_transaction
        (validate_xdr is_base64 input.inner_tx_xdr)

  abbrev open_envelope : Result E (Envelope sdk.Inner) → Result (BumpError E) sdk.Inner
  open_envelope = opened E is_base64 sdk Submitted Net public_key submit_transaction

  -- The chain of `prepare`, from its last link on.
  abbrev built : FeeBumpInput → sdk.Inner → Result (BumpError E) sdk.Bump
  built input inner =
      rethrown E is_base64 sdk Submitted Net public_key submit_transaction (bumped input inner)

  abbrev built_here : FeeBumpInput → sdk.Inner → Result (BumpError E) sdk.Bump
  built_here input inner = guarded inner >>= built input

  abbrev built_from : FeeBumpInput → String → Result (BumpError E) sdk.Bump
  built_from input xdr = open_envelope (sdk.from_xdr xdr) >>= built_here input

  read-ok :
      (input : FeeBumpInput) (xdr : String)
      → read input ≡ ok xdr
      → (validate_xdr is_base64 input.inner_tx_xdr ≡ ok input.inner_tx_xdr)
        × (xdr ≡ input.inner_tx_xdr)
  read-ok input xdr = go (validate_xdr is_base64 input.inner_tx_xdr) refl
    where
      go :
          (out : Result InvalidXdrFormat String)
          → validate_xdr is_base64 input.inner_tx_xdr ≡ out
          → read_xdr E is_base64 sdk Submitted Net public_key submit_transaction out ≡ ok xdr
          → (validate_xdr is_base64 input.inner_tx_xdr ≡ ok input.inner_tx_xdr)
            × (xdr ≡ input.inner_tx_xdr)
      go (err e) q = λ h. cc
      go (ok x) q = λ h. let same = validate_xdr_same input.inner_tx_xdr x q in (cc, cc)

  prepared-BumpOf :
      (input : FeeBumpInput) (bump : sdk.Bump)
      → (prepared input ≡ ok bump) ↔ ((inner : sdk.Inner) × BumpOf input inner bump)
  unfolding prepare same_network
  prepared-BumpOf input bump = elim (Bool-cases (is_valid_bump input)) [
    | inr bad ↦ rw bad (λ h. cc, λ (inner, b). let valid = b.0 in cc)
    | inl good ↦ rw good (
      λ h.
          let (xdr, reads, h1) = (bind-ok_iff (read input) (built_from input) bump).0 h in
          let (valid, same) = read-ok input xdr reads in
          let (inner, opens, h2) =
            (bind-ok_iff (open_envelope (sdk.from_xdr xdr)) (built_here input) bump).0 h1 in
          let (checked, guard, h3) = (bind-ok_iff (guarded inner) (built input) bump).0 h2 in
          let (kept, here) = (guard_iff inner checked).0 guard in
          let plain_one = (opened-ok_iff (sdk.from_xdr xdr) inner).0 opens in
          let builds =
            (rethrown-ok_iff E is_base64 sdk Submitted Net public_key submit_transaction
                (bumped input checked) bump).0
              h3 in
          (
            inner,
            (
              refl,
              valid,
              ap sdk.from_xdr (sym same) ∙ plain_one,
              here,
              ap (bumped input) (sym kept) ∙ builds,
            ),
          ),
      λ (inner, (_, xdr, plain_one, here, builds)).
          rw (xdr, plain_one, (guard_iff inner inner).1 (refl, here), builds) refl,
    )
  ]

  -- A fee bump succeeds exactly when its input is valid, the XDR reads as a transaction that is no fee bump
  -- itself, this one has no signatures, or the key of its source can be had and the first signature with
  -- the hint of the source, if there is one, is valid on the agent's network, the SDK builds the envelope,
  -- and the network accepts it.
  pub execute_bump_iff :
      (input : FeeBumpInput) (net : Net) (r : Submitted)
      → ((run input net).0 ≡ ok r) ↔ (
          (inner : sdk.Inner) × (bump : sdk.Bump) × BumpOf input inner bump
          × ((submit_transaction (sdk.sign bump) net).0 ≡ ok r))
  unfolding execute_bump
  execute_bump_iff input net r = (there (prepared input) refl, back)
    where
      there :
          (out : Result (BumpError E) sdk.Bump)
          → prepared input ≡ out
          → (bump_sent E is_base64 sdk Submitted Net public_key submit_transaction out net).0 ≡ ok r
          → (inner : sdk.Inner) × (bump : sdk.Bump) × BumpOf input inner bump
            × ((submit_transaction (sdk.sign bump) net).0 ≡ ok r)
      there (err e) q = λ h. cc
      there (ok bump) q = λ h.
          let (inner, made) = (prepared-BumpOf input bump).0 q in
          (
            inner,
            bump,
            made,
            (rethrown-ok_iff E is_base64 sdk Submitted Net public_key submit_transaction
                  (submit_transaction (sdk.sign bump) net).0 r).0
                h,
          )

      back :
          (inner : sdk.Inner) × (bump : sdk.Bump) × BumpOf input inner bump
            × ((submit_transaction (sdk.sign bump) net).0 ≡ ok r)
          → (run input net).0 ≡ ok r
      back (inner, bump, made, accepts) =
          rw ((prepared-BumpOf input bump).1 (inner, made), accepts) refl
