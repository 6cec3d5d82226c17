-- ===== src/X402/Verify.antt =====
-- `verify` of backend/tools/X402PaymentTool.ts, and what it makes of the payments of `respond`. Horizon
-- is a parameter: its answers on a transaction's memo and operations.
use synapse_stellar.Prelude.{
  ℕ, ◌≡◌, ◌≢◌, refl, sym, ◌∙◌, ap, ◌↔◌, ◌⊎◌, inl, inr, Bool, true, false, not, Option, none, some,
  List, [], ◌∷◌, String, ◌==◌, string_eq, eq_iff, ==_ne, arith, Bool-cases, if◌then◌else◌,
}
use synapse_stellar.Prelude.Results.{Result, ok, err}
use synapse_stellar.Values.{Value}
use synapse_stellar.Nonce.{NonceStore}
use synapse_stellar.X402.{
  X402Challenge, X402PaymentProof, Payment, PaymentResult, Times, Config, Formats, parse_challenge,
  payment_for, proof_of, respond,
}
use synapse_stellar.X402.Guards.{State, respond_ok}

-- The fields of an operation of Horizon; `none` is undefined.
pub record Operation : Type 0 where
  pub to : Option String
  pub destination : Option String
  pub amount : Option String
  pub asset_type : Option String
  pub asset_code : Option String
  pub asset : Option String
  pub from : Option String
  pub source_account : Option String

-- `a || b`: the empty text is falsy.
infixr 31 ◌or_else◌
abbrev ◌or_else◌ : Option String → Option String → Option String
none or_else b = b
some s or_else b = if s == "" then b else some s

-- `===` of a field and a text
abbrev matches : Option String → String → Bool
matches none s = false
matches (some r) s = r == s

pub record Extracted : Type 0 where
  pub to : Option String
  pub amount : Option String
  pub asset_code : Option String
  pub from : Option String

pub extract_op : Operation → Extracted
extract_op op = record {
  to = op.to or_else op.destination;
  amount = op.amount;
  asset_code =
      if matches op.asset_type "native" then some "XLM" else op.asset_code or_else op.asset;
  from = op.from or_else op.source_account;
}

pub data VerifyError (E : Type 0) : Type 0 where
  missing_operation destination_mismatch amount_mismatch asset_mismatch : VerifyError E
  nonce_mismatch payer_mismatch : VerifyError E
  horizon : E → VerifyError E

module _ (E : Type 0) where
  checked :
      (sha256_28 : String → String)
      → X402PaymentProof
      → X402Challenge
      → Option String
      → Extracted
      → Result (VerifyError E) (Unit {0})
  checked sha256_28 proof c memo parsed =
      if not (matches parsed.to c.pay_to)
      then err destination_mismatch
      else if not (matches parsed.amount c.amount)
      then err amount_mismatch
      else if not (matches parsed.asset_code c.asset_code)
      then err asset_mismatch
      else if not (matches memo (sha256_28 c.nonce))
      then err nonce_mismatch
      else if not (matches parsed.from proof.payer)
      then err payer_mismatch
      else ok tt

  -- `ops.records?.[0]`
  first_operation :
      (sha256_28 : String → String)
      → X402PaymentProof
      → X402Challenge
      → Option String
      → List Operation
      → Result (VerifyError E) (Unit {0})
  unfolding checked
  first_operation sha256_28 proof c memo [] = err missing_operation
  first_operation sha256_28 proof c memo (op ∷ _) = checked sha256_28 proof c memo (extract_op op)

  fetched :
      (sha256_28 : String → String)
      → X402PaymentProof
      → X402Challenge
      → Result E (Option String)
      → Result E (List Operation)
      → Result (VerifyError E) (Unit {0})
  unfolding first_operation
  fetched sha256_28 proof c (err e) _ = err (horizon e)
  fetched sha256_28 proof c (ok memo) (err e) = err (horizon e)
  fetched sha256_28 proof c (ok memo) (ok ops) = first_operation sha256_28 proof c memo ops

  module _ (Net : Type 0) (sha256_28 : String → String)
      (memo_of : String → Net → Result E (Option String))
      (operations_of : String → Net → Result E (List Operation)) where
    pub verify : X402PaymentProof → X402Challenge → Net → Result (VerifyError E) (Unit {0})
    unfolding fetched
    verify proof c net =
        fetched sha256_28 proof c (memo_of proof.tx_hash net) (operations_of proof.tx_hash net)

  matches_iff : (o : Option String) (s : String) → (matches o s ≡ true) ↔ (o ≡ some s)
  matches_iff none s = (λ e. cc, λ e. cc)
  matches_iff (some r) s = (λ e. ap some ((eq_iff r s).0 e), λ e. (eq_iff r s).1 (cc))

  -- What the transaction has to be.
  abbrev pub Fits :
      (String → String) → X402PaymentProof → X402Challenge → Option String → Operation → Type 0
  Fits sha256_28 proof c memo op =
      ((extract_op op).to ≡ some c.pay_to)
      × ((extract_op op).amount ≡ some c.amount)
      × ((extract_op op).asset_code ≡ some c.asset_code)
      × (memo ≡ some (sha256_28 c.nonce))
      × ((extract_op op).from ≡ some proof.payer)

  -- `a || b` of two texts that may be missing is this text: the first, unless it is missing or empty.
  abbrev pub FirstText : Option String → Option String → String → Type 0
  FirstText a b s = ((a ≡ some s) × (s ≢ "")) ⊎ (((a ≡ none) ⊎ (a ≡ some "")) × (b ≡ some s))

  or_else_iff : (a b : Option String) (s : String) → ((a or_else b) ≡ some s) ↔ FirstText a b s
  or_else_iff none b s = (λ h. inr (inl refl, h), back)
    where
      back : FirstText none b s → b ≡ some s
      back (inl (bad, _)) = cc
      back (inr (_, h)) = h
  or_else_iff (some x) b s = elim (Bool-cases (x == "")) [
    | inl e ↦
        let blank = (eq_iff x "").0 e in rw e (λ h. inr (inr (ap some blank), h), of_blank blank)
    | inr e ↦
        let text : x ≢ "" = (λ q. cc ((eq_iff x "").1 q)) in
        rw e (λ h. inl (h, nonempty text h), of_text text)
  ]
    where
      of_blank : x ≡ "" → FirstText (some x) b s → b ≡ some s
      of_blank blank (inl (same, full)) = absurd (full (cc))
      of_blank blank (inr (_, h)) = h

      nonempty : x ≢ "" → ◌≡◌ {A = Option String} (some x) (some s) → s ≢ ""
      nonempty full same q = full (cc)

      of_text : x ≢ "" → FirstText (some x) b s → ◌≡◌ {A = Option String} (some x) (some s)
      of_text full (inl (same, _)) = same
      of_text full (inr (inl bad, _)) = cc
      of_text full (inr (inr blank, _)) = absurd (full (cc))

  asset_iff :
      (kind code : Option String) (asset : Option String) (s : String)
      → ((if matches kind "native" then some "XLM" else code or_else asset) ≡ some s) ↔ (
          ((kind ≡ some "native") × (s ≡ "XLM"))
          ⊎ ((kind ≢ some "native") × FirstText code asset s))
  asset_iff kind code asset s = elim (Bool-cases (matches kind "native")) [
    | inl e ↦
        let native = (matches_iff kind "native").0 e in
        rw e (λ h. inl (native, cc), of_native native)
    | inr e ↦
        let issued : kind ≢ some "native" = (λ q. cc ((matches_iff kind "native").1 q)) in
        rw e (λ h. inr (issued, (or_else_iff code asset s).0 h), of_issued issued)
  ]
    where
      of_native :
          kind ≡ some "native"
          → ((kind ≡ some "native") × (s ≡ "XLM"))
            ⊎ ((kind ≢ some "native") × FirstText code asset s)
          → ◌≡◌ {A = Option String} (some "XLM") (some s)
      of_native native (inl (_, q)) = cc
      of_native native (inr (other, _)) = absurd (other native)

      of_issued :
          kind ≢ some "native"
          → ((kind ≡ some "native") × (s ≡ "XLM"))
            ⊎ ((kind ≢ some "native") × FirstText code asset s)
          → (code or_else asset) ≡ some s
      of_issued issued (inl (native, _)) = absurd (issued native)
      of_issued issued (inr (_, first)) = (or_else_iff code asset s).1 first

  -- The operation and the memo as Horizon shows them, field by field: the recipient, the amount, the asset
  -- (native for XLM, and else its code), the memo, and the account that pays.
  abbrev pub Shows :
      (String → String) → X402PaymentProof → X402Challenge → Option String → Operation → Type 0
  Shows sha256_28 proof c memo op =
      FirstText op.to op.destination c.pay_to
      × (op.amount ≡ some c.amount)
      × (((op.asset_type ≡ some "native") × (c.asset_code ≡ "XLM"))
          ⊎ ((op.asset_type ≢ some "native") × FirstText op.asset_code op.asset c.asset_code))
      × (memo ≡ some (sha256_28 c.nonce))
      × FirstText op.from op.source_account proof.payer

  Fits-iff :
      (sha256_28 : String → String) (proof : X402PaymentProof) (c : X402Challenge)
      (memo : Option String) (op : Operation)
      → Fits sha256_28 proof c memo op ↔ Shows sha256_28 proof c memo op
  unfolding extract_op
  Fits-iff sha256_28 proof c memo op =
      let to_first = or_else_iff op.to op.destination c.pay_to in
      let asset = asset_iff op.asset_type op.asset_code op.asset c.asset_code in
      let payer = or_else_iff op.from op.source_account proof.payer in
      (
        λ (a, b, k, d, e). (to_first.0 a, b, asset.0 k, d, payer.0 e),
        λ (a, b, k, d, e). (to_first.1 a, b, asset.1 k, d, payer.1 e),
      )

  checked_iff :
      (sha256_28 : String → String) (proof : X402PaymentProof) (c : X402Challenge)
      (memo : Option String) (op : Operation)
      → (checked sha256_28 proof c memo (extract_op op) ≡ ok tt) ↔ Fits sha256_28 proof c memo op
  unfolding checked
  checked_iff sha256_28 proof c memo op = ground (
    arith,
    matches_iff (extract_op op).to c.pay_to,
    matches_iff (extract_op op).amount c.amount,
    matches_iff (extract_op op).asset_code c.asset_code,
    matches_iff memo (sha256_28 c.nonce),
    matches_iff (extract_op op).from proof.payer,
  )

  fetched_iff :
      (sha256_28 : String → String) (proof : X402PaymentProof) (c : X402Challenge)
      (memos : Result E (Option String)) (ops : Result E (List Operation))
      → (fetched sha256_28 proof c memos ops ≡ ok tt) ↔ (
          (memo : Option String) × (op : Operation) × (rest : List Operation) × (memos ≡ ok memo)
          × (ops ≡ ok (op ∷ rest))
          × Fits sha256_28 proof c memo op)
  unfolding fetched first_operation
  fetched_iff sha256_28 proof c (err e) ops = (λ h. cc, λ (memo, op, rest, h, k, f). cc)
  fetched_iff sha256_28 proof c (ok m) (err e) = (λ h. cc, λ (memo, op, rest, h, k, f). cc)
  fetched_iff sha256_28 proof c (ok m) (ok []) = (λ h. cc, λ (memo, op, rest, h, k, f). cc)
  fetched_iff sha256_28 proof c (ok m) (ok (o ∷ os)) = (
    λ h. (m, o, os, refl, refl, (checked_iff sha256_28 proof c m o).0 h),
    λ (memo, op, rest, h, k, f).
        let e : memo ≡ m = cc in
        let e' : op ≡ o = cc in (checked_iff sha256_28 proof c m o).1 (rw (← e, ← e') f),
  )

  verify_extracted :
      (Net : Type 0) (sha256_28 : String → String)
      (memo_of : String → Net → Result E (Option String))
      (operations_of : String → Net → Result E (List Operation)) (proof : X402PaymentProof)
      (c : X402Challenge) (net : Net)
      → (verify Net sha256_28 memo_of operations_of proof c net ≡ ok tt) ↔ (
          (memo : Option String) × (op : Operation) × (rest : List Operation) × (memo_of
              proof.tx_hash net
            ≡ ok memo)
          × (operations_of proof.tx_hash net ≡ ok (op ∷ rest))
          × Fits sha256_28 proof c memo op)
  unfolding verify
  verify_extracted Net sha256_28 memo_of operations_of proof c net =
      fetched_iff sha256_28 proof c (memo_of proof.tx_hash net) (operations_of proof.tx_hash net)

  -- `verify` accepts a proof exactly when Horizon answers for the transaction, the transaction has an
  -- operation, and of the first one the recipient, the amount, the asset and the paying account are those
  -- of the challenge and the proof, and the memo is the first 28 hex digits of the nonce's hash: `to`,
  -- unless it is empty, or else `destination`; `from` or else `source_account`; a native asset where the
  -- challenge names XLM, and otherwise `asset_code` or else `asset`. The kind of the operation is not asked.
  pub verify_iff :
      (Net : Type 0) (sha256_28 : String → String)
      (memo_of : String → Net → Result E (Option String))
      (operations_of : String → Net → Result E (List Operation)) (proof : X402PaymentProof)
      (c : X402Challenge) (net : Net)
      → (verify Net sha256_28 memo_of operations_of proof c net ≡ ok tt) ↔ (
          (memo : Option String) × (op : Operation) × (rest : List Operation) × (memo_of
              proof.tx_hash net
            ≡ ok memo)
          × (operations_of proof.tx_hash net ≡ ok (op ∷ rest))
          × Shows sha256_28 proof c memo op)
  verify_iff Net sha256_28 memo_of operations_of proof c net =
      let (there, back) = verify_extracted Net sha256_28 memo_of operations_of proof c net in
      (
        λ h.
            let (memo, op, rest, m, o, fits) = there h in
            (memo, op, rest, m, o, (Fits-iff sha256_28 proof c memo op).0 fits),
        λ (memo, op, rest, m, o, shows).
            back (memo, op, rest, m, o, (Fits-iff sha256_28 proof c memo op).1 shows),
      )

-- What Horizon reports of a payment: the memo, and one payment operation with the amount in Horizon's
-- own notation. Native payments have no asset code.
pub record IsReported (shown : String → String) (public_key : String) (q : Payment)
    (memo : Option String) (op : Operation) : Type 0 where
  pub memo_kept : memo ≡ some q.memo
  pub recipient : op.to ≡ some q.destination
  pub amount_shown : op.amount ≡ some (shown q.amount)
  pub payer : op.from ≡ some public_key
  pub native : q.asset_code ≡ "XLM" → op.asset_type ≡ some "native"
  pub issued :
      q.asset_code ≢ "XLM" → (op.asset_type ≢ some "native") × (op.asset_code ≡ some q.asset_code)

module _ (config : Config) (formats : Formats) (store : NonceStore) (Net E : Type 0)
    (public_key : String) (pay : Payment → Net → Result E PaymentResult × Net)
    (closed_at : ℕ → Net → Option String) (memo_of : String → Net → Result E (Option String))
    (operations_of : String → Net → Result E (List Operation)) (shown : String → String) where
  or_else-some : (s : String) (b : Option String) → s ≢ "" → (some s or_else b) ≡ some s
  or_else-some s b h = rw (==_ne {a = s} h) refl

  extract_asset :
      (q : Payment) (memo : Option String) (op : Operation)
      → IsReported shown public_key q memo op
      → q.asset_code ≢ ""
      → (extract_op op).asset_code ≡ some q.asset_code
  unfolding extract_op
  extract_asset q memo op r h = elim (Bool-cases (q.asset_code == "XLM")) [
    | inl e ↦
        let xlm : q.asset_code ≡ "XLM" = (eq_iff q.asset_code "XLM").0 e in
        rw (r.native xlm) (ap some (sym xlm))
    | inr e ↦
        let (not_native, code) = r.issued (λ xlm. cc ((eq_iff q.asset_code "XLM").1 xlm)) in
        rw (other_type op.asset_type not_native, code) (or_else-some q.asset_code op.asset h)
  ]
    where
      other_type : (o : Option String) → o ≢ some "native" → matches o "native" ≡ false
      other_type o h = elim (Bool-cases (matches o "native")) [
        | inl e ↦ absurd (h ((matches_iff E o "native").0 e))
        | inr e ↦ e
      ]

  same_payer :
      {A : Type 0} (r : Result A X402PaymentProof) (p q : X402PaymentProof)
      → r ≡ ok p
      → r ≡ ok q
      → p.payer ≡ q.payer
  same_payer r p q e e' = let same : p ≡ q = cc in ap (λ x. x.payer) same

  extract-Fits :
      (p : X402PaymentProof) (c : X402Challenge) (memo : Option String) (op : Operation)
      → c.pay_to ≢ ""
      → c.asset_code ≢ ""
      → public_key ≢ ""
      → p.payer ≡ public_key
      → IsReported shown public_key (payment_for config formats c) memo op
      → shown c.amount ≡ c.amount
      → Fits E formats.sha256_28 p c memo op
  unfolding extract_op
  extract-Fits p c memo op g h k payer r a = (
    rw r.recipient (or_else-some c.pay_to op.destination g),
    r.amount_shown ∙ ap some a,
    extract_asset (payment_for config formats c) memo op r h,
    r.memo_kept,
    rw (r.payer, payer) (or_else-some public_key op.source_account k),
  )

  -- Round trip of `respond` and `verify`. A proof that `respond` has given for a challenge is accepted
  -- by `verify`, once Horizon reports the payment, exactly when the challenge writes its amount the
  -- way Horizon does. The recipient, the asset code and the agent's key are not empty.
  pub verify-respond :
      (times : Times) (raw : Value) (c : X402Challenge)
      (t : State config formats store Net E public_key pay closed_at) (p : X402PaymentProof)
      (memo : Option String) (op : Operation) (rest : List Operation) (net : Net)
      → c.pay_to ≢ ""
      → c.asset_code ≢ ""
      → public_key ≢ ""
      → parse_challenge config formats raw ≡ some c
      → (respond config formats store Net E public_key pay closed_at times raw t).0 ≡ ok p
      → memo_of p.tx_hash net ≡ ok memo
      → operations_of p.tx_hash net ≡ ok (op ∷ rest)
      → IsReported shown public_key (payment_for config formats c) memo op
      → (verify E Net formats.sha256_28 memo_of operations_of p c net ≡ ok tt)
        ↔ (shown c.amount ≡ c.amount)
  unfolding proof_of extract_op
  verify-respond times raw c t p memo op rest net g h k e answered m o r =
      let (d, e', _, _, _, settled) =
        respond_ok config formats store Net E public_key pay closed_at times raw t p answered in
      let payer_kept : p.payer ≡ public_key = same_payer _ p _ answered settled.answer in
      let iff = verify_extracted E Net formats.sha256_28 memo_of operations_of p c net in
      (
        λ v.
            let (memo', op', rest', m', o', fits) = iff.0 v in
            let same : op' ≡ op = cc in
            let amount : op'.amount ≡ some c.amount = fits.1 in
            let amount' : op'.amount ≡ op.amount = ap (λ x. x.amount) same in cc,
        λ a. iff.1 (memo, op, rest, m, o, extract-Fits p c memo op g h k payer_kept r a),
      )
