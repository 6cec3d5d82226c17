-- ===== src/X402/Guards.antt =====
-- What an answer of `respond` of backend/tools/X402PaymentTool.ts says of the run that gave it.
use synapse_stellar.Prelude.{
  ℕ, ◌+◌, ◌≤◌, ◌≡◌, ◌≢◌, refl, inl, inr, Bool, true, false, Option, none, some, String, leb,
  string_eq, eq_iff, ==_ne, ◌==◌, ◌⊎◌, List, [], ◌∷◌, any, arith, Bool-cases,
}
use synapse_stellar.Prelude.Results.{Result, ok, err}
use synapse_stellar.Values.{Value}
use synapse_stellar.Nonce.{NonceStore, max_nonce_ttl_ms}
use synapse_stellar.X402.{
  X402Challenge, X402PaymentProof, Payment, PaymentResult, X402Error, Times, Config, Formats,
  parse_challenge, is_trusted, payment_for, refusal, Tool, renew, proof_of, marked, paid, asked,
  unrefused, parsed, counted, respond,
}

module _ (config : Config) (formats : Formats) (store : NonceStore) (Net E : Type 0)
    (public_key : String) (pay : Payment → Net → Result E PaymentResult × Net)
    (closed_at : ℕ → Net → Option String) where
  abbrev pub State : Type 0
  State = Tool config formats store Net E public_key pay closed_at

  abbrev pub Answer : Type 0
  Answer = Result (X402Error E) X402PaymentProof × State

  abbrev proof : Times → X402Challenge → PaymentResult → Net → X402PaymentProof
  proof = proof_of config formats store Net E public_key pay closed_at

  -- A run from the nonce store's answer on that marks the nonce and answers.
  pub record IsSettled (times : Times) (c : X402Challenge) (q : Payment)
      (had : Option Bool × store.Store) (net : Net) (out : Answer) : Type 0 where
    pub result : PaymentResult
    pub fresh : had.0 ≡ some false
    pub done : (pay q net).0 ≡ ok result
    pub added : (store.add had.1 times.at_add times.at_mark c.nonce).0 ≡ some tt
    pub nonces_left :
        out.1.nonces
        ≡ (store.prune
            (store.add had.1 times.at_add times.at_mark c.nonce).1
            times.at_prune
            max_nonce_ttl_ms).1
    pub net_left : out.1.net ≡ (pay q net).1
    pub answer : out.0 ≡ ok (proof times c result (pay q net).1)

  marked_ok :
      (times : Times) (c : X402Challenge) (r : PaymentResult)
      (out : Option (Unit {0}) × store.Store) (t : State) (p : X402PaymentProof)
      → let out' = marked config formats store Net E public_key pay closed_at times c r out t in
        out'.0 ≡ ok p
        → (out.0 ≡ some tt)
          × (out'.1.nonces ≡ (store.prune out.1 times.at_prune max_nonce_ttl_ms).1)
          × (out'.1.net ≡ t.net)
          × (out'.0 ≡ ok (proof times c r t.net))
  unfolding marked
  marked_ok times c r (none, s) t p h = cc
  marked_ok times c r (some _, s) t p h = (refl, refl, refl, refl)

  paid_ok :
      (times : Times) (c : X402Challenge) (out : Result E PaymentResult × Net) (t : State)
      (p : X402PaymentProof)
      → let out' = paid config formats store Net E public_key pay closed_at times c out t in
        let added = store.add t.nonces times.at_add times.at_mark c.nonce in
        out'.0 ≡ ok p
        → (r : PaymentResult) × (out.0 ≡ ok r)
          × (added.0 ≡ some tt)
          × (out'.1.nonces ≡ (store.prune added.1 times.at_prune max_nonce_ttl_ms).1)
          × (out'.1.net ≡ out.1)
          × (out'.0 ≡ ok (proof times c r out.1))
  unfolding paid
  paid_ok times c (err e, net) t p h = cc
  paid_ok times c (ok r, net) t p h =
      let (a, b, d, e) =
        marked_ok times c r (store.add t.nonces times.at_add times.at_mark c.nonce)
          (record t { net = net }) p h in
      (r, refl, a, b, d, e)

  asked_ok :
      (times : Times) (c : X402Challenge) (had : Option Bool × store.Store) (t : State)
      (p : X402PaymentProof)
      → (asked config formats store Net E public_key pay closed_at times c had t).0 ≡ ok p
      → IsSettled times c
          (payment_for config formats c)
          had
          t.net
          (asked config formats store Net E public_key pay closed_at times c had t)
  unfolding asked
  asked_ok times c (none, s) t p h = cc
  asked_ok times c (some true, s) t p h = cc
  asked_ok times c (some false, s) t p h =
      let (r, done, added, nonces_left, net_left, answer) =
        paid_ok times c (pay (payment_for config formats c) t.net) (record t { nonces = s }) p h in
      record {
        result = r;
        fresh = refl;
        done = done;
        added = added;
        nonces_left = nonces_left;
        net_left = net_left;
        answer = answer;
      }

  parsed_ok :
      (times : Times) (raw : Option X402Challenge) (t : State) (p : X402PaymentProof)
      → (parsed config formats store Net E public_key pay closed_at times raw t).0 ≡ ok p
      → (c : X402Challenge) × (raw ≡ some c)
        × (refusal config formats E public_key c times.at_expiry_check ≡ none)
        × IsSettled times c
            (payment_for config formats c)
            (store.has t.nonces times.at_has c.nonce)
            t.net
            (parsed config formats store Net E public_key pay closed_at times raw t)
  unfolding parsed
  parsed_ok times none t p h = cc
  parsed_ok times (some c) t p h =
      let (free, settled) =
        unrefused_ok (refusal config formats E public_key c times.at_expiry_check) h in
      (c, refl, free, settled)
    where
      unrefused_ok :
          (refused : Option (X402Error E))
          → (unrefused config formats store Net E public_key pay closed_at times c refused t).0
            ≡ ok p
          → (refused ≡ none)
            × IsSettled times c
                (payment_for config formats c)
                (store.has t.nonces times.at_has c.nonce)
                t.net
                (unrefused config formats store Net E public_key pay closed_at times c refused t)
      unrefused_ok (some e) h = cc
      unrefused_ok none h = (refl, asked_ok times c (store.has t.nonces times.at_has c.nonce) t p h)

  pub renew_kept :
      (now : ℕ) (t : State)
      → ((renew config formats store Net E public_key pay closed_at now t).nonces ≡ t.nonces)
        × ((renew config formats store Net E public_key pay closed_at now t).net ≡ t.net)
  unfolding renew
  renew_kept now t = ground arith

  abbrev OneOf : String → List String → Type 0
  OneOf h [] = ⊥
  OneOf h (o ∷ os) = (o ≡ h) ⊎ OneOf h os

  -- Without a list of origins every one is trusted, and with a list those on it.
  abbrev pub Trusted : Option (List String) → String → Type 0
  Trusted none resource = Unit {0}
  Trusted (some origins) resource = OneOf (formats.hostname resource) origins

  any-OneOf : (h : String) (os : List String) → any (λ o. o == h) os ≡ true → OneOf h os
  any-OneOf h [] e = cc
  any-OneOf h (o ∷ os) e = elim (Bool-cases (o == h)) [
    | inl same ↦ inl ((eq_iff o h).0 same)
    | inr other ↦ inr (any-OneOf h os (ground (arith, other, e)))
  ]

  is_trusted-Trusted :
      (origins : Option (List String)) (resource : String)
      → is_trusted config formats origins resource ≡ true
      → Trusted origins resource
  unfolding is_trusted
  is_trusted-Trusted none resource h = tt
  is_trusted-Trusted (some origins) resource h = any-OneOf (formats.hostname resource) origins h

  -- The payment that a challenge asks for: to its recipient, of its amount and asset, with an issuer unless
  -- the asset is XLM, under the first 28 hex digits of the nonce's hash as the memo.
  pub record Asks (c : X402Challenge) (q : Payment) : Type 0 where
    pub recipient : q.destination ≡ c.pay_to
    pub amount : q.amount ≡ c.amount
    pub asset : q.asset_code ≡ c.asset_code
    pub native : c.asset_code ≡ "XLM" → q.asset_issuer ≡ none
    pub issued : c.asset_code ≢ "XLM" → q.asset_issuer ≡ some c.asset_issuer
    pub memo : q.memo ≡ formats.sha256_28 c.nonce

  payment_for-Asks : (c : X402Challenge) → Asks c (payment_for config formats c)
  payment_for-Asks c = record {
    recipient = refl;
    amount = refl;
    asset = refl;
    native = λ e. rw ((eq_iff c.asset_code "XLM").1 e) refl;
    issued = λ e. rw (==_ne {a = c.asset_code} e) refl;
    memo = refl;
  }

  -- The challenge passes the guards on its recipient, its origin and its time.
  abbrev pub IsAcceptable : X402Challenge → ℕ → Type 0
  IsAcceptable c now =
      (c.pay_to ≢ public_key)
      × Trusted config.allowed_x402_origins c.resource
      × (now ≤ formats.date c.expires_at)

  refusal-none :
      (c : X402Challenge) (now : ℕ)
      → refusal config formats E public_key c now ≡ none
      → IsAcceptable c now
  unfolding refusal
  refusal-none c now h =
      let (other, trusted, fresh) = passed in
      (other, is_trusted-Trusted config.allowed_x402_origins c.resource trusted, fresh)
    where
      passed :
          (c.pay_to ≢ public_key)
          × (is_trusted config formats config.allowed_x402_origins c.resource ≡ true)
          × (now ≤ formats.date c.expires_at)
      passed = ground (arith, eq_iff c.pay_to public_key)

  counted_ok :
      (times : Times) (raw : Value) (t : State) (p : X402PaymentProof)
      → (counted config formats store Net E public_key pay closed_at times raw t).0 ≡ ok p
      → (c : X402Challenge) × (parse_challenge config formats raw ≡ some c)
        × IsAcceptable c times.at_expiry_check
        × IsSettled times c
            (payment_for config formats c)
            (store.has t.nonces times.at_has c.nonce)
            t.net
            (counted config formats store Net E public_key pay closed_at times raw t)
  unfolding counted
  counted_ok times raw t p =
      elim (Bool-cases (leb config.max_x402_payments_per_minute t.payment_count)) [
        | inl full ↦ rw full (λ h. cc)
        | inr room ↦ rw room λ h.
            let (c, e, free, settled) =
              parsed_ok times (parse_challenge config formats raw)
                (record t { payment_count = t.payment_count + 1 }) p h in
            (c, e, refusal-none c times.at_expiry_check free, settled)
      ]

  same_place :
      (times : Times) (c : X402Challenge) (nonces nonces' : store.Store) (net net' : Net)
      (out : Answer)
      → nonces' ≡ nonces
      → net' ≡ net
      → IsSettled times c
          (payment_for config formats c)
          (store.has nonces' times.at_has c.nonce)
          net'
          out
      → IsSettled times c
          (payment_for config formats c)
          (store.has nonces times.at_has c.nonce)
          net
          out
  same_place times c nonces nonces' net net' out e f settled = rw (← e, ← f) settled

  -- Whenever `respond` gives a proof of payment, the challenge has parsed, it asks for a payment to
  -- another account, from a trusted origin and before it expires, its nonce was not in the store,
  -- the payment tool has made exactly the payment that the challenge asks for, with the first 28
  -- hex digits of the nonce's hash as its memo, and the nonce is in the store.
  pub respond_ok :
      (times : Times) (raw : Value) (t : State) (p : X402PaymentProof)
      → (respond config formats store Net E public_key pay closed_at times raw t).0 ≡ ok p
      → (c : X402Challenge) × (parse_challenge config formats raw ≡ some c)
        × IsAcceptable c times.at_expiry_check
        × (q : Payment) × Asks c q
        × IsSettled times c q
            (store.has t.nonces times.at_has c.nonce)
            t.net
            (respond config formats store Net E public_key pay closed_at times raw t)
  unfolding respond
  respond_ok times raw t p h =
      let t' = renew config formats store Net E public_key pay closed_at times.at_start t in
      let (nonces, net) = renew_kept times.at_start t in
      let (c, e, free, settled) = counted_ok times raw t' p h in
      (
        c,
        e,
        free,
        payment_for config formats c,
        payment_for-Asks c,
        same_place times c t.nonces t'.nonces t.net t'.net _ nonces net settled,
      )
