-- ===== src/X402/Limit.antt =====
-- The rate limit of `respond` of backend/tools/X402PaymentTool.ts.
use synapse_stellar.Prelude.{
  ℕ, suc, ◌+◌, ◌-◌, ◌≤◌, ◌<◌, ◌≡◌, refl, ◌∙◌, ◌⊎◌, inl, inr, Bool, true, false, Option, none, some,
  List, [], ◌∷◌, String, All, leb, arith, Bool-cases, if◌then◌else◌,
}
use synapse_stellar.Prelude.Results.{Result, ok, err}
use synapse_stellar.Values.{Value}
use synapse_stellar.Nonce.{NonceStore}
use synapse_stellar.X402.{
  X402Challenge, X402PaymentProof, Payment, PaymentResult, X402Error, rate_limit_exceeded, Times,
  Config, Formats, rate_limit_window_ms, parse_challenge, payment_for, refusal, renew, marked, paid,
  asked, unrefused, parsed, counted, respond,
}
use synapse_stellar.X402.Guards.{State, Answer}

module _ (config : Config) (formats : Formats) (store : NonceStore) (Net E : Type 0)
    (public_key : String) (pay : Payment → Net → Result E PaymentResult × Net)
    (closed_at : ℕ → Net → Option String) where
  abbrev S : Type 0
  S = State config formats store Net E public_key pay closed_at

  abbrev is_limited : Result (X402Error E) X402PaymentProof → Bool
  is_limited (err rate_limit_exceeded) = true
  is_limited _ = false

  -- How many of the calls get past the rate limit, one after the other.
  pub admitted : List (Times × Value) → S → ℕ
  admitted [] t = 0
  admitted ((times, raw) ∷ calls) t =
      let out = respond config formats store Net E public_key pay closed_at times raw t in
      (if is_limited out.0 then 0 else 1) + admitted calls out.1

  abbrev Keeps : S → S → Type 0
  Keeps t t' = (t'.payment_count ≡ t.payment_count) × (t'.window_start ≡ t.window_start)

  marked-Keeps :
      (times : Times) (c : X402Challenge) (r : PaymentResult)
      (out : Option (Unit {0}) × store.Store) (t : S)
      → Keeps t (marked config formats store Net E public_key pay closed_at times c r out t).1
  unfolding marked
  marked-Keeps times c r (none, s) t = (refl, refl)
  marked-Keeps times c r (some _, s) t = (refl, refl)

  paid-Keeps :
      (times : Times) (c : X402Challenge) (out : Result E PaymentResult × Net) (t : S)
      → Keeps t (paid config formats store Net E public_key pay closed_at times c out t).1
  unfolding paid
  paid-Keeps times c (err e, net) t = (refl, refl)
  paid-Keeps times c (ok r, net) t =
      marked-Keeps times c r (store.add t.nonces times.at_add times.at_mark c.nonce)
        (record t { net = net })

  asked-Keeps :
      (times : Times) (c : X402Challenge) (out : Option Bool × store.Store) (t : S)
      → Keeps t (asked config formats store Net E public_key pay closed_at times c out t).1
  unfolding asked
  asked-Keeps times c (none, s) t = (refl, refl)
  asked-Keeps times c (some true, s) t = (refl, refl)
  asked-Keeps times c (some false, s) t =
      paid-Keeps times c (pay (payment_for config formats c) t.net) (record t { nonces = s })

  unrefused-Keeps :
      (times : Times) (c : X402Challenge) (refused : Option (X402Error E)) (t : S)
      → Keeps t (unrefused config formats store Net E public_key pay closed_at times c refused t).1
  unfolding unrefused
  unrefused-Keeps times c (some e) t = (refl, refl)
  unrefused-Keeps times c none t = asked-Keeps times c (store.has t.nonces times.at_has c.nonce) t

  parsed-Keeps :
      (times : Times) (raw : Option X402Challenge) (t : S)
      → Keeps t (parsed config formats store Net E public_key pay closed_at times raw t).1
  unfolding parsed
  parsed-Keeps times none t = (refl, refl)
  parsed-Keeps times (some c) t =
      unrefused-Keeps times c (refusal config formats E public_key c times.at_expiry_check) t

  -- A call is turned away and not counted, or counted while there is room.
  abbrev IsCounted : S → Answer config formats store Net E public_key pay closed_at → Type 0
  IsCounted t out =
      (out.1.window_start ≡ t.window_start)
      × (((is_limited out.0 ≡ true) × (out.1.payment_count ≡ t.payment_count))
          ⊎ ((out.1.payment_count ≡ suc t.payment_count)
              × (t.payment_count < config.max_x402_payments_per_minute)))

  counted-IsCounted :
      (times : Times) (raw : Value) (t : S)
      → IsCounted t (counted config formats store Net E public_key pay closed_at times raw t)
  unfolding counted
  counted-IsCounted times raw t =
      elim (Bool-cases (leb config.max_x402_payments_per_minute t.payment_count)) [
        | inl full ↦ rw full (refl, inl (refl, refl))
        | inr room ↦
            let (count, start) =
              parsed-Keeps times (parse_challenge config formats raw)
                (record t { payment_count = t.payment_count + 1 }) in
            rw room (start, inr (omega (arith, count), ground (arith, room)))
      ]

  respond-IsCounted :
      (times : Times) (raw : Value) (t : S)
      → times.at_start - t.window_start < rate_limit_window_ms
      → IsCounted t (respond config formats store Net E public_key pay closed_at times raw t)
  unfolding respond renew
  respond-IsCounted times raw t h =
      let open_window : leb rate_limit_window_ms (times.at_start - t.window_start) ≡ false =
        ground arith in
      rw open_window (counted-IsCounted times raw t)

  at_most_one : (limited : Bool) → (if limited then 0 else 1) ≤ 1
  at_most_one limited = ground arith

  within :
      (calls : List (Times × Value)) (t : S) (start : ℕ)
      → t.window_start ≡ start
      → All (λ call. call.0.at_start - start < rate_limit_window_ms) calls
      → t.payment_count ≤ config.max_x402_payments_per_minute
      → admitted calls t + t.payment_count ≤ config.max_x402_payments_per_minute
  unfolding admitted
  within [] t start e h k = omega arith
  within ((times, raw) ∷ calls) t start e (h, hs) k =
      let out = respond config formats store Net E public_key pay closed_at times raw t in
      let (kept, kind) = respond-IsCounted times raw t (rw e h) in
      elim kind [
        | inl (limited, same) ↦
            let rest = within calls out.1 start (kept ∙ e) hs (omega arith) in
            rw limited (omega arith)
        | inr (one, room) ↦
            let rest = within calls out.1 start (kept ∙ e) hs (omega arith) in
            let le = at_most_one (is_limited out.0) in omega arith
      ]

  -- Of the calls that start within one window of a minute, no more than `MAX_X402_PAYMENTS_PER_MINUTE`
  -- get past the rate limit, those included that the window has counted before.
  pub admitted-le :
      (calls : List (Times × Value)) (t : S)
      → All (λ call. call.0.at_start - t.window_start < rate_limit_window_ms) calls
      → t.payment_count ≤ config.max_x402_payments_per_minute
      → admitted calls t + t.payment_count ≤ config.max_x402_payments_per_minute
  admitted-le calls t h k = within calls t t.window_start refl h k
