-- ===== src/X402/Replay.antt =====
-- One payment for one nonce: `respond` of backend/tools/X402PaymentTool.ts over time.
use synapse_stellar.Prelude.{
  ℕ, ◌+◌, ◌-◌, ◌≤◌, ◌≡◌, ◌≢◌, refl, sym, ◌∙◌, ◌⊎◌, inl, inr, Bool, true, false, Option, none, some,
  String, leb, arith, Bool-cases,
}
use synapse_stellar.Prelude.Results.{Result, ok}
use synapse_stellar.Values.{Value}
use synapse_stellar.Nonce.{NonceStore, max_nonce_ttl_ms, live, is_some}
use synapse_stellar.Nonce.Replay.{Runs, has-add}
use synapse_stellar.X402.{
  X402Challenge, X402PaymentProof, Payment, PaymentResult, X402Error, Times, Config, Formats,
  parse_challenge, refusal, renew, asked, unrefused, parsed, counted, respond,
}
use synapse_stellar.X402.Guards.{State, Answer, IsSettled, respond_ok, renew_kept}

-- What has expired, or was never there, is not there later.
stays_gone :
    (cutoff cutoff' : ℕ) (before after : Option ℕ)
    → cutoff ≤ cutoff'
    → is_some (live cutoff before) ≡ false
    → (after ≡ live cutoff before) ⊎ (after ≡ before)
    → live cutoff' after ≡ none
stays_gone cutoff cutoff' none after h e (inl p) = rw p refl
stays_gone cutoff cutoff' none after h e (inr p) = rw p refl
stays_gone cutoff cutoff' (some u) after h e (inl p) = rw p (ground arith)
stays_gone cutoff cutoff' (some u) after h e (inr p) = rw p (ground arith)

module _ (store : NonceStore) where
  Runs_trans :
      {u : ℕ} {s t v : store.Store} → Runs store u s t → Runs store u t v → Runs store u s v
  Runs_trans r Runs.here = r
  Runs_trans r (Runs.asked now nonce q h) = Runs.asked now nonce (Runs_trans r q) h
  Runs_trans r (Runs.added now later nonce q h) = Runs.added now later nonce (Runs_trans r q) h
  Runs_trans r (Runs.pruned now ttl q h) = Runs.pruned now ttl (Runs_trans r q) h

  fresh_at_add :
      (s : store.Store) (now now' : ℕ) (nonce : String)
      → now ≤ now'
      → (store.has s now nonce).0 ≡ some false
      → live (now' - store.ttl_ms) (store.used (store.has s now nonce).1 nonce) ≡ none
  fresh_at_add s now now' nonce h e =
      stays_gone (now - store.ttl_ms) (now' - store.ttl_ms) (store.used s nonce)
        (store.used (store.has s now nonce).1 nonce) (omega arith)
        (sym (store.has_answer s now nonce false e)) (store.has_used s now nonce nonce)

module _ (config : Config) (formats : Formats) (store : NonceStore) (Net E : Type 0)
    (public_key : String) (pay : Payment → Net → Result E PaymentResult × Net)
    (closed_at : ℕ → Net → Option String) where
  -- No payment is made, and no proof is given.
  abbrev pub IsRefused :
      State config formats store Net E public_key pay closed_at
      → Answer config formats store Net E public_key pay closed_at
      → Type 0
  IsRefused before out = (out.1.net ≡ before.net) × ((p : X402PaymentProof) → out.0 ≢ ok p)

  asked-IsRefused :
      (times : Times) (c : X402Challenge) (had : Option Bool × store.Store)
      (t : State config formats store Net E public_key pay closed_at)
      → had.0 ≢ some false
      → IsRefused t (asked config formats store Net E public_key pay closed_at times c had t)
  unfolding asked
  asked-IsRefused times c (none, s) t h = (refl, λ p e. cc)
  asked-IsRefused times c (some true, s) t h = (refl, λ p e. cc)
  asked-IsRefused times c (some false, s) t h = absurd (h refl)

  unrefused-IsRefused :
      (times : Times) (c : X402Challenge) (refused : Option (X402Error E))
      (t : State config formats store Net E public_key pay closed_at)
      → (store.has t.nonces times.at_has c.nonce).0 ≢ some false
      → IsRefused t
          (unrefused config formats store Net E public_key pay closed_at times c refused t)
  unfolding unrefused
  unrefused-IsRefused times c (some e) t h = (refl, λ p e. cc)
  unrefused-IsRefused times c none t h =
      asked-IsRefused times c (store.has t.nonces times.at_has c.nonce) t h

  counted-IsRefused :
      (times : Times) (raw : Value) (c : X402Challenge)
      (t : State config formats store Net E public_key pay closed_at)
      → parse_challenge config formats raw ≡ some c
      → (store.has t.nonces times.at_has c.nonce).0 ≢ some false
      → IsRefused t (counted config formats store Net E public_key pay closed_at times raw t)
  unfolding counted parsed
  counted-IsRefused times raw c t e h =
      elim (Bool-cases (leb config.max_x402_payments_per_minute t.payment_count)) [
        | inl full ↦ rw full (refl, λ p e. cc)
        | inr room ↦
            rw (room, e)
              (unrefused-IsRefused times c
                (refusal config formats E public_key c times.at_expiry_check)
                (record t { payment_count = t.payment_count + 1 }) h)
      ]

  respond-IsRefused :
      (times : Times) (raw : Value) (c : X402Challenge)
      (t : State config formats store Net E public_key pay closed_at)
      → parse_challenge config formats raw ≡ some c
      → (store.has t.nonces times.at_has c.nonce).0 ≢ some false
      → IsRefused t (respond config formats store Net E public_key pay closed_at times raw t)
  unfolding respond
  respond-IsRefused times raw c t e h =
      let t' = renew config formats store Net E public_key pay closed_at times.at_start t in
      let (nonces, net) =
        renew_kept config formats store Net E public_key pay closed_at times.at_start t in
      let known : (store.has t'.nonces times.at_has c.nonce).0 ≢ some false = rw nonces h in
      let (kept, refused) = counted-IsRefused times raw c t' e known in (kept ∙ net, refused)

  -- A nonce is paid for once. After a `respond` that gave a proof for a challenge, and whatever calls
  -- of the store come in between, a `respond` to a challenge with the same nonce makes no payment
  -- and gives no proof, until the cutoff of a call passes the time at which the first one marked
  -- the nonce. Within the first call the clock does not run back, nor by more than `MAX_NONCE_TTL_MS`
  -- between marking and pruning.
  pub respond_twice :
      (times times' : Times) (raw raw' : Value) (c c' : X402Challenge)
      (t t' : State config formats store Net E public_key pay closed_at) (p : X402PaymentProof)
      → times.at_has ≤ times.at_add
      → times.at_prune - max_nonce_ttl_ms ≤ times.at_mark
      → times'.at_has - store.ttl_ms ≤ times.at_mark
      → parse_challenge config formats raw ≡ some c
      → parse_challenge config formats raw' ≡ some c'
      → c'.nonce ≡ c.nonce
      → (respond config formats store Net E public_key pay closed_at times raw t).0 ≡ ok p
      → Runs store times.at_mark
          (respond config formats store Net E public_key pay closed_at times raw t).1.nonces
          t'.nonces
      → IsRefused t' (respond config formats store Net E public_key pay closed_at times' raw' t')
  respond_twice times times' raw raw' c c' t t' p h k l e e' same paid_first between =
      let (d, e'', _, q, _, settled) =
        respond_ok config formats store Net E public_key pay closed_at times raw t p paid_first in
      let d-nonce : d.nonce ≡ c.nonce = cc in
      respond-IsRefused times' raw' c' t' e' (known d q settled (same ∙ sym d-nonce))
    where
      known :
          (d : X402Challenge) (q : Payment)
          → IsSettled config formats store Net E public_key pay closed_at times d q
              (store.has t.nonces times.at_has d.nonce)
              t.net
              (respond config formats store Net E public_key pay closed_at times raw t)
          → c'.nonce ≡ d.nonce
          → (store.has t'.nonces times'.at_has c'.nonce).0 ≢ some false
      known d q settled n answer =
          let s = (store.has t.nonces times.at_has d.nonce).1 in
          let after : Runs store times.at_mark (store.add s times.at_add times.at_mark d.nonce).1
              t'.nonces =
            Runs_trans store (Runs.pruned times.at_prune max_nonce_ttl_ms Runs.here k)
              (rw settled.nonces_left at between) in
          let found : false ≡ true =
            has-add store s t'.nonces times.at_add times.at_mark times'.at_has d.nonce false
              (fresh_at_add store t.nonces times.at_has times.at_add d.nonce h settled.fresh)
              settled.added after l (rw n at answer) in
          cc
