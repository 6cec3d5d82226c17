-- ===== src/Webhook/Laws.antt =====
-- The attempts of `dispatchWebhook`, and the signatures, of backend/webhook.ts.
use synapse_stellar.Prelude.{
  ℕ, zero, suc, ◌≤◌, ◌<◌, ◌≡◌, ◌≢◌, refl, sym, ap, subst, ◌∙◌, ◌⊎◌, inl, inr, true, false, ◌||◌,
  Option, none, some, List, [], ◌∷◌, ◌++◌, append_assoc, append-nil, String, length, All, leb, ltb,
  string_eq, nat_eq, Bool-cases, Option-cases, arith,
}
use Prim.Native.String.{count}
use synapse_stellar.Prelude.Int.{ℤ}
use synapse_stellar.Prelude.Results.{ok, err}
use synapse_stellar.Payment.Memos.{all_hex}
use synapse_stellar.Webhook.{
  same_bytes, from_hex, verify_webhook_signature, number, object, other, Thrown, status_of,
  retryable_status, is_retryable_webhook_error, Answer, thrown_by, Delivery, delivered,
  not_retryable, exhausted, World, limited, slept, caught, attempted, dispatch_from,
}

same_bytes_refl : (bs : List ℕ) → same_bytes bs bs ≡ true
unfolding same_bytes
same_bytes_refl [] = refl
same_bytes_refl (b ∷ bs) = ground (arith, same_bytes_refl bs)

-- A signature that `signPayload` makes is accepted: a SHA-256 digest has 64 hex digits.
pub verify_webhook_signature-sign_payload :
    (sign_payload : String → String → String)
    → ((payload secret : String)
        → (count (sign_payload payload secret) ≡ 64)
          × (all_hex (sign_payload payload secret) ≡ true))
    → (payload secret : String)
    → verify_webhook_signature sign_payload payload (sign_payload payload secret) secret ≡ true
unfolding verify_webhook_signature
verify_webhook_signature-sign_payload sign_payload digest payload secret =
    let (long, hex) = digest payload secret in
    rw (long, hex) (same_bytes_refl (from_hex (sign_payload payload secret)))

-- Statuses that call for another attempt: none, or one outside of 200 to 299 and of 400 to 499, or 429.
abbrev pub CallsAgain : Option ℕ → Type 0
CallsAgain none = Unit
CallsAgain (some s) = ((s < 200) ⊎ (300 ≤ s)) × ((s < 400) ⊎ (500 ≤ s) ⊎ (s ≡ 429))

abbrev pub IsFinal : Option ℕ → Type 0
IsFinal none = ⊥
IsFinal (some s) = ((200 ≤ s) × (s < 300)) ⊎ ((400 ≤ s) × (s < 500) × (s ≢ 429))

-- An answer that is taken as a success.
abbrev pub Accepts : Answer → Type 0
Accepts (err e) = ⊥
Accepts (ok r) = elim r.status [ none ↦ Unit | some s ↦ (200 ≤ s) × (s < 300) ]

abbrev pub Fails : (Option ℕ → Type 0) → Answer → Type 0
Fails P (err e) = P (status_of e)
Fails P (ok r) = elim r.status [ none ↦ ⊥ | some s ↦ ((s < 200) ⊎ (300 ≤ s)) × P (some s) ]

calls_again : (e : Thrown) → is_retryable_webhook_error e ≡ true → CallsAgain (status_of e)
unfolding is_retryable_webhook_error
calls_again e = go (status_of e)
  where
    go : (s : Option ℕ) → retryable_status s ≡ true → CallsAgain s
    go none h = tt
    go (some s) h = ground (arith, h)

is_final : (e : Thrown) → is_retryable_webhook_error e ≡ false → IsFinal (status_of e)
unfolding is_retryable_webhook_error
is_final e = go (status_of e)
  where
    go : (s : Option ℕ) → retryable_status s ≡ false → IsFinal s
    go none = λ h. cc
    go (some s) = λ h. ground (arith, h)

accepted : (a : Answer) → thrown_by a ≡ none → Accepts a
unfolding thrown_by
accepted (err e) h = cc
accepted (ok r) h = go r.status r.retry_after h
  where
    go :
        (status : Option ℕ) (retry_after : Option String)
        → thrown_by (ok (record { status = status; retry_after = retry_after })) ≡ none
        → Accepts (ok (record { status = status; retry_after = retry_after }))
    go none header = λ h. tt
    go (some s) header = elim (Bool-cases (ltb s 200 || leb 300 s)) [
      | inl bad ↦ rw bad (λ h. cc)
      | inr good ↦ λ h. ground (arith, good)
    ]

thrown :
    (P : Option ℕ → Type 0) (a : Answer) (e : Thrown)
    → thrown_by a ≡ some e
    → P (status_of e)
    → Fails P a
unfolding thrown_by
thrown P (err e') e h p = let same : e' ≡ e = cc in rw same p
thrown P (ok r) e h p = go r.status r.retry_after h
  where
    go :
        (status : Option ℕ) (retry_after : Option String)
        → thrown_by (ok (record { status = status; retry_after = retry_after })) ≡ some e
        → Fails P (ok (record { status = status; retry_after = retry_after }))
    go none header = λ h. cc
    go (some s) header = elim (Bool-cases (ltb s 200 || leb 300 s)) [
      | inr good ↦ rw good (λ h. cc)
      | inl bad ↦ rw bad λ h.
          let same : object (record {
            status = some s;
            response = some (record { status = some s; retry_after = header });
          })
              ≡ e =
            cc in
          (ground (arith, bad), subst (λ x. P (status_of x)) (sym same) p)
    ]

-- What the answers of at most `left` attempts come to.
abbrev pub Outcome : Delivery → ℕ → List Answer → Type 0
Outcome delivered left answers =
    (failures : List Answer) × (last : Answer) × (answers ≡ failures ++ last ∷ [])
    × All (Fails CallsAgain) failures
    × Accepts last
    × (length failures < left)
Outcome not_retryable left answers =
    (failures : List Answer) × (last : Answer) × (answers ≡ failures ++ last ∷ [])
    × All (Fails CallsAgain) failures
    × Fails IsFinal last
    × (length failures < left)
Outcome exhausted left answers = All (Fails CallsAgain) answers × (length answers ≡ left)

Outcome-cons :
    (d : Delivery) (left : ℕ) (a : Answer) (answers : List Answer)
    → Fails CallsAgain a
    → Outcome d left answers
    → Outcome d (suc left) (a ∷ answers)
Outcome-cons delivered left a answers f (failures, last, eq, again, good, few) =
    (a ∷ failures, last, ap (λ l. a ∷ l) eq, (f, again), good, omega (arith, few))
Outcome-cons not_retryable left a answers f (failures, last, eq, again, bad, few) =
    (a ∷ failures, last, ap (λ l. a ∷ l) eq, (f, again), bad, omega (arith, few))
Outcome-cons exhausted left a answers f (again, all) = ((f, again), omega (arith, all))

module _ (Net Task : Type 0) (parse_int : String → Option ℤ) (clock : Net → ℕ)
    (post : String → Option String → Net → Answer × Net) (sleep : ℕ → Net → Net)
    (max_attempts initial_delay_ms : ℕ) where
  abbrev W : Type 0
  W = World Net Task parse_int clock post sleep max_attempts initial_delay_ms

  abbrev dispatch : ℕ → ℕ → String → Option String → W → Delivery × W
  dispatch = dispatch_from Net Task parse_int clock post sleep max_attempts initial_delay_ms

  abbrev caught_run : ℕ → Option Thrown → W → Option Delivery × W
  caught_run = caught Net Task parse_int clock post sleep max_attempts initial_delay_ms

  limited_answers :
      (e : Thrown) (w : W)
      → (limited Net Task parse_int clock post sleep max_attempts initial_delay_ms e w).answers
        ≡ w.answers
  unfolding limited
  limited_answers (number n) w = refl
  limited_answers other w = refl
  limited_answers (object e) w = ground arith

  slept_answers :
      (attempt : ℕ) (w : W)
      → (slept Net Task parse_int clock post sleep max_attempts initial_delay_ms attempt w).answers
        ≡ w.answers
  unfolding slept
  slept_answers attempt w = ground arith

  caught_answers :
      (attempt : ℕ) (o : Option Thrown) (w : W) → (caught_run attempt o w).1.answers ≡ w.answers
  unfolding caught
  caught_answers attempt none w = refl
  caught_answers attempt (some e) w = elim (Bool-cases (is_retryable_webhook_error e)) [
    | inl again ↦ rw again (
        slept_answers attempt
          (limited Net Task parse_int clock post sleep max_attempts initial_delay_ms e w)
        ∙ limited_answers e w)
    | inr last ↦ rw last (limited_answers e w)
  ]

  caught_none :
      (attempt : ℕ) (a : Answer) (w : W)
      → (caught_run attempt (thrown_by a) w).0 ≡ none
      → Fails CallsAgain a
  unfolding caught
  caught_none attempt a w = go (thrown_by a) refl
    where
      go :
          (o : Option Thrown)
          → thrown_by a ≡ o
          → (caught_run attempt o w).0 ≡ none
          → Fails CallsAgain a
      go none q = λ h. cc
      go (some e) q = elim (Bool-cases (is_retryable_webhook_error e)) [
        | inl again ↦ λ h. thrown CallsAgain a e q (calls_again e again)
        | inr last ↦ rw last (λ h. cc)
      ]

  caught_some :
      (attempt left : ℕ) (a : Answer) (w : W) (d : Delivery)
      → (caught_run attempt (thrown_by a) w).0 ≡ some d
      → Outcome d (suc left) (a ∷ [])
  unfolding caught
  caught_some attempt left a w d = go (thrown_by a) refl
    where
      ended :
          (d' : Delivery) → d' ≡ d → Outcome d' (suc left) (a ∷ []) → Outcome d (suc left) (a ∷ [])
      ended d' q o = rw (← q) o

      go :
          (o : Option Thrown)
          → thrown_by a ≡ o
          → (caught_run attempt o w).0 ≡ some d
          → Outcome d (suc left) (a ∷ [])
      go none q = λ h. ended delivered (cc) ([], a, refl, tt, accepted a q, omega arith)
      go (some e) q = elim (Bool-cases (is_retryable_webhook_error e)) [
        | inl again ↦ rw again (λ h. cc)
        | inr last ↦ rw last (λ h.
            ended not_retryable (cc)
              ([], a, refl, tt, thrown IsFinal a e q (is_final e last), omega arith))
      ]

  -- Of at most so many attempts, the dispatch makes as many as it needs: each answer but the last calls
  -- for another attempt, and the last is a success if it has delivered, final if it has given up, and
  -- calls for another attempt too if the attempts are exhausted, which are then used up.
  pub dispatch_from-Outcome :
      (left attempt : ℕ) (body : String) (signature : Option String) (w : W)
      → (new : List Answer) × ((dispatch left attempt body signature w).1.answers
          ≡ w.answers ++ new)
        × Outcome (dispatch left attempt body signature w).0 left new
  unfolding dispatch_from attempted
  dispatch_from-Outcome zero attempt body signature w = ([], sym (append-nil w.answers), (tt, refl))
  dispatch_from-Outcome (suc left) attempt body signature w =
      let a = (post body signature w.net).0 in
      let asked = record w { net = (post body signature w.net).1; answers = w.answers ++ a ∷ [] } in
      let out = caught_run attempt (thrown_by a) asked in
      let kept = caught_answers attempt (thrown_by a) asked in
      elim (Option-cases out.0) [
        | inr (d, ends) ↦
            rw (ends, dispatch_from) (a ∷ [], kept, caught_some attempt left a asked d ends)
        | inl again ↦
            let (new, eq, outcome) =
              dispatch_from-Outcome left (suc attempt) body signature out.1 in
            rw (again, dispatch_from)
              (
                a ∷ new,
                eq ∙ ap (λ l. l ++ new) kept ∙ append_assoc w.answers (a ∷ []) new,
                Outcome-cons (dispatch left (suc attempt) body signature out.1).0 left a new
                    (caught_none attempt a asked again) outcome,
              )
      ]
