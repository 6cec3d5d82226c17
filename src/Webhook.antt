-- ===== src/Webhook.antt =====
-- backend/webhook.ts. HMAC-SHA256 and the endpoint are parameters, the endpoint as a function of a
-- network state; the backoff of Network is the one that `handleRateLimitResponse` sets.
pub mod Laws
mod Tests
use synapse_stellar.Prelude.{
  ℕ, zero, suc, ◌+◌, ◌-◌, ◌*◌, ◌^◌, Bool, true, false, ◌&&◌, ◌||◌, not, Option, none, some, List,
  [], ◌∷◌, ◌++◌, String, leb, ltb, ◌==◌, string_eq, nat_eq, if◌then◌else◌,
}
use Prim.Native.Char.{Char, code}
use Prim.Native.String.{count}
use synapse_stellar.Prelude.Int.{ℤ}
use synapse_stellar.Prelude.Results.{Result, ok, err}
use synapse_stellar.Payment.Memos.{all_hex}
use synapse_stellar.Network.{BackoffState, Timer, handle_rate_limit_response}

-- The value of a hex digit of either case.
hex_value : Char → ℕ
hex_value c =
    if leb (code c) 57 then code c - 48 else if leb (code c) 70 then code c - 55 else code c - 87

-- `Buffer.from(s, 'hex')` of a text of hex digits, of even length.
pub from_hex : String → List ℕ
unfolding hex_value
from_hex (String.◌∷◌ c (String.◌∷◌ d s)) = (hex_value c * 16 + hex_value d) ∷ from_hex s
from_hex _ = []

-- `timingSafeEqual`, and false for other lengths.
pub same_bytes : List ℕ → List ℕ → Bool
same_bytes [] [] = true
same_bytes (a ∷ more) (b ∷ bs) = let rest = same_bytes more bs in a == b && rest
same_bytes _ _ = false

-- `sign_payload` is a parameter: payload and secret to a hex digest.
pub verify_webhook_signature : (String → String → String) → String → String → String → Bool
unfolding from_hex same_bytes
verify_webhook_signature sign_payload payload sig secret =
    if not (count sig == 64 && all_hex sig)
    then false
    else same_bytes (from_hex (sign_payload payload secret)) (from_hex sig)

pub record HttpResponseLike : Type 0 where
  pub status : Option ℕ
  pub retry_after : Option String

pub record HttpErrorLike : Type 0 where
  pub status : Option ℕ
  pub response : Option HttpResponseLike

-- What is thrown: a number, an object, or anything else.
pub data Thrown : Type 0 where
  number : ℕ → Thrown
  object : HttpErrorLike → Thrown
  other : Thrown

-- `httpErr.response?.status ?? httpErr.status`
abbrev pub error_status : HttpErrorLike → Option ℕ
error_status e = elim e.response [
  | none ↦ e.status
  | some r ↦ elim r.status [ none ↦ e.status | some s ↦ some s ]
]

-- The status that `isRetryableWebhookError` looks at.
abbrev pub status_of : Thrown → Option ℕ
status_of (number n) = some n
status_of (object e) = error_status e
status_of other = none

pub retryable_status : Option ℕ → Bool
retryable_status none = true
retryable_status (some s) =
    if leb 200 s && ltb s 300
    then false
    else if s == 429
    then true
    else if leb 400 s && ltb s 500
    then false
    else if leb 500 s && ltb s 600
    then true
    else true

pub is_retryable_webhook_error : Thrown → Bool
unfolding retryable_status
is_retryable_webhook_error e = retryable_status (status_of e)

abbrev is_rate_limit : Option ℕ → Bool
is_rate_limit none = false
is_rate_limit (some s) = s == 429

abbrev retry_after_of : Option HttpResponseLike → Option String
retry_after_of none = none
retry_after_of (some r) = r.retry_after

abbrev pub Answer : Type 0
Answer = Result Thrown HttpResponseLike

-- What a post throws: its own error, or the one for a status outside of 200 to 299.
abbrev pub bad_status : Option ℕ → Bool
bad_status none = false
bad_status (some s) = ltb s 200 || leb 300 s

pub thrown_by : Answer → Option Thrown
thrown_by (err e) = some e
thrown_by (ok r) =
    if bad_status r.status
    then some (object (record { status = r.status; response = some r }))
    else none

pub data Delivery : Type 0 where
  delivered not_retryable exhausted : Delivery

module _ (Net Task : Type 0) (parse_int : String → Option ℤ) (clock : Net → ℕ)
    (post : String → Option String → Net → Answer × Net) (sleep : ℕ → Net → Net)
    (max_attempts initial_delay_ms : ℕ) where
  -- The state of a dispatch, with the answers so far.
  pub record World : Type 0 where
    pub net : Net
    pub backoff : BackoffState Task
    pub timers : List Timer
    pub answers : List Answer

  rate_limited : Option String → World → World
  rate_limited header w =
      let (t, b) =
        handle_rate_limit_response Task parse_int header (clock w.net) (clock w.net) w.backoff in
      record w { backoff = b; timers = t ∷ w.timers }

  -- The part of the `catch` block for a 429, which only an object can be.
  pub limited : Thrown → World → World
  unfolding rate_limited
  limited (object e) w =
      if is_rate_limit (error_status e) then rate_limited (retry_after_of e.response) w else w
  limited _ w = w

  pub slept : ℕ → World → World
  slept attempt w =
      if ltb attempt max_attempts
      then record w { net = sleep (initial_delay_ms * 2 ^ (attempt - 1)) w.net }
      else w

  -- The end of an attempt: `none` is another round.
  pub caught : ℕ → Option Thrown → World → Option Delivery × World
  unfolding limited slept is_retryable_webhook_error
  caught attempt none w = (some delivered, w)
  caught attempt (some e) w =
      if not (is_retryable_webhook_error e)
      then (some not_retryable, limited e w)
      else (none, slept attempt (limited e w))

  pub attempted : ℕ → Answer × Net → World → Option Delivery × World
  unfolding caught thrown_by
  attempted attempt (answer, net) w =
      caught attempt (thrown_by answer) (record w { net = net; answers = w.answers ++ answer ∷ [] })

  -- The loop, with the number of the attempts that are left.
  unfoldable pub dispatch_from : ℕ → ℕ → String → Option String → World → Delivery × World
  unfolding attempted
  dispatch_from zero attempt body signature w = (exhausted, w)
  dispatch_from (suc left) attempt body signature w =
      let out = attempted attempt (post body signature w.net) w in
      let rest = dispatch_from left (suc attempt) body signature (out.1) in
      elim (out.0) [ some d ↦ (d, out.1) | none ↦ rest ]

  pub dispatch_webhook :
      (url secret body : String) → (String → String → String) → World → Option Delivery × World
  unfolding dispatch_from
  dispatch_webhook url secret body sign_payload w =
      if url == ""
      then (none, w)
      else let signature = if secret == "" then none else some (sign_payload body secret) in
        let (d, w') = dispatch_from max_attempts 1 body signature w in (some d, w')
