-- ===== src/Webhook/Tests.antt =====
-- Runs of backend/webhook.ts.
use synapse_stellar.Prelude.{
  ℕ, zero, suc, ◌≡◌, refl, Option, none, some, List, [], ◌++◌, String, true,
}
use Prim.Native.String.{count}
use synapse_stellar.Prelude.Int.{ℤ, pos}
use synapse_stellar.Prelude.Results.{ok, err}
use synapse_stellar.Payment.Memos.{all_hex}
use synapse_stellar.Network.{global_backoff}
use synapse_stellar.Webhook.{
  HttpResponseLike, HttpErrorLike, object, Answer, Delivery, delivered, World, dispatch_from,
}
use synapse_stellar.Webhook.Laws.{Outcome, dispatch_from-Outcome}

abbrev sign_payload : String → String → String
sign_payload payload secret = "0123456789abcdef0123456789abcdef0123456789abcdef0123456789abcdef"

digest :
    (payload secret : String)
    → (count (sign_payload payload secret) ≡ 64) × (all_hex (sign_payload payload secret) ≡ true)
unfolding all_hex
digest payload secret = (refl, refl)

abbrev failing : ℕ → HttpErrorLike
failing status = record {
  status = none;
  response = some (record { status = some status; retry_after = some "7" });
}

abbrev created : HttpResponseLike
created = record { status = some 201; retry_after = none }

-- Down, then busy, then taken.
abbrev post : String → Option String → ℕ → Answer × ℕ
post body signature zero = (err (object (failing 503)), 1)
post body signature (suc zero) = (err (object (failing 429)), 2)
post body signature (suc (suc k)) = (ok created, 3)

abbrev parse_int : String → Option ℤ
parse_int s = some (pos 7)

abbrev sleep : ℕ → ℕ → ℕ
sleep delay net = net

abbrev clock : ℕ → ℕ
clock net = 1000

abbrev W : Type 0
W = World ℕ ℕ parse_int clock post sleep 3 1000

abbrev idle : W
idle = record { net = 0; backoff = global_backoff ℕ; timers = []; answers = [] }

abbrev dispatch : W → Delivery × W
dispatch w = dispatch_from ℕ ℕ parse_int clock post sleep 3 1000 3 1 "{}" none w

third_time : (dispatch idle).0 ≡ delivered
unfolding dispatch_from
third_time = refl

dispatch_from-Outcome_example :
    (new : List Answer) × ((dispatch idle).1.answers ≡ [] ++ new) × Outcome (dispatch idle).0 3 new
dispatch_from-Outcome_example =
    dispatch_from-Outcome ℕ ℕ parse_int clock post sleep 3 1000 3 1 "{}" none idle
