-- ===== src/X402/Tests.antt =====
-- Runs of `respond` and `verify` of backend/tools/X402PaymentTool.ts.
use synapse_stellar.Prelude.{
  ℕ, ◌+◌, ◌-◌, ◌≤◌, ◌≡◌, refl, ◌↔◌, inr, true, Option, none, some, List, [], ◌∷◌, String, ◌==◌,
  string_eq, arith, if◌then◌else◌,
}
use synapse_stellar.Prelude.Results.{Result, ok}
use synapse_stellar.Values.{Value, object, field, end, text, property, get}
use synapse_stellar.Nonce.{NonceStore, some_ne_none, live, is_some, or_else}
use synapse_stellar.Nonce.Replay.{Runs}
use synapse_stellar.X402.{
  X402Challenge, X402PaymentProof, Payment, PaymentResult, Times, Config, Formats, parse_challenge,
  payment_for, refusal, is_trusted, respond, renew, counted, parsed, unrefused, asked, paid, marked,
  proof_of,
}
use synapse_stellar.X402.Guards.{State, Answer, IsAcceptable, Asks, IsSettled, respond_ok}
use synapse_stellar.X402.Replay.{IsRefused, respond_twice}
use synapse_stellar.X402.Limit.{admitted, admitted-le}
use synapse_stellar.X402.Verify.{Operation, IsReported, Shows, verify, verify_iff, verify-respond}

same_answer : {A : Type 0} {a b : A} → some a ≡ some b → b ≡ a
same_answer e = cc

-- A store that is the memory itself.
abbrev memory : NonceStore
memory = record {
  Store = String → Option ℕ;
  ttl_ms = 1000;
  used = λ s. s;
  has = λ s now nonce. (some (is_some (live (now - 1000) (s nonce))), s);
  add = λ s now later nonce. (
    some tt,
    λ m. if nonce == m then or_else (live (now - 1000) (s m)) later else live (now - 1000) (s m),
  );
  prune = λ s now ttl. (some tt, s);
  has_answer = λ s now nonce found e. same_answer e;
  has_used = λ s now nonce m. inr refl;
  add_used = λ s now later nonce m e. refl;
  add_failed = λ s now later nonce m e. absurd (some_ne_none e);
  prune_used = λ s now ttl m. inr refl;
}

abbrev config : Config
config = record {
  max_x402_payments_per_minute = 2;
  x402_asset_code = "XLM";
  x402_asset_issuer = "";
  allowed_x402_origins = some ("shop" ∷ []);
  stellar_network = "testnet";
}

abbrev formats : Formats
formats = record {
  is_url = λ s. true;
  is_uuid = λ s. true;
  is_datetime = λ s. true;
  hostname = λ s. "shop";
  date = λ s. 5000;
  sha256_28 = λ s. s;
}

abbrev recipient : String
recipient = "GBBBBBBBBBBBBBBBBBBBBBBBBBBBBBBBBBBBBBBBBBBBBBBBBBBBBBBB"

abbrev raw : Value
raw = object (
    field "resource" (text "https://shop/a") (
      field "amount" (text "1.0000000") (
        field "payTo" (text recipient)
          (field "nonce" (text "n") (field "expiresAt" (text "later") end)))))

abbrev challenge : X402Challenge
challenge = record {
  resource = "https://shop/a";
  amount = "1.0000000";
  asset_code = "XLM";
  asset_issuer = "";
  pay_to = recipient;
  nonce = "n";
  expires_at = "later";
}

parses : parse_challenge config formats raw ≡ some challenge
unfolding parse_challenge property get
parses = refl

abbrev times : ℕ → Times
times now = record {
  at_start = now;
  at_expiry_check = now;
  at_has = now;
  at_add = now;
  at_mark = now;
  at_prune = now;
  at_end = "now";
}

-- The network counts the payments.
abbrev pay : Payment → ℕ → Result String PaymentResult × ℕ
pay q n = (ok (record { tx_hash = "hash"; ledger = n }), n + 1)

abbrev closed_at : ℕ → ℕ → Option String
closed_at ledger n = none

abbrev S : Type 0
S = State config formats memory ℕ String "GA" pay closed_at

abbrev answer : Times → Value → S → Answer config formats memory ℕ String "GA" pay closed_at
answer = respond config formats memory ℕ String "GA" pay closed_at

abbrev fresh : S
fresh = record { nonces = λ m. none; payment_count = 0; window_start = 0; net = 0 }

abbrev proof : X402PaymentProof
proof = record {
  network = "testnet";
  tx_hash = "hash";
  nonce = "n";
  payer = "GA";
  signed_at = "now";
}

answers : (answer (times 100) raw fresh).0 ≡ ok proof
unfolding respond renew counted parsed unrefused asked paid marked refusal is_trusted
    parse_challenge property get proof_of
answers = refl

respond_ok_example :
    (c : X402Challenge) × (parse_challenge config formats raw ≡ some c)
    × IsAcceptable config formats memory ℕ String "GA" pay closed_at c 100
    × (q : Payment) × Asks config formats memory ℕ String "GA" pay closed_at c q
    × IsSettled config formats memory ℕ String "GA" pay closed_at
        (times 100)
        c
        q
        (memory.has fresh.nonces 100 c.nonce)
        0
        (answer (times 100) raw fresh)
respond_ok_example =
    respond_ok config formats memory ℕ String "GA" pay closed_at (times 100) raw fresh proof answers

abbrev after : S
after = (answer (times 100) raw fresh).1

respond_twice_example :
    IsRefused config formats memory ℕ String "GA" pay closed_at after (answer (times 900) raw after)
respond_twice_example =
    respond_twice config formats memory ℕ String "GA" pay closed_at (times 100) (times 900) raw raw
      challenge challenge fresh after proof (omega arith) (omega arith) (omega arith) parses parses
      refl answers Runs.here

admitted-le_example :
    admitted config formats memory ℕ String "GA" pay closed_at
        ((times 100, raw) ∷ (times 200, raw) ∷ (times 300, raw) ∷ [])
        fresh
      + 0
    ≤ 2
admitted-le_example =
    admitted-le config formats memory ℕ String "GA" pay closed_at
      ((times 100, raw) ∷ (times 200, raw) ∷ (times 300, raw) ∷ []) fresh (omega arith)
      (omega arith)

abbrev reported : Operation
reported = record {
  to = some recipient;
  destination = none;
  amount = some "1.0000000";
  asset_type = some "native";
  asset_code = none;
  asset = none;
  from = some "GA";
  source_account = none;
}

verify_iff_example :
    (verify String ℕ (λ s. s) (λ h n. ok (some "n")) (λ h n. ok (reported ∷ [])) proof challenge 1
      ≡ ok tt)
    ↔ ((memo : Option String) × (op : Operation) × (rest : List Operation) × (◌≡◌
          {A = Result String (Option String)}
          (ok (some "n"))
          (ok memo))
        × (◌≡◌ {A = Result String (List Operation)} (ok (reported ∷ [])) (ok (op ∷ rest)))
        × Shows String (λ s. s) proof challenge memo op)
verify_iff_example =
    verify_iff String ℕ (λ s. s) (λ h n. ok (some "n")) (λ h n. ok (reported ∷ [])) proof challenge
      1

is_reported : IsReported (λ a. a) "GA" (payment_for config formats challenge) (some "n") reported
is_reported = record {
  memo_kept = refl;
  recipient = refl;
  amount_shown = refl;
  payer = refl;
  native = λ e. refl;
  issued = λ h. absurd (h refl);
}

verify-respond_example :
    (verify String ℕ (λ s. s) (λ h n. ok (some "n")) (λ h n. ok (reported ∷ [])) proof challenge 1
      ≡ ok tt)
    ↔ (◌≡◌ {A = String} "1.0000000" "1.0000000")
verify-respond_example =
    verify-respond config formats memory ℕ String "GA" pay closed_at (λ h n. ok (some "n"))
      (λ h n. ok (reported ∷ [])) (λ a. a) (times 100) raw challenge fresh proof (some "n") reported
      [] 1 (λ e. cc) (λ e. cc) (λ e. cc) parses answers refl refl is_reported
