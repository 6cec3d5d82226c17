-- ===== src/Nonce/InMemory.antt =====
-- `InMemoryNonceStore` of backend/nonce_store.ts.
use synapse_stellar.Prelude.{
  ℕ, ◌-◌, ◌≡◌, inl, Bool, Option, some, String, ltb, not, ◌==◌, string_eq, eq_iff, arith,
  if◌then◌else◌,
}
use synapse_stellar.Prelude.Maps
use synapse_stellar.Prelude.Maps.{Map, get-set, get-retain}
use synapse_stellar.Nonce.{NonceStore, some_ne_none, live, is_some, or_else}

abbrev pub InMemoryNonceStore : Type 0
InMemoryNonceStore = Map ℕ

pub prune : InMemoryNonceStore → ℕ → ℕ → InMemoryNonceStore
prune nonces now ttl_ms = Maps.retain (λ ts. not (ltb ts (now - ttl_ms))) nonces

pub has : ℕ → InMemoryNonceStore → ℕ → String → Bool × InMemoryNonceStore
has ttl_ms nonces now nonce =
    let pruned = prune nonces now ttl_ms in (is_some (Maps.get pruned nonce), pruned)

pub add : ℕ → InMemoryNonceStore → ℕ → ℕ → String → InMemoryNonceStore
add ttl_ms nonces now later nonce =
    let pruned = prune nonces now ttl_ms in
    if is_some (Maps.get pruned nonce) then pruned else Maps.set pruned nonce later

pub get-prune :
    (nonces : InMemoryNonceStore) (now ttl_ms : ℕ) (m : String)
    → Maps.get (prune nonces now ttl_ms) m ≡ live (now - ttl_ms) (Maps.get nonces m)
unfolding prune
get-prune nonces now ttl_ms m = get-retain (λ ts. not (ltb ts (now - ttl_ms))) nonces m

-- `add` marks the nonce with the time of the call, unless it is marked already, and changes nothing
-- else but for what has expired.
pub get-add :
    (ttl_ms : ℕ) (nonces : InMemoryNonceStore) (now later : ℕ) (nonce m : String)
    → Maps.get (add ttl_ms nonces now later nonce) m ≡ (
        if nonce == m
        then or_else (live (now - ttl_ms) (Maps.get nonces m)) later
        else live (now - ttl_ms) (Maps.get nonces m))
unfolding add
get-add ttl_ms nonces now later nonce m = ground (
  arith,
  eq_iff nonce m,
  get-prune nonces now ttl_ms nonce,
  get-prune nonces now ttl_ms m,
  get-set (prune nonces now ttl_ms) nonce later m,
)

-- `has` says whether the nonce is on the books and not expired.
pub has_answer :
    (ttl_ms : ℕ) (nonces : InMemoryNonceStore) (now : ℕ) (nonce : String) (found : Bool)
    → ◌≡◌ {A = Option Bool} (some (has ttl_ms nonces now nonce).0) (some found)
    → found ≡ is_some (live (now - ttl_ms) (Maps.get nonces nonce))
unfolding has
has_answer ttl_ms nonces now nonce found e = cc (get-prune nonces now ttl_ms nonce)

pub get-has :
    (ttl_ms : ℕ) (nonces : InMemoryNonceStore) (now : ℕ) (nonce m : String)
    → Maps.get (has ttl_ms nonces now nonce).1 m ≡ live (now - ttl_ms) (Maps.get nonces m)
unfolding has
get-has ttl_ms nonces now nonce m = get-prune nonces now ttl_ms m

-- The contract is met, and no call rejects.
abbrev pub in_memory : ℕ → NonceStore
in_memory ttl_ms = record {
  Store = InMemoryNonceStore;
  ttl_ms = ttl_ms;
  used = Maps.get;
  has = λ s now nonce. (some (has ttl_ms s now nonce).0, (has ttl_ms s now nonce).1);
  add = λ s now later nonce. (some tt, add ttl_ms s now later nonce);
  prune = λ s now ttl. (some tt, prune s now ttl);
  has_answer = has_answer ttl_ms;
  has_used = λ s now nonce m. inl (get-has ttl_ms s now nonce m);
  add_used = λ s now later nonce m e. get-add ttl_ms s now later nonce m;
  add_failed = λ s now later nonce m e. inl (absurd (some_ne_none e));
  prune_used = λ s now ttl m. inl (get-prune s now ttl m);
}
