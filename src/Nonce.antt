-- ===== src/Nonce.antt =====
-- backend/nonce_store.ts. The clock is an argument: `now` is the reading that `prune` makes, `later`
-- the one that `add` makes after it. A call that rejects returns `none`, with the store that it leaves.
pub mod InMemory
pub mod Sqlite
pub mod Replay
mod Tests
use synapse_stellar.Prelude.{
  ℕ, ◌-◌, ◌*◌, ◌≤◌, ◌≡◌, ◌⊎◌, Bool, true, false, Option, none, some, String, ltb, leb, not, ◌==◌,
  string_eq, if◌then◌else◌,
}
use synapse_stellar.Prelude.Maps.{kept}

abbrev pub max_nonce_ttl_ms : ℕ
max_nonce_ttl_ms = 24 * 60 * 60 * 1000

-- `configuredTtlMs`: a number above zero, or the default.
pub configured_ttl_ms : Option ℕ → ℕ
configured_ttl_ms none = max_nonce_ttl_ms
configured_ttl_ms (some from_config) = if ltb 0 from_config then from_config else max_nonce_ttl_ms

-- What a store remembers: when each nonce was used. It is the abstract state of `INonceStore`.
abbrev pub Used : Type 0
Used = String → Option ℕ

-- A cutoff before time 0 is 0 here, which no time is before either.
abbrev pub live : ℕ → Option ℕ → Option ℕ
live cutoff = kept (λ used_at. not (ltb used_at cutoff))

abbrev pub is_some : Option ℕ → Bool
is_some none = false
is_some (some _) = true

-- `INSERT OR IGNORE`, and `if (!has) set`.
abbrev pub or_else : Option ℕ → ℕ → Option ℕ
or_else none t = some t
or_else (some used_at) _ = some used_at

pub some_ne_none {ℓ} : {A : Type ℓ} {a : A} → some a ≡ none → ⊥
some_ne_none e = cc

-- The contract: what a call does to the memory when it is answered, and that a call that rejects
-- forgets nothing but what has expired.
pub record NonceStore : Type 1 where
  pub Store : Type 0
  pub ttl_ms : ℕ
  pub used : Store → Used
  pub has : Store → ℕ → String → Option Bool × Store
  pub add : Store → ℕ → ℕ → String → Option (Unit {0}) × Store
  pub prune : Store → ℕ → ℕ → Option (Unit {0}) × Store
  pub has_answer :
      (s : Store) (now : ℕ) (nonce : String) (found : Bool)
      → (has s now nonce).0 ≡ some found
      → found ≡ is_some (live (now - ttl_ms) (used s nonce))
  pub has_used :
      (s : Store) (now : ℕ) (nonce m : String)
      → (used (has s now nonce).1 m ≡ live (now - ttl_ms) (used s m))
        ⊎ (used (has s now nonce).1 m ≡ used s m)
  pub add_used :
      (s : Store) (now later : ℕ) (nonce m : String)
      → (add s now later nonce).0 ≡ some tt
      → used (add s now later nonce).1 m ≡ (
          if nonce == m
          then or_else (live (now - ttl_ms) (used s m)) later
          else live (now - ttl_ms) (used s m))
  pub add_failed :
      (s : Store) (now later : ℕ) (nonce m : String)
      → (add s now later nonce).0 ≡ none
      → (used (add s now later nonce).1 m ≡ live (now - ttl_ms) (used s m))
        ⊎ (used (add s now later nonce).1 m ≡ used s m)
  pub prune_used :
      (s : Store) (now ttl : ℕ) (m : String)
      → (used (prune s now ttl).1 m ≡ live (now - ttl) (used s m))
        ⊎ (used (prune s now ttl).1 m ≡ used s m)
