-- ===== src/Nonce/Replay.antt =====
-- Replay protection by any store of backend/nonce_store.ts that keeps the contract.
use synapse_stellar.Prelude.{
  ℕ, ◌-◌, ◌≤◌, ◌≡◌, refl, ◌∙◌, ap, ◌⊎◌, inl, inr, Bool, true, Option, none, some, String, ◌==◌,
  string_eq, ==_refl, arith, Bool-cases,
}
use synapse_stellar.Nonce.{NonceStore, live, is_some}

-- A time since the cutoff is not forgotten.
live_since : (cutoff u : ℕ) → cutoff ≤ u → live cutoff (some u) ≡ some u
live_since cutoff u h = ground arith

module _ (store : NonceStore) where
  -- Calls of the store, answered or not, whose cutoffs are not after `u`.
  pub data Runs (u : ℕ) : store.Store → store.Store → Type 0 where
    here : {s : store.Store} → Runs u s s
    asked :
        {s t : store.Store} (now : ℕ) (nonce : String)
        → Runs u s t
        → now - store.ttl_ms ≤ u
        → Runs u s (store.has t now nonce).1
    added :
        {s t : store.Store} (now later : ℕ) (nonce : String)
        → Runs u s t
        → now - store.ttl_ms ≤ u
        → Runs u s (store.add t now later nonce).1
    pruned :
        {s t : store.Store} (now ttl : ℕ)
        → Runs u s t
        → now - ttl ≤ u
        → Runs u s (store.prune t now ttl).1

  -- What a call that keeps a live entry, or all of them, leaves of a live entry.
  kept_entry :
      (cutoff u : ℕ) {before after : Option ℕ}
      → before ≡ some u
      → cutoff ≤ u
      → (after ≡ live cutoff before) ⊎ (after ≡ before)
      → after ≡ some u
  kept_entry cutoff u e h (inl p) = p ∙ ap (live cutoff) e ∙ live_since cutoff u h
  kept_entry cutoff u e h (inr p) = p ∙ e

  add_keeps :
      (t : store.Store) (now later u : ℕ) (nonce m : String)
      → store.used t m ≡ some u
      → now - store.ttl_ms ≤ u
      → store.used (store.add t now later nonce).1 m ≡ some u
  add_keeps t now later u nonce m e h = go (store.add t now later nonce).0 refl
    where
      go :
          (r : Option (Unit {0}))
          → (store.add t now later nonce).0 ≡ r
          → store.used (store.add t now later nonce).1 m ≡ some u
      go none r = kept_entry (now - store.ttl_ms) u e h (store.add_failed t now later nonce m r)
      go (some _) r =
          store.add_used t now later nonce m r
          ∙ (rw (e, live_since (now - store.ttl_ms) u h)
              (elim (Bool-cases (nonce == m)) [ inl q ↦ rw q | inr q ↦ rw q ]))

  -- An entry that no cutoff has passed is still there.
  Runs-used :
      (u : ℕ) (m : String) {s t : store.Store}
      → store.used s m ≡ some u
      → Runs u s t
      → store.used t m ≡ some u
  Runs-used u m e here = e
  Runs-used u m e (asked {s} {t} now nonce r h) =
      kept_entry (now - store.ttl_ms) u (Runs-used u m e r) h (store.has_used t now nonce m)
  Runs-used u m e (added {s} {t} now later nonce r h) =
      add_keeps t now later u nonce m (Runs-used u m e r) h
  Runs-used u m e (pruned {s} {t} now ttl r h) =
      kept_entry (now - ttl) u (Runs-used u m e r) h (store.prune_used t now ttl m)

  -- A nonce that the store did not know and that `add` has marked, at time `marked`, is reported as
  -- used by every answer of `has` until a cutoff passes that time, whatever calls, answered or not,
  -- come in between.
  pub has-add :
      (s t : store.Store) (now marked when : ℕ) (nonce : String) (found : Bool)
      → live (now - store.ttl_ms) (store.used s nonce) ≡ none
      → (store.add s now marked nonce).0 ≡ some tt
      → Runs marked (store.add s now marked nonce).1 t
      → when - store.ttl_ms ≤ marked
      → (store.has t when nonce).0 ≡ some found
      → found ≡ true
  has-add s t now marked when nonce found fresh done r h e =
      store.has_answer t when nonce found e
      ∙ ap is_some
          (ap (live (when - store.ttl_ms)) entry ∙ live_since (when - store.ttl_ms) marked h)
    where
      entry : store.used t nonce ≡ some marked
      entry =
          Runs-used marked nonce
            (store.add_used s now marked nonce nonce done ∙ rw (==_refl nonce, fresh) refl) r
