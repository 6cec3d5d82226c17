-- ===== src/Rpc/Auth.antt =====
-- Whom the authorisations of a prepared Soroban transaction name: backend/rpc_client.ts.
use synapse_stellar.Prelude.{
  ◌≡◌, refl, ◌↔◌, inl, inr, none, some, List, [], ◌∷◌, All, String, string_eq, eq_iff, arith,
  Option-cases,
}
use synapse_stellar.Rpc.{
  AuthEntry, no_credentials, source_account, address, raw_key, check_entry, check_entries,
  validate_soroban_auth,
}

module _ (Key Tx Event Net : Type 0) (encode : Key → String) (agent_public_key : String) where
  -- An entry with the credentials of an address has a key, the agent's.
  abbrev pub IsOwn : AuthEntry Key → Type 0
  IsOwn (address ed25519 muxed) =
      (k : Key) × (raw_key ed25519 muxed ≡ some k) × (encode k ≡ agent_public_key)
  IsOwn _ = Unit {0}

  check_entry_iff :
      (a : AuthEntry Key)
      → (check_entry Key Tx Event Net encode agent_public_key a ≡ none) ↔ IsOwn a
  unfolding check_entry
  check_entry_iff no_credentials = (λ e. tt, λ e. refl)
  check_entry_iff source_account = (λ e. tt, λ e. refl)
  check_entry_iff (address (some k) muxed) = (
    λ e. (k, refl, ground (arith, eq_iff (encode k) agent_public_key)),
    λ (k', e, own). ground (arith, eq_iff (encode k) agent_public_key),
  )
  check_entry_iff (address none (some k)) = (
    λ e. (k, refl, ground (arith, eq_iff (encode k) agent_public_key)),
    λ (k', e, own). ground (arith, eq_iff (encode k) agent_public_key),
  )
  check_entry_iff (address none none) = (λ e. cc, λ (k', e, own). cc)

  check_entries_iff :
      (as' : List (AuthEntry Key))
      → (check_entries Key Tx Event Net encode agent_public_key as' ≡ none) ↔ All IsOwn as'
  unfolding check_entries
  check_entries_iff [] = (λ e. tt, λ e. refl)
  check_entries_iff (a ∷ as') =
      elim (Option-cases (check_entry Key Tx Event Net encode agent_public_key a)) [
        | inl own ↦
            rw (own, check_entries)
              (
                λ e. ((check_entry_iff a).0 own, (check_entries_iff as').0 e),
                λ (o, os). (check_entries_iff as').1 os,
              )
        | inr (x, other) ↦
            rw (other, check_entries) (λ e. cc, λ (o, os). cc ((check_entry_iff a).1 o))
      ]

  -- The validation passes exactly when every entry with the credentials of an address has a key and
  -- that key is the agent's.
  pub validate_soroban_auth_iff :
      (ops : List (List (AuthEntry Key)))
      → (validate_soroban_auth Key Tx Event Net encode agent_public_key ops ≡ none)
        ↔ All (All IsOwn) ops
  unfolding validate_soroban_auth
  validate_soroban_auth_iff [] = (λ e. tt, λ e. refl)
  validate_soroban_auth_iff (op ∷ ops) =
      elim (Option-cases (check_entries Key Tx Event Net encode agent_public_key op)) [
        | inl own ↦
            rw (own, validate_soroban_auth)
              (
                λ e. ((check_entries_iff op).0 own, (validate_soroban_auth_iff ops).0 e),
                λ (o, os). (validate_soroban_auth_iff ops).1 os,
              )
        | inr (x, other) ↦
            rw (other, validate_soroban_auth) (λ e. cc, λ (o, os). cc ((check_entries_iff op).1 o))
      ]
