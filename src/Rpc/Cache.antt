-- ===== src/Rpc/Cache.antt =====
-- What the account cache of backend/rpc_client.ts serves, however loads and submissions overlap. An
-- account stands for the object that a load was answered with.
use synapse_stellar.Prelude.{
  ℕ, ◌+◌, ◌<◌, ◌≡◌, ◌≢◌, refl, ◌⊎◌, inl, inr, ◌↔◌, Bool, true, false, Option, none, some, List, [],
  ◌∷◌, String, ltb, string_eq, eq_iff, arith, Bool-cases,
}
use synapse_stellar.Prelude.Maps
use synapse_stellar.Prelude.Maps.{Map, empty, get-set, get-delete, get-empty}
use synapse_stellar.Prelude.Results.{Result, ok, err}
use synapse_stellar.Rpc.{
  CachedAccount, invalidate_account_cache, looked_up, begin_load, end_load, end_submit,
}

module _ (Account E Submitted : Type 0) (ttl : ℕ) where
  abbrev Cache : Type 0
  Cache = Map (CachedAccount Account)

  abbrev begun : String → Bool → ℕ → Cache → Option Account × Cache
  begun = begin_load Account E Submitted ttl

  -- What may happen to the cache: a load begins, one is answered, a submission ends, or the cache is
  -- invalidated. Any number of loads and submissions may be pending at a time.
  pub data Event : Type 0 where
    begins : (public_key : String) (force_refresh : Bool) (now : ℕ) → Event
    answers : (public_key : String) (now : ℕ) → Result E Account → Event
    submits : Result E Submitted → Event
    invalidates : Option String → Event

  unfoldable pub step : Cache → Event → Cache
  step s (begins key force now) = (begun key force now s).1
  step s (answers key now r) = (end_load Account E Submitted ttl key now r s).1
  step s (submits r) = (end_submit Account E Submitted ttl r s).1
  step s (invalidates key) = invalidate_account_cache Account key s

  -- The cache after the events, the last of which stands first.
  unfoldable pub after : List Event → Cache
  unfolding step
  after [] = empty
  after (e ∷ es) = step (after es) e

  -- Of the answers to loads of the key the last is this account, which expires at the given time; since
  -- then no submission has ended, the key has not been invalidated, and no load of it has begun that forces
  -- a refresh or came after that time.
  abbrev pub Current : String → Account → ℕ → List Event → Type 0
  Current k a expires_at [] = ⊥
  Current k a expires_at (begins j force now ∷ es) =
      ((j ≢ k) ⊎ ((force ≡ false) × (now < expires_at))) × Current k a expires_at es
  Current k a expires_at (answers j now (ok b) ∷ es) =
      ((j ≡ k) × (b ≡ a) × (expires_at ≡ now + ttl)) ⊎ ((j ≢ k) × Current k a expires_at es)
  Current k a expires_at (answers j now (err x) ∷ es) = Current k a expires_at es
  Current k a expires_at (submits r ∷ es) = ⊥
  Current k a expires_at (invalidates none ∷ es) = ⊥
  Current k a expires_at (invalidates (some j) ∷ es) = (j ≢ k) × Current k a expires_at es

  abbrev Holds : Cache → String → Account → ℕ → Type 0
  Holds s k a expires_at = Maps.get s k ≡ some (record { account = a; expires_at = expires_at })

  deleted-Holds :
      (s : Cache) (j k : String) (a : Account) (t : ℕ)
      → Holds (Maps.delete s j) k a t ↔ ((j ≢ k) × Holds s k a t)
  deleted-Holds s j k a t = ground (arith, eq_iff j k, get-delete s j k)

  looked_up-Holds :
      (s : Cache) (j k : String) (now : ℕ) (found : Option (CachedAccount Account)) (a : Account)
      (t : ℕ)
      → Maps.get s j ≡ found
      → Holds (looked_up Account E Submitted ttl j now s found).1 k a t
        ↔ (((j ≢ k) ⊎ (now < t)) × Holds s k a t)
  unfolding looked_up
  looked_up-Holds s j k now none a t found = ((λ h. (inl (λ e. cc), h)), λ p. p.1)
  looked_up-Holds s j k now (some cached) a t found =
      elim (Bool-cases (ltb now cached.expires_at)) [
        | inl fresh ↦ rw fresh (ground (arith, eq_iff j k))
        | inr stale ↦ rw stale (ground (arith, eq_iff j k, deleted-Holds s j k a t))
      ]

  begun-Holds :
      0 < ttl
      → (s : Cache) (j k : String) (force : Bool) (now : ℕ) (a : Account) (t : ℕ)
      → Holds (begun j force now s).1 k a t
        ↔ (((j ≢ k) ⊎ ((force ≡ false) × (now < t))) × Holds s k a t)
  unfolding begin_load
  begun-Holds on s j k true now a t = ground (arith, deleted-Holds s j k a t)
  begun-Holds on s j k false now a t =
      let enabled : ltb 0 ttl ≡ true = ground arith in
      rw enabled (ground (arith, looked_up-Holds s j k now (Maps.get s j) a t refl))

  after-Holds :
      0 < ttl
      → (es : List Event) (k : String) (a : Account) (t : ℕ)
      → Holds (after es) k a t ↔ Current k a t es
  unfolding after step end_load end_submit invalidate_account_cache
  after-Holds on [] k a t = ground (arith, get-empty {V = CachedAccount Account} k)
  after-Holds on (begins j force now ∷ es) k a t =
      ground (arith, begun-Holds on (after es) j k force now a t, after-Holds on es k a t)
  after-Holds on (answers j now (ok b) ∷ es) k a t =
      let fresh : CachedAccount Account = record { account = b; expires_at = now + ttl } in
      let enabled : ltb 0 ttl ≡ true = ground arith in
      rw enabled (ground (arith, eq_iff j k, get-set (after es) j fresh k, after-Holds on es k a t))
  after-Holds on (answers j now (err x) ∷ es) k a t = after-Holds on es k a t
  after-Holds on (submits r ∷ es) k a t = ground (arith, get-empty {V = CachedAccount Account} k)
  after-Holds on (invalidates none ∷ es) k a t =
      ground (arith, get-empty {V = CachedAccount Account} k)
  after-Holds on (invalidates (some j) ∷ es) k a t =
      ground (arith, deleted-Holds (after es) j k a t, after-Holds on es k a t)

  looked_up_iff :
      (s : Cache) (k : String) (now : ℕ) (found : Option (CachedAccount Account)) (a : Account)
      → ((looked_up Account E Submitted ttl k now s found).0 ≡ some a)
        ↔ ((t : ℕ) × (now < t) × (found ≡ some (record { account = a; expires_at = t })))
  unfolding looked_up
  looked_up_iff s k now none a = ((λ h. cc), λ h. let (_, _, same) = h in cc)
  looked_up_iff s k now (some cached) a = elim (Bool-cases (ltb now cached.expires_at)) [
    | inl fresh ↦ rw fresh (
      (λ h. (cached.expires_at, ground arith, ground arith)),
      λ h. let (t, later, same) = h in ground arith,
    )
    | inr stale ↦ rw stale ((λ h. cc), λ h. let (t, later, same) = h in ground arith)
  ]

  -- A load is served from the cache exactly when the cache is on, no refresh is forced, and Horizon has
  -- answered a load of the key with the account less than the lifetime ago, with no other answer since:
  -- since then no submission has ended, nothing has invalidated the key, and no load of it has forced
  -- a refresh or come after the end of the lifetime.
  pub begin_load_iff :
      (es : List Event) (k : String) (force : Bool) (now : ℕ) (a : Account)
      → ((begun k force now (after es)).0 ≡ some a)
        ↔ ((force ≡ false) × (0 < ttl) × (t : ℕ) × (now < t) × Current k a t es)
  unfolding begin_load
  begin_load_iff es k true now a = ((λ h. cc), λ h. let (off, _, _, _, _) = h in cc)
  begin_load_iff es k false now a = elim (Bool-cases (ltb 0 ttl)) [
    | inl on ↦
        let positive : 0 < ttl = ground arith in
        let served = looked_up_iff (after es) k now (Maps.get (after es) k) a in
        rw on (
          (λ h.
              let (t, later, found) = served.0 h in
              (refl, positive, t, later, (after-Holds positive es k a t).0 found)),
          λ h.
              let (_, _, t, later, current) = h in
              served.1 (t, later, (after-Holds positive es k a t).1 current),
        )
    | inr off ↦ rw off ((λ h. cc), λ h. let (_, positive, _, _, _) = h in absurd (ground arith))
  ]
