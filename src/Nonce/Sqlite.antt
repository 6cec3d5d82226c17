-- ===== src/Nonce/Sqlite.antt =====
-- `SqliteNonceStore` of backend/nonce_store.ts. SQLite is a parameter: the table, what it holds for
-- each primary key, and the statements of the class; `none` is a throw, which leaves the table alone.
use synapse_stellar.Prelude.{
  ℕ, ◌-◌, ◌≡◌, refl, sym, ap, subst, ◌∙◌, ◌⊎◌, inl, inr, Bool, true, false, Option, none, some,
  String, ◌==◌, string_eq, if◌then◌else◌, Option-cases,
}
use synapse_stellar.Nonce.{NonceStore, Used, some_ne_none, live, is_some, or_else}

pub record NonceTable : Type 1 where
  pub Db : Type 0
  pub used_at_ms : Db → Used
  -- CREATE TABLE IF NOT EXISTS and CREATE INDEX IF NOT EXISTS
  pub create_table : Db → Option Db
  pub create_index : Db → Option Db
  -- SELECT 1 … WHERE nonce = ?
  pub select : Db → String → Option Bool
  -- INSERT OR IGNORE
  pub insert_or_ignore : Db → String → ℕ → Option Db
  -- DELETE … WHERE used_at_ms < ?
  pub delete_before : Db → ℕ → Option Db
  pub used-create_table :
      (d d' : Db) (m : String) → create_table d ≡ some d' → used_at_ms d' m ≡ used_at_ms d m
  pub used-create_index :
      (d d' : Db) (m : String) → create_index d ≡ some d' → used_at_ms d' m ≡ used_at_ms d m
  pub select-used :
      (d : Db) (nonce : String) (found : Bool)
      → select d nonce ≡ some found
      → found ≡ is_some (used_at_ms d nonce)
  pub used-insert :
      (d d' : Db) (nonce : String) (t : ℕ) (m : String)
      → insert_or_ignore d nonce t ≡ some d'
      → used_at_ms d' m ≡ (if nonce == m then or_else (used_at_ms d m) t else used_at_ms d m)
  pub used-delete :
      (d d' : Db) (cutoff : ℕ) (m : String)
      → delete_before d cutoff ≡ some d'
      → used_at_ms d' m ≡ live cutoff (used_at_ms d m)

module _ (table : NonceTable) where
  open table use {
    Db, used_at_ms, create_table, create_index, select, insert_or_ignore, delete_before,
  }

  pub record SqliteNonceStore : Type 0 where
    pub db : Db
    pub ready : Bool

  -- A method that may throw: `none`, and the object that is left.
  abbrev M : Type 0 → Type 0
  M A = SqliteNonceStore → Option A × SqliteNonceStore

  infixl 5 ◌>>=◌ ◌>>◌
  ◌>>=◌ : {A B : Type 0} → M A → (A → M B) → M B
  ◌>>=◌ m f s = elim (m s).0 [ none ↦ (none, (m s).1) | some a ↦ f a (m s).1 ]

  abbrev ◌>>◌ : {B : Type 0} → M (Unit {0}) → M B → M B
  m >> k = m >>= λ _. k

  -- A statement that writes, and one that reads.
  exec : (Db → Option Db) → M (Unit {0})
  exec statement s = elim (statement s.db) [
    | none ↦ (none, s)
    | some db ↦ (some tt, record s { db = db })
  ]

  abbrev query : {A : Type 0} → (Db → Option A) → M A
  query statement s = (statement s.db, s)

  set_ready : M (Unit {0})
  set_ready s = (some tt, record s { ready = true })

  create : M (Unit {0})
  create = do exec create_table; exec create_index; set_ready

  -- `if (this.ready) return;` and the rest of `ensureTable`.
  ensure : Bool → M (Unit {0})
  ensure true s = (some tt, s)
  ensure false s = create s

  ensure_table : M (Unit {0})
  unfolding ensure
  ensure_table s = ensure s.ready s

  prune : ℕ → ℕ → M (Unit {0})
  prune now ttl_ms = do ensure_table; exec (λ d. delete_before d (now - ttl_ms))

  -- The two guards at the start of `has` and `add`.
  opening : ℕ → ℕ → M (Unit {0})
  opening now ttl_ms = do ensure_table; prune now ttl_ms

  has : ℕ → ℕ → String → M Bool
  unfolding opening
  has ttl_ms now nonce = do opening now ttl_ms; query (λ d. select d nonce)

  add : ℕ → ℕ → ℕ → String → M (Unit {0})
  unfolding opening
  add ttl_ms now later nonce = do opening now ttl_ms; exec (λ d. insert_or_ignore d nonce later)

  -- What holds of both ends of a bind holds of the bind.
  bind_cases :
      {A B : Type 0} (P : Option B × SqliteNonceStore → Type 0) (m : M A) (f : A → M B)
      (s : SqliteNonceStore)
      → ((m s).0 ≡ none → P (none, (m s).1))
      → ((a : A) → (m s).0 ≡ some a → P (f a (m s).1))
      → P ((m >>= f) s)
  unfolding ◌>>=◌
  bind_cases P m f s failed done = elim (Option-cases (m s).0) [
    | inl e ↦ rw (e, ◌>>=◌) (failed e)
    | inr (a, e) ↦ rw (e, ◌>>=◌) (done a e)
  ]

  exec_cases :
      (P : Option (Unit {0}) × SqliteNonceStore → Type 0) (statement : Db → Option Db)
      (s : SqliteNonceStore)
      → (statement s.db ≡ none → P (none, s))
      → ((db : Db) → statement s.db ≡ some db → P (some tt, record s { db = db }))
      → P (exec statement s)
  unfolding exec
  exec_cases P statement s failed done = elim (Option-cases (statement s.db)) [
    | inl e ↦ rw (e, exec) (failed e)
    | inr (d, e) ↦ rw (e, exec) (done d e)
  ]

  -- The call leaves the memory as it was.
  abbrev Keeps : {A : Type 0} → M A → Type 0
  Keeps m = (s : SqliteNonceStore) (n : String) → used_at_ms (m s).1.db n ≡ used_at_ms s.db n

  bind-Keeps :
      {A B : Type 0} (m : M A) (f : A → M B) → Keeps m → ((a : A) → Keeps (f a)) → Keeps (m >>= f)
  bind-Keeps m f h k s n =
      bind_cases (λ out. used_at_ms out.1.db n ≡ used_at_ms s.db n) m f s (λ _. h s n)
        (λ a _. k a (m s).1 n ∙ h s n)

  exec-Keeps :
      (statement : Db → Option Db)
      → ((d d' : Db) (n : String) → statement d ≡ some d' → used_at_ms d' n ≡ used_at_ms d n)
      → Keeps (exec statement)
  exec-Keeps statement h s n =
      exec_cases (λ out. used_at_ms out.1.db n ≡ used_at_ms s.db n) statement s (λ _. refl)
        (λ d e. h s.db d n e)

  create-Keeps : Keeps create
  unfolding create set_ready
  create-Keeps =
      bind-Keeps (exec create_table) _ (exec-Keeps create_table table.used-create_table) (λ _.
        bind-Keeps (exec create_index) _ (exec-Keeps create_index table.used-create_index)
          (λ _ s n. refl))

  ensure-Keeps : (ready : Bool) → Keeps (ensure ready)
  unfolding ensure
  ensure-Keeps true s n = refl
  ensure-Keeps false s n = create-Keeps s n

  ensure_table-Keeps : Keeps ensure_table
  unfolding ensure_table
  ensure_table-Keeps s n = ensure-Keeps s.ready s n

  -- The call is answered and forgets what is before the cutoff, or throws and forgets nothing.
  abbrev Pruned : ℕ → SqliteNonceStore → String → Option (Unit {0}) × SqliteNonceStore → Type 0
  Pruned cutoff s n out =
      ((out.0 ≡ some tt) × (used_at_ms out.1.db n ≡ live cutoff (used_at_ms s.db n)))
      ⊎ ((out.0 ≡ none) × (used_at_ms out.1.db n ≡ used_at_ms s.db n))

  abbrev Prunes : ℕ → M (Unit {0}) → Type 0
  Prunes cutoff m = (s : SqliteNonceStore) (n : String) → Pruned cutoff s n (m s)

  bind-Prunes :
      (cutoff : ℕ) (m m' : M (Unit {0})) → Keeps m → Prunes cutoff m' → Prunes cutoff (m >> m')
  bind-Prunes cutoff m m' h k s n =
      bind_cases (Pruned cutoff s n) m (λ _. m') s (λ _. inr (refl, h s n))
        (λ a _. subst (λ u. Pruned' u (m' (m s).1)) (h s n) (k (m s).1 n))
    where
      Pruned' : Option ℕ → Option (Unit {0}) × SqliteNonceStore → Type 0
      Pruned' u out =
          ((out.0 ≡ some tt) × (used_at_ms out.1.db n ≡ live cutoff u))
          ⊎ ((out.0 ≡ none) × (used_at_ms out.1.db n ≡ u))

  prune-Prunes : (now ttl_ms : ℕ) → Prunes (now - ttl_ms) (prune now ttl_ms)
  unfolding prune
  prune-Prunes now ttl_ms = bind-Prunes (now - ttl_ms) ensure_table _ ensure_table-Keeps λ s n.
      exec_cases (Pruned (now - ttl_ms) s n) (λ d. delete_before d (now - ttl_ms)) s
        (λ _. inr (refl, refl)) (λ d e. inl (refl, table.used-delete s.db d (now - ttl_ms) n e))

  opening-Prunes : (now ttl_ms : ℕ) → Prunes (now - ttl_ms) (opening now ttl_ms)
  unfolding opening
  opening-Prunes now ttl_ms =
      bind-Prunes (now - ttl_ms) ensure_table _ ensure_table-Keeps (prune-Prunes now ttl_ms)

  -- A call after the opening: it fails with the opening, or starts from what the opening leaves.
  after_opening :
      {B : Type 0} (P : Option B × SqliteNonceStore → Type 0) (m : M B) (s : SqliteNonceStore)
      (now ttl_ms : ℕ) (n : String)
      → ((s' : SqliteNonceStore) → used_at_ms s'.db n ≡ used_at_ms s.db n → P (none, s'))
      → ((s' : SqliteNonceStore)
          → used_at_ms s'.db n ≡ live (now - ttl_ms) (used_at_ms s.db n)
          → P (m s'))
      → P ((opening now ttl_ms >> m) s)
  after_opening P m s now ttl_ms n failed done =
      bind_cases P (opening now ttl_ms) (λ _. m) s
        (λ e. elim (opening-Prunes now ttl_ms s n) [
          | inl (answered, _) ↦ absurd (some_ne_none (sym answered ∙ e))
          | inr (_, u) ↦ failed (opening now ttl_ms s).1 u
        ])
        (λ _ e. elim (opening-Prunes now ttl_ms s n) [
          | inl (_, u) ↦ done (opening now ttl_ms s).1 u
          | inr (threw, _) ↦ absurd (some_ne_none (sym e ∙ threw))
        ])

  has_answer :
      (ttl_ms : ℕ) (s : SqliteNonceStore) (now : ℕ) (nonce : String) (found : Bool)
      → (has ttl_ms now nonce s).0 ≡ some found
      → found ≡ is_some (live (now - ttl_ms) (used_at_ms s.db nonce))
  unfolding has
  has_answer ttl_ms s now nonce found =
      after_opening
        (λ out. out.0 ≡ some found → found ≡ is_some (live (now - ttl_ms) (used_at_ms s.db nonce)))
        (query (λ d. select d nonce)) s now ttl_ms nonce (λ s' u e. absurd (some_ne_none (sym e)))
        (λ s' u e. rw (← u) (table.select-used s'.db nonce found e))

  has_used :
      (ttl_ms : ℕ) (s : SqliteNonceStore) (now : ℕ) (nonce m : String)
      → (used_at_ms (has ttl_ms now nonce s).1.db m ≡ live (now - ttl_ms) (used_at_ms s.db m))
        ⊎ (used_at_ms (has ttl_ms now nonce s).1.db m ≡ used_at_ms s.db m)
  unfolding has
  has_used ttl_ms s now nonce m =
      after_opening
        (λ out.
          (used_at_ms out.1.db m ≡ live (now - ttl_ms) (used_at_ms s.db m))
          ⊎ (used_at_ms out.1.db m ≡ used_at_ms s.db m))
        (query (λ d. select d nonce)) s now ttl_ms m (λ s' u. inr u) (λ s' u. inl u)

  -- `INSERT OR IGNORE` after the opening.
  add_used :
      (ttl_ms : ℕ) (s : SqliteNonceStore) (now later : ℕ) (nonce m : String)
      → (add ttl_ms now later nonce s).0 ≡ some tt
      → used_at_ms (add ttl_ms now later nonce s).1.db m ≡ (
          if nonce == m
          then or_else (live (now - ttl_ms) (used_at_ms s.db m)) later
          else live (now - ttl_ms) (used_at_ms s.db m))
  unfolding add
  add_used ttl_ms s now later nonce m =
      after_opening
        (λ out.
          out.0 ≡ some tt
          → used_at_ms out.1.db m ≡ marked (live (now - ttl_ms) (used_at_ms s.db m)))
        insertion s now ttl_ms m (λ s' u e. absurd (some_ne_none (sym e)))
        (λ s' u.
          exec_cases
            (λ out.
              out.0 ≡ some tt
              → used_at_ms out.1.db m ≡ marked (live (now - ttl_ms) (used_at_ms s.db m)))
            (λ d. insert_or_ignore d nonce later) s' (λ _ e. absurd (some_ne_none (sym e)))
            (λ d f e. table.used-insert s'.db d nonce later m f ∙ ap marked u))
    where
      insertion : M (Unit {0})
      insertion = exec (λ d. insert_or_ignore d nonce later)

      marked : Option ℕ → Option ℕ
      marked u = if nonce == m then or_else u later else u

  add_failed :
      (ttl_ms : ℕ) (s : SqliteNonceStore) (now later : ℕ) (nonce m : String)
      → (add ttl_ms now later nonce s).0 ≡ none
      → (used_at_ms (add ttl_ms now later nonce s).1.db m ≡ live (now - ttl_ms) (used_at_ms s.db m))
        ⊎ (used_at_ms (add ttl_ms now later nonce s).1.db m ≡ used_at_ms s.db m)
  unfolding add
  add_failed ttl_ms s now later nonce m =
      after_opening Kept (exec (λ d. insert_or_ignore d nonce later)) s now ttl_ms m
        (λ s' u _. inr u)
        (λ s' u.
          exec_cases Kept (λ d. insert_or_ignore d nonce later) s' (λ _ _. inl u)
            (λ d f e. absurd (some_ne_none e)))
    where
      Kept : Option (Unit {0}) × SqliteNonceStore → Type 0
      Kept out =
          out.0 ≡ none
          → (used_at_ms out.1.db m ≡ live (now - ttl_ms) (used_at_ms s.db m))
            ⊎ (used_at_ms out.1.db m ≡ used_at_ms s.db m)

  prune_used :
      (s : SqliteNonceStore) (now ttl : ℕ) (m : String)
      → (used_at_ms (prune now ttl s).1.db m ≡ live (now - ttl) (used_at_ms s.db m))
        ⊎ (used_at_ms (prune now ttl s).1.db m ≡ used_at_ms s.db m)
  prune_used s now ttl m = elim (prune-Prunes now ttl s m) [
    | inl (_, u) ↦ inl u
    | inr (_, u) ↦ inr u
  ]

  -- The contract is met over any table that keeps its laws.
  pub sqlite : ℕ → NonceStore
  sqlite ttl_ms = record {
    Store = SqliteNonceStore;
    ttl_ms = ttl_ms;
    used = λ s. used_at_ms s.db;
    has = λ s now nonce. has ttl_ms now nonce s;
    add = λ s now later nonce. add ttl_ms now later nonce s;
    prune = λ s now ttl. prune now ttl s;
    has_answer = has_answer ttl_ms;
    has_used = has_used ttl_ms;
    add_used = add_used ttl_ms;
    add_failed = add_failed ttl_ms;
    prune_used = prune_used;
  }
