-- ===== src/Watcher/Compare.antt =====
-- What the watcher of backend/tools/ContractStorageWatcherTool.ts finds changed in a response.
use synapse_stellar.Prelude.{
  ℕ, ◌≡◌, ◌≢◌, refl, sym, ◌∙◌, inl, inr, true, Option, none, some, List, [], ◌∷◌, ◌++◌, String,
  ◌==◌, string_eq, if◌then◌else◌, Bool-cases, arith,
}
use mathlib.Core.Path.{fun_ext, subst}
use text.Mathlib.TextEquality.{eq_iff}
use synapse_stellar.Prelude.Maps
use synapse_stellar.Prelude.Maps.{Map, empty}
use synapse_stellar.Prelude.Results.{Result}
use synapse_stellar.Watcher.{
  LedgerEntry, Response, StorageChange, differs, Watcher, updates, deletions, compared,
}

-- The values of the keys, as a function.
abbrev pub State : Type 0
State = String → Option String

abbrev pub changed : State → String → Option String → State
changed f k v = λ j. if k == j then v else f j

module _ (LedgerKey : Type 0) where
  -- The changes lead from the one state to the other: each names the value that its key has at that
  -- point, and another one, which the key has from then on.
  abbrev pub Leads : State → List (StorageChange LedgerKey) → State → Type 0
  Leads f [] g = (j : String) → f j ≡ g j
  Leads f (c ∷ cs) g =
      (c.old_value ≡ f c.key_xdr)
      × (c.old_value ≢ c.new_value)
      × Leads (changed f c.key_xdr c.new_value) cs g

  Leads-from :
      (f f' : State) (cs : List (StorageChange LedgerKey)) (g : State)
      → f ≡ f'
      → Leads f' cs g
      → Leads f cs g
  Leads-from f f' cs g e l = subst (λ h. Leads h cs g) (sym e) l

  pub Leads-append :
      (f g h : State) (cs ds : List (StorageChange LedgerKey))
      → Leads f cs g
      → Leads g ds h
      → Leads f (cs ++ ds) h
  Leads-append f g h [] ds l m = Leads-from f g ds h (fun_ext l) m
  Leads-append f g h (c ∷ cs) ds (old, moved, l) m =
      (old, moved, Leads-append (changed f c.key_xdr c.new_value) g h cs ds l m)

set-changed :
    (m : Map String) (k v : String) → Maps.get (Maps.set m k v) ≡ changed (Maps.get m) k (some v)
set-changed m k v = fun_ext (λ j. Maps.get-set m k v j)

delete-changed :
    (m : Map String) (k : String) → Maps.get (Maps.delete m k) ≡ changed (Maps.get m) k none
delete-changed m k = fun_ext (λ j. Maps.get-delete m k j)

differs-value : (old : Option String) (v : String) → differs old v ≡ true → old ≢ some v
differs-value none v h = λ e. cc
differs-value (some w) v h = λ e. ground (arith, eq_iff w v, h, e)

module _ (Net E LedgerKey : Type 0) (normalize_key : String → LedgerKey)
    (get_ledger_entries : Net → Result E (Response LedgerKey) × Net) (max_polls : Option ℕ)
    (poll_interval_ms : ℕ) where
  abbrev S : Type 0
  S = Watcher Net E LedgerKey normalize_key get_ledger_entries max_polls poll_interval_ms

  abbrev updates_run :
      Map LedgerKey
      → Option ℕ
      → List (String × LedgerEntry LedgerKey)
      → Map String
      → List (StorageChange LedgerKey) × Map String
  updates_run = updates Net E LedgerKey normalize_key get_ledger_entries max_polls poll_interval_ms

  abbrev deletions_run :
      Map LedgerKey
      → Option ℕ
      → Map (LedgerEntry LedgerKey)
      → List (String × String)
      → Map String
      → List (StorageChange LedgerKey) × Map String
  deletions_run =
      deletions Net E LedgerKey normalize_key get_ledger_entries max_polls poll_interval_ms

  updates-Leads :
      (keys : Map LedgerKey) (ledger : Option ℕ) (es : List (String × LedgerEntry LedgerKey))
      (cache : Map String)
      → Leads LedgerKey
          (Maps.get cache)
          (updates_run keys ledger es cache).0
          (Maps.get (updates_run keys ledger es cache).1)
  unfolding updates
  updates-Leads keys ledger [] cache = λ j. refl
  updates-Leads keys ledger ((k, entry) ∷ rest) cache =
      elim (Bool-cases (differs (Maps.get cache k) entry.val_xdr)) [
        | inr same ↦ rw same (updates-Leads keys ledger rest cache)
        | inl other ↦ rw other (
          refl,
          differs-value (Maps.get cache k) entry.val_xdr other,
          Leads-from LedgerKey (changed (Maps.get cache) k (some entry.val_xdr))
              (Maps.get (Maps.set cache k entry.val_xdr))
              (updates_run keys ledger rest (Maps.set cache k entry.val_xdr)).0
              (Maps.get (updates_run keys ledger rest (Maps.set cache k entry.val_xdr)).1)
              (sym (set-changed cache k entry.val_xdr))
              (updates-Leads keys ledger rest (Maps.set cache k entry.val_xdr)),
        )
      ]

  -- The entries that the loop has still to look at are in the cache.
  abbrev Held : List (String × String) → Map String → Type 0
  Held es cache = (j v : String) → Maps.lookup es j ≡ some v → Maps.get cache j ≡ some v

  Held-rest :
      (k old : String) (rest : List (String × String)) (cache : Map String)
      → Maps.lookup rest k ≡ none
      → Held ((k, old) ∷ rest) cache
      → Held rest cache
  Held-rest k old rest cache u held j v h =
      let first = Maps.lookup-cons k old rest j in
      held j v (ground (arith, eq_iff k j, first, u, h))

  Held-delete :
      (k : String) (rest : List (String × String)) (cache : Map String)
      → Maps.lookup rest k ≡ none
      → Held rest cache
      → Held rest (Maps.delete cache k)
  Held-delete k rest cache u held j v h =
      ground (arith, eq_iff k j, Maps.get-delete cache k j, u, held j v h, h)

  deletions-Leads :
      (keys : Map LedgerKey) (ledger : Option ℕ) (current : Map (LedgerEntry LedgerKey))
      (es : List (String × String)) (cache : Map String)
      → Maps.IsUnique es
      → Held es cache
      → Leads LedgerKey
          (Maps.get cache)
          (deletions_run keys ledger current es cache).0
          (Maps.get (deletions_run keys ledger current es cache).1)
  unfolding deletions
  deletions-Leads keys ledger current [] cache u held = λ j. refl
  deletions-Leads keys ledger current ((k, old) ∷ rest) cache (fresh, u) held =
      let still = Held-rest k old rest cache fresh held in
      elim (Bool-cases (Maps.has current k)) [
        | inl present ↦ rw present (deletions-Leads keys ledger current rest cache u still)
        | inr missing ↦ rw missing (
          sym (held k old (ground (arith, eq_iff k k, Maps.lookup-cons k old rest k))),
          (λ e. cc),
          Leads-from LedgerKey (changed (Maps.get cache) k none) (Maps.get (Maps.delete cache k))
              (deletions_run keys ledger current rest (Maps.delete cache k)).0
              (Maps.get (deletions_run keys ledger current rest (Maps.delete cache k)).1)
              (sym (delete-changed cache k))
              (deletions-Leads keys ledger current rest (Maps.delete cache k) u
                (Held-delete k rest cache fresh still)),
        )
      ]

  abbrev compared_run :
      Map LedgerKey
      → Option ℕ
      → Map (LedgerEntry LedgerKey)
      → Map String
      → List (StorageChange LedgerKey) × Map String
  compared_run =
      compared Net E LedgerKey normalize_key get_ledger_entries max_polls poll_interval_ms

  pub compared-Leads :
      (keys : Map LedgerKey) (ledger : Option ℕ) (current : Map (LedgerEntry LedgerKey))
      (cache : Map String)
      → Leads LedgerKey
          (Maps.get cache)
          (compared_run keys ledger current cache).0
          (Maps.get (compared_run keys ledger current cache).1)
  unfolding compared
  compared-Leads keys ledger current cache =
      let out = updates_run keys ledger (Maps.entries_of current) cache in
      let gone = deletions_run keys ledger current (Maps.entries_of out.1) out.1 in
      Leads-append LedgerKey (Maps.get cache) (Maps.get out.1) (Maps.get gone.1) out.0 gone.0
        (updates-Leads keys ledger (Maps.entries_of current) cache)
        (deletions-Leads keys ledger current (Maps.entries_of out.1) out.1
          (Maps.entries_of-IsUnique out.1) (λ j v h. sym (Maps.lookup-entries_of out.1 j) ∙ h))
