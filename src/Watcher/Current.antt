-- ===== src/Watcher/Current.antt =====
-- What the watcher of backend/tools/ContractStorageWatcherTool.ts knows after a poll that was answered.
use synapse_stellar.Prelude.{
  ℕ, ◌≡◌, refl, ap, ◌∙◌, inl, inr, false, Option, none, some, List, [], ◌∷◌, String, ◌==◌,
  string_eq, if◌then◌else◌, Bool-cases, arith,
}
use text.Mathlib.TextEquality.{eq_iff}
use synapse_stellar.Prelude.Maps
use synapse_stellar.Prelude.Maps.{Map, empty}
use synapse_stellar.Prelude.Results.{Result}
use synapse_stellar.Watcher.{
  LedgerEntry, Response, differs, Watcher, current_map, baseline, updates, deletions, compared,
  answered,
}

unchanged : (old : Option String) (v : String) → differs old v ≡ false → old ≡ some v
unchanged none v h = cc
unchanged (some w) v h = ground (arith, eq_iff w v, h)

module _ (LedgerKey : Type 0) where
  -- The value of a key in a response: that of the last entry with the key.
  unfoldable pub reported : List (LedgerEntry LedgerKey) → String → Option String → Option String
  reported [] k before = before
  reported (entry ∷ rest) k before =
      let found = reported rest k (some entry.val_xdr) in
      let other = reported rest k before in if entry.key_xdr == k then found else other

  abbrev pub val_of : Option (LedgerEntry LedgerKey) → Option String
  val_of none = none
  val_of (some entry) = some entry.val_xdr

  abbrev pub or_else : Option (LedgerEntry LedgerKey) → Option String → Option String
  or_else none v = v
  or_else (some entry) v = some entry.val_xdr

module _ (Net E LedgerKey : Type 0) (normalize_key : String → LedgerKey)
    (get_ledger_entries : Net → Result E (Response LedgerKey) × Net) (max_polls : Option ℕ)
    (poll_interval_ms : ℕ) where
  abbrev S : Type 0
  S = Watcher Net E LedgerKey normalize_key get_ledger_entries max_polls poll_interval_ms

  current_map_lem :
      (es : List (LedgerEntry LedgerKey)) (m : Map (LedgerEntry LedgerKey)) (k : String)
      → val_of LedgerKey (
          Maps.get
            (current_map Net E LedgerKey normalize_key get_ledger_entries max_polls poll_interval_ms
              es m)
            k)
        ≡ reported LedgerKey es k (val_of LedgerKey (Maps.get m k))
  unfolding current_map reported
  current_map_lem [] m k = refl
  current_map_lem (entry ∷ rest) m k = elim (Bool-cases (entry.key_xdr == k)) [
    | inl here ↦ rw here (
        current_map_lem rest (Maps.set m entry.key_xdr entry) k
        ∙ ap (λ v. reported LedgerKey rest k (val_of LedgerKey v))
            (Maps.get-set m entry.key_xdr entry k
              ∙ ap (λ b. if b then some entry else Maps.get m k) here))
    | inr there ↦ rw there (
        current_map_lem rest (Maps.set m entry.key_xdr entry) k
        ∙ ap (λ v. reported LedgerKey rest k (val_of LedgerKey v))
            (Maps.get-set m entry.key_xdr entry k
              ∙ ap (λ b. if b then some entry else Maps.get m k) there))
  ]

  baseline_lem :
      (es : List (String × LedgerEntry LedgerKey)) (cache : Map String) (k : String)
      → Maps.IsUnique es
      → Maps.get
          (baseline Net E LedgerKey normalize_key get_ledger_entries max_polls poll_interval_ms es
            cache)
          k
        ≡ or_else LedgerKey (Maps.lookup es k) (Maps.get cache k)
  unfolding baseline
  baseline_lem [] cache k u = rw (Maps.lookup-nil {V = LedgerEntry LedgerKey} k) refl
  baseline_lem ((j, entry) ∷ rest) cache k (fresh, u) = ground (
    arith,
    eq_iff j k,
    baseline_lem rest (Maps.set cache j entry.val_xdr) k u,
    Maps.get-set cache j entry.val_xdr k,
    Maps.lookup-cons j entry rest k,
    fresh,
  )

  updates_lem :
      (keys : Map LedgerKey) (ledger : Option ℕ) (es : List (String × LedgerEntry LedgerKey))
      (cache : Map String) (k : String)
      → Maps.IsUnique es
      → Maps.get
          (updates Net E LedgerKey normalize_key get_ledger_entries max_polls poll_interval_ms keys
            ledger es cache).1
          k
        ≡ or_else LedgerKey (Maps.lookup es k) (Maps.get cache k)
  unfolding updates
  updates_lem keys ledger [] cache k u = rw (Maps.lookup-nil {V = LedgerEntry LedgerKey} k) refl
  updates_lem keys ledger ((j, entry) ∷ rest) cache k (fresh, u) =
      elim (Bool-cases (differs (Maps.get cache j) entry.val_xdr)) [
        | inl other ↦ rw other (
            ground (
              arith,
              eq_iff j k,
              updates_lem keys ledger rest (Maps.set cache j entry.val_xdr) k u,
              Maps.get-set cache j entry.val_xdr k,
              Maps.lookup-cons j entry rest k,
              fresh,
            ))
        | inr same ↦ rw same (
            ground (
              arith,
              eq_iff j k,
              updates_lem keys ledger rest cache k u,
              unchanged (Maps.get cache j) entry.val_xdr same,
              Maps.lookup-cons j entry rest k,
              fresh,
            ))
      ]

  deletions_lem :
      (keys : Map LedgerKey) (ledger : Option ℕ) (current : Map (LedgerEntry LedgerKey))
      (es : List (String × String)) (cache : Map String) (k : String)
      → Maps.get
          (deletions Net E LedgerKey normalize_key get_ledger_entries max_polls poll_interval_ms
            keys ledger current es cache).1
          k
        ≡ (if Maps.has current k
            then Maps.get cache k
            else elim (Maps.lookup es k) [ none ↦ Maps.get cache k | some _ ↦ none ])
  unfolding deletions
  deletions_lem keys ledger current [] cache k = rw (Maps.lookup-nil {V = String} k) (ground arith)
  deletions_lem keys ledger current ((j, old) ∷ rest) cache k =
      elim (Bool-cases (Maps.has current j)) [
        | inl present ↦ rw present (
            ground (
              arith,
              eq_iff j k,
              deletions_lem keys ledger current rest cache k,
              Maps.lookup-cons j old rest k,
              present,
            ))
        | inr missing ↦ rw missing (
            ground (
              arith,
              eq_iff j k,
              deletions_lem keys ledger current rest (Maps.delete cache j) k,
              Maps.get-delete cache j k,
              Maps.lookup-cons j old rest k,
              missing,
            ))
      ]

  compared_lem :
      (keys : Map LedgerKey) (ledger : Option ℕ) (current : Map (LedgerEntry LedgerKey))
      (cache : Map String) (k : String)
      → Maps.get
          (compared Net E LedgerKey normalize_key get_ledger_entries max_polls poll_interval_ms keys
            ledger current cache).1
          k
        ≡ val_of LedgerKey (Maps.get current k)
  unfolding compared
  compared_lem keys ledger current cache k =
      let cache' =
        (updates Net E LedgerKey normalize_key get_ledger_entries max_polls poll_interval_ms keys
          ledger (Maps.entries_of current) cache).1 in
      let updated =
        updates_lem keys ledger (Maps.entries_of current) cache k
          (Maps.entries_of-IsUnique current) in
      let found = Maps.lookup-entries_of current k in
      let known = Maps.lookup-entries_of cache' k in
      let gone = deletions_lem keys ledger current (Maps.entries_of cache') cache' k in
      let (absent, present) = Maps.has_iff current k in
      gone ∙ ground (arith, updated, found, known, absent, present)

  -- After a poll that was answered the watcher knows what the response says: the value of the last entry
  -- with the key, or nothing where there is none, for every key. Before the first answer it knows nothing.
  pub answered_lem :
      (s : S) (r : Response LedgerKey) (k : String)
      → (s.is_initialized ≡ false → Maps.get s.state_cache k ≡ none)
      → Maps.get
          (answered Net E LedgerKey normalize_key get_ledger_entries max_polls poll_interval_ms s
            r).state_cache
          k
        ≡ reported LedgerKey r.entries k none
  unfolding answered
  answered_lem s r k fresh =
      let current =
        current_map Net E LedgerKey normalize_key get_ledger_entries max_polls poll_interval_ms
          r.entries empty in
      let entries =
        current_map_lem r.entries empty k
        ∙ ap (λ v. reported LedgerKey r.entries k (val_of LedgerKey v)) (Maps.get-empty k) in
      elim (Bool-cases s.is_initialized) [
        | inl known ↦
            rw known (compared_lem s.key_map r.latest_ledger current s.state_cache k ∙ entries)
        | inr new ↦ rw new (
            baseline_lem (Maps.entries_of current) s.state_cache k
              (Maps.entries_of-IsUnique current)
            ∙ ap (λ v. or_else LedgerKey v (Maps.get s.state_cache k))
                (Maps.lookup-entries_of current k)
            ∙ ap (λ v. or_else LedgerKey (Maps.get current k) v) (fresh new)
            ∙ plain (Maps.get current k)
            ∙ entries)
      ]
    where
      plain : (o : Option (LedgerEntry LedgerKey)) → or_else LedgerKey o none ≡ val_of LedgerKey o
      plain none = refl
      plain (some entry) = refl
