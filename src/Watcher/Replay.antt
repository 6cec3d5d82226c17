-- ===== src/Watcher/Replay.antt =====
-- The changes that the watcher of backend/tools/ContractStorageWatcherTool.ts emits, replayed.
use synapse_stellar.Prelude.{
  ℕ, ◌+◌, ◌≡◌, refl, sym, ap, ◌∙◌, inl, inr, Bool, true, false, ◌||◌, Option, none, some, List, [],
  ◌∷◌, ◌++◌, append-nil, append_assoc, String, string_eq, if◌then◌else◌, Bool-cases, Option-cases,
}
use mathlib.Core.Path.{subst}
use synapse_stellar.Prelude.Maps
use synapse_stellar.Prelude.Maps.{Map, empty}
use synapse_stellar.Prelude.Results.{Result, ok, err}
use synapse_stellar.Watcher.{
  LedgerEntry, Response, StorageChange, Event, change, polled, error, done, Step, polls, stops,
  Watcher, stop, current_map, changes_of, compared, answered, read, is_last, scheduled, begun, poll,
  step, steps,
}
use synapse_stellar.Watcher.Compare.{Leads, Leads-append, compared-Leads}

module _ (Net E LedgerKey : Type 0) (normalize_key : String → LedgerKey)
    (get_ledger_entries : Net → Result E (Response LedgerKey) × Net) (max_polls : Option ℕ)
    (poll_interval_ms : ℕ) where
  abbrev S : Type 0
  S = Watcher Net E LedgerKey normalize_key get_ledger_entries max_polls poll_interval_ms

  abbrev compared_run :
      Map LedgerKey
      → Option ℕ
      → Map (LedgerEntry LedgerKey)
      → Map String
      → List (StorageChange LedgerKey) × Map String
  compared_run =
      compared Net E LedgerKey normalize_key get_ledger_entries max_polls poll_interval_ms

  -- The changes among the events that were emitted.
  pub changes_in : List (Event LedgerKey E) → List (StorageChange LedgerKey)
  changes_in [] = []
  changes_in (change c ∷ es) = c ∷ changes_in es
  changes_in (_ ∷ es) = changes_in es

  changes_in-append :
      (es fs : List (Event LedgerKey E)) → changes_in (es ++ fs) ≡ changes_in es ++ changes_in fs
  unfolding changes_in
  changes_in-append [] fs = refl
  changes_in-append (change c ∷ es) fs = ap (λ l. c ∷ l) (changes_in-append es fs)
  changes_in-append (polled n ∷ es) fs = changes_in-append es fs
  changes_in-append (error e ∷ es) fs = changes_in-append es fs
  changes_in-append (done n ∷ es) fs = changes_in-append es fs

  changes_in-changes_of :
      (cs : List (StorageChange LedgerKey)) (fs : List (Event LedgerKey E))
      → changes_in (
          changes_of Net E LedgerKey normalize_key get_ledger_entries max_polls poll_interval_ms cs
          ++ fs)
        ≡ cs ++ changes_in fs
  unfolding changes_in changes_of
  changes_in-changes_of [] fs = refl
  changes_in-changes_of (c ∷ cs) fs = ap (λ l. c ∷ l) (changes_in-changes_of cs fs)

  abbrev run : S × Net → List Step → S × Net
  run = steps Net E LedgerKey normalize_key get_ledger_entries max_polls poll_interval_ms

  -- The later watcher has emitted more, and the changes among it lead from the one cache to the other.
  abbrev pub Grows : S → S → Type 0
  Grows s s' =
      (new : List (Event LedgerKey E)) × (s'.is_initialized ≡ true)
      × (s'.emitted ≡ s.emitted ++ new)
      × Leads LedgerKey (Maps.get s.state_cache) (changes_in new) (Maps.get s'.state_cache)

  same :
      (s s' : S)
      → s'.is_initialized ≡ true
      → s'.emitted ≡ s.emitted
      → s'.state_cache ≡ s.state_cache
      → Grows s s'
  unfolding changes_in
  same s s' i e c = ([], i, e ∙ sym (append-nil s.emitted), λ j. ap (λ m. Maps.get m j) (sym c))

  emits :
      (s s' : S) (e : Event LedgerKey E)
      → s'.is_initialized ≡ true
      → s'.emitted ≡ s.emitted ++ e ∷ []
      → changes_in (e ∷ []) ≡ []
      → s'.state_cache ≡ s.state_cache
      → Grows s s'
  emits s s' e i eq quiet c = (
    e ∷ [],
    i,
    eq,
    subst (λ cs. Leads LedgerKey (Maps.get s.state_cache) cs (Maps.get s'.state_cache)) (sym quiet)
        (λ j. ap (λ m. Maps.get m j) (sym c)),
  )

  Grows-trans : (s s' s'' : S) → Grows s s' → Grows s' s'' → Grows s s''
  Grows-trans s s' s'' (new, i, eq, leads) (new', i', eq', leads') = (
    new ++ new',
    i',
    eq' ∙ ap (λ l. l ++ new') eq ∙ append_assoc s.emitted new new',
    subst (λ cs. Leads LedgerKey (Maps.get s.state_cache) cs (Maps.get s''.state_cache))
        (sym (changes_in-append new new'))
        (Leads-append LedgerKey (Maps.get s.state_cache) (Maps.get s'.state_cache)
          (Maps.get s''.state_cache) (changes_in new) (changes_in new') leads leads'),
  )

  answered-Grows :
      (s : S) (r : Response LedgerKey)
      → s.is_initialized ≡ true
      → Grows s
          (answered Net E LedgerKey normalize_key get_ledger_entries max_polls poll_interval_ms s r)
  unfolding answered changes_in
  answered-Grows s r i =
      let current =
        current_map Net E LedgerKey normalize_key get_ledger_entries max_polls poll_interval_ms
          r.entries empty in
      let out = compared_run s.key_map r.latest_ledger current s.state_cache in
      let cs =
        changes_of Net E LedgerKey normalize_key get_ledger_entries max_polls poll_interval_ms
          out.0 in
      let events = cs ++ polled s.poll_count ∷ [] in
      let quiet : changes_in events ≡ out.0 =
        changes_in-changes_of out.0 (polled s.poll_count ∷ []) ∙ append-nil out.0 in
      rw i (
        events,
        refl,
        append_assoc s.emitted cs (polled s.poll_count ∷ []),
        subst (λ cs. Leads LedgerKey (Maps.get s.state_cache) cs (Maps.get out.1)) (sym quiet)
            (compared-Leads Net E LedgerKey normalize_key get_ledger_entries max_polls
              poll_interval_ms s.key_map r.latest_ledger current s.state_cache),
      )

  read-Grows :
      (s : S) (out : Result E (Response LedgerKey) × Net)
      → s.is_initialized ≡ true
      → Grows s
          (read Net E LedgerKey normalize_key get_ledger_entries max_polls poll_interval_ms s out).0
  unfolding read changes_in
  read-Grows s (ok r, net) i = answered-Grows s r i
  read-Grows s (err e, net) i =
      emits s (record s { emitted = s.emitted ++ error e ∷ [] }) (error e) i refl refl refl

  scheduled-Grows :
      (s : S)
      → s.is_initialized ≡ true
      → Grows s
          (scheduled Net E LedgerKey normalize_key get_ledger_entries max_polls poll_interval_ms s)
  unfolding scheduled stop changes_in
  scheduled-Grows s i = elim (Bool-cases (is_last s.poll_count max_polls)) [
    | inl last ↦ rw last (
        emits s
          (record s {
            is_stopped = true;
            timer = none;
            emitted = s.emitted ++ done s.poll_count ∷ [];
          })
          (done s.poll_count) i refl refl refl)
    | inr more ↦ rw more (elim (Bool-cases s.is_stopped) [
      | inl stopped ↦ simp (stopped) (same s s i refl refl)
      | inr going ↦ simp (going) (same s (record s { timer = some poll_interval_ms }) i refl refl)
    ])
  ]

  abbrev read_run : S → Result E (Response LedgerKey) × Net → S × Net
  read_run = read Net E LedgerKey normalize_key get_ledger_entries max_polls poll_interval_ms

  begun-Grows :
      (b : Bool) (s : S) (net : Net)
      → s.is_initialized ≡ true
      → Grows s
          (begun Net E LedgerKey normalize_key get_ledger_entries max_polls poll_interval_ms b s
            net).0
  unfolding begun
  begun-Grows b s net i =
      let counted : S = record s { poll_count = s.poll_count + 1 } in
      let out = read_run counted (get_ledger_entries net) in
      let (new, i', eq, leads) = read-Grows counted (get_ledger_entries net) i in
      let after : S = record (out.0) { is_stopped = out.0.is_stopped || b } in
      Grows-trans s after
        (scheduled Net E LedgerKey normalize_key get_ledger_entries max_polls poll_interval_ms
          after)
        (new, i', eq, leads) (scheduled-Grows after i')

  abbrev poll_run : Bool → S → Net → S × Net
  poll_run = poll Net E LedgerKey normalize_key get_ledger_entries max_polls poll_interval_ms

  abbrev begun_run : Bool → S → Net → S × Net
  begun_run = begun Net E LedgerKey normalize_key get_ledger_entries max_polls poll_interval_ms

  pub poll_lem :
      (b stopped : Bool) (s : S) (net : Net)
      → s.is_stopped ≡ stopped
      → poll_run b s net ≡ (if stopped then (s, net) else begun_run b s net)
  unfolding poll
  poll_lem b stopped s net h = ap (λ x. if x then (s, net) else begun_run b s net) h

  poll-Grows :
      (b : Bool) (s : S) (net : Net) → s.is_initialized ≡ true → Grows s (poll_run b s net).0
  poll-Grows b s net i = elim (Bool-cases s.is_stopped) [
    | inl stopped ↦
        subst (λ o. Grows s (o.0)) (sym (poll_lem b true s net stopped)) (same s s i refl refl)
    | inr going ↦
        subst (λ o. Grows s (o.0)) (sym (poll_lem b false s net going)) (begun-Grows b s net i)
  ]

  step-Grows :
      (e : Step) (s : S) (net : Net)
      → s.is_initialized ≡ true
      → Grows s
          (step Net E LedgerKey normalize_key get_ledger_entries max_polls poll_interval_ms
            (s, net)
            e).0
  unfolding step stop
  step-Grows stops s net i = same s (record s { is_stopped = true; timer = none }) i refl refl
  step-Grows (polls b) s net i = elim (Option-cases s.timer) [
    | inl idle ↦ rw (idle, step) (same s s i refl refl)
    | inr (delay, due) ↦ rw (due, step) (poll-Grows b (record s { timer = none }) net i)
  ]

  -- Replaying the changes that a watcher emits gives what it knows: once it has a state, whatever polls,
  -- failed ones included, and stops come, the changes emitted since lead from the cache before to the
  -- cache after, each naming the old value of its key and a new one that differs.
  pub steps-Grows :
      (es : List Step) (s : S) (net : Net) → s.is_initialized ≡ true → Grows s (run (s, net) es).0
  unfolding steps
  steps-Grows [] s net i = same s s i refl refl
  steps-Grows (e ∷ es) s net i =
      let out =
        step Net E LedgerKey normalize_key get_ledger_entries max_polls poll_interval_ms (s, net)
          e in
      let (new, i', eq, leads) = step-Grows e s net i in
      Grows-trans s out.0 (run out es).0 (new, i', eq, leads) (steps-Grows es out.0 out.1 i')
