-- ===== src/Results/Log.antt =====
-- What the table of results of backend/persistence.ts gives back.
use synapse_stellar.Prelude.{
  ℕ, ◌≡◌, refl, sym, ap, ◌∙◌, Bool, true, false, Option, none, some, List, [], ◌∷◌, ◌++◌, map,
  append-nil, append_assoc, take, drop, map-take, map-drop, map-reverse, String,
}
use mathlib.Core.List.{reverse}
use synapse_stellar.Prelude.Results.{Result, ok, err}
use synapse_stellar.Results.{
  ResultRow, ResultTable, PersistedResult, encode, decode, decode_all, save_result, get_results,
}

module _ (E Data : Type 0) (stringify : Data → String) (parse : String → Result E Data) where
  abbrev Saved : Type 0
  Saved = PersistedResult E Data stringify parse

  -- A result without the fields that no column holds.
  pub stored : Saved → Saved
  stored r = record r { error_type = none; duration_ms = none; sequence_index = none }

  module _ (table : ResultTable E) where
    -- The results are saved one after the other.
    unfoldable pub save_all : List Saved → table.Db → Result E (table.Db)
    save_all [] d = ok d
    save_all (r ∷ rs) d = elim (save_result E Data stringify parse table r d) [
      | err e ↦ err e
      | ok d' ↦ save_all rs d'
    ]

  module _ (parses : (v : Data) → parse (stringify v) ≡ ok v) where
    decode-encode :
        (r : Saved)
        → decode E Data stringify parse (encode E Data stringify parse r) ≡ ok (stored r)
    unfolding decode encode stored
    decode-encode r = go r.success r.result_data
      where
        go :
            (success : Bool) (contents : Option Data)
            → decode E Data stringify parse (
                encode E Data stringify parse
                  (record r { success = success; result_data = contents }))
              ≡ ok (stored (record r { success = success; result_data = contents }))
        go true none = refl
        go false none = refl
        go true (some v) = rw (parses v) refl
        go false (some v) = rw (parses v) refl

    decode_all-map :
        (rs : List Saved)
        → decode_all E Data stringify parse (map (encode E Data stringify parse) rs)
          ≡ ok (map stored rs)
    unfolding decode_all
    decode_all-map [] = refl
    decode_all-map (r ∷ rs) = rw (decode-encode r, decode_all-map rs) refl

    module _ (table : ResultTable E) where
      rows-save_all :
          (rs : List Saved) (d d' : table.Db)
          → save_all table rs d ≡ ok d'
          → table.rows d' ≡ table.rows d ++ map (encode E Data stringify parse) rs
      unfolding save_all save_result
      rows-save_all [] d d' = λ h. let q : d ≡ d' = cc in rw (← q) (sym (append-nil (table.rows d)))
      rows-save_all (r ∷ rs) d d' =
          go (λ d1. rows-save_all rs d1 d') (table.insert d (encode E Data stringify parse r)) refl
        where
          go :
              ((d1 : table.Db)
                → save_all table rs d1 ≡ ok d'
                → table.rows d' ≡ table.rows d1 ++ map (encode E Data stringify parse) rs)
              → (out : Result E (table.Db)) → table.insert d (encode E Data stringify parse r) ≡ out
              → (elim out [ err e ↦ err e | ok d1 ↦ save_all table rs d1 ]) ≡ ok d'
              → table.rows d'
                ≡ table.rows d
                  ++ encode E Data stringify parse r ∷ map (encode E Data stringify parse) rs
          go rest (err e) q h = cc
          go rest (ok d1) q h =
              rest d1 h
              ∙ ap (λ l. l ++ map (encode E Data stringify parse) rs)
                  (table.rows-insert d d1 (encode E Data stringify parse r) q)
              ∙ append_assoc (table.rows d) (encode E Data stringify parse r ∷ [])
                  (map (encode E Data stringify parse) rs)

      -- What is saved is given back: of the results that were saved to an empty table, `getResults` gives,
      -- when the database answers, `limit` many from `offset` on, the last saved first, each as it was but
      -- for the type of the error, the duration and the position in a sequence, which are lost. JSON reads
      -- what it has written.
      pub get_results-save_all :
          (rs : List Saved) (d d' : table.Db) (limit offset : ℕ) (rows : List ResultRow)
          → table.rows d ≡ []
          → save_all table rs d ≡ ok d'
          → table.select d' limit offset ≡ ok rows
          → get_results E Data stringify parse table d' limit offset
            ≡ ok (take limit (drop offset (reverse (map stored rs))))
      unfolding get_results
      get_results-save_all rs d d' limit offset rows empty saved answers =
          let enc = encode E Data stringify parse in
          let held = rows-save_all rs d d' saved ∙ ap (λ l. l ++ map enc rs) empty in
          let read =
            table.select-rows d' limit offset rows answers
            ∙ ap (λ l. take limit (drop offset (reverse l))) held
            ∙ sym (window enc limit offset rs) in
          rw (answers, get_results, read)
            (decode_all-map (take limit (drop offset (reverse rs)))
              ∙ ap (λ l. ok l) (window stored limit offset rs))
        where
          window :
              {B : Type 0} (f : Saved → B) (limit offset : ℕ) (rs : List Saved)
              → map f (take limit (drop offset (reverse rs)))
                ≡ take limit (drop offset (reverse (map f rs)))
          window f limit offset rs =
              map-take f limit (drop offset (reverse rs))
              ∙ ap (take limit) (map-drop f offset (reverse rs))
              ∙ ap (λ l. take limit (drop offset l)) (map-reverse f rs)
