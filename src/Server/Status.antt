-- ===== src/Server/Status.antt =====
-- What the health server of backend/server.ts tells to whom.
use synapse_stellar.Prelude.{
  ℕ, ◌≡◌, refl, sym, ap, ◌∙◌, Bool, true, false, Option, none, some, List, [], map, take, String,
  ◌==◌, string_eq, nat_eq, eq_iff, arith, if◌then◌else◌,
}
use mathlib.Core.List.{reverse}
use Prim.Native.Char.{code}
use synapse_stellar.Prelude.Int.{ℤ}
use synapse_stellar.Prelude.Results.{Result, ok}
use synapse_stellar.Persistence.{SpendingTable}
use synapse_stellar.Spending.{Tracker}
use synapse_stellar.Errors.{ErrorClass, Thrown}
use synapse_stellar.Results.{ResultRow, ResultTable, PersistedResult}
use synapse_stellar.Results.Log.{stored, save_all, get_results-save_all}
use synapse_stellar.Server.{
  Request, Response, until_space, after_space, is_authenticated, handle, spending_route, results,
  unauthorized,
}

after_space-until_space : (s : String) → after_space (until_space s) ≡ none
unfolding until_space after_space
after_space-until_space String.[] = refl
after_space-until_space (String.◌∷◌ c s) =
    let rest = after_space-until_space s in go (code c == 32) refl rest
  where
    go :
        (b : Bool)
        → code c == 32 ≡ b
        → after_space (until_space s) ≡ none
        → after_space (if b then "" else String.◌∷◌ c (until_space s)) ≡ none
    go true h rest = refl
    go false h rest = rw (h, rest) refl

spaceless_differs :
    (s t rest : String) → after_space s ≡ none → after_space t ≡ some rest → s == t ≡ false
spaceless_differs s t rest g h =
    elim (s == t) as (λ b. s == t ≡ b → b ≡ false) [
      | true ↦ λ q.
          let same = (eq_iff s t).0 q in
          let clash : none ≡ some rest = sym g ∙ ap after_space same ∙ h in cc
      | false ↦ λ q. refl
    ]
      refl

nonempty : (s rest : String) → after_space s ≡ some rest → s == "" ≡ false
unfolding after_space
nonempty s rest h =
    elim (s == "") as (λ b. s == "" ≡ b → b ≡ false) [
      | true ↦ λ q. let clash : some rest ≡ none = sym h ∙ ap after_space ((eq_iff s "").0 q) in cc
      | false ↦ λ q. refl
    ]
      refl

-- A secret with a space in it is in no header.
is_authenticated_spaced :
    (secret rest method url : String) (auth : Option String)
    → after_space secret ≡ some rest
    → is_authenticated (some secret) (record { method = method; url = url; authorization = auth })
      ≡ false
unfolding is_authenticated
is_authenticated_spaced secret rest method url none h = rw (nonempty secret rest h) refl
is_authenticated_spaced secret rest method url (some auth) h =
    elim (after_space auth)
        as (λ o.
          after_space auth ≡ o
          → is_authenticated (some secret)
              (record { method = method; url = url; authorization = some auth })
            ≡ false) [
              | none ↦ λ q. ground (arith, q, nonempty secret rest h)
              | some s ↦ λ q. ground (
                arith,
                q,
                nonempty secret rest h,
                spaceless_differs (until_space s) secret rest (after_space-until_space s) h,
              )
            ]
      refl

module _ (Data : Type 0) (stringify : Data → String) (parse : String → Result Thrown Data)
    (table : ResultTable Thrown) (spending : SpendingTable) (class_name : ErrorClass → String)
    (webhook_secret : Option String) (stellar_network agent_public_key : String)
    (limit : Option ℤ) where
  abbrev run :
      Request
      → ℕ
      → table.Db
      → Tracker spending
      → Response Data stringify parse table spending class_name webhook_secret stellar_network
          agent_public_key limit
        × Tracker spending
  run =
      handle Data stringify parse table spending class_name webhook_secret stellar_network
        agent_public_key limit

  -- Whoever asks for `/status`, with whatever header and whatever secret is set, is told the ten results
  -- that were saved last, the last saved first, as the table of results holds them. The table was empty
  -- before them, JSON reads what it has written, and the database answers.
  pub status-save_all :
      (parses : (v : Data) → parse (stringify v) ≡ ok v) (auth : Option String)
      (rs : List (PersistedResult Thrown Data stringify parse)) (d d' : table.Db)
      (rows : List ResultRow) (now : ℕ) (t : Tracker spending)
      → table.rows d ≡ []
      → save_all Thrown Data stringify parse table rs d ≡ ok d'
      → table.select d' 10 0 ≡ ok rows
      → run (record { method = "GET"; url = "/status"; authorization = auth }) now d' t ≡ (
        record {
          status = 200;
          body = results (take 10 (reverse (map (stored Thrown Data stringify parse) rs)));
          retry_after = none;
        },
        t,
      )
  unfolding handle
  status-save_all parses auth rs d d' rows now t empty saved answers =
      rw
        (get_results-save_all Thrown Data stringify parse parses table rs d d' 10 0 rows empty saved
          answers)
        refl

  -- With a secret that has a space in it nobody is told the spending, whatever header they send: the
  -- answer to `/spending` is 401, and the tracker is left alone.
  pub spending_locked :
      (secret rest : String) (auth : Option String) (now : ℕ) (d : table.Db) (t : Tracker spending)
      → webhook_secret ≡ some secret
      → after_space secret ≡ some rest
      → run (record { method = "GET"; url = "/spending"; authorization = auth }) now d t
        ≡ (record { status = 401; body = unauthorized; retry_after = none }, t)
  unfolding handle spending_route
  spending_locked secret rest auth now d t q h =
      rw (q, is_authenticated_spaced secret rest "GET" "/spending" auth h) refl
