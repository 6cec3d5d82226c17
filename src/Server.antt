-- ===== src/Server.antt =====
-- backend/server.ts: the routes of the health server, over the table of Results and the tracker of
-- Spending, and the two handlers below them. A probe that answers in time is a function of a network
-- state; so is the reading of a number. `percentUsed` is left to the reader of total and limit.
pub mod Status
mod Tests
use Prim.Native.Char.{Char, code}
use synapse_stellar.Prelude.{
  ℕ, zero, suc, ◌+◌, min, max, ◌≡◌, Bool, true, false, ◌&&◌, ◌||◌, not, Option, none, some, List,
  [], ◌∷◌, String, leb, ◌==◌, string_eq, nat_eq, if◌then◌else◌,
}
use synapse_stellar.Prelude.Int.{ℤ, pos, negsuc}
use synapse_stellar.Prelude.Results.{Result, ok, err}
use synapse_stellar.Persistence.{SpendingTable}
use synapse_stellar.Spending.{Tracker, total}
use synapse_stellar.Errors.{ErrorClass, Thrown}
use synapse_stellar.Errors.Handler.{ErrorResponse, handle_error}
use synapse_stellar.Results.{ResultTable, PersistedResult, get_results}

pub data ComponentStatus : Type 0 where
  up down : ComponentStatus

pub record Components : Type 0 where
  pub horizon : ComponentStatus
  pub soroban : ComponentStatus
  pub database : ComponentStatus

-- `authorization` is the header.
pub record Request : Type 0 where
  pub method : String
  pub url : String
  pub authorization : Option String

-- The parts of `auth.split(' ')` that are looked at: what stands before the first space, and what stands
-- between it and the next, if there is one.
pub until_space : String → String
until_space String.[] = ""
until_space (String.◌∷◌ c s) =
    let rest = until_space s in if code c == 32 then "" else String.◌∷◌ c rest

unfoldable pub after_space : String → Option String
after_space String.[] = none
after_space (String.◌∷◌ c s) = let rest = after_space s in if code c == 32 then some s else rest

abbrev lower : Char → ℕ
lower c = if leb 65 (code c) && leb (code c) 90 then code c + 32 else code c

-- `s.toLowerCase() === word`, for a word of small ASCII letters.
pub is_word : String → String → Bool
is_word String.[] String.[] = true
is_word (String.◌∷◌ w word) (String.◌∷◌ c s) =
    let rest = is_word word s in code w == lower c && rest
is_word _ _ = false

abbrev token_is : String → Option String → Bool
token_is secret none = false
token_is secret (some rest) = until_space rest == secret

abbrev header_passes : String → Option String → Bool
header_passes secret none = false
header_passes secret (some auth) =
    not (auth == "") && is_word "bearer" (until_space auth) && token_is secret (after_space auth)

abbrev secret_passes : Option String → Option String → Bool
secret_passes none header = true
secret_passes (some secret) header = if secret == "" then true else header_passes secret header

-- `WEBHOOK_SECRET` is the first argument.
pub is_authenticated : Option String → Request → Bool
unfolding until_space after_space is_word
is_authenticated webhook_secret req = secret_passes webhook_secret req.authorization

-- `limitParam ? Math.max(1, Math.min(1000, parseInt(limitParam, 10) || 100)) : 100`
abbrev clamped : Option ℤ → ℕ
clamped none = 100
clamped (some (pos zero)) = 100
clamped (some (pos (suc n))) = max 1 (min 1000 (suc n))
clamped (some (negsuc n)) = 1

pub limit_of : (String → Option ℤ) → Option String → ℕ
limit_of parse_int none = 100
limit_of parse_int (some s) = if s == "" then 100 else clamped (parse_int s)

abbrev from_zero : Option ℤ → ℕ
from_zero (some (pos n)) = n
from_zero _ = 0

pub offset_of : (String → Option ℤ) → Option String → ℕ
offset_of parse_int none = 0
offset_of parse_int (some s) = if s == "" then 0 else from_zero (parse_int s)

module _ (Data : Type 0) (stringify : Data → String) (parse : String → Result Thrown Data)
    (table : ResultTable Thrown) (spending : SpendingTable) (class_name : ErrorClass → String)
    (webhook_secret : Option String) (stellar_network agent_public_key : String)
    (limit : Option ℤ) where
  abbrev pub Saved : Type 0
  Saved = PersistedResult Thrown Data stringify parse

  pub data Body : Type 0 where
    health : (network public_key : String) → Body
    components : Components → Body
    results : List Saved → Body
    spending_status : (total : ℤ) (limit : Option ℤ) (window_ms : ℕ) → Body
    error : ErrorResponse → Body
    unauthorized not_found : Body

  pub record Response : Type 0 where
    pub status : ℕ
    pub body : Body
    pub retry_after : Option ℕ

  abbrev answer : ℕ → Body → Response
  answer status body = record { status = status; body = body; retry_after = none }

  failure : Thrown → Response
  failure e =
      let r = handle_error class_name e in
      record { status = r.status; body = error r; retry_after = r.retry_after }

  abbrev listed : Result Thrown (List Saved) → Response
  listed (ok rs) = answer 200 (results rs)
  listed (err e) = failure e

  pub status_route : table.Db → Response
  unfolding failure
  status_route d = listed (get_results Thrown Data stringify parse table d 10 0)

  spending_route : Request → ℕ → Tracker spending → Response × Tracker spending
  unfolding is_authenticated
  spending_route req now t =
      if not (is_authenticated webhook_secret req)
      then (answer 401 unauthorized, t)
      else let (sum, t') = total spending t now in
        (answer 200 (spending_status sum limit t.window_ms), t')

  -- The listener of `createHealthServer`.
  pub handle : Request → ℕ → table.Db → Tracker spending → Response × Tracker spending
  unfolding status_route spending_route
  handle req now d t =
      if req.method == "GET" && req.url == "/health"
      then (answer 200 (health stellar_network agent_public_key), t)
      else if req.method == "GET" && req.url == "/status"
      then (status_route d, t)
      else if req.method == "GET" && req.url == "/spending"
      then spending_route req now t
      else (answer 404 not_found, t)

  abbrev is_up : ComponentStatus → Bool
  is_up up = true
  is_up down = false

  -- The probes: whether `withTimeout` has given an answer, and for the database also what it says.
  pub handle_health : (horizon soroban database : ComponentStatus) → Response
  handle_health horizon soroban database =
      let all_up = is_up horizon && is_up soroban && is_up database in
      answer (if all_up then 200 else 503)
        (components (record { horizon = horizon; soroban = soroban; database = database }))

  pub handle_results :
      (String → Option ℤ)
      → Request
      → (limit_param offset_param : Option String) → table.Db
      → Response
  unfolding failure is_authenticated limit_of offset_of
  handle_results parse_int req limit_param offset_param d =
      if not (is_authenticated webhook_secret req)
      then answer 401 unauthorized
      else listed (
          get_results Thrown Data stringify parse table d (limit_of parse_int limit_param)
            (offset_of parse_int offset_param))
