-- ===== src/Payment/Path.antt =====
-- backend/tools/PathPaymentTool.ts. `buildMemo` is the copy of the one of Memos. The SDK's assets and
-- transactions, the search for paths and the network are parameters.
pub mod Routes
pub mod Laws
use Prim.Native.String.{count}
use synapse_stellar.Prelude.{
  Bool, true, false, ◌&&◌, ◌||◌, not, Option, none, some, List, [], ◌∷◌, String, ◌==◌, string_eq,
  nat_eq, if◌then◌else◌,
}
use synapse_stellar.Prelude.Int.{ℤ}
use synapse_stellar.Prelude.Results.{Result, ok, err}
use synapse_stellar.Payment.Memos.{Memo, MemoValue, MemoError, build_memo}
use synapse_stellar.Payment.Submit.{submit_with_retry}
use synapse_stellar.Payment.{is_decimal, is_positive, is_memo_type, has_issuer}

pub record AssetInput : Type 0 where
  pub code : String
  pub issuer : Option String

pub record PathPaymentInput : Type 0 where
  pub destination : String
  pub send_asset : AssetInput
  pub send_amount : String
  pub dest_asset : AssetInput
  pub dest_min_amount : String
  pub path : List AssetInput
  pub allow_self_payment : Bool
  pub memo_type : String
  pub memo : Option MemoValue

-- A step of a path that Horizon answers.
pub record Hop : Type 0 where
  pub asset_type : String
  pub asset_code : Option String
  pub code : Option String
  pub asset_issuer : Option String
  pub issuer : Option String

pub data PathError (E : Type 0) : Type 0 where
  invalid_input own_address issuer_required no_path : PathError E
  memo_error : MemoError → PathError E
  thrown : E → PathError E

-- The operation that is signed.
pub record PathOperation (Asset : Type 0) : Type 0 where
  pub send_asset : Asset
  pub send_amount : String
  pub destination : String
  pub dest_asset : Asset
  pub dest_min : String
  pub path : List Asset

-- The tests of `PathPaymentInputSchema` on an input whose fields have their types.
pub is_valid_path : (String → Option ℤ) → PathPaymentInput → Bool
is_valid_path parse_float input =
    count input.destination == 56
    && is_decimal input.send_amount
    && is_positive (parse_float input.send_amount)
    && is_decimal input.dest_min_amount
    && is_positive (parse_float input.dest_min_amount)
    && is_memo_type input.memo_type

-- `a || b` on texts that may be missing.
abbrev pub or_text : Option String → Option String → Option String
or_text none b = b
or_text (some a) b = if a == "" then b else some a

abbrev is_text : Option String → String → Bool
is_text none t = false
is_text (some s) t = s == t

module _ (Asset E : Type 0) (native : Asset)
    (new_asset : Option String → Option String → Result E Asset) where
  abbrev made : Result E Asset → Result (PathError E) Asset
  made (ok a) = ok a
  made (err e) = err (thrown e)

  pub to_asset : AssetInput → Result (PathError E) Asset
  to_asset a =
      if a.code == "XLM"
      then ok native
      else if not (has_issuer a.issuer)
      then err issuer_required
      else made (new_asset (some a.code) a.issuer)

  pub hop_asset : Hop → Result (PathError E) Asset
  hop_asset p =
      if p.asset_type == "native" || is_text p.code "XLM"
      then ok native
      else made (new_asset (or_text p.asset_code p.code) (or_text p.asset_issuer p.issuer))

  abbrev prepended :
      Result (PathError E) Asset
      → Result (PathError E) (List Asset)
      → Result (PathError E) (List Asset)
  prepended (ok a) (ok rest) = ok (a ∷ rest)
  prepended (ok a) (err e) = err e
  prepended (err e) rest = err e

  -- `map` with a function that may throw.
  pub map_assets :
      {A : Type 0} → (A → Result (PathError E) Asset) → List A → Result (PathError E) (List Asset)
  map_assets f [] = ok []
  map_assets f (a ∷ rest) = let more = map_assets f rest in prepended (f a) more

module _ (parse_float : String → Option ℤ) (Asset Account Tx Submitted Net E : Type 0)
    (native : Asset) (new_asset : Option String → Option String → Result E Asset)
    (public_key : String)
    (strict_send_paths : Asset → String → Asset → Net → Result E (List (Option (List Hop))) × Net)
    (load_account : Bool → Net → Result E Account × Net)
    (build : Account → PathOperation Asset → Option Memo → Tx)
    (submit_transaction : Tx → Net → Result E Submitted × Net) (is_bad_seq : E → Bool) where
  abbrev Ran : Type 0
  Ran = Result (PathError E) Submitted × Net

  -- The path of the first record, if it is a list.
  from_record : Option (List Hop) → Result (PathError E) (List Asset)
  unfolding hop_asset map_assets
  from_record none = ok []
  from_record (some hops) =
      map_assets Asset E native new_asset (hop_asset Asset E native new_asset) hops

  from_records : Result E (List (Option (List Hop))) × Net → Result (PathError E) (List Asset) × Net
  unfolding from_record
  from_records (err e, net) = (err (thrown e), net)
  from_records (ok [], net) = (err no_path, net)
  from_records (ok (best ∷ _), net) = (from_record best, net)

  -- The path that is given, or else the one that Horizon answers first.
  pub chosen_path :
      Asset → Asset → String → List Asset → Net → Result (PathError E) (List Asset) × Net
  unfolding from_records
  chosen_path send_asset dest_asset send_amount [] net =
      from_records (strict_send_paths send_asset send_amount dest_asset net)
  chosen_path send_asset dest_asset send_amount (a ∷ path) net = (ok (a ∷ path), net)

  pub operation : PathPaymentInput → Asset → Asset → List Asset → PathOperation Asset
  operation input send_asset dest_asset path = record {
    send_asset = send_asset;
    send_amount = input.send_amount;
    destination = input.destination;
    dest_asset = dest_asset;
    dest_min = input.dest_min_amount;
    path = path;
  }

  pub build_path_tx : PathPaymentInput → PathOperation Asset → Account → Result (PathError E) Tx
  build_path_tx input op source = elim (build_memo input.memo_type input.memo) [
    | err e ↦ err (memo_error e)
    | ok memo ↦ ok (build source op memo)
  ]

  pub sent : PathPaymentInput → Asset → Asset → Result (PathError E) (List Asset) × Net → Ran
  unfolding operation build_path_tx
  sent input send_asset dest_asset (err e, net) = (err e, net)
  sent input send_asset dest_asset (ok path, net) =
      submit_with_retry Account Tx Submitted Net E (PathError E) thrown load_account
        (build_path_tx input (operation input send_asset dest_asset path)) submit_transaction
        is_bad_seq net

  pub resolved :
      PathPaymentInput
      → Result (PathError E) Asset
      → Result (PathError E) Asset
      → Result (PathError E) (List Asset)
      → Net
      → Ran
  unfolding chosen_path sent
  resolved input (err e) dest path net = (err e, net)
  resolved input (ok a) (err e) path net = (err e, net)
  resolved input (ok a) (ok b) (err e) net = (err e, net)
  resolved input (ok a) (ok b) (ok path) net =
      sent input a b (chosen_path a b input.send_amount path net)

  unfoldable pub execute_path : PathPaymentInput → Net → Ran
  unfolding is_valid_path to_asset map_assets resolved
  execute_path input net =
      if not (is_valid_path parse_float input)
      then (err invalid_input, net)
      else if not input.allow_self_payment && input.destination == public_key
      then (err own_address, net)
      else resolved input (to_asset Asset E native new_asset input.send_asset)
          (to_asset Asset E native new_asset input.dest_asset)
          (map_assets Asset E native new_asset (to_asset Asset E native new_asset) input.path) net
