-- ===== src/Payment/Path/Laws.antt =====
-- When a path payment of backend/tools/PathPaymentTool.ts succeeds.
use synapse_stellar.Prelude.{
  ◌≡◌, refl, sym, subst, ◌↔◌, inl, inr, Bool, true, false, ◌&&◌, not, Option, none, some, List, [],
  ◌∷◌, String, ◌==◌, string_eq, Bool-cases, arith,
}
use synapse_stellar.Prelude.Int.{ℤ}
use synapse_stellar.Prelude.Results.{Result, ok, err}
use synapse_stellar.Payment.Memos.{Memo}
use synapse_stellar.Payment.Submit.Laws.{Accepted, submit_with_retry_iff}
use synapse_stellar.Payment.{is_decimal}
use synapse_stellar.Payment.Path.{
  AssetInput, PathPaymentInput, Hop, PathError, from_record, from_records, hop_asset, thrown,
  PathOperation, is_valid_path, to_asset, map_assets, chosen_path, operation, build_path_tx, sent,
  resolved, execute_path,
}
use synapse_stellar.Payment.Path.Routes.{
  Each, IsAsset, IsHop, to_asset-IsAsset, hop_asset-IsHop, map_assets-Each,
}

module _ (parse_float : String → Option ℤ) (Asset Account Tx Submitted Net E : Type 0)
    (native : Asset) (new_asset : Option String → Option String → Result E Asset)
    (public_key : String)
    (strict_send_paths : Asset → String → Asset → Net → Result E (List (Option (List Hop))) × Net)
    (load_account : Bool → Net → Result E Account × Net)
    (build : Account → PathOperation Asset → Option Memo → Tx)
    (submit_transaction : Tx → Net → Result E Submitted × Net) (is_bad_seq : E → Bool) where
  abbrev Ran : Type 0
  Ran = Result (PathError E) Submitted × Net

  abbrev run : PathPaymentInput → Net → Ran
  run =
      execute_path parse_float Asset Account Tx Submitted Net E native new_asset public_key
        strict_send_paths load_account build submit_transaction is_bad_seq

  abbrev path_for :
      Asset → Asset → String → List Asset → Net → Result (PathError E) (List Asset) × Net
  path_for =
      chosen_path parse_float Asset Account Tx Submitted Net E native new_asset public_key
        strict_send_paths load_account build submit_transaction is_bad_seq

  abbrev operation_of : PathPaymentInput → Asset → Asset → List Asset → PathOperation Asset
  operation_of =
      operation parse_float Asset Account Tx Submitted Net E native new_asset public_key
        strict_send_paths load_account build submit_transaction is_bad_seq

  abbrev build_for : PathPaymentInput → PathOperation Asset → Account → Result (PathError E) Tx
  build_for =
      build_path_tx parse_float Asset Account Tx Submitted Net E native new_asset public_key
        strict_send_paths load_account build submit_transaction is_bad_seq

  abbrev sent_run : PathPaymentInput → Asset → Asset → Result (PathError E) (List Asset) × Net → Ran
  sent_run =
      sent parse_float Asset Account Tx Submitted Net E native new_asset public_key
        strict_send_paths load_account build submit_transaction is_bad_seq

  abbrev resolved_run :
      PathPaymentInput
      → Result (PathError E) Asset
      → Result (PathError E) Asset
      → Result (PathError E) (List Asset)
      → Net
      → Ran
  resolved_run =
      resolved parse_float Asset Account Tx Submitted Net E native new_asset public_key
        strict_send_paths load_account build submit_transaction is_bad_seq

  -- A transaction with the operation of this path is accepted.
  abbrev pub AcceptedAlong :
      PathPaymentInput
      → Asset
      → Asset
      → Result (PathError E) (List Asset) × Net
      → Submitted
      → Type 0
  AcceptedAlong input a b out r =
      (path : List Asset) × (out.0 ≡ ok path)
      × Accepted Account Tx Submitted Net E (PathError E) thrown load_account
          (build_for input (operation_of input a b path)) submit_transaction is_bad_seq r
          (load_account false out.1)

  -- The assets that an input names, and a transaction along a path between them that is accepted.
  abbrev pub Follows :
      PathPaymentInput
      → Result (PathError E) Asset
      → Result (PathError E) Asset
      → Result (PathError E) (List Asset)
      → Net
      → Submitted
      → Type 0
  Follows input send dest path net r =
      (a : Asset) × (b : Asset) × (given : List Asset) × (send ≡ ok a)
      × (dest ≡ ok b)
      × (path ≡ ok given)
      × AcceptedAlong input a b (path_for a b input.send_amount given net) r

  sent_iff :
      (input : PathPaymentInput) (a b : Asset) (out : Result (PathError E) (List Asset) × Net)
      (r : Submitted)
      → ((sent_run input a b out).0 ≡ ok r) ↔ AcceptedAlong input a b out r
  unfolding sent
  sent_iff input a b (err e, net) r = (λ h. cc, λ (path, bad, h). cc)
  sent_iff input a b (ok path, net) r =
      let (there, back) =
        submit_with_retry_iff Account Tx Submitted Net E (PathError E) thrown load_account
          (build_for input (operation_of input a b path)) submit_transaction is_bad_seq net r in
      (λ h. (path, refl, there h), λ (path', same, h). back (again path' same h))
    where
      again :
          (path' : List Asset)
          → ◌≡◌ {A = Result (PathError E) (List Asset)} (ok path) (ok path')
          → Accepted Account Tx Submitted Net E
              (PathError E)
              thrown
              load_account
              (build_for input (operation_of input a b path'))
              submit_transaction
              is_bad_seq
              r
              (load_account false net)
          → Accepted Account Tx Submitted Net E
              (PathError E)
              thrown
              load_account
              (build_for input (operation_of input a b path))
              submit_transaction
              is_bad_seq
              r
              (load_account false net)
      again path' same h = let q : path ≡ path' = cc in rw q h

  resolved_iff :
      (input : PathPaymentInput) (send dest : Result (PathError E) Asset)
      (path : Result (PathError E) (List Asset)) (net : Net) (r : Submitted)
      → ((resolved_run input send dest path net).0 ≡ ok r) ↔ Follows input send dest path net r
  unfolding resolved
  resolved_iff input (err e) dest path net r = (λ h. cc, λ (a, b, given, bad, _, _, _). cc)
  resolved_iff input (ok a) (err e) path net r = (λ h. cc, λ (a', b, given, _, bad, _, _). cc)
  resolved_iff input (ok a) (ok b) (err e) net r = (λ h. cc, λ (a', b', given, _, _, bad, _). cc)
  resolved_iff input (ok a) (ok b) (ok path) net r =
      let (there, back) = sent_iff input a b (path_for a b input.send_amount path net) r in
      (
        λ h. (a, b, path, refl, refl, refl, there h),
        λ (a', b', path', p, q, s, h). back (again a' b' path' p q s h),
      )
    where
      again :
          (a' b' : Asset) (path' : List Asset)
          → ◌≡◌ {A = Result (PathError E) Asset} (ok a) (ok a')
          → ◌≡◌ {A = Result (PathError E) Asset} (ok b) (ok b')
          → ◌≡◌ {A = Result (PathError E) (List Asset)} (ok path) (ok path')
          → AcceptedAlong input a' b' (path_for a' b' input.send_amount path' net) r
          → AcceptedAlong input a b (path_for a b input.send_amount path net) r
      again a' b' path' p q s h =
          let e : a ≡ a' = cc in let f : b ≡ b' = cc in let g : path ≡ path' = cc in rw (e, f, g) h

  execute_path-Follows :
      (input : PathPaymentInput) (net : Net) (r : Submitted)
      → ((run input net).0 ≡ ok r) ↔ (
          (is_valid_path parse_float input ≡ true)
          × ((not input.allow_self_payment && input.destination == public_key) ≡ false)
          × Follows input
              (to_asset Asset E native new_asset input.send_asset)
              (to_asset Asset E native new_asset input.dest_asset)
              (map_assets Asset E native new_asset (to_asset Asset E native new_asset) input.path)
              net
              r)
  unfolding execute_path
  execute_path-Follows input net r = elim (Bool-cases (is_valid_path parse_float input)) [
    | inr invalid ↦ rw invalid (λ h. cc, λ h. cc (h.0))
    | inl valid ↦
        rw valid
          (elim (Bool-cases (not input.allow_self_payment && input.destination == public_key)) [
            | inl own ↦ rw own (λ h. cc, λ h. cc (h.1))
            | inr other ↦
                let (there, back) =
                  resolved_iff input (to_asset Asset E native new_asset input.send_asset)
                    (to_asset Asset E native new_asset input.dest_asset)
                    (map_assets Asset E native new_asset (to_asset Asset E native new_asset)
                      input.path)
                    net r in
                rw other (λ h. (refl, refl, there h), λ (_, _, f). back f)
          ])
  ]

  abbrev Named : AssetInput → Asset → Type 0
  Named = IsAsset Asset E native new_asset

  -- The path of a record of Horizon, which may have none.
  abbrev pub RecordPath : Option (List Hop) → List Asset → Type 0
  RecordPath none path = path ≡ []
  RecordPath (some hops) path = Each (IsHop Asset E native new_asset) hops path

  -- The path that is taken: the one that is given, or, where none is, that of the first record of Horizon.
  abbrev pub Taken : Asset → Asset → String → List Asset → Net → List Asset → Type 0
  Taken a b amount [] net path =
      (first : Option (List Hop)) × (more : List (Option (List Hop))) × ((strict_send_paths a amount
          b net).0
        ≡ ok (first ∷ more))
      × RecordPath first path
  Taken a b amount (g ∷ given) net path = path ≡ g ∷ given

  -- The network after the search, if there is one.
  abbrev pub searched : Asset → Asset → String → List Asset → Net → Net
  searched a b amount [] net = (strict_send_paths a amount b net).1
  searched a b amount (g ∷ given) net = net

  RecordPath-iff :
      (first : Option (List Hop)) (path : List Asset)
      → (from_record parse_float Asset Account Tx Submitted Net E native new_asset public_key
            strict_send_paths load_account build submit_transaction is_bad_seq first
          ≡ ok path)
        ↔ RecordPath first path
  unfolding from_record
  RecordPath-iff none path = (λ h. cc, λ h. cc)
  RecordPath-iff (some hops) path =
      map_assets-Each Asset E native new_asset (hop_asset Asset E native new_asset)
        (IsHop Asset E native new_asset) (hop_asset-IsHop Asset E native new_asset) hops path

  abbrev records_run :
      Result E (List (Option (List Hop))) × Net → Result (PathError E) (List Asset) × Net
  records_run =
      from_records parse_float Asset Account Tx Submitted Net E native new_asset public_key
        strict_send_paths load_account build submit_transaction is_bad_seq

  records_iff :
      (out : Result E (List (Option (List Hop))) × Net) (path : List Asset)
      → ((records_run out).0 ≡ ok path) ↔ (
          (first : Option (List Hop)) × (more : List (Option (List Hop))) × (out.0
            ≡ ok (first ∷ more))
          × RecordPath first path)
  unfolding from_records
  records_iff (err e, net) path = (λ h. cc, λ (first, more, bad, _). cc)
  records_iff (ok [], net) path = (λ h. cc, λ (first, more, bad, _). cc)
  records_iff (ok (best ∷ rest), net) path =
      let (there, back) = RecordPath-iff best path in
      (
        λ h. (best, rest, refl, there h),
        λ (first, more, same, h).
            let q : first ≡ best = cc in back (subst (λ x. RecordPath x path) q h),
      )

  records_net : (out : Result E (List (Option (List Hop))) × Net) → (records_run out).1 ≡ out.1
  unfolding from_records
  records_net (err e, net) = refl
  records_net (ok [], net) = refl
  records_net (ok (best ∷ rest), net) = refl

  path_for-Taken :
      (a b : Asset) (amount : String) (given : List Asset) (net : Net) (path : List Asset)
      → ((path_for a b amount given net).0 ≡ ok path) ↔ Taken a b amount given net path
  unfolding chosen_path
  path_for-Taken a b amount [] net path = records_iff (strict_send_paths a amount b net) path
  path_for-Taken a b amount (g ∷ given) net path = (λ h. cc, λ h. cc)

  path_for_net :
      (a b : Asset) (amount : String) (given : List Asset) (net : Net)
      → (path_for a b amount given net).1 ≡ searched a b amount given net
  unfolding chosen_path
  path_for_net a b amount [] net = records_net (strict_send_paths a amount b net)
  path_for_net a b amount (g ∷ given) net = refl

  -- A transaction with this operation, on the account of this network state, is accepted.
  abbrev pub Sends : PathPaymentInput → PathOperation Asset → Net → Submitted → Type 0
  Sends input op net r =
      Accepted Account Tx Submitted Net E (PathError E) thrown load_account (build_for input op)
        submit_transaction is_bad_seq r (load_account false net)

  -- A path payment succeeds exactly when its input is valid, does not pay the agent itself unless that
  -- is allowed, names assets that exist, each XLM or with an issuer, has a path, its own or else the one
  -- of the first record that Horizon answers, whose hops are assets that exist, and when a transaction with
  -- the operation of the input, that is, its destination, its assets, its amount to send and its least
  -- amount to receive, along that path is accepted, at the first try or after the one retry on the
  -- sequence number.
  pub execute_path_iff :
      (input : PathPaymentInput) (net : Net) (r : Submitted)
      → ((run input net).0 ≡ ok r) ↔ (
          (is_valid_path parse_float input ≡ true)
          × ((not input.allow_self_payment && input.destination == public_key) ≡ false)
          × ((a : Asset) × (b : Asset) × (given : List Asset) × (path : List Asset) × Named
                input.send_asset a
              × Named input.dest_asset b
              × Each Named input.path given
              × Taken a b input.send_amount given net path
              × Sends input
                  (record {
                    send_asset = a;
                    send_amount = input.send_amount;
                    destination = input.destination;
                    dest_asset = b;
                    dest_min = input.dest_min_amount;
                    path = path;
                  })
                  (searched a b input.send_amount given net)
                  r))
  unfolding operation
  execute_path_iff input net r =
      let (there, back) = execute_path-Follows input net r in
      let asset = to_asset-IsAsset Asset E native new_asset in
      let all_assets =
        map_assets-Each Asset E native new_asset (to_asset Asset E native new_asset) Named asset
          input.path in
      (
        λ h.
            let (valid, other, (a, b, given, send, dest, path, (taken, chosen, sends))) = there h in
            (
              valid,
              other,
              (
                a,
                b,
                given,
                taken,
                (asset input.send_asset a).0 send,
                (asset input.dest_asset b).0 dest,
                (all_assets given).0 path,
                (path_for-Taken a b input.send_amount given net taken).0 chosen,
                subst (λ n. Sends input (operation_of input a b taken) n r)
                    (path_for_net a b input.send_amount given net) sends,
              ),
            ),
        λ (valid, other, (a, b, given, taken, send, dest, path, chosen, sends)). back (
          valid,
          other,
          (
            a,
            b,
            given,
            (asset input.send_asset a).1 send,
            (asset input.dest_asset b).1 dest,
            (all_assets given).1 path,
            (
              taken,
              (path_for-Taken a b input.send_amount given net taken).1 chosen,
              subst (λ n. Sends input (operation_of input a b taken) n r)
                  (sym (path_for_net a b input.send_amount given net)) sends,
            ),
          ),
        ),
      )

-- A valid input has a least amount that is written as a positive decimal.
pub dest_min_decimal :
    (parse_float : String → Option ℤ) (input : PathPaymentInput)
    → is_valid_path parse_float input ≡ true
    → is_decimal input.dest_min_amount ≡ true
unfolding is_valid_path
dest_min_decimal parse_float input h = ground (arith, h)
