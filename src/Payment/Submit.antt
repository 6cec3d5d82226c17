-- ===== src/Payment/Submit.antt =====
-- The end that `execute` of backend/tools/StellarPaymentTool.ts and that of backend/tools/PathPaymentTool.ts
-- share: the account is loaded, the transaction built, signed and submitted, and tried again once when
-- it is refused for its sequence number.
pub mod Laws
use synapse_stellar.Prelude.{Bool, true, false, if◌then◌else◌}
use synapse_stellar.Prelude.Results.{Result, ok, err}

-- `F` are the errors of the tool, among them what the network throws, an `E`.
module _ (Account Tx Submitted Net E F : Type 0) (thrown : E → F)
    (load_account : Bool → Net → Result E Account × Net) (build_tx : Account → Result F Tx)
    (submit_transaction : Tx → Net → Result E Submitted × Net) (is_bad_seq : E → Bool) where
  abbrev Ran : Type 0
  Ran = Result F Submitted × Net

  pub submitted : Result E Submitted × Net → Ran
  submitted (ok r, net) = (ok r, net)
  submitted (err e, net) = (err (thrown e), net)

  pub submit_built : Result F Tx → Net → Ran
  unfolding submitted
  submit_built (err e) net = (err e, net)
  submit_built (ok tx) net = submitted (submit_transaction tx net)

  -- The retry, with an account that no cache has served.
  pub retried : Result E Account × Net → Ran
  unfolding submit_built
  retried (err e, net) = (err (thrown e), net)
  retried (ok source, net) = submit_built (build_tx source) net

  pub first_submitted : Result E Submitted × Net → Ran
  unfolding retried
  first_submitted (ok r, net) = (ok r, net)
  first_submitted (err e, net) =
      if is_bad_seq e then retried (load_account true net) else (err (thrown e), net)

  pub first_built : Result F Tx → Net → Ran
  unfolding first_submitted
  first_built (err e) net = (err e, net)
  first_built (ok tx) net = first_submitted (submit_transaction tx net)

  pub loaded : Result E Account × Net → Ran
  unfolding first_built
  loaded (err e, net) = (err (thrown e), net)
  loaded (ok source, net) = first_built (build_tx source) net

  unfoldable pub submit_with_retry : Net → Ran
  unfolding loaded
  submit_with_retry net = loaded (load_account false net)
