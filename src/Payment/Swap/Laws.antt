-- ===== src/Payment/Swap/Laws.antt =====
-- What a swap of backend/tools/SwapTool.ts that succeeds has secured.
use synapse_stellar.Prelude.{
  ℕ, ◌+◌, ◌-◌, ◌*◌, ◌≡◌, ◌≤◌, ◌≢◌, refl, inl, inr, Bool, true, Option, none, some, List, [], ◌∷◌,
  All, String, leb, string_eq, Bool-cases, arith,
}
use synapse_stellar.Prelude.Int.{ℤ, pos, negsuc, ◌≤ℤ◌}
use synapse_stellar.Prelude.Results.{Result, ok, err}
use synapse_stellar.Soroban.Decimal.{sac_raw_to_decimal}
use synapse_stellar.Payment.{is_decimal}
use synapse_stellar.Payment.Memos.{Memo}
use synapse_stellar.Payment.Path.{PathPaymentInput, PathError, PathOperation, to_asset}
use synapse_stellar.Payment.Path.Laws.{execute_path_iff, dest_min_decimal}
use synapse_stellar.Payment.Swap.{
  best_of, worst_of, PathRecord, hundred_pct, SwapInput, SwapError, is_valid_swap, deviates,
  dest_min_stroops, best_record, path_payment, path_assets_from_record, paths, pay, paid, within,
  amounts, swapped, between, execute_swap,
}
use synapse_stellar.Payment.Swap.Quotes.{
  Numbers, best_of-some, worst_of-some, Near, amounts-AllNear, worthless_text, OneOf,
  best_record-OneOf, best_record-best_of,
}

module _ (parse_float : String → Option ℤ) (Asset Account Tx Submitted Net E : Type 0)
    (native : Asset) (new_asset : Option String → Option String → Result E Asset)
    (public_key : String)
    (strict_send_paths : Asset → String → Asset → Net → Result E (List PathRecord) × Net)
    (load_account : Bool → Net → Result E Account × Net)
    (build : Account → PathOperation Asset → Option Memo → Tx)
    (submit_transaction : Tx → Net → Result E Submitted × Net) (is_bad_seq : E → Bool) where
  abbrev Ran : Type 0
  Ran = Result (SwapError E) Submitted × Net

  abbrev run : SwapInput → Net → Ran
  run =
      execute_swap parse_float Asset Account Tx Submitted Net E native new_asset public_key
        strict_send_paths load_account build submit_transaction is_bad_seq

  abbrev pay_run : PathPaymentInput → Net → Result (PathError E) Submitted × Net
  pay_run =
      pay parse_float Asset Account Tx Submitted Net E native new_asset public_key strict_send_paths
        load_account build submit_transaction is_bad_seq

  abbrev payment : SwapInput → String → PathRecord → PathPaymentInput
  payment =
      path_payment parse_float Asset Account Tx Submitted Net E native new_asset public_key
        strict_send_paths load_account build submit_transaction is_bad_seq

  abbrev within_run : SwapInput → PathRecord → Option ℤ → Option ℤ → Net → Ran
  within_run =
      within parse_float Asset Account Tx Submitted Net E native new_asset public_key
        strict_send_paths load_account build submit_transaction is_bad_seq

  abbrev swapped_run : SwapInput → Result E (List PathRecord) × Net → Ran
  swapped_run =
      swapped parse_float Asset Account Tx Submitted Net E native new_asset public_key
        strict_send_paths load_account build submit_transaction is_bad_seq

  abbrev between_run :
      SwapInput → Result (PathError E) Asset → Result (PathError E) Asset → Net → Ran
  between_run =
      between parse_float Asset Account Tx Submitted Net E native new_asset public_key
        strict_send_paths load_account build submit_transaction is_bad_seq

  paid_ok :
      (out : Result (PathError E) Submitted × Net) (r : Submitted)
      → (paid parse_float Asset Account Tx Submitted Net E native new_asset public_key
          strict_send_paths load_account build submit_transaction is_bad_seq out).0
        ≡ ok r
      → out.0 ≡ ok r
  unfolding paid
  paid_ok (ok s, net) r h = cc
  paid_ok (err e, net) r h = cc

  pay_decimal :
      (input : SwapInput) (text : String) (best : PathRecord) (net : Net) (r : Submitted)
      → (pay_run (payment input text best) net).0 ≡ ok r
      → is_decimal text ≡ true
  unfolding pay path_payment
  pay_decimal input text best net r h =
      let (valid, _, _) =
        (execute_path_iff parse_float Asset Account Tx Submitted Net E native new_asset public_key
            (λ a amount b net.
              paths parse_float Asset Account Tx Submitted Net E native new_asset public_key
                strict_send_paths load_account build submit_transaction is_bad_seq
                (strict_send_paths a amount b net))
            load_account build submit_transaction is_bad_seq (payment input text best) net r).0
          h in
      dest_min_decimal parse_float (payment input text best) valid

  abbrev amounts_run : List PathRecord → List (Option ℤ)
  amounts_run =
      amounts parse_float Asset Account Tx Submitted Net E native new_asset public_key
        strict_send_paths load_account build submit_transaction is_bad_seq

  not_nothing : (m : ℕ) → m ≡ 0 → is_decimal (sac_raw_to_decimal m) ≡ true → ⊥
  not_nothing m is_zero = rw is_zero (λ h. let (bad, _) = worthless_text in cc)

  not_a_number :
      (input : SwapInput) (best : PathRecord) (net : Net) (r : Submitted)
      → (paid parse_float Asset Account Tx Submitted Net E native new_asset public_key
          strict_send_paths load_account build submit_transaction is_bad_seq
          (pay_run (payment input "NaN" best) net)).0
        ≡ ok r
      → ⊥
  not_a_number input best net r h =
      let written =
        pay_decimal input "NaN" best net r (paid_ok (pay_run (payment input "NaN" best) net) r h) in
      let (_, bad) = worthless_text in cc

  -- The path payment that a swap asks for: from the agent to itself, of the amount to sell, along the path
  -- of the record, with this least amount.
  abbrev pub ordered : SwapInput → String → PathRecord → PathPaymentInput
  ordered input least best = record {
    destination = public_key;
    send_asset = input.sell_asset;
    send_amount = input.sell_amount;
    dest_asset = input.buy_asset;
    dest_min_amount = least;
    path = path_assets_from_record best.path;
    allow_self_payment = true;
    memo_type = "text";
    memo = none;
  }

  -- What a swap over these records has secured: the payment along a record with the best amount is asked
  -- for and made, with at least that amount less the slippage to receive, to half a stroop, and not nothing.
  abbrev pub SecuredBy : SwapInput → PathRecord → List PathRecord → Net → Submitted → Type 0
  SecuredBy input first rest net r =
      (b : ℕ) × (m : ℕ) × All (Near parse_float b input.max_slippage_pct) (first ∷ rest)
      × (b * (hundred_pct - input.max_slippage_pct) ≤ m * hundred_pct + 500000000)
      × (m * hundred_pct ≤ b * (hundred_pct - input.max_slippage_pct) + 500000000)
      × (m ≢ 0)
      × (best : PathRecord) × OneOf best (first ∷ rest)
      × (parse_float best.destination_amount ≡ some (pos b))
      × ((pay_run (ordered input (sac_raw_to_decimal m) best) net).0 ≡ ok r)

  -- The payment of a secured swap, for the best amount and the least amount to receive.
  paid_secured :
      (input : SwapInput) (first : PathRecord) (rest : List PathRecord) (b : ℕ) (w : ℤ) (net : Net)
      (r : Submitted)
      → best_of (parse_float first.destination_amount) (amounts_run rest) ≡ some (pos b)
      → All (Numbers (λ z. z ≤ℤ pos b)) (amounts_run (first ∷ rest))
      → All (Numbers (λ z. w ≤ℤ z)) (amounts_run (first ∷ rest))
      → (within_run input (best_record parse_float first rest) (some (pos b)) (some w) net).0 ≡ ok r
      → SecuredBy input first rest net r
  unfolding within path_payment
  paid_secured input first rest b w net r is_best below above = elim (Bool-cases (leb b 0)) [
    | inl nothing ↦ rw nothing (λ h. cc)
    | inr something ↦ rw something (elim (Bool-cases (deviates b w input.max_slippage_pct)) [
      | inl far ↦ rw far (λ h. cc)
      | inr near ↦ rw near (λ h.
          let m = dest_min_stroops b input.max_slippage_pct in
          let best = best_record parse_float first rest in
          let accepted = paid_ok (pay_run (payment input (sac_raw_to_decimal m) best) net) r h in
          let written = pay_decimal input (sac_raw_to_decimal m) best net r accepted in
          (
            b,
            m,
            amounts-AllNear parse_float b input.max_slippage_pct w (first ∷ rest)
                (ground (arith, near)) below above,
            omega arith,
            omega arith,
            (λ is_zero. not_nothing m is_zero written),
            best,
            best_record-OneOf parse_float first rest,
            best_record-best_of parse_float first rest (pos b) is_best,
            accepted,
          ))
    ])
  ]

  secured :
      (input : SwapInput) (first : PathRecord) (rest : List PathRecord) (best worst : Option ℤ)
      (net : Net) (r : Submitted)
      → best_of (parse_float first.destination_amount) (amounts_run rest) ≡ best
      → worst_of (parse_float first.destination_amount) (amounts_run rest) ≡ worst
      → (within_run input (best_record parse_float first rest) best worst net).0 ≡ ok r
      → SecuredBy input first rest net r
  unfolding within
  secured input first rest (some (pos b)) (some w) net r is_best is_worst h =
      paid_secured input first rest b w net r is_best
        (best_of-some (parse_float first.destination_amount) (amounts_run rest) (pos b) is_best)
        (worst_of-some (parse_float first.destination_amount) (amounts_run rest) w is_worst) h
  secured input first rest (some (pos b)) none net r is_best is_worst h =
      absurd (not_a_number input (best_record parse_float first rest) net r h)
  secured input first rest (some (negsuc k)) worst net r is_best is_worst h = cc
  secured input first rest none worst net r is_best is_worst h =
      absurd (not_a_number input (best_record parse_float first rest) net r h)

  -- The answer of Horizon for the assets of the input, and what the swap has secured.
  abbrev pub Secured : SwapInput → Net → Submitted → Type 0
  Secured input net r =
      (a : Asset) × (c : Asset) × (first : PathRecord) × (rest : List PathRecord) × (to_asset Asset
          E native new_asset input.sell_asset
        ≡ ok a)
      × (to_asset Asset E native new_asset input.buy_asset ≡ ok c)
      × ((strict_send_paths a input.sell_amount c net).0 ≡ ok (first ∷ rest))
      × SecuredBy input first rest (strict_send_paths a input.sell_amount c net).1 r

  swapped_secured :
      (input : SwapInput) (out : Result E (List PathRecord) × Net) (r : Submitted)
      → (swapped_run input out).0 ≡ ok r
      → (first : PathRecord) × (rest : List PathRecord) × (out.0 ≡ ok (first ∷ rest))
        × SecuredBy input first rest out.1 r
  unfolding swapped
  swapped_secured input (err e, net) r h = cc
  swapped_secured input (ok [], net) r h = cc
  swapped_secured input (ok (first ∷ rest), net) r h = (
    first,
    rest,
    refl,
    secured input first rest (best_of (parse_float first.destination_amount) (amounts_run rest))
        (worst_of (parse_float first.destination_amount) (amounts_run rest)) net r refl refl h,
  )

  between_secured :
      (input : SwapInput) (sell buy : Result (PathError E) Asset) (net : Net) (r : Submitted)
      → (between_run input sell buy net).0 ≡ ok r
      → (a : Asset) × (c : Asset) × (first : PathRecord) × (rest : List PathRecord) × (sell ≡ ok a)
        × (buy ≡ ok c)
        × ((strict_send_paths a input.sell_amount c net).0 ≡ ok (first ∷ rest))
        × SecuredBy input first rest (strict_send_paths a input.sell_amount c net).1 r
  unfolding between
  between_secured input (err e) buy net r h = cc
  between_secured input (ok a) (err e) net r h = cc
  between_secured input (ok a) (ok c) net r h =
      let (first, rest, answered, s) =
        swapped_secured input (strict_send_paths a input.sell_amount c net) r h in
      (a, c, first, rest, refl, refl, answered, s)

  pub execute_swap-Secured :
      (input : SwapInput) (net : Net) (r : Submitted)
      → (run input net).0 ≡ ok r
      → Secured input net r
  unfolding execute_swap
  execute_swap-Secured input net r = elim (Bool-cases (is_valid_swap parse_float input)) [
    | inr invalid ↦ rw invalid (λ h. cc)
    | inl valid ↦ rw valid (λ h.
        between_secured input (to_asset Asset E native new_asset input.sell_asset)
          (to_asset Asset E native new_asset input.buy_asset) net r h)
  ]

  -- With a tolerance of 100 %, which the input may have, no swap ever succeeds.
  pub full_slippage_fails :
      (input : SwapInput) (net : Net) (r : Submitted)
      → input.max_slippage_pct ≡ hundred_pct
      → ¬ ((run input net).0 ≡ ok r)
  full_slippage_fails input net r full h =
      let (_, _, _, _, _, _, _, (b, m, _, _, few, something, _, _, _, _)) =
        execute_swap-Secured input net r h in
      something (nothing b m input.max_slippage_pct full few)
    where
      nothing :
          (b m pct : ℕ)
          → pct ≡ hundred_pct
          → m * hundred_pct ≤ b * (hundred_pct - pct) + 500000000
          → m ≡ 0
      nothing b m pct full few =
          let none_left : hundred_pct - pct ≡ 0 = omega (arith, full) in
          let few' : m * hundred_pct ≤ b * 0 + 500000000 = rw (← none_left) few in
          omega (arith, few')
