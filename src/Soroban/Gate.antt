-- ===== src/Soroban/Gate.antt =====
-- The spending gate of backend/tools/SorobanInvokeTool.ts, and what passes it.
use synapse_stellar.Prelude.{
  ℕ, zero, suc, ◌+◌, ◌≤◌, ◌<◌, ◌≡◌, refl, sym, subst, ◌∙◌, ap, ◌↔◌, ◌⊎◌, inl, inr, Bool, true,
  false, ◌&&◌, Option, none, some, String, ◌==◌, nat_eq, arith, Bool-cases, Option-cases,
}
use synapse_stellar.Prelude.Int.{ℤ, pos, negsuc, ◌+ℤ◌, ◌≤ℤ◌, int_laws}
use synapse_stellar.Prelude.Results.{Result, ok, err}
use synapse_stellar.Persistence.{SpendingTable}
use synapse_stellar.Spending.{Tracker, SpendingError, record_payment, total}
use synapse_stellar.Spending.Limit.{Inv, record_payment_lem}
use synapse_stellar.Agent.Guard.{mainnet_spending_cap, is_over}
use synapse_stellar.Soroban.Decimal.{sac_raw_to_decimal, stroops, stroops-sac_raw_to_decimal}
use synapse_stellar.Soroban.{
  Native, extract_sac_transfer_total, GateError, recorded, assert_amount,
  assert_sac_transfers_within_spending_limit, Fee, Prepared, Status, InvokeError, InvokeResult,
  tx_hash, World, fee_error, confirmed, sent, broadcast, gated, simulated, execute,
  poll_for_confirmation,
}
use synapse_stellar.Soroban.Totals.{SumsTo, extract-SumsTo}

-- What the code relies on of `parseFloat`: it reads a decimal with seven places, of at most fifteen
-- digits. Longer ones it rounds.
abbrev pub ReadsDecimals : (String → Option ℤ) → Type 0
ReadsDecimals parse_float =
    (s : String) (n : ℕ)
    → n < 1000000000000000
    → stroops 0 s ≡ some n
    → parse_float s ≡ some (pos n)

module _ (table : SpendingTable) (parse_float : String → Option ℤ) (agent_spending_limit : String)
    (is_mainnet : Bool) where
  abbrev over : Option ℤ → Option ℤ → Bool
  over = is_over table parse_float agent_spending_limit is_mainnet

  recorded_ok :
      (out : Result SpendingError (Unit {0}) × Tracker table)
      → ((recorded table parse_float agent_spending_limit is_mainnet out).0 ≡ ok tt)
        ↔ (out.0 ≡ ok tt)
  recorded_ok (ok _, t) = (λ e. refl, λ e. refl)
  recorded_ok (err e, t) = (λ e. cc, λ e. cc)

  recorded_left :
      (out : Result SpendingError (Unit {0}) × Tracker table)
      → (recorded table parse_float agent_spending_limit is_mainnet out).1 ≡ out.1
  recorded_left (ok _, t) = refl
  recorded_left (err e, t) = refl

  abbrev booked : Tracker table → ℕ → ℕ → String → Result SpendingError (Unit {0}) × Tracker table
  booked = record_payment table parse_float agent_spending_limit

  assert_amount_iff :
      (t : Tracker table) (now later : ℕ) (s : String)
      → ((assert_amount table parse_float agent_spending_limit is_mainnet true t now later s).0
          ≡ ok tt)
        ↔ ((over (parse_float s) (parse_float agent_spending_limit) ≡ false)
            × ((is_mainnet && over (parse_float s) (some mainnet_spending_cap)) ≡ false)
            × ((booked t now later s).0 ≡ ok tt))
  unfolding assert_amount
  assert_amount_iff t now later s =
      elim (Bool-cases (over (parse_float s) (parse_float agent_spending_limit))) [
        | inl above ↦ rw above (λ e. cc, λ e. cc (e.0))
        | inr within ↦
            rw within
              (elim (Bool-cases (is_mainnet && over (parse_float s) (some mainnet_spending_cap))) [
                | inl above ↦ rw above (λ e. cc, λ e. cc (e.1))
                | inr below ↦ rw below (
                  λ e. (refl, refl, (recorded_ok (booked t now later s)).0 e),
                  λ e. (recorded_ok (booked t now later s)).1 (e.2),
                )
              ])
      ]

  assert_amount_left :
      (t : Tracker table) (now later : ℕ) (s : String)
      → (assert_amount table parse_float agent_spending_limit is_mainnet true t now later s).0
        ≡ ok tt
      → (assert_amount table parse_float agent_spending_limit is_mainnet true t now later s).1
        ≡ (booked t now later s).1
  unfolding assert_amount
  assert_amount_left t now later s =
      elim (Bool-cases (over (parse_float s) (parse_float agent_spending_limit))) [
        | inl above ↦ rw above (λ e. cc)
        | inr within ↦
            rw within
              (elim (Bool-cases (is_mainnet && over (parse_float s) (some mainnet_spending_cap))) [
                | inl above ↦ rw above (λ e. cc)
                | inr below ↦ rw below (λ e. recorded_left (booked t now later s))
              ])
      ]

  abbrev gate : Bool → Tracker table → ℕ → ℕ → ℤ → Result GateError (Unit {0}) × Tracker table
  gate =
      assert_sac_transfers_within_spending_limit table parse_float agent_spending_limit is_mainnet

  module _ (t : Tracker table) (s now later n : ℕ) (limit : ℤ) (few : suc n < 1000000000000000)
      (reads : ReadsDecimals parse_float) (v : Inv table s t) (h : s ≤ now) (k : now ≤ later)
      (w : later ≤ now + t.window_ms) (p : parse_float agent_spending_limit ≡ some limit) where
    amount_read : parse_float (sac_raw_to_decimal (suc n)) ≡ some (pos (suc n))
    amount_read =
        reads (sac_raw_to_decimal (suc n)) (suc n) few (stroops-sac_raw_to_decimal (suc n))

    -- The gate lets a broadcast through that debits the agent of a positive total exactly when the
    -- total is within the limit by itself, on the mainnet is within the cap, and with it the sum of
    -- the window is within the limit. The limit is a number, the total has at most fifteen digits, of
    -- which `parseFloat` reads decimals with seven places, the clock does not run back, and its two readings are no further apart than the window.
    pub gate_iff : ((gate true t now later (pos (suc n))).0 ≡ ok tt) ↔ (
        (pos (suc n) ≤ℤ limit)
        × ((is_mainnet ≡ false) ⊎ (pos (suc n) ≤ℤ mainnet_spending_cap))
        × (((total table t later).0 +ℤ pos (suc n)) ≤ℤ limit))
    unfolding assert_sac_transfers_within_spending_limit
    gate_iff =
        let amount = sac_raw_to_decimal (suc n) in
        let q = amount_read in
        let (verdict, _, _) =
          record_payment_lem table parse_float agent_spending_limit t s now later amount
            (pos (suc n)) limit v h k w p q in
        let iff = assert_amount_iff t now later amount in
        (
          λ e.
              let (within, below, accepted) = iff.0 e in
              (ground (arith, within), ground (arith, below), verdict.0 accepted),
          λ (e, c, m). iff.1 (ground arith, ground (arith, c), verdict.1 m),
        )

    -- A total that passes is on the books.
    pub gate_books :
        (gate true t now later (pos (suc n))).0 ≡ ok tt
        → (total table (gate true t now later (pos (suc n))).1 later).0
          ≡ (total table t later).0 +ℤ pos (suc n)
    unfolding assert_sac_transfers_within_spending_limit
    gate_books e =
        let amount = sac_raw_to_decimal (suc n) in
        let (_, sum, _) =
          record_payment_lem table parse_float agent_spending_limit t s now later amount
            (pos (suc n)) limit v h k w p amount_read in
        rw (assert_amount_left t now later amount e) sum

  gate_dry : (t : Tracker table) (now later : ℕ) (n : ℤ) → (gate false t now later n).1 ≡ t
  unfolding assert_sac_transfers_within_spending_limit assert_amount
  gate_dry t now later (negsuc n) = refl
  gate_dry t now later (pos zero) = refl
  gate_dry t now later (pos (suc n)) =
      let amount = sac_raw_to_decimal (suc n) in
      elim (Bool-cases (over (parse_float amount) (parse_float agent_spending_limit))) [
        | inl above ↦ rw above refl
        | inr within ↦
            rw within
              (elim (Bool-cases
                (is_mainnet && over (parse_float amount) (some mainnet_spending_cap))) [
                  | inl above ↦ rw above refl
                  | inr below ↦ rw below refl
                ])
      ]

module _ (ScVal Tx Net E : Type 0) (sc_val_to_native : ScVal → Option Native)
    (agent_address : String) (table : SpendingTable) (parse_float : String → Option ℤ)
    (agent_spending_limit : String) (is_mainnet : Bool) (max_soroban_fee_stroops : ℕ)
    (prepare : Net → Result E (Prepared ScVal Tx) × Net) (sign : Tx → Tx)
    (count_signatures : Tx → ℕ) (send : Tx → Net → Result E (Option String) × Net)
    (sleep : Net → Net) (get_transaction : String → Net → Result E Status × Net) where
  abbrev W : Type 0
  W =
      World ScVal Tx Net E sc_val_to_native agent_address table parse_float agent_spending_limit
        is_mainnet max_soroban_fee_stroops prepare sign count_signatures send sleep get_transaction

  abbrev R : Type 0
  R = Result (InvokeError E) (InvokeResult Tx) × W

  abbrev run : Bool → ℕ → ℕ → W → R
  run =
      execute ScVal Tx Net E sc_val_to_native agent_address table parse_float agent_spending_limit
        is_mainnet max_soroban_fee_stroops prepare sign count_signatures send sleep get_transaction

  abbrev debited : Prepared ScVal Tx → ℤ
  debited p = extract_sac_transfer_total ScVal sc_val_to_native agent_address p.events

  abbrev fee_of : Fee → Option (InvokeError E)
  fee_of =
      fee_error ScVal Tx Net E sc_val_to_native agent_address table parse_float agent_spending_limit
        is_mainnet max_soroban_fee_stroops prepare sign count_signatures send sleep get_transaction

  abbrev gated_run :
      Bool → Prepared ScVal Tx → Result GateError (Unit {0}) × Tracker table → Net → R
  gated_run =
      gated ScVal Tx Net E sc_val_to_native agent_address table parse_float agent_spending_limit
        is_mainnet max_soroban_fee_stroops prepare sign count_signatures send sleep get_transaction

  abbrev simulated_run : Bool → ℕ → ℕ → Tracker table → Result E (Prepared ScVal Tx) × Net → R
  simulated_run =
      simulated ScVal Tx Net E sc_val_to_native agent_address table parse_float agent_spending_limit
        is_mainnet max_soroban_fee_stroops prepare sign count_signatures send sleep get_transaction

  abbrev gate_for :
      Bool → Tracker table → ℕ → ℕ → Prepared ScVal Tx → Result GateError (Unit {0}) × Tracker table
  gate_for recording t now later p =
      assert_sac_transfers_within_spending_limit table parse_float agent_spending_limit is_mainnet
        recording t now later (debited p)

  gated_dry :
      (p : Prepared ScVal Tx) (out : Result GateError (Unit {0}) × Tracker table) (net : Net)
      → (gated_run true p out net).1 ≡ record { tracker = out.1; net = net }
  unfolding gated
  gated_dry p (err e, t) net = refl
  gated_dry p (ok _, t) net = refl

  simulated_dry :
      (now later : ℕ) (t : Tracker table) (out : Result E (Prepared ScVal Tx) × Net)
      → (simulated_run true now later t out).1 ≡ record { tracker = t; net = out.1 }
  unfolding simulated
  simulated_dry now later t (err e, net) = refl
  simulated_dry now later t (ok p, net) = elim (Option-cases (fee_of p.fee)) [
    | inr (e, bad) ↦ rw (bad, simulated) refl
    | inl fine ↦
        rw (fine, simulated)
          (gated_dry p (gate_for false t now later p) net
            ∙ ap (λ t'. record { tracker = t'; net = net })
                (gate_dry table parse_float agent_spending_limit is_mainnet t now later
                  (debited p)))
  ]

  -- A dry run moves nothing: whatever comes of it, nothing is recorded and the network is the one that
  -- the simulation left.
  pub execute_dry_run :
      (now later : ℕ) (w : W)
      → (run true now later w).1 ≡ record { tracker = w.tracker; net = (prepare w.net).1 }
  unfolding execute
  execute_dry_run now later w = simulated_dry now later w.tracker (prepare w.net)

  sent_tracker :
      (t : Tracker table) (out : Result E (Option String) × Net)
      → (sent ScVal Tx Net E sc_val_to_native agent_address table parse_float agent_spending_limit
          is_mainnet max_soroban_fee_stroops prepare sign count_signatures send sleep
          get_transaction t out).1.tracker
        ≡ t
  unfolding sent confirmed
  sent_tracker t (err e, net) = refl
  sent_tracker t (ok none, net) = refl
  sent_tracker t (ok (some hash), net) =
      confirmed_tracker (poll_for_confirmation Net E sleep get_transaction 10 hash net)
    where
      confirmed_tracker :
          (out : Result (InvokeError E) String × Net)
          → (confirmed ScVal Tx Net E sc_val_to_native agent_address table parse_float
              agent_spending_limit is_mainnet max_soroban_fee_stroops prepare sign count_signatures
              send sleep get_transaction t out).1.tracker
            ≡ t
      confirmed_tracker (ok hash, net) = refl
      confirmed_tracker (err e, net) = refl

  broadcast_ok :
      (p : Prepared ScVal Tx) (w : W) (hash : String)
      → (broadcast ScVal Tx Net E sc_val_to_native agent_address table parse_float
          agent_spending_limit is_mainnet max_soroban_fee_stroops prepare sign count_signatures send
          sleep get_transaction p w).0
        ≡ ok (tx_hash hash)
      → (p.has_time_bounds ≡ true)
        × ((broadcast ScVal Tx Net E sc_val_to_native agent_address table parse_float
              agent_spending_limit is_mainnet max_soroban_fee_stroops prepare sign count_signatures
              send sleep get_transaction p w).1.tracker
            ≡ w.tracker)
  unfolding broadcast
  broadcast_ok p w hash = elim (Bool-cases p.has_time_bounds) [
    | inr unbounded ↦ rw unbounded (λ e. cc)
    | inl bounded ↦ simp (bounded) (elim (Bool-cases (count_signatures (sign p.tx) == 0)) [
      | inl unsigned ↦ rw unsigned (λ e. cc)
      | inr signed ↦ rw signed (λ e. (refl, sent_tracker w.tracker (send (sign p.tx) w.net)))
    ])
  ]

  gated_ok :
      (p : Prepared ScVal Tx) (out : Result GateError (Unit {0}) × Tracker table) (net : Net)
      (hash : String)
      → (gated_run false p out net).0 ≡ ok (tx_hash hash)
      → (p.has_time_bounds ≡ true)
        × (out.0 ≡ ok tt)
        × ((gated_run false p out net).1.tracker ≡ out.1)
  unfolding gated
  gated_ok p (err e, t) net hash h = cc
  gated_ok p (ok _, t) net hash h =
      let (bounded, kept) = broadcast_ok p (record { tracker = t; net = net }) hash h in
      (bounded, refl, kept)

  -- What a run that gives a transaction hash has passed.
  abbrev pub Passed : ℕ → ℕ → Tracker table → Result E (Prepared ScVal Tx) → R → Type 0
  Passed now later t simulation out =
      (p : Prepared ScVal Tx) × (simulation ≡ ok p)
      × (fee_of p.fee ≡ none)
      × (p.has_time_bounds ≡ true)
      × ((gate_for true t now later p).0 ≡ ok tt)
      × (out.1.tracker ≡ (gate_for true t now later p).1)

  simulated-Passed :
      (now later : ℕ) (t : Tracker table) (out : Result E (Prepared ScVal Tx) × Net) (hash : String)
      → (simulated_run false now later t out).0 ≡ ok (tx_hash hash)
      → Passed now later t out.0 (simulated_run false now later t out)
  unfolding simulated
  simulated-Passed now later t (err e, net) hash = λ h. cc
  simulated-Passed now later t (ok p, net) hash = elim (Option-cases (fee_of p.fee)) [
    | inr (e, bad) ↦ rw (bad, simulated) (λ h. cc)
    | inl fine ↦
        rw (fine, simulated)
          λ h.
            let (bounded, passed, kept) = gated_ok p (gate_for true t now later p) net hash h in
            (p, refl, fine, bounded, passed, kept)
  ]

  execute-Passed :
      (now later : ℕ) (w : W) (hash : String)
      → (run false now later w).0 ≡ ok (tx_hash hash)
      → Passed now later w.tracker (prepare w.net).0 (run false now later w)
  unfolding execute
  execute-Passed now later w hash h = simulated-Passed now later w.tracker (prepare w.net) hash h

  -- A fee that is given is a number within the maximum.
  abbrev pub FeeWithin : Fee → Type 0
  FeeWithin Fee.unset = Unit {0}
  FeeWithin Fee.invalid = ⊥
  FeeWithin (Fee.stroops n) = n ≤ max_soroban_fee_stroops

  fee_of-FeeWithin : (f : Fee) → fee_of f ≡ none → FeeWithin f
  fee_of-FeeWithin Fee.unset h = tt
  fee_of-FeeWithin Fee.invalid h = cc
  fee_of-FeeWithin (Fee.stroops n) h = ground (arith, h)

  -- A total that is positive is within the limit, the cap and what is left of the window, and the books
  -- have it afterwards; another one leaves them alone.
  abbrev pub Booked : ℤ → ℤ → ℕ → Tracker table → Tracker table → Type 0
  Booked (negsuc n) limit later t t' = t' ≡ t
  Booked (pos zero) limit later t t' = t' ≡ t
  Booked (pos (suc n)) limit later t t' =
      (pos (suc n) ≤ℤ limit)
      × ((is_mainnet ≡ false) ⊎ (pos (suc n) ≤ℤ mainnet_spending_cap))
      × (((total table t later).0 +ℤ pos (suc n)) ≤ℤ limit)
      × ((total table t' later).0 ≡ (total table t later).0 +ℤ pos (suc n))

  gate-Booked :
      (t : Tracker table) (s now later : ℕ) (limit : ℤ) (n : ℤ)
      → ReadsDecimals parse_float
      → Inv table s t
      → s ≤ now
      → now ≤ later
      → later ≤ now + t.window_ms
      → parse_float agent_spending_limit ≡ some limit
      → n ≤ℤ pos 999999999999999
      → (assert_sac_transfers_within_spending_limit table parse_float agent_spending_limit
          is_mainnet true t now later n).0
        ≡ ok tt
      → Booked n limit later t
          (assert_sac_transfers_within_spending_limit table parse_float agent_spending_limit
            is_mainnet true t now later n).1
  unfolding assert_sac_transfers_within_spending_limit
  gate-Booked t s now later limit (negsuc n) reads v h k w p few e = refl
  gate-Booked t s now later limit (pos zero) reads v h k w p few e = refl
  gate-Booked t s now later limit (pos (suc n)) reads v h k w p few e =
      let small : suc n < 1000000000000000 = omega int_laws in
      let (within, cap, left) =
        (gate_iff table parse_float agent_spending_limit is_mainnet t s now later n limit small
            reads v h k w p).0
          e in
      (
        within,
        cap,
        left,
        gate_books table parse_float agent_spending_limit is_mainnet t s now later n limit small
            reads v h k w p e,
      )

  -- What a confirmed transaction has passed, with the total of its simulated transfers.
  abbrev pub Confirmed : ℤ → ℕ → W → Prepared ScVal Tx → W → Type 0
  Confirmed limit later w p w' =
      FeeWithin p.fee
      × (p.has_time_bounds ≡ true)
      × ((n : ℤ) × SumsTo ScVal sc_val_to_native agent_address p.events n
          × Booked n limit later w.tracker w'.tracker)

  -- A transaction is confirmed only with a fee within the maximum and with time bounds, and only if the
  -- transfers and burns from the agent among the events of its simulation, where they come to more than
  -- nothing, are within the limit by themselves, on the mainnet within the cap, and with the sum of the
  -- window within the limit; their sum is on the books afterwards. The total has at most fifteen digits,
  -- of which `parseFloat` reads decimals with seven places, the limit is a number, the clock does not run
  -- back, and its two readings are no further apart than the window.
  pub execute-Confirmed :
      (s now later : ℕ) (limit : ℤ) (w : W) (p : Prepared ScVal Tx) (hash : String)
      → ReadsDecimals parse_float
      → Inv table s w.tracker
      → s ≤ now
      → now ≤ later
      → later ≤ now + w.tracker.window_ms
      → parse_float agent_spending_limit ≡ some limit
      → (prepare w.net).0 ≡ ok p
      → debited p ≤ℤ pos 999999999999999
      → (run false now later w).0 ≡ ok (tx_hash hash)
      → Confirmed limit later w p (run false now later w).1
  execute-Confirmed s now later limit w p hash reads v h k wide lim is_p few confirms =
      let (p', is_p', fee, bounded, passed, kept) = execute-Passed now later w hash confirms in
      let same : p' ≡ p = cc in
      let kept' =
        subst (λ x. (run false now later w).1.tracker ≡ (gate_for true w.tracker now later x).1)
          same kept in
      let passed' = subst (λ x. (gate_for true w.tracker now later x).0 ≡ ok tt) same passed in
      (
        fee_of-FeeWithin p.fee (subst (λ x. fee_of x.fee ≡ none) same fee),
        subst (λ x. x.has_time_bounds ≡ true) same bounded,
        (
          debited p,
          extract-SumsTo ScVal sc_val_to_native agent_address p.events,
          subst (Booked (debited p) limit later w.tracker) (sym kept') (
              gate-Booked w.tracker s now later limit (debited p) reads v h k wide lim few passed'),
        ),
      )
