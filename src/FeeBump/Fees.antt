-- ===== src/FeeBump/Fees.antt =====
-- The fee that backend/tools/FeeBumpTool.ts offers.
use native.Mathlib.Nat.{
  mul_assoc, mul_left_comm, mul_right_comm, mul-add, mul-one, lt-mul-div-succ, mul-le-mul_left,
  mul-le-mul_right,
}
use synapse_stellar.Prelude.{
  ℕ, zero, suc, ◌+◌, ◌-◌, ◌*◌, ◌/◌, ◌≤◌, max, ◌≡◌, ap, ◌∙◌, Bool, String, string_eq, nat_eq, arith,
}
use synapse_stellar.Prelude.Results.{Result, ok}
use synapse_stellar.FeeBump.{
  BumpSdk, FeeBumpInput, operation_count, new_fee_per_op, fee_bump_fee, account_of, bump_of,
}

-- ⌈f / n⌉ · n is at least f.
ceiling : (f n : ℕ) → f ≤ suc n * ((f + suc n - 1) / suc n)
ceiling f n =
    let q = (f + suc n - 1) / suc n in
    let above = lt-mul-div-succ (f + suc n - 1) {b = suc n} (omega arith) in
    let spread : suc n * (q + 1) ≡ suc n * q + suc n =
      mul-add (suc n) q 1 ∙ ap (λ x. suc n * q + x) (mul-one (suc n)) in
    omega arith

-- Products are monotone in what they share.
scaled :
    (n o f k q m x : ℕ)
    → f ≤ suc n * q
    → q * k ≤ m
    → (suc n + 1) * m * o ≤ x
    → (suc n + 1) * o * (f * k) ≤ suc n * x
scaled n o f k q m x covers fits offered =
    let a = suc n in
    let b = suc n + 1 in
    let first = mul-le-mul_left (b * o) (mul-le-mul_right k covers) in
    let regrouped : b * o * (a * q * k) ≡ a * (b * (q * k) * o) =
      ap (λ z. b * o * z) (mul_assoc a q k)
      ∙ mul_left_comm (b * o) a (q * k)
      ∙ ap (λ z. a * z) (mul_right_comm b o (q * k)) in
    let second = mul-le-mul_left a (mul-le-mul_right o (mul-le-mul_left b fits)) in
    let third = mul-le-mul_left a offered in omega arith

fee_bump_fee_covers :
    (f o k x : ℕ)
    → fee_bump_fee f o k * (o + 1) ≤ x
    → (operation_count o + 1) * (o + 1) * (f * k) ≤ operation_count o * x
unfolding fee_bump_fee new_fee_per_op
fee_bump_fee_covers f zero k x h =
    let q = (f + 1 - 1) / 1 in scaled 0 1 f k q (max (q * k) 100) x (ceiling f 0) (omega arith) h
fee_bump_fee_covers f (suc o) k x h =
    let q = (f + suc o - 1) / suc o in
    scaled o (suc o + 1) f k q (max (q * k) 100) x (ceiling f o) (omega arith) h

module _ (E : Type 0) (is_base64 : String → Bool) (sdk : BumpSdk E) (Submitted Net : Type 0)
    (public_key : String) (submit_transaction : sdk.Bump → Net → Result E Submitted × Net) where
  abbrev bumped : FeeBumpInput → sdk.Inner → Result E sdk.Bump
  bumped = bump_of E is_base64 sdk Submitted Net public_key submit_transaction

  -- The SDK multiplies what is passed on, already the fee of all operations and the bump, once more by
  -- their number: with n operations, the envelope offers at least (n + 1)² / n times the multiplied fee of
  -- the inner transaction, where (n + 1) / n times are asked for.
  pub fee_overpaid :
      (input : FeeBumpInput) (inner : sdk.Inner) (bump : sdk.Bump)
      → bumped input inner ≡ ok bump
      → (operation_count (sdk.operations inner) + 1)
          * (sdk.operations inner + 1)
          * (sdk.fee inner * input.base_fee_multiplier)
        ≤ operation_count (sdk.operations inner) * sdk.max_fee (sdk.sign bump)
  unfolding bump_of
  fee_overpaid input inner bump h =
      let offered =
        sdk.max_fee-build
          (account_of E is_base64 sdk Submitted Net public_key submit_transaction input.fee_account)
          (fee_bump_fee (sdk.fee inner) (sdk.operations inner) input.base_fee_multiplier) inner bump
          h in
      let covers =
        fee_bump_fee_covers (sdk.fee inner) (sdk.operations inner) input.base_fee_multiplier
          (sdk.max_fee bump) offered in
      rw (sdk.max_fee-sign bump) covers
