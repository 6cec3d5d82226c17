-- ===== src/Soroban/Totals.antt =====
-- What `extractSacTransferTotal` of backend/tools/SorobanInvokeTool.ts adds up, described without its code.
use synapse_stellar.Prelude.{
  ◌≡◌, ◌≢◌, refl, sym, ap, ◌∙◌, subst, ◌⊎◌, inl, inr, Bool, true, false, Option, none, some, List,
  [], ◌∷◌, String, ◌==◌, string_eq, eq_iff, Bool-cases, arith,
}
use synapse_stellar.Prelude.Int.{ℤ, pos, ◌+ℤ◌, int_laws}
use synapse_stellar.Soroban.{
  Native, text, bigint, number, other, DiagnosticEvent, is_value_out, amount_of, from_party,
  from_name, from_body, debit, sum_debits, extract_sac_transfer_total,
}

module _ (ScVal : Type 0) (sc_val_to_native : ScVal → Option Native) (agent_address : String) where
  abbrev pub ValueOut : String → Type 0
  ValueOut name = (name ≡ "transfer") ⊎ ((name ≡ "transfer_from") ⊎ (name ≡ "burn"))

  -- The event is a transfer or a burn of a successful call, from the agent, of this amount.
  abbrev pub Debits : DiagnosticEvent ScVal → ℤ → Type 0
  Debits d a =
      (name : ScVal) × (from : ScVal) × (topics : List ScVal) × (amount : ScVal) × (event : String)
      × (d.in_successful_contract_call ≡ true)
      × (d.v0 ≡ some (name ∷ from ∷ topics, amount))
      × (sc_val_to_native name ≡ some (text event))
      × ValueOut event
      × (sc_val_to_native from ≡ some (text agent_address))
      × ((sc_val_to_native amount ≡ some (bigint a)) ⊎ (sc_val_to_native amount ≡ some (number a)))

  -- The events that debit the agent come to this sum.
  abbrev pub SumsTo : List (DiagnosticEvent ScVal) → ℤ → Type 0
  SumsTo [] n = n ≡ pos 0
  SumsTo (d ∷ ds) n =
      ((a : ℤ) × (more : ℤ) × (n ≡ a +ℤ more) × Debits d a × SumsTo ds more)
      ⊎ (((a : ℤ) → Debits d a → ⊥) × SumsTo ds n)

  abbrev IsAmount : ScVal → ℤ → Type 0
  IsAmount v a = (sc_val_to_native v ≡ some (bigint a)) ⊎ (sc_val_to_native v ≡ some (number a))

  abbrev value : Option Native → ℤ
  value = amount_of ScVal sc_val_to_native agent_address

  value_cases :
      (v : ScVal) (o : Option Native)
      → sc_val_to_native v ≡ o
      → IsAmount v (value o) ⊎ (((a : ℤ) → IsAmount v a → ⊥) × (value o ≡ pos 0))
  value_cases v none q = inr (never, refl)
    where
      never : (a : ℤ) → IsAmount v a → ⊥
      never a (inl h) = cc
      never a (inr h) = cc
  value_cases v (some (text s)) q = inr (never, refl)
    where
      never : (a : ℤ) → IsAmount v a → ⊥
      never a (inl h) = cc
      never a (inr h) = cc
  value_cases v (some (bigint n)) q = inl (inl q)
  value_cases v (some (number n)) q = inl (inr q)
  value_cases v (some other) q = inr (never, refl)
    where
      never : (a : ℤ) → IsAmount v a → ⊥
      never a (inl h) = cc
      never a (inr h) = cc

  abbrev party : ScVal → Option Native → ℤ
  party = from_party ScVal sc_val_to_native agent_address

  party_cases :
      (amount from : ScVal) (o : Option Native)
      → sc_val_to_native from ≡ o
      → ((sc_val_to_native from ≡ some (text agent_address))
          × (party amount o ≡ value (sc_val_to_native amount)))
        ⊎ ((sc_val_to_native from ≢ some (text agent_address)) × (party amount o ≡ pos 0))
  unfolding from_party
  party_cases amount from none q = inr (λ h. cc, refl)
  party_cases amount from (some (text s)) q = elim (Bool-cases (s == agent_address)) [
    | inl e ↦
        let same = (eq_iff s agent_address).0 e in
        rw e (inl (q ∙ ap (λ x. some (text x)) same, refl))
    | inr e ↦ rw e (inr (λ h. cc (is_other h), refl))
  ]
    where
      is_other : sc_val_to_native from ≡ some (text agent_address) → s == agent_address ≡ true
      is_other h = (eq_iff s agent_address).1 cc
  party_cases amount from (some (bigint n)) q = inr (λ h. cc, refl)
  party_cases amount from (some (number n)) q = inr (λ h. cc, refl)
  party_cases amount from (some other) q = inr (λ h. cc, refl)

  ValueOut-iff_true :
      (s : String) → is_value_out ScVal sc_val_to_native agent_address s ≡ true → ValueOut s
  ValueOut-iff_true s h = elim (Bool-cases (s == "transfer")) [
    | inl e ↦ inl ((eq_iff s "transfer").0 e)
    | inr e ↦ elim (Bool-cases (s == "transfer_from")) [
      | inl e' ↦ inr (inl ((eq_iff s "transfer_from").0 e'))
      | inr e' ↦ inr (inr ((eq_iff s "burn").0 (ground (arith, h, e, e'))))
    ]
  ]

  ValueOut-true :
      (s : String) → ValueOut s → is_value_out ScVal sc_val_to_native agent_address s ≡ true
  ValueOut-true s (inl q) = rw q refl
  ValueOut-true s (inr (inl q)) = rw q refl
  ValueOut-true s (inr (inr q)) = rw q refl

  abbrev named : List ScVal → ScVal → Option Native → ℤ
  named = from_name ScVal sc_val_to_native agent_address

  name_cases :
      (name from : ScVal) (topics : List ScVal) (amount : ScVal) (o : Option Native)
      → sc_val_to_native name ≡ o
      → ((s : String) × (sc_val_to_native name ≡ some (text s))
          × ValueOut s
          × (named (from ∷ topics) amount o ≡ party amount (sc_val_to_native from)))
        ⊎ (((s : String) → sc_val_to_native name ≡ some (text s) → ValueOut s → ⊥)
            × (named (from ∷ topics) amount o ≡ pos 0))
  unfolding from_name
  name_cases name from topics amount none q = inr (λ s h k. cc, refl)
  name_cases name from topics amount (some (text s)) q =
      elim (Bool-cases (is_value_out ScVal sc_val_to_native agent_address s)) [
        | inl e ↦ rw e (inl (s, q, ValueOut-iff_true s e, refl))
        | inr e ↦ rw e (inr (never e, refl))
      ]
    where
      never :
          is_value_out ScVal sc_val_to_native agent_address s ≡ false
          → (t : String) → sc_val_to_native name ≡ some (text t)
          → ValueOut t
          → ⊥
      never e t h k = let same : s ≡ t = cc in let yes = ValueOut-true t k in cc
  name_cases name from topics amount (some (bigint n)) q = inr (λ s h k. cc, refl)
  name_cases name from topics amount (some (number n)) q = inr (λ s h k. cc, refl)
  name_cases name from topics amount (some other) q = inr (λ s h k. cc, refl)

  abbrev Case : DiagnosticEvent ScVal → Type 0
  Case d =
      Debits d (debit ScVal sc_val_to_native agent_address d)
      ⊎ (((a : ℤ) → Debits d a → ⊥) × (debit ScVal sc_val_to_native agent_address d ≡ pos 0))

  event_cases :
      (called : Bool) (v0 : Option (List ScVal × ScVal))
      → Case (record { in_successful_contract_call = called; v0 = v0 })
  unfolding debit from_body
  event_cases false v0 = inr (λ a (_, _, _, _, _, bad, _, _, _, _, _). cc, refl)
  event_cases true none = inr (λ a (_, _, _, _, _, _, bad, _, _, _, _). cc, refl)
  event_cases true (some ([], amount)) = inr (λ a (_, _, _, _, _, _, bad, _, _, _, _). cc, refl)
  event_cases true (some (name ∷ [], amount)) =
      inr (λ a (_, _, _, _, _, _, bad, _, _, _, _). cc, short (sc_val_to_native name))
    where
      short : (o : Option Native) → named [] amount o ≡ pos 0
      short none = refl
      short (some n) = refl
  event_cases true (some (name ∷ from ∷ topics, amount)) =
      elim (name_cases name from topics amount (sc_val_to_native name) refl) [
        | inr (never, zero_sum) ↦ inr (λ a x. other_name never a x, zero_sum)
        | inl (s, is_name, out, sum) ↦ elim (party_cases amount from (sc_val_to_native from) refl) [
          | inr (never, zero_sum) ↦ inr (λ a x. other_party never a x, sum ∙ zero_sum)
          | inl (is_agent, sum') ↦ elim (value_cases amount (sc_val_to_native amount) refl) [
            | inr (never, zero_sum) ↦ inr (λ a x. other_value never a x, sum ∙ sum' ∙ zero_sum)
            | inl is_value ↦ inl (
              name,
              from,
              topics,
              amount,
              s,
              refl,
              refl,
              is_name,
              out,
              is_agent,
              subst (IsAmount amount) (sym (sum ∙ sum')) is_value,
            )
          ]
        ]
      ]
    where
      other_name :
          ((s : String) → sc_val_to_native name ≡ some (text s) → ValueOut s → ⊥)
          → (a : ℤ)
          → Debits
              (record {
                in_successful_contract_call = true;
                v0 = some (name ∷ from ∷ topics, amount);
              })
              a
          → ⊥
      other_name never a (n, f, ts, v, s, _, same, is_name, out, _, _) =
          let q : n ≡ name = cc in never s (ap sc_val_to_native (sym q) ∙ is_name) out

      other_party :
          (sc_val_to_native from ≢ some (text agent_address))
          → (a : ℤ)
          → Debits
              (record {
                in_successful_contract_call = true;
                v0 = some (name ∷ from ∷ topics, amount);
              })
              a
          → ⊥
      other_party never a (n, f, ts, v, s, _, same, _, _, is_agent, _) =
          let q : f ≡ from = cc in never (ap sc_val_to_native (sym q) ∙ is_agent)

      other_value :
          ((a : ℤ) → IsAmount amount a → ⊥)
          → (a : ℤ)
          → Debits
              (record {
                in_successful_contract_call = true;
                v0 = some (name ∷ from ∷ topics, amount);
              })
              a
          → ⊥
      other_value never a (n, f, ts, v, s, _, same, _, _, _, is_value) =
          let q : v ≡ amount = cc in never a (subst (λ x. IsAmount x a) q is_value)

  sum_debits-SumsTo :
      (total : ℤ) (ds : List (DiagnosticEvent ScVal))
      → (n : ℤ) × (sum_debits ScVal sc_val_to_native agent_address total ds ≡ total +ℤ n)
        × SumsTo ds n
  unfolding sum_debits
  sum_debits-SumsTo total [] = (pos 0, omega int_laws, refl)
  sum_debits-SumsTo total (d ∷ ds) =
      let x = debit ScVal sc_val_to_native agent_address d in
      let (n, sum, rest) = sum_debits-SumsTo (total +ℤ x) ds in
      elim (event_cases d.in_successful_contract_call d.v0) [
        | inl debits ↦ (x +ℤ n, sum ∙ assoc total x n, inl (x, n, refl, debits, rest))
        | inr (never, nothing) ↦
            (n, sum ∙ ap (λ y. (total +ℤ y) +ℤ n) nothing ∙ drop_zero total n, inr (never, rest))
      ]
    where
      assoc : (a b c : ℤ) → ((a +ℤ b) +ℤ c) ≡ (a +ℤ (b +ℤ c))
      assoc a b c = omega int_laws

      drop_zero : (a c : ℤ) → ((a +ℤ pos 0) +ℤ c) ≡ (a +ℤ c)
      drop_zero a c = omega int_laws

  pub extract-SumsTo :
      (ds : List (DiagnosticEvent ScVal))
      → SumsTo ds (extract_sac_transfer_total ScVal sc_val_to_native agent_address ds)
  unfolding extract_sac_transfer_total
  extract-SumsTo ds =
      let (n, sum, sums) = sum_debits-SumsTo (pos 0) ds in
      let same : (pos 0 +ℤ n) ≡ n = omega int_laws in subst (SumsTo ds) (sym (sum ∙ same)) sums
