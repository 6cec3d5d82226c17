-- ===== src/Payment/Swap/Quotes.antt =====
-- The best and the worst quote of backend/tools/SwapTool.ts.
use synapse_stellar.Prelude.{
  ℕ, ◌*◌, ◌≡◌, ◌≤◌, refl, sym, ap, ◌∙◌, ◌⊎◌, inl, inr, Bool, true, false, if◌then◌else◌, Option,
  none, some, List, [], ◌∷◌, map, All, String, string_eq, Bool-cases, arith,
}
use synapse_stellar.Prelude.Int.{ℤ, pos, ltb_ℤ, ◌≤ℤ◌, int_laws}
use synapse_stellar.Soroban.Decimal.{sac_raw_to_decimal}
use synapse_stellar.Payment.{is_decimal}
use synapse_stellar.Payment.Swap.{
  max_of, min_of, best_of, worst_of, PathRecord, gap, hundred_pct, best_record, beats,
}

-- Every number of the list is one, and lies on the given side of the bound.
abbrev pub Numbers : (ℤ → Type 0) → Option ℤ → Type 0
Numbers P a = (z : ℤ) × (a ≡ some z) × P z

max_of-some :
    (a b : Option ℤ) (m : ℤ)
    → max_of a b ≡ some m
    → Numbers (λ z. z ≤ℤ m) a × Numbers (λ z. z ≤ℤ m) b
max_of-some none b m = λ h. cc
max_of-some (some a) none m = λ h. cc
max_of-some (some a) (some b) m = elim (Bool-cases (ltb_ℤ a b)) [
  | inl less ↦ rw less (λ h.
      let q : b ≡ m = cc in rw (← q) ((a, refl, ground (arith, less)), (b, refl, omega int_laws)))
  | inr more ↦ rw more (λ h.
      let q : a ≡ m = cc in rw (← q) ((a, refl, omega int_laws), (b, refl, ground (arith, more))))
]

min_of-some :
    (a b : Option ℤ) (m : ℤ)
    → min_of a b ≡ some m
    → Numbers (λ z. m ≤ℤ z) a × Numbers (λ z. m ≤ℤ z) b
min_of-some none b m = λ h. cc
min_of-some (some a) none m = λ h. cc
min_of-some (some a) (some b) m = elim (Bool-cases (ltb_ℤ b a)) [
  | inl less ↦ rw less (λ h.
      let q : b ≡ m = cc in rw (← q) ((a, refl, ground (arith, less)), (b, refl, omega int_laws)))
  | inr more ↦ rw more (λ h.
      let q : a ≡ m = cc in rw (← q) ((a, refl, omega int_laws), (b, refl, ground (arith, more))))
]

pub best_of-some :
    (a : Option ℤ) (rest : List (Option ℤ)) (m : ℤ)
    → best_of a rest ≡ some m
    → All (Numbers (λ z. z ≤ℤ m)) (a ∷ rest)
unfolding best_of
best_of-some a [] m h = ((m, h, omega int_laws), tt)
best_of-some a (b ∷ rest) m h =
    let ((y, eq, below), all) = best_of-some (max_of a b) rest m h in
    let ((z, is_a, za), (w, is_b, wb)) = max_of-some a b y eq in
    ((z, is_a, omega int_laws), ((w, is_b, omega int_laws), all))

pub worst_of-some :
    (a : Option ℤ) (rest : List (Option ℤ)) (m : ℤ)
    → worst_of a rest ≡ some m
    → All (Numbers (λ z. m ≤ℤ z)) (a ∷ rest)
unfolding worst_of
worst_of-some a [] m h = ((m, h, omega int_laws), tt)
worst_of-some a (b ∷ rest) m h =
    let ((y, eq, above), all) = worst_of-some (min_of a b) rest m h in
    let ((z, is_a, za), (w, is_b, wb)) = min_of-some a b y eq in
    ((z, is_a, omega int_laws), ((w, is_b, omega int_laws), all))

-- The amount of a record is a number, at most the best, and short of it by no more than the slippage.
abbrev pub Near : (String → Option ℤ) → ℕ → ℕ → PathRecord → Type 0
Near parse_float best pct r =
    (z : ℤ) × (parse_float r.destination_amount ≡ some z)
    × (z ≤ℤ pos best)
    × (gap best z * hundred_pct ≤ pct * best)

gap_mono : (b : ℕ) (w z : ℤ) → w ≤ℤ z → gap b z ≤ gap b w
gap_mono b w z h = ground (arith, h)

pub amounts-AllNear :
    (parse_float : String → Option ℤ) (b pct : ℕ) (w : ℤ) (rs : List PathRecord)
    → gap b w * hundred_pct ≤ pct * b
    → All (Numbers (λ z. z ≤ℤ pos b)) (map (λ r. parse_float r.destination_amount) rs)
    → All (Numbers (λ z. w ≤ℤ z)) (map (λ r. parse_float r.destination_amount) rs)
    → All (Near parse_float b pct) rs
amounts-AllNear parse_float b pct w [] dev below above = tt
amounts-AllNear parse_float b pct w (r ∷ rs) dev ((z, read, low), below) ((y, read', high), above) =
    let q : y ≡ z = cc in
    let h : w ≤ℤ z = rw (← q) high in
    let g : gap b z ≤ gap b w = gap_mono b w z h in
    ((z, read, low, omega (arith, g, dev)), amounts-AllNear parse_float b pct w rs dev below above)

pub worthless_text : (is_decimal (sac_raw_to_decimal 0) ≡ false) × (is_decimal "NaN" ≡ false)
unfolding is_decimal sac_raw_to_decimal
worthless_text = (refl, refl)

-- One of the records.
abbrev pub OneOf : PathRecord → List PathRecord → Type 0
OneOf r [] = ⊥
OneOf r (x ∷ xs) = (r ≡ x) ⊎ OneOf r xs

either_way :
    (b : Bool) (x y : PathRecord) (rs : List PathRecord)
    → OneOf x rs
    → OneOf y rs
    → OneOf (if b then x else y) rs
either_way true x y rs h k = h
either_way false x y rs h k = k

pub best_record-OneOf :
    (parse_float : String → Option ℤ) (first : PathRecord) (rest : List PathRecord)
    → OneOf (best_record parse_float first rest) (first ∷ rest)
unfolding best_record
best_record-OneOf parse_float first [] = inl refl
best_record-OneOf parse_float first (c ∷ rest) =
    either_way (beats (parse_float c.destination_amount) (parse_float first.destination_amount))
      (best_record parse_float c rest) (best_record parse_float first rest) (first ∷ c ∷ rest)
      (inr (best_record-OneOf parse_float c rest))
      (skipped (best_record-OneOf parse_float first rest))
  where
    skipped :
        OneOf (best_record parse_float first rest) (first ∷ rest)
        → OneOf (best_record parse_float first rest) (first ∷ c ∷ rest)
    skipped (inl same) = inl same
    skipped (inr later) = inr (inr later)

-- The record that is chosen has the best of the amounts.
pub best_record-best_of :
    (parse_float : String → Option ℤ) (first : PathRecord) (rest : List PathRecord) (m : ℤ)
    → best_of
        (parse_float first.destination_amount)
        (map (λ r. parse_float r.destination_amount) rest)
      ≡ some m
    → parse_float (best_record parse_float first rest).destination_amount ≡ some m
unfolding best_of best_record
best_record-best_of parse_float first [] m h = h
best_record-best_of parse_float first (c ∷ rest) m h =
    let a = parse_float first.destination_amount in
    let b = parse_float c.destination_amount in
    let amounts_left = map (λ r. parse_float r.destination_amount) rest in
    let ((y, eq, _), _) = best_of-some (max_of a b) amounts_left m h in
    let ((z, is_a, _), (w, is_b, _)) = max_of-some a b y eq in
    let max_is : max_of a b ≡ (if ltb_ℤ z w then some w else some z) = rw (is_a, is_b) refl in
    let beats_is : beats b a ≡ ltb_ℤ z w = rw (is_a, is_b) refl in
    let from_c = best_record-best_of parse_float c rest m in
    let from_first = best_record-best_of parse_float first rest m in
    chosen (ltb_ℤ z w) z w is_a is_b (beats_is) (max_is ∙ refl) h from_c from_first
  where
    chosen :
        (less : Bool) (z w : ℤ)
        → parse_float first.destination_amount ≡ some z
        → parse_float c.destination_amount ≡ some w
        → beats (parse_float c.destination_amount) (parse_float first.destination_amount) ≡ less
        → max_of (parse_float first.destination_amount) (parse_float c.destination_amount)
          ≡ (if less then some w else some z)
        → best_of
            (max_of (parse_float first.destination_amount) (parse_float c.destination_amount))
            (map (λ r. parse_float r.destination_amount) rest)
          ≡ some m
        → (best_of
                (parse_float c.destination_amount)
                (map (λ r. parse_float r.destination_amount) rest)
              ≡ some m
            → parse_float (best_record parse_float c rest).destination_amount ≡ some m)
        → (best_of
                (parse_float first.destination_amount)
                (map (λ r. parse_float r.destination_amount) rest)
              ≡ some m
            → parse_float (best_record parse_float first rest).destination_amount ≡ some m)
        → parse_float
            (if beats (parse_float c.destination_amount) (parse_float first.destination_amount)
              then best_record parse_float c rest
              else best_record parse_float first rest).destination_amount
          ≡ some m
    chosen true z w is_a is_b wins max_is h from_c from_first = rw wins (
        from_c (
          ap (λ o. best_of o (map (λ r. parse_float r.destination_amount) rest)) (is_b ∙ sym max_is)
          ∙ h))
    chosen false z w is_a is_b wins max_is h from_c from_first = rw wins (
        from_first (
          ap (λ o. best_of o (map (λ r. parse_float r.destination_amount) rest)) (is_a ∙ sym max_is)
          ∙ h))
