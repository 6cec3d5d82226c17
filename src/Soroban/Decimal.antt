-- ===== src/Soroban/Decimal.antt =====
-- `sacRawToDecimal` of backend/tools/SorobanInvokeTool.ts, for amounts that are not negative, with
-- JavaScript's `toString` and `padStart`.
use Prim.Native.Char.{Char, code}
use Prim.Native.String.{String}
use native.Mathlib.Nat.{mul_assoc}
use synapse_stellar.Prelude.{
  ℕ, zero, suc, ◌+◌, ◌-◌, ◌*◌, ◌/◌, ◌%◌, ◌≤◌, ◌<◌, ◌≡◌, refl, sym, ◌∙◌, ap, inl, inr, true, Option,
  none, some, ltb, ◌==◌, nat_eq, arith, Bool-cases, if◌then◌else◌,
}

-- Digits above 9 do not occur.
digit_char : ℕ → Char
digit_char zero = "0"
digit_char (suc zero) = "1"
digit_char (suc (suc zero)) = "2"
digit_char (suc (suc (suc zero))) = "3"
digit_char (suc (suc (suc (suc zero)))) = "4"
digit_char (suc (suc (suc (suc (suc zero))))) = "5"
digit_char (suc (suc (suc (suc (suc (suc zero)))))) = "6"
digit_char (suc (suc (suc (suc (suc (suc (suc zero))))))) = "7"
digit_char (suc (suc (suc (suc (suc (suc (suc (suc zero)))))))) = "8"
digit_char _ = "9"

-- The digits of a number, before a text; a number has fewer digits than its value and one.
to_chars : ℕ → ℕ → String → String
unfolding digit_char
to_chars zero n rest = rest
to_chars (suc fuel) n rest =
    let first = String.◌∷◌ (digit_char (n % 10)) rest in
    let more = to_chars fuel (n / 10) first in if ltb n 10 then first else more

to_string : ℕ → String → String
unfolding to_chars
to_string n rest = to_chars (suc n) n rest

units : String → ℕ
units String.[] = 0
units (String.◌∷◌ c s) = suc (units s)

zeros : ℕ → String → String
zeros zero s = s
zeros (suc k) s = String.◌∷◌ "0" (zeros k s)

-- `s.padStart(width, '0')`
pad_start : ℕ → String → String
unfolding units zeros
pad_start width s = zeros (width - units s) s

abbrev pub sac_token_decimals : ℕ
sac_token_decimals = 7

unfoldable pub sac_raw_to_decimal : ℕ → String
unfolding to_string pad_start
sac_raw_to_decimal raw =
    let divisor : ℕ = 10000000 in
    to_string (raw / divisor)
      (String.◌∷◌ "." (pad_start sac_token_decimals (to_string (raw % divisor) "")))

-- How a decimal is read: its value in units of 10⁻⁷, if it has exactly seven decimals.
pub digit : Char → Option ℕ
digit c = if ltb (code c) 48 then none else if ltb 57 (code c) then none else some (code c - 48)

pub decimals : ℕ → ℕ → String → Option ℕ
unfolding digit
decimals zero value String.[] = some value
decimals zero value (String.◌∷◌ c s) = none
decimals (suc places) value String.[] = none
decimals (suc places) value (String.◌∷◌ c s) = elim (digit c) [
  | none ↦ none
  | some d ↦ decimals places (value * 10 + d) s
]

unfoldable pub stroops : ℕ → String → Option ℕ
unfolding decimals
stroops value String.[] = none
stroops value (String.◌∷◌ c s) =
    if code c == 46
    then decimals 7 value s
    else elim (digit c) [ none ↦ none | some d ↦ stroops (value * 10 + d) s ]

reads : sac_raw_to_decimal 1000000000 ≡ "100.0000000"
unfolding sac_raw_to_decimal
reads = refl

reads_back : stroops 0 "12.0000345" ≡ some 120000345
unfolding stroops
reads_back = refl

below_ten :
    (P : ℕ → Type 0)
    → P 0
    → P 1
    → P 2
    → P 3
    → P 4
    → P 5
    → P 6
    → P 7
    → P 8
    → P 9
    → (d : ℕ) → d < 10
    → P d
below_ten P p0 p1 p2 p3 p4 p5 p6 p7 p8 p9 zero h = p0
below_ten P p0 p1 p2 p3 p4 p5 p6 p7 p8 p9 (suc zero) h = p1
below_ten P p0 p1 p2 p3 p4 p5 p6 p7 p8 p9 (suc (suc zero)) h = p2
below_ten P p0 p1 p2 p3 p4 p5 p6 p7 p8 p9 (suc (suc (suc zero))) h = p3
below_ten P p0 p1 p2 p3 p4 p5 p6 p7 p8 p9 (suc (suc (suc (suc zero)))) h = p4
below_ten P p0 p1 p2 p3 p4 p5 p6 p7 p8 p9 (suc (suc (suc (suc (suc zero))))) h = p5
below_ten P p0 p1 p2 p3 p4 p5 p6 p7 p8 p9 (suc (suc (suc (suc (suc (suc zero)))))) h = p6
below_ten P p0 p1 p2 p3 p4 p5 p6 p7 p8 p9 (suc (suc (suc (suc (suc (suc (suc zero))))))) h = p7
below_ten P p0 p1 p2 p3 p4 p5 p6 p7 p8 p9 (suc (suc (suc (suc (suc (suc (suc (suc zero)))))))) h =
    p8
below_ten P p0 p1 p2 p3 p4 p5 p6 p7 p8 p9 (suc (suc (suc (suc (suc (suc (suc (suc (suc n)))))))))
      h =
    let e : n ≡ 0 = omega arith in rw e p9

stroops-digit :
    (value : ℕ) (s : String) (d : ℕ)
    → d < 10
    → stroops value (String.◌∷◌ (digit_char d) s) ≡ stroops (value * 10 + d) s
unfolding stroops digit_char
stroops-digit value s d h =
    below_ten (λ d. stroops value (String.◌∷◌ (digit_char d) s) ≡ stroops (value * 10 + d) s) refl
      refl refl refl refl refl refl refl refl refl d h

decimals-digit :
    (places value : ℕ) (s : String) (d : ℕ)
    → d < 10
    → decimals (suc places) value (String.◌∷◌ (digit_char d) s) ≡ decimals places (value * 10 + d) s
unfolding decimals digit_char
decimals-digit places value s d h =
    below_ten
      (λ d.
        decimals (suc places) value (String.◌∷◌ (digit_char d) s)
        ≡ decimals places (value * 10 + d) s)
      refl refl refl refl refl refl refl refl refl refl d h

-- Reading the digits of a number gives the number.
stroops-to_chars :
    (fuel n : ℕ) (rest : String) → n < fuel → stroops 0 (to_chars fuel n rest) ≡ stroops n rest
unfolding to_chars
stroops-to_chars zero n rest h = absurd (omega arith)
stroops-to_chars (suc fuel) n rest h =
    let first = String.◌∷◌ (digit_char (n % 10)) rest in
    elim (Bool-cases (ltb n 10)) [
      | inl small ↦
          let same : 0 * 10 + n % 10 ≡ n = ground arith in
          rw small (stroops-digit 0 rest (n % 10) (omega arith) ∙ ap (λ v. stroops v rest) same)
      | inr large ↦
          let same : n / 10 * 10 + n % 10 ≡ n = omega arith in
          rw large (
            stroops-to_chars fuel (n / 10) first (ground arith)
            ∙ stroops-digit (n / 10) rest (n % 10) (omega arith)
            ∙ ap (λ v. stroops v rest) same)
    ]

-- How many digits `to_chars` writes.
written : ℕ → ℕ → ℕ
written zero n = 0
written (suc fuel) n = let more = written fuel (n / 10) in if ltb n 10 then 1 else suc more

pow10 : ℕ → ℕ
pow10 zero = 1
pow10 (suc k) = pow10 k * 10

units-to_chars :
    (fuel n : ℕ) (rest : String) → units (to_chars fuel n rest) ≡ written fuel n + units rest
unfolding to_chars written units
units-to_chars zero n rest = omega arith
units-to_chars (suc fuel) n rest = elim (Bool-cases (ltb n 10)) [
  | inl small ↦ rw small (omega arith)
  | inr large ↦ rw large (
      let more = units-to_chars fuel (n / 10) (String.◌∷◌ (digit_char (n % 10)) rest) in
      omega (arith, more))
]

written-le : (fuel n k : ℕ) → n < pow10 (suc k) → written fuel n ≤ suc k
unfolding written pow10
written-le zero n k h = omega arith
written-le (suc fuel) n zero h =
    let small : ltb n 10 ≡ true = ground arith in rw small (omega arith)
written-le (suc fuel) n (suc k) h =
    let more = written-le fuel (n / 10) k (omega arith) in ground (arith, more)

decimals-to_chars :
    (fuel n places value : ℕ) (rest : String)
    → n < fuel
    → decimals (written fuel n + places) value (to_chars fuel n rest)
      ≡ decimals places (value * pow10 (written fuel n) + n) rest
unfolding to_chars written pow10
decimals-to_chars zero n places value rest h = absurd (omega arith)
decimals-to_chars (suc fuel) n places value rest h =
    let first = String.◌∷◌ (digit_char (n % 10)) rest in
    let d = written fuel (n / 10) in
    elim (Bool-cases (ltb n 10)) [
      | inl small ↦
          let all_places : 1 + places ≡ suc places = omega arith in
          let same : value * 10 + n % 10 ≡ value * 10 + n = ground arith in
          rw small (
            ap (λ k. decimals k value first) all_places
            ∙ decimals-digit places value rest (n % 10) (omega arith)
            ∙ ap (λ v. decimals places v rest) same)
      | inr large ↦
          let all_places : suc d + places ≡ d + suc places = omega arith in
          let same : (value * pow10 d + n / 10) * 10 + n % 10 ≡ value * (pow10 d * 10) + n =
            omega (arith, mul_assoc value (pow10 d) 10) in
          rw large (
            ap (λ k. decimals k value (to_chars fuel (n / 10) first)) all_places
            ∙ decimals-to_chars fuel (n / 10) (suc places) value first (ground arith)
            ∙ decimals-digit places (value * pow10 d + n / 10) rest (n % 10) (omega arith)
            ∙ ap (λ v. decimals places v rest) same)
    ]

decimals-zeros :
    (z places value : ℕ) (s : String)
    → decimals (z + places) value (zeros z s) ≡ decimals places (value * pow10 z) s
unfolding zeros pow10 digit_char
decimals-zeros zero places value s =
    let all_places : 0 + places ≡ places = omega arith in
    let same : value ≡ value * 1 = omega arith in
    ap (λ k. decimals k value s) all_places ∙ ap (λ v. decimals places v s) same
decimals-zeros (suc z) places value s =
    let all_places : suc z + places ≡ suc (z + places) = omega arith in
    let same : (value * 10 + 0) * pow10 z ≡ value * (pow10 z * 10) = grind arith in
    ap (λ k. decimals k value (zeros (suc z) s)) all_places
    ∙ decimals-digit (z + places) value (zeros z s) 0 (omega arith)
    ∙ decimals-zeros z places (value * 10 + 0) s
    ∙ ap (λ v. decimals places v s) same

pow10-add : (a b : ℕ) → pow10 (a + b) ≡ pow10 a * pow10 b
unfolding pow10
pow10-add zero b = let same : 0 + b ≡ b = omega arith in ap pow10 same ∙ omega arith
pow10-add (suc a) b =
    let same : suc a + b ≡ suc (a + b) = omega arith in
    ap pow10 same ∙ (let rest = pow10-add a b in grind (arith, rest))

pow10_seven : (a b : ℕ) → a + b ≡ 7 → pow10 a * pow10 b ≡ 10000000
unfolding pow10
pow10_seven a b h = sym (pow10-add a b) ∙ ap pow10 h

decimals-padded :
    (value n d : ℕ) (s : String)
    → units s ≡ d
    → d ≤ 7
    → ((v : ℕ) → decimals (d + 0) v s ≡ decimals 0 (v * pow10 d + n) "")
    → decimals 7 value (pad_start 7 s) ≡ some (value * 10000000 + n)
unfolding pad_start decimals
decimals-padded value n d s e h read =
    let z = 7 - units s in
    let places : 7 ≡ z + (d + 0) = omega arith in
    let all_ten : pow10 z * pow10 d ≡ 10000000 = pow10_seven z d (omega arith) in
    let same : value * pow10 z * pow10 d + n ≡ value * 10000000 + n =
      ap (λ v. v + n) (mul_assoc value (pow10 z) (pow10 d) ∙ ap (λ v. value * v) all_ten) in
    ap (λ k. decimals k value (zeros z s)) places
    ∙ decimals-zeros z (d + 0) value s
    ∙ read (value * pow10 z)
    ∙ ap some same

units-to_string : (n : ℕ) → units (to_string n "") ≡ written (suc n) n
unfolding to_string units
units-to_string n = units-to_chars (suc n) n "" ∙ omega arith

written_short : (n : ℕ) → n < 10000000 → written (suc n) n ≤ 7
unfolding pow10
written_short n h = written-le (suc n) n 6 h

decimals-to_string :
    (n v : ℕ)
    → decimals (written (suc n) n + 0) v (to_string n "")
      ≡ decimals 0 (v * pow10 (written (suc n) n) + n) ""
unfolding to_string
decimals-to_string n v = decimals-to_chars (suc n) n 0 v "" (omega arith)

decimals-pad_start :
    (value n : ℕ)
    → n < 10000000
    → decimals 7 value (pad_start 7 (to_string n "")) ≡ some (value * 10000000 + n)
decimals-pad_start value n h =
    decimals-padded value n (written (suc n) n) (to_string n "") (units-to_string n)
      (written_short n h) (decimals-to_string n)

-- Round trip: read back as a decimal with seven places, the text of an amount is the amount.
pub stroops-sac_raw_to_decimal : (raw : ℕ) → stroops 0 (sac_raw_to_decimal raw) ≡ some raw
unfolding sac_raw_to_decimal stroops
stroops-sac_raw_to_decimal raw =
    let whole = raw / 10000000 in
    let fraction = raw % 10000000 in
    let same : whole * 10000000 + fraction ≡ raw = omega arith in
    stroops-to_chars (suc whole) whole (String.◌∷◌ "." (pad_start 7 (to_string fraction "")))
      (omega arith)
    ∙ decimals-pad_start whole fraction (omega arith)
    ∙ ap some same
