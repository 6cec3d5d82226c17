-- ===== src/Spending/Window.antt =====
-- The rolling window of backend/spending_tracker.ts: what `pruneOld` keeps, and sums over it.
use synapse_stellar.Prelude.{
  ℕ, ◌≤◌, ◌≡◌, refl, sym, List, [], ◌∷◌, ◌++◌, filter, All, filter-append, arith,
}
use synapse_stellar.Prelude.Int.{ℤ, pos, ◌+ℤ◌, +ℤ_assoc, +ℤ_zero, zero_+ℤ}
use synapse_stellar.Persistence.{SpendingRecord, is_since, IsSorted}
use synapse_stellar.Spending.{sum_amounts, total_of, shift_expired}

-- No record is younger than `now`.
abbrev pub IsPast : ℕ → List SpendingRecord → Type 0
IsPast now = All (λ r. r.timestamp ≤ now)

filter-since_all :
    (cutoff lo : ℕ) (rs : List SpendingRecord)
    → cutoff ≤ lo
    → IsSorted lo rs
    → filter (is_since cutoff) rs ≡ rs
filter-since_all cutoff lo [] h s = refl
filter-since_all cutoff lo (r ∷ rs) h s = ground (arith, filter-since_all cutoff r.timestamp rs)

-- On a sorted list the loop of `pruneOld` keeps the records since the cutoff, and no other.
pub shift_expired-filter :
    (cutoff lo : ℕ) (rs : List SpendingRecord)
    → IsSorted lo rs
    → shift_expired cutoff rs ≡ filter (is_since cutoff) rs
unfolding shift_expired
shift_expired-filter cutoff lo [] s = refl
shift_expired-filter cutoff lo (r ∷ rs) s =
    ground
      (arith, shift_expired-filter cutoff r.timestamp rs, filter-since_all cutoff r.timestamp rs)

pub shift_expired-IsSorted :
    (cutoff lo : ℕ) (rs : List SpendingRecord)
    → IsSorted lo rs
    → IsSorted lo (shift_expired cutoff rs)
unfolding shift_expired
shift_expired-IsSorted cutoff lo [] s = tt
shift_expired-IsSorted cutoff lo (r ∷ rs) s =
    ground (arith, shift_expired-IsSorted cutoff lo rs, IsSorted_down lo r.timestamp rs)
  where
    IsSorted_down : (m n : ℕ) (xs : List SpendingRecord) → m ≤ n → IsSorted n xs → IsSorted m xs
    IsSorted_down m n [] h k = tt
    IsSorted_down m n (x ∷ xs) h k = (omega arith, k.1)

pub shift_expired-IsPast :
    (cutoff now : ℕ) (rs : List SpendingRecord)
    → IsPast now rs
    → IsPast now (shift_expired cutoff rs)
unfolding shift_expired
shift_expired-IsPast cutoff now [] h = tt
shift_expired-IsPast cutoff now (r ∷ rs) h = ground (arith, shift_expired-IsPast cutoff now rs)

pub IsPast-mono :
    (now later : ℕ) (rs : List SpendingRecord) → now ≤ later → IsPast now rs → IsPast later rs
IsPast-mono now later [] h p = tt
IsPast-mono now later (r ∷ rs) h p = (omega arith, IsPast-mono now later rs h p.1)

-- A new record at the present keeps the order.
pub IsSorted-append :
    (lo now : ℕ) (rs : List SpendingRecord) (r : SpendingRecord)
    → lo ≤ now
    → r.timestamp ≡ now
    → IsSorted lo rs
    → IsPast now rs
    → IsSorted lo (rs ++ r ∷ [])
IsSorted-append lo now [] r h e s p = (omega arith, tt)
IsSorted-append lo now (x ∷ rs) r h e s p =
    (s.0, IsSorted-append x.timestamp now rs r (omega arith) e s.1 p.1)

pub filter-since_twice :
    (c d : ℕ) (rs : List SpendingRecord)
    → c ≤ d
    → filter (is_since d) (filter (is_since c) rs) ≡ filter (is_since d) rs
filter-since_twice c d [] h = refl
filter-since_twice c d (r ∷ rs) h = ground (arith, filter-since_twice c d rs)

-- The accumulator of `reduce` comes out of the sum.
pub sum_amounts-eq-add :
    (acc : ℤ) (rs : List SpendingRecord) → sum_amounts acc rs ≡ acc +ℤ total_of rs
unfolding sum_amounts total_of
sum_amounts-eq-add acc [] = sym (+ℤ_zero acc)
sum_amounts-eq-add acc (r ∷ rs) = cc (
  sum_amounts-eq-add (acc +ℤ r.amount) rs,
  sum_amounts-eq-add (pos 0 +ℤ r.amount) rs,
  +ℤ_assoc acc r.amount (total_of rs),
  zero_+ℤ r.amount,
)

pub total_of-cons :
    (r : SpendingRecord) (rs : List SpendingRecord) → total_of (r ∷ rs) ≡ r.amount +ℤ total_of rs
unfolding total_of
total_of-cons r rs = cc (sum_amounts-eq-add (pos 0 +ℤ r.amount) rs, zero_+ℤ r.amount)

total_of-nil : total_of [] ≡ pos 0
unfolding total_of
total_of-nil = refl

pub total_of-append :
    (rs ss : List SpendingRecord) → total_of (rs ++ ss) ≡ total_of rs +ℤ total_of ss
total_of-append [] ss = cc (total_of-nil, zero_+ℤ (total_of ss))
total_of-append (r ∷ rs) ss = cc (
  total_of-cons r (rs ++ ss),
  total_of-cons r rs,
  total_of-append rs ss,
  +ℤ_assoc r.amount (total_of rs) (total_of ss),
)

-- What a further record adds to the sum of a window that it lies in.
pub total_of-filter_snoc :
    (c : ℕ) (rs : List SpendingRecord) (r : SpendingRecord)
    → c ≤ r.timestamp
    → total_of (filter (is_since c) (rs ++ r ∷ [])) ≡ total_of (filter (is_since c) rs) +ℤ r.amount
total_of-filter_snoc c rs r h =
    rw (filter-append (is_since c) rs (r ∷ []))
      (cc (total_of-append (filter (is_since c) rs) (filter (is_since c) (r ∷ [])), kept))
  where
    kept : total_of (filter (is_since c) (r ∷ [])) ≡ r.amount
    kept = ground (arith, total_of-cons r [], total_of-nil, +ℤ_zero r.amount)
