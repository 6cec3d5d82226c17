-- ===== src/Spending/Rows.antt =====
-- Sums and times of rows of backend/persistence.ts do not depend on the order of the rows.
use mathlib.Core.List.{Perm, Permᴰ}
use mathlib.Core.Logic.{∥∥₁_elim}
use native.Mathlib.Bridge.{le_prop}
use mathlib.Core.HLevel.{×_prop}
use synapse_stellar.Prelude.{ℕ, ◌≡◌, refl, sym, ◌∙◌, List, [], ◌∷◌, filter, arith, if◌then◌else◌}
use synapse_stellar.Prelude.Int.{ℤ, pos, ◌+ℤ◌, +ℤ_assoc, +ℤ_comm, zero_+ℤ}
use synapse_stellar.Persistence.{SpendingRecord, is_since}
use synapse_stellar.Spending.Window.{IsPast, total_of-cons}
use synapse_stellar.Spending.{total_of}

-- What a record counts for in a sum since `c`.
weight : ℕ → SpendingRecord → ℤ
weight c r = if is_since c r then r.amount else pos 0

total_of-filter_cons :
    (c : ℕ) (r : SpendingRecord) (rs : List SpendingRecord)
    → total_of (filter (is_since c) (r ∷ rs)) ≡ weight c r +ℤ total_of (filter (is_since c) rs)
unfolding weight
total_of-filter_cons c r rs =
    ground
      (arith, total_of-cons r (filter (is_since c) rs), zero_+ℤ (total_of (filter (is_since c) rs)))

-- Sums over a window do not depend on the order of the rows.
total_of-filter-permᴰ :
    (c : ℕ) {rs ss : List SpendingRecord}
    → Permᴰ rs ss
    → total_of (filter (is_since c) rs) ≡ total_of (filter (is_since c) ss)
total_of-filter-permᴰ c Permᴰ.nil = refl
total_of-filter-permᴰ c (Permᴰ.cons {a} {b} {l₁} {l₂} e p) =
    total_of-filter_cons c a l₁ ∙ cc (total_of-filter-permᴰ c p) ∙ sym (total_of-filter_cons c b l₂)
total_of-filter-permᴰ c (Permᴰ.swap {a} {b} {a'} {b'} {l} e f) =
    total_of-filter_cons c a (b ∷ l)
    ∙ cc (
      total_of-filter_cons c b l,
      total_of-filter_cons c b' l,
      +ℤ_assoc (weight c a) (weight c b) (total_of (filter (is_since c) l)),
      +ℤ_assoc (weight c b) (weight c a) (total_of (filter (is_since c) l)),
      +ℤ_comm (weight c a) (weight c b),
    )
    ∙ sym (total_of-filter_cons c a' (b' ∷ l))
total_of-filter-permᴰ c (Permᴰ.trans p q) = total_of-filter-permᴰ c p ∙ total_of-filter-permᴰ c q

pub total_of-filter-perm :
    (c : ℕ) {rs ss : List SpendingRecord}
    → Perm rs ss
    → total_of (filter (is_since c) rs) ≡ total_of (filter (is_since c) ss)
total_of-filter-perm c p = ∥∥₁_elim p (ℤ-set _ _) (total_of-filter-permᴰ c)
  where
    ℤ-set : IsSet ℤ
    ℤ-set = hlevel

IsPast-permᴰ : (now : ℕ) {rs ss : List SpendingRecord} → Permᴰ rs ss → IsPast now ss → IsPast now rs
IsPast-permᴰ now Permᴰ.nil h = h
IsPast-permᴰ now (Permᴰ.cons e p) h = (ground arith, IsPast-permᴰ now p h.1)
IsPast-permᴰ now (Permᴰ.swap e f) h = (ground arith, (ground arith, h.1.1))
IsPast-permᴰ now (Permᴰ.trans p q) h = IsPast-permᴰ now p (IsPast-permᴰ now q h)

IsPast-prop : (now : ℕ) (rs : List SpendingRecord) → IsProp (IsPast now rs)
IsPast-prop now [] = hlevel
IsPast-prop now (r ∷ rs) = ×_prop le_prop (IsPast-prop now rs)

pub IsPast-perm :
    (now : ℕ) {rs ss : List SpendingRecord} → Perm rs ss → IsPast now ss → IsPast now rs
IsPast-perm now {rs} p h = ∥∥₁_elim p (IsPast-prop now rs) (λ q. IsPast-permᴰ now q h)

pub IsPast-filter :
    (c now : ℕ) (rs : List SpendingRecord) → IsPast now rs → IsPast now (filter (is_since c) rs)
IsPast-filter c now [] h = tt
IsPast-filter c now (r ∷ rs) h = ground (arith, IsPast-filter c now rs)
