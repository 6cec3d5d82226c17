-- ===== src/Spending/Tests.antt =====
-- Runs of backend/spending_tracker.ts on a table kept in memory.
use mathlib.Core.List.{Perm}
use mathlib.Core.List.Perm
use synapse_stellar.Prelude.{
  ℕ, ◌≤◌, ◌≡◌, refl, ◌↔◌, Option, none, some, List, [], ◌∷◌, ◌++◌, String, filter, leb, ◌==◌,
  string_eq, arith, if◌then◌else◌, Bool-cases, inl, inr,
}
use synapse_stellar.Prelude.Int.{ℤ, pos, negsuc, ◌+ℤ◌, ◌≤ℤ◌}
use synapse_stellar.Prelude.Results.{ok}
use synapse_stellar.Persistence.{SpendingRecord, SpendingTable, is_since, IsSorted}
use synapse_stellar.Spending.Limit.{Inv, entry, record_payment_lem}
use synapse_stellar.Spending.Restart.{IsReliable, History, total-restart}
use synapse_stellar.Spending.Negative.{negative_makes_room}
use synapse_stellar.Spending.{
  Tracker, total, total_of, shift_expired, prune_old, record_payment, new_tracker,
}

-- `ORDER BY timestamp ASC`
insert : SpendingRecord → List SpendingRecord → List SpendingRecord
insert r [] = r ∷ []
insert r (x ∷ xs) =
    let rest = insert r xs in if leb r.timestamp x.timestamp then r ∷ x ∷ xs else x ∷ rest

sort : List SpendingRecord → List SpendingRecord
sort [] = []
sort (r ∷ rs) = insert r (sort rs)

insert-perm : (r : SpendingRecord) (xs : List SpendingRecord) → Perm (insert r xs) (r ∷ xs)
unfolding insert
insert-perm r [] = Perm.rfl
insert-perm r (x ∷ xs) = elim (Bool-cases (leb r.timestamp x.timestamp)) [
  | inl e ↦ rw e Perm.rfl
  | inr e ↦ rw e (Perm.trans (Perm.cons x (insert-perm r xs)) (Perm.swap r x xs))
]

sort-perm : (rs : List SpendingRecord) → Perm (sort rs) rs
unfolding sort
sort-perm [] = Perm.rfl
sort-perm (r ∷ rs) = Perm.trans (insert-perm r (sort rs)) (Perm.cons r (sort-perm rs))

insert-IsSorted :
    (lo : ℕ) (r : SpendingRecord) (xs : List SpendingRecord)
    → lo ≤ r.timestamp
    → IsSorted lo xs
    → IsSorted lo (insert r xs)
unfolding insert
insert-IsSorted lo r [] h s = (h, tt)
insert-IsSorted lo r (x ∷ xs) h s = ground (arith, insert-IsSorted x.timestamp r xs)

sort-IsSorted : (rs : List SpendingRecord) → IsSorted 0 (sort rs)
unfolding sort
sort-IsSorted [] = tt
sort-IsSorted (r ∷ rs) = insert-IsSorted 0 r (sort rs) (omega arith) (sort-IsSorted rs)

pub load : List SpendingRecord → ℕ → Option (List SpendingRecord)
load d c = some (sort (filter (is_since c) d))

pub load-perm :
    (d : List SpendingRecord) (c : ℕ) (rs : List SpendingRecord)
    → load d c ≡ some rs
    → Perm rs (filter (is_since c) d)
unfolding load
load-perm d c rs e =
    let q : rs ≡ sort (filter (is_since c) d) = cc in rw q (sort-perm (filter (is_since c) d))

pub load-IsSorted :
    (d : List SpendingRecord) (c : ℕ) (rs : List SpendingRecord)
    → load d c ≡ some rs
    → IsSorted 0 rs
unfolding load
load-IsSorted d c rs e =
    let q : rs ≡ sort (filter (is_since c) d) = cc in rw q (sort-IsSorted (filter (is_since c) d))

pub same : {A : Type 0} {a b : A} → some a ≡ some b → b ≡ a
same e = cc

abbrev pub in_memory : SpendingTable
in_memory = record {
  Db = List SpendingRecord;
  rows = λ d. d;
  save_spending_record = λ d r. some (d ++ r ∷ []);
  load_spending_records = load;
  prune_spending_records = λ d c. some (filter (is_since c) d);
  clear_spending_records = λ d. some [];
  rows-save = λ d d' r e. same e;
  load-perm = load-perm;
  load-IsSorted = load-IsSorted;
  rows-prune = λ d d' c e. same e;
  rows-clear = λ d d' e. same e;
}

reliable : IsReliable in_memory
unfolding load
reliable = record {
  saves = λ d r. (d ++ r ∷ [], refl);
  loads = λ d c. (sort (filter (is_since c) d), refl);
}

abbrev pub parse : String → Option ℤ
parse s =
    if s == "200"
    then some (pos 200)
    else if s == "100"
    then some (pos 100)
    else if s == "60"
    then some (pos 60)
    else if s == "-60"
    then some (negsuc 59)
    else none

-- Sixty stroops spent at time 1000, in a window of 500 ms.
abbrev pub busy : Tracker in_memory
busy = record { window_ms = 500; records = entry (pos 60) 1000 ∷ []; db = entry (pos 60) 1000 ∷ [] }

pub busy-Inv : Inv in_memory 1000 busy
busy-Inv = record { sorted = omega arith; past = omega arith }

record_payment_lem_example :
    let out = record_payment in_memory parse "100" busy 1100 1101 "60" in
    let sum = (total in_memory busy 1101).0 +ℤ pos 60 in
    ((out.0 ≡ ok tt) ↔ (sum ≤ℤ pos 100))
    × ((total in_memory out.1 1101).0 ≡ sum)
    × Inv in_memory 1100 out.1
record_payment_lem_example =
    record_payment_lem in_memory parse "100" busy 1000 1100 1101 "60" (pos 60) (pos 100) busy-Inv
      (omega arith) (omega arith) (omega arith) refl refl

total-restart_example :
    (total in_memory (new_tracker in_memory 500 1300 (entry (pos 60) 1000 ∷ [])) 1300).0
    ≡ (total in_memory (new_tracker in_memory 500 1200 (entry (pos 60) 1000 ∷ [])) 1300).0
unfolding new_tracker
total-restart_example =
    total-restart in_memory parse "100" {window_ms = 500} 1300 reliable
      (History.start 1200 (entry (pos 60) 1000 ∷ []) (omega arith)) (omega arith)

-- A refund of 60 that never took place, and a payment of 100 over a limit of 100.
negative_makes_room_example :
    let first = record_payment in_memory parse "100" busy 1100 1100 "-60" in
    let second = record_payment in_memory parse "100" first.1 1100 1100 "100" in
    (first.0 ≡ ok tt)
    × (second.0 ≡ ok tt)
    × ((total in_memory second.1 1100).0 ≡ (total in_memory busy 1100).0 +ℤ negsuc 59 +ℤ pos 100)
unfolding total total_of shift_expired prune_old ◌+ℤ◌
negative_makes_room_example =
    negative_makes_room in_memory parse "100" busy 1000 1100 59 "-60" "100" (pos 100) (pos 100)
      busy-Inv (omega arith) refl refl refl (omega arith) (omega arith)
