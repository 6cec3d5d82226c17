-- ===== src/Prelude/Maps.antt =====
-- `Map<string, V>` of JavaScript: the entries in insertion order, no key twice.
use mathlib.Core.Path.{◌≡◌, refl}
use mathlib.Core.Logic.{◌↔◌}
use mathlib.Core.Bool.{Bool, true, false}
use mathlib.Core.List.{List, [], ◌∷◌}
use mathlib.Core.Option.{Option, none, some}
use native.Mathlib.Omega.{arith}
use Prim.Native.Nat.{ℕ, ◌≤◌}
use Prim.Native.String.{String}
use text.Mathlib.TextEquality.{eq_iff}
use synapse_stellar.Prelude.Tests.{◌==◌, string_eq, if◌then◌else◌}
use synapse_stellar.Prelude.Lists.{length}

module _ {ℓ} {V : Type ℓ} where
  pub lookup : List (String × V) → String → Option V
  lookup [] k = none
  lookup ((j, v) ∷ es) k = if j == k then some v else lookup es k

  insert : List (String × V) → String → V → List (String × V)
  insert [] k v = (k, v) ∷ []
  insert ((j, w) ∷ es) k v = if j == k then (j, v) ∷ es else (j, w) ∷ insert es k v

  remove : List (String × V) → String → List (String × V)
  remove [] k = []
  remove ((j, w) ∷ es) k = let rest = remove es k in if j == k then rest else (j, w) ∷ rest

  keep : (V → Bool) → List (String × V) → List (String × V)
  keep p [] = []
  keep p ((j, w) ∷ es) = let rest = keep p es in if p w then (j, w) ∷ rest else rest

  abbrev pub kept : (V → Bool) → Option V → Option V
  kept p none = none
  kept p (some v) = if p v then some v else none

  abbrev pub IsUnique : List (String × V) → Type ℓ
  IsUnique [] = Unit
  IsUnique ((j, w) ∷ es) = (lookup es j ≡ none) × IsUnique es

  lookup-insert :
      (es : List (String × V)) (k : String) (v : V) (j : String)
      → lookup (insert es k v) j ≡ (if k == j then some v else lookup es j)
  unfolding lookup insert
  lookup-insert [] k v j = refl
  lookup-insert ((i, w) ∷ es) k v j =
      ground (arith, eq_iff k j, eq_iff i k, eq_iff i j, lookup-insert es k v j)

  lookup-remove :
      (es : List (String × V)) (k j : String)
      → lookup (remove es k) j ≡ (if k == j then none else lookup es j)
  unfolding lookup remove
  lookup-remove [] k j = ground arith
  lookup-remove ((i, w) ∷ es) k j =
      ground (arith, eq_iff k j, eq_iff i k, eq_iff i j, lookup-remove es k j)

  lookup-keep :
      (p : V → Bool) (es : List (String × V)) (j : String)
      → IsUnique es
      → lookup (keep p es) j ≡ kept p (lookup es j)
  unfolding lookup keep
  lookup-keep p [] j u = refl
  lookup-keep p ((i, w) ∷ es) j u = ground (arith, eq_iff i j, lookup-keep p es j u.1)

  insert-IsUnique :
      (es : List (String × V)) (k : String) (v : V) → IsUnique es → IsUnique (insert es k v)
  unfolding lookup insert
  insert-IsUnique [] k v u = (refl, tt)
  insert-IsUnique ((i, w) ∷ es) k v u =
      ground (arith, eq_iff i k, eq_iff k i, lookup-insert es k v i, insert-IsUnique es k v u.1)

  remove-IsUnique : (es : List (String × V)) (k : String) → IsUnique es → IsUnique (remove es k)
  unfolding lookup remove
  remove-IsUnique [] k u = tt
  remove-IsUnique ((i, w) ∷ es) k u =
      ground (arith, eq_iff i k, eq_iff k i, lookup-remove es k i, remove-IsUnique es k u.1)

  keep-IsUnique : (p : V → Bool) (es : List (String × V)) → IsUnique es → IsUnique (keep p es)
  unfolding lookup keep
  keep-IsUnique p [] u = tt
  keep-IsUnique p ((i, w) ∷ es) u = ground (arith, lookup-keep p es i u.1, keep-IsUnique p es u.1)

pub record Map {ℓ} (V : Type ℓ) : Type ℓ where
  entries : List (String × V)
  unique : IsUnique entries

module _ {ℓ} {V : Type ℓ} where
  pub get : Map V → String → Option V
  get m k = lookup m.entries k

  -- `m.has(k)`
  pub has : Map V → String → Bool
  has m k = elim (get m k) [ none ↦ false | some _ ↦ true ]

  pub has_iff : (m : Map V) (k : String) → (has m k ≡ false) ↔ (get m k ≡ none)
  unfolding has
  has_iff m k = ground arith

  pub set : Map V → String → V → Map V
  set m k v = record {
    entries = insert m.entries k v;
    unique = insert-IsUnique m.entries k v m.unique;
  }

  pub delete : Map V → String → Map V
  delete m k = record {
    entries = remove m.entries k;
    unique = remove-IsUnique m.entries k m.unique;
  }

  -- `for (const [k, v] of m) if (!p(v)) m.delete(k)`
  pub retain : (V → Bool) → Map V → Map V
  retain p m = record { entries = keep p m.entries; unique = keep-IsUnique p m.entries m.unique }

  pub size : Map V → ℕ
  size m = length m.entries

  pub get-set :
      (m : Map V) (k : String) (v : V) (j : String)
      → get (set m k v) j ≡ (if k == j then some v else get m j)
  unfolding get set
  get-set m k v j = lookup-insert m.entries k v j

  pub get-delete :
      (m : Map V) (k j : String) → get (delete m k) j ≡ (if k == j then none else get m j)
  unfolding get delete
  get-delete m k j = lookup-remove m.entries k j

  pub get-retain : (p : V → Bool) (m : Map V) (j : String) → get (retain p m) j ≡ kept p (get m j)
  unfolding get retain
  get-retain p m j = lookup-keep p m.entries j m.unique

  size-keep-le : (p : V → Bool) (es : List (String × V)) → length (keep p es) ≤ length es
  unfolding keep
  size-keep-le p [] = omega arith
  size-keep-le p (e ∷ es) = ground (arith, size-keep-le p es)

  pub size-retain-le : (p : V → Bool) (m : Map V) → size (retain p m) ≤ size m
  unfolding size retain
  size-retain-le p m = size-keep-le p m.entries

  -- The entries, as `Map.prototype.entries` lists them.
  pub entries_of : Map V → List (String × V)
  entries_of m = m.entries

  pub entries_of-IsUnique : (m : Map V) → IsUnique (entries_of m)
  unfolding entries_of
  entries_of-IsUnique m = m.unique

  pub lookup-entries_of : (m : Map V) (k : String) → lookup (entries_of m) k ≡ get m k
  unfolding entries_of get
  lookup-entries_of m k = refl

  pub lookup-cons :
      (k : String) (v : V) (es : List (String × V)) (j : String)
      → lookup ((k, v) ∷ es) j ≡ (if k == j then some v else lookup es j)
  unfolding lookup
  lookup-cons k v es j = refl

  pub lookup-nil : (k : String) → lookup {V = V} [] k ≡ none
  unfolding lookup
  lookup-nil k = refl

abbrev pub empty {ℓ} : {V : Type ℓ} → Map V
empty = record { entries = []; unique = tt }

pub get-empty {ℓ} : {V : Type ℓ} (j : String) → get (empty {V = V}) j ≡ none
unfolding get lookup
get-empty j = refl
