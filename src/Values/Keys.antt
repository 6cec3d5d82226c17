-- ===== src/Values/Keys.antt =====
-- Which keys an object holds, at any depth.
use synapse_stellar.Prelude.{String, Bool, false, ◌≡◌, string_eq, arith}
use synapse_stellar.Values.{Value, Items, Fields, array, object, nil, cons, end, field, put}

-- No key of the value, at any depth, is one that `hidden` names.
abbrev mutual
  pub IsClean : (String → Bool) → Value → Type 0
  IsClean hidden (array vs) = AreClean hidden vs
  IsClean hidden (object fs) = HasClean hidden fs
  IsClean hidden _ = Unit {0}

  pub AreClean : (String → Bool) → Items → Type 0
  AreClean hidden nil = Unit {0}
  AreClean hidden (cons v vs) = IsClean hidden v × AreClean hidden vs

  pub HasClean : (String → Bool) → Fields → Type 0
  HasClean hidden end = Unit {0}
  HasClean hidden (field k v fs) = (hidden k ≡ false) × IsClean hidden v × HasClean hidden fs

pub put-HasClean :
    (hidden : String → Bool) (fs : Fields) (k : String) (v : Value)
    → hidden k ≡ false
    → IsClean hidden v
    → HasClean hidden fs
    → HasClean hidden (put fs k v)
unfolding put
put-HasClean hidden end k v h c cs = (h, c, tt)
put-HasClean hidden (field j w fs) k v h c cs = ground (arith, put-HasClean hidden fs k v)
