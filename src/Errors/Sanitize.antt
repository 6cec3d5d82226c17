-- ===== src/Errors/Sanitize.antt =====
-- `sanitizeCause` of backend/errors.ts.
use synapse_stellar.Prelude.{Bool, true, false, ◌≡◌, refl, if◌then◌else◌}
use synapse_stellar.Values.{
  Value, Items, Fields, undefined, null, bool, number, text, array, object, nil, cons, end, field,
  put,
}
use synapse_stellar.Values.Keys.{IsClean, AreClean, HasClean, put-HasClean}
use synapse_stellar.Errors.{is_sensitive, sanitize_cause, sanitize_items, sanitize_fields}

mutual
  unfolding sanitize_cause

  cause-IsClean : (v : Value) → IsClean is_sensitive (sanitize_cause v)
  cause-IsClean (array vs) = items-AreClean vs
  cause-IsClean (object fs) = fields-HasClean fs end tt
  cause-IsClean undefined = tt
  cause-IsClean null = tt
  cause-IsClean (bool b) = tt
  cause-IsClean (number n) = tt
  cause-IsClean (text s) = tt

  items-AreClean : (vs : Items) → AreClean is_sensitive (sanitize_items vs)
  items-AreClean nil = tt
  items-AreClean (cons v vs) = (cause-IsClean v, items-AreClean vs)

  fields-HasClean :
      (fs done : Fields)
      → HasClean is_sensitive done
      → HasClean is_sensitive (sanitize_fields fs done)
  fields-HasClean end done c = c
  fields-HasClean (field k v fs) done c =
      fields-HasClean fs (if is_sensitive k then done else put done k (sanitize_cause v))
        (step (cause-IsClean v) (is_sensitive k) refl)
    where
      step :
          IsClean is_sensitive (sanitize_cause v)
          → (b : Bool) → is_sensitive k ≡ b
          → HasClean is_sensitive (if b then done else put done k (sanitize_cause v))
      step _ true e = c
      step clean false e = put-HasClean is_sensitive done k (sanitize_cause v) e clean c

-- No object inside a sanitized cause, at any depth of arrays and objects, has a key that may carry
-- signing material.
pub sanitize_cause-IsClean : (v : Value) → IsClean is_sensitive (sanitize_cause v)
sanitize_cause-IsClean v = cause-IsClean v
