-- ===== src/Agent/Sanitize.antt =====
-- `sanitizePayload` of backend/agent.ts. The test of a key is a regular expression without a position, a
-- search for one of its words; `trim` of JavaScript is a parameter.
use synapse_stellar.Prelude.{
  Bool, true, false, ◌≡◌, refl, if◌then◌else◌, String, ℕ, ◌+◌, ◌||◌, ◌&&◌, leb, ◌==◌, nat_eq,
}
use Prim.Native.Char.{Char, code}
use synapse_stellar.Values.{
  Value, Items, Fields, undefined, null, bool, number, text, array, object, nil, cons, end, field,
  put,
}
use synapse_stellar.Values.Keys.{IsClean, AreClean, HasClean, put-HasClean}

-- The small letter of an ASCII letter.
abbrev lower : Char → ℕ
lower c = if leb 65 (code c) && leb (code c) 90 then code c + 32 else code c

-- The text begins with the word, which is in small letters.
starts : String → String → Bool
starts String.[] s = true
starts (String.◌∷◌ w word) String.[] = false
starts (String.◌∷◌ w word) (String.◌∷◌ c s) = let rest = starts word s in code w == lower c && rest

contains : String → String → Bool
unfolding starts
contains word String.[] = starts word ""
contains word (String.◌∷◌ c s) =
    let later = contains word s in starts word (String.◌∷◌ c s) || later

-- `/secret|key|seed|mnemonic|private/i`
unfoldable pub names_secret : String → Bool
unfolding contains
names_secret key =
    contains "secret" key
    || contains "key" key
    || contains "seed" key
    || contains "mnemonic" key
    || contains "private" key

module _ (trim : String → String) where
  unfoldable mutual
    pub sanitize_payload : Value → Value
    sanitize_payload (array vs) = array (sanitize_values vs)
    sanitize_payload (object fs) = object (sanitize_entries fs end)
    sanitize_payload v = v

    sanitize_values : Items → Items
    sanitize_values nil = nil
    sanitize_values (cons v vs) = cons (sanitize_payload v) (sanitize_values vs)

    -- The loop over the entries fills a new object, `done`.
    sanitize_entries : Fields → Fields → Fields
    sanitize_entries end done = done
    sanitize_entries (field k v fs) done =
        sanitize_entries fs
          (if names_secret (trim k) then done else put done (trim k) (sanitize_payload v))

  mutual
    unfolding sanitize_payload

    payload-IsClean : (v : Value) → IsClean names_secret (sanitize_payload v)
    payload-IsClean (array vs) = values-AreClean vs
    payload-IsClean (object fs) = entries-HasClean fs end tt
    payload-IsClean undefined = tt
    payload-IsClean null = tt
    payload-IsClean (bool b) = tt
    payload-IsClean (number n) = tt
    payload-IsClean (text s) = tt

    values-AreClean : (vs : Items) → AreClean names_secret (sanitize_values vs)
    values-AreClean nil = tt
    values-AreClean (cons v vs) = (payload-IsClean v, values-AreClean vs)

    entries-HasClean :
        (fs done : Fields)
        → HasClean names_secret done
        → HasClean names_secret (sanitize_entries fs done)
    entries-HasClean end done c = c
    entries-HasClean (field k v fs) done c =
        entries-HasClean fs
          (if names_secret (trim k) then done else put done (trim k) (sanitize_payload v))
          (kept (payload-IsClean v) (names_secret (trim k)) refl)
      where
        kept :
            IsClean names_secret (sanitize_payload v)
            → (b : Bool) → names_secret (trim k) ≡ b
            → HasClean names_secret (if b then done else put done (trim k) (sanitize_payload v))
        kept _ true e = c
        kept clean false e = put-HasClean names_secret done (trim k) (sanitize_payload v) e clean c

  -- No object inside a sanitized payload, at any depth of arrays and objects, has a key that names a
  -- secret.
  pub sanitize_payload-IsClean : (v : Value) → IsClean names_secret (sanitize_payload v)
  sanitize_payload-IsClean v = payload-IsClean v
