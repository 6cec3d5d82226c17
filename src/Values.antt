-- ===== src/Values.antt =====
-- The values of the program whose type is `unknown`: payloads of tasks and causes of errors. A number
-- counts units of 10⁻⁷. What is neither plain data nor an array is not a value here.
pub mod Keys
use synapse_stellar.Prelude.{ℕ, String, Bool, Option, none, some, ◌==◌, string_eq, if◌then◌else◌}
use synapse_stellar.Prelude.Int.{ℤ}

mutual
  pub data Value : Type 0 where
    undefined : Value
    null : Value
    bool : Bool → Value
    number : ℤ → Value
    text : String → Value
    array : Items → Value
    object : Fields → Value

  pub data Items : Type 0 where
    nil : Items
    cons : Value → Items → Items

  pub data Fields : Type 0 where
    end : Fields
    field : String → Value → Fields → Fields

-- `object[key]`
unfoldable pub get : Fields → String → Value
get end key = undefined
get (field k v fs) key = if k == key then v else get fs key

-- `object[key] = value`
unfoldable pub put : Fields → String → Value → Fields
put end key value = field key value end
put (field k v fs) key value = if k == key then field k value fs else field k v (put fs key value)

-- `value?.[key]` of plain data.
unfoldable pub property : Value → String → Value
unfolding get
property (object fs) key = get fs key
property _ key = undefined
