-- ===== src/Errors/Tests.antt =====
-- A secret inside a cause, and what a client sees of an error: backend/errors.ts and
-- backend/middleware/error_handler.ts.
use synapse_stellar.Prelude.{◌≡◌, refl, String}
use synapse_stellar.Values.{Value, object, field, end, text, array, cons, nil, undefined, put}
use synapse_stellar.Values.Keys.{IsClean}
use synapse_stellar.Errors.{
  ErrorClass, Thrown, structured, simulation_budget_error, sanitize_cause, sanitize_items,
  sanitize_fields, is_sensitive,
}
use synapse_stellar.Errors.Sanitize.{sanitize_cause-IsClean}

abbrev cause : Value
cause = object (
    field "signer"
      (array (cons (object (field "seed" (text "S…") (field "id" (text "G…") end))) nil)) end)

sanitized :
    sanitize_cause cause
    ≡ object (field "signer" (array (cons (object (field "id" (text "G…") end)) nil)) end)
unfolding sanitize_cause sanitize_items sanitize_fields put
sanitized = refl

sanitize_cause-IsClean_example : IsClean is_sensitive (sanitize_cause cause)
sanitize_cause-IsClean_example = sanitize_cause-IsClean cause

abbrev class_name : ErrorClass → String
class_name c = "SimulationBudgetError"

abbrev thrown : Thrown
thrown = structured (record { class = simulation_budget_error; message = "cpu"; cause = undefined })
