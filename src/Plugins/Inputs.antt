-- ===== src/Plugins/Inputs.antt =====
-- The inputs that a plugin is called with, and the bounds of a field (companydata/plugin.go:
-- pluginInputs, convertPluginInput, flowBoundError).
use company_data_go.Prelude.{
  ℕ, String, Bool, true, false, not, ◌&&◌, ◌||◌, Option, none, some, List, codes, of_codes, eqb,
  str_eq, ltb, if◌then◌else◌,
}
use company_data_go.Json.{
  Value, null, boolean, float64, string, object, Items, nil, cons, Fields, end, get, put,
}
use company_data_go.Floats.{float_lt}
use company_data_go.Buffer.Decimal.{trim_space}
use company_data_go.Flow.Scalars.{FloatText, flow_answered, flow_to_num, flow_str}
use company_data_go.FieldTypes.Dates.{date_text}
use company_data_go.Constants.Dates.{Day, parse_flow_date, day_number}
use company_data_go.Constants.Expr.{FloatMath, finite_only, eval_expr}
use company_data_go.Constants.Plugins.{list_in}
use company_data_go.Plugins.Elements.{FlowRun, as_string, coerce_bool, field_element_for_slug}

-- Why an input cannot be sent.
pub data Reason : Type 0 where
  unwired unanswered other_party_private not_convertible : Reason

pub record Unavailable : Type 0 where
  pub input : String
  pub source : String
  pub reason : Reason

pub data Inputs : Type 0 where
  resolved : Fields → Inputs
  unavailable : Unavailable → Inputs

-- One input: its value, or why there is none.
pub data Input : Type 0 where
  value : Value → Input
  missing : Reason → Input

abbrev number_or_none : Option ℕ → Option Value
number_or_none none = none
number_or_none (some n) = some (float64 n)

abbrev date_or_none : Option Day → Option Value
date_or_none none = none
date_or_none (some d) = some (string (of_codes (date_text d.year d.month d.day)))

abbrev truth_of : List ℕ → Option Value
truth_of s =
    if eqb s (codes "true")
    then some (boolean true)
    else if eqb s (codes "false")
    then some (boolean false)
    else none

abbrev boolean_or_none : Value → Option Value
boolean_or_none (boolean b) = some (boolean b)
boolean_or_none (string s) = truth_of (trim_space (codes s))
boolean_or_none _ = none

abbrev pub object_under : Option Value → Fields
object_under (some (object m)) = m
object_under (some _) = end
object_under none = end

module _ (text : FloatText) where
  unfoldable pub convert_plugin_input : String → Value → Option Value
  convert_plugin_input type v =
      if str_eq type "number"
      then number_or_none (finite_only (flow_to_num text v))
      else if str_eq type "date"
      then date_or_none (parse_flow_date v)
      else if str_eq type "boolean"
      then boolean_or_none v
      else some (string (of_codes (flow_str text v)))

  abbrev pub converted : Option Value → Input
  converted none = missing not_convertible
  converted (some v) = value v

  -- `is_private` is the privacy of the run.
  module _ (live wiring : Fields) (is_private : String → Bool) where
    abbrev pub live_input : String → String → Option Value → Input
    live_input type ref none = missing unanswered
    live_input type ref (some v) =
        if not (flow_answered v)
        then missing unanswered
        else if is_private ref
        then missing other_party_private
        else converted (convert_plugin_input type v)

    unfoldable pub resolve_input : String → String → Input
    unfolding convert_plugin_input
    resolve_input type ref =
        if str_eq ref "" then missing unwired else live_input type ref (get live ref)

    -- The source that an input is wired to.
    abbrev pub wired : String → String
    wired key = as_string (get wiring key)

    -- A required input that is missing ends the loop.
    abbrev pub after_input : Fields → Input → (Fields → Inputs) → Fields → Inputs
    after_input im (value v) rest out = rest (put out (as_string (get im "key")) v)
    after_input im (missing reason) rest out =
        if coerce_bool (get im "required")
        then unavailable (record {
          input = as_string (get im "key");
          source = wired (as_string (get im "key"));
          reason = reason;
        })
        else rest out

    unfoldable pub inputs_loop : Items → Fields → Inputs
    unfolding resolve_input
    inputs_loop nil out = resolved out
    inputs_loop (cons (object im) ims) out =
        after_input im
          (resolve_input (as_string (get im "type")) (wired (as_string (get im "key"))))
          (λ o. inputs_loop ims o) out
    inputs_loop (cons _ ims) out = inputs_loop ims out

  unfoldable pub plugin_inputs : Fields → Fields → (String → Bool) → Inputs
  unfolding inputs_loop
  plugin_inputs spec live is_private =
      inputs_loop live (object_under (get spec "inputs")) is_private
        (list_in (get (object_under (get spec "snapshot")) "inputs")) end

-- ── bounds ──

pub record BoundError : Type 0 where
  pub slug : String
  pub bound : String
  pub limit : Value

abbrev on_side : String → Bool → Bool → Bool
on_side bound below above = (str_eq bound "min" && below) || (str_eq bound "max" && above)

abbrev broken_dates : String → Option Day → Option Day → Bool
broken_dates bound (some v) (some l) =
    on_side bound (ltb (day_number v) (day_number l)) (ltb (day_number l) (day_number v))
broken_dates bound (some v) none = false
broken_dates bound none l = false

abbrev pub broken : String → Option ℕ → Option ℕ → Bool → Bool
broken bound (some v) (some l) dates = on_side bound (float_lt v l) (float_lt l v)
broken bound (some v) none dates = dates
broken bound none l dates = dates

module _ (text : FloatText) (math : FloatMath) (run : FlowRun) where
  abbrev pub is_broken : String → Value → Value → Bool
  is_broken bound v limit =
      broken bound (flow_to_num text v) (flow_to_num text limit)
        (broken_dates bound (parse_flow_date v) (parse_flow_date limit))

  -- A bound that evaluates to null is none.
  abbrev pub limit_error : String → String → Value → Value → Option BoundError
  limit_error slug bound v null = none
  limit_error slug bound v limit =
      if is_broken bound v limit
      then some (record { slug = slug; bound = bound; limit = limit })
      else none

  abbrev pub bound_error : String → String → Value → Fields → Option Value → Option BoundError
  bound_error slug bound v live none = none
  bound_error slug bound v live (some null) = none
  bound_error slug bound v live (some e) =
      limit_error slug bound v (eval_expr text math live run.reference_date e)

  abbrev pub first_error : Option BoundError → Option BoundError → Option BoundError
  first_error (some e) o = some e
  first_error none o = o

  abbrev pub element_error : String → Value → Fields → Option Fields → Option BoundError
  element_error slug v live none = none
  element_error slug v live (some m) =
      if not (flow_answered v)
      then none
      else first_error (bound_error slug "min" v live (get m "min"))
          (bound_error slug "max" v live (get m "max"))

  unfoldable pub flow_bound_error : String → Value → Fields → Option BoundError
  flow_bound_error slug v live =
      element_error slug v live (field_element_for_slug run.definition slug)
