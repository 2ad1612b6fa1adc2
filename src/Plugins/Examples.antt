-- ===== src/Plugins/Examples.antt =====
-- A run with a private answer; the theorems on plugins at that run.
use company_data_go.Prelude.{ℕ, suc, ◌≡◌, ◌↔◌, refl, String, true, false, none, some, [], ◌∷◌}
use company_data_go.Json.{
  Value, string, array, object, float64, nil, cons, Fields, end, field, get, put,
}
use company_data_go.Floats.{float_lt}
use company_data_go.Flow.Scalars.{flow_answered, flow_to_num, flow_str}
use company_data_go.Flow.Examples.{digit_text}
use company_data_go.Constants.Expr.{eval_expr}
use company_data_go.Constants.Examples.{first_math}
use company_data_go.Constants.Plugins.{list_in}
use company_data_go.Constants.Refs.{expr_refs}
use company_data_go.Plugins.Elements.{FlowRun, as_string, field_element_for_slug}
use company_data_go.Plugins.Privacy.{node_in, is_private, base_of, keyed_constants}
use company_data_go.Plugins.Explored.{Reaches}
use company_data_go.Plugins.Reach.{is_private-Reaches}
use company_data_go.Plugins.Inputs.{
  resolved, object_under, plugin_inputs, convert_plugin_input, flow_bound_error,
}
use company_data_go.Plugins.Sent.{Sent, plugin_inputs-Sent}
use company_data_go.Plugins.Bounds.{AtLeast, AtMost, limit_of, flow_bound_error-Within}
use company_data_go.Plugins.Pass.{Outcome, ok, failed, PluginPass, api_error}
use company_data_go.Plugins.Call.{Party, call_loop, max_rounds}
use company_data_go.Plugins.Rounds.{call_loop_ends}

abbrev lit_one : Value
lit_one = object (field "type" (string "lit") (field "value" (float64 4607182418800017408) end))

abbrev age_element : Fields
age_element = field "kind" (string "field") (field "slug" (string "age") (field "min" lit_one end))

abbrev salary_ref : Value
salary_ref = object (field "type" (string "ref") (field "key" (string "salary") end))

-- The constant `wage` reads the private answer `salary`.
abbrev wage_constant : Value
wage_constant = object (field "key" (string "wage") (field "expr" salary_ref end))

abbrev a_run : FlowRun
a_run = record {
  definition =
      field "nodes"
        (array (
          cons
            (object (
              field "key" (string "start")
                (field "elements" (array (cons (object age_element) nil)) end)))
            nil))
        (field "constants" (array (cons wage_constant nil)) end);
  current_node = "start";
  reference_date = "";
  bindings = [];
  private_slugs = some ("salary" ∷ []);
}

abbrev draft : Fields
draft = field "age" (string "1") end

wage_private : is_private a_run draft "me" "wage" ≡ true
unfolding is_private base_of keyed_constants expr_refs
wage_private = refl

age_public : is_private a_run draft "me" "age" ≡ false
unfolding is_private base_of keyed_constants expr_refs
age_public = refl

is_private-Reaches_example :
    (is_private a_run draft "me" "wage" ≡ true) ↔ Reaches (node_in a_run draft "me") "wage"
is_private-Reaches_example = is_private-Reaches a_run draft "me" "wage"

abbrev an_input : Value
an_input = object (field "key" (string "years") (field "type" (string "text") end))

abbrev a_spec : Fields
a_spec =
    field "snapshot" (object (field "inputs" (array (cons an_input nil)) end))
      (field "inputs" (object (field "years" (string "age") end)) end)

abbrev live : Fields
live = field "age" (string "1") end

abbrev sent : Fields
sent = field "years" (string "1") end

inputs_resolved : plugin_inputs digit_text a_spec live (is_private a_run draft "me") ≡ resolved sent
unfolding plugin_inputs convert_plugin_input is_private base_of keyed_constants expr_refs
    flow_answered put flow_str
inputs_resolved = refl

plugin_inputs-Sent_example :
    Sent digit_text live
      (object_under (get a_spec "inputs"))
      (is_private a_run draft "me")
      (list_in (get (object_under (get a_spec "snapshot")) "inputs"))
      "years"
      (string "1")
    × ¬ (
        Reaches
          (node_in a_run draft "me")
          (as_string (get (object_under (get a_spec "inputs")) "years")))
plugin_inputs-Sent_example =
    plugin_inputs-Sent a_run draft "me" digit_text a_spec live sent inputs_resolved "years"
      (string "1") refl

-- ── bounds ──

age_number : flow_to_num digit_text (float64 4607182418800017408) ≡ some 4607182418800017408
unfolding flow_to_num
age_number = refl

age_within :
    flow_bound_error digit_text first_math a_run "age" (float64 4607182418800017408) live ≡ none
unfolding flow_bound_error field_element_for_slug flow_answered eval_expr flow_to_num float_lt
age_within = refl

age_found : field_element_for_slug a_run.definition "age" ≡ some age_element
unfolding field_element_for_slug
age_found = refl

flow_bound_error-Within_example :
    AtLeast 4607182418800017408 (limit_of digit_text first_math a_run (get age_element "min") live)
    × AtMost 4607182418800017408 (limit_of digit_text first_math a_run (get age_element "max") live)
flow_bound_error-Within_example =
    flow_bound_error-Within digit_text first_math a_run "age" (float64 4607182418800017408) live
      age_element 4607182418800017408 age_found (unfold flow_answered in refl) age_number age_within

-- ── a call ──

-- A forwarder that always answers that the pass is not accepted.
abbrev denying : Party ℕ String ℕ
denying = record {
  text = digit_text;
  math = first_math;
  decode = λ s. none;
  own_user = λ run. "me";
  fetch_run = λ w. (ok a_run, w);
  stored_answers = λ run w. (ok end, w);
  fetch_pass = λ w. (ok a_pass, w);
  load_public_key = λ spki. ok spki;
  post = λ pass id key request w. (ok (record { status = 401; body = end; reply_key = 0 }), suc w);
  decrypt = λ o key. ok "";
}
  where
    a_pass : PluginPass
    a_pass = record {
      pass = "p";
      forwarder_url = "";
      plugins = record { id = "cao"; public_key = "k" } ∷ [];
      specs = end;
    }

abbrev first_pass : PluginPass
first_pass = record { pass = "p"; forwarder_url = ""; plugins = []; specs = end }

denied_twice :
    call_loop denying max_rounds false false "cao" end first_pass "k" 0
    ≡ some (failed (api_error 401 "" ""), 2)
unfolding call_loop
denied_twice = refl

call_loop_ends_example :
    (r : Outcome Fields) × (v : ℕ) × (call_loop denying max_rounds false false "cao" end first_pass
        "k" 0
      ≡ some (r, v))
call_loop_ends_example = call_loop_ends denying "cao" end first_pass "k" 0
