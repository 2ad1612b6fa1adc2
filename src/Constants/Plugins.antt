-- ===== src/Constants/Plugins.antt =====
-- Stored answers of plugins (companydata/flowconstants.go: pluginKeyUsable, parsePluginPlaintext,
-- pluginSummaryOf, ExpandPluginAnswers, PluginAnswerSummary, PluginAnswerView, ResolveConstants).
use Prim.Native.String.{◌++◌ as ◌+++◌}
use company_data_go.Prelude.{
  ℕ, String, Bool, true, false, not, ◌&&◌, ◌||◌, Option, none, some, List, [], ◌∷◌, map, length,
  codes, of_codes, str_eq, leb, ◌==◌, if◌then◌else◌,
}
use company_data_go.Json.{
  Value, null, string, array, object, Items, nil, cons, Fields, end, get, put, without,
  text_or_empty,
}
use company_data_go.Buffer.Decimal.{is_digit}
use company_data_go.Flow.Scalars.{FloatText, flow_str}
use company_data_go.Flow.Condition.{value_or_null}
use company_data_go.Constants.Expr.{FloatMath, joined}
use company_data_go.Constants.Compute.{declared, keys_of, only_keys, compute_constants}

abbrev is_lower : ℕ → Bool
is_lower c = leb b'a' c && leb c b'z'

abbrev key_chars : List ℕ → Bool
key_chars [] = true
key_chars (c ∷ cs) = (is_lower c || is_digit c || c == b'_') && key_chars cs

-- `^[a-z][a-z0-9_]{0,39}$`.
abbrev pub plugin_key : List ℕ → Bool
plugin_key [] = false
plugin_key (c ∷ cs) = is_lower c && key_chars cs && leb (length cs) 39

unfoldable pub plugin_key_usable : String → Bool
plugin_key_usable key = not (str_eq key "id") && plugin_key (codes key)

-- `asAnyList`.
abbrev pub list_in : Option Value → Items
list_in (some (array xs)) = xs
list_in (some _) = nil
list_in none = nil

-- The fields of an object; what is no object has none.
abbrev pub fields_of : Value → Fields
fields_of (object m) = m
fields_of _ = end

abbrev pub is_list : Option Value → Bool
is_list (some (array xs)) = true
is_list (some _) = false
is_list none = false

abbrev pub values_in : Items → List Value
values_in nil = []
values_in (cons x xs) = x ∷ values_in xs

-- `"<slug>.<key>"`.
abbrev pub dotted : String → String → String
dotted slug key = slug +++ ("." +++ key)

-- The objects of a list with a usable key are added, each by `add`.
abbrev pub add_usable : (String → Fields → Fields → Fields) → Value → Fields → Fields
add_usable add (object m) out =
    if plugin_key_usable (text_or_empty (get m "key"))
    then add (text_or_empty (get m "key")) m out
    else out
add_usable add _ out = out

unfoldable pub add_all : (String → Fields → Fields → Fields) → Items → Fields → Fields
unfolding plugin_key_usable
add_all add nil out = out
add_all add (cons x xs) out = add_all add xs (add_usable add x out)

abbrev pub put_present : String → Option Value → Fields → Fields
put_present k none out = out
put_present k (some null) out = out
put_present k (some v) out = put out k v

-- An output adds its value.
abbrev pub add_output : String → String → Fields → Fields → Fields
add_output slug key m out = put_present (dotted slug key) (get m "value") out

-- The block values joined by " / ", in stored order.
abbrev pub separator : List ℕ
separator = codes " / "

pub record PluginViewBlock : Type 0 where
  pub label : List ℕ
  pub value : Value

pub record PluginViewOutput : Type 0 where
  pub label : List ℕ
  pub type : List ℕ
  pub value : Value

pub record PluginView : Type 0 where
  pub blocks : List PluginViewBlock
  pub outputs : List PluginViewOutput

-- `decode` is json.Unmarshal of a text into a value.
module _ (text : FloatText) (decode : String → Option Value) where
  -- An id that is there and not null, as a text.
  abbrev pub id_text : Option Value → Option Value
  id_text none = none
  id_text (some null) = none
  id_text (some v) = some (string (of_codes (flow_str text v)))

  abbrev pub add_block : String → String → Fields → Fields → Fields
  add_block slug key m out =
      let out' = put_present (dotted slug key) (get m "value") out in
      if str_eq (text_or_empty (get m "kind")) "search_select"
      then put_present (dotted slug (key +++ ".id")) (id_text (get m "id")) out'
      else out'

  -- The fields of a JSON object and whether it is finished.
  abbrev pub object_in : Option Value → Option (Fields × Bool)
  object_in (some (object m)) = some (m, is_list (get m "outputs"))
  object_in (some _) = none
  object_in none = none

  unfoldable pub parse_plugin_plaintext : String → Option (Fields × Bool)
  parse_plugin_plaintext plaintext = object_in (decode plaintext)

  abbrev pub block_text : Value → List ℕ
  block_text b = flow_str text (value_or_null (get (fields_of b) "value"))

  unfoldable pub plugin_summary_of : Fields → List ℕ
  plugin_summary_of obj = joined separator (map block_text (values_in (list_in (get obj "blocks"))))

  abbrev pub put_plugin : String → Option (Fields × Bool) → Fields → Fields
  put_plugin slug none out = out
  put_plugin slug (some (obj, false)) out = without out slug
  put_plugin slug (some (obj, true)) out = add_all (add_output slug) (list_in (get obj "outputs")) (
      add_all (add_block slug) (list_in (get obj "blocks"))
        (put out slug (string (of_codes (plugin_summary_of obj)))))

  abbrev pub expand_answer : String → Option Value → Fields → Fields
  expand_answer slug (some (string plaintext)) out =
      put_plugin slug (parse_plugin_plaintext plaintext) out
  expand_answer slug (some _) out = out
  expand_answer slug none out = out

  unfoldable pub expand_slugs : Fields → List String → Fields → Fields
  unfolding add_all parse_plugin_plaintext plugin_summary_of
  expand_slugs answers [] out = out
  expand_slugs answers (slug ∷ slugs) out =
      expand_slugs answers slugs (expand_answer slug (get answers slug) out)

  unfoldable pub expand_plugin_answers : Fields → List String → Fields
  unfolding expand_slugs
  expand_plugin_answers answers slugs = expand_slugs answers slugs answers

  abbrev pub summary_in : Option (Fields × Bool) → Option (List ℕ)
  summary_in none = none
  summary_in (some (obj, false)) = none
  summary_in (some (obj, true)) = some (plugin_summary_of obj)

  unfoldable pub plugin_answer_summary : String → Option (List ℕ)
  unfolding parse_plugin_plaintext plugin_summary_of
  plugin_answer_summary plaintext = summary_in (parse_plugin_plaintext plaintext)

  abbrev pub view_block : Value → PluginViewBlock
  view_block b = record {
    label = flow_str text (value_or_null (get (fields_of b) "label"));
    value = value_or_null (get (fields_of b) "value");
  }

  abbrev pub view_output : Value → PluginViewOutput
  view_output o = record {
    label = flow_str text (value_or_null (get (fields_of o) "label"));
    type = flow_str text (value_or_null (get (fields_of o) "type"));
    value = value_or_null (get (fields_of o) "value");
  }

  abbrev pub view_in : Option (Fields × Bool) → Option PluginView
  view_in none = none
  view_in (some (obj, false)) = none
  view_in (some (obj, true)) = some record {
    blocks = map view_block (values_in (list_in (get obj "blocks")));
    outputs = map view_output (values_in (list_in (get obj "outputs")));
  }

  unfoldable pub plugin_answer_view : String → Option PluginView
  unfolding parse_plugin_plaintext
  plugin_answer_view plaintext = view_in (parse_plugin_plaintext plaintext)

  -- The constants alone; the answers of plugins are expanded first, if there are slugs.
  abbrev pub expanded : Fields → List String → Fields
  expanded answers [] = answers
  expanded answers (slug ∷ slugs) = expand_plugin_answers answers (slug ∷ slugs)

  unfoldable pub resolve_constants : FloatMath → Items → Fields → String → List String → Fields
  unfolding expand_plugin_answers
  resolve_constants math constants answers date slugs =
      only_keys (compute_constants text math date constants (expanded answers slugs))
        (keys_of (declared constants)) end
