-- ===== src/Plugins/Values.antt =====
-- The typed view of a plugin answer (companydata/plugin.go: ParsePluginValue).
use company_data_go.Prelude.{ℕ, String, Option, none, some, List, [], ◌∷◌}
use company_data_go.Json.{Value, null, array, object, Items, nil, cons, Fields, get}
use company_data_go.Flow.Scalars.{FloatText, flow_str}
use company_data_go.Flow.Condition.{value_or_null}
use company_data_go.Constants.Plugins.{list_in}
use company_data_go.Plugins.Elements.{as_string}

pub record PluginBlock : Type 0 where
  pub key : String
  pub kind : String
  pub label : String
  pub id : List ℕ
  pub value : Value

pub record PluginOutput : Type 0 where
  pub key : String
  pub type : String
  pub label : String
  pub value : Value

pub record PluginValue : Type 0 where
  pub plugin : String
  pub type : String
  pub blocks : List PluginBlock
  pub outputs : List PluginOutput
  pub raw : Fields

abbrev output_of : Fields → PluginOutput
output_of m = record {
  key = as_string (get m "key");
  type = as_string (get m "type");
  label = as_string (get m "label");
  value = value_or_null (get m "value");
}

abbrev outputs_in : Items → List PluginOutput
outputs_in nil = []
outputs_in (cons (object m) xs) = output_of m ∷ outputs_in xs
outputs_in (cons _ xs) = outputs_in xs

-- `decode` is json.Unmarshal of a text into a value.
module _ (text : FloatText) (decode : String → Option Value) where
  abbrev block_id : Option Value → List ℕ
  block_id none = []
  block_id (some null) = []
  block_id (some v) = flow_str text v

  abbrev block_of : Fields → PluginBlock
  block_of m = record {
    key = as_string (get m "key");
    kind = as_string (get m "kind");
    label = as_string (get m "label");
    id = block_id (get m "id");
    value = value_or_null (get m "value");
  }

  abbrev blocks_in : Items → List PluginBlock
  blocks_in nil = []
  blocks_in (cons (object m) xs) = block_of m ∷ blocks_in xs
  blocks_in (cons _ xs) = blocks_in xs

  -- An unfinished answer has no list of outputs.
  abbrev finished : Fields → Option Value → Option PluginValue
  finished obj (some (array outputs)) = some record {
    plugin = as_string (get obj "plugin");
    type = as_string (get obj "type");
    blocks = blocks_in (list_in (get obj "blocks"));
    outputs = outputs_in outputs;
    raw = obj;
  }
  finished obj (some _) = none
  finished obj none = none

  abbrev value_in : Option Value → Option PluginValue
  value_in (some (object obj)) = finished obj (get obj "outputs")
  value_in (some _) = none
  value_in none = none

  -- `none` is the *ValidationError of the type "plugin".
  unfoldable pub parse_plugin_value : String → Option PluginValue
  parse_plugin_value plaintext = value_in (decode plaintext)
