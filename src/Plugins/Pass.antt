-- ===== src/Plugins/Pass.antt =====
-- The pass that unlocks plugins, and the errors of a call (companydata/plugin.go: pluginPassFromAPI,
-- publicKeyFor).
use company_data_go.Prelude.{
  ℕ, String, List, [], ◌∷◌, codes, of_codes, str_eq, reverse, ◌==◌, if◌then◌else◌,
}
use company_data_go.Json.{object, Items, nil, cons, Fields, end, field, get}
use company_data_go.Constants.Plugins.{list_in}
use company_data_go.Plugins.Elements.{as_string}
use company_data_go.Plugins.Inputs.{Unavailable, object_under}

-- The errors of a call: of the API, of a missing plugin field, of an input, or of a step that the
-- environment takes.
pub data CallError : Type 0 where
  api_error : (status : ℕ) → (error_key message : String) → CallError
  not_a_plugin : String → CallError
  input_unavailable : Unavailable → CallError
  passed_on : String → CallError

pub data Outcome (A : Type 0) : Type 0 where
  ok : A → Outcome A
  failed : CallError → Outcome A

abbrev pub not_responding : {A : Type 0} → String → Outcome A
not_responding message = failed (api_error 0 "plugin.not_responding" message)

pub record PluginPassPlugin : Type 0 where
  pub id : String
  pub public_key : String

pub record PluginPass : Type 0 where
  pub pass : String
  pub forwarder_url : String
  pub plugins : List PluginPassPlugin
  pub specs : Fields

abbrev drop_slashes : List ℕ → List ℕ
drop_slashes [] = []
drop_slashes (c ∷ cs) = let rest = drop_slashes cs in if c == b'/' then rest else c ∷ cs

abbrev plugins_in : Items → List PluginPassPlugin
plugins_in nil = []
plugins_in (cons (object m) xs) =
    record { id = as_string (get m "id"); public_key = as_string (get m "public_key") }
    ∷ plugins_in xs
plugins_in (cons _ xs) = plugins_in xs

-- The specs that are objects.
abbrev objects_in : Fields → Fields
objects_in end = end
objects_in (field k (object m) rest) = field k (object m) (objects_in rest)
objects_in (field k _ rest) = objects_in rest

unfoldable pub plugin_pass_from_api : Fields → PluginPass
plugin_pass_from_api obj = record {
  pass = as_string (get obj "pass");
  forwarder_url =
      of_codes (reverse (drop_slashes (reverse (codes (as_string (get obj "forwarder_url"))))));
  plugins = plugins_in (list_in (get obj "plugins"));
  specs = objects_in (object_under (get obj "specs"));
}

abbrev key_among : List PluginPassPlugin → String → String
key_among [] id = ""
key_among (p ∷ ps) id = if str_eq p.id id then p.public_key else key_among ps id

unfoldable pub public_key_for : PluginPass → String → String
public_key_for pass id = key_among pass.plugins id
