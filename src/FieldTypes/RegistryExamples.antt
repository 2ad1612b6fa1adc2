-- ===== src/FieldTypes/RegistryExamples.antt =====
-- A registry of a few types; the theorems on its tree and on the validation at that registry.
use company_data_go.Prelude.{
  ◌≡◌, ◌≢◌, ◌↔◌, refl, inl, codes, String, true, false, Option, none, some, List, [], ◌∷◌, str_eq,
  if◌then◌else◌,
}
use company_data_go.Json.{string, Fields, end, field}
use company_data_go.Flow.Examples.{digit_text}
use company_data_go.FieldTypes.Registry.{Row, contains_string, find_row, if_non_empty, resolve}
use company_data_go.FieldTypes.Tree.{descendants, effective_type}
use company_data_go.FieldTypes.Below.{Below}
use company_data_go.FieldTypes.Descend.{descendants-Below}
use company_data_go.FieldTypes.Values.{SubFieldEntry, Rules}
use company_data_go.FieldTypes.Validate.{is_field_value_valid}
use company_data_go.FieldTypes.Accepted.{
  Accepted, Checked, str_eq-false, is_field_value_valid-Accepted,
}
use company_data_go.FieldTypes.Composite.{IsObject, is_field_value_valid-IsObject}

abbrev row : String → Option String → Option String → List String → Row SubFieldEntry
row t parent input options = record {
  type_name = t;
  parent = parent;
  label = none;
  input = input;
  lane = some "inline";
  check = none;
  options = some options;
  entries = none;
  validation = none;
  is_system = true;
  system_only = false;
}

-- `birthday` and `wedding` are dates; `size` is a choice.
abbrev some_rows : List (Row SubFieldEntry)
some_rows =
    row "date" none (some "date") []
    ∷ row "wedding" (some "birthday") none []
    ∷ row "birthday" (some "date") none []
    ∷ row "size" none (some "list") ("S" ∷ "M" ∷ [])
    ∷ []

date_descendants : descendants some_rows "date" ≡ "date" ∷ "birthday" ∷ "wedding" ∷ []
unfolding descendants
date_descendants = refl

descendants-Below_example :
    (contains_string (descendants some_rows "date") "wedding" ≡ true)
    ↔ Below some_rows "date" "wedding"
descendants-Below_example = descendants-Below some_rows "date" "wedding"

wedding_effective : effective_type some_rows "wedding" ≡ "date"
unfolding effective_type find_row
wedding_effective = refl

-- ── validation ──

-- The decoder of one object; no pattern compiles.
abbrev decode_address : String → Option Fields
decode_address s = if str_eq s "address" then some (field "city" (string "Utrecht") end) else none

abbrev some_rules : Rules
some_rules = record {
  text = digit_text;
  decode = λ s. none;
  decode_object = decode_address;
  compile = λ s. none;
  countries = "NL" ∷ [];
  states = "NY" ∷ [];
}

abbrev city : SubFieldEntry
city = record {
  key = "city";
  input = none;
  required = true;
  check = none;
  validation = none;
  options = [];
}

is_field_value_valid-Accepted_example :
    (is_field_value_valid some_rules some_rows "size" "S" [] ≡ true)
    ↔ Accepted some_rules some_rows "size" "S" []
is_field_value_valid-Accepted_example =
    is_field_value_valid-Accepted some_rules some_rows "size" "S" []

size_known : (resolve some_rows "size").known ≡ true
unfolding resolve find_row
size_known = refl

size_list : (resolve some_rows "size").input ≡ some "list"
unfolding resolve find_row
size_list = refl

size_valid : is_field_value_valid some_rules some_rows "size" "S" [] ≡ true
unfolding is_field_value_valid resolve find_row
size_valid = refl

-- A known composite type with one required sub-field.
abbrev address_rows : List (Row SubFieldEntry)
address_rows =
    record {
      type_name = "address";
      parent = none;
      label = none;
      input = some "composite";
      lane = some "inline";
      check = none;
      options = none;
      entries = some (city ∷ []);
      validation = none;
      is_system = true;
      system_only = false;
    }
    ∷ []

address_known : (resolve address_rows "address").known ≡ true
unfolding resolve find_row
address_known = refl

address_composite : (resolve address_rows "address").input ≡ some "composite"
unfolding resolve find_row
address_composite = refl

abbrev an_address : String
an_address = "address"

address_given : an_address ≢ ""
address_given = str_eq-false "address" "" refl

is_field_value_valid-IsObject_example :
    (is_field_value_valid some_rules address_rows "address" "address" [] ≡ true) ↔ (
      IsObject some_rules "address" (resolve address_rows "address").entries []
      × Checked some_rules
          (if_non_empty (resolve address_rows "address").check)
          (resolve address_rows "address").validations
          (codes "address"))
is_field_value_valid-IsObject_example =
    is_field_value_valid-IsObject some_rules address_rows "address" "address" [] "composite" []
      (inl (refl, refl)) address_given address_known address_composite

address_valid : is_field_value_valid some_rules address_rows "address" "address" [] ≡ true
unfolding is_field_value_valid resolve find_row
address_valid = refl
